-- ===== src/Preclassifier/Ha.antt =====
-- `_name_prefix`, `_has_sequential_names`, `detect_ha_members` and `split_ha_group`.
use virtvalidation.Base.{
  ℕ, ◌+◌, Bool, false, ◌||◌, Option, none, some, List, [], ◌∷◌, ◌++◌, map, ltb, leb, if◌then◌else◌,
  ◌==◌, nat_Eq, option_Eq, list_Eq, length, take, any_by,
}
use virtvalidation.Base.Dicts.{Dict, get_default, push}
use virtvalidation.Base.Texts.{Text, codes, lower, isdigit, text_le, read_digits}
use virtvalidation.Base.Sorting.{sorted, by_nat}
use virtvalidation.Group.{HaMember, VmGroup, group_id, is_ha_peer, ha_count}
use virtvalidation.Preclassifier.Source.{SourceVm}
use virtvalidation.Preclassifier.Roles.{first_pattern}

-- `\d+$` here: the rest is digits, at least one.
abbrev pub is_number : Text → Bool
is_number = isdigit

-- `[-_]?\d+$` here.
abbrev pub is_number_tail : Text → Bool
is_number_tail [] = false
is_number_tail (c ∷ s) = if c == b'-' || c == b'_' then is_number s else is_number (c ∷ s)

-- `re.sub(r"[-_]?\d+$", "", name)`
unfoldable pub strip_sequence : Text → Text
strip_sequence [] = []
strip_sequence (c ∷ s) =
    let rest = strip_sequence s in if is_number_tail (c ∷ s) then [] else c ∷ rest

-- `_name_prefix`; an empty stem gives an empty prefix
unfoldable pub name_prefix : Text → Text
unfolding strip_sequence
name_prefix name = take 12 (lower (strip_sequence name))

-- `^(.*?)(\d+)$`: the text before the last run of digits, and the number of that run
unfoldable pub split_sequence : Text → Option (Text × ℕ)
unfolding read_digits
split_sequence [] = none
split_sequence (c ∷ s) =
    let rest = split_sequence s in
    if is_number (c ∷ s)
    then some ([], read_digits 0 (c ∷ s))
    else elim rest [ none ↦ none | some (prefix, n) ↦ some (c ∷ prefix, n) ]

-- The loop of `_has_sequential_names`.
unfoldable pub sequences_by_prefix : Dict Text (List ℕ) → List Text → Dict Text (List ℕ)
unfolding split_sequence
sequences_by_prefix out [] = out
sequences_by_prefix out (name ∷ names) =
    sequences_by_prefix
      (elim (split_sequence name) [ none ↦ out | some (prefix, n) ↦ push prefix n out ]) names

unfoldable pub has_sequential_names : List Text → Bool
unfolding sequences_by_prefix
has_sequential_names names =
    any_by (λ (e : Text × List ℕ). leb 2 (length e.1)) (sequences_by_prefix [] names)

-- `_HA_PATTERNS`
abbrev pub ha_patterns : Dict Text (List Text)
ha_patterns =
    (
      codes "primary",
      codes "primary"
          ∷ codes "leader"
          ∷ codes "master"
          ∷ codes "active"
          ∷ codes "writer"
          ∷ codes "main"
          ∷ [],
    )
    ∷ (
      codes "replica",
      codes "replica" ∷ codes "secondary" ∷ codes "follower" ∷ codes "reader" ∷ codes "slave" ∷ [],
    )
    ∷ (codes "standby", codes "standby" ∷ codes "passive" ∷ codes "backup" ∷ [])
    ∷ []

-- `detect_ha_role(name)`, which is called without a sequence index
unfoldable pub detect_ha_role : Text → Text
unfolding first_pattern
detect_ha_role name = first_pattern (codes "standalone") ha_patterns name

abbrev pub ha_member : SourceVm → Text → HaMember
ha_member v role = record { vm_id = v.id; vm_name = v.name; ha_role = role }

unfoldable pub pattern_members : List SourceVm → List HaMember
unfolding detect_ha_role
pattern_members [] = []
pattern_members (v ∷ vms) = ha_member v (detect_ha_role v.name) ∷ pattern_members vms

-- `suffixes`: the number of every name with its index, or none if a name has no number
unfoldable pub suffixes_from : ℕ → List SourceVm → Option (List (ℕ × ℕ))
unfolding split_sequence
suffixes_from i [] = some []
suffixes_from i (v ∷ vms) =
    let rest = suffixes_from (i + 1) vms in
    elim (split_sequence v.name) [
      | none ↦ none
      | some (prefix, n) ↦ elim rest [ none ↦ none | some l ↦ some ((n, i) ∷ l) ]
    ]

abbrev pub suffix_le : ℕ × ℕ → ℕ × ℕ → Bool
suffix_le = by_nat (λ (s : ℕ × ℕ). s.0) (λ (s t : ℕ × ℕ). leb s.1 t.1)

-- The members of a sequence: the VM with the index `lowest` is the primary.
unfoldable pub sequence_members : ℕ → ℕ → List SourceVm → List HaMember
sequence_members lowest i [] = []
sequence_members lowest i (v ∷ vms) =
    ha_member v (if i == lowest then codes "primary" else codes "member")
    ∷ sequence_members lowest (i + 1) vms

-- `suffixes.sort()`, then the members by the lowest; `members` if there are fewer than two
unfoldable pub members_by_suffix : List SourceVm → List HaMember → List (ℕ × ℕ) → List HaMember
unfolding sequence_members
members_by_suffix vms members (s ∷ t ∷ rest) = sequence_members s.1 0 vms
members_by_suffix vms members _ = members

unfoldable pub detect_ha_members : List SourceVm → List HaMember
unfolding pattern_members suffixes_from members_by_suffix is_ha_peer
detect_ha_members vms =
    let members = pattern_members vms in
    if any_by is_ha_peer members || ltb (length vms) 2
    then members
    else elim (suffixes_from 0 vms) [
      | none ↦ members
      | some suffixes ↦ members_by_suffix vms members (sorted suffix_le suffixes)
    ]

-- `priority.get(m.ha_role, 5)`
abbrev pub ha_role_priorities : Dict Text ℕ
ha_role_priorities =
    (codes "primary", 0)
    ∷ (codes "standby", 1)
    ∷ (codes "replica", 2)
    ∷ (codes "member", 3)
    ∷ (codes "standalone", 4)
    ∷ []

unfoldable pub ha_role_priority : HaMember → ℕ
ha_role_priority m = get_default m.ha_role 5 ha_role_priorities

abbrev pub member_le : HaMember → HaMember → Bool
member_le = by_nat ha_role_priority (λ (m n : HaMember). text_le m.vm_name n.vm_name)

-- The micro-group of one member.
unfoldable pub micro_group : VmGroup → HaMember → VmGroup
unfolding group_id
micro_group g m = record g {
  key = record (g.key) {
    role = g.estimated_role;
    state = g.estimated_state;
    discriminator = g.key.discriminator ++ codes "/ha:" ++ m.ha_role ++ codes ":" ++ m.vm_name;
  };
  vm_ids = m.vm_id ∷ [];
  notes =
      codes "HA "
      ++ m.ha_role
      ++ codes " of "
      ++ group_id g
      ++ codes
          " — spread across waves so the original cluster keeps a quorum during the migration window";
  ha_members = m ∷ [];
}

unfoldable pub split_ha_group : VmGroup → List VmGroup
unfolding ha_count micro_group sorted
split_ha_group g =
    if ltb (ha_count g) 2 then g ∷ [] else map (micro_group g) (sorted member_le g.ha_members)
