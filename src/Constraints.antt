-- ===== src/Constraints.antt =====
-- backend/app/core/wave_constraints.py: the rule checks of a wave layout that was edited by hand.
pub mod Sizes
pub mod Edits
use virtvalidation.Base.{
  ℕ, ◌+◌, Bool, true, ◌&&◌, Option, none, some, List, [], ◌∷◌, ◌++◌, map, ltb, leb, if◌then◌else◌,
  Eq, ◌==◌, nat_Eq, option_Eq, list_Eq, length, take, filter_by,
}
use virtvalidation.Base.Dicts.{Dict, get_default, push, increment}
use virtvalidation.Base.Texts.{Text, codes, join, text_le, decimal}
use virtvalidation.Base.Sorting.{sorted}
use virtvalidation.Base.Keys.{keys}
use virtvalidation.Skeleton.Wave.{max_vms_per_wave}
use virtvalidation.Family.Names.{detect_family, family_cap}

-- `WaveMembers`
abbrev pub WaveMembers : Type 0
WaveMembers = Dict ℕ (List (ℕ × Text))

pub record Violation : Type 0 where
  pub code : Text
  pub severity : Text
  pub message : Text
  pub plan_id : Option ℕ
  pub wave_number : Option ℕ
  pub family : Option Text
  pub vm_ids : List ℕ
  pub vm_names : List Text
  pub count : Option ℕ
  pub limit : Option ℕ

-- `Violation.key`, as the comparison of two keys
unfoldable pub same_key : Violation → Violation → Bool
same_key v w =
    v.code == w.code
    && v.plan_id == w.plan_id
    && v.wave_number == w.wave_number
    && v.family == w.family

abbrev pub members_at : WaveMembers → ℕ → List (ℕ × Text)
members_at waves number = get_default number [] waves

unfoldable pub size_message : ℕ → ℕ → ℕ → Text
size_message number present max_vms =
    codes "Wave "
    ++ decimal number
    ++ codes " would hold "
    ++ decimal present
    ++ codes " VMs; the planner keeps waves to "
    ++ decimal max_vms
    ++ codes " because MTV throttles concurrent migrations per ESXi host."

unfoldable pub size_violation : Option ℕ → ℕ → ℕ → ℕ → Violation
unfolding size_message
size_violation plan_id max_vms number present = record {
  code = codes "wave_size";
  severity = codes "overridable";
  message = size_message number present max_vms;
  plan_id = plan_id;
  wave_number = some number;
  family = none;
  vm_ids = [];
  vm_names = [];
  count = some present;
  limit = some max_vms;
}

-- The loop over the wave numbers.
unfoldable pub size_violations_of : Option ℕ → ℕ → WaveMembers → List ℕ → List Violation
unfolding size_violation
size_violations_of plan_id max_vms waves [] = []
size_violations_of plan_id max_vms waves (number ∷ numbers) =
    let rest = size_violations_of plan_id max_vms waves numbers in
    let present = length (members_at waves number) in
    if leb present max_vms then rest else size_violation plan_id max_vms number present ∷ rest

unfoldable pub wave_size_violations : Option ℕ → ℕ → WaveMembers → List Violation
unfolding size_violations_of
wave_size_violations plan_id max_vms waves =
    size_violations_of plan_id max_vms waves (sorted leb (keys waves))

-- `family_sizes`
unfoldable pub count_members : Dict Text ℕ → List (ℕ × Text) → Dict Text ℕ
count_members sizes [] = sizes
count_members sizes ((vid, name) ∷ members) =
    count_members (increment (detect_family name) sizes) members

unfoldable pub sizes_from : Dict Text ℕ → WaveMembers → Dict Text ℕ
unfolding count_members
sizes_from sizes [] = sizes
sizes_from sizes ((number, members) ∷ waves) = sizes_from (count_members sizes members) waves

unfoldable pub family_sizes : WaveMembers → Dict Text ℕ
unfolding sizes_from
family_sizes waves = sizes_from [] waves

unfoldable pub by_family_from :
    Dict Text (List (ℕ × Text)) → List (ℕ × Text) → Dict Text (List (ℕ × Text))
by_family_from by_family [] = by_family
by_family_from by_family ((vid, name) ∷ members) =
    by_family_from (push (detect_family name) (vid, name) by_family) members

abbrev pub ids_in : List (ℕ × Text) → List ℕ
ids_in members = map (λ (m : ℕ × Text). m.0) members

abbrev pub names_in : List (ℕ × Text) → List Text
names_in members = map (λ (m : ℕ × Text). m.1) members

unfoldable pub family_message : ℕ → ℕ → Text → ℕ → List (ℕ × Text) → Text
unfolding join
family_message number size family cap present =
    codes "Wave "
    ++ decimal number
    ++ codes " would hold "
    ++ decimal (length present)
    ++ codes " of the "
    ++ decimal size
    ++ codes " '"
    ++ family
    ++ codes "' VMs ("
    ++ join (codes ", ") (names_in (take 6 present))
    ++ (if ltb 6 (length present) then codes "…" else [])
    ++ codes "); the planner allows at most "
    ++ decimal cap
    ++ codes " per wave so the source cluster keeps quorum."

unfoldable pub family_violation : Option ℕ → ℕ → ℕ → Text → ℕ → List (ℕ × Text) → Violation
unfolding family_message
family_violation plan_id number size family cap present = record {
  code = codes "ha_family_cap";
  severity = codes "overridable";
  message = family_message number size family cap present;
  plan_id = plan_id;
  wave_number = some number;
  family = some family;
  vm_ids = ids_in present;
  vm_names = names_in present;
  count = some (length present);
  limit = some cap;
}

-- The loop over the families of one wave.
unfoldable pub family_violations_in :
    Option ℕ → Dict Text ℕ → ℕ → Dict Text (List (ℕ × Text)) → List Text → List Violation
unfolding family_violation
family_violations_in plan_id sizes number by_family [] = []
family_violations_in plan_id sizes number by_family (family ∷ families) =
    let rest = family_violations_in plan_id sizes number by_family families in
    let size = get_default family 0 sizes in
    let cap = family_cap size in
    let present = get_default family [] by_family in
    if ltb size 2
    then rest
    else if leb (length present) cap
    then rest
    else family_violation plan_id number size family cap present ∷ rest

unfoldable pub family_violations_of : Option ℕ → Dict Text ℕ → WaveMembers → List ℕ → List Violation
unfolding by_family_from family_violations_in
family_violations_of plan_id sizes waves [] = []
family_violations_of plan_id sizes waves (number ∷ numbers) =
    let by_family = by_family_from [] (members_at waves number) in
    family_violations_in plan_id sizes number by_family (sorted text_le (keys by_family))
    ++ family_violations_of plan_id sizes waves numbers

unfoldable pub ha_family_violations : Option ℕ → WaveMembers → List Violation
unfolding family_sizes family_violations_of
ha_family_violations plan_id waves =
    family_violations_of plan_id (family_sizes waves) waves (sorted leb (keys waves))

unfoldable pub check_waves : Option ℕ → WaveMembers → List Violation
unfolding wave_size_violations ha_family_violations
check_waves plan_id waves =
    wave_size_violations plan_id max_vms_per_wave waves ++ ha_family_violations plan_id waves

abbrev pub count_or_zero : Violation → ℕ
count_or_zero v = elim v.count [ none ↦ 0 | some n ↦ n ]

-- `prior.get(v.key)`: of two violations with one key the later counts
unfoldable pub prior_count : List Violation → Violation → Option ℕ
prior_count [] v = none
prior_count (w ∷ ws) v =
    let later = prior_count ws v in
    elim later [ some n ↦ some n | none ↦ if same_key w v then some (count_or_zero w) else none ]

unfoldable pub diff_violations : List Violation → List Violation → List Violation
unfolding prior_count
diff_violations before after =
    filter_by
      (λ (v : Violation). elim (prior_count before v) [
        | none ↦ true
        | some n ↦ ltb n (count_or_zero v)
      ])
      after
