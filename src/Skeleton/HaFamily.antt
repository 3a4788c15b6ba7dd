-- ===== src/Skeleton/HaFamily.antt =====
-- `_ha_family_key` and `_detect_ha_families`: which groups are HA peers of one another.
use virtvalidation.Base.{
  ℕ, Bool, true, false, ◌&&◌, ◌||◌, Option, none, some, List, [], ◌∷◌, ◌++◌, ltb, if◌then◌else◌,
  ◌==◌, nat_Eq, option_Eq, list_Eq, length, filter_by,
}
use virtvalidation.Base.Dicts.{Dict, get_default, put, push}
use virtvalidation.Base.Texts.{starts_with, Text, codes, is_digit, is_alnum, lower}
use virtvalidation.Group.{HaMember, VmGroup, group_id, is_ha_peer, ha_count}

-- `[a-z0-9.-]`, case ignored
abbrev pub is_domain_char : ℕ → Bool
is_domain_char c = is_alnum c || c == b'.' || c == b'-'

abbrev pub all_domain_chars : Text → Bool
all_domain_chars [] = true
all_domain_chars (c ∷ s) = let rest = all_domain_chars s in if is_domain_char c then rest else false

-- `(?:\.[a-z0-9.-]+)?$` behind the digits
abbrev pub ends_in_domain : Text → Bool
ends_in_domain [] = true
ends_in_domain (c ∷ []) = false
ends_in_domain (c ∷ d ∷ s) = c == b'.' && all_domain_chars (d ∷ s)

-- `\d*` and what follows
unfoldable pub ends_in_number : Text → Bool
ends_in_number [] = true
ends_in_number (c ∷ s) =
    let rest = ends_in_number s in if is_digit c then rest else ends_in_domain (c ∷ s)

-- `\d+` and what follows
unfoldable pub is_number_suffix : Text → Bool
unfolding ends_in_number
is_number_suffix [] = false
is_number_suffix (c ∷ s) = is_digit c && ends_in_number s

-- `_HA_NAME_STRIP_RE` at the start of the text
unfoldable pub matches_strip_re : Text → Bool
unfolding is_number_suffix
matches_strip_re [] = false
matches_strip_re (c ∷ s) =
    if c == b'-' || c == b'_' then is_number_suffix s else is_number_suffix (c ∷ s)

-- `_HA_NAME_STRIP_RE.sub("", name)`: the match runs to the end, so the first one is the only one
unfoldable pub strip_number : Text → Text
unfolding matches_strip_re
strip_number [] = []
strip_number (c ∷ s) =
    let rest = strip_number s in if matches_strip_re (c ∷ s) then [] else c ∷ rest

-- `discriminator[:discriminator.find("/ha:")]`, if it is found
unfoldable pub before_ha : Text → Option Text
before_ha [] = none
before_ha (c ∷ s) =
    let rest = before_ha s in
    if starts_with (codes "/ha:") (c ∷ s)
    then some []
    else elim rest [ none ↦ none | some t ↦ some (c ∷ t) ]

-- `next((m.vm_name for m in ha_members if m.ha_role != "standalone"), "")`
unfoldable pub first_peer_name : List HaMember → Text
unfolding is_ha_peer
first_peer_name [] = []
first_peer_name (m ∷ ms) = let rest = first_peer_name ms in if is_ha_peer m then m.vm_name else rest

abbrev pub or_unknown : Text → Text
or_unknown [] = codes "unknown"
or_unknown (c ∷ s) = c ∷ s

-- `hints[0] if hints else "unknown"`
abbrev pub first_hint : List Text → Text
first_hint [] = codes "unknown"
first_hint (h ∷ hs) = h

unfoldable pub family_stem : VmGroup → Text
unfolding before_ha strip_number first_peer_name
family_stem g = elim (before_ha g.key.discriminator) [
  | some parent ↦ parent
  | none ↦ or_unknown (lower (strip_number (first_peer_name g.ha_members)))
]

-- `_ha_family_key`
unfoldable pub ha_family_key : VmGroup → Option Text
unfolding ha_count family_stem
ha_family_key g =
    if ha_count g == 0
    then none
    else some (
        g.estimated_role
        ++ codes "/"
        ++ first_hint (get_default (codes "application_hints") [] g.shared_attributes)
        ++ codes "/"
        ++ family_stem g)

-- The loop of `_detect_ha_families`.
unfoldable pub collect_families : Dict Text (List Text) → List VmGroup → Dict Text (List Text)
unfolding ha_family_key
collect_families out [] = out
collect_families out (g ∷ gs) =
    collect_families
      (elim (ha_family_key g) [ none ↦ out | some family ↦ push family (group_id g) out ]) gs

-- `_detect_ha_families`: families of one group are left out
unfoldable pub detect_ha_families : List VmGroup → Dict Text (List Text)
unfolding collect_families
detect_ha_families gs =
    filter_by (λ (entry : Text × List Text). ltb 1 (length entry.1)) (collect_families [] gs)

-- `group_to_family = {gid: fam for fam, gids in ... for gid in gids}`
unfoldable pub tag_ids : Text → Dict Text Text → List Text → Dict Text Text
tag_ids family out [] = out
tag_ids family out (id ∷ ids) = tag_ids family (put id family out) ids

unfoldable pub group_to_family : Dict Text Text → Dict Text (List Text) → Dict Text Text
unfolding tag_ids
group_to_family out [] = out
group_to_family out ((family, ids) ∷ rest) = group_to_family (tag_ids family out ids) rest
