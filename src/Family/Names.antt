-- ===== src/Family/Names.antt =====
-- `detect_family`, `split_into_families` and `family_cap` of backend/app/core/family.py.
use virtvalidation.Base.{
  ℕ, ◌+◌, ◌/◌, Bool, ◌||◌, List, [], ◌∷◌, ◌++◌, map, if◌then◌else◌, leb, ◌==◌, list_Eq, nat_Eq,
  any_by,
}
use virtvalidation.Base.Dicts.{Dict, push}
use virtvalidation.Base.Texts.{Text, codes, isdigit, lower, upper, join}
use mathlib.Core.List.{reverse}

abbrev pub role_suffixes : List Text
role_suffixes =
    codes "DC"
    ∷ codes "SQL"
    ∷ codes "DB"
    ∷ codes "WEB"
    ∷ codes "APP"
    ∷ codes "API"
    ∷ codes "CACHE"
    ∷ codes "MQ"
    ∷ codes "LB"
    ∷ codes "PROXY"
    ∷ codes "JUMP"
    ∷ codes "BASTION"
    ∷ codes "AUTH"
    ∷ codes "GW"
    ∷ []

unfoldable pub is_role_suffix : Text → Bool
is_role_suffix t = any_by (λ s. s == t) role_suffixes

abbrev pub is_separator : ℕ → Bool
is_separator c = c == b'-' || c == b'_'

-- One more character in front of the first token.
abbrev pub grow_first : ℕ → List Text → List Text
grow_first c [] = (c ∷ []) ∷ []
grow_first c (t ∷ ts) = (c ∷ t) ∷ ts

-- `_SEPARATORS.split(name)`
unfoldable pub split_name : Text → List Text
split_name [] = [] ∷ []
split_name (c ∷ s) =
    let rest = split_name s in if is_separator c then [] ∷ rest else grow_first c rest

-- `while parts and parts[-1].isdigit(): parts.pop()`, on the tokens with the last one first
unfoldable pub pop_digits : List Text → List Text
pop_digits [] = []
pop_digits (p ∷ ps) = let rest = pop_digits ps in if isdigit p then rest else p ∷ ps

-- `"-".join(p.lower() for p in parts)`, on the tokens with the last one first
unfoldable pub stem : List Text → Text
stem ps = join (codes "-") (reverse (map lower ps))

-- The return statements behind the role suffix.
unfoldable pub with_role : Text → Text → List Text → Text
with_role name role [] = lower name
with_role name role (p ∷ ps) = stem (p ∷ ps) ++ codes "-" ++ lower (upper role)

-- What follows the loop over the trailing digits, on the tokens with the last one first.
unfoldable pub family_of_tokens : Text → List Text → Text
family_of_tokens name [] = lower name
family_of_tokens name (p ∷ ps) =
    if is_role_suffix (upper p) then with_role name p ps else stem (p ∷ ps)

unfoldable pub detect_family : Text → Text
unfolding family_of_tokens pop_digits split_name
detect_family [] = []
detect_family (c ∷ s) = family_of_tokens (c ∷ s) (pop_digits (reverse (split_name (c ∷ s))))

-- The loop of `split_into_families` over the dict built so far.
unfoldable pub split_into_families_from : Dict Text (List Text) → List Text → Dict Text (List Text)
unfolding detect_family
split_into_families_from families [] = families
split_into_families_from families (name ∷ names) =
    split_into_families_from (push (detect_family name) name families) names

unfoldable pub split_into_families : List Text → Dict Text (List Text)
unfolding split_into_families_from
split_into_families names = split_into_families_from [] names

-- `-(-n // 2)` is n / 2 rounded up.
unfoldable pub family_cap : ℕ → ℕ
family_cap family_size = if leb family_size 1 then 1 else (family_size + 1) / 2
