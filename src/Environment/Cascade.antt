-- ===== src/Environment/Cascade.antt =====
-- `detect_environment`: the first signal that names an environment wins.
use virtvalidation.Base.{
  ◌≡◌, refl, sym, ◌∙◌, inl, inr, Bool, true, false, not, ◌&&◌, ◌||◌, Option, none, some, List, [],
  ◌∷◌, if◌then◌else◌, Bool-cases, ◌==◌, nat_Eq, option_Eq, list_Eq, All, any_by,
}
use virtvalidation.Base.Dicts.{Dict, get}
use virtvalidation.Base.Texts.{starts_with, Text, codes, is_upper, is_lower, is_alnum, lower}
use virtvalidation.Environment.{
  Environment, normalize, DetectionResult, folder_rules, cluster_rules, name_prefixes, db_words,
}

-- `token in text`
abbrev pub is_in : Text → Text → Bool
is_in token [] = starts_with token []
is_in token (c ∷ s) = let rest = is_in token s in if starts_with token (c ∷ s) then true else rest

-- The loops over the folder rules and the cluster rules.
unfoldable pub first_token : Dict Text Environment → Text → Option Environment
first_token [] text = none
first_token ((token, env) ∷ rules) text =
    let later = first_token rules text in if is_in token text then some env else later

-- `[-_]` follows.
abbrev pub at_dash : Text → Bool
at_dash [] = false
at_dash (c ∷ s) = c == b'-' || c == b'_'

-- `_NAME_PREFIX_RE.match`: the text behind the prefix starts with a dash or an underscore
abbrev pub has_prefix : Text → Text → Bool
has_prefix [] text = at_dash text
has_prefix (c ∷ s) [] = false
has_prefix (c ∷ s) (d ∷ t) = let rest = has_prefix s t in if c == d then rest else false

unfoldable pub first_name_prefix : Dict Text Environment → Text → Option Environment
first_name_prefix [] text = none
first_name_prefix ((prefix, env) ∷ rules) text =
    let later = first_name_prefix rules text in if has_prefix prefix text then some env else later

-- `(?![a-z])`, case ignored
abbrev pub no_letter : Text → Bool
no_letter [] = true
no_letter (c ∷ s) = not (is_lower c || is_upper c)

abbrev pub is_db_word : Text → Text → Bool
is_db_word [] text = no_letter text
is_db_word (c ∷ s) [] = false
is_db_word (c ∷ s) (d ∷ t) = let rest = is_db_word s t in if c == d then rest else false

-- `_DB_HEURISTIC_RE.search` of a lower-case text, where `inside` says that the character before is
-- one of a word.
unfoldable pub has_db_word : Bool → Text → Bool
has_db_word inside [] = false
has_db_word inside (c ∷ s) =
    let rest = has_db_word (is_alnum c || c == b'_') s in
    if not inside && any_by (λ w. is_db_word w (c ∷ s)) db_words then true else rest

abbrev pub verdict : Environment → Text → Text → DetectionResult
verdict env confidence signal = record {
  environment = env;
  confidence = confidence;
  signal = signal;
}

-- `if env != Environment.UNKNOWN: return ...`, else the next tier
unfoldable pub known_or : Environment → Text → Text → DetectionResult → DetectionResult
known_or Environment.unknown confidence signal next = next
known_or Environment.production confidence signal next =
    verdict Environment.production confidence signal
known_or Environment.development confidence signal next =
    verdict Environment.development confidence signal
known_or Environment.test confidence signal next = verdict Environment.test confidence signal
known_or Environment.staging confidence signal next = verdict Environment.staging confidence signal
known_or Environment.dr confidence signal next = verdict Environment.dr confidence signal
known_or Environment.infrastructure confidence signal next =
    verdict Environment.infrastructure confidence signal
known_or Environment.db_only confidence signal next = verdict Environment.db_only confidence signal
known_or Environment.non_prod confidence signal next =
    verdict Environment.non_prod confidence signal

-- The keys of the custom attributes, in the order in which they are tried.
abbrev pub attribute_keys : List Text
attribute_keys =
    codes "Environment" ∷ codes "environment" ∷ codes "ENV" ∷ codes "env" ∷ codes "Env" ∷ []

unfoldable pub from_attributes : Dict Text Text → List Text → DetectionResult → DetectionResult
unfolding known_or
from_attributes attributes [] next = next
from_attributes attributes (key ∷ keys) next =
    known_or (normalize (get key attributes)) (codes "high") (codes "custom_attribute")
      (from_attributes attributes keys next)

abbrev pub found_or : Option Environment → Text → Text → DetectionResult → DetectionResult
found_or none confidence signal next = next
found_or (some env) confidence signal next = verdict env confidence signal

-- `text or ""`: an absent text is treated as an empty one
abbrev pub text_or_empty : Option Text → Text
text_or_empty none = []
text_or_empty (some s) = s

unfoldable pub from_name : Text → DetectionResult
unfolding first_name_prefix has_db_word
from_name name =
    found_or (first_name_prefix name_prefixes (lower name)) (codes "low") (codes "name_prefix") (
      if has_db_word false (lower name)
      then verdict Environment.db_only (codes "low") (codes "db_heuristic")
      else verdict Environment.unknown (codes "low") (codes "unset"))

unfoldable pub detect_environment :
    Option Text → Option Text → Option Text → Dict Text Text → Option Text → DetectionResult
unfolding known_or from_attributes first_token from_name
detect_environment name folder_path cluster custom_attributes explicit =
    known_or (normalize explicit) (codes "high") (codes "explicit") (
      from_attributes custom_attributes attribute_keys (
        found_or (first_token folder_rules (lower (text_or_empty folder_path))) (codes "high")
          (codes "folder")
          (found_or (first_token cluster_rules (lower (text_or_empty cluster))) (codes "medium")
            (codes "cluster") (from_name (text_or_empty name)))))

abbrev pub is_unknown : Environment → Bool
is_unknown Environment.unknown = true
is_unknown _ = false

-- The verdict says "unset" exactly when the environment is unknown.
abbrev pub IsHonest : DetectionResult → Type 0
IsHonest r = is_unknown r.environment ≡ (r.signal == codes "unset")

known_or-IsHonest :
    (env : Environment) (confidence signal : Text) (next : DetectionResult)
    → (signal == codes "unset") ≡ false
    → IsHonest next
    → IsHonest (known_or env confidence signal next)
unfolding known_or
known_or-IsHonest Environment.unknown confidence signal next h honest = honest
known_or-IsHonest Environment.production confidence signal next h honest = sym h
known_or-IsHonest Environment.development confidence signal next h honest = sym h
known_or-IsHonest Environment.test confidence signal next h honest = sym h
known_or-IsHonest Environment.staging confidence signal next h honest = sym h
known_or-IsHonest Environment.dr confidence signal next h honest = sym h
known_or-IsHonest Environment.infrastructure confidence signal next h honest = sym h
known_or-IsHonest Environment.db_only confidence signal next h honest = sym h
known_or-IsHonest Environment.non_prod confidence signal next h honest = sym h

from_attributes-IsHonest :
    (attributes : Dict Text Text) (keys : List Text) (next : DetectionResult)
    → IsHonest next
    → IsHonest (from_attributes attributes keys next)
unfolding from_attributes
from_attributes-IsHonest attributes [] next h = h
from_attributes-IsHonest attributes (key ∷ keys) next h =
    known_or-IsHonest (normalize (get key attributes)) (codes "high") (codes "custom_attribute")
      (from_attributes attributes keys next) refl (from_attributes-IsHonest attributes keys next h)

-- A rule names an environment.
abbrev IsNamed : Option Environment → Type 0
IsNamed none = Unit
IsNamed (some env) = is_unknown env ≡ false

abbrev AreNamed : Dict Text Environment → Type 0
AreNamed rules = All (λ (rule : Text × Environment). is_unknown rule.1 ≡ false) rules

first_token-IsNamed :
    (rules : Dict Text Environment) (text : Text)
    → AreNamed rules
    → IsNamed (first_token rules text)
unfolding first_token
first_token-IsNamed [] text h = tt
first_token-IsNamed ((token, env) ∷ rules) text h = elim (Bool-cases (is_in token text)) [
  | inl here ↦ rw here h.0
  | inr later ↦ rw later (first_token-IsNamed rules text h.1)
]

first_name_prefix-IsNamed :
    (rules : Dict Text Environment) (text : Text)
    → AreNamed rules
    → IsNamed (first_name_prefix rules text)
unfolding first_name_prefix
first_name_prefix-IsNamed [] text h = tt
first_name_prefix-IsNamed ((prefix, env) ∷ rules) text h =
    elim (Bool-cases (has_prefix prefix text)) [
      | inl here ↦ rw here h.0
      | inr later ↦ rw later (first_name_prefix-IsNamed rules text h.1)
    ]

found_or-IsHonest :
    (found : Option Environment) (confidence signal : Text) (next : DetectionResult)
    → IsNamed found
    → (signal == codes "unset") ≡ false
    → IsHonest next
    → IsHonest (found_or found confidence signal next)
found_or-IsHonest none confidence signal next named h honest = honest
found_or-IsHonest (some env) confidence signal next named h honest = named ∙ sym h

from_name-IsHonest : (name : Text) → IsHonest (from_name name)
unfolding from_name
from_name-IsHonest name =
    found_or-IsHonest (first_name_prefix name_prefixes (lower name)) (codes "low")
      (codes "name_prefix") _
      (first_name_prefix-IsNamed name_prefixes (lower name)
        (refl, (refl, (refl, (refl, (refl, (refl, (refl, (refl, tt)))))))))
      refl
      (elim (Bool-cases (has_db_word false (lower name))) [
        | inl db ↦ rw db refl
        | inr other ↦ rw other refl
      ])

-- The cascade reports an unknown environment exactly when it reports the signal "unset": every
-- tier that answers names an environment, and only the last resort leaves it open.
pub detect_environment-IsHonest :
    (name folder_path cluster : Option Text) (custom_attributes : Dict Text Text)
    (explicit : Option Text)
    → IsHonest (detect_environment name folder_path cluster custom_attributes explicit)
unfolding detect_environment
detect_environment-IsHonest name folder_path cluster custom_attributes explicit =
    known_or-IsHonest (normalize explicit) (codes "high") (codes "explicit") _ refl (
      from_attributes-IsHonest custom_attributes attribute_keys _ (
        found_or-IsHonest (first_token folder_rules (lower (text_or_empty folder_path)))
          (codes "high") (codes "folder") _
          (first_token-IsNamed folder_rules (lower (text_or_empty folder_path)) (
            refl,
            (
              refl,
              (
                refl,
                (
                  refl,
                  (
                    refl,
                    (
                      refl,
                      (refl, (refl, (refl, (refl, (refl, (refl, (refl, (refl, (refl, tt))))))))),
                    ),
                  ),
                ),
              ),
            ),
          ))
          refl
          (found_or-IsHonest (first_token cluster_rules (lower (text_or_empty cluster)))
            (codes "medium") (codes "cluster") _
            (first_token-IsNamed cluster_rules (lower (text_or_empty cluster))
              (refl, (refl, (refl, (refl, (refl, (refl, (refl, (refl, tt)))))))))
            refl (from_name-IsHonest (text_or_empty name)))))
