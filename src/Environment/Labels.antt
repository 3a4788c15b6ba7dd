-- ===== src/Environment/Labels.antt =====
-- `normalize`: the labels that it reads.
use virtvalidation.Base.{
  ℕ, ◌≡◌, refl, ap, inl, inr, some, [], ◌∷◌, arith, Bool-cases, nat_Eq, option_Eq, list_Eq,
}
use virtvalidation.Base.Texts.{Text, lower_char, upper_char, upper}
use virtvalidation.Environment.{
  Environment, environment_value, is_space, alias_key, first_prefix, aliases_by_length,
  lookup_alias, normalize,
}
use virtvalidation.Base.Sorting.{sorted}

-- Every environment reads its own value back: `normalize(e.value) == e`.
pub normalize-value : (e : Environment) → normalize (some (environment_value e)) ≡ e
unfolding normalize alias_key lookup_alias first_prefix aliases_by_length sorted
normalize-value Environment.production = refl
normalize-value Environment.development = refl
normalize-value Environment.test = refl
normalize-value Environment.staging = refl
normalize-value Environment.dr = refl
normalize-value Environment.infrastructure = refl
normalize-value Environment.db_only = refl
normalize-value Environment.non_prod = refl
normalize-value Environment.unknown = refl

upper_char-lower : (c : ℕ) → lower_char (upper_char c) ≡ lower_char c
upper_char-lower c = ground arith

upper_char-space : (c : ℕ) → is_space (upper_char c) ≡ is_space c
upper_char-space c = ground arith

alias_key-upper : (s : Text) → alias_key (upper s) ≡ alias_key s
unfolding alias_key
alias_key-upper [] = refl
alias_key-upper (c ∷ s) = elim (Bool-cases (is_space c)) [
  | inl space ↦ rw (upper_char-space c, space) (alias_key-upper s)
  | inr letter ↦ rw (upper_char-space c, letter) (rw (upper_char-lower c, alias_key-upper s))
]

-- The case of a label does not matter: PROD is read as prod.
pub normalize-upper : (s : Text) → normalize (some (upper s)) ≡ normalize (some s)
unfolding normalize
normalize-upper [] = refl
normalize-upper (c ∷ s) = ap lookup_alias (alias_key-upper (c ∷ s))
