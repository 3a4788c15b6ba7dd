-- ===== src/Family/Peers.antt =====
-- Which names `detect_family` takes for one family.
use virtvalidation.Base.{
  ℕ, ◌≡◌, refl, sym, ap, ◌∙◌, ◌≢◌, inl, inr, Bool, true, false, not, List, [], ◌∷◌, ◌++◌, arith,
  if◌then◌else◌, Bool-cases, nat_Eq, option_Eq, list_Eq, All,
}
use virtvalidation.Base.Texts.{Text, is_digit, upper, all_digits, isdigit, join}
use virtvalidation.Family.Names.{
  is_role_suffix, is_separator, grow_first, split_name, pop_digits, stem, with_role,
  family_of_tokens, detect_family,
}
use mathlib.Core.List.{reverse, reverse-append}

-- The name has a token that is neither a number nor, standing alone, a role.
unfoldable pub has_stem : List Text → Bool
has_stem [] = false
has_stem (p ∷ []) = not (is_role_suffix (upper p))
has_stem (p ∷ q ∷ ps) = true

abbrev pub HasStem : Text → Type 0
HasStem name = has_stem (pop_digits (reverse (split_name name))) ≡ true

grow_first-append :
    (c : ℕ) (xs ys : List Text) → xs ≢ [] → grow_first c (xs ++ ys) ≡ grow_first c xs ++ ys
grow_first-append c [] ys h = absurd (h refl)
grow_first-append c (x ∷ xs) ys h = refl

split_name-ne : (s : Text) → split_name s ≢ []
unfolding split_name
split_name-ne [] = ground arith
split_name-ne (c ∷ s) = ground (arith, split_name-ne s)

split_name-append : (s t : Text) → split_name (s ++ b'-' ∷ t) ≡ split_name s ++ split_name t
unfolding split_name
split_name-append [] t = refl
split_name-append (c ∷ s) t = elim (Bool-cases (is_separator c)) [
  | inl sep ↦ rw (sep, split_name-append s t)
  | inr other ↦
      rw (other, split_name-append s t)
        (grow_first-append c (split_name s) (split_name t) (split_name-ne s))
]

split_name-digits : (t : Text) → All (λ c. is_digit c ≡ true) t → split_name t ≡ t ∷ []
unfolding split_name
split_name-digits [] h = refl
split_name-digits (c ∷ t) h =
    let other : is_separator c ≡ false = ground (arith, h.0) in rw (split_name-digits t h.1, other)

-- Without its trailing numbers and its case, the name is all that the family depends on.
family_of_tokens-name :
    (name other : Text) (ps : List Text)
    → has_stem ps ≡ true
    → family_of_tokens name ps ≡ family_of_tokens other ps
unfolding has_stem family_of_tokens with_role
family_of_tokens-name name other [] h = cc
family_of_tokens-name name other (p ∷ []) h = elim (Bool-cases (is_role_suffix (upper p))) [
  | inl role ↦ ground arith
  | inr plain ↦ rw plain
]
family_of_tokens-name name other (p ∷ q ∷ ps) h =
    ap (λ t. if is_role_suffix (upper p) then t else stem (p ∷ q ∷ ps)) refl

pub detect_family-tokens :
    (name : Text)
    → detect_family name ≡ family_of_tokens name (pop_digits (reverse (split_name name)))
unfolding detect_family family_of_tokens stem join is_role_suffix
detect_family-tokens [] = refl
detect_family-tokens (c ∷ s) = refl

isdigit-digits : (c : ℕ) (t : Text) → All (λ d. is_digit d ≡ true) (c ∷ t) → isdigit (c ∷ t) ≡ true
isdigit-digits c t h = go (c ∷ t) h
  where
    go : (l : Text) → All (λ d. is_digit d ≡ true) l → all_digits l ≡ true
    go [] h = refl
    go (d ∷ l) h = rw (h.0, go l h.1)

pop_digits-number :
    (c : ℕ) (t : Text) (ps : List Text)
    → All (λ d. is_digit d ≡ true) (c ∷ t)
    → pop_digits ((c ∷ t) ∷ ps) ≡ pop_digits ps
unfolding pop_digits
pop_digits-number c t ps h = rw (isdigit-digits c t h)

-- A number behind a dash at the end of a name does not change the family, if the name has a token
-- that is neither a number nor, standing alone, a role: `db-main-14` and `db-main-36` are peers.
pub detect_family-number :
    (s : Text) (c : ℕ) (t : Text)
    → HasStem s
    → All (λ d. is_digit d ≡ true) (c ∷ t)
    → detect_family (s ++ b'-' ∷ c ∷ t) ≡ detect_family s
detect_family-number s c t named digits =
    rw (detect_family-tokens, split_name-append, split_name-digits (c ∷ t) digits, reverse-append)
      (rw (pop_digits-number c t (reverse (split_name s)) digits) (
        family_of_tokens-name (s ++ b'-' ∷ c ∷ t) s (pop_digits (reverse (split_name s))) named
        ∙ sym (detect_family-tokens s)))
