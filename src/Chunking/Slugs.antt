-- ===== src/Chunking/Slugs.antt =====
-- `slug_for_plan_name`: what characters a slug has, where, and how many.
use virtvalidation.Base.{
  sym, subst, ℕ, zero, suc, ◌≤◌, ◌≡◌, refl, inl, inr, Bool, true, false, not, ◌&&◌, ◌||◌, [], ◌∷◌,
  arith, Bool-cases, ◌==◌, nat_Eq, option_Eq, list_Eq, length, take, length-take, All,
}
use virtvalidation.Base.Texts.{Text, is_upper, is_lower, is_digit, lower_char, lower}
use virtvalidation.Chunking.{
  StrMethods, AllAscii, IsPython, slug_chars, lstrip_dash, keep_unless_dash, rstrip_dash, or_plan,
  slug_for_plan_name,
}

-- A lower-case letter or a digit, and one of these or a dash.
abbrev pub is_label_char : ℕ → Bool
is_label_char c = is_lower c || is_digit c

abbrev pub is_slug_char : ℕ → Bool
is_slug_char c = is_label_char c || c == b'-'

abbrev pub AllSlugChars : Text → Type 0
AllSlugChars s = All (λ c. is_slug_char c ≡ true) s

-- The first character, and the last, is a letter or digit.
abbrev pub starts_right : Text → Bool
starts_right [] = false
starts_right (c ∷ s) = is_label_char c

abbrev pub ends_right : Text → Bool
ends_right [] = false
ends_right (c ∷ s) = let rest = ends_right s in elim s [ [] ↦ is_label_char c | _ ∷ _ ↦ rest ]

-- A label of RFC 1123: not empty, of lower-case letters, digits and dashes, without a dash at
-- either end.
pub record IsLabel (s : Text) : Type 0 where
  pub chars : AllSlugChars s
  pub starts : starts_right s ≡ true
  pub ends : ends_right s ≡ true

abbrev NoUpper : Text → Type 0
NoUpper s = All (λ c. is_upper c ≡ false) s

lower-NoUpper : (s : Text) → NoUpper (lower s)
lower-NoUpper [] = tt
lower-NoUpper (c ∷ s) = (lower_char_no_upper c, lower-NoUpper s)
  where
    lower_char_no_upper : (c : ℕ) → is_upper (lower_char c) ≡ false
    lower_char_no_upper c = ground arith

-- On lower-case ASCII only letters, digits and dashes come out.
slug_chars-AllSlugChars :
    (m : StrMethods)
    → IsPython m
    → (started last_dash : Bool) (s : Text) → AllAscii s
    → NoUpper s
    → AllSlugChars (slug_chars m.isalnum started last_dash s)
unfolding slug_chars
slug_chars-AllSlugChars m py started last_dash [] a h = tt
slug_chars-AllSlugChars m py started last_dash (c ∷ s) a h = elim (Bool-cases (m.isalnum c)) [
  | inl kept ↦ rw kept (
    ground (arith, kept, py.isalnum_ascii c a.0, h.0),
    slug_chars-AllSlugChars m py true false s a.1 h.1,
  )
  | inr other ↦ elim (Bool-cases (not last_dash && started)) [
    | inl dash ↦ rw (other, dash) (refl, slug_chars-AllSlugChars m py started true s a.1 h.1)
    | inr skip ↦ rw (other, skip) (slug_chars-AllSlugChars m py started last_dash s a.1 h.1)
  ]
]

lower-AllAscii : (s : Text) → AllAscii s → AllAscii (lower s)
lower-AllAscii [] h = tt
lower-AllAscii (c ∷ s) h = (ground (arith, h.0), lower-AllAscii s h.1)

-- Empty, or with the right first character.
abbrev opens_right : Text → Bool
opens_right [] = true
opens_right (c ∷ s) = is_label_char c

abbrev closes_right : Text → Bool
closes_right [] = true
closes_right (c ∷ s) = ends_right (c ∷ s)

lstrip_dash-right :
    (s : Text)
    → AllSlugChars s
    → AllSlugChars (lstrip_dash s) × (opens_right (lstrip_dash s) ≡ true)
unfolding lstrip_dash
lstrip_dash-right [] h = (tt, refl)
lstrip_dash-right (c ∷ s) h = elim (Bool-cases (c == b'-')) [
  | inl dash ↦ rw dash (lstrip_dash-right s h.1)
  | inr other ↦ rw other (h, ground (arith, h.0, other))
]

keep_unless_dash-right :
    (c : ℕ) (r : Text)
    → is_slug_char c ≡ true
    → AllSlugChars r
    → closes_right r ≡ true
    → AllSlugChars (keep_unless_dash c r) × (closes_right (keep_unless_dash c r) ≡ true)
keep_unless_dash-right c [] h hs e = elim (Bool-cases (c == b'-')) [
  | inl dash ↦ rw dash (tt, refl)
  | inr other ↦ rw other ((h, tt), ground (arith, h, other))
]
keep_unless_dash-right c (d ∷ r) h hs e = ((h, hs), e)

rstrip_dash-right :
    (s : Text)
    → AllSlugChars s
    → AllSlugChars (rstrip_dash s) × (closes_right (rstrip_dash s) ≡ true)
unfolding rstrip_dash
rstrip_dash-right [] h = (tt, refl)
rstrip_dash-right (c ∷ s) h =
    let r = rstrip_dash-right s h.1 in keep_unless_dash-right c (rstrip_dash s) h.0 r.0 r.1

keep_unless_dash-head :
    (c : ℕ) (r : Text) → is_label_char c ≡ true → starts_right (keep_unless_dash c r) ≡ true
keep_unless_dash-head c [] h = ground (arith, h)
keep_unless_dash-head c (d ∷ r) h = h

-- Stripping the end leaves the start.
rstrip_dash-starts : (s : Text) → starts_right s ≡ true → starts_right (rstrip_dash s) ≡ true
unfolding rstrip_dash
rstrip_dash-starts [] h = h
rstrip_dash-starts (c ∷ s) h = keep_unless_dash-head c (rstrip_dash s) h

rstrip_dash-opens : (s : Text) → opens_right s ≡ true → opens_right (rstrip_dash s) ≡ true
unfolding rstrip_dash
rstrip_dash-opens [] h = refl
rstrip_dash-opens (c ∷ s) h =
    opens (keep_unless_dash c (rstrip_dash s)) (keep_unless_dash-head c (rstrip_dash s) h)
  where
    opens : (t : Text) → starts_right t ≡ true → opens_right t ≡ true
    opens [] k = refl
    opens (d ∷ t) k = k

keep_unless_dash-length : (c : ℕ) (r : Text) → length (keep_unless_dash c r) ≤ suc (length r)
keep_unless_dash-length c [] = ground arith
keep_unless_dash-length c (d ∷ r) = omega arith

rstrip_dash-length : (s : Text) → length (rstrip_dash s) ≤ length s
unfolding rstrip_dash
rstrip_dash-length [] = omega arith
rstrip_dash-length (c ∷ s) =
    omega (arith, keep_unless_dash-length c (rstrip_dash s), rstrip_dash-length s)

or_plan-right :
    (s : Text)
    → AllSlugChars s
    → opens_right s ≡ true
    → AllSlugChars (or_plan s) × (starts_right (or_plan s) ≡ true)
or_plan-right [] h k = ((refl, (refl, (refl, (refl, tt)))), refl)
or_plan-right (c ∷ s) h k = (h, k)

or_plan-same : (s : Text) → starts_right s ≡ true → or_plan s ≡ s
or_plan-same [] h = absurd (cc)
or_plan-same (c ∷ s) h = refl

take-AllSlugChars : (n : ℕ) (s : Text) → AllSlugChars s → AllSlugChars (take n s)
take-AllSlugChars zero s h = tt
take-AllSlugChars (suc n) [] h = tt
take-AllSlugChars (suc n) (c ∷ s) h = (h.0, take-AllSlugChars n s h.1)

take-starts : (n : ℕ) (s : Text) → 1 ≤ n → starts_right s ≡ true → starts_right (take n s) ≡ true
take-starts zero s positive h = absurd (omega arith)
take-starts (suc n) [] positive h = h
take-starts (suc n) (c ∷ s) positive h = h

ends_of_closes : (s : Text) → starts_right s ≡ true → closes_right s ≡ true → ends_right s ≡ true
ends_of_closes [] h k = h
ends_of_closes (c ∷ s) h k = k

-- The first character is there, and is not a dash.
abbrev starts_undashed : Text → Bool
starts_undashed [] = false
starts_undashed (c ∷ s) = not (c == b'-')

keep_unless_dash-undashed :
    (c : ℕ) (r : Text) → not (c == b'-') ≡ true → starts_undashed (keep_unless_dash c r) ≡ true
keep_unless_dash-undashed c [] h = ground (arith, h)
keep_unless_dash-undashed c (d ∷ r) h = h

rstrip_dash-undashed :
    (s : Text) → starts_undashed s ≡ true → starts_undashed (rstrip_dash s) ≡ true
unfolding rstrip_dash
rstrip_dash-undashed [] h = h
rstrip_dash-undashed (c ∷ s) h = keep_unless_dash-undashed c (rstrip_dash s) h

stripped-undashed : (s : Text) → starts_undashed (or_plan (rstrip_dash (lstrip_dash s))) ≡ true
unfolding lstrip_dash rstrip_dash
stripped-undashed [] = refl
stripped-undashed (c ∷ s) = elim (Bool-cases (c == b'-')) [
  | inl dash ↦ rw dash (stripped-undashed s)
  | inr other ↦ rw other (
      kept (keep_unless_dash c (rstrip_dash s))
        (keep_unless_dash-undashed c (rstrip_dash s) (ground (arith, other))))
]
  where
    kept : (t : Text) → starts_undashed t ≡ true → starts_undashed (or_plan t) ≡ true
    kept [] h = absurd (cc)
    kept (d ∷ t) h = h

take-undashed :
    (n : ℕ) (s : Text) → 1 ≤ n → starts_undashed s ≡ true → starts_undashed (take n s) ≡ true
take-undashed zero s positive h = absurd (omega arith)
take-undashed (suc n) [] positive h = h
take-undashed (suc n) (c ∷ s) positive h = h

or_plan-undashed : (s : Text) → starts_undashed s ≡ true → or_plan s ≡ s
or_plan-undashed [] h = absurd (cc)
or_plan-undashed (c ∷ s) h = refl

-- Whatever the letters, a slug is no longer than allowed.
pub slug_for_plan_name-length :
    (m : StrMethods) (value : Text) (max_len : ℕ)
    → 1 ≤ max_len
    → length (slug_for_plan_name m value max_len) ≤ max_len
unfolding slug_for_plan_name
slug_for_plan_name-length m value max_len positive =
    let slug =
      or_plan (rstrip_dash (lstrip_dash (slug_chars m.isalnum false false (m.to_lower value)))) in
    let starts = rstrip_dash-undashed (take max_len slug) (
      take-undashed max_len slug positive
        (stripped-undashed (slug_chars m.isalnum false false (m.to_lower value)))) in
    rw (or_plan-undashed (rstrip_dash (take max_len slug)) starts)
      (omega (arith, rstrip_dash-length (take max_len slug), length-take max_len slug))

-- If the length allowed is positive, the slug of an ASCII text is a label of RFC 1123, and it is no
-- longer than allowed.
pub slug_for_plan_name-IsLabel :
    (m : StrMethods)
    → IsPython m
    → (value : Text) (max_len : ℕ) → AllAscii value
    → 1 ≤ max_len
    → IsLabel (slug_for_plan_name m value max_len)
      × (length (slug_for_plan_name m value max_len) ≤ max_len)
unfolding slug_for_plan_name
slug_for_plan_name-IsLabel m py value max_len ascii positive =
    let lowered = m.to_lower value in
    let same = py.to_lower_ascii value ascii in
    let dashed = slug_chars m.isalnum false false lowered in
    let left = lstrip_dash-right dashed (
      slug_chars-AllSlugChars m py false false lowered
        (subst (λ z. AllAscii z) (sym same) (lower-AllAscii value ascii))
        (subst (λ z. NoUpper z) (sym same) (lower-NoUpper value))) in
    let both = rstrip_dash-right (lstrip_dash dashed) left.0 in
    let slug = or_plan (rstrip_dash (lstrip_dash dashed)) in
    let named =
      or_plan-right (rstrip_dash (lstrip_dash dashed)) both.0
        (rstrip_dash-opens (lstrip_dash dashed) left.1) in
    let cut = rstrip_dash-right (take max_len slug) (take-AllSlugChars max_len slug named.0) in
    let starts =
      rstrip_dash-starts (take max_len slug) (take-starts max_len slug positive named.1) in
    (
      rw (or_plan-same (rstrip_dash (take max_len slug)) starts) (record {
        chars = cut.0;
        starts = starts;
        ends = ends_of_closes (rstrip_dash (take max_len slug)) starts cut.1;
      }),
      slug_for_plan_name-length m value max_len positive,
    )
