-- ===== src/Chunking/Names.antt =====
-- `compose_series_name`: the names of the plans of one series.
use virtvalidation.Base.Texts.{decimal_loop}
use virtvalidation.Base.{
  ◌<◌, ℕ, zero, suc, ◌+◌, ◌-◌, ◌/◌, ◌%◌, ◌≤◌, min, ◌≡◌, refl, ◌∙◌, inl, inr, Bool, true, false,
  ◌||◌, List, [], ◌∷◌, ◌++◌, arith, ltb, leb, if◌then◌else◌, Bool-cases, ◌==◌, nat_Eq, option_Eq,
  list_Eq, length, length-append, All, All-append, All-imp,
}
use virtvalidation.Base.Texts.{join, Text, codes, is_digit, decimal, decimal-digits}
use virtvalidation.Base.Distinct.{contains, contains-append}
use virtvalidation.Chunking.{
  StrMethods, AllAscii, IsPython, filled, slug_for_plan_name, series_stem, plan_name_slug_max_len,
  compose_series_name,
}
use virtvalidation.Chunking.Slugs.{
  is_slug_char, AllSlugChars, starts_right, ends_right, IsLabel, slug_for_plan_name-IsLabel,
  slug_for_plan_name-length,
}

-- What stands behind the last dash, or the text itself without a dash.
abbrev pub after_dash : Text → Text
after_dash [] = []
after_dash (c ∷ s) =
    let rest = after_dash s in if contains s b'-' then rest else if c == b'-' then s else c ∷ s

digits-contains : (s : Text) → All (λ c. is_digit c ≡ true) s → contains s b'-' ≡ false
digits-contains [] h = refl
digits-contains (c ∷ s) h = ground (arith, h.0, digits-contains s h.1)

after_dash-digits :
    (stem digits : Text)
    → contains digits b'-' ≡ false
    → after_dash (stem ++ b'-' ∷ digits) ≡ digits
after_dash-digits [] digits h = rw h refl
after_dash-digits (c ∷ stem) digits h =
    let there : contains (stem ++ b'-' ∷ digits) b'-' ≡ true =
      contains-append stem (b'-' ∷ digits) b'-' ∙ or_true (contains stem b'-') in
    rw there (after_dash-digits stem digits h)
  where
    or_true : (b : Bool) → (b || true) ≡ true
    or_true b = ground arith

digits-AllSlugChars : (s : Text) → All (λ c. is_digit c ≡ true) s → AllSlugChars s
digits-AllSlugChars s h = All-imp s (λ c d. ground (arith, d)) h

digits-ends : (c : ℕ) (s : Text) → All (λ c. is_digit c ≡ true) (c ∷ s) → ends_right (c ∷ s) ≡ true
digits-ends c [] h = ground (arith, h.0)
digits-ends c (d ∷ s) h = digits-ends d s h.1

append-starts : (s t : Text) → starts_right s ≡ true → starts_right (s ++ t) ≡ true
append-starts [] t h = absurd (cc)
append-starts (c ∷ s) t h = h

append-ends :
    (s : Text) (c : ℕ) (t : Text) → ends_right (c ∷ t) ≡ true → ends_right (s ++ c ∷ t) ≡ true
append-ends [] c t h = h
append-ends (d ∷ []) c t h = h
append-ends (d ∷ e ∷ s) c t h = append-ends (e ∷ s) c t h

IsLabel-numbered :
    (stem digits : Text)
    → IsLabel stem
    → All (λ c. is_digit c ≡ true) digits
    → 1 ≤ length digits
    → IsLabel (stem ++ b'-' ∷ digits)
IsLabel-numbered stem [] label h some_digit = absurd (omega arith)
IsLabel-numbered stem (c ∷ digits) label h some_digit = record {
  chars =
      All-append (λ c. is_slug_char c ≡ true) stem _ label.chars
        (refl, digits-AllSlugChars (c ∷ digits) h);
  starts = append-starts stem _ label.starts;
  ends = append-ends stem b'-' (c ∷ digits) (digits-ends c digits h);
}

decimal_loop-grows :
    (fuel n : ℕ) (acc : Text) → min 1 fuel + length acc ≤ length (decimal_loop fuel n acc)
unfolding decimal_loop
decimal_loop-grows zero n acc = omega arith
decimal_loop-grows (suc fuel) n acc = elim (Bool-cases (ltb n 10)) [
  | inl small ↦ rw small (omega arith)
  | inr large ↦ rw large (omega (arith, decimal_loop-grows fuel (n / 10) ((b'0' + n % 10) ∷ acc)))
]

decimal-some : (n : ℕ) → 1 ≤ length (decimal n)
unfolding decimal
decimal-some n = omega (arith, decimal_loop-grows (n + 1) n [])

append-AllAscii : (s t : Text) → AllAscii s → AllAscii t → AllAscii (s ++ t)
append-AllAscii s t h k = All-append (λ c. c < 128) s t h k

filled-AllAscii : (parts : List Text) → All AllAscii parts → All AllAscii (filled parts)
filled-AllAscii [] h = tt
filled-AllAscii ([] ∷ parts) h = filled-AllAscii parts h.1
filled-AllAscii ((c ∷ s) ∷ parts) h = (h.0, filled-AllAscii parts h.1)

join-AllAscii :
    (sep : Text) (parts : List Text) → AllAscii sep → All AllAscii parts → AllAscii (join sep parts)
unfolding join
join-AllAscii sep [] a h = tt
join-AllAscii sep (p ∷ []) a h = h.0
join-AllAscii sep (p ∷ q ∷ ps) a h =
    append-AllAscii (p ++ sep) (join sep (q ∷ ps)) (append-AllAscii p sep h.0 a)
      (join-AllAscii sep (q ∷ ps) a h.1)

series_stem-AllAscii :
    (base : Text) (partition : List Text) (multi : Bool)
    → AllAscii base
    → All AllAscii partition
    → AllAscii (series_stem base partition multi)
unfolding series_stem
series_stem-AllAscii base partition true h hs =
    join-AllAscii (codes "-") (base ∷ filled partition) (omega arith, tt)
      (h, filled-AllAscii partition hs)
series_stem-AllAscii base partition false h hs =
    join-AllAscii (codes "-") (base ∷ []) (omega arith, tt) (h, tt)

-- The name of a plan of a series of several plans, whose number has at most 61 digits, has at most
-- 63 characters whatever the letters of the base name, and what stands behind its last dash is the
-- number, which is not cut off.
pub compose_series_name-decimal :
    (m : StrMethods) (base : Text) (partition : List Text) (index total : ℕ) (multi : Bool)
    → 2 ≤ total
    → length (decimal index) ≤ 61
    → (length (compose_series_name m base partition index total multi) ≤ 63)
      × (after_dash (compose_series_name m base partition index total multi) ≡ decimal index)
unfolding compose_series_name
compose_series_name-decimal m base partition index total multi h short =
    let one : leb total 1 ≡ false = ground (arith, h) in
    let room = plan_name_slug_max_len - length (codes "-" ++ decimal index) in
    let fits =
      slug_for_plan_name-length m (series_stem base partition multi) room (omega (arith, short)) in
    let stem = slug_for_plan_name m (series_stem base partition multi) room in
    rw one (
      omega (arith, fits, short, length-append stem (b'-' ∷ decimal index)),
      after_dash-digits stem (decimal index)
          (digits-contains (decimal index) (decimal-digits index)),
    )

-- If the base name and the names of the partition are ASCII, the name of a plan of a series of
-- several plans, whose number has at most 61 digits, is a label of RFC 1123.
pub compose_series_name-IsLabel :
    (m : StrMethods)
    → IsPython m
    → (base : Text) (partition : List Text) (index total : ℕ) (multi : Bool) → AllAscii base
    → All AllAscii partition
    → 2 ≤ total
    → length (decimal index) ≤ 61
    → IsLabel (compose_series_name m base partition index total multi)
unfolding compose_series_name
compose_series_name-IsLabel m py base partition index total multi ascii parts h short =
    let one : leb total 1 ≡ false = ground (arith, h) in
    let room = plan_name_slug_max_len - length (codes "-" ++ decimal index) in
    let slug =
      slug_for_plan_name-IsLabel m py (series_stem base partition multi) room
        (series_stem-AllAscii base partition multi ascii parts) (omega (arith, short)) in
    let stem = slug_for_plan_name m (series_stem base partition multi) room in
    rw one
      (IsLabel-numbered stem (decimal index) slug.0 (decimal-digits index) (decimal-some index))
