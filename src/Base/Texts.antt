-- ===== src/Base/Texts.antt =====
-- Python's `str` as a list of code points, with the ASCII behaviour of the methods that the
-- planner calls.
use virtvalidation.Base.Tests.{if◌then◌else◌, leb, ltb, nat_eq, Bool-cases}
use virtvalidation.Base.Lists.{All}
use virtvalidation.Base.Sorting.{IsOrder}
use Prim.Native.Char.{code}
use Prim.Native.String.{String}
use Prim.Native.Nat.{ℕ, zero, suc, ◌+◌, ◌-◌, ◌*◌, ◌/◌, ◌%◌, ◌<◌}
use mathlib.Core.Path.{◌≡◌, refl, sym, ap, ◌∙◌}
use mathlib.Core.Bool.{Bool, true, false, ◌&&◌, ◌||◌}
use mathlib.Core.Logic.{inl, inr}
use mathlib.Core.List.{List, [], ◌∷◌, ◌++◌, map}
use native.Mathlib.Omega.{arith}

abbrev pub Text : Type 0
Text = List ℕ

-- A literal.
abbrev pub codes : String → Text
codes String.[] = []
codes (String.◌∷◌ c s) = code c ∷ codes s

abbrev pub is_upper : ℕ → Bool
is_upper c = leb b'A' c && leb c b'Z'

abbrev pub is_lower : ℕ → Bool
is_lower c = leb b'a' c && leb c b'z'

abbrev pub is_digit : ℕ → Bool
is_digit c = leb b'0' c && leb c b'9'

-- An ASCII letter or digit
abbrev pub is_alnum : ℕ → Bool
is_alnum c = is_upper c || is_lower c || is_digit c

abbrev pub lower_char : ℕ → ℕ
lower_char c = if is_upper c then c + 32 else c

abbrev pub upper_char : ℕ → ℕ
upper_char c = if is_lower c then c - 32 else c

-- `s.lower()` and `s.upper()`
abbrev pub lower : Text → Text
lower = map lower_char

abbrev pub upper : Text → Text
upper = map upper_char

-- `s.isdigit()`: false of the empty text
abbrev pub all_digits : Text → Bool
all_digits [] = true
all_digits (c ∷ s) = let rest = all_digits s in if is_digit c then rest else false

abbrev pub isdigit : Text → Bool
isdigit [] = false
isdigit (c ∷ s) = all_digits (c ∷ s)

-- `t.startswith(s)`
abbrev pub starts_with : Text → Text → Bool
starts_with [] t = true
starts_with (c ∷ s) [] = false
starts_with (c ∷ s) (d ∷ t) = let rest = starts_with s t in if nat_eq c d then rest else false

-- `sep.join(parts)`
unfoldable pub join : Text → List Text → Text
join sep [] = []
join sep (p ∷ []) = p
join sep (p ∷ q ∷ ps) = p ++ sep ++ join sep (q ∷ ps)

-- `s < t or s == t`, by code points
unfoldable pub text_le : Text → Text → Bool
text_le [] t = true
text_le (c ∷ s) [] = false
text_le (c ∷ s) (d ∷ t) =
    let rest = text_le s t in if ltb c d then true else if nat_eq c d then rest else false

text_le-total : (s t : Text) → text_le s t ≡ false → text_le t s ≡ true
unfolding text_le
text_le-total [] t h = ground arith
text_le-total (c ∷ s) [] h = refl
text_le-total (c ∷ s) (d ∷ t) h = ground (arith, text_le-total s t)

text_le_trans : (s t u : Text) → text_le s t ≡ true → text_le t u ≡ true → text_le s u ≡ true
unfolding text_le
text_le_trans [] t u h k = refl
text_le_trans (c ∷ s) [] u h k = ground arith
text_le_trans (c ∷ s) (d ∷ t) [] h k = ground arith
text_le_trans (c ∷ s) (d ∷ t) (e ∷ u) h k = ground (arith, text_le_trans s t u)

pub text_le-IsOrder : IsOrder text_le
text_le-IsOrder = record { total = text_le-total; trans = text_le_trans }

pub text_le_antisymm : (s t : Text) → text_le s t ≡ true → text_le t s ≡ true → s ≡ t
unfolding text_le
text_le_antisymm [] [] h k = refl
text_le_antisymm [] (d ∷ t) h k = ground arith
text_le_antisymm (c ∷ s) [] h k = ground arith
text_le_antisymm (c ∷ s) (d ∷ t) h k = ground (arith, text_le_antisymm s t)

-- `str(n)`: the digits in front of `acc`. The fuel `n + 1` is enough, since `n / 10 < n`.
unfoldable pub decimal_loop : ℕ → ℕ → Text → Text
decimal_loop zero n acc = acc
decimal_loop (suc fuel) n acc =
    let rest = decimal_loop fuel (n / 10) ((b'0' + n % 10) ∷ acc) in
    if ltb n 10 then (b'0' + n) ∷ acc else rest

unfoldable pub decimal : ℕ → Text
unfolding decimal_loop
decimal n = decimal_loop (n + 1) n []

-- `int(s)` of a text of digits, with the value read so far.
unfoldable pub read_digits : ℕ → Text → ℕ
read_digits v [] = v
read_digits v (c ∷ s) = read_digits (v * 10 + (c - b'0')) s

read_digits-decimal_loop :
    (fuel n : ℕ) (acc : Text)
    → n < fuel
    → read_digits 0 (decimal_loop fuel n acc) ≡ read_digits n acc
unfolding decimal_loop read_digits
read_digits-decimal_loop zero n acc h = absurd (omega arith)
read_digits-decimal_loop (suc fuel) n acc h = elim (Bool-cases (ltb n 10)) [
  | inl small ↦ rw small (ap (λ v. read_digits v acc) (omega arith))
  | inr large ↦ rw large (
      read_digits-decimal_loop fuel (n / 10) ((b'0' + n % 10) ∷ acc) (ground arith)
      ∙ ap (λ v. read_digits v acc) (omega arith))
]

-- Different numbers print differently.
pub decimal-injective : (m n : ℕ) → decimal m ≡ decimal n → m ≡ n
unfolding decimal read_digits
decimal-injective m n e =
    sym (read_digits-decimal_loop (m + 1) m [] (omega arith))
    ∙ ap (read_digits 0) e
    ∙ read_digits-decimal_loop (n + 1) n [] (omega arith)

decimal_loop-digits :
    (fuel n : ℕ) (acc : Text)
    → All (λ c. is_digit c ≡ true) acc
    → All (λ c. is_digit c ≡ true) (decimal_loop fuel n acc)
unfolding decimal_loop
decimal_loop-digits zero n acc h = h
decimal_loop-digits (suc fuel) n acc h = elim (Bool-cases (ltb n 10)) [
  | inl small ↦ rw small (ground arith, h)
  | inr large ↦
      rw large (decimal_loop-digits fuel (n / 10) ((b'0' + n % 10) ∷ acc) (ground arith, h))
]

pub decimal-digits : (n : ℕ) → All (λ c. is_digit c ≡ true) (decimal n)
unfolding decimal
decimal-digits n = decimal_loop-digits (n + 1) n [] tt

-- Tuple keys: the next component is a text, `next` compares the ones behind.
module _ {ℓ} {A : Type ℓ} (key : A → Text) (next : A → A → Bool) where
  abbrev pub by_text : A → A → Bool
  by_text a b =
      if text_le (key a) (key b)
      then (if text_le (key b) (key a) then next a b else true)
      else false

  pub by_text-IsOrder : IsOrder next → IsOrder by_text
  by_text-IsOrder o = record {
    total = λ a b h. ground (arith, o.total a b, text_le-IsOrder.total (key a) (key b));
    trans = λ a b c h k. ground (
      arith,
      o.trans a b c,
      text_le-IsOrder.trans (key a) (key b) (key c),
      text_le-IsOrder.trans (key b) (key c) (key a),
      text_le-IsOrder.trans (key c) (key a) (key b),
    );
  }

  pub by_text_antisymm :
      (a b : A)
      → by_text a b ≡ true
      → by_text b a ≡ true
      → (key a ≡ key b) × (next a b ≡ true) × (next b a ≡ true)
  by_text_antisymm a b h k =
      let ab : text_le (key a) (key b) ≡ true = ground arith in
      let ba : text_le (key b) (key a) ≡ true = ground arith in
      (text_le_antisymm (key a) (key b) ab ba, ground arith, ground arith)
