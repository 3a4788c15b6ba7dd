-- ===== src/Concurrency/Colours.antt =====
-- Waves that conflict never share a colour.
use virtvalidation.Base.{
  ℕ, zero, suc, ◌+◌, ◌≤◌, ◌<◌, ◌≡◌, refl, sym, subst, inl, inr, true, false, ◌||◌, none, some, List,
  [], ◌∷◌, arith, leb, if◌then◌else◌, Bool-cases, Eq, ◌==◌, nat_Eq, option_Eq, list_Eq, ==→eq,
  ==-refl, length, All, All-imp, count_by, count_by-le-length, All-zip, All-always,
}
use virtvalidation.Base.Dicts.{Dict, get, has_key, put, get-put}
use virtvalidation.Base.Texts.{Text}
use virtvalidation.Base.Distinct.{contains}
use virtvalidation.Skeleton.Wave.{Wave}
use virtvalidation.Concurrency.{
  vcenters_for_wave, meets, conflicts, waves_conflict, used_colors, lowest_color, color_for,
  color_waves,
}

-- The colours from `color` on.
abbrev from_color : ℕ → List ℕ → ℕ
from_color color used = count_by (leb color) used

from_color-le : (c : ℕ) (used : List ℕ) → from_color (c + 1) used ≤ from_color c used
from_color-le c [] = omega arith
from_color-le c (u ∷ used) = ground (arith, from_color-le c used)

from_color-step :
    (c : ℕ) (used : List ℕ) → contains used c ≡ true → from_color (c + 1) used < from_color c used
from_color-step c [] h = cc
from_color-step c (u ∷ used) h = ground (arith, from_color-step c used, from_color-le c used)

lowest_color-free :
    (used : List ℕ) (fuel color : ℕ)
    → from_color color used < fuel
    → contains used (lowest_color used fuel color) ≡ false
unfolding lowest_color
lowest_color-free used zero color h = absurd (omega arith)
lowest_color-free used (suc fuel) color h = elim (Bool-cases (contains used color)) [
  | inl taken ↦
      rw taken
        (lowest_color-free used fuel (color + 1) (omega (arith, from_color-step color used taken)))
  | inr free ↦ rw (free, free) refl
]

module _ {ℓ} {A : Type ℓ} ⦃e : Eq A⦄ where
  meets-cons :
      (ys : List A) (x : A) (xs : List A) → meets ys (x ∷ xs) ≡ (contains ys x || meets ys xs)
  meets-cons [] x xs = refl
  meets-cons (y ∷ ys) x xs = ground (arith, meets-cons ys x xs, e.beq_iff x y, e.beq_iff y x)

  meets_sym : (xs ys : List A) → meets xs ys ≡ true → meets ys xs ≡ true
  meets_sym [] ys h = cc
  meets_sym (x ∷ xs) ys h = ground (arith, meets-cons ys x xs, meets_sym xs ys)

conflicts_sym :
    (a b : Wave) (fa fb : List Text) → conflicts a b fa fb ≡ true → conflicts b a fb fa ≡ true
unfolding conflicts
conflicts_sym a b fa fb h =
    ground (arith, meets_sym (vcenters_for_wave a) (vcenters_for_wave b), meets_sym fa fb)

has_key-put : (k j v : ℕ) (d : Dict ℕ ℕ) → has_key j d ≡ true → has_key j (put k v d) ≡ true
has_key-put k j v d h = ground (arith, get-put k j v d)

has_key-put_same : (k v : ℕ) (d : Dict ℕ ℕ) → has_key k (put k v d) ≡ true
has_key-put_same k v d = ground (arith, get-put k k v d, ==-refl k)

module _ (families : Dict ℕ (List Text)) where
  -- The colour of a wave that conflicts with `w` is one of the used colours.
  used_colors-contains :
      (assignments : Dict ℕ ℕ) (w : Wave) (others : List Wave)
      → All
          (λ (b : Wave).
            (d : ℕ)
            → (b.wave_number == w.wave_number) ≡ false
            → get b.wave_number assignments ≡ some d
            → waves_conflict families w b ≡ true
            → contains (used_colors families assignments w others) d ≡ true)
          others
  unfolding used_colors
  used_colors-contains assignments w [] = tt
  used_colors-contains assignments w (b ∷ others) = (
    λ d other found conflict. rw (other, found, conflict) (rw (==-refl d)),
    All-imp others
        (λ c used d other found conflict.
          grow (used_colors families assignments w others) d (used d other found conflict))
        (used_colors-contains assignments w others),
  )
    where
      grow :
          (used : List ℕ) (d : ℕ)
          → contains used d ≡ true
          → contains
              (if b.wave_number == w.wave_number
                then used
                else elim (get b.wave_number assignments) [
                  | none ↦ used
                  | some color ↦ if waves_conflict families w b then color ∷ used else used
                ])
              d
            ≡ true
      grow used d h = ground arith

  module _ (ordered : List Wave) where
    -- Two waves with different numbers that conflict have different colours.
    abbrev pub Differ : Dict ℕ ℕ → Wave → Wave → Type 0
    Differ assignments a b =
        (c d : ℕ)
        → (a.wave_number == b.wave_number) ≡ false
        → waves_conflict families a b ≡ true
        → get a.wave_number assignments ≡ some c
        → get b.wave_number assignments ≡ some d
        → (c == d) ≡ false

    abbrev pub IsProper : Dict ℕ ℕ → Type 0
    IsProper assignments =
        All (λ (a : Wave). All (λ (b : Wave). Differ assignments a b) ordered) ordered

    -- No other wave has the number of `w`.
    abbrev pub IsOnly : Wave → Type 0
    IsOnly w = All (λ (a : Wave). (a.wave_number == w.wave_number) ≡ true → a ≡ w) ordered

    color_for-free :
        (assignments : Dict ℕ ℕ) (w : Wave)
        → contains
            (used_colors families assignments w ordered)
            (color_for families assignments w ordered)
          ≡ false
    unfolding color_for
    color_for-free assignments w =
        let used = used_colors families assignments w ordered in
        lowest_color-free used (length used + 1) 0 (omega (arith, count_by-le-length (leb 0) used))

    color-Differ :
        (assignments : Dict ℕ ℕ) (w b : Wave)
        → ((d : ℕ)
            → (b.wave_number == w.wave_number) ≡ false
            → get b.wave_number assignments ≡ some d
            → waves_conflict families w b ≡ true
            → contains (used_colors families assignments w ordered) d ≡ true)
        → Differ (put w.wave_number (color_for families assignments w ordered) assignments) w b
    color-Differ assignments w b used c d other conflict gc gd =
        let col = color_for families assignments w ordered in
        let is_color : some col ≡ some c =
          rw (get-put w.wave_number w.wave_number col assignments, ==-refl w.wave_number) at gc in
        let other' : (b.wave_number == w.wave_number) ≡ false = ground (arith, other) in
        let found : get b.wave_number assignments ≡ some d =
          rw (get-put w.wave_number b.wave_number col assignments, other) at gd in
        elim (Bool-cases (c == d)) [
          | inl same ↦
              let taken = used d other' found conflict in
              let free = color_for-free assignments w in
              let at_d : col ≡ d = color_eq col c d is_color (==→eq c d same) in
              absurd (clash (used_colors families assignments w ordered) col d at_d free taken)
          | inr e ↦ e
        ]
      where
        color_eq : (x y z : ℕ) → some x ≡ some y → y ≡ z → x ≡ z
        color_eq x y z e e' = cc

        clash :
            (used : List ℕ) (x y : ℕ) → x ≡ y → contains used x ≡ false → contains used y ≡ true → ⊥
        clash used x y e h k = cc

    number_flip : (a b : ℕ) → (a == b) ≡ false → (b == a) ≡ false
    number_flip a b h = ground (arith, h)

    -- What a wave contributes to the step for `w`.
    abbrev Contributes : Dict ℕ ℕ → Wave → Wave → Type 0
    Contributes assignments w b =
        ((b.wave_number == w.wave_number) ≡ true → b ≡ w)
        × ((d : ℕ)
            → (b.wave_number == w.wave_number) ≡ false
            → get b.wave_number assignments ≡ some d
            → waves_conflict families w b ≡ true
            → contains (used_colors families assignments w ordered) d ≡ true)

    Differ-put :
        (assignments : Dict ℕ ℕ) (w a b : Wave)
        → Contributes assignments w a
        → Contributes assignments w b
        → Differ assignments a b
        → Differ (put w.wave_number (color_for families assignments w ordered) assignments) a b
    Differ-put assignments w a b ca cb old = elim (Bool-cases (a.wave_number == w.wave_number)) [
      | inl a_new ↦
          subst
            (λ (x : Wave).
              Differ (put w.wave_number (color_for families assignments w ordered) assignments) x b)
            (sym (ca.0 a_new)) (color-Differ assignments w b cb.1)
      | inr a_old ↦ elim (Bool-cases (b.wave_number == w.wave_number)) [
        | inl b_new ↦
            subst
              (λ (x : Wave).
                Differ (put w.wave_number (color_for families assignments w ordered) assignments) a
                  x)
              (sym (cb.0 b_new))
              (λ c d other conflict gc gd. number_flip d c (
                color-Differ assignments w a ca.1 d c
                  (number_flip a.wave_number w.wave_number other) (conflicts_sym a w _ _ conflict)
                  gd gc))
        | inr b_old ↦ λ c d other conflict gc gd.
            let col = color_for families assignments w ordered in
            let a_other = number_flip a.wave_number w.wave_number a_old in
            let b_other = number_flip b.wave_number w.wave_number b_old in
            old c d other conflict
              (rw (get-put w.wave_number a.wave_number col assignments, a_other) at gc)
              (rw (get-put w.wave_number b.wave_number col assignments, b_other) at gd)
      ]
    ]

    IsProper-put :
        (assignments : Dict ℕ ℕ) (w : Wave)
        → IsOnly w
        → IsProper assignments
        → IsProper (put w.wave_number (color_for families assignments w ordered) assignments)
    IsProper-put assignments w only proper =
        let all = All-zip _ _ ordered only (used_colors-contains assignments w ordered) in
        All-imp ordered
          (λ a h.
            All-imp ordered (λ b k. Differ-put assignments w a b h.0 k.0 k.1)
              (All-zip _ _ ordered all h.1))
          (All-zip _ _ ordered all proper)

    pub color_waves-IsProper :
        (assignments : Dict ℕ ℕ) (ws : List Wave)
        → All IsOnly ws
        → IsProper assignments
        → IsProper (color_waves families ordered assignments ws)
    unfolding color_waves
    color_waves-IsProper assignments [] only proper = proper
    color_waves-IsProper assignments (w ∷ ws) only proper =
        color_waves-IsProper
          (put w.wave_number (color_for families assignments w ordered) assignments) ws only.1
          (IsProper-put assignments w only.0 proper)

    pub IsProper-start : IsProper []
    IsProper-start =
        All-always _ ordered (λ a. All-always _ ordered (λ b c d other conflict gc gd. absurd cc))

    color_waves-keeps :
        (assignments : Dict ℕ ℕ) (ws : List Wave) (n : ℕ)
        → has_key n assignments ≡ true
        → has_key n (color_waves families ordered assignments ws) ≡ true
    unfolding color_waves
    color_waves-keeps assignments [] n h = h
    color_waves-keeps assignments (w ∷ ws) n h =
        color_waves-keeps (put w.wave_number (color_for families assignments w ordered) assignments)
          ws n
          (has_key-put w.wave_number n (color_for families assignments w ordered) assignments h)

    pub color_waves-colored :
        (assignments : Dict ℕ ℕ) (ws : List Wave)
        → All
            (λ (w : Wave).
              has_key w.wave_number (color_waves families ordered assignments ws) ≡ true)
            ws
    unfolding color_waves
    color_waves-colored assignments [] = tt
    color_waves-colored assignments (w ∷ ws) =
        let next = put w.wave_number (color_for families assignments w ordered) assignments in
        (
          color_waves-keeps next ws w.wave_number (
              has_key-put_same w.wave_number (color_for families assignments w ordered)
                assignments),
          color_waves-colored next ws,
        )
