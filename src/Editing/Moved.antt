-- ===== src/Editing/Moved.antt =====
-- The moving loop of `prepare` of backend/app/core/plan_edit.py: how often a VM stands in a wave.
use virtvalidation.Base.{
  ℕ, ◌+◌, ◌≡◌, refl, inl, inr, Bool, true, false, ◌&&◌, Option, none, some, List, [], ◌∷◌, ◌++◌,
  arith, if◌then◌else◌, Bool-cases, Eq, ◌==◌, nat_Eq, option_Eq, list_Eq, ==→eq, count_by,
  count_by-append,
}
use virtvalidation.Base.Dicts.{get_default-put, Dict, get, get_default, put}
use virtvalidation.Editing.{Membership, Memberships}
use virtvalidation.Editing.Waves.{
  remove_first, ids_of_wave, set_wave, leave_wave, join_wave, Moving,
}
use virtvalidation.Base.Distinct.{contains, contains-append}

module _ {ℓ κ} {K : Type ℓ} {V : Type κ} ⦃e : Eq K⦄ (f : V → ℕ) where
  abbrev pub sum_by : Dict K V → ℕ
  sum_by [] = 0
  sum_by ((k, v) ∷ d) = f v + sum_by d

  sum_by-put :
      (k : K) (v w : V) (d : Dict K V)
      → f w ≡ 0
      → sum_by (put k v d) + f (get_default k w d) ≡ sum_by d + f v
  sum_by-put k v w [] h = omega (arith, h)
  sum_by-put k v w ((j, u) ∷ d) h = ground (arith, sum_by-put k v w d h)

-- How often a VM stands in a list of ids, in the waves of a plan, in all the plans.
abbrev pub times : ℕ → List ℕ → ℕ
times a ids = count_by (λ i. i == a) ids

abbrev pub times_in_plan : ℕ → Membership → ℕ
times_in_plan a waves = sum_by (times a) waves

abbrev pub times_in_all : ℕ → Memberships → ℕ
times_in_all a after = sum_by (times_in_plan a) after

pub times-remove_first :
    (a x : ℕ) (ids : List ℕ)
    → contains ids x ≡ true
    → times a (remove_first x ids) + (if x == a then 1 else 0) ≡ times a ids
times-remove_first a x [] h = cc
times-remove_first a x (y ∷ ys) h = elim (Bool-cases (y == x)) [
  | inl same ↦ rw (same, ==→eq y x same) (omega arith)
  | inr other ↦ rw other (omega (arith, times-remove_first a x ys (ground arith)))
]

contains-remove_first :
    (x y : ℕ) (ids : List ℕ) → (x == y) ≡ false → contains (remove_first x ids) y ≡ contains ids y
contains-remove_first x y [] h = refl
contains-remove_first x y (z ∷ ids) h = ground (arith, contains-remove_first x y ids h)

pub ids_of_wave-set_wave :
    (p n q k : ℕ) (ids : List ℕ) (after : Memberships)
    → ids_of_wave q k (set_wave p n ids after)
      ≡ (if (p == q) && (n == k) then ids else ids_of_wave q k after)
ids_of_wave-set_wave p n q k ids after = elim (Bool-cases (p == q)) [
  | inl same ↦
      rw (get_default-put p q (put n ids (get_default p [] after)) [] after, same, ← ==→eq p q same)
        (get_default-put n k ids [] (get_default p [] after))
  | inr other ↦ rw (get_default-put p q (put n ids (get_default p [] after)) [] after, other)
]

set_wave-times :
    (a p n : ℕ) (ids : List ℕ) (after : Memberships)
    → times_in_all a (set_wave p n ids after) + times a (ids_of_wave p n after)
      ≡ times_in_all a after + times a ids
set_wave-times a p n ids after =
    let waves = get_default p [] after in
    omega (
      arith,
      sum_by-put (times_in_plan a) p (put n ids waves) [] after refl,
      sum_by-put (times a) n ids [] waves refl,
    )

-- A VM that a wave is to lose stands in it.
abbrev pub IsReady : Moving → Memberships → ℕ → Type 0
IsReady m after vid =
    (n : ℕ) → get vid m.waves ≡ some n → contains (ids_of_wave m.plan_id n after) vid ≡ true

abbrev pub is_some : Option ℕ → Bool
is_some none = false
is_some (some n) = true

pub leave_wave-times :
    (a p vid : ℕ) (from : Option ℕ) (after : Memberships)
    → ((n : ℕ) → from ≡ some n → contains (ids_of_wave p n after) vid ≡ true)
    → times_in_all a (leave_wave p from vid after) + (if vid == a && is_some from then 1 else 0)
      ≡ times_in_all a after
unfolding leave_wave
leave_wave-times a p vid none after h = ground arith
leave_wave-times a p vid (some n) after h =
    let ids = ids_of_wave p n after in
    ground (
      arith,
      set_wave-times a p n (remove_first vid ids) after,
      times-remove_first a vid ids (h n refl),
    )

pub join_wave-times :
    (a p vid : ℕ) (dest : Option ℕ) (after : Memberships)
    → times_in_all a (join_wave p dest vid after)
      ≡ times_in_all a after + (if vid == a && is_some dest then 1 else 0)
unfolding join_wave
join_wave-times a p vid none after = ground arith
join_wave-times a p vid (some n) after =
    let ids = ids_of_wave p n after in
    ground (
      arith,
      set_wave-times a p n (ids ++ vid ∷ []) after,
      count_by-append (λ i. i == a) ids (vid ∷ []),
    )

-- Another VM stays where it stands.
pub leave_wave-contains :
    (p q k vid other : ℕ) (from : Option ℕ) (after : Memberships)
    → (vid == other) ≡ false
    → contains (ids_of_wave q k (leave_wave p from vid after)) other
      ≡ contains (ids_of_wave q k after) other
unfolding leave_wave
leave_wave-contains p q k vid other none after h = refl
leave_wave-contains p q k vid other (some n) after h =
    rw (ids_of_wave-set_wave p n q k (remove_first vid (ids_of_wave p n after)) after)
      (elim (Bool-cases (p == q)) [
        | inr apart ↦ rw apart
        | inl same ↦ elim (Bool-cases (n == k)) [
          | inr away ↦ rw (same, away)
          | inl here ↦
              rw (same, here, ← ==→eq p q same, ← ==→eq n k here)
                (contains-remove_first vid other (ids_of_wave p n after) h)
        ]
      ])

pub join_wave-contains :
    (p q k vid other : ℕ) (dest : Option ℕ) (after : Memberships)
    → contains (ids_of_wave q k after) other ≡ true
    → contains (ids_of_wave q k (join_wave p dest vid after)) other ≡ true
unfolding join_wave
join_wave-contains p q k vid other none after h = h
join_wave-contains p q k vid other (some n) after h =
    rw (ids_of_wave-set_wave p n q k (ids_of_wave p n after ++ vid ∷ []) after)
      (elim (Bool-cases (p == q)) [
        | inr apart ↦ rw apart h
        | inl same ↦ elim (Bool-cases (n == k)) [
          | inr away ↦ rw (same, away) h
          | inl here ↦
              rw (same, here, ==→eq p q same, ==→eq n k here)
                (ground (arith, contains-append (ids_of_wave q k after) (vid ∷ []) other, h))
        ]
      ])
