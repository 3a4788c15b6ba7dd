-- ===== src/Editing/Alone.antt =====
-- Edits of one plan (backend/app/core/plan_edit.py), and lists with the same counts.
use virtvalidation.Base.{
  ℕ, ◌≤◌, ◌≡◌, refl, sym, ap, ◌∙◌, subst, inl, inr, false, Option, none, some, List, [], ◌∷◌, ◌++◌,
  arith, ltb, Bool-cases, ◌==◌, nat_Eq, option_Eq, list_Eq, ==→eq, ==-refl, count_by-append,
}
use virtvalidation.Base.Dicts.{get, get_default, put}
use mathlib.Core.List.{Perm}
use virtvalidation.Base.Distinct.{contains, Distinct, perm_of_contains}
use virtvalidation.Editing.{Membership, Memberships}
use virtvalidation.Editing.Waves.{
  set_wave, ids_of_wave, remove_first, leave_wave, join_wave, Moving, stays, move_vm, move_vms,
}
use virtvalidation.Editing.Moved.{times, times_in_plan, times_in_all}
use virtvalidation.Editing.Sound.{ids_in_waves}

times-contains : (a : ℕ) (xs : List ℕ) → contains xs a ≡ ltb 0 (times a xs)
times-contains a [] = refl
times-contains a (x ∷ xs) = ground (arith, times-contains a xs)

pub Distinct-times : (a : ℕ) (xs : List ℕ) → Distinct xs → times a xs ≤ 1
Distinct-times a [] d = omega arith
Distinct-times a (x ∷ xs) d = elim (Bool-cases (x == a)) [
  | inl same ↦
      rw same (
        ground
          (arith, subst (λ z. contains xs z ≡ false) (==→eq x a same) d.0, times-contains a xs))
  | inr other ↦ rw other (omega (arith, Distinct-times a xs d.1))
]

pub times-Distinct : (xs : List ℕ) → ((a : ℕ) → times a xs ≤ 1) → Distinct xs
times-Distinct [] h = tt
times-Distinct (x ∷ xs) h = (
  ground (arith, h x, times-contains x xs, ==-refl x),
  times-Distinct xs (λ a. omega (arith, h a)),
)

pub perm_of_times :
    (xs ys : List ℕ) → ((a : ℕ) → times a xs ≡ times a ys) → Distinct ys → Perm xs ys
perm_of_times xs ys h d =
    perm_of_contains xs ys (times-Distinct xs (λ a. omega (arith, h a, Distinct-times a ys d))) d
      (λ a. times-contains a xs ∙ ap (λ n. ltb 0 n) (h a) ∙ sym (times-contains a ys))

times-ids_in_waves :
    (a : ℕ) (waves : Membership) → times_in_plan a waves ≡ times a (ids_in_waves waves)
times-ids_in_waves a [] = refl
times-ids_in_waves a ((n, ids) ∷ waves) =
    omega
      (arith, times-ids_in_waves a waves, count_by-append (λ i. i == a) ids (ids_in_waves waves))

-- An edit inside one plan keeps the one entry.
abbrev pub IsAlone : ℕ → Memberships → Type 0
IsAlone pid after = (waves : Membership) × (after ≡ (pid, waves) ∷ [])

set_wave-IsAlone :
    (pid n : ℕ) (ids : List ℕ) (after : Memberships)
    → IsAlone pid after
    → IsAlone pid (set_wave pid n ids after)
set_wave-IsAlone pid n ids after (waves, e) =
    (put n ids (get_default pid [] after), rw (e, ==-refl pid) refl)

leave_wave-IsAlone :
    (pid vid : ℕ) (from : Option ℕ) (after : Memberships)
    → IsAlone pid after
    → IsAlone pid (leave_wave pid from vid after)
unfolding leave_wave
leave_wave-IsAlone pid vid none after h = h
leave_wave-IsAlone pid vid (some n) after h =
    set_wave-IsAlone pid n (remove_first vid (ids_of_wave pid n after)) after h

join_wave-IsAlone :
    (pid vid : ℕ) (dest : Option ℕ) (after : Memberships)
    → IsAlone pid after
    → IsAlone pid (join_wave pid dest vid after)
unfolding join_wave
join_wave-IsAlone pid vid none after h = h
join_wave-IsAlone pid vid (some n) after h =
    set_wave-IsAlone pid n (ids_of_wave pid n after ++ vid ∷ []) after h

pub move_vms-IsAlone :
    (m : Moving) (ids : List ℕ) (after : Memberships)
    → m.target_id ≡ m.plan_id
    → IsAlone m.plan_id after
    → IsAlone m.plan_id (move_vms m ids after)
unfolding move_vms move_vm
move_vms-IsAlone m [] after e h = h
move_vms-IsAlone m (vid ∷ ids) after e h = elim (Bool-cases (stays m vid)) [
  | inl stay ↦ rw stay (move_vms-IsAlone m ids after e h)
  | inr go ↦
      let left = leave_wave m.plan_id (get vid m.waves) vid after in
      rw go (
        move_vms-IsAlone m ids (join_wave m.target_id m.dest vid left) e (
          subst (λ t. IsAlone m.plan_id (join_wave t m.dest vid left)) (sym e)
            (join_wave-IsAlone m.plan_id vid m.dest left
              (leave_wave-IsAlone m.plan_id vid (get vid m.waves) after h))))
]

pub IsAlone-times :
    (a pid : ℕ) (after : Memberships)
    → IsAlone pid after
    → times_in_all a after ≡ times a (ids_in_waves (get_default pid [] after))
IsAlone-times a pid after (waves, e) =
    rw (e, get_default, ==-refl pid) (omega (arith, times-ids_in_waves a waves))
