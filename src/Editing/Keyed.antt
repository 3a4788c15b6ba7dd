-- ===== src/Editing/Keyed.antt =====
-- The wave numbers in the membership of a plan (backend/app/core/plan_edit.py).
use virtvalidation.Base.{
  ℕ, ◌≡◌, refl, inl, inr, Option, none, some, List, [], ◌∷◌, ◌++◌, arith, Bool-cases, ◌==◌, nat_Eq,
  option_Eq, list_Eq, All,
}
use virtvalidation.Base.Dicts.{IsKeyed, put-IsKeyed, IsKeyed-entries, get, get_default, put}
use virtvalidation.Base.Keys.{keys}
use virtvalidation.Base.Rearranged.{collect}
use virtvalidation.Editing.{EditSpec, Plan, Membership, Memberships}
use virtvalidation.Editing.Waves.{
  set_wave, ids_of_wave, remove_first, leave_wave, join_wave, Moving, stays, move_vm, move_vms,
  drop_empty,
}
use virtvalidation.Editing.Kept.{wave_membership-IsKeyed}
use virtvalidation.Editing.Request.{memberships, edited}
use virtvalidation.Editing.Sound.{ids_in_waves}

abbrev AllKeyed : Memberships → Type 0
AllKeyed after = All (λ (p : ℕ × Membership). IsKeyed p.1) after

get-IsKeyed : (pid : ℕ) (after : Memberships) → AllKeyed after → IsKeyed (get_default pid [] after)
get-IsKeyed pid [] h = tt
get-IsKeyed pid ((k, waves) ∷ after) h = elim (Bool-cases (k == pid)) [
  | inl same ↦ rw (get_default, same) h.0
  | inr other ↦ rw (get_default, other) (get-IsKeyed pid after h.1)
]

put-AllKeyed :
    (pid : ℕ) (waves : Membership) (after : Memberships)
    → IsKeyed waves
    → AllKeyed after
    → AllKeyed (put pid waves after)
put-AllKeyed pid waves [] k h = (k, tt)
put-AllKeyed pid waves ((j, w) ∷ after) k h = elim (Bool-cases (j == pid)) [
  | inl same ↦ rw same (k, h.1)
  | inr other ↦ rw other (h.0, put-AllKeyed pid waves after k h.1)
]

set_wave-AllKeyed :
    (pid n : ℕ) (ids : List ℕ) (after : Memberships)
    → AllKeyed after
    → AllKeyed (set_wave pid n ids after)
set_wave-AllKeyed pid n ids after h =
    put-AllKeyed pid (put n ids (get_default pid [] after)) after
      (put-IsKeyed n ids (get_default pid [] after) (get-IsKeyed pid after h)) h

leave_wave-AllKeyed :
    (pid vid : ℕ) (from : Option ℕ) (after : Memberships)
    → AllKeyed after
    → AllKeyed (leave_wave pid from vid after)
unfolding leave_wave
leave_wave-AllKeyed pid vid none after h = h
leave_wave-AllKeyed pid vid (some n) after h =
    set_wave-AllKeyed pid n (remove_first vid (ids_of_wave pid n after)) after h

join_wave-AllKeyed :
    (pid vid : ℕ) (dest : Option ℕ) (after : Memberships)
    → AllKeyed after
    → AllKeyed (join_wave pid dest vid after)
unfolding join_wave
join_wave-AllKeyed pid vid none after h = h
join_wave-AllKeyed pid vid (some n) after h =
    set_wave-AllKeyed pid n (ids_of_wave pid n after ++ vid ∷ []) after h

move_vms-AllKeyed :
    (m : Moving) (ids : List ℕ) (after : Memberships)
    → AllKeyed after
    → AllKeyed (move_vms m ids after)
unfolding move_vms move_vm
move_vms-AllKeyed m [] after h = h
move_vms-AllKeyed m (vid ∷ ids) after h = elim (Bool-cases (stays m vid)) [
  | inl stay ↦ rw stay (move_vms-AllKeyed m ids after h)
  | inr go ↦
      let left = leave_wave m.plan_id (get vid m.waves) vid after in
      rw go (
        move_vms-AllKeyed m ids (join_wave m.target_id m.dest vid left) (
          join_wave-AllKeyed m.target_id vid m.dest left
            (leave_wave-AllKeyed m.plan_id vid (get vid m.waves) after h)))
]

memberships-AllKeyed : (plan target : Plan) → AllKeyed (memberships plan target)
unfolding memberships
memberships-AllKeyed plan target = elim (Bool-cases (target.id == plan.id)) [
  | inl same ↦ rw same (wave_membership-IsKeyed plan, tt)
  | inr other ↦ rw other (wave_membership-IsKeyed plan, (wave_membership-IsKeyed target, tt))
]

pub arranged-IsKeyed :
    (spec : EditSpec) (plan target : Plan) (ids : List ℕ) (dest : Option ℕ) (pid : ℕ)
    → IsKeyed (get_default pid [] (edited spec plan target ids dest).arranged)
unfolding edited
arranged-IsKeyed spec plan target ids dest pid =
    let e = edited spec plan target ids dest in
    get-IsKeyed pid e.arranged
      (move_vms-AllKeyed e.moving ids e.before (memberships-AllKeyed plan target))

get-drop_empty : (waves : Membership) (n : ℕ) → get n waves ≡ none → get n (drop_empty waves) ≡ none
unfolding drop_empty
get-drop_empty [] n h = refl
get-drop_empty ((k, []) ∷ waves) n h = get-drop_empty waves n (ground (arith, h))
get-drop_empty ((k, i ∷ ids) ∷ waves) n h = ground (arith, h, get-drop_empty waves n)

pub drop_empty-IsKeyed : (waves : Membership) → IsKeyed waves → IsKeyed (drop_empty waves)
unfolding drop_empty
drop_empty-IsKeyed [] h = tt
drop_empty-IsKeyed ((k, []) ∷ waves) h = drop_empty-IsKeyed waves h.1
drop_empty-IsKeyed ((k, i ∷ ids) ∷ waves) h =
    (get-drop_empty waves k h.0, drop_empty-IsKeyed waves h.1)

collect-keys :
    (whole waves : Membership)
    → All (λ (w : ℕ × List ℕ). get w.0 whole ≡ some w.1) waves
    → collect (λ n. get_default n [] whole) (keys waves) ≡ ids_in_waves waves
collect-keys whole [] h = refl
collect-keys whole ((k, ids) ∷ waves) h = rw (get_default, h.0, collect-keys whole waves h.1)

-- The VMs of the waves, found number by number.
pub ids_in_waves-keys :
    (waves : Membership)
    → IsKeyed waves
    → collect (λ n. get_default n [] waves) (keys waves) ≡ ids_in_waves waves
ids_in_waves-keys waves h = collect-keys waves waves (IsKeyed-entries waves h)

pub ids_in_waves-drop_empty :
    (waves : Membership) → ids_in_waves (drop_empty waves) ≡ ids_in_waves waves
unfolding drop_empty
ids_in_waves-drop_empty [] = refl
ids_in_waves-drop_empty ((k, []) ∷ waves) = ids_in_waves-drop_empty waves
ids_in_waves-drop_empty ((k, i ∷ ids) ∷ waves) = rw (ids_in_waves-drop_empty waves)
