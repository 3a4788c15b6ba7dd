-- ===== src/Editing/Conserved.antt =====
-- The moving loop of `prepare` of backend/app/core/plan_edit.py: what each round takes and brings.
use virtvalidation.Base.{
  ℕ, ◌+◌, ◌≡◌, refl, ◌∙◌, inl, inr, Bool, true, false, not, ◌&&◌, Option, none, some, List, [], ◌∷◌,
  ◌++◌, arith, if◌then◌else◌, nat_eq_iff, Bool-cases, ◌==◌, nat_Eq, option_Eq, list_Eq, ==→eq, All,
  filter_by, count_by, count_by-append,
}
use virtvalidation.Base.Dicts.{get}
use virtvalidation.Editing.{Memberships}
use virtvalidation.Editing.Waves.{
  ids_of_wave, leave_wave, join_wave, Moving, stays, move_vm, move_vms, remove_first,
}
use virtvalidation.Editing.Moved.{
  times, times_in_all, IsReady, is_some, leave_wave-times, join_wave-times, leave_wave-contains,
  join_wave-contains, ids_of_wave-set_wave, times-remove_first,
}
use virtvalidation.Base.Distinct.{contains, Distinct}

-- The VMs that the loop does not pass over.
abbrev pub moved : Moving → List ℕ → List ℕ
moved m ids = filter_by (λ vid. not (stays m vid)) ids

move_vm-IsReady :
    (m : Moving) (vid other : ℕ) (after : Memberships)
    → (vid == other) ≡ false
    → IsReady m after other
    → IsReady m (move_vm m vid after) other
unfolding move_vm
move_vm-IsReady m vid other after h ready = λ n e.
    join_wave-contains m.target_id m.plan_id n vid other m.dest
      (leave_wave m.plan_id (get vid m.waves) vid after)
      (leave_wave-contains m.plan_id m.plan_id n vid other (get vid m.waves) after h ∙ ready n e)

all-IsReady :
    (m : Moving) (vid : ℕ) (ids : List ℕ) (after : Memberships)
    → contains ids vid ≡ false
    → All (IsReady m after) ids
    → All (IsReady m (move_vm m vid after)) ids
all-IsReady m vid [] after h ready = tt
all-IsReady m vid (other ∷ ids) after h ready = (
  move_vm-IsReady m vid other after (ground (arith, nat_eq_iff vid other, nat_eq_iff other vid))
      ready.0,
  all-IsReady m vid ids after (ground arith) ready.1,
)

-- A number that each moved VM changes by what it takes away and what it brings.
module _ (m : Moving) (measure : Memberships → ℕ) (taken brought : ℕ → Bool) where
  abbrev Counts : Type 0
  Counts =
      (vid : ℕ) (after : Memberships)
      → IsReady m after vid
      → measure (move_vm m vid after) + (if taken vid then 1 else 0)
        ≡ measure after + (if brought vid then 1 else 0)

  move_vms-measure :
      Counts
      → (ids : List ℕ) (after : Memberships) → Distinct ids
      → All (IsReady m after) ids
      → measure (move_vms m ids after) + count_by taken (moved m ids)
        ≡ measure after + count_by brought (moved m ids)
  unfolding move_vms
  move_vms-measure step [] after d ready = refl
  move_vms-measure step (vid ∷ ids) after d ready = elim (Bool-cases (stays m vid)) [
    | inl stay ↦ rw stay (move_vms-measure step ids after d.1 ready.1)
    | inr go ↦ rw go (
        omega (
          arith,
          step vid after ready.0,
          move_vms-measure step ids (move_vm m vid after) d.1
              (all-IsReady m vid ids after d.0 ready.1),
        ))
  ]

-- Over all the plans: the VMs that stood in a wave leave it, and all join the destination.
pub move_vms-times :
    (m : Moving) (a : ℕ) (ids : List ℕ) (after : Memberships)
    → Distinct ids
    → All (IsReady m after) ids
    → times_in_all a (move_vms m ids after)
        + count_by (λ vid. vid == a && is_some (get vid m.waves)) (moved m ids)
      ≡ times_in_all a after + count_by (λ vid. vid == a && is_some m.dest) (moved m ids)
unfolding move_vm
move_vms-times m a ids after d ready =
    move_vms-measure m (times_in_all a) (λ vid. vid == a && is_some (get vid m.waves))
      (λ vid. vid == a && is_some m.dest)
      (λ vid now h.
        let from = get vid m.waves in
        omega (
          arith,
          leave_wave-times a m.plan_id vid from now h,
          join_wave-times a m.target_id vid m.dest (leave_wave m.plan_id from vid now),
        ))
      ids after d ready

module _ (a q k : ℕ) where
  leave_wave-at :
      (p vid : ℕ) (from : Option ℕ) (after : Memberships)
      → ((n : ℕ) → from ≡ some n → contains (ids_of_wave p n after) vid ≡ true)
      → times a (ids_of_wave q k (leave_wave p from vid after))
          + (if vid == a && (p == q && from == some k) then 1 else 0)
        ≡ times a (ids_of_wave q k after)
  unfolding leave_wave
  leave_wave-at p vid none after h = ground arith
  leave_wave-at p vid (some n) after h =
      let ids = ids_of_wave p n after in
      rw (ids_of_wave-set_wave p n q k (remove_first vid ids) after) (elim (Bool-cases (p == q)) [
        | inr apart ↦ rw apart (ground arith)
        | inl same ↦ elim (Bool-cases (n == k)) [
          | inr away ↦ rw (same, away) (ground arith)
          | inl here ↦
              let there = times-remove_first a vid ids (h n refl) in
              rw (same, here, ← ==→eq p q same, ← ==→eq n k here) (ground (arith, there))
        ]
      ])

  join_wave-at :
      (p vid : ℕ) (dest : Option ℕ) (after : Memberships)
      → times a (ids_of_wave q k (join_wave p dest vid after))
        ≡ times a (ids_of_wave q k after)
          + (if vid == a && (p == q && dest == some k) then 1 else 0)
  unfolding join_wave
  join_wave-at p vid none after = ground arith
  join_wave-at p vid (some n) after =
      let ids = ids_of_wave p n after in
      rw (ids_of_wave-set_wave p n q k (ids ++ vid ∷ []) after) (elim (Bool-cases (p == q)) [
        | inr apart ↦ rw apart (ground arith)
        | inl same ↦ elim (Bool-cases (n == k)) [
          | inr away ↦ rw (same, away) (ground arith)
          | inl here ↦
              rw (same, here, ← ==→eq p q same, ← ==→eq n k here)
                (ground (arith, count_by-append (λ i. i == a) ids (vid ∷ [])))
        ]
      ])

  -- In each wave of each plan: a moved VM leaves the wave in which it stood, and joins the
  -- destination; no other VM comes or goes.
  pub move_vms-at :
      (m : Moving) (ids : List ℕ) (after : Memberships)
      → Distinct ids
      → All (IsReady m after) ids
      → times a (ids_of_wave q k (move_vms m ids after))
          + count_by
              (λ vid. vid == a && (m.plan_id == q && get vid m.waves == some k))
              (moved m ids)
        ≡ times a (ids_of_wave q k after)
          + count_by (λ vid. vid == a && (m.target_id == q && m.dest == some k)) (moved m ids)
  unfolding move_vm
  move_vms-at m ids after d ready =
      move_vms-measure m (λ now. times a (ids_of_wave q k now))
        (λ vid. vid == a && (m.plan_id == q && get vid m.waves == some k))
        (λ vid. vid == a && (m.target_id == q && m.dest == some k))
        (λ vid now h.
          let from = get vid m.waves in
          omega (
            arith,
            leave_wave-at m.plan_id vid from now h,
            join_wave-at m.target_id vid m.dest (leave_wave m.plan_id from vid now),
          ))
        ids after d ready
