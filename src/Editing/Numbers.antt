-- ===== src/Editing/Numbers.antt =====
-- `next_wave_number` of backend/app/core/plan_edit.py: the numbers of new waves.
use virtvalidation.Base.{
  ℕ, ap, ◌⊎◌, ◌≤◌, ◌<◌, max, ◌≡◌, inl, inr, true, false, List, [], ◌∷◌, ◌++◌, arith, Bool-cases,
  ◌==◌, nat_Eq, option_Eq, list_Eq, ==→eq,
}
use virtvalidation.Base.Distinct.{contains}
use virtvalidation.Base.Keys.{keys}
use virtvalidation.Editing.{WaveDoc, Plan, Membership}
use virtvalidation.Editing.Waves.{max_of, next_wave_number}
use virtvalidation.Editing.Apply.{changed_plan}
use virtvalidation.Editing.Rebuild.{Rebuilding, change_of}

contains-max_of : (n : ℕ) (ns : List ℕ) → contains ns n ≡ true → n ≤ max_of ns
contains-max_of n [] h = absurd (cc)
contains-max_of n (k ∷ ns) h = elim (Bool-cases (k == n)) [
  | inl same ↦ omega (arith, ==→eq k n same)
  | inr other ↦ omega (arith, contains-max_of n ns (ground arith))
]

max_of-append : (ms ns : List ℕ) → max_of (ms ++ ns) ≡ max (max_of ms) (max_of ns)
max_of-append [] ns = omega arith
max_of-append (m ∷ ms) ns = omega (arith, max_of-append ms ns)

-- The plans that a sequence of changes can make of a plan: each change is what the rebuild makes of
-- the plan as it stands by then, in any layout.
pub data Later (from : Plan) : Plan → Type 0 where
  here : Later from from
  next :
      {plan : Plan} (r : Rebuilding) (removed : List ℕ) (docs : List WaveDoc)
      → Later from plan
      → r.plan ≡ plan
      → Later from (changed_plan plan (change_of r removed docs))

Later-wave_number_seq :
    (from plan : Plan) → Later from plan → from.wave_number_seq ≤ plan.wave_number_seq
unfolding changed_plan change_of
Later-wave_number_seq from _ Later.here = omega arith
Later-wave_number_seq from _ (Later.next {plan} r removed docs before same) =
    let kept : r.plan.wave_number_seq ≡ plan.wave_number_seq =
      ap (λ (p : Plan). p.wave_number_seq) same in
    omega (arith, kept, Later-wave_number_seq from plan before)

change_of-wave_number_seq :
    (r : Rebuilding) (removed : List ℕ) (docs : List WaveDoc) (n : ℕ)
    → (n ≤ r.plan.wave_number_seq) ⊎ (contains (keys r.previous ++ keys r.after) n ≡ true)
    → n ≤ (change_of r removed docs).wave_number_seq
unfolding change_of
change_of-wave_number_seq r removed docs n (inl old) = omega (arith, old)
change_of-wave_number_seq r removed docs n (inr used) =
    omega (arith, contains-max_of n (keys r.previous ++ keys r.after) used)

-- Numbers of waves are not used again: take a number that is at most the plan's mark, or is that of
-- a wave which the plan has before or behind an edit. After the edit, and after any further edits
-- of the plan, whatever waves they drop, the number of the next new wave is above it.
pub Later-next_wave_number :
    (r : Rebuilding) (removed : List ℕ) (docs : List WaveDoc) (plan : Plan) (layout : Membership)
    (n : ℕ)
    → Later (changed_plan r.plan (change_of r removed docs)) plan
    → (n ≤ r.plan.wave_number_seq) ⊎ (contains (keys r.previous ++ keys r.after) n ≡ true)
    → n < next_wave_number plan layout
unfolding next_wave_number changed_plan
Later-next_wave_number r removed docs plan layout n later h = omega (
  arith,
  change_of-wave_number_seq r removed docs n h,
  Later-wave_number_seq (changed_plan r.plan (change_of r removed docs)) plan later,
)

-- The number of a new wave is above the plan's mark and is that of no wave in the layout.
pub next_wave_number-contains :
    (plan : Plan) (waves : Membership)
    → (plan.wave_number_seq < next_wave_number plan waves)
      × (contains (keys waves) (next_wave_number plan waves) ≡ false)
unfolding next_wave_number
next_wave_number-contains plan waves = (
  omega arith,
  elim (Bool-cases (contains (keys waves) (next_wave_number plan waves))) [
    | inr fresh ↦ fresh
    | inl used ↦
        absurd (omega (arith, contains-max_of (next_wave_number plan waves) (keys waves) used))
  ],
)
