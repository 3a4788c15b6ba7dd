-- ===== src/Constraints/Sizes.antt =====
-- The size check reports exactly the waves over the limit.
use virtvalidation.Base.{
  ℕ, ◌≡◌, refl, inl, inr, Bool, true, false, Option, some, List, [], ◌∷◌, map, arith, ltb, leb,
  Bool-cases, nat_Eq, option_Eq, list_Eq, length, filter_by,
}
use virtvalidation.Base.Keys.{keys}
use virtvalidation.Base.Sorting.{sorted}
use virtvalidation.Constraints.{
  WaveMembers, Violation, members_at, size_violation, size_violations_of, wave_size_violations,
}

abbrev pub is_over : ℕ → WaveMembers → ℕ → Bool
is_over max_vms waves number = ltb max_vms (length (members_at waves number))

module _ (plan_id : Option ℕ) (max_vms : ℕ) (waves : WaveMembers) where
  size_violations_of-numbers :
      (numbers : List ℕ)
      → map (λ (v : Violation). v.wave_number) (size_violations_of plan_id max_vms waves numbers)
        ≡ map some (filter_by (is_over max_vms waves) numbers)
  unfolding size_violations_of size_violation
  size_violations_of-numbers [] = refl
  size_violations_of-numbers (number ∷ numbers) =
      elim (Bool-cases (leb (length (members_at waves number)) max_vms)) [
        | inl fits ↦
            let under : is_over max_vms waves number ≡ false = ground (arith, fits) in
            rw (fits, under) (size_violations_of-numbers numbers)
        | inr over ↦
            let above : is_over max_vms waves number ≡ true = ground (arith, over) in
            rw (over, above) (rw (size_violations_of-numbers numbers))
      ]

  -- The wave numbers that the size check reports are the numbers of the layout's waves that hold
  -- more VMs than the limit, each as often as the layout has it and in ascending order.
  pub wave_size_violations-numbers :
      map (λ (v : Violation). v.wave_number) (wave_size_violations plan_id max_vms waves)
      ≡ map some (filter_by (is_over max_vms waves) (sorted leb (keys waves)))
  unfolding wave_size_violations
  wave_size_violations-numbers = size_violations_of-numbers (sorted leb (keys waves))
