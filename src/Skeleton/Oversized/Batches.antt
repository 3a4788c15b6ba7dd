-- ===== src/Skeleton/Oversized/Batches.antt =====
-- The batches of an oversized group hold its VMs, and none is too large.
use virtvalidation.Base.{
  ℕ, zero, suc, ◌+◌, ◌≤◌, ◌≡◌, refl, inl, inr, List, [], ◌∷◌, arith, leb, leb→le, Bool-cases,
  nat_Eq, option_Eq, list_Eq, length, drop, take-append-drop, length-take, length-drop, All,
  All-append, length-perm,
}
use virtvalidation.Base.Sorting.{sorted, sorted-perm}
use virtvalidation.Group.{VmGroup, ids_of, ids_of-append}
use virtvalidation.Skeleton.Oversized.{batch_group, batches, split_one, split_oversized_groups}
use mathlib.Core.List.{Perm}
use mathlib.Core.List.Perm

module _ (max_vms : ℕ) (positive : 1 ≤ max_vms) where
  batches-small :
      (g : VmGroup) (fuel n : ℕ) (ids : List ℕ)
      → All (λ (h : VmGroup). length h.vm_ids ≤ max_vms) (batches max_vms g fuel n ids)
  unfolding batches batch_group
  batches-small g zero n ids = tt
  batches-small g (suc fuel) n [] = tt
  batches-small g (suc fuel) n (i ∷ ids) = (
    omega (arith, length-take max_vms (i ∷ ids)),
    batches-small g fuel (n + 1) (drop max_vms (i ∷ ids)),
  )

  ids_of-batches :
      (g : VmGroup) (fuel n : ℕ) (ids : List ℕ)
      → length ids ≤ fuel
      → ids_of (batches max_vms g fuel n ids) ≡ ids
  unfolding batches batch_group ids_of
  ids_of-batches g zero n [] h = refl
  ids_of-batches g zero n (i ∷ ids) h = absurd (omega arith)
  ids_of-batches g (suc fuel) n [] h = refl
  ids_of-batches g (suc fuel) n (i ∷ ids) h =
      rw
        (ids_of-batches g fuel (n + 1) (drop max_vms (i ∷ ids))
          (omega (arith, length-drop max_vms (i ∷ ids))))
        (take-append-drop max_vms (i ∷ ids))

  -- If a wave may hold at least one VM: behind the split no group holds more VMs than a wave may.
  pub split_oversized_groups-small :
      (gs : List VmGroup)
      → All (λ (g : VmGroup). length g.vm_ids ≤ max_vms) (split_oversized_groups max_vms gs)
  unfolding split_oversized_groups split_one
  split_oversized_groups-small [] = tt
  split_oversized_groups-small (g ∷ gs) = elim (Bool-cases (leb (length g.vm_ids) max_vms)) [
    | inl fits ↦ rw fits (leb→le (length g.vm_ids) max_vms fits, split_oversized_groups-small gs)
    | inr over ↦ rw over (
        All-append _ _ _ (batches-small g (length g.vm_ids) 1 (sorted leb g.vm_ids))
          (split_oversized_groups-small gs))
  ]

  -- If a wave may hold at least one VM: the split loses no VM and doubles none, since the VM ids
  -- of the groups behind it are a rearrangement of those before.
  pub split_oversized_groups-perm :
      (gs : List VmGroup) → Perm (ids_of (split_oversized_groups max_vms gs)) (ids_of gs)
  unfolding split_oversized_groups split_one ids_of
  split_oversized_groups-perm [] = Perm.refl _
  split_oversized_groups-perm (g ∷ gs) = elim (Bool-cases (leb (length g.vm_ids) max_vms)) [
    | inl fits ↦ rw fits (Perm.append_left g.vm_ids (split_oversized_groups-perm gs))
    | inr over ↦
        rw (over, ids_of-append)
          (rw
            (ids_of-batches g (length g.vm_ids) 1 (sorted leb g.vm_ids)
              (omega (arith, length-perm (sorted-perm leb g.vm_ids))))
            (Perm.append (sorted-perm leb g.vm_ids) (split_oversized_groups-perm gs)))
  ]
