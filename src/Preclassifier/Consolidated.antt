-- ===== src/Preclassifier/Consolidated.antt =====
-- `_consolidate` as a whole: the merged groups hold the VM ids of the groups.
use virtvalidation.Base.{
  ℕ, zero, suc, ◌+◌, inl, inr, none, some, List, [], ◌∷◌, ◌++◌, flatten, ltb, leb, Bool-cases,
  nat_Eq, option_Eq, list_Eq, length,
}
use virtvalidation.Base.Sorting.{insert_sorted, sorted, sorted-perm}
use virtvalidation.Group.{VmGroup, ids_of, ids_of-append}
use virtvalidation.Base.Distinct.{Distinct, Distinct-perm, Distinct-append_left}
use virtvalidation.Base.Rearranged.{collect}
use virtvalidation.Base.Sorting.{insert_sorted-perm}
use virtvalidation.Skeleton.Assign.{ids_of-perm}
use virtvalidation.Preclassifier.Merge.{
  Cap, merge_groups, merge_smallest, total_vms, same_primary, add_to_primary, primaries_from,
  allowed_groups, consolidate_from, consolidate, size_le,
}
use virtvalidation.Preclassifier.Formed.{merge_step}
use mathlib.Core.List.{Perm, append_assoc, append-nil, perm_middle}
use mathlib.Core.List.Perm

-- The groups of all lists.
abbrev groups_of_all : List (List VmGroup) → List VmGroup
groups_of_all lists = collect (λ (gs : List VmGroup). gs) lists

add_to_primary-perm :
    (g : VmGroup) (out : List (List VmGroup))
    → Perm (groups_of_all (add_to_primary g out)) (g ∷ groups_of_all out)
unfolding add_to_primary
add_to_primary-perm g [] = Perm.refl _
add_to_primary-perm g ([] ∷ rest) = add_to_primary-perm g rest
add_to_primary-perm g ((h ∷ hs) ∷ rest) = elim (Bool-cases (same_primary g h)) [
  | inl same ↦
      rw (same, append_assoc (h ∷ hs) (g ∷ []) (groups_of_all rest))
        (perm_middle (h ∷ hs) (groups_of_all rest))
  | inr other ↦ rw other (
      Perm.trans (Perm.append_left (h ∷ hs) (add_to_primary-perm g rest))
        (perm_middle (h ∷ hs) (groups_of_all rest)))
]

primaries_from-perm :
    (out : List (List VmGroup)) (gs : List VmGroup)
    → Perm (groups_of_all (primaries_from out gs)) (groups_of_all out ++ gs)
unfolding primaries_from
primaries_from-perm out [] = rw (append-nil (groups_of_all out)) (Perm.refl _)
primaries_from-perm out (g ∷ gs) = Perm.trans (primaries_from-perm (add_to_primary g out) gs) (
    Perm.trans (Perm.append_right gs (add_to_primary-perm g out))
      (Perm.symm (perm_middle (groups_of_all out) gs)))

merge_smallest-ids :
    (cap : Cap) (fuel allowed : ℕ) (gs : List VmGroup)
    → Distinct (ids_of gs)
    → Perm (ids_of (merge_smallest cap fuel allowed gs)) (ids_of gs)
unfolding merge_smallest ids_of
merge_smallest-ids cap zero allowed gs d = Perm.refl _
merge_smallest-ids cap (suc fuel) allowed [] d = Perm.refl _
merge_smallest-ids cap (suc fuel) allowed (a ∷ []) d = Perm.refl _
merge_smallest-ids cap (suc fuel) allowed (a ∷ b ∷ rest) d =
    let next = insert_sorted size_le (merge_groups cap a b) rest in
    let step : Perm (ids_of next) (ids_of (a ∷ b ∷ rest)) =
      Perm.trans (ids_of-perm _ _ (insert_sorted-perm size_le (merge_groups cap a b) rest))
        (merge_step cap a b rest d) in
    elim (Bool-cases (ltb allowed (length (a ∷ b ∷ rest)))) [
      | inl over ↦ rw over (
          Perm.trans
            (merge_smallest-ids cap fuel allowed next (Distinct-perm _ _ (Perm.symm step) d)) step)
      | inr within ↦ rw within (Perm.refl _)
    ]

consolidate_from-ids :
    (max_groups : ℕ) (done : List VmGroup) (lists : List (List VmGroup))
    → Distinct (ids_of (done ++ groups_of_all lists))
    → Perm (ids_of (consolidate_from max_groups done lists)) (ids_of (done ++ groups_of_all lists))
unfolding consolidate_from
consolidate_from-ids max_groups done [] d = rw (append-nil done) (Perm.refl _)
consolidate_from-ids max_groups done (gs ∷ rest) d =
    let total = total_vms done + total_vms gs + total_vms (flatten rest) in
    let allowed = allowed_groups max_groups (total_vms gs) total (length gs) in
    let ordered = sorted size_le gs in
    let ordered-ids = ids_of-perm ordered gs (sorted-perm size_le gs) in
    let part : Distinct (ids_of gs) =
      Distinct-middle_part (ids_of done) (ids_of gs) (ids_of (groups_of_all rest)) (
        rw (ids_of-append done (gs ++ groups_of_all rest), ids_of-append gs (groups_of_all rest)) at
          d) in
    let merged = merge_smallest (some max_groups) (length gs) allowed ordered in
    let here : Perm (ids_of merged) (ids_of gs) =
      Perm.trans
        (merge_smallest-ids (some max_groups) (length gs) allowed ordered
          (Distinct-perm _ _ (Perm.symm ordered-ids) part))
        ordered-ids in
    let step : Perm (ids_of ((done ++ merged) ++ groups_of_all rest))
        (ids_of (done ++ (gs ++ groups_of_all rest))) =
      rw
        (
          append_assoc done merged (groups_of_all rest),
          ids_of-append done (merged ++ groups_of_all rest),
          ids_of-append done (gs ++ groups_of_all rest),
          ids_of-append merged (groups_of_all rest),
          ids_of-append gs (groups_of_all rest),
        )
        (Perm.append_left (ids_of done) (Perm.append_right (ids_of (groups_of_all rest)) here)) in
    Perm.trans
      (consolidate_from-ids max_groups (done ++ merged) rest (Distinct-perm _ _ (Perm.symm step) d))
      step
  where
    Distinct-middle_part : (xs ys zs : List ℕ) → Distinct (xs ++ (ys ++ zs)) → Distinct ys
    Distinct-middle_part [] ys zs h = Distinct-append_left ys zs h
    Distinct-middle_part (x ∷ xs) ys zs h = Distinct-middle_part xs ys zs h.1

-- If no VM is in two groups: the consolidated groups hold the VMs of the groups, each once.
pub consolidate-ids :
    (cap : Cap) (gs : List VmGroup)
    → Distinct (ids_of gs)
    → Perm (ids_of (consolidate cap gs)) (ids_of gs)
unfolding consolidate
consolidate-ids none gs d = Perm.refl _
consolidate-ids (some max_groups) gs d = elim (Bool-cases (leb (length gs) max_groups)) [
  | inl within ↦ rw within (Perm.refl _)
  | inr over ↦ rw over (
      let p = ids_of-perm _ _ (primaries_from-perm [] gs) in
      Perm.trans
        (consolidate_from-ids max_groups [] (primaries_from [] gs)
          (Distinct-perm _ _ (Perm.symm p) d))
        p)
]
