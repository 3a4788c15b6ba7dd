-- ===== src/Planner/Checked.antt =====
-- `plan_with_groups` up to the waves: the HA expansion and the integrity check.
use virtvalidation.Base.{
  ℕ, ◌≤◌, ◌≡◌, refl, sym, ap, ◌∙◌, inl, inr, ◌&&◌, ◌||◌, none, List, [], ◌∷◌, arith, ltb,
  Bool-cases, ◌==◌, nat_Eq, option_Eq, list_Eq, length, All, length-perm,
}
use virtvalidation.Base.Texts.{Text, codes}
use virtvalidation.Group.{VmGroup, ha_count, ids_of, ids_of-append}
use virtvalidation.Base.Distinct.{contains, contains-perm, Distinct, Distinct-perm}
use virtvalidation.Skeleton.Packing.{Limits, assign_waves}
use virtvalidation.Preclassifier.Source.{SourceVm, vm_ids_of}
use virtvalidation.Preclassifier.Ha.{split_ha_group}
use virtvalidation.Preclassifier.Merge.{id_set}
use virtvalidation.Preclassifier.Classify.{classify}
use virtvalidation.Preclassifier.Formed.{id_set-of_Distinct}
use virtvalidation.Preclassifier.Result.{classify-perm}
use virtvalidation.Preclassifier.Members.{HasMembers, split_ha_group-perm}
use virtvalidation.Preclassifier.Kept.{classify-HasMembers}
use virtvalidation.Planner.{
  expanded, expand_ha, missing_from, plan_assigned, plan_expanded, plan_classified,
  plan_with_groups,
}
use virtvalidation.Planner.Lookup.{missing_from-none}
use mathlib.Core.List.{Perm}
use mathlib.Core.List.Perm

expanded-perm :
    (ha_strategy : Text) (gs : List VmGroup)
    → All HasMembers gs
    → Perm (ids_of (expanded ha_strategy gs)) (ids_of gs)
unfolding expanded ids_of
expanded-perm ha_strategy [] h = Perm.refl _
expanded-perm ha_strategy (g ∷ gs) h =
    let rest = expanded-perm ha_strategy gs h.1 in
    elim (Bool-cases (ha_strategy == codes "auto" && ltb (ha_count g) 3)) [
      | inl whole ↦ rw whole (Perm.append_left g.vm_ids rest)
      | inr parts ↦
          rw (parts, ids_of-append (split_ha_group g) (expanded ha_strategy gs))
            (Perm.append (split_ha_group-perm g h.0) rest)
    ]

-- If the HA members of every group are its VMs, or it has none, then under every HA strategy the
-- groups behind the expansion hold the VMs of the groups before, each as often as they do.
pub expand_ha-perm :
    (ha_strategy : Text) (gs : List VmGroup)
    → All HasMembers gs
    → Perm (ids_of (expand_ha ha_strategy gs)) (ids_of gs)
unfolding expand_ha
expand_ha-perm ha_strategy gs h =
    elim (Bool-cases (ha_strategy == codes "spread" || ha_strategy == codes "auto")) [
      | inl split ↦ rw split (expanded-perm ha_strategy gs h)
      | inr whole ↦ rw whole (Perm.refl _)
    ]

module _ (limits : Limits) (provided : List ℕ) (groups : List VmGroup)
    (distinct : Distinct provided) (same : Perm (ids_of groups) provided) where
  groups-Distinct : Distinct (ids_of groups)
  groups-Distinct = Distinct-perm _ _ (Perm.symm same) distinct

  -- The integrity check passes.
  pub plan_expanded-assigned :
      plan_expanded limits provided groups
      ≡ plan_assigned provided groups (assign_waves limits groups)
  unfolding plan_expanded
  plan_expanded-assigned =
      let classified = id_set-of_Distinct (ids_of groups) groups-Distinct in
      let missing : missing_from (id_set (ids_of groups)) provided ≡ [] =
        missing_from-none _ provided
          (λ a there. rw classified (contains-perm _ _ a same ∙ there)) in
      let extra : missing_from provided (id_set (ids_of groups)) ≡ [] =
        missing_from-none provided _ (λ a there.
          sym (contains-perm _ _ a same) ∙ ap (λ l. contains l a) (sym classified) ∙ there) in
      rw (missing, extra, plan_expanded) refl

classified-step :
    (ha_strategy : Text) (limits : Limits) (provided : List ℕ) (gs : List VmGroup)
    → 1 ≤ length (ids_of gs)
    → plan_classified ha_strategy limits provided gs
      ≡ plan_expanded limits provided (expand_ha ha_strategy gs)
unfolding plan_classified ids_of
classified-step ha_strategy limits provided [] h = absurd (omega arith)
classified-step ha_strategy limits provided (g ∷ gs) h = refl

-- The groups behind the HA expansion.
abbrev pub expanded_groups : Text → List SourceVm → List VmGroup
expanded_groups ha_strategy vms = expand_ha ha_strategy (classify none vms)

module _ (ha_strategy : Text) (limits : Limits) (v : SourceVm) (vms : List SourceVm)
    (distinct : Distinct (vm_ids_of (v ∷ vms))) where
  pub expanded_groups-perm :
      Perm (ids_of (expanded_groups ha_strategy (v ∷ vms))) (vm_ids_of (v ∷ vms))
  expanded_groups-perm =
      Perm.trans
        (expand_ha-perm ha_strategy (classify none (v ∷ vms)) (classify-HasMembers (v ∷ vms)))
        (classify-perm none (v ∷ vms) distinct)

  pub plan_with_groups-expanded :
      plan_with_groups ha_strategy limits (v ∷ vms)
      ≡ plan_expanded limits (vm_ids_of (v ∷ vms)) (expanded_groups ha_strategy (v ∷ vms))
  unfolding plan_with_groups
  plan_with_groups-expanded =
      let ids = vm_ids_of (v ∷ vms) in
      let any : 1 ≤ length (ids_of (classify none (v ∷ vms))) =
        omega (arith, length-perm (classify-perm none (v ∷ vms) distinct)) in
      rw (id_set-of_Distinct ids distinct)
        (classified-step ha_strategy limits ids (classify none (v ∷ vms)) any)

  -- If the VMs have different ids and there is one at least, then under every HA strategy the
  -- planner comes as far as the waves: neither "Pre-classifier produced no groups" nor
  -- "Pre-classifier dropped or invented vm_ids" is raised.
  pub plan_with_groups-assigned :
      plan_with_groups ha_strategy limits (v ∷ vms)
      ≡ plan_assigned
          (vm_ids_of (v ∷ vms))
          (expanded_groups ha_strategy (v ∷ vms))
          (assign_waves limits (expanded_groups ha_strategy (v ∷ vms)))
  plan_with_groups-assigned =
      plan_with_groups-expanded
      ∙ plan_expanded-assigned limits (vm_ids_of (v ∷ vms)) (expanded_groups ha_strategy (v ∷ vms))
          distinct expanded_groups-perm
