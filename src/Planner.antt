-- ===== src/Planner.antt =====
-- backend/app/core/planner.py: `plan_with_groups`, from the VMs to the verified waves.
pub mod Lookup
pub mod Checked
pub mod Result
pub mod Unknown
pub mod Answers
use virtvalidation.Base.{
  ℕ, ◌+◌, not, ◌&&◌, ◌||◌, Option, none, some, List, [], ◌∷◌, ◌++◌, map, ltb, leb, if◌then◌else◌,
  Eq, ◌==◌, nat_Eq, option_Eq, list_Eq, filter_by,
}
use virtvalidation.Base.Dicts.{Dict, get}
use virtvalidation.Base.Texts.{Text, codes}
use virtvalidation.Base.Sorting.{sorted}
use virtvalidation.Group.{VmGroup, group_id, ha_count, ids_of}
use virtvalidation.Base.Distinct.{contains}
use virtvalidation.Base.Rearranged.{collect}
use virtvalidation.Skeleton.Wave.{Wave}
use virtvalidation.Skeleton.Order.{groups_by_id}
use virtvalidation.Skeleton.Packing.{Limits, assign_waves}
use virtvalidation.Preclassifier.Source.{SourceVm, vm_ids_of, non_empty}
use virtvalidation.Preclassifier.Ha.{split_ha_group}
use virtvalidation.Preclassifier.Merge.{id_set}
use virtvalidation.Preclassifier.Classify.{classify}

-- The errors that planning raises: `PlannerError` of each cause, the RuntimeError of the assigner
-- (no target wave) and the KeyError of a lookup by group id.
pub data PlanError : Type 0 where
  zero_vms : PlanError
  no_groups : PlanError
  dropped : List ℕ → List ℕ → PlanError
  no_target_wave : PlanError
  no_waves : PlanError
  unknown_group : Text → PlanError
  duplicated : ℕ → PlanError
  unplaced : List ℕ → PlanError

pub data Planned {ℓ} (A : Type ℓ) : Type ℓ where
  failed : PlanError → Planned A
  returned : A → Planned A

-- The loop of stage 2 for `spread` and `auto`.
unfoldable pub expanded : Text → List VmGroup → List VmGroup
unfolding split_ha_group ha_count
expanded ha_strategy [] = []
expanded ha_strategy (g ∷ gs) =
    (if ha_strategy == codes "auto" && ltb (ha_count g) 3 then g ∷ [] else split_ha_group g)
    ++ expanded ha_strategy gs

unfoldable pub expand_ha : Text → List VmGroup → List VmGroup
unfolding expanded
expand_ha ha_strategy groups =
    if ha_strategy == codes "spread" || ha_strategy == codes "auto"
    then expanded ha_strategy groups
    else groups

-- `provided - seen`
unfoldable pub missing_from : List ℕ → List ℕ → List ℕ
missing_from seen provided = filter_by (λ i. not (contains seen i)) provided

-- A row of `expanded_waves`, without the rationale
pub record ExpandedWave : Type 0 where
  pub wave_number : ℕ
  pub vm_ids : List ℕ
  pub group_ids : List Text
  pub estimated_risk : Text

-- `wave_vm_ids`: the ids of the groups that the ids of the groups of the wave stand for
unfoldable pub looked_up_ids : Dict Text VmGroup → List VmGroup → Planned (List ℕ)
looked_up_ids by_id [] = Planned.returned []
looked_up_ids by_id (g ∷ gs) =
    let rest = looked_up_ids by_id gs in
    elim (get (group_id g) by_id) [
      | none ↦ Planned.failed (PlanError.unknown_group (group_id g))
      | some h ↦ elim rest [
        | failed e ↦ Planned.failed e
        | returned ids ↦ Planned.returned (h.vm_ids ++ ids)
      ]
    ]

abbrev pub expanded_wave : Wave → List ℕ → ExpandedWave
expanded_wave w ids = record {
  wave_number = w.wave_number;
  vm_ids = sorted leb (id_set ids);
  group_ids = map group_id w.groups;
  estimated_risk = w.estimated_risk;
}

unfoldable pub expand_waves : Dict Text VmGroup → List Wave → Planned (List ExpandedWave)
unfolding looked_up_ids sorted group_id
expand_waves by_id [] = Planned.returned []
expand_waves by_id (w ∷ ws) =
    let rest = expand_waves by_id ws in
    elim (looked_up_ids by_id w.groups) [
      | failed e ↦ Planned.failed e
      | returned ids ↦ elim rest [
        | failed e ↦ Planned.failed e
        | returned rows ↦ Planned.returned (expanded_wave w ids ∷ rows)
      ]
    ]

-- The loops of `_verify_expanded_plan` over the ids of the waves, one wave after the other.
unfoldable pub see_ids : List ℕ → List ℕ → Planned (List ℕ)
see_ids seen [] = Planned.returned seen
see_ids seen (vid ∷ vids) =
    let rest = see_ids (vid ∷ seen) vids in
    if contains seen vid then Planned.failed (PlanError.duplicated vid) else rest

abbrev pub expanded_ids : List ExpandedWave → List ℕ
expanded_ids rows = collect (λ (r : ExpandedWave). r.vm_ids) rows

unfoldable pub verify_expanded_plan : List ℕ → List ExpandedWave → Planned (List ExpandedWave)
unfolding see_ids missing_from sorted
verify_expanded_plan provided rows = elim (see_ids [] (expanded_ids rows)) [
  | failed e ↦ Planned.failed e
  | returned seen ↦
      let missing = missing_from seen provided in
      if non_empty missing
      then Planned.failed (PlanError.unplaced (sorted leb missing))
      else Planned.returned rows
]

-- Stage 5: the rows of the waves, verified.
unfoldable pub expand_and_verify :
    List ℕ → Dict Text VmGroup → List Wave → Planned (List ExpandedWave)
unfolding expand_waves verify_expanded_plan
expand_and_verify provided by_id ws = elim (expand_waves by_id ws) [
  | failed e ↦ Planned.failed e
  | returned rows ↦ verify_expanded_plan provided rows
]

-- Stages 3 and 5, from what `assign_waves` returned.
unfoldable pub plan_assigned :
    List ℕ → List VmGroup → Option (List Wave) → Planned (List ExpandedWave)
unfolding expand_and_verify groups_by_id
plan_assigned provided groups none = Planned.failed PlanError.no_target_wave
plan_assigned provided groups (some []) = Planned.failed PlanError.no_waves
plan_assigned provided groups (some (w ∷ ws)) =
    expand_and_verify provided (groups_by_id groups) (w ∷ ws)

-- The integrity check behind the HA expansion, then the other stages.
unfoldable pub plan_expanded : Limits → List ℕ → List VmGroup → Planned (List ExpandedWave)
unfolding plan_assigned missing_from assign_waves sorted
plan_expanded limits provided groups =
    let classified = id_set (ids_of groups) in
    let missing = missing_from classified provided in
    let extra = missing_from provided classified in
    if non_empty missing || non_empty extra
    then Planned.failed (PlanError.dropped (sorted leb missing) (sorted leb extra))
    else plan_assigned provided groups (assign_waves limits groups)

unfoldable pub plan_classified : Text → Limits → List ℕ → List VmGroup → Planned (List ExpandedWave)
unfolding plan_expanded expand_ha
plan_classified ha_strategy limits provided [] = Planned.failed PlanError.no_groups
plan_classified ha_strategy limits provided (g ∷ gs) =
    plan_expanded limits provided (expand_ha ha_strategy (g ∷ gs))

-- `plan_with_groups`; the limits are those of `MechanicalWaveAssigner()`
unfoldable pub plan_with_groups : Text → Limits → List SourceVm → Planned (List ExpandedWave)
unfolding plan_classified classify
plan_with_groups ha_strategy limits [] = Planned.failed PlanError.zero_vms
plan_with_groups ha_strategy limits (v ∷ vms) =
    plan_classified ha_strategy limits (id_set (vm_ids_of (v ∷ vms))) (classify none (v ∷ vms))
