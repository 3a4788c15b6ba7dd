-- ===== src/Editing/Targets.antt =====
-- `_target_violations` of backend/app/core/plan_edit.py: the gates for VMs that enter a plan.
use virtvalidation.Base.{
  ℕ, Bool, true, false, not, ◌||◌, Option, none, some, List, [], ◌∷◌, ◌++◌, map, ltb, if◌then◌else◌,
  ◌==◌, nat_Eq, option_Eq, list_Eq, length, take, filter_by,
}
use virtvalidation.Base.Dicts.{Dict, get_default}
use virtvalidation.Base.Texts.{Text, codes, join, decimal}
use virtvalidation.Base.Distinct.{contains}
use virtvalidation.Preclassifier.Source.{SourceVm, vm_ids_of, non_empty}
use virtvalidation.Constraints.{Violation}
use virtvalidation.Partitions.{
  Partition, same_partition_key, partition_label, resolve_partitions, plan_partitions, text_or,
}
use virtvalidation.Editing.{Operation, is_add, Plan}
use virtvalidation.Editing.Checks.{
  MappingGap, Services, Tables, vms_violation, is_available, report, unavailable_violation,
  unresolved_plan_violation, unresolved_violation,
}

abbrev pub Found : Type 0
Found = Dict ℕ (Option Partition)

-- `partitions.get(vm.id)`
abbrev pub partition_at : Found → SourceVm → Option Partition
partition_at partitions v = get_default v.id none partitions

abbrev pub is_unresolved : Found → SourceVm → Bool
is_unresolved partitions v = elim (partition_at partitions v) [ none ↦ true | some p ↦ false ]

abbrev pub is_mismatched : Found → Partition → SourceVm → Bool
is_mismatched partitions target v = elim (partition_at partitions v) [
  | none ↦ false
  | some p ↦ not (same_partition_key p target)
]

abbrev labelled : Found → SourceVm → Text
labelled partitions v = elim (partition_at partitions v) [
  | none ↦ v.name
  | some p ↦ v.name ++ codes " (" ++ partition_label p ++ codes ")"
]

unfoldable pub mismatch_violation : Plan → Partition → Found → List SourceVm → Violation
unfolding vms_violation join partition_label
mismatch_violation plan target partitions vms =
    vms_violation (codes "partition_mismatch")
      (decimal (length vms)
        ++ codes " VM(s) migrate to a different vCenter, cluster or namespace than plan '"
        ++ plan.name
        ++ codes "' ("
        ++ partition_label target
        ++ codes "): "
        ++ join (codes ", ") (map (labelled partitions) (take 4 vms))
        ++ (if ltb 4 (length vms) then codes "…" else [])
        ++ codes ". A wave is one MTV Plan and cannot span them.")
      plan.id vms

-- `gaps_by_vm[vm.id]`, as texts
unfoldable pub gap_texts : ℕ → List MappingGap → List Text
gap_texts vid [] = []
gap_texts vid (g ∷ gs) =
    let rest = gap_texts vid gs in
    if g.vm_id == vid then (g.kind ++ codes " '" ++ g.source_value ++ codes "'") ∷ rest else rest

unfoldable pub gap_violations : Plan → List MappingGap → List SourceVm → List Violation
unfolding vms_violation gap_texts join
gap_violations plan gaps [] = []
gap_violations plan gaps (v ∷ vms) =
    let rest = gap_violations plan gaps vms in
    elim (gap_texts v.id gaps) [
      | [] ↦ rest
      | t ∷ ts ↦
          vms_violation (codes "mapping_gap")
            (v.name
              ++ codes ": plan '"
              ++ plan.name
              ++ codes "' has no mapping for "
              ++ join (codes ", ") (t ∷ ts))
            plan.id (v ∷ [])
          ∷ rest
    ]

unfoldable pub assessment_violations :
    (ℕ → Text → List Text) → Plan → Text → List SourceVm → List Violation
unfolding vms_violation join
assessment_violations blocked_by plan migration_type [] = []
assessment_violations blocked_by plan migration_type (v ∷ vms) =
    let rest = assessment_violations blocked_by plan migration_type vms in
    elim (blocked_by v.id migration_type) [
      | [] ↦ rest
      | t ∷ ts ↦
          vms_violation (codes "assessment_blocked")
            (v.name
              ++ codes " cannot migrate as a "
              ++ migration_type
              ++ codes " plan: "
              ++ join (codes ", ") (t ∷ ts))
            plan.id (v ∷ [])
          ∷ rest
    ]

-- `plan.migration_type or "cold"`
abbrev pub migration_type_of : Plan → Text
migration_type_of plan = text_or (some plan.migration_type) (codes "cold")

abbrev needs_recheck : Operation → Plan → Plan → Bool
needs_recheck op source target =
    is_add op || not (migration_type_of source == migration_type_of target)

-- What follows once the target plan has a partition.
unfoldable pub entry_violations :
    Services → Operation → Plan → Plan → Partition → Found → List SourceVm → List Violation
unfolding unresolved_violation mismatch_violation gap_violations assessment_violations
    same_partition_key
entry_violations services op source target partition partitions vms =
    let unresolved = filter_by (is_unresolved partitions) vms in
    let mismatched = filter_by (is_mismatched partitions partition) vms in
    let bad = vm_ids_of unresolved ++ vm_ids_of mismatched in
    let eligible = filter_by (λ (v : SourceVm). not (contains bad v.id)) vms in
    report unresolved (unresolved_violation target.id unresolved)
    ++ report mismatched (mismatch_violation target partition partitions mismatched)
    ++ (if non_empty eligible
        then gap_violations target (services.gaps target eligible) eligible
        else [])
    ++ (if needs_recheck op source target
        then assessment_violations services.blocked_by target (migration_type_of target) vms
        else [])

unfoldable pub target_violations :
    Services → Tables → Operation → Plan → Plan → List SourceVm → List Violation
unfolding unavailable_violation unresolved_plan_violation entry_violations plan_partitions
    resolve_partitions is_available
target_violations services db op source target vms =
    let unavailable = filter_by (λ (v : SourceVm). not (is_available db.session v)) vms in
    let plan_partition =
      get_default target.id none
        (plan_partitions services.resolve_vms db.vcenters db.vms (target ∷ [])) in
    let partitions = resolve_partitions services.resolve_vms db.vcenters vms in
    (if is_add op then report unavailable (unavailable_violation target.id unavailable) else [])
    ++ elim plan_partition [
      | none ↦ unresolved_plan_violation target ∷ []
      | some partition ↦ entry_violations services op source target partition partitions vms
    ]
