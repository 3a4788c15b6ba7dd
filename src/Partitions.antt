-- ===== src/Partitions.antt =====
-- backend/app/core/plan_membership.py: which partition (source vCenter, target cluster, target
-- namespace) a VM or a plan has, and which plan holds which VM.
pub mod Newest
use virtvalidation.Base.{
  ℕ, zero, suc, ◌+◌, ◌/◌, Bool, true, false, not, ◌&&◌, Option, none, some, List, [], ◌∷◌, ◌++◌,
  map, leb, if◌then◌else◌, Eq, ◌==◌, nat_Eq, option_Eq, list_Eq, take, filter_by,
}
use virtvalidation.Base.Dicts.{Dict, get, get_default, put}
use virtvalidation.Base.Texts.{Text, codes, decimal}
use virtvalidation.Base.Sorting.{sorted}
use virtvalidation.Base.Distinct.{contains}
use virtvalidation.Preclassifier.Source.{SourceVm, non_empty}
use virtvalidation.Editing.{Plan, WaveDoc}

pub record Partition : Type 0 where
  pub vcenter_id : Option ℕ
  pub cluster_id : ℕ
  pub namespace : Text
  pub vcenter_name : Option Text
  pub cluster_name : Option Text

-- `Partition.key`, as the comparison of two keys
unfoldable pub same_partition_key : Partition → Partition → Bool
same_partition_key p q =
    p.vcenter_id == q.vcenter_id && p.cluster_id == q.cluster_id && p.namespace == q.namespace

-- `x or y` on a text that may be null
abbrev pub text_or : Option Text → Text → Text
text_or none other = other
text_or (some []) other = other
text_or (some (c ∷ s)) other = c ∷ s

abbrev vcenter_label : Option ℕ → Text
vcenter_label none = codes "?"
vcenter_label (some zero) = codes "?"
vcenter_label (some (suc n)) = codes "vCenter " ++ decimal (suc n)

-- `Partition.label`
unfoldable pub partition_label : Partition → Text
partition_label p =
    text_or p.vcenter_name (vcenter_label p.vcenter_id)
    ++ codes " → "
    ++ text_or p.cluster_name (codes "cluster " ++ decimal p.cluster_id)
    ++ codes " / "
    ++ p.namespace

-- The fields of a `TargetResolution` that are read.
pub record Resolution : Type 0 where
  pub cluster_id : Option ℕ
  pub namespace : Text
  pub cluster_name : Option Text

-- `vc_names.get(vm.source_vcenter_id)`
abbrev vcenter_name_of : Dict ℕ Text → Option ℕ → Option Text
vcenter_name_of vcenters none = none
vcenter_name_of vcenters (some id) = get id vcenters

unfoldable pub partition_of : Dict ℕ Text → SourceVm → Option Resolution → Option Partition
partition_of vcenters v none = none
partition_of vcenters v (some r) = elim r.cluster_id [
  | none ↦ none
  | some cluster ↦
      if non_empty r.namespace
      then some (record {
        vcenter_id = v.source_vcenter_id;
        cluster_id = cluster;
        namespace = r.namespace;
        vcenter_name = vcenter_name_of vcenters v.source_vcenter_id;
        cluster_name = r.cluster_name;
      })
      else none
]

-- The loop of `resolve_partitions`.
unfoldable pub partitions_from :
    Dict ℕ Text
    → Dict ℕ Resolution
    → Dict ℕ (Option Partition)
    → List SourceVm
    → Dict ℕ (Option Partition)
unfolding partition_of
partitions_from vcenters resolutions out [] = out
partitions_from vcenters resolutions out (v ∷ vms) =
    partitions_from vcenters resolutions
      (put v.id (partition_of vcenters v (get v.id resolutions)) out) vms

-- `next((vm_by_id[v] for v in ids if v in vm_by_id), None)`
unfoldable pub find_vm : ℕ → List SourceVm → Option SourceVm
find_vm vid [] = none
find_vm vid (v ∷ vms) = let rest = find_vm vid vms in if v.id == vid then some v else rest

unfoldable pub representative : List SourceVm → List ℕ → Option SourceVm
unfolding find_vm
representative vms [] = none
representative vms (vid ∷ ids) =
    let rest = representative vms ids in elim (find_vm vid vms) [ none ↦ rest | some v ↦ some v ]

-- The representative of a plan; three candidates are tried.
unfoldable pub representative_of : List SourceVm → Plan → Option SourceVm
unfolding representative
representative_of table plan = representative table (take 3 plan.vm_ids)

unfoldable pub representatives : List SourceVm → List Plan → List SourceVm
unfolding representative_of
representatives table [] = []
representatives table (plan ∷ plans) =
    let rest = representatives table plans in
    elim (representative_of table plan) [ none ↦ rest | some v ↦ v ∷ rest ]

abbrev known_partition : Dict ℕ (Option Partition) → Option SourceVm → Option Partition
known_partition by_vm none = none
known_partition by_vm (some v) = get_default v.id none by_vm

-- `resolve_vms` is `resolve_vms_iter` of target_resolution.py on the same session, `vcenters` the
-- names of the table of vCenters.
module _ (resolve_vms : List SourceVm → Dict ℕ Resolution) (vcenters : Dict ℕ Text) where
  unfoldable pub resolve_partitions : List SourceVm → Dict ℕ (Option Partition)
  unfolding partitions_from
  resolve_partitions [] = []
  resolve_partitions (v ∷ vms) = partitions_from vcenters (resolve_vms (v ∷ vms)) [] (v ∷ vms)

  unfoldable pub plan_partitions : List SourceVm → List Plan → Dict ℕ (Option Partition)
  unfolding representative_of representatives resolve_partitions
  plan_partitions table plans =
      let by_vm = resolve_partitions (representatives table plans) in
      map (λ (p : Plan). (p.id, known_partition by_vm (representative_of table p))) plans

unfoldable pub wave_number_of : List WaveDoc → ℕ → Option ℕ
wave_number_of [] vm_id = none
wave_number_of (w ∷ ws) vm_id =
    let rest = wave_number_of ws vm_id in if contains w.vm_ids vm_id then w.wave_number else rest

-- An entry of `vm_plan_index`
pub record PlanEntry : Type 0 where
  pub plan_id : ℕ
  pub plan_name : Text
  pub plan_wave_number : Option ℕ

unfoldable pub enter_plan : Plan → Dict ℕ PlanEntry → List ℕ → Dict ℕ PlanEntry
enter_plan plan out [] = out
enter_plan plan out (vid ∷ ids) =
    enter_plan plan
      (put vid (record { plan_id = plan.id; plan_name = plan.name; plan_wave_number = none }) out)
      ids

-- The loop over the plans; `wanted` is a set of ids as a list.
unfoldable pub enter_plans : List ℕ → Dict ℕ PlanEntry → List Plan → Dict ℕ PlanEntry
unfolding enter_plan
enter_plans wanted out [] = out
enter_plans wanted out (plan ∷ plans) =
    enter_plans wanted (enter_plan plan out (filter_by (contains plan.vm_ids) wanted)) plans

-- `MigrationPlan.status != "failed"`, in the order of the ids
unfoldable pub live_plans : List Plan → List Plan
unfolding sorted
live_plans plans =
    sorted (λ (p q : Plan). leb p.id q.id)
      (filter_by (λ (p : Plan). not (p.status == codes "failed")) plans)

abbrev waves_by_id : List Plan → ℕ → List WaveDoc
waves_by_id [] plan_id = []
waves_by_id (p ∷ ps) plan_id =
    let rest = waves_by_id ps plan_id in if p.id == plan_id then p.waves else rest

-- With `with_wave` set, the number of the wave that holds the VM is looked up.
unfoldable pub fill_wave : Bool → List Plan → ℕ × PlanEntry → ℕ × PlanEntry
unfolding wave_number_of
fill_wave false plans entry = entry
fill_wave true plans (vid, entry) =
    (vid, record entry { plan_wave_number = wave_number_of (waves_by_id plans entry.plan_id) vid })

unfoldable pub vm_plan_index : List Plan → List ℕ → Bool → Dict ℕ PlanEntry
unfolding enter_plans live_plans fill_wave
vm_plan_index plans wanted with_wave =
    map (fill_wave with_wave plans) (enter_plans wanted [] (live_plans plans))
