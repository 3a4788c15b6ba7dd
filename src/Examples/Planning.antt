-- ===== src/Examples/Planning.antt =====
-- The theorems on the pre-classifier and the planner applied to three VMs.
use virtvalidation.Base.{
  ℕ, ◌≤◌, ◌≡◌, refl, inr, true, none, some, List, [], ◌∷◌, arith, nat_Eq, option_Eq, list_Eq, All,
  any_by,
}
use virtvalidation.Base.Texts.{Text, codes, decimal}
use virtvalidation.Base.Sorting.{sorted}
use virtvalidation.Group.{VmGroup, as_string, group_id, is_ha_peer, ha_count, ids_of}
use virtvalidation.Base.Distinct.{Distinct}
use virtvalidation.Group.{prefixed_id}
use virtvalidation.Base.Texts.{decimal_loop}
use virtvalidation.Base.Buckets.{bucket_by}
use virtvalidation.Skeleton.Oversized.{
  split_oversized_groups, split_one, batches, batch_group, members_by_id, members_of,
}
use virtvalidation.Skeleton.Order.Complete.{group_ids}
use virtvalidation.Skeleton.Packing.{Limits, assign_waves}
use virtvalidation.Skeleton.Assign.Result.{HasFewPeers}
use virtvalidation.Preclassifier.Source.{SourceVm, vm_ids_of}
use virtvalidation.Preclassifier.Classify.{
  primary_buckets, merge_all, collapse_small, classify_buckets, set_hints, add_dependency_hints,
  classify,
}
use virtvalidation.Preclassifier.Source.{primary_key, strip, label}
use virtvalidation.Preclassifier.Roles.{
  detect_role, detect_state, has_word, words, first_pattern, haystack,
}
use virtvalidation.Preclassifier.Build.{
  build_group, majority_role, count_roles, best_vote, role_weight, group_state,
}
use virtvalidation.Preclassifier.Merge.{
  merged_role, merged_state, merge_groups, total_vms, consolidate,
}
use virtvalidation.Preclassifier.Cluster.{
  classify_within_primary, hint_groups, build_hints, build_buckets, clusters_of, find_clusters,
  build_clusters, prefix_groups, overlaps, pull, keep_cluster,
}
use virtvalidation.Environment.{normalize}
use virtvalidation.Preclassifier.Whole.{IsPure}
use virtvalidation.Preclassifier.Result.{classify-perm, classify-IsPure}
use virtvalidation.Preclassifier.Ha.{
  split_ha_group, detect_ha_members, name_prefix, strip_sequence, pattern_members, suffixes_from,
  split_sequence, detect_ha_role,
}
use virtvalidation.Preclassifier.Members.{
  HasMembers, split_ha_group-perm, split_ha_group-HasFewPeers,
}
use virtvalidation.Preclassifier.Kept.{HasAllMembers, classify-HasAllMembers}
use virtvalidation.Planner.{
  PlanError, Planned, ExpandedWave, plan_assigned, plan_with_groups, expanded, expand_ha,
}
use virtvalidation.Planner.Checked.{expanded_groups, plan_with_groups-assigned}
use virtvalidation.Planner.Result.{AllFit, IsPlan, plan_with_groups-IsPlan}
use virtvalidation.Planner.Unknown.{is_stranger, plan_with_groups-unknown}
use mathlib.Core.List.{Perm}
use mathlib.Core.List.Perm

abbrev pub vm : ℕ → Text → SourceVm
vm id name = record {
  id = id;
  name = name;
  role = [];
  application_hint = [];
  environment = codes "prod";
  os_family = codes "rhel";
  source_vcenter_id = some 1;
  target_cluster_id_override = none;
  target_namespace_override = [];
  vsphere_networks = [];
  vsphere_datastores = [];
}

abbrev pub first_vm : SourceVm
first_vm = vm 1 (codes "alpha")

abbrev pub other_vms : List SourceVm
other_vms = vm 2 (codes "beta") ∷ vm 3 (codes "gamma") ∷ []

abbrev pub three_vms : List SourceVm
three_vms = first_vm ∷ other_vms

three_vms-Distinct : Distinct (vm_ids_of three_vms)
three_vms-Distinct = (refl, (refl, (refl, tt)))

classify-perm_example : Perm (ids_of (classify (some 1) three_vms)) (1 ∷ 2 ∷ 3 ∷ [])
classify-perm_example = classify-perm (some 1) three_vms three_vms-Distinct

abbrev HasSmallId : SourceVm → Type 0
HasSmallId v = v.id ≤ 9

three_vms-HasSmallId : All HasSmallId three_vms
three_vms-HasSmallId = (omega arith, (omega arith, (omega arith, tt)))

classify-IsPure_example : All (IsPure HasSmallId) (classify none three_vms)
classify-IsPure_example =
    classify-IsPure HasSmallId three_vms three_vms-Distinct three_vms-HasSmallId

classify-HasAllMembers_example : All HasAllMembers (classify none three_vms)
classify-HasAllMembers_example = classify-HasAllMembers three_vms

abbrev roomy : Limits
roomy = record { max_vms = 10; max_ha_peers = 2 }

abbrev tight : Limits
tight = record { max_vms = 2; max_ha_peers = 2 }

plan_with_groups-assigned_example :
    plan_with_groups (codes "spread") roomy three_vms
    ≡ plan_assigned
        (1 ∷ 2 ∷ 3 ∷ [])
        (expanded_groups (codes "spread") three_vms)
        (assign_waves roomy (expanded_groups (codes "spread") three_vms))
plan_with_groups-assigned_example =
    plan_with_groups-assigned (codes "spread") roomy first_vm other_vms three_vms-Distinct

-- Behind the expansion there is one group, which fits a wave of ten VMs.
three_vms-ready :
    AllFit 10 (expanded_groups (codes "spread") three_vms)
    × Distinct (group_ids (expanded_groups (codes "spread") three_vms))
unfolding expand_ha expanded split_ha_group ha_count is_ha_peer classify primary_buckets bucket_by
    classify_buckets collapse_small merge_all total_vms classify_within_primary hint_groups
    build_hints build_buckets build_group majority_role clusters_of find_clusters build_clusters
    prefix_groups detect_ha_members merge_groups consolidate add_dependency_hints set_hints sorted
    primary_key normalize strip label name_prefix strip_sequence overlaps pull keep_cluster
    pattern_members suffixes_from split_sequence detect_ha_role first_pattern has_word words
three_vms-ready = ((omega arith, tt), (refl, tt))

plan_with_groups-IsPlan_example :
    (rows : List ExpandedWave) × (plan_with_groups (codes "spread") roomy three_vms
      ≡ Planned.returned rows)
    × IsPlan 10 (1 ∷ 2 ∷ 3 ∷ []) rows
plan_with_groups-IsPlan_example =
    plan_with_groups-IsPlan (codes "spread") roomy first_vm other_vms (omega arith)
      three_vms-Distinct three_vms-ready.0 three_vms-ready.1

-- Waves of two VMs split the group into two batches with ids of their own.
three_vms-split :
    Distinct (group_ids (split_oversized_groups 2 (expanded_groups (codes "spread") three_vms)))
    × (any_by
          (is_stranger (expanded_groups (codes "spread") three_vms))
          (split_oversized_groups 2 (expanded_groups (codes "spread") three_vms))
        ≡ true)
unfolding expand_ha expanded split_ha_group ha_count is_ha_peer classify primary_buckets bucket_by
    classify_buckets collapse_small merge_all total_vms classify_within_primary hint_groups
    build_hints build_buckets build_group majority_role clusters_of find_clusters build_clusters
    prefix_groups detect_ha_members merge_groups consolidate add_dependency_hints set_hints sorted
    primary_key normalize strip label name_prefix strip_sequence overlaps pull keep_cluster
    pattern_members suffixes_from split_sequence detect_ha_role first_pattern has_word words
    split_oversized_groups split_one batches batch_group members_by_id members_of group_id as_string
    prefixed_id decimal decimal_loop merged_role merged_state role_weight group_state detect_role
    detect_state count_roles best_vote haystack
three_vms-split = ((refl, (refl, tt)), refl)

plan_with_groups-unknown_example :
    (id : Text) × (plan_with_groups (codes "spread") tight three_vms
      ≡ Planned.failed (PlanError.unknown_group id))
plan_with_groups-unknown_example =
    plan_with_groups-unknown (codes "spread") tight first_vm other_vms (omega arith)
      three_vms-Distinct three_vms-ready.1 three_vms-split.0 three_vms-split.1

abbrev pair : VmGroup
pair = record {
  key = record {
    vcenter_id = some 1;
    target_namespace = [];
    role = codes "data";
    state = codes "stateful";
    discriminator = codes "prefix:db";
    environment = codes "prod";
    target_cluster_id = none;
  };
  vm_ids = 4 ∷ 5 ∷ [];
  shared_attributes = [];
  estimated_role = codes "data";
  estimated_state = codes "stateful";
  migration_risk = codes "high";
  dependency_hints = [];
  notes = [];
  risk_assessment = none;
  ha_members =
      record { vm_id = 5; vm_name = codes "db-replica"; ha_role = codes "replica" }
      ∷ record { vm_id = 4; vm_name = codes "db-primary"; ha_role = codes "primary" }
      ∷ [];
}

pair-HasMembers : HasMembers pair
unfolding HasMembers
pair-HasMembers = inr (Perm.swap _ _ _)

split_ha_group-perm_example : Perm (ids_of (split_ha_group pair)) (4 ∷ 5 ∷ [])
split_ha_group-perm_example = split_ha_group-perm pair pair-HasMembers

split_ha_group-HasFewPeers_example : All (HasFewPeers tight) (split_ha_group pair)
split_ha_group-HasFewPeers_example = split_ha_group-HasFewPeers tight pair (omega arith)
