-- ===== src/Examples/Spread.antt =====
-- The spread of HA peers applied to three database servers of one HA family.
use virtvalidation.Base.{
  ℕ, ◌≤◌, ◌≡◌, refl, Option, none, some, List, [], ◌∷◌, ◌++◌, map, arith, nat_Eq, option_Eq,
  list_Eq, All, All-perm,
}
use virtvalidation.Base.Texts.{Text, codes, decimal, decimal_loop, text_le}
use virtvalidation.Base.Distinct.{Distinct}
use virtvalidation.Base.Sorting.{sorted}
use virtvalidation.Group.{VmGroup, group_id, ha_count, is_ha_peer, as_string, prefixed_id}
use virtvalidation.Skeleton.Wave.{
  Wave, wave_vm_ids, build_wave, empty_wave, id_le, max_risk, priority_le, risk_name, risk_priority,
  role_priority, sum_vm_counts, vm_count, wave_aggregate_risk,
}
use virtvalidation.Skeleton.Packing.{
  Limits, assign_waves, is_primary_group, effective_family_cap, add_to_wave, bump_family,
  candidate_fits, family_fits, finalize, find_target_wave, min_wave_from, min_wave_from_deps, pack,
  pack_ordered, partition_fits, peers_at, place_group, put_group, renumber, same_partition,
  search_wave, vms_fit, wave_le,
}
use virtvalidation.Skeleton.Oversized.{
  split_oversized_groups, split_one, batches, batch_group, members_by_id, members_of,
}
use virtvalidation.Skeleton.Order.Complete.{group_ids, topological_sort-perm}
use virtvalidation.Skeleton.Assign.{IsSpreadWave}
use virtvalidation.Skeleton.Assign.Result.{
  HasFewPeers, ordered_groups, family_map, assign_waves-perm, assign_waves-IsSpreadWave,
}
use virtvalidation.Skeleton.Order.{
  count_hints, free_ids, groups_at, groups_by_id, indegrees, kahn, kahn_order, lower_degree, relax,
  release, remainder, topological_order, topological_sort, zero_degrees,
}
use virtvalidation.Base.Keys.{dict_from}
use virtvalidation.Skeleton.HaFamily.{
  before_ha, collect_families, detect_ha_families, ends_in_number, family_stem, first_peer_name,
  group_to_family, ha_family_key, is_number_suffix, matches_strip_re, strip_number, tag_ids,
}
use mathlib.Core.List.Perm
use native.Mathlib.Bridge.{le_prop}

abbrev server : ℕ → Text → VmGroup
server n ha_role = record {
  key = record {
    vcenter_id = some 1;
    target_namespace = codes "n";
    role = codes "db";
    state = codes "s";
    discriminator = codes "db/ha:" ++ decimal n;
    environment = codes "e";
    target_cluster_id = none;
  };
  vm_ids = n ∷ [];
  shared_attributes = [];
  estimated_role = codes "db";
  estimated_state = codes "s";
  migration_risk = codes "low";
  dependency_hints = [];
  notes = [];
  risk_assessment = none;
  ha_members = record { vm_id = n; vm_name = codes "db"; ha_role = ha_role } ∷ [];
}

-- A primary and two replicas of one HA family.
abbrev servers : List VmGroup
servers = server 1 (codes "primary") ∷ server 2 (codes "replica") ∷ server 3 (codes "replica") ∷ []

abbrev limits : Limits
limits = record { max_vms = 10; max_ha_peers = 2 }

some_wave_positive : 1 ≤ 10
some_wave_positive = omega arith

servers-Distinct : Distinct (group_ids (split_oversized_groups 10 servers))
unfolding split_oversized_groups split_one batches batch_group members_by_id members_of group_id
    as_string prefixed_id decimal decimal_loop sorted
servers-Distinct = (refl, (refl, (refl, tt)))

abbrev servers_waves : List Wave
servers_waves = (assign_waves-perm limits servers some_wave_positive servers-Distinct).0

servers-returned : assign_waves limits servers ≡ some servers_waves
servers-returned = (assign_waves-perm limits servers some_wave_positive servers-Distinct).1

abbrev ids_of_waves : Option (List Wave) → Option (List (List ℕ))
ids_of_waves none = none
ids_of_waves (some ws) = some (map wave_vm_ids ws)

-- The primary keeps the first wave to itself.
servers_apart : ids_of_waves (assign_waves limits servers) ≡ some ((1 ∷ []) ∷ (2 ∷ 3 ∷ []) ∷ [])
unfolding assign_waves pack_ordered pack topological_sort sorted groups_at kahn
    split_oversized_groups free_ids indegrees zero_degrees group_id text_le relax groups_by_id
    remainder priority_le dict_from decimal decimal_loop as_string ha_count is_ha_peer prefixed_id
    before_ha collect_families detect_ha_families ends_in_number family_stem first_peer_name
    group_to_family ha_family_key is_number_suffix matches_strip_re strip_number tag_ids count_hints
    kahn_order lower_degree release topological_order batch_group batches members_by_id members_of
    split_one add_to_wave bump_family candidate_fits effective_family_cap family_fits finalize
    find_target_wave is_primary_group min_wave_from min_wave_from_deps partition_fits peers_at
    place_group put_group renumber same_partition search_wave vms_fit wave_le build_wave empty_wave
    id_le max_risk risk_name risk_priority role_priority sum_vm_counts vm_count wave_aggregate_risk
    wave_vm_ids
servers_apart = refl

servers_few : All (HasFewPeers limits) (split_oversized_groups 10 servers)
unfolding split_oversized_groups split_one batches batch_group members_by_id members_of sorted
    ha_count is_ha_peer effective_family_cap is_primary_group
servers_few = (omega arith, (omega arith, (omega arith, tt)))

ordered_few : All (HasFewPeers limits) (ordered_groups limits servers)
ordered_few =
    All-perm (HasFewPeers limits) (λ g. le_prop)
      (Perm.symm (topological_sort-perm (split_oversized_groups 10 servers) servers-Distinct))
      servers_few

assign_waves-IsSpreadWave_example :
    All (λ (w : Wave). IsSpreadWave limits (family_map limits servers) w.groups) servers_waves
assign_waves-IsSpreadWave_example =
    assign_waves-IsSpreadWave limits servers some_wave_positive servers-Distinct servers_waves
      servers-returned ordered_few (omega arith)
