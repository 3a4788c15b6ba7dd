-- ===== src/Examples.antt =====
-- The theorems applied to concrete data: a small plan, and a session with two VMs.
pub mod Spread
pub mod Planning
mod Chunks
mod Answers
mod Edits
use virtvalidation.Lifecycle.{Outcome, TransitionResult}
use virtvalidation.Lifecycle.Outcomes.{AllExist, AllAre, transition_to_planned-AllAre}
use virtvalidation.Constraints.{WaveMembers, Violation, wave_size_violations}
use virtvalidation.Constraints.Sizes.{is_over, wave_size_violations-numbers}
use virtvalidation.Base.Keys.{keys}
use virtvalidation.Base.{filter_by, leb}
use virtvalidation.Environment.{Environment, normalize}
use virtvalidation.Environment.Cascade.{
  detect_environment, known_or, from_attributes, first_token, IsHonest, detect_environment-IsHonest,
}
use virtvalidation.Concurrency.{waves_conflict, assign_concurrency_groups}
use virtvalidation.Concurrency.Proper.{IsNumbered, families_now, assign_concurrency_groups-proper}
use virtvalidation.Base.{true, false, ◌==◌}
use virtvalidation.Base.{
  ℕ, ◌≤◌, ◌≡◌, refl, none, some, List, [], ◌∷◌, map, arith, nat_Eq, option_Eq, list_Eq, length, All,
}
use virtvalidation.Base.Dicts.{get}
use virtvalidation.Base.Texts.{Text, codes, decimal}
use virtvalidation.Base.Sorting.{sorted}
use virtvalidation.Group.{GroupKey, HaMember, VmGroup, as_string, group_id, ids_of}
use virtvalidation.Base.Distinct.{Distinct}
use virtvalidation.Base.Texts.{decimal_loop}
use virtvalidation.Group.{prefixed_id}
use virtvalidation.Skeleton.Wave.{Wave, wave_vm_ids, vm_count}
use virtvalidation.Skeleton.Oversized.{
  split_oversized_groups, split_one, batches, batch_group, members_by_id, members_of,
}
use virtvalidation.Skeleton.Order.Kahn.{IsFinished}
use virtvalidation.Skeleton.Order.Complete.{kahn_order-IsFinished, group_ids}
use virtvalidation.Skeleton.Packing.{
  Limits, Packing, assign_waves, find_target_wave, put_group, start,
}
use virtvalidation.Skeleton.Assign.{IsOnePartition, numbers_from}
use virtvalidation.Skeleton.Assign.Result.{
  assign_waves-perm, assign_waves-small, assign_waves-IsOnePartition,
}
use virtvalidation.Base.Rearranged.{collect}
use virtvalidation.Skeleton.Wave.{priority_le}
use virtvalidation.Skeleton.Oversized.Batches.{split_oversized_groups-small}
use virtvalidation.Skeleton.Order.Sorted.{topological_sort-sorted}
use virtvalidation.Skeleton.Order.{topological_sort, kahn_order}
use virtvalidation.Skeleton.Packing.Search.{find_target_wave-finds}
use virtvalidation.Skeleton.Packing.Invariant.{start-IsPacked}
use virtvalidation.Skeleton.Packing.Preserve.{put_group-IsPacked}
use virtvalidation.Skeleton.Packing.Result.{Placed, place_group-Placed}
use virtvalidation.Skeleton.Packing.Late.{ComesAfter, place_group-late}
use virtvalidation.Family.Names.{family_cap}
use virtvalidation.Family.Split.{Names, split_overconcentrated_families}
use virtvalidation.Family.Buckets.{family_count}
use virtvalidation.Family.Cap.{
  split_overconcentrated_families-perm, split_overconcentrated_families-capped,
  split_overconcentrated_families_idem,
}
use virtvalidation.Lifecycle.{
  LifecycleState, Vm, AuditDetails, Db, transition_to_planned, fetch_locked, missing_offenders,
  missing_ids, offenders, raise_if, apply, move_rows, move_many,
}
use virtvalidation.Lifecycle.Moves.{Rows, Step}
use virtvalidation.Lifecycle.Calls.{Call, run, run-Step, Reachable, Stays, Reachable-Stays}
use mathlib.Core.List.{Perm}
use mathlib.Core.List.Perm

abbrev app_key : Text → GroupKey
app_key discriminator = record {
  vcenter_id = some 1;
  target_namespace = codes "n";
  role = codes "r";
  state = codes "s";
  discriminator = discriminator;
  environment = codes "e";
  target_cluster_id = none;
}

abbrev app_group : Text → List ℕ → List HaMember → VmGroup
app_group discriminator vm_ids ha_members = record {
  key = app_key discriminator;
  vm_ids = vm_ids;
  shared_attributes = [];
  estimated_role = codes "app";
  estimated_state = codes "s";
  migration_risk = codes "low";
  dependency_hints = [];
  notes = [];
  risk_assessment = none;
  ha_members = ha_members;
}

abbrev peer : ℕ → HaMember
peer id = record { vm_id = id; vm_name = codes "db"; ha_role = codes "replica" }

abbrev group_a : VmGroup
group_a = app_group (codes "a") (1 ∷ 2 ∷ 3 ∷ []) []

abbrev group_b : VmGroup
group_b = app_group (codes "b") (4 ∷ []) (peer 4 ∷ [])

abbrev two_groups : List VmGroup
two_groups = group_b ∷ group_a ∷ []

abbrev limits : Limits
limits = record { max_vms = 2; max_ha_peers = 1 }

two_groups-Distinct : Distinct (group_ids (split_oversized_groups 2 two_groups))
unfolding split_oversized_groups split_one batches batch_group members_by_id members_of group_id
    as_string prefixed_id decimal decimal_loop sorted
two_groups-Distinct = (refl, (refl, (refl, tt)))

some_wave_positive : 1 ≤ 2
some_wave_positive = omega arith

abbrev two_groups_waves : List Wave
two_groups_waves = (assign_waves-perm limits two_groups some_wave_positive two_groups-Distinct).0

two_groups-returned : assign_waves limits two_groups ≡ some two_groups_waves
two_groups-returned = (assign_waves-perm limits two_groups some_wave_positive two_groups-Distinct).1

assign_waves-perm_example :
    (ws : List Wave) × (assign_waves limits two_groups ≡ some ws)
    × Perm (collect wave_vm_ids ws) (ids_of two_groups)
assign_waves-perm_example =
    assign_waves-perm limits two_groups some_wave_positive two_groups-Distinct

assign_waves-small_example :
    All (λ (w : Wave). vm_count w ≤ 2) two_groups_waves
    × (map (λ (w : Wave). w.wave_number) two_groups_waves ≡ numbers_from 1 two_groups_waves)
assign_waves-small_example =
    assign_waves-small limits two_groups some_wave_positive two_groups-Distinct two_groups_waves
      two_groups-returned

assign_waves-IsOnePartition_example : All (λ (w : Wave). IsOnePartition w.groups) two_groups_waves
assign_waves-IsOnePartition_example =
    assign_waves-IsOnePartition limits two_groups some_wave_positive two_groups-Distinct
      two_groups_waves two_groups-returned

split_oversized_groups-small_example :
    All (λ (g : VmGroup). length g.vm_ids ≤ 2) (split_oversized_groups 2 two_groups)
split_oversized_groups-small_example = split_oversized_groups-small 2 some_wave_positive two_groups

-- The first group by its id waits for the second.
abbrev hinted_groups : List VmGroup
hinted_groups = group_b ∷ record group_a { dependency_hints = group_id group_b ∷ [] } ∷ []

hinted_groups-Distinct : Distinct (group_ids hinted_groups)
unfolding group_id as_string prefixed_id decimal decimal_loop
hinted_groups-Distinct = (refl, (refl, tt))

topological_sort-sorted_example : topological_sort hinted_groups ≡ sorted priority_le hinted_groups
topological_sort-sorted_example = topological_sort-sorted hinted_groups hinted_groups-Distinct

kahn_order-IsFinished_example : IsFinished (kahn_order (split_oversized_groups 2 two_groups))
kahn_order-IsFinished_example =
    kahn_order-IsFinished (split_oversized_groups 2 two_groups) two_groups-Distinct

-- A group that names the group `group_b` as a dependency.
abbrev group_c : VmGroup
group_c = record group_b {
  key = app_key (codes "c");
  vm_ids = 5 ∷ [];
  dependency_hints = group_id group_b ∷ [];
}

first-Placed : Placed limits [] group_b start
first-Placed = place_group-Placed limits [] group_b start (start-IsPacked limits []) (omega arith)

abbrev with_b : Packing
with_b = put_group limits group_b (get (group_id group_b) []) first-Placed.target start

second-Placed : Placed limits [] group_c with_b
second-Placed =
    place_group-Placed limits [] group_c with_b
      (put_group-IsPacked limits [] start group_b first-Placed.target (start-IsPacked limits [])
        first-Placed.fits)
      (omega arith)

abbrev with_c : Packing
with_c = put_group limits group_c (get (group_id group_c) []) second-Placed.target with_b

place_group-late_example :
    (target : ℕ) × (get (group_id group_c) with_c.wave_for_group ≡ some target)
    × All (ComesAfter with_b.wave_for_group target) (group_id group_b ∷ [])
place_group-late_example = place_group-late limits [] group_c with_b with_c second-Placed.placed

find_target_wave-finds_example : (t : ℕ) × (find_target_wave limits with_b group_c 3 none ≡ some t)
find_target_wave-finds_example =
    find_target_wave-finds limits with_b group_c none 3 (omega arith)
      (put_group-IsPacked limits [] start group_b first-Placed.target (start-IsPacked limits [])
        first-Placed.fits).fresh

abbrev names : Names
names = (1, codes "core-1") ∷ (2, codes "core-2") ∷ (3, codes "core-3") ∷ []

split_overconcentrated_families-perm_example :
    Perm (ids_of (split_overconcentrated_families names two_groups)) (ids_of two_groups)
split_overconcentrated_families-perm_example = split_overconcentrated_families-perm names two_groups

split_overconcentrated_families-capped_example :
    All
      (λ (g : VmGroup).
        family_count names (codes "core") g.vm_ids
        ≤ family_cap (family_count names (codes "core") (ids_of two_groups)))
      (split_overconcentrated_families names two_groups)
split_overconcentrated_families-capped_example =
    split_overconcentrated_families-capped names two_groups (codes "core") (λ e. cc)

split_overconcentrated_families_idem_example :
    split_overconcentrated_families names (split_overconcentrated_families names two_groups)
    ≡ split_overconcentrated_families names two_groups
split_overconcentrated_families_idem_example = split_overconcentrated_families_idem names two_groups

-- The session of two VMs, before and after the first is planned.
abbrev vm_row : ℕ → LifecycleState → ℕ → Vm
vm_row id state now = record { id = id; lifecycle_state = state; lifecycle_state_changed_at = now }

abbrev session_before : Db
session_before = record {
  vms = vm_row 1 LifecycleState.available 0 ∷ vm_row 2 LifecycleState.unmanageable 0 ∷ [];
  audit = [];
}

abbrev session_after : Db
session_after = record {
  vms = vm_row 1 LifecycleState.planned 9 ∷ vm_row 2 LifecycleState.unmanageable 0 ∷ [];
  audit =
      record {
        action = codes "vm.lifecycle_state.transition";
        actor = codes "u";
        resource_type = codes "plan";
        resource_id = 7;
        details =
            AuditDetails.moved_vms (1 ∷ []) LifecycleState.planned
              ((1, LifecycleState.available) ∷ []) (codes "plan.create");
      }
      ∷ [];
}

abbrev plan_one : Call
plan_one = Call.plan (1 ∷ []) 7 (codes "u") (codes "plan.create")

plan_one-run : run 9 plan_one session_before ≡ some session_after
unfolding run transition_to_planned fetch_locked missing_offenders missing_ids offenders raise_if
    apply move_rows move_many
plan_one-run = refl

run-Step_example : Step session_before session_after
run-Step_example = run-Step 9 plan_one session_before session_after plan_one-run

session_after-Reachable : Reachable session_before session_after
session_after-Reachable = Reachable.next 9 plan_one Reachable.here plan_one-run

Reachable-Stays_example : Rows Stays session_before.vms session_after.vms
Reachable-Stays_example = Reachable-Stays session_before session_after session_after-Reachable

-- A cluster whose name begins with "nonprod" holds the token "prod".
nonprod_cluster :
    (detect_environment none none (some (codes "nonprod-01")) [] none).environment
    ≡ Environment.production
unfolding detect_environment known_or from_attributes first_token normalize
nonprod_cluster = refl

detect_environment-IsHonest_example :
    IsHonest (detect_environment (some (codes "x-db")) none (some (codes "nonprod-01")) [] none)
detect_environment-IsHonest_example =
    detect_environment-IsHonest (some (codes "x-db")) none (some (codes "nonprod-01")) [] none

-- Two waves against one vCenter.
abbrev wave_holding : ℕ → List VmGroup → Wave
wave_holding number groups = record {
  wave_number = number;
  groups = groups;
  estimated_risk = codes "low";
  notes = [];
  concurrency_group_id = 0;
}

abbrev two_waves : List Wave
two_waves = wave_holding 1 (group_a ∷ []) ∷ wave_holding 2 (group_b ∷ []) ∷ []

two_waves-IsNumbered : IsNumbered two_waves
two_waves-IsNumbered = (((λ e. refl), ((λ e. cc), tt)), ((((λ e. cc), ((λ e. refl), tt))), tt))

assign_concurrency_groups-proper_example :
    All
      (λ (a : Wave).
        All
          (λ (b : Wave).
            (a.wave_number == b.wave_number) ≡ false
            → waves_conflict (families_now names two_waves) a b ≡ true
            → (a.concurrency_group_id == b.concurrency_group_id) ≡ false)
          (assign_concurrency_groups two_waves names))
      (assign_concurrency_groups two_waves names)
assign_concurrency_groups-proper_example =
    assign_concurrency_groups-proper names two_waves two_waves-IsNumbered

abbrev layout : WaveMembers
layout =
    (2, (1, codes "core-1") ∷ (2, codes "core-2") ∷ (3, codes "x") ∷ [])
    ∷ (1, (4, codes "y") ∷ [])
    ∷ []

wave_size_violations-numbers_example :
    map (λ (v : Violation). v.wave_number) (wave_size_violations none 2 layout)
    ≡ map some (filter_by (is_over 2 layout) (sorted leb (keys layout)))
wave_size_violations-numbers_example = wave_size_violations-numbers none 2 layout

abbrev planned_result : TransitionResult
planned_result = record {
  vm_ids = 1 ∷ [];
  from_states = (1, LifecycleState.available) ∷ [];
  to_state = LifecycleState.planned;
  audit_action = codes "vm.lifecycle_state.transition";
}

plan_one-returned :
    transition_to_planned 9 (1 ∷ []) 7 (codes "u") (codes "plan.create") session_before
    ≡ Outcome.done planned_result session_after
unfolding transition_to_planned fetch_locked missing_offenders missing_ids offenders raise_if apply
    move_rows move_many
plan_one-returned = refl

transition_to_planned-AllAre_example :
    AllExist (1 ∷ []) session_before
    × AllAre LifecycleState.available (1 ∷ []) session_before
    × AllAre LifecycleState.planned (1 ∷ []) session_after
transition_to_planned-AllAre_example =
    transition_to_planned-AllAre 9 (1 ∷ []) 7 (codes "u") (codes "plan.create") session_before
      session_after planned_result plan_one-returned
