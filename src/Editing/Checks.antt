-- ===== src/Editing/Checks.antt =====
-- The checks of backend/app/core/plan_edit.py that read the database: the runs of a wave, and what
-- a VM that enters a plan must satisfy.
use virtvalidation.Base.{
  ℕ, Bool, true, false, not, ◌&&◌, Option, none, some, List, [], ◌∷◌, ◌++◌, map, ltb, leb,
  if◌then◌else◌, ◌==◌, nat_Eq, option_Eq, list_Eq, length, take, filter_by, any_by,
}
use virtvalidation.Base.Dicts.{Dict}
use virtvalidation.Base.Texts.{Text, codes, join, decimal}
use virtvalidation.Base.Sorting.{sorted}
use virtvalidation.Base.Distinct.{contains}
use virtvalidation.Preclassifier.Source.{SourceVm, vm_ids_of, non_empty}
use virtvalidation.Lifecycle.{LifecycleState, Db, state_Eq}
use virtvalidation.Constraints.{Violation}
use virtvalidation.Partitions.{Resolution}
use virtvalidation.Editing.{Plan}

-- `BaselineRunStatus` and `ValidationRunStatus`, and the columns of a run that an edit reads.
pub data RunStatus : Type 0 where
  pending : RunStatus
  running : RunStatus
  completed : RunStatus
  failed : RunStatus

abbrev is_active : RunStatus → Bool
is_active RunStatus.pending = true
is_active RunStatus.running = true
is_active status = false

abbrev is_completed : RunStatus → Bool
is_completed RunStatus.completed = true
is_completed status = false

pub record Run : Type 0 where
  pub plan_id : ℕ
  pub wave_number : ℕ
  pub status : RunStatus

-- A gap of `validate_plan_inputs`
pub record MappingGap : Type 0 where
  pub vm_id : ℕ
  pub kind : Text
  pub source_value : Text

-- What the edit reads: the tables, and the answers of three services. `gaps` are those of
-- `validate_plan_inputs` on the plan's mappings, `blocked_by` is `blocks_migration_type` on the
-- assessment of a VM, `resolve_vms` is `resolve_vms_iter`, `emit_error` the error of the emission of
-- a rebuilt wave as YAML.
pub record Services : Type 0 where
  pub resolve_vms : List SourceVm → Dict ℕ Resolution
  pub gaps : Plan → List SourceVm → List MappingGap
  pub blocked_by : ℕ → Text → List Text
  pub emit_error : Plan → ℕ → List SourceVm → Option Text

pub record Tables : Type 0 where
  pub plans : List Plan
  pub vms : List SourceVm
  pub vcenters : Dict ℕ Text
  pub session : Db
  pub baseline_runs : List Run
  pub validation_runs : List Run
  pub max_vms_per_plan : ℕ

abbrev pub blocking : Text
blocking = codes "blocking"

abbrev pub overridable : Text
overridable = codes "overridable"

abbrev pub info : Text
info = codes "info"

-- A violation of a plan; the other fields have their defaults.
unfoldable pub plan_violation : Text → Text → Text → ℕ → Violation
plan_violation code severity message plan_id = record {
  code = code;
  severity = severity;
  message = message;
  plan_id = some plan_id;
  wave_number = none;
  family = none;
  vm_ids = [];
  vm_names = [];
  count = none;
  limit = none;
}

-- `list(dict.fromkeys(l))`
unfoldable pub from_keys : List ℕ → List ℕ
from_keys [] = []
from_keys (x ∷ xs) = x ∷ filter_by (λ y. not (y == x)) (from_keys xs)

-- The wave numbers of the plan's runs of some status, among `wave_numbers`.
unfoldable pub run_waves : (RunStatus → Bool) → ℕ → List ℕ → List Run → List ℕ
run_waves wanted plan_id wave_numbers runs =
    map (λ (r : Run). r.wave_number)
      (filter_by
        (λ (r : Run).
          r.plan_id == plan_id && contains wave_numbers r.wave_number && wanted r.status)
        runs)

unfoldable pub busy_violation : ℕ → ℕ → Violation
unfolding plan_violation
busy_violation plan_id n =
    record (plan_violation (codes "wave_run_in_progress") blocking
      (codes "Wave "
        ++ decimal n
        ++ codes " has a baseline or validation run in progress. "
        ++ codes "Wait for it to finish before changing the wave.")
      plan_id) { wave_number = some n }

unfoldable pub validated_violation : ℕ → ℕ → Violation
unfolding plan_violation
validated_violation plan_id n =
    record (plan_violation (codes "wave_already_validated") overridable
      (codes "Wave "
        ++ decimal n
        ++ codes " already has a completed validation run. Changing its "
        ++ codes "membership leaves that run describing a different set of VMs.")
      plan_id) { wave_number = some n }

abbrev pub busy_waves : Tables → ℕ → List ℕ → List ℕ
busy_waves db plan_id wave_numbers =
    run_waves is_active plan_id wave_numbers db.baseline_runs
    ++ run_waves is_active plan_id wave_numbers db.validation_runs

unfoldable pub run_violations : Tables → ℕ → List ℕ → List Violation
unfolding run_waves from_keys busy_violation validated_violation sorted
run_violations db plan_id wave_numbers =
    let busy = busy_waves db plan_id wave_numbers in
    let validated = run_waves is_completed plan_id wave_numbers db.validation_runs in
    map (busy_violation plan_id) (sorted leb (from_keys busy))
    ++ map (validated_violation plan_id)
        (sorted leb (from_keys (filter_by (λ n. not (contains busy n)) validated)))

unfoldable pub has_completed_baseline : Tables → ℕ → ℕ → Bool
unfolding run_waves
has_completed_baseline db plan_id wave_number =
    non_empty (run_waves is_completed plan_id (wave_number ∷ []) db.baseline_runs)

abbrev vm_names_of : List SourceVm → List Text
vm_names_of vms = map (λ (v : SourceVm). v.name) vms

-- The first names of a message, and "…" if there are more.
unfoldable pub first_names : ℕ → List Text → Text
unfolding join
first_names n names =
    join (codes ", ") (take n names) ++ (if ltb n (length names) then codes "…" else [])

-- A violation about VMs, which names them.
unfoldable pub vms_violation : Text → Text → ℕ → List SourceVm → Violation
unfolding plan_violation
vms_violation code message plan_id vms = record (plan_violation code blocking message plan_id) {
  vm_ids = vm_ids_of vms;
  vm_names = vm_names_of vms;
}

-- `_lifecycle(vm)` on the row of the table
unfoldable pub is_available : Db → SourceVm → Bool
is_available db v =
    any_by (λ row. row.id == v.id && row.lifecycle_state == LifecycleState.available) db.vms

-- A violation if there are VMs to report.
abbrev pub report : List SourceVm → Violation → List Violation
report vms v = if non_empty vms then v ∷ [] else []

unfoldable pub unavailable_violation : ℕ → List SourceVm → Violation
unfolding vms_violation first_names
unavailable_violation plan_id vms =
    vms_violation (codes "vm_not_available")
      (decimal (length vms)
        ++ codes " VM(s) are not available to plan (already in a plan, migrated, or unmanageable): "
        ++ first_names 6 (vm_names_of vms))
      plan_id vms

unfoldable pub unresolved_plan_violation : Plan → Violation
unfolding plan_violation
unresolved_plan_violation plan =
    plan_violation (codes "target_unresolved") blocking
      (codes "Plan '"
        ++ plan.name
        ++ codes
            "' no longer resolves to a target cluster and namespace, so VMs cannot be placed into it.")
      plan.id

unfoldable pub unresolved_violation : ℕ → List SourceVm → Violation
unfolding vms_violation first_names
unresolved_violation plan_id vms =
    vms_violation (codes "target_unresolved")
      (decimal (length vms)
        ++ codes " VM(s) do not resolve to a target cluster and namespace: "
        ++ first_names 6 (vm_names_of vms)
        ++ codes ". Set a target override or add a resource mapping.")
      plan_id vms
