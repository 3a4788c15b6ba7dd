-- ===== src/Editing/Apply.antt =====
-- `apply` of backend/app/core/plan_edit.py: a prepared edit is persisted.
use virtvalidation.Base.{
  ℕ, Option, none, some, List, [], ◌∷◌, ◌++◌, map, if◌then◌else◌, ◌==◌, nat_Eq, option_Eq, list_Eq,
  length, take, filter_by,
}
use virtvalidation.Base.Texts.{Text, codes}
use virtvalidation.Constraints.{Violation}
use virtvalidation.Lifecycle.{EditDetails, AuditDetails, AuditRow, Db}
use virtvalidation.Lifecycle.Calls.{Call, run}
use virtvalidation.Preclassifier.Source.{non_empty}
use virtvalidation.Editing.{Operation, is_move_to_plan, EditError, Edit, Plan}
use virtvalidation.Editing.Waves.{Move}
use virtvalidation.Editing.Checks.{blocking, overridable}
use virtvalidation.Editing.Violations.{has_severity}
use virtvalidation.Editing.Rebuild.{PlanChange}
use virtvalidation.Editing.Prepare.{PreparedEdit}

-- The plan's row behind the edit.
unfoldable pub changed_plan : Plan → PlanChange → Plan
changed_plan plan c = record plan {
  waves = c.waves;
  vm_ids = c.vm_ids;
  wave_number_seq = c.wave_number_seq;
}

-- `PreparedEdit.blocking` and `PreparedEdit.overridable`
abbrev pub blocking_of : PreparedEdit → List Violation
blocking_of p = filter_by (has_severity blocking) p.violations

abbrev pub overridable_of : PreparedEdit → List Violation
overridable_of p = filter_by (has_severity overridable) p.violations

abbrev pub moved_ids : PreparedEdit → List ℕ
moved_ids p = map (λ (m : Move). m.vm_id) p.moves

-- The call of the lifecycle service; a move between waves makes none.
unfoldable pub lifecycle_call : Text → PreparedEdit → Option Call
lifecycle_call actor p = elim (p.spec.operation) [
  | Operation.move_to_wave ↦ none
  | Operation.move_to_plan ↦
      some (Call.reassign (moved_ids p) p.source_plan.id p.target_plan.id actor)
  | Operation.remove ↦ some (Call.remove p.source_plan.id (moved_ids p) actor)
  | Operation.add ↦ some (Call.plan (moved_ids p) p.target_plan.id actor (codes "plan.edit.add"))
  | Operation.other_operation name ↦ none
]

unfoldable pub run_lifecycle : ℕ → Option Call → Db → Option Db
unfolding run
run_lifecycle now none db = some db
run_lifecycle now (some c) db = run now c db

-- The text of an operation, and `_AUDIT_ACTION`
abbrev operation_name : Operation → Text
operation_name Operation.move_to_wave = codes "move_to_wave"
operation_name Operation.move_to_plan = codes "move_to_plan"
operation_name Operation.remove = codes "remove"
operation_name Operation.add = codes "add"
operation_name (Operation.other_operation name) = name

abbrev edit_action : Operation → Text
edit_action Operation.move_to_wave = codes "plan.edit.move_vm"
edit_action Operation.move_to_plan = codes "plan.edit.move_to_plan"
edit_action Operation.remove = codes "plan.edit.remove_vm"
edit_action Operation.add = codes "plan.edit.add_vm"
edit_action (Operation.other_operation name) = []

-- `_AUDIT_LIST_CAP`
abbrev audit_list_cap : ℕ
audit_list_cap = 200

unfoldable pub edit_details : PreparedEdit → PlanChange → EditDetails
edit_details p c =
    let crosses = is_move_to_plan p.spec.operation in
    let is_source = c.plan.id == p.source_plan.id in
    record {
      operation = operation_name p.spec.operation;
      vm_ids = take audit_list_cap (moved_ids p);
      moved_count = length (moved_ids p);
      touched_waves = c.touched_waves;
      created_waves = c.created_waves;
      removed_waves = c.removed_waves;
      overrides = filter_by (λ (v : Violation). v.plan_id == some (c.plan.id)) (overridable_of p);
      note = p.spec.note;
      direction = if crosses then some (if is_source then codes "out" else codes "in") else none;
      other_plan_id =
          if crosses then some (if is_source then p.target_plan.id else p.source_plan.id) else none;
    }

unfoldable pub edit_row : Text → PreparedEdit → PlanChange → AuditRow
unfolding edit_details
edit_row actor p c = record {
  action = edit_action p.spec.operation;
  actor = actor;
  resource_type = codes "plan";
  resource_id = c.plan.id;
  details = AuditDetails.plan_edited (edit_details p c);
}

unfoldable pub override_rows : Text → PreparedEdit → List AuditRow
override_rows actor p =
    if non_empty (overridable_of p)
    then record {
      action = codes "plan.edit.rule_overridden";
      actor = actor;
      resource_type = codes "plan";
      resource_id = p.target_plan.id;
      details =
          AuditDetails.rules_overridden (operation_name p.spec.operation)
            (take audit_list_cap (overridable_of p)) (length (overridable_of p)) p.spec.note;
    }
      ∷ []
    else []

unfoldable pub audit_rows : Text → PreparedEdit → List AuditRow
unfolding edit_row override_rows
audit_rows actor p = map (edit_row actor p) p.changes ++ override_rows actor p

-- The loop over `prepared.changes`, for one row of the table of plans.
unfoldable pub write_changes : List PlanChange → Plan → Plan
unfolding changed_plan
write_changes [] plan = plan
write_changes (c ∷ cs) plan =
    write_changes cs (if c.plan.id == plan.id then changed_plan plan c else plan)

-- What `apply` leaves: the session, and the table of plans.
pub record Applied : Type 0 where
  pub session : Db
  pub plans : List Plan

unfoldable pub persist : Text → PreparedEdit → List Plan → Db → Applied
unfolding audit_rows write_changes
persist actor p plans db = record {
  session = record db { audit = db.audit ++ audit_rows actor p };
  plans = map (write_changes p.changes) plans;
}

unfoldable pub apply_edit : ℕ → Text → PreparedEdit → List Plan → Db → Edit Applied
unfolding run_lifecycle lifecycle_call persist
apply_edit now actor p plans db = elim (blocking_of p) [
  | v ∷ vs ↦ Edit.refused (EditError.blocked (v ∷ vs))
  | [] ↦ elim (run_lifecycle now (lifecycle_call actor p) db) [
    | none ↦ Edit.refused EditError.lifecycle_error
    | some db' ↦ Edit.going (persist actor p plans db')
  ]
]
