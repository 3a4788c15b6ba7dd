-- ===== src/Editing/Prepare.antt =====
-- `prepare` of backend/app/core/plan_edit.py: what an edit would do to a plan, and to the target plan
-- of a move between plans.
use virtvalidation.Base.{
  ℕ, not, Option, List, [], ◌∷◌, ◌++◌, if◌then◌else◌, nat_Eq, option_Eq, list_Eq, filter_by, any_by,
}
use virtvalidation.Base.Dicts.{Dict}
use virtvalidation.Base.Distinct.{contains}
use virtvalidation.Family.Split.{Names}
use virtvalidation.Preclassifier.Source.{vm_ids_of, non_empty}
use virtvalidation.Constraints.{Violation}
use virtvalidation.Editing.{is_operation, EditSpec, EditError, Edit, then_edit, ensure, Plan}
use virtvalidation.Editing.Waves.{wave_membership, as_members, wave_of, Move, drop_empty}
use virtvalidation.Editing.Checks.{Services, Tables, blocking, from_keys}
use virtvalidation.Editing.Docs.{Stamp, override_entries}
use virtvalidation.Editing.Rebuild.{Rebuilding, PlanChange, docs_by_number, rebuild_plan}
use virtvalidation.Editing.Request.{
  is_complete, find_target, has_target, check_members, find_destination, Edited, edited, after_of,
  layout_at, plans_of,
}
use virtvalidation.Editing.Violations.{
  names_involved, rows_involved, vcenter_by_vm, introduced, edit_violations, has_severity,
}

pub record PreparedEdit : Type 0 where
  pub spec : EditSpec
  pub source_plan : Plan
  pub target_plan : Plan
  pub violations : List Violation
  pub moves : List Move
  pub changes : List PlanChange

-- What the rebuild of one plan reads.
unfoldable pub rebuilding : Services → Tables → Names → Edited → Stamp → Plan → Rebuilding
unfolding layout_at override_entries introduced as_members docs_by_number drop_empty
rebuilding services db names e stamp p = record {
  services = services;
  table = db.vms;
  plan = p;
  after = after_of e p.id;
  touched = (layout_at e p.id).touched;
  created = (layout_at e p.id).created;
  overrides =
      override_entries p (as_members (after_of e p.id) names) (introduced names e p.id) stamp.actor
        stamp.now;
  previous = docs_by_number [] p.waves;
  spec = e.spec;
  stamp = stamp;
}

-- The changes of the plans and what their rebuild reports; a plan left empty is passed over.
unfoldable pub rebuild_plans :
    Services
    → Tables
    → Names
    → Edited
    → Stamp
    → Dict ℕ (Option ℕ)
    → List Plan
    → Edit (List PlanChange × List Violation)
unfolding then_edit rebuild_plan rebuilding layout_at drop_empty
rebuild_plans services db names e stamp vcenters [] = Edit.going ([], [])
rebuild_plans services db names e stamp vcenters (p ∷ ps) =
    let rest = rebuild_plans services db names e stamp vcenters ps in
    elim (after_of e p.id) [
      | [] ↦ rest
      | w ∷ ws ↦
          then_edit
            (rebuild_plan (rebuilding services db names e stamp p) names vcenters
              ((layout_at e p.id).removed))
            (λ rebuilt.
              then_edit rest (λ others. Edit.going (rebuilt.0 ∷ others.0, rebuilt.1 ++ others.1)))
    ]

unfoldable pub prepared : Edited → List Violation → List PlanChange × List Violation → PreparedEdit
prepared e violations rebuilt = record {
  spec = e.spec;
  source_plan = e.plan;
  target_plan = e.target;
  violations = violations ++ rebuilt.1;
  moves = e.moves;
  changes = rebuilt.0;
}

-- Behind the moves: nothing is rebuilt if a violation blocks.
unfoldable pub prepare_edited : Services → Tables → Stamp → List ℕ → Edited → Edit PreparedEdit
unfolding then_edit edit_violations rebuild_plans prepared names_involved vcenter_by_vm
    rows_involved
prepare_edited services db stamp ids e =
    let names = names_involved db e ids in
    let violations = edit_violations services db names e in
    if any_by (has_severity blocking) violations
    then Edit.going (prepared e violations ([], []))
    else then_edit
        (rebuild_plans services db names e stamp (vcenter_by_vm [] (rows_involved db e ids))
          (plans_of e))
        (λ rebuilt. Edit.going (prepared e violations rebuilt))

-- The steps of `prepare`, from its last check on to the first.
module _ (services : Services) (db : Tables) (stamp : Stamp) (plan : Plan) (spec : EditSpec) where
  unfoldable pub prepare_moves : List ℕ → Edited → Edit PreparedEdit
  unfolding then_edit ensure prepare_edited
  prepare_moves ids e =
      then_edit (ensure (non_empty e.moves) (EditError.no_change e.dest))
        (λ some_move. prepare_edited services db stamp ids e)

  unfoldable pub prepare_members : List ℕ → Plan → Edit PreparedEdit
  unfolding then_edit check_members find_destination wave_of wave_membership edited prepare_moves
  prepare_members ids target =
      then_edit (check_members spec.operation plan.id (wave_of (wave_membership plan)) db.vms ids)
        (λ fit.
          then_edit (find_destination spec target (wave_membership target))
            (λ dest. prepare_moves ids (edited spec plan target ids dest)))

  unfoldable pub prepare_target : List ℕ → Plan → Edit PreparedEdit
  unfolding then_edit ensure prepare_members
  prepare_target ids target =
      let missing = filter_by (λ vid. not (contains (vm_ids_of db.vms) vid)) ids in
      then_edit (ensure (has_target spec) EditError.needs_target_wave) (λ told.
        then_edit (ensure (not (non_empty missing)) (EditError.unknown_vms missing))
          (λ known. prepare_members ids target))

  unfoldable pub prepare_ids : List ℕ → Edit PreparedEdit
  unfolding then_edit ensure find_target prepare_target
  prepare_ids ids = then_edit (ensure (non_empty ids) EditError.no_vms) (λ asked.
      then_edit (ensure (is_complete plan) (EditError.plan_not_editable plan.id plan.status))
        (λ editable. then_edit (find_target db.plans plan spec) (prepare_target ids)))

  unfoldable pub prepare : Edit PreparedEdit
  unfolding then_edit ensure prepare_ids from_keys
  prepare =
      then_edit (ensure (is_operation spec.operation) (EditError.bad_operation spec.operation))
        (λ valid. prepare_ids (from_keys spec.vm_ids))
