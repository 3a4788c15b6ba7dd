-- ===== src/Editing/Applied.antt =====
-- `apply` of backend/app/core/plan_edit.py: what it leaves.
use virtvalidation.Base.{
  List-cases, ℕ, ◌≡◌, sym, ap, ◌∙◌, subst, inl, inr, Option, none, some, List, [], ◌++◌, map, arith,
  Option-cases, nat_Eq, option_Eq, list_Eq,
}
use virtvalidation.Base.Pairs.{Paired, Paired-map}
use virtvalidation.Base.Texts.{Text}
use mathlib.Core.List.{append_assoc}
use virtvalidation.Lifecycle.{AuditRow, Db}
use virtvalidation.Lifecycle.Moves.{Stepped, Rows, Step, Step-refl}
use virtvalidation.Lifecycle.Calls.{Call, run-Step}
use virtvalidation.Editing.{Edit, Plan}
use virtvalidation.Editing.Prepare.{PreparedEdit}
use virtvalidation.Editing.Apply.{
  blocking_of, overridable_of, moved_ids, run_lifecycle, lifecycle_call, edit_row, override_rows,
  audit_rows, write_changes, Applied, persist, apply_edit,
}
use virtvalidation.Editing.Written.{IsWritten, write_changes-IsWritten}
use virtvalidation.Editing.Logged.{
  IsEditRow, edit_row-IsEditRow, IsOverrideLog, override_rows-IsOverrideLog,
}
use virtvalidation.Editing.Effects.{HasEffect, Called, run_lifecycle-Called}

run_lifecycle-Step :
    (now : ℕ) (call : Option Call) (db db' : Db)
    → run_lifecycle now call db ≡ some db'
    → Step db db'
unfolding run_lifecycle
run_lifecycle-Step now none db db' e = subst (λ d. Step db d) (cc) (Step-refl db)
run_lifecycle-Step now (some c) db db' e = run-Step now c db db' e

-- What holds once an edit is applied.
pub record IsApplied (actor : Text) (p : PreparedEdit) (plans : List Plan) (db : Db) (a : Applied)
    : Type 0 where
  pub unblocked : blocking_of p ≡ []
  pub rows : Rows Stepped db.vms a.session.vms
  pub calls : List AuditRow
  pub edits : List AuditRow
  pub overrides : List AuditRow
  pub audited : a.session.audit ≡ db.audit ++ calls ++ edits ++ overrides
  pub effect : HasEffect p.spec.operation (moved_ids p) db a.session.vms calls
  pub edits_logged : Paired (IsEditRow actor p) p.changes edits
  pub overrides_logged : IsOverrideLog actor p (overridable_of p) overrides
  pub written : Paired (IsWritten p.changes) plans a.plans

persist-IsApplied :
    (actor : Text) (p : PreparedEdit) (plans : List Plan) (db db' : Db)
    → blocking_of p ≡ []
    → Step db db'
    → Called p.spec.operation (moved_ids p) db db'
    → IsApplied actor p plans db (persist actor p plans db')
unfolding persist audit_rows
persist-IsApplied actor p plans db db' free s c = record {
  unblocked = free;
  rows = s.rows;
  calls = c.calls;
  edits = map (edit_row actor p) p.changes;
  overrides = override_rows actor p;
  audited =
      ap (λ l. l ++ audit_rows actor p) c.log
      ∙ sym (
          append_assoc (db.audit ++ c.calls) (map (edit_row actor p) p.changes)
            (override_rows actor p));
  effect = c.effect;
  edits_logged =
      Paired-map (IsEditRow actor p) (edit_row actor p) (edit_row-IsEditRow actor p) p.changes;
  overrides_logged = override_rows-IsOverrideLog actor p;
  written =
      Paired-map (IsWritten p.changes) (write_changes p.changes) (write_changes-IsWritten p.changes)
        plans;
}

-- If an edit is applied, none of its violations blocks. Each row of the table of VMs stays as it was
-- or makes one documented transition: an added VM was available and is planned now, a removed one
-- is available now if it was planned, one that goes to another plan was planned and stays so, a move
-- between waves changes no row, and the rows of other VMs never change. The audit log gains the row
-- of the lifecycle service (one if VMs are added or go to another plan, at most one if they are
-- removed, else none), then one row for each changed plan, in order and with its waves, then one
-- for the target plan exactly if a rule is overridden. Each plan's row takes the waves, the VMs and
-- the mark of the last change that is about it, and a row that no change is about stays as it was.
pub apply_edit-IsApplied :
    (now : ℕ) (actor : Text) (p : PreparedEdit) (plans : List Plan) (db : Db) (a : Applied)
    → apply_edit now actor p plans db ≡ Edit.going a
    → IsApplied actor p plans db a
unfolding apply_edit
apply_edit-IsApplied now actor p plans db a h = elim (List-cases (blocking_of p)) [
  | inr found ↦ absurd (ground (arith, found.2, h))
  | inl free ↦ elim (Option-cases (run_lifecycle now (lifecycle_call actor p) db)) [
    | inl none_left ↦ absurd (ground (arith, free, none_left, h))
    | inr left ↦
        subst (λ z. IsApplied actor p plans db z) (ground (arith, free, left.1, h))
          (persist-IsApplied actor p plans db left.0 free
            (run_lifecycle-Step now (lifecycle_call actor p) db left.0 left.1)
            (run_lifecycle-Called now actor p db left.0 left.1))
  ]
]
