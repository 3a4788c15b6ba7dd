-- ===== src/Editing/Effects.antt =====
-- What the lifecycle call of `apply` of backend/app/core/plan_edit.py does to the rows of VMs.
use virtvalidation.Base.{
  ℕ, ◌≤◌, ◌≡◌, refl, sym, subst, ◌⊎◌, inl, inr, Bool, true, false, some, List, [], ◌∷◌, ◌++◌, arith,
  Bool-cases, nat_Eq, option_Eq, list_Eq, length, All, All-imp, filter_by,
}
use virtvalidation.Base.Texts.{Text}
use virtvalidation.Base.Distinct.{contains}
use virtvalidation.Lifecycle.{
  LifecycleState, state_Eq, Vm, AuditRow, Db, Outcome, is_fetched, is_planned, fetch_locked, apply,
  move_rows, move_many, move_planned, transition_to_planned, nothing, record_plan_reassignment,
  release_planned_to_available, transition_to_available_from_plan_edit,
}
use virtvalidation.Lifecycle.Moves.{Rows, Leaves, Leaves-done, enforced, raise_if-Leaves}
use virtvalidation.Lifecycle.Calls.{session, run}
use virtvalidation.Lifecycle.Outcomes.{AllExist, AllAre, none_missing}
use virtvalidation.Editing.{Operation}
use virtvalidation.Editing.Prepare.{PreparedEdit}
use virtvalidation.Editing.Apply.{moved_ids, lifecycle_call, run_lifecycle}
use mathlib.Core.List.{append-nil}

-- A row that is selected goes from the one state to the other; any other row stays as it is.
abbrev pub Changed : (Vm → Bool) → LifecycleState → LifecycleState → Vm → Vm → Type 0
Changed selected source target v w =
    ((selected v ≡ false) × (w ≡ v))
    ⊎ ((selected v ≡ true)
        × (w.id ≡ v.id)
        × (v.lifecycle_state ≡ source)
        × (w.lifecycle_state ≡ target))

-- An added VM has a row, was available and is planned now; a removed one that was planned is
-- available now; a VM that goes to another plan has a row, was planned and stays so. Each of the
-- first and the third is one audit row, the second is at most one, and no other edit has one.
abbrev pub HasEffect : Operation → List ℕ → Db → List Vm → List AuditRow → Type 0
HasEffect Operation.add ids db vms calls =
    AllExist ids db
    × Rows (Changed (is_fetched ids) LifecycleState.available LifecycleState.planned) db.vms vms
    × (length calls ≡ 1)
HasEffect Operation.remove ids db vms calls =
    Rows (Changed (is_planned ids) LifecycleState.planned LifecycleState.available) db.vms vms
    × (length calls ≤ 1)
HasEffect Operation.move_to_plan ids db vms calls =
    AllExist ids db × AllAre LifecycleState.planned ids db × (vms ≡ db.vms) × (length calls ≡ 1)
HasEffect Operation.move_to_wave ids db vms calls = (vms ≡ db.vms) × (calls ≡ [])
HasEffect (Operation.other_operation name) ids db vms calls = (vms ≡ db.vms) × (calls ≡ [])

-- The effect, and the audit rows that the call adds.
pub record Called (operation : Operation) (ids : List ℕ) (db after : Db) : Type 0 where
  pub calls : List AuditRow
  pub log : after.audit ≡ db.audit ++ calls
  pub effect : HasEffect operation ids db after.vms calls

apply-Changed :
    (selected : Vm → Bool) (source target : LifecycleState) (now : ℕ) (vms : List Vm)
    → All (λ (v : Vm). selected v ≡ true → v.lifecycle_state ≡ source) vms
    → Rows (Changed selected source target) vms (apply selected target now vms)
unfolding apply
apply-Changed selected source target now [] h = tt
apply-Changed selected source target now (v ∷ vms) h = elim (Bool-cases (selected v)) [
  | inl moved ↦
      rw moved (inr (refl, refl, h.0 moved, refl), apply-Changed selected source target now vms h.1)
  | inr still ↦ rw still (inl (refl, refl), apply-Changed selected source target now vms h.1)
]

none-Changed :
    (selected : Vm → Bool) (source target : LifecycleState) (vms : List Vm)
    → filter_by selected vms ≡ []
    → Rows (Changed selected source target) vms vms
none-Changed selected source target [] h = tt
none-Changed selected source target (v ∷ vms) h = elim (Bool-cases (selected v)) [
  | inl moved ↦ absurd (ground (arith, moved, h))
  | inr still ↦
      (inl (still, refl), none-Changed selected source target vms (ground (arith, still, h)))
]

only : (s t : LifecycleState) → contains (s ∷ []) t ≡ true → t ≡ s
only s t h = sym ((state_Eq.beq_iff s t).0 (ground arith))

session-holds {ℓ} :
    {A : Type ℓ} (P : Db → Type 0) (o : Outcome A) (after : Db)
    → Leaves P o
    → session o ≡ some after
    → P after
session-holds P (Outcome.refused target offenders) after h e = absurd cc
session-holds P (Outcome.done result db) after h e = h.holds result after cc

module _ (now : ℕ) (actor : Text) (plan_id other_id : ℕ) (ids : List ℕ) (db : Db) where
  add-Called :
      (trigger : Text)
      → Leaves
          (Called Operation.add ids db)
          (transition_to_planned now ids plan_id actor trigger db)
  unfolding transition_to_planned move_many move_rows fetch_locked
  add-Called trigger =
      let P = Called Operation.add ids db in
      raise_if-Leaves now P LifecycleState.planned _ _ (λ exist.
        raise_if-Leaves now P LifecycleState.planned _ _ (λ fine. Leaves-done P _ _ (record {
          calls = _ ∷ [];
          log = refl;
          effect = (
            none_missing (fetch_locked db ids) ids exist,
            apply-Changed (is_fetched ids) LifecycleState.available LifecycleState.planned now
                db.vms
                (All-imp db.vms
                  (λ v ok fetched. only LifecycleState.available v.lifecycle_state (ok fetched))
                  (enforced (LifecycleState.available ∷ []) (is_fetched ids) db.vms fine)),
            refl,
          );
        })))

  move-Called :
      Leaves
        (Called Operation.move_to_plan ids db)
        (record_plan_reassignment ids plan_id other_id actor db)
  unfolding record_plan_reassignment fetch_locked
  move-Called =
      let P = Called Operation.move_to_plan ids db in
      raise_if-Leaves now P LifecycleState.planned _ _ (λ exist.
        raise_if-Leaves now P LifecycleState.planned _ _ (λ fine. Leaves-done P _ _ (record {
          calls = _ ∷ [];
          log = refl;
          effect = (
            none_missing (fetch_locked db ids) ids exist,
            All-imp db.vms
                (λ v ok fetched. only LifecycleState.planned v.lifecycle_state (ok fetched))
                (enforced (LifecycleState.planned ∷ []) (is_fetched ids) db.vms fine),
            refl,
            refl,
          );
        })))

  remove-Called :
      (trigger : Text)
      → Leaves
          (Called Operation.remove ids db)
          (move_planned ids LifecycleState.available now actor plan_id trigger db)
  unfolding move_planned move_many move_rows
  remove-Called trigger = go (filter_by (is_planned ids) db.vms) refl
    where
      planned :
          (vms : List Vm)
          → All
              (λ (v : Vm). is_planned ids v ≡ true → v.lifecycle_state ≡ LifecycleState.planned)
              vms
      planned [] = tt
      planned (v ∷ vms) = (
        λ h. (state_Eq.beq_iff v.lifecycle_state LifecycleState.planned).0 (ground arith),
        planned vms,
      )

      go :
          (movers : List Vm)
          → filter_by (is_planned ids) db.vms ≡ movers
          → Leaves (Called Operation.remove ids db) (elim movers [
            | [] ↦ Outcome.done (nothing LifecycleState.available) db
            | _ ∷ _ ↦
                move_many (is_planned ids) LifecycleState.available now actor plan_id trigger db
          ])
      go [] none_left = Leaves-done (Called Operation.remove ids db) _ db (record {
        calls = [];
        log = sym (append-nil db.audit);
        effect = (
          none-Changed (is_planned ids) LifecycleState.planned LifecycleState.available db.vms
              none_left,
          omega arith,
        );
      })
      go (m ∷ ms) some_left = Leaves-done (Called Operation.remove ids db) _ _ (record {
        calls = _ ∷ [];
        log = refl;
        effect = (
          apply-Changed (is_planned ids) LifecycleState.planned LifecycleState.available now db.vms
              (planned db.vms),
          omega arith,
        );
      })

some_inj : {A : Type 0} {a b : A} → some a ≡ some b → a ≡ b
some_inj h = cc

pub run_lifecycle-Called :
    (now : ℕ) (actor : Text) (p : PreparedEdit) (db after : Db)
    → run_lifecycle now (lifecycle_call actor p) db ≡ some after
    → Called p.spec.operation (moved_ids p) db after
unfolding run_lifecycle lifecycle_call run transition_to_available_from_plan_edit
    release_planned_to_available
run_lifecycle-Called now actor p db after h = go p.spec.operation refl
  where
    go :
        (operation : Operation)
        → p.spec.operation ≡ operation
        → Called operation (moved_ids p) db after
    go Operation.add e =
        session-holds _ _ after (add-Called now actor p.target_plan.id 0 (moved_ids p) db _)
          (rw e at h)
    go Operation.remove e =
        session-holds _ _ after (remove-Called now actor p.source_plan.id 0 (moved_ids p) db _)
          (rw e at h)
    go Operation.move_to_plan e =
        session-holds _ _ after
          (move-Called now actor p.source_plan.id p.target_plan.id (moved_ids p) db) (rw e at h)
    go Operation.move_to_wave e =
        subst (λ d. Called Operation.move_to_wave (moved_ids p) db d) (some_inj (rw e at h))
          (record { calls = []; log = sym (append-nil db.audit); effect = (refl, refl) })
    go (Operation.other_operation name) e =
        subst (λ d. Called (Operation.other_operation name) (moved_ids p) db d)
          (some_inj (rw e at h))
          (record { calls = []; log = sym (append-nil db.audit); effect = (refl, refl) })
