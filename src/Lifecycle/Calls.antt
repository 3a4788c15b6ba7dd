-- ===== src/Lifecycle/Calls.antt =====
-- Every call of the lifecycle service, as one step of the rows and of the audit log.
use virtvalidation.Base.{
  ℕ, ◌≡◌, refl, sym, ◌∙◌, subst, inl, inr, Option, none, some, List, [], ◌∷◌, nat_Eq, option_Eq,
  list_Eq,
}
use virtvalidation.Base.Texts.{Text}
use virtvalidation.Lifecycle.{
  LifecycleState, Vm, Db, Outcome, transition_to_planned, transition_to_available_from_failed_plan,
  transition_to_available_from_deleted_plan, transition_to_available_from_plan_edit,
  release_planned_to_available, record_plan_reassignment, transition_to_migrated,
  transition_to_rolled_back, transition_to_available_from_rolled_back, patch_transition,
}
use virtvalidation.Lifecycle.Moves.{
  Moves, Stepped, Rows, Step, Leaves, transition_to_planned-Step, transition_to_migrated-Step,
  record_plan_reassignment-Step, patch_transition-Step, move_planned-Step, move_one-Step,
}

-- The calls of the service, with their arguments.
pub data Call : Type 0 where
  plan : (vm_ids : List ℕ) → (plan_id : ℕ) → (actor trigger : Text) → Call
  fail : (plan_id : ℕ) → (vm_ids : List ℕ) → (actor : Text) → Call
  delete : (plan_id : ℕ) → (vm_ids : List ℕ) → (actor : Text) → Call
  remove : (plan_id : ℕ) → (vm_ids : List ℕ) → (actor : Text) → Call
  reassign : (vm_ids : List ℕ) → (from_plan_id to_plan_id : ℕ) → (actor : Text) → Call
  succeed : (plan_id : ℕ) → (vm_ids : List ℕ) → (actor : Text) → Call
  roll_back : (vm_id : ℕ) → (actor : Text) → Call
  reopen : (vm_id : ℕ) → (actor : Text) → Call
  patch : (v : Vm) → (target : LifecycleState) → (actor : Text) → Call

-- What the caller can see of the outcome: the session, if the call did not raise.
abbrev pub session {ℓ} : {A : Type ℓ} → Outcome A → Option Db
session (Outcome.refused target offenders) = none
session (Outcome.done result db) = some db

unfoldable pub run : ℕ → Call → Db → Option Db
run now (Call.plan ids p actor trigger) db =
    session (transition_to_planned now ids p actor trigger db)
run now (Call.fail p ids actor) db =
    session (transition_to_available_from_failed_plan now p ids actor db)
run now (Call.delete p ids actor) db =
    session (transition_to_available_from_deleted_plan now p ids actor db)
run now (Call.remove p ids actor) db =
    session (transition_to_available_from_plan_edit now p ids actor db)
run now (Call.reassign ids from to actor) db =
    session (record_plan_reassignment ids from to actor db)
run now (Call.succeed p ids actor) db = session (transition_to_migrated now p ids actor db)
run now (Call.roll_back id actor) db = session (transition_to_rolled_back now id actor db)
run now (Call.reopen id actor) db =
    session (transition_to_available_from_rolled_back now id actor db)
run now (Call.patch v target actor) db = session (patch_transition now v target actor db)

session-Step {ℓ} :
    {A : Type ℓ} (db db' : Db) (o : Outcome A)
    → Leaves (Step db) o
    → session o ≡ some db'
    → Step db db'
session-Step db db' (Outcome.refused target offenders) h e = absurd cc
session-Step db db' (Outcome.done result db₁) h e = h.holds result db' cc

-- Every call of the lifecycle service that returns leaves every row as it was or takes it along
-- one documented transition, keeps the row's id, and leaves the session as it was or adds exactly
-- one audit row behind the others: no state changes without an audit row.
pub run-Step : (now : ℕ) (c : Call) (db db' : Db) → run now c db ≡ some db' → Step db db'
unfolding run transition_to_available_from_failed_plan transition_to_available_from_deleted_plan
    transition_to_available_from_plan_edit release_planned_to_available transition_to_rolled_back
    transition_to_available_from_rolled_back
run-Step now (Call.plan ids p actor trigger) db db' e =
    session-Step db db' _ (transition_to_planned-Step now ids p actor trigger db) e
run-Step now (Call.fail p ids actor) db db' e =
    session-Step db db' _ (move_planned-Step now ids _ actor p _ db Moves.give_back) e
run-Step now (Call.delete p ids actor) db db' e =
    session-Step db db' _ (move_planned-Step now ids _ actor p _ db Moves.give_back) e
run-Step now (Call.remove p ids actor) db db' e =
    session-Step db db' _ (move_planned-Step now ids _ actor p _ db Moves.give_back) e
run-Step now (Call.reassign ids from to actor) db db' e =
    session-Step db db' _ (record_plan_reassignment-Step now ids from to actor db) e
run-Step now (Call.succeed p ids actor) db db' e =
    session-Step db db' _ (transition_to_migrated-Step now p ids actor db) e
run-Step now (Call.roll_back id actor) db db' e =
    session-Step db db' _ (move_one-Step now _ _ _ id actor db Moves.revert) e
run-Step now (Call.reopen id actor) db db' e =
    session-Step db db' _ (move_one-Step now _ _ _ id actor db Moves.reopen) e
run-Step now (Call.patch v target actor) db db' e =
    session-Step db db' _ (patch_transition-Step now v target actor db) e

-- The sessions that a sequence of calls can reach.
pub data Reachable (db : Db) : Db → Type 0 where
  here : Reachable db db
  next :
      {db₁ db₂ : Db} (now : ℕ) (c : Call)
      → Reachable db db₁
      → run now c db₁ ≡ some db₂
      → Reachable db db₂

-- The row with the state that a VM has for good.
abbrev pub Stays : Vm → Vm → Type 0
Stays v w =
    (w.id ≡ v.id)
    × (v.lifecycle_state ≡ LifecycleState.unmanageable
        → w.lifecycle_state ≡ LifecycleState.unmanageable)

Moves-manageable : (s t : LifecycleState) → Moves s t → s ≡ LifecycleState.unmanageable → ⊥
Moves-manageable _ _ Moves.assign e = cc
Moves-manageable _ _ Moves.give_back e = cc
Moves-manageable _ _ Moves.succeed e = cc
Moves-manageable _ _ Moves.revert e = cc
Moves-manageable _ _ Moves.reopen e = cc

Rows-Stays : (us vs ws : List Vm) → Rows Stays us vs → Rows Stepped vs ws → Rows Stays us ws
Rows-Stays [] [] [] h k = tt
Rows-Stays [] [] (w ∷ ws) h k = absurd k
Rows-Stays [] (v ∷ vs) ws h k = absurd h
Rows-Stays (u ∷ us) [] ws h k = absurd h
Rows-Stays (u ∷ us) (v ∷ vs) [] h k = absurd k
Rows-Stays (u ∷ us) (v ∷ vs) (w ∷ ws) h k = (
  elim k.0 [
    | inl same ↦ subst (λ x. Stays u x) (sym same) h.0
    | inr (id, moves) ↦ (id ∙ h.0.0, λ e. absurd (Moves-manageable _ _ moves (h.0.1 e)))
  ],
  Rows-Stays us vs ws h.1 k.1,
)

Rows-Stays-refl : (vs : List Vm) → Rows Stays vs vs
Rows-Stays-refl [] = tt
Rows-Stays-refl (v ∷ vs) = ((refl, λ e. e), Rows-Stays-refl vs)

-- Whatever calls are made, and in whatever order: the session keeps its rows and their ids, and a
-- VM that is unmanageable stays so.
pub Reachable-Stays : (db db' : Db) → Reachable db db' → Rows Stays db.vms db'.vms
Reachable-Stays db _ Reachable.here = Rows-Stays-refl db.vms
Reachable-Stays db _ (Reachable.next {db₁} {db₂} now c before e) =
    Rows-Stays db.vms db₁.vms db₂.vms (Reachable-Stays db db₁ before)
      (run-Step now c db₁ db₂ e).rows
