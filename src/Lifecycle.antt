-- ===== src/Lifecycle.antt =====
-- backend/app/core/vm_lifecycle.py: the plan membership of a VM, as a state machine over the rows
-- of the database session.
pub mod Moves
pub mod Calls
pub mod Outcomes
use virtvalidation.Base.{
  ℕ, zero, suc, ◌+◌, ◌-◌, ◌≡◌, refl, sym, ap, ◌∙◌, ◌↔◌, Option, Bool, true, not, ◌&&◌, List, [],
  ◌∷◌, ◌++◌, map, nat_eq, if◌then◌else◌, nat_eq_iff, Eq, ◌==◌, nat_Eq, option_Eq, list_Eq,
  filter_by,
}
use virtvalidation.Base.Dicts.{Dict, get_default}
use virtvalidation.Base.Texts.{Text, codes}
use virtvalidation.Base.Distinct.{contains}
use virtvalidation.Constraints.{Violation}

-- `VMLifecycleState`
pub data LifecycleState : Type 0 where
  available : LifecycleState
  planned : LifecycleState
  migrated : LifecycleState
  rolled_back : LifecycleState
  unmanageable : LifecycleState

abbrev state_index : LifecycleState → ℕ
state_index LifecycleState.available = 0
state_index LifecycleState.planned = 1
state_index LifecycleState.migrated = 2
state_index LifecycleState.rolled_back = 3
state_index LifecycleState.unmanageable = 4

abbrev state_at : ℕ → LifecycleState
state_at zero = LifecycleState.available
state_at (suc zero) = LifecycleState.planned
state_at (suc (suc zero)) = LifecycleState.migrated
state_at (suc (suc (suc zero))) = LifecycleState.rolled_back
state_at (suc (suc (suc (suc n)))) = LifecycleState.unmanageable

state_at-index : (s : LifecycleState) → state_at (state_index s) ≡ s
state_at-index LifecycleState.available = refl
state_at-index LifecycleState.planned = refl
state_at-index LifecycleState.migrated = refl
state_at-index LifecycleState.rolled_back = refl
state_at-index LifecycleState.unmanageable = refl

pub state_eq_iff :
    (s t : LifecycleState) → (nat_eq (state_index s) (state_index t) ≡ true) ↔ (s ≡ t)
state_eq_iff s t = (
  λ h.
      sym (state_at-index s)
      ∙ ap state_at ((nat_eq_iff (state_index s) (state_index t)).0 h)
      ∙ state_at-index t,
  λ e. (nat_eq_iff (state_index s) (state_index t)).1 (ap state_index e),
)

instance abbrev pub state_Eq : Eq LifecycleState
state_Eq = record { beq = λ s t. nat_eq (state_index s) (state_index t); beq_iff = state_eq_iff }

pub record Vm : Type 0 where
  pub id : ℕ
  pub lifecycle_state : LifecycleState
  pub lifecycle_state_changed_at : ℕ

-- The `details` of an edit of a plan (app/core/plan_edit.py); its moves and the names of its VMs, which
-- follow from the other entries, are left out.
pub record EditDetails : Type 0 where
  pub operation : Text
  pub vm_ids : List ℕ
  pub moved_count : ℕ
  pub touched_waves : List ℕ
  pub created_waves : List ℕ
  pub removed_waves : List ℕ
  pub overrides : List Violation
  pub note : Option Text
  pub direction : Option Text
  pub other_plan_id : Option ℕ

-- The `details` of an audit row: of a transition of many VMs, of one VM, of a reassignment, of an
-- edit of a plan, of the rules that an edit overrides, with their number and the note.
pub data AuditDetails : Type 0 where
  moved_vms : List ℕ → LifecycleState → Dict ℕ LifecycleState → Text → AuditDetails
  moved_vm : LifecycleState → LifecycleState → Text → AuditDetails
  reassigned : List ℕ → ℕ → ℕ → Text → AuditDetails
  plan_edited : EditDetails → AuditDetails
  rules_overridden : Text → List Violation → ℕ → Option Text → AuditDetails

pub record AuditRow : Type 0 where
  pub action : Text
  pub actor : Text
  pub resource_type : Text
  pub resource_id : ℕ
  pub details : AuditDetails

-- The session: the rows of `vms`, and the audit rows in the order in which they are staged.
pub record Db : Type 0 where
  pub vms : List Vm
  pub audit : List AuditRow

pub record TransitionResult : Type 0 where
  pub vm_ids : List ℕ
  pub from_states : Dict ℕ LifecycleState
  pub to_state : LifecycleState
  pub audit_action : Text

-- A call raises `LifecycleTransitionError(attempted, offenders)`, or returns and leaves a session.
pub data Outcome {ℓ} (A : Type ℓ) : Type ℓ where
  refused : LifecycleState → List (ℕ × LifecycleState) → Outcome A
  done : A → Db → Outcome A

abbrev pub transition_action : Text
transition_action = codes "vm.lifecycle_state.transition"

-- The rows that `_fetch_locked` loads.
abbrev pub is_fetched : List ℕ → Vm → Bool
is_fetched vm_ids v = contains vm_ids v.id

-- The fetched rows that are `planned`.
abbrev pub is_planned : List ℕ → Vm → Bool
is_planned vm_ids v = is_fetched vm_ids v && v.lifecycle_state == LifecycleState.planned

unfoldable pub fetch_locked : Db → List ℕ → List Vm
fetch_locked db vm_ids = filter_by (is_fetched vm_ids) db.vms

abbrev pub row_ids : List Vm → List ℕ
row_ids vms = map (λ (v : Vm). v.id) vms

-- `[vid for vid in vm_ids if vid not in vms]`
unfoldable pub missing_ids : List ℕ → List Vm → List ℕ
missing_ids vm_ids vms = filter_by (λ vid. not (contains (row_ids vms) vid)) vm_ids

unfoldable pub missing_offenders : List ℕ → List Vm → List (ℕ × LifecycleState)
unfolding missing_ids
missing_offenders vm_ids vms =
    map (λ vid. (vid, LifecycleState.unmanageable)) (missing_ids vm_ids vms)

-- `from_states`
abbrev pub prior_states : List Vm → Dict ℕ LifecycleState
prior_states vms = map (λ (v : Vm). (v.id, v.lifecycle_state)) vms

-- The offenders that `_enforce` finds.
unfoldable pub offenders : List LifecycleState → List Vm → Dict ℕ LifecycleState
offenders allowed vms =
    prior_states (filter_by (λ (v : Vm). not (contains allowed v.lifecycle_state)) vms)

-- `raise LifecycleTransitionError` if there are offenders.
unfoldable pub raise_if {ℓ} :
    {A : Type ℓ} → LifecycleState → List (ℕ × LifecycleState) → Outcome A → Outcome A
raise_if target [] next = next
raise_if target (o ∷ os) next = Outcome.refused target (o ∷ os)

-- `_apply`: the rows that `p` selects are changed where they stand.
unfoldable pub apply : (Vm → Bool) → LifecycleState → ℕ → List Vm → List Vm
apply p target now vms =
    map
      (λ (v : Vm).
        if p v then record v { lifecycle_state = target; lifecycle_state_changed_at = now } else v)
      vms

-- `_apply`, then `record_audit`, then the result.
unfoldable pub move_rows :
    (Vm → Bool)
    → LifecycleState
    → ℕ
    → Text
    → Text
    → ℕ
    → AuditDetails
    → Db
    → Outcome TransitionResult
unfolding apply
move_rows p target now actor resource_type resource_id details db =
    let movers = filter_by p db.vms in
    Outcome.done
      (record {
        vm_ids = row_ids movers;
        from_states = prior_states movers;
        to_state = target;
        audit_action = transition_action;
      })
      (record {
        vms = apply p target now db.vms;
        audit =
            db.audit
            ++ record {
              action = transition_action;
              actor = actor;
              resource_type = resource_type;
              resource_id = resource_id;
              details = details;
            }
              ∷ [];
      })

-- The transition of many VMs of a plan, with its audit details.
unfoldable pub move_many :
    (Vm → Bool) → LifecycleState → ℕ → Text → ℕ → Text → Db → Outcome TransitionResult
unfolding move_rows
move_many p target now actor plan_id trigger db =
    let movers = filter_by p db.vms in
    move_rows p target now actor (codes "plan") plan_id
      (AuditDetails.moved_vms (row_ids movers) target (prior_states movers) trigger) db

unfoldable pub transition_to_planned : ℕ → List ℕ → ℕ → Text → Text → Db → Outcome TransitionResult
unfolding fetch_locked missing_offenders offenders move_many
transition_to_planned now vm_ids plan_id actor trigger db =
    let vms = fetch_locked db vm_ids in
    raise_if LifecycleState.planned (missing_offenders vm_ids vms) (
      raise_if LifecycleState.planned (offenders (LifecycleState.available ∷ []) vms)
        (move_many (is_fetched vm_ids) LifecycleState.planned now actor plan_id trigger db))

-- The result of a call that finds nothing to move.
abbrev pub nothing : LifecycleState → TransitionResult
nothing target = record {
  vm_ids = [];
  from_states = [];
  to_state = target;
  audit_action = transition_action;
}

-- `if not movers: return ...`, else move them.
unfoldable pub move_planned :
    List ℕ → LifecycleState → ℕ → Text → ℕ → Text → Db → Outcome TransitionResult
unfolding move_many
move_planned vm_ids target now actor plan_id trigger db =
    elim (filter_by (is_planned vm_ids) db.vms) [
      | [] ↦ Outcome.done (nothing target) db
      | _ ∷ _ ↦ move_many (is_planned vm_ids) target now actor plan_id trigger db
    ]

-- `_release_planned_to_available`, and its three callers
unfoldable pub release_planned_to_available :
    ℕ → ℕ → List ℕ → Text → Text → Db → Outcome TransitionResult
unfolding move_planned
release_planned_to_available now plan_id vm_ids actor trigger db =
    move_planned vm_ids LifecycleState.available now actor plan_id trigger db

unfoldable pub transition_to_available_from_failed_plan :
    ℕ → ℕ → List ℕ → Text → Db → Outcome TransitionResult
unfolding release_planned_to_available
transition_to_available_from_failed_plan now plan_id vm_ids actor db =
    release_planned_to_available now plan_id vm_ids actor (codes "plan.failed") db

unfoldable pub transition_to_available_from_deleted_plan :
    ℕ → ℕ → List ℕ → Text → Db → Outcome TransitionResult
unfolding release_planned_to_available
transition_to_available_from_deleted_plan now plan_id vm_ids actor db =
    release_planned_to_available now plan_id vm_ids actor (codes "plan.deleted") db

unfoldable pub transition_to_available_from_plan_edit :
    ℕ → ℕ → List ℕ → Text → Db → Outcome TransitionResult
unfolding release_planned_to_available
transition_to_available_from_plan_edit now plan_id vm_ids actor db =
    release_planned_to_available now plan_id vm_ids actor (codes "plan.edit.remove") db

-- No state changes, but the move between plans is audited.
unfoldable pub record_plan_reassignment : List ℕ → ℕ → ℕ → Text → Db → Outcome {0} Unit
unfolding fetch_locked missing_offenders offenders
record_plan_reassignment vm_ids from_plan_id to_plan_id actor db =
    let vms = fetch_locked db vm_ids in
    raise_if LifecycleState.planned (missing_offenders vm_ids vms) (
      raise_if LifecycleState.planned (offenders (LifecycleState.planned ∷ []) vms) (
        Outcome.done tt (record db {
          audit =
              db.audit
              ++ record {
                action = codes "vm.plan_membership.moved";
                actor = actor;
                resource_type = codes "plan";
                resource_id = to_plan_id;
                details =
                    AuditDetails.reassigned (row_ids vms) from_plan_id to_plan_id
                      (codes "plan.edit.move_to_plan");
              }
                ∷ [];
        })))

unfoldable pub transition_to_migrated : ℕ → ℕ → List ℕ → Text → Db → Outcome TransitionResult
unfolding fetch_locked missing_offenders offenders move_planned
transition_to_migrated now plan_id vm_ids actor db =
    let vms = fetch_locked db vm_ids in
    raise_if LifecycleState.migrated (missing_offenders vm_ids vms) (
      raise_if LifecycleState.migrated
        (offenders (LifecycleState.planned ∷ LifecycleState.migrated ∷ []) vms)
        (move_planned vm_ids LifecycleState.migrated now actor plan_id (codes "plan.mark_succeeded")
          db))

-- The operator's transitions of one VM, from `source` to `target`.
unfoldable pub move_one :
    LifecycleState → LifecycleState → Text → ℕ → ℕ → Text → Db → Outcome TransitionResult
unfolding fetch_locked missing_offenders offenders move_rows
move_one source target trigger now vm_id actor db =
    let vms = fetch_locked db (vm_id ∷ []) in
    raise_if target (missing_offenders (vm_id ∷ []) vms) (
      raise_if target (offenders (source ∷ []) vms) (
        move_rows (is_fetched (vm_id ∷ [])) target now actor (codes "vm") vm_id
          (AuditDetails.moved_vm target (get_default vm_id source (prior_states vms)) trigger) db))

unfoldable pub transition_to_rolled_back : ℕ → ℕ → Text → Db → Outcome TransitionResult
unfolding move_one
transition_to_rolled_back now vm_id actor db =
    move_one LifecycleState.migrated LifecycleState.rolled_back (codes "operator.revert") now vm_id
      actor db

unfoldable pub transition_to_available_from_rolled_back :
    ℕ → ℕ → Text → Db → Outcome TransitionResult
unfolding move_one
transition_to_available_from_rolled_back now vm_id actor db =
    move_one LifecycleState.rolled_back LifecycleState.available (codes "operator.confirm_rollback")
      now vm_id actor db

-- `ALLOWED_PATCH_TRANSITIONS`
abbrev pub allowed_patch_transitions : Dict LifecycleState (List LifecycleState)
allowed_patch_transitions =
    (LifecycleState.migrated, LifecycleState.rolled_back ∷ [])
    ∷ (LifecycleState.rolled_back, LifecycleState.available ∷ [])
    ∷ []

unfoldable pub patch_transition : ℕ → Vm → LifecycleState → Text → Db → Outcome TransitionResult
unfolding transition_to_rolled_back transition_to_available_from_rolled_back
patch_transition now v target actor db =
    let current = v.lifecycle_state in
    let offender = Outcome.refused target ((v.id, current) ∷ []) in
    let allowed = get_default current [] allowed_patch_transitions in
    if not (contains allowed target)
    then offender
    else if current == LifecycleState.migrated && target == LifecycleState.rolled_back
    then transition_to_rolled_back now v.id actor db
    else if current == LifecycleState.rolled_back && target == LifecycleState.available
    then transition_to_available_from_rolled_back now v.id actor db
    else offender
