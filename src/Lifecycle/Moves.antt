-- ===== src/Lifecycle/Moves.antt =====
-- Which rows a call may change, and how: every call of the lifecycle service is one step of the
-- state machine for each row.
use virtvalidation.Base.{
  ℕ, ◌≡◌, refl, sym, subst, ◌⊎◌, inl, inr, Bool, true, false, not, ◌&&◌, List, [], ◌∷◌, ◌++◌, arith,
  if◌then◌else◌, Bool-cases, ◌==◌, nat_Eq, option_Eq, list_Eq, All, All-imp, filter_by,
}
use virtvalidation.Base.Texts.{Text}
use virtvalidation.Base.Distinct.{contains}
use virtvalidation.Base.Dicts.{get_default}
use virtvalidation.Lifecycle.{
  allowed_patch_transitions, LifecycleState, state_Eq, Vm, AuditRow, Db, Outcome, TransitionResult,
  is_fetched, is_planned, AuditDetails, nothing, fetch_locked, offenders, raise_if, apply,
  move_rows, move_many, move_planned, transition_to_planned, record_plan_reassignment,
  transition_to_migrated, move_one, transition_to_rolled_back,
  transition_to_available_from_rolled_back, patch_transition,
}

-- The documented transitions between two states.
pub data Moves : LifecycleState → LifecycleState → Type 0 where
  assign : Moves LifecycleState.available LifecycleState.planned
  give_back : Moves LifecycleState.planned LifecycleState.available
  succeed : Moves LifecycleState.planned LifecycleState.migrated
  revert : Moves LifecycleState.migrated LifecycleState.rolled_back
  reopen : Moves LifecycleState.rolled_back LifecycleState.available

-- A row stays, or its state makes one documented transition.
abbrev pub Stepped : Vm → Vm → Type 0
Stepped v w = (w ≡ v) ⊎ ((w.id ≡ v.id) × Moves v.lifecycle_state w.lifecycle_state)

abbrev pub Rows : (Vm → Vm → Type 0) → List Vm → List Vm → Type 0
Rows R [] [] = Unit
Rows R (v ∷ vs) (w ∷ ws) = R v w × Rows R vs ws
Rows R _ _ = ⊥

Rows-refl : (vs : List Vm) → Rows Stepped vs vs
Rows-refl [] = tt
Rows-refl (v ∷ vs) = (inl refl, Rows-refl vs)

-- The step from one session to the next: the rows step, and if a row changed, one audit row is
-- added behind the others.
pub record Step (db db' : Db) : Type 0 where
  pub rows : Rows Stepped db.vms db'.vms
  pub audited : (db' ≡ db) ⊎ ((row : AuditRow) × (db'.audit ≡ db.audit ++ row ∷ []))

pub Step-refl : (db : Db) → Step db db
Step-refl db = record { rows = Rows-refl db.vms; audited = inl refl }

-- What a call promises of the session that it leaves, if it does not raise.
pub record Leaves {ℓ} {A : Type ℓ} (P : Db → Type 0) (o : Outcome A) : Type ℓ where
  pub holds : (result : A) (db : Db) → o ≡ Outcome.done result db → P db

pub Leaves-done {ℓ} :
    {A : Type ℓ} (P : Db → Type 0) (result : A) (db : Db) → P db → Leaves P (Outcome.done result db)
Leaves-done P result db h = record { holds = λ r d e. subst P (cc) h }

apply-Rows :
    (p : Vm → Bool) (target : LifecycleState) (now : ℕ) (vms : List Vm)
    → All (λ (v : Vm). p v ≡ true → Moves v.lifecycle_state target) vms
    → Rows Stepped vms (apply p target now vms)
unfolding apply
apply-Rows p target now [] h = tt
apply-Rows p target now (v ∷ vms) h = elim (Bool-cases (p v)) [
  | inl moved ↦ rw moved (inr (refl, h.0 moved), apply-Rows p target now vms h.1)
  | inr still ↦ rw still (inl refl, apply-Rows p target now vms h.1)
]

-- No offender: every selected row is in an allowed state.
pub enforced :
    (allowed : List LifecycleState) (p : Vm → Bool) (vms : List Vm)
    → offenders allowed (filter_by p vms) ≡ []
    → All (λ (v : Vm). p v ≡ true → contains allowed v.lifecycle_state ≡ true) vms
unfolding offenders
enforced allowed p [] h = tt
enforced allowed p (v ∷ vms) h = elim (Bool-cases (p v)) [
  | inl selected ↦ elim (Bool-cases (contains allowed v.lifecycle_state)) [
    | inl fine ↦ (λ _. fine, enforced allowed p vms (rw (selected, fine) at h))
    | inr bad ↦ absurd (nonempty _ _ (rw (selected, bad) at h))
  ]
  | inr other ↦ (λ e. cc, enforced allowed p vms (rw other at h))
]
  where
    nonempty : (x : ℕ × LifecycleState) (xs : List (ℕ × LifecycleState)) → x ∷ xs ≡ [] → ⊥
    nonempty x xs e = cc

module _ (now : ℕ) where
  move_rows-Step :
      (p : Vm → Bool) (target : LifecycleState) (actor kind : Text) (resource : ℕ)
      (details : AuditDetails) (db : Db)
      → All (λ (v : Vm). p v ≡ true → Moves v.lifecycle_state target) db.vms
      → Leaves (Step db) (move_rows p target now actor kind resource details db)
  unfolding move_rows
  move_rows-Step p target actor kind resource details db h =
      Leaves-done (Step db) _ _
        (record { rows = apply-Rows p target now db.vms h; audited = inr (_, refl) })

  pub raise_if-Leaves {ℓ} :
      {A : Type ℓ} (P : Db → Type 0) (target : LifecycleState) (os : List (ℕ × LifecycleState))
      (next : Outcome A)
      → (os ≡ [] → Leaves P next)
      → Leaves P (raise_if target os next)
  unfolding raise_if
  raise_if-Leaves P target [] next h = h refl
  raise_if-Leaves P target (o ∷ os) next h = record { holds = λ r d e. absurd cc }

  pub move_planned-Step :
      (vm_ids : List ℕ) (target : LifecycleState) (actor : Text) (plan_id : ℕ) (trigger : Text)
      (db : Db)
      → Moves LifecycleState.planned target
      → Leaves (Step db) (move_planned vm_ids target now actor plan_id trigger db)
  unfolding move_planned move_many
  move_planned-Step vm_ids target actor plan_id trigger db allowed =
      go (filter_by (is_planned vm_ids) db.vms)
    where
      planned :
          (vms : List Vm)
          → All (λ (v : Vm). is_planned vm_ids v ≡ true → Moves v.lifecycle_state target) vms
      planned [] = tt
      planned (v ∷ vms) = (
        λ h.
            subst (λ s. Moves s target)
              (sym ((state_Eq.beq_iff v.lifecycle_state LifecycleState.planned).0 (ground arith)))
              allowed,
        planned vms,
      )

      go :
          (movers : List Vm)
          → Leaves (Step db) (elim movers [
            | [] ↦ Outcome.done (nothing target) db
            | _ ∷ _ ↦ move_many (is_planned vm_ids) target now actor plan_id trigger db
          ])
      go [] = Leaves-done (Step db) _ db (Step-refl db)
      go (m ∷ ms) = move_rows-Step _ target actor _ plan_id _ db (planned db.vms)

  pub move_one-Step :
      (source target : LifecycleState) (trigger : Text) (vm_id : ℕ) (actor : Text) (db : Db)
      → Moves source target
      → Leaves (Step db) (move_one source target trigger now vm_id actor db)
  unfolding move_one fetch_locked
  move_one-Step source target trigger vm_id actor db allowed =
      raise_if-Leaves (Step db) target _ _ (λ _. raise_if-Leaves (Step db) target _ _ (λ none_bad.
        move_rows-Step _ target actor _ vm_id _ db (
          All-imp db.vms
            (λ v fine selected.
              subst (λ s. Moves s target) (sym (only source v.lifecycle_state (fine selected)))
                allowed)
            (enforced (source ∷ []) (is_fetched (vm_id ∷ [])) db.vms none_bad))))
    where
      only : (s t : LifecycleState) → contains (s ∷ []) t ≡ true → t ≡ s
      only s t h = sym ((state_Eq.beq_iff s t).0 (ground arith))

  pub transition_to_planned-Step :
      (vm_ids : List ℕ) (plan_id : ℕ) (actor trigger : Text) (db : Db)
      → Leaves (Step db) (transition_to_planned now vm_ids plan_id actor trigger db)
  unfolding transition_to_planned move_many fetch_locked
  transition_to_planned-Step vm_ids plan_id actor trigger db = raise_if-Leaves (Step db) _ _ _ (λ _.
      raise_if-Leaves (Step db) _ _ _ (λ none_bad.
        move_rows-Step _ LifecycleState.planned actor _ plan_id _ db (
          All-imp db.vms
            (λ v fine selected.
              subst (λ s. Moves s LifecycleState.planned)
                (sym (only_available v.lifecycle_state (fine selected))) Moves.assign)
            (enforced (LifecycleState.available ∷ []) (is_fetched vm_ids) db.vms none_bad))))
    where
      only_available :
          (t : LifecycleState)
          → contains (LifecycleState.available ∷ []) t ≡ true
          → t ≡ LifecycleState.available
      only_available t h = sym ((state_Eq.beq_iff LifecycleState.available t).0 (ground arith))

  pub transition_to_migrated-Step :
      (plan_id : ℕ) (vm_ids : List ℕ) (actor : Text) (db : Db)
      → Leaves (Step db) (transition_to_migrated now plan_id vm_ids actor db)
  unfolding transition_to_migrated
  transition_to_migrated-Step plan_id vm_ids actor db = raise_if-Leaves (Step db) _ _ _ (λ _.
      raise_if-Leaves (Step db) _ _ _
        (λ _. move_planned-Step vm_ids LifecycleState.migrated actor plan_id _ db Moves.succeed))

  pub record_plan_reassignment-Step :
      (vm_ids : List ℕ) (from_plan_id to_plan_id : ℕ) (actor : Text) (db : Db)
      → Leaves (Step db) (record_plan_reassignment vm_ids from_plan_id to_plan_id actor db)
  unfolding record_plan_reassignment
  record_plan_reassignment-Step vm_ids from_plan_id to_plan_id actor db =
      raise_if-Leaves (Step db) _ _ _ (λ _. raise_if-Leaves (Step db) _ _ _ (λ _.
        Leaves-done (Step db) _ _ (record { rows = Rows-refl db.vms; audited = inr (_, refl) })))

  pub patch_transition-Step :
      (v : Vm) (target : LifecycleState) (actor : Text) (db : Db)
      → Leaves (Step db) (patch_transition now v target actor db)
  unfolding patch_transition transition_to_rolled_back transition_to_available_from_rolled_back
  patch_transition-Step v target actor db =
      let current = v.lifecycle_state in
      let allowed = get_default current [] allowed_patch_transitions in
      let reverts = current == LifecycleState.migrated && target == LifecycleState.rolled_back in
      let reopens = current == LifecycleState.rolled_back && target == LifecycleState.available in
      if-Leaves (not (contains allowed target)) _ _ offender (
        if-Leaves reverts _ _
          (move_one-Step LifecycleState.migrated LifecycleState.rolled_back _ v.id actor db
            Moves.revert)
          (if-Leaves reopens _ _
            (move_one-Step LifecycleState.rolled_back LifecycleState.available _ v.id actor db
              Moves.reopen)
            offender))
    where
      offender :
          Leaves {A = TransitionResult}
            (Step db)
            (Outcome.refused target ((v.id, v.lifecycle_state) ∷ []))
      offender = record { holds = λ r d e. absurd cc }

      if-Leaves :
          (b : Bool) (x y : Outcome TransitionResult)
          → Leaves (Step db) x
          → Leaves (Step db) y
          → Leaves (Step db) (if b then x else y)
      if-Leaves true x y h k = h
      if-Leaves false x y h k = k
