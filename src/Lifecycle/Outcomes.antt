-- ===== src/Lifecycle/Outcomes.antt =====
-- What a plan that is created finds and leaves.
use virtvalidation.Base.{
  ℕ, ◌≡◌, refl, sym, inl, inr, true, List, [], ◌∷◌, arith, Bool-cases, nat_Eq, option_Eq, list_Eq,
  All, All-imp,
}
use virtvalidation.Base.Texts.{Text}
use virtvalidation.Base.Distinct.{contains}
use virtvalidation.Lifecycle.{
  LifecycleState, state_Eq, Vm, Db, Outcome, TransitionResult, is_fetched, fetch_locked,
  missing_offenders, missing_ids, row_ids, apply, move_rows, move_many, transition_to_planned,
}
use virtvalidation.Lifecycle.Moves.{Leaves-done, enforced, raise_if-Leaves}

-- Every listed VM has a row.
abbrev pub AllExist : List ℕ → Db → Type 0
AllExist vm_ids db =
    All (λ (vid : ℕ). contains (row_ids (fetch_locked db vm_ids)) vid ≡ true) vm_ids

-- The rows of the listed VMs are in the state.
abbrev pub AllAre : LifecycleState → List ℕ → Db → Type 0
AllAre state vm_ids db =
    All (λ (v : Vm). is_fetched vm_ids v ≡ true → v.lifecycle_state ≡ state) db.vms

pub none_missing :
    (rows : List Vm) (vm_ids : List ℕ)
    → missing_offenders vm_ids rows ≡ []
    → All (λ (vid : ℕ). contains (row_ids rows) vid ≡ true) vm_ids
unfolding missing_offenders missing_ids
none_missing rows [] h = tt
none_missing rows (vid ∷ vm_ids) h = elim (Bool-cases (contains (row_ids rows) vid)) [
  | inl there ↦ (there, none_missing rows vm_ids (rw there at h))
  | inr gone ↦ absurd (nonempty _ _ (rw gone at h))
]
  where
    nonempty : (x : ℕ × LifecycleState) (xs : List (ℕ × LifecycleState)) → x ∷ xs ≡ [] → ⊥
    nonempty x xs e = cc

apply-moved :
    (vm_ids : List ℕ) (target : LifecycleState) (now : ℕ) (vms : List Vm)
    → All
        (λ (w : Vm). is_fetched vm_ids w ≡ true → w.lifecycle_state ≡ target)
        (apply (is_fetched vm_ids) target now vms)
unfolding apply
apply-moved vm_ids target now [] = tt
apply-moved vm_ids target now (v ∷ vms) = elim (Bool-cases (is_fetched vm_ids v)) [
  | inl moved ↦ rw moved ((λ e. refl), apply-moved vm_ids target now vms)
  | inr still ↦ rw still ((λ e. cc), apply-moved vm_ids target now vms)
]

-- If `transition_to_planned` returns: every listed VM has a row, all these rows were available
-- before, and all of them are planned in the session that it leaves.
pub transition_to_planned-AllAre :
    (now : ℕ) (vm_ids : List ℕ) (plan_id : ℕ) (actor trigger : Text) (db db' : Db)
    (result : TransitionResult)
    → transition_to_planned now vm_ids plan_id actor trigger db ≡ Outcome.done result db'
    → AllExist vm_ids db
      × AllAre LifecycleState.available vm_ids db
      × AllAre LifecycleState.planned vm_ids db'
unfolding transition_to_planned move_many move_rows fetch_locked
transition_to_planned-AllAre now vm_ids plan_id actor trigger db db' result returned =
    let P : Db → Type 0 = λ d.
      AllExist vm_ids db
      × AllAre LifecycleState.available vm_ids db
      × AllAre LifecycleState.planned vm_ids d in
    (raise_if-Leaves now P LifecycleState.planned _ _ (λ exist.
        raise_if-Leaves now P LifecycleState.planned _ _ (λ fine. Leaves-done P _ _ (
          none_missing (fetch_locked db vm_ids) vm_ids exist,
          All-imp db.vms (λ v ok fetched. only_available v.lifecycle_state (ok fetched))
              (enforced (LifecycleState.available ∷ []) (is_fetched vm_ids) db.vms fine),
          apply-moved vm_ids LifecycleState.planned now db.vms,
        )))).holds
      result db' returned
  where
    only_available :
        (t : LifecycleState)
        → contains (LifecycleState.available ∷ []) t ≡ true
        → t ≡ LifecycleState.available
    only_available t h = sym ((state_Eq.beq_iff LifecycleState.available t).0 (ground arith))
