-- ===== src/Editing/Written.antt =====
-- The table of plans behind `apply` of backend/app/core/plan_edit.py.
use virtvalidation.Base.{
  ◌≡◌, refl, sym, ap, subst, ◌⊎◌, inl, inr, Bool, false, List, [], ◌∷◌, ◌++◌, arith, Bool-cases,
  ◌==◌, nat_Eq, option_Eq, list_Eq, ==→eq, any_by,
}
use virtvalidation.Editing.{Plan}
use virtvalidation.Editing.Rebuild.{PlanChange}
use virtvalidation.Editing.Apply.{changed_plan, write_changes}

-- A change is one of the plan.
abbrev pub is_changed : List PlanChange → Plan → Bool
is_changed changes plan = any_by (λ (c : PlanChange). c.plan.id == plan.id) changes

-- A row with what the last change of its plan brings; its other columns are kept.
pub record TakesLast (changes : List PlanChange) (plan after : Plan) : Type 0 where
  pub earlier : List PlanChange
  pub change : PlanChange
  pub later : List PlanChange
  pub split : changes ≡ earlier ++ change ∷ later
  pub its_plan : change.plan.id ≡ plan.id
  pub last : is_changed later plan ≡ false
  pub waves : after.waves ≡ change.waves
  pub vm_ids : after.vm_ids ≡ change.vm_ids
  pub wave_number_seq : after.wave_number_seq ≡ change.wave_number_seq
  pub kept :
      (after.id ≡ plan.id)
      × (after.name ≡ plan.name)
      × (after.status ≡ plan.status)
      × (after.migration_type ≡ plan.migration_type)

-- A row that no change is about stays as it is; any other takes the last change of its plan.
abbrev pub IsWritten : List PlanChange → Plan → Plan → Type 0
IsWritten changes plan after =
    ((is_changed changes plan ≡ false) × (after ≡ plan)) ⊎ TakesLast changes plan after

takes_head :
    (c : PlanChange) (cs : List PlanChange) (plan after : Plan)
    → c.plan.id ≡ plan.id
    → IsWritten cs (changed_plan plan c) after
    → TakesLast (c ∷ cs) plan after
unfolding changed_plan
takes_head c cs plan after same (inl (rest, still)) = record {
  earlier = [];
  change = c;
  later = cs;
  split = refl;
  its_plan = same;
  last = rest;
  waves = ap (λ (q : Plan). q.waves) still;
  vm_ids = ap (λ (q : Plan). q.vm_ids) still;
  wave_number_seq = ap (λ (q : Plan). q.wave_number_seq) still;
  kept = (
    ap (λ (q : Plan). q.id) still,
    ap (λ (q : Plan). q.name) still,
    ap (λ (q : Plan). q.status) still,
    ap (λ (q : Plan). q.migration_type) still,
  );
}
takes_head c cs plan after same (inr t) = record {
  earlier = c ∷ t.earlier;
  change = t.change;
  later = t.later;
  split = ap (λ l. c ∷ l) t.split;
  its_plan = t.its_plan;
  last = t.last;
  waves = t.waves;
  vm_ids = t.vm_ids;
  wave_number_seq = t.wave_number_seq;
  kept = t.kept;
}

takes_tail :
    (c : PlanChange) (cs : List PlanChange) (plan after : Plan)
    → (c.plan.id == plan.id) ≡ false
    → IsWritten cs plan after
    → IsWritten (c ∷ cs) plan after
takes_tail c cs plan after other (inl (rest, still)) = inl (ground (arith, other, rest), still)
takes_tail c cs plan after other (inr t) = inr (record {
  earlier = c ∷ t.earlier;
  change = t.change;
  later = t.later;
  split = ap (λ l. c ∷ l) t.split;
  its_plan = t.its_plan;
  last = t.last;
  waves = t.waves;
  vm_ids = t.vm_ids;
  wave_number_seq = t.wave_number_seq;
  kept = t.kept;
})

pub write_changes-IsWritten :
    (changes : List PlanChange) (plan : Plan) → IsWritten changes plan (write_changes changes plan)
unfolding write_changes
write_changes-IsWritten [] plan = inl (refl, refl)
write_changes-IsWritten (c ∷ cs) plan = elim (Bool-cases (c.plan.id == plan.id)) [
  | inl same ↦
      let head : write_changes (c ∷ cs) plan ≡ write_changes cs (changed_plan plan c) =
        rw same refl in
      inr (
        subst (λ q. TakesLast (c ∷ cs) plan q) (sym head)
          (takes_head c cs plan _ (==→eq c.plan.id plan.id same)
            (write_changes-IsWritten cs (changed_plan plan c))))
  | inr other ↦
      let tail : write_changes (c ∷ cs) plan ≡ write_changes cs plan = rw other refl in
      subst (λ q. IsWritten (c ∷ cs) plan q) (sym tail)
        (takes_tail c cs plan _ other (write_changes-IsWritten cs plan))
]
