-- ===== src/Editing/Logged.antt =====
-- The audit rows of `apply` of backend/app/core/plan_edit.py.
use virtvalidation.Base.{
  map, take, List-cases, ℕ, ◌≡◌, refl, inl, inr, List, [], ◌∷◌, nat_Eq, option_Eq, list_Eq, length,
  length-map,
}
use virtvalidation.Base.Texts.{Text, codes}
use virtvalidation.Constraints.{Violation}
use virtvalidation.Lifecycle.{EditDetails, AuditDetails, AuditRow}
use virtvalidation.Editing.Rebuild.{PlanChange}
use virtvalidation.Editing.Prepare.{PreparedEdit}
use virtvalidation.Editing.Waves.{Move}
use virtvalidation.Editing.Apply.{overridable_of, edit_details, edit_row, override_rows}

-- The row is about the changed plan, and tells which VMs were moved and what became of the waves.
pub record IsEditRow (actor : Text) (p : PreparedEdit) (c : PlanChange) (row : AuditRow)
    : Type 0 where
  pub actor_logged : row.actor ≡ actor
  pub about_plan : (row.resource_type ≡ codes "plan") × (row.resource_id ≡ c.plan.id)
  pub details : EditDetails
  pub logged : row.details ≡ AuditDetails.plan_edited details
  pub vm_ids : details.vm_ids ≡ take 200 (map (λ (m : Move). m.vm_id) p.moves)
  pub moved_count : details.moved_count ≡ length p.moves
  pub touched_waves : details.touched_waves ≡ c.touched_waves
  pub created_waves : details.created_waves ≡ c.created_waves
  pub removed_waves : details.removed_waves ≡ c.removed_waves
  pub note : details.note ≡ p.spec.note

pub edit_row-IsEditRow :
    (actor : Text) (p : PreparedEdit) (c : PlanChange) → IsEditRow actor p c (edit_row actor p c)
unfolding edit_row edit_details
edit_row-IsEditRow actor p c = record {
  actor_logged = refl;
  about_plan = (refl, refl);
  details = edit_details p c;
  logged = refl;
  vm_ids = refl;
  moved_count = length-map (λ (m : Move). m.vm_id) p.moves;
  touched_waves = refl;
  created_waves = refl;
  removed_waves = refl;
  note = refl;
}

-- The row is about the target plan, and counts the rules that are overridden.
abbrev pub IsOverrideRow : Text → PreparedEdit → ℕ → AuditRow → Type 0
IsOverrideRow actor p count row =
    (row.actor ≡ actor)
    × (row.resource_type ≡ codes "plan")
    × (row.resource_id ≡ p.target_plan.id)
    × ((name : Text) × (rules : List Violation) × (row.details
          ≡ AuditDetails.rules_overridden name rules count p.spec.note))

-- There is one such row if a rule is overridden, and none otherwise.
abbrev pub IsOverrideLog : Text → PreparedEdit → List Violation → List AuditRow → Type 0
IsOverrideLog actor p [] rows = rows ≡ []
IsOverrideLog actor p (v ∷ vs) [] = ⊥
IsOverrideLog actor p (v ∷ vs) (row ∷ rows) =
    IsOverrideRow actor p (length (v ∷ vs)) row × (rows ≡ [])

pub override_rows-IsOverrideLog :
    (actor : Text) (p : PreparedEdit)
    → IsOverrideLog actor p (overridable_of p) (override_rows actor p)
unfolding override_rows
override_rows-IsOverrideLog actor p = elim (List-cases (overridable_of p)) [
  | inl free ↦ rw free refl
  | inr found ↦ rw found.2 ((refl, refl, refl, (_, _, refl)), refl)
]
