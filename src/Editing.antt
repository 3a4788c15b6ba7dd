-- ===== src/Editing.antt =====
-- backend/app/core/plan_edit.py: the request of an operator's edit of a finished plan, its errors,
-- and the rows of plans that an edit reads and writes.
pub mod Waves
pub mod Moved
pub mod Conserved
pub mod Checks
pub mod Targets
pub mod Docs
pub mod Rebuild
pub mod Request
pub mod Violations
pub mod Prepare
pub mod Kept
pub mod Numbers
pub mod Apply
pub mod Written
pub mod Logged
pub mod Effects
pub mod Applied
pub mod Rebuilt
pub mod Sound
pub mod Keyed
pub mod Whole
pub mod Steps
pub mod Alone
pub mod Within
pub mod Result
use virtvalidation.Base.{ℕ, Bool, true, false, Option, List, Eq, nat_Eq, option_Eq, list_Eq}
use virtvalidation.Base.Texts.{Text}
use virtvalidation.Base.Dicts.{Dict}
use virtvalidation.Constraints.{Violation}

-- `EditSpec.operation` and `OPERATIONS`; any other text is a bad operation.
pub data Operation : Type 0 where
  move_to_wave : Operation
  move_to_plan : Operation
  remove : Operation
  add : Operation
  other_operation : Text → Operation

abbrev pub is_operation : Operation → Bool
is_operation (Operation.other_operation name) = false
is_operation op = true

abbrev pub is_move_to_wave : Operation → Bool
is_move_to_wave Operation.move_to_wave = true
is_move_to_wave op = false

abbrev pub is_move_to_plan : Operation → Bool
is_move_to_plan Operation.move_to_plan = true
is_move_to_plan op = false

abbrev pub is_remove : Operation → Bool
is_remove Operation.remove = true
is_remove op = false

abbrev pub is_add : Operation → Bool
is_add Operation.add = true
is_add op = false

pub record EditSpec : Type 0 where
  pub operation : Operation
  pub vm_ids : List ℕ
  pub target_wave : Option ℕ
  pub new_wave : Bool
  pub target_plan_id : Option ℕ
  pub note : Option Text

-- The causes of a `PlanEditError`, with what their messages name; `key_error` is the KeyError of a
-- wave that the plan did not have, which the server answers with 500.
pub data EditError : Type 0 where
  bad_operation : Operation → EditError
  no_vms : EditError
  plan_not_editable : ℕ → Text → EditError
  needs_other_plan : EditError
  plan_not_found : ℕ → EditError
  needs_target_wave : EditError
  unknown_vms : List ℕ → EditError
  already_member : List Text → EditError
  not_member : ℕ → List Text → EditError
  no_such_wave : ℕ → ℕ → EditError
  no_change : Option ℕ → EditError
  membership_corrupt : ℕ → EditError
  blocked : List Violation → EditError
  lifecycle_error : EditError
  key_error : EditError

-- `PlanEditError.status_code`
unfoldable pub status_code : EditError → ℕ
status_code (EditError.plan_not_editable plan_id status) = 409
status_code (EditError.plan_not_found plan_id) = 404
status_code (EditError.unknown_vms ids) = 404
status_code (EditError.membership_corrupt plan_id) = 500
status_code EditError.key_error = 500
status_code other_cause = 422

-- A step of the edit raises, or goes on with a value.
pub data Edit {ℓ} (A : Type ℓ) : Type ℓ where
  refused : EditError → Edit A
  going : A → Edit A

unfoldable pub then_edit {ℓ κ} : {A : Type ℓ} {B : Type κ} → Edit A → (A → Edit B) → Edit B
then_edit (Edit.refused e) next = Edit.refused e
then_edit (Edit.going a) next = next a

-- `if not ...: raise`
unfoldable pub ensure : Bool → EditError → Edit Bool
ensure true e = Edit.going true
ensure false e = Edit.refused e

-- An entry of a wave's `overrides`, a rule that an operator broke knowingly.
pub record OverrideEntry : Type 0 where
  pub code : Text
  pub family : Option Text
  pub count : Option ℕ
  pub limit : Option ℕ
  pub by : Text
  pub at : Text

-- A wave's `manual_edit`
pub record ManualEdit : Type 0 where
  pub edited_at : Text
  pub edited_by : Text
  pub edit_count : ℕ
  pub note : Option Text

-- A persisted wave document. `reannotation` holds the token of a queued LLM pass.
pub record WaveDoc : Type 0 where
  pub wave_number : Option ℕ
  pub vm_ids : List ℕ
  pub vm_names : List Text
  pub overrides : List OverrideEntry
  pub manual_edit : Option ManualEdit
  pub mtv_yaml_available : Bool
  pub concurrency_group_id : ℕ
  pub reannotation : Option Text

-- `MigrationPlan`: the columns that an edit reads or writes.
pub record Plan : Type 0 where
  pub id : ℕ
  pub name : Text
  pub status : Text
  pub migration_type : Text
  pub vm_ids : List ℕ
  pub waves : List WaveDoc
  pub wave_number_seq : ℕ

-- `{wave_number: [vm_id, ...]}`, and one of these for each plan id
abbrev pub Membership : Type 0
Membership = Dict ℕ (List ℕ)

abbrev pub Memberships : Type 0
Memberships = Dict ℕ Membership
