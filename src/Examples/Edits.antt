-- ===== src/Examples/Edits.antt =====
-- The theorems on the editing of plans applied to a plan of two waves.
use virtvalidation.Base.{
  ℕ, ◌+◌, ◌<◌, ◌≡◌, refl, inr, ◌⊎◌, Bool, true, false, ◌&&◌, none, some, List, [], ◌∷◌, ◌++◌, ◌==◌,
  nat_Eq, option_Eq, list_Eq, All, count_by, length,
}
use virtvalidation.Base.Dicts.{get, get_default}
use virtvalidation.Base.Texts.{codes, text_le}
use mathlib.Core.List.{Perm}
use virtvalidation.Base.Distinct.{Distinct, contains}
use virtvalidation.Base.Keys.{keys}
use virtvalidation.Constraints.{Violation}
use virtvalidation.Editing.{Operation, EditSpec, Edit, ensure, WaveDoc, Plan}
use virtvalidation.Editing.Waves.{
  wave_membership, wave_membership_from, waves_of_ids, wave_of_from, Move, wave_of, ids_of_wave,
  next_wave_number,
}
use virtvalidation.Editing.Moved.{times, times_in_all}
use virtvalidation.Editing.Kept.{edited-times, edited-moves}
use virtvalidation.Editing.Checks.{Services, Tables, overridable, plan_violation}
use virtvalidation.Lifecycle.{LifecycleState, Vm, Db, transition_to_planned, raise_if}
use virtvalidation.Editing.Docs.{Stamp}
use virtvalidation.Editing.Whole.{rebuild_plan-of_fit}
use virtvalidation.Editing.Rebuild.{rebuild_plan, ids_of_docs, Rebuilding, PlanChange, change_of}
use virtvalidation.Editing.Request.{check_members, Edited, edited}
use virtvalidation.Editing.Prepare.{PreparedEdit, prepare, rebuilding}
use virtvalidation.Editing.Apply.{Applied, apply_edit, changed_plan}
use virtvalidation.Editing.Applied.{IsApplied, apply_edit-IsApplied}
use virtvalidation.Editing.Numbers.{Later, Later-next_wave_number}
use virtvalidation.Editing.Within.{arranged-perm, arranged-IsFit}
use virtvalidation.Editing.Result.{IsKept, prepare-IsKept}
use virtvalidation.Editing.Sound.{ids_in_waves}
use virtvalidation.Editing.Rebuilt.{AllInTable}
use virtvalidation.Partitions.{PlanEntry, vm_plan_index, live_plans}
use virtvalidation.Partitions.Newest.{IsNewest, vm_plan_index-IsNewest}
use virtvalidation.Examples.Planning.{three_vms}
use virtvalidation.Family.Names.{detect_family, is_role_suffix, stem}
use virtvalidation.Preclassifier.Cluster.{classify_within_primary}
use virtvalidation.Preclassifier.Source.{label, primary_key}
use virtvalidation.Preclassifier.Build.{build_group}
use virtvalidation.Preclassifier.Ha.{name_prefix}
use virtvalidation.Environment.{normalize}

abbrev wave_doc : ℕ → List ℕ → WaveDoc
wave_doc n ids = record {
  wave_number = some n;
  vm_ids = ids;
  vm_names = [];
  overrides = [];
  manual_edit = none;
  mtv_yaml_available = true;
  concurrency_group_id = 0;
  reannotation = none;
}

abbrev two_waves : Plan
two_waves = record {
  id = 7;
  name = codes "plan";
  status = codes "complete";
  migration_type = codes "cold";
  vm_ids = 1 ∷ 2 ∷ 3 ∷ [];
  waves = wave_doc 1 (1 ∷ 2 ∷ []) ∷ wave_doc 2 (3 ∷ []) ∷ [];
  wave_number_seq = 2;
}

abbrev services : Services
services = record {
  resolve_vms = λ vms. [];
  gaps = λ plan vms. [];
  blocked_by = λ vid migration_type. [];
  emit_error = λ plan n vms. none;
}

abbrev tables : Tables
tables = record {
  plans = two_waves ∷ [];
  vms = three_vms;
  vcenters = [];
  session = record { vms = []; audit = [] };
  baseline_runs = [];
  validation_runs = [];
  max_vms_per_plan = 1000;
}

abbrev stamp : Stamp
stamp = record { actor = codes "operator"; now = codes "noon"; token = λ n. codes "token" }

-- VM 2 goes to the second wave.
abbrev move_spec : EditSpec
move_spec = record {
  operation = Operation.move_to_wave;
  vm_ids = 2 ∷ 2 ∷ [];
  target_wave = some 2;
  new_wave = false;
  target_plan_id = none;
  note = none;
}

abbrev move_edit : Edited
move_edit = edited move_spec two_waves two_waves (2 ∷ []) (some 2)

two_waves-Distinct : Distinct (ids_in_waves (wave_membership two_waves))
unfolding wave_membership wave_membership_from
two_waves-Distinct = (refl, (refl, (refl, tt)))

two_waves-known : AllInTable three_vms (ids_in_waves (wave_membership two_waves))
unfolding wave_membership wave_membership_from
two_waves-known = (refl, (refl, (refl, tt)))

edited-moves_example :
    times 2 (ids_of_wave 7 1 move_edit.arranged)
      + count_by
          (λ (m : Move). m.vm_id == 2 && (two_waves.id == 7 && m.from_wave == some 1))
          move_edit.moves
    ≡ times 2 (ids_of_wave 7 1 move_edit.before)
      + count_by
          (λ (m : Move). m.vm_id == 2 && (two_waves.id == 7 && m.to_wave == some 1))
          move_edit.moves
edited-moves_example = edited-moves move_spec two_waves two_waves (2 ∷ []) (some 2) (refl, tt) 2 7 1

move_spec-fits :
    check_members move_spec.operation 7 (wave_of (wave_membership two_waves)) three_vms (2 ∷ [])
    ≡ Edit.going true
unfolding check_members ensure wave_of wave_of_from waves_of_ids wave_membership
    wave_membership_from
move_spec-fits = refl

edited-times_example : times_in_all 2 move_edit.arranged ≡ times_in_all 2 move_edit.before
edited-times_example =
    edited-times move_spec two_waves two_waves three_vms (2 ∷ []) 2 true (refl, tt) refl
      move_spec-fits 2

vm_plan_index-IsNewest_example :
    ((get 3 (vm_plan_index (two_waves ∷ []) (3 ∷ []) true) ≡ none)
      × All (λ (p : Plan). contains p.vm_ids 3 ≡ false) (live_plans (two_waves ∷ [])))
    ⊎ ((entry : PlanEntry) × (get 3 (vm_plan_index (two_waves ∷ []) (3 ∷ []) true) ≡ some entry)
        × IsNewest (two_waves ∷ []) 3 entry)
vm_plan_index-IsNewest_example = vm_plan_index-IsNewest (two_waves ∷ []) (3 ∷ []) true 3 refl

abbrev no_edit : PreparedEdit
no_edit = record {
  spec = move_spec;
  source_plan = two_waves;
  target_plan = two_waves;
  violations = [];
  moves = [];
  changes = [];
}

abbrev is_going : {A : Type 0} → Edit A → Bool
is_going (Edit.going a) = true
is_going (Edit.refused e) = false

abbrev result_or : {A : Type 0} → A → Edit A → A
result_or other (Edit.going a) = a
result_or other (Edit.refused e) = other

going-result :
    {A : Type 0} (other : A) (x : Edit A) → is_going x ≡ true → x ≡ Edit.going (result_or other x)
going-result other (Edit.going a) h = refl
going-result other (Edit.refused e) h = cc

abbrev move_result : PreparedEdit
move_result = result_or no_edit (prepare services tables stamp two_waves move_spec)

move_spec-going : is_going (prepare services tables stamp two_waves move_spec) ≡ true
unfolding prepare detect_family is_role_suffix stem text_le classify_within_primary label
    build_group primary_key normalize name_prefix
move_spec-going = refl

prepare-IsKept_example : IsKept move_result (ids_in_waves (wave_membership two_waves))
prepare-IsKept_example =
    prepare-IsKept services tables stamp two_waves move_spec move_result refl two_waves-Distinct
      two_waves-known
      (going-result no_edit (prepare services tables stamp two_waves move_spec) move_spec-going)

abbrev vm_row : ℕ → LifecycleState → Vm
vm_row id state = record { id = id; lifecycle_state = state; lifecycle_state_changed_at = 0 }

-- VM 4 joins the second wave of the plan, and one rule is overridden.
abbrev add_change : PlanChange
add_change = record {
  plan = two_waves;
  waves = wave_doc 1 (1 ∷ 2 ∷ []) ∷ wave_doc 2 (3 ∷ 4 ∷ []) ∷ [];
  vm_ids = 1 ∷ 2 ∷ 3 ∷ 4 ∷ [];
  wave_number_seq = 2;
  touched_waves = 2 ∷ [];
  created_waves = [];
  removed_waves = [];
}

abbrev add_edit : PreparedEdit
add_edit = record {
  spec = record move_spec { operation = Operation.add; vm_ids = 4 ∷ [] };
  source_plan = two_waves;
  target_plan = two_waves;
  violations = plan_violation (codes "wave_size") overridable (codes "large") 7 ∷ [];
  moves = record { vm_id = 4; from_wave = none; to_wave = some 2 } ∷ [];
  changes = add_change ∷ [];
}

abbrev vms_before : Db
vms_before = record {
  vms = vm_row 4 LifecycleState.available ∷ vm_row 5 LifecycleState.available ∷ [];
  audit = [];
}

abbrev no_result : Applied
no_result = record { session = vms_before; plans = [] }

abbrev applied_add : Edit Applied
applied_add = apply_edit 1 (codes "operator") add_edit (two_waves ∷ []) vms_before

applied_add-going : is_going applied_add ≡ true
unfolding apply_edit plan_violation transition_to_planned raise_if
applied_add-going = refl

-- Three audit rows: of the lifecycle service, of the plan, and of the rule.
applied_add-audit : length (result_or no_result applied_add).session.audit ≡ 3
unfolding apply_edit plan_violation transition_to_planned raise_if
applied_add-audit = refl

apply_edit-IsApplied_example :
    IsApplied
      (codes "operator")
      add_edit
      (two_waves ∷ [])
      vms_before
      (result_or no_result applied_add)
apply_edit-IsApplied_example =
    apply_edit-IsApplied 1 (codes "operator") add_edit (two_waves ∷ []) vms_before
      (result_or no_result applied_add) (going-result no_result applied_add applied_add-going)

abbrev move_rebuilding : Rebuilding
move_rebuilding = rebuilding services tables [] move_edit stamp two_waves

move_rebuilding-keys :
    contains (keys move_rebuilding.previous ++ keys move_rebuilding.after) 2 ≡ true
unfolding rebuilding
move_rebuilding-keys = refl

-- The second wave is dropped, then the plan is edited once more.
abbrev dropped : Plan
dropped = changed_plan two_waves (change_of move_rebuilding (2 ∷ []) [])

abbrev empty_rebuilding : Rebuilding
empty_rebuilding = record move_rebuilding {
  plan = dropped;
  previous = [];
  after = [];
  touched = [];
  created = [];
}

abbrev twice_edited : Plan
twice_edited = changed_plan dropped (change_of empty_rebuilding [] [])

Later-next_wave_number_example : 2 < next_wave_number twice_edited []
unfolding rebuilding
Later-next_wave_number_example =
    Later-next_wave_number move_rebuilding (2 ∷ []) [] twice_edited [] 2
      (Later.next empty_rebuilding [] [] Later.here refl) (inr move_rebuilding-keys)

two_waves-perm :
    Perm
      (ids_in_waves (get_default 7 [] move_edit.arranged))
      (ids_in_waves (wave_membership two_waves))
two_waves-perm =
    arranged-perm move_spec two_waves three_vms (2 ∷ []) 2 true (refl, tt) refl move_spec-fits
      two_waves-Distinct

rebuild_plan-of_fit_example :
    (c : PlanChange) × (found : List Violation) × (rebuild_plan move_rebuilding [] [] []
      ≡ Edit.going (c, found))
    × (c.vm_ids ≡ ids_of_docs c.waves)
    × Perm c.vm_ids (ids_in_waves (get_default 7 [] move_edit.arranged))
rebuild_plan-of_fit_example =
    rebuild_plan-of_fit services tables [] move_edit stamp two_waves
      (arranged-IsFit tables move_spec two_waves (2 ∷ []) 2 two_waves-Distinct two_waves-known
        two_waves-perm)
      [] []
