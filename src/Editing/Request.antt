-- ===== src/Editing/Request.antt =====
-- The first half of `prepare` of backend/app/core/plan_edit.py: the request is checked, and the VMs
-- are moved.
use virtvalidation.Base.{
  ℕ, Bool, true, false, not, ◌||◌, Option, none, some, List, [], ◌∷◌, map, if◌then◌else◌, ◌==◌,
  nat_Eq, option_Eq, list_Eq, filter_by,
}
use virtvalidation.Base.Dicts.{Dict, has_key, get_default}
use virtvalidation.Base.Texts.{Text, codes}
use virtvalidation.Base.Distinct.{contains}
use virtvalidation.Base.Keys.{keys}
use virtvalidation.Preclassifier.Source.{SourceVm, non_empty}
use virtvalidation.Editing.{
  Operation, is_move_to_plan, is_remove, is_add, EditSpec, EditError, Edit, then_edit, ensure, Plan,
  Membership, Memberships,
}
use virtvalidation.Editing.Waves.{
  wave_membership, next_wave_number, wave_of, Move, Moving, move_vms, moves_of, drop_empty, Layout,
  layout_of,
}
use virtvalidation.Editing.Rebuild.{rows_of}

-- `db.get(MigrationPlan, plan_id)`
unfoldable pub find_plan : ℕ → List Plan → Option Plan
find_plan plan_id [] = none
find_plan plan_id (p ∷ ps) =
    let rest = find_plan plan_id ps in if p.id == plan_id then some p else rest

abbrev pub is_complete : Plan → Bool
is_complete p = p.status == codes "complete"

unfoldable pub other_plan : Plan → Option Plan → ℕ → Edit Plan
unfolding then_edit ensure
other_plan plan none plan_id = Edit.refused (EditError.plan_not_found plan_id)
other_plan plan (some target) plan_id =
    then_edit (ensure (is_complete target) (EditError.plan_not_editable target.id target.status))
      (λ fine. Edit.going target)

-- `target_plan`
unfoldable pub find_target : List Plan → Plan → EditSpec → Edit Plan
unfolding other_plan find_plan
find_target plans plan spec = elim (is_move_to_plan spec.operation) [
  | false ↦ Edit.going plan
  | true ↦ elim spec.target_plan_id [
    | none ↦ Edit.refused EditError.needs_other_plan
    | some plan_id ↦ elim (plan_id == plan.id) [
      | true ↦ Edit.refused EditError.needs_other_plan
      | false ↦ other_plan plan (find_plan plan_id plans) plan_id
    ]
  ]
]

-- Whether the request says where the VMs go.
abbrev pub has_target : EditSpec → Bool
has_target spec =
    is_remove spec.operation
    || spec.new_wave
    || elim spec.target_wave [ none ↦ false | some n ↦ true ]

-- `before`: the membership of the plan, and of a target plan that is another one
unfoldable pub memberships : Plan → Plan → Memberships
unfolding wave_membership
memberships plan target =
    (plan.id, wave_membership plan)
    ∷ (if target.id == plan.id then [] else (target.id, wave_membership target) ∷ [])

abbrev row_names : List SourceVm → List ℕ → List Text
row_names vms ids = map (λ (v : SourceVm). v.name) (rows_of vms ids)

-- The VMs of the request must stand in the plan, or, of an addition, must not.
unfoldable pub check_members : Operation → ℕ → Dict ℕ ℕ → List SourceVm → List ℕ → Edit Bool
unfolding ensure rows_of
check_members op plan_id waves vms ids =
    let present = filter_by (λ vid. has_key vid waves) ids in
    let absent = filter_by (λ vid. not (has_key vid waves)) ids in
    if is_add op
    then ensure (not (non_empty present)) (EditError.already_member (row_names vms present))
    else ensure (not (non_empty absent)) (EditError.not_member plan_id (row_names vms absent))

-- `dest`, none of a removal
unfoldable pub find_destination : EditSpec → Plan → Membership → Edit (Option ℕ)
unfolding next_wave_number then_edit ensure
find_destination spec target waves = elim (is_remove spec.operation) [
  | true ↦ Edit.going none
  | false ↦ elim spec.new_wave [
    | true ↦ Edit.going (some (next_wave_number target waves))
    | false ↦ elim spec.target_wave [
      | none ↦ Edit.refused EditError.needs_target_wave
      | some n ↦
          then_edit (ensure (contains (keys waves) n) (EditError.no_such_wave target.id n))
            (λ known. Edit.going (some n))
    ]
  ]
]

-- An edit whose request is sound: the two plans, the ids, and the membership before and behind it.
pub record Edited : Type 0 where
  pub spec : EditSpec
  pub plan : Plan
  pub target : Plan
  pub dest : Option ℕ
  pub before : Memberships
  pub moving : Moving
  pub arranged : Memberships
  pub moves : List Move

unfoldable pub edited : EditSpec → Plan → Plan → List ℕ → Option ℕ → Edited
unfolding memberships wave_of move_vms moves_of
edited spec plan target ids dest =
    let before : Memberships = memberships plan target in
    let moving : Moving = record {
      operation = spec.operation;
      plan_id = plan.id;
      target_id = target.id;
      dest = dest;
      waves = wave_of (get_default plan.id [] before);
    } in
    record {
      spec = spec;
      plan = plan;
      target = target;
      dest = dest;
      before = before;
      moving = moving;
      arranged = move_vms moving ids before;
      moves = moves_of moving ids;
    }

-- `after[pid]` without the waves that have become empty, `before[pid]`, and the layout of a plan
abbrev pub after_of : Edited → ℕ → Membership
after_of e pid = drop_empty (get_default pid [] e.arranged)

abbrev pub before_of : Edited → ℕ → Membership
before_of e pid = get_default pid [] e.before

unfoldable pub layout_at : Edited → ℕ → Layout
unfolding layout_of
layout_at e pid = layout_of (before_of e pid) (get_default pid [] e.arranged)

-- `plans`: the plan, and the target if it is another one
abbrev pub plans_of : Edited → List Plan
plans_of e = e.plan ∷ (if e.target.id == e.plan.id then [] else e.target ∷ [])
