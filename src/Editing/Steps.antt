-- ===== src/Editing/Steps.antt =====
-- `prepare` of backend/app/core/plan_edit.py: what its steps found, if it returns.
use virtvalidation.Base.{
  ℕ, ◌≡◌, refl, Bool, not, Option, List, [], ◌∷◌, arith, ◌==◌, nat_Eq, option_Eq, list_Eq, ==-refl,
  filter_by,
}
use virtvalidation.Base.Distinct.{contains, Distinct, Distinct-filter_by, contains-filter_by}
use virtvalidation.Editing.{is_operation, EditSpec, EditError, Edit, then_edit, ensure, Plan}
use virtvalidation.Editing.Waves.{wave_membership, wave_of}
use virtvalidation.Editing.Checks.{Services, Tables, from_keys}
use virtvalidation.Editing.Docs.{Stamp}
use virtvalidation.Preclassifier.Source.{non_empty, vm_ids_of}
use virtvalidation.Editing.Request.{
  is_complete, has_target, find_target, check_members, find_destination, edited, Edited,
}
use virtvalidation.Editing.Prepare.{
  PreparedEdit, prepare_edited, prepare_moves, prepare_members, prepare_target, prepare_ids,
  prepare,
}

pub from_keys-IsDistinct : (xs : List ℕ) → Distinct (from_keys xs)
unfolding from_keys
from_keys-IsDistinct [] = tt
from_keys-IsDistinct (x ∷ xs) = (
  ground (arith, contains-filter_by (λ y. not (y == x)) (from_keys xs) x, ==-refl x),
  Distinct-filter_by (λ y. not (y == x)) (from_keys xs) (from_keys-IsDistinct xs),
)

then_edit-going {ℓ κ} :
    {A : Type ℓ} {B : Type κ} (x : Edit A) (next : A → Edit B) (b : B)
    → then_edit x next ≡ Edit.going b
    → (a : A) × (x ≡ Edit.going a) × (next a ≡ Edit.going b)
unfolding then_edit
then_edit-going (Edit.refused e) next b h = absurd (cc)
then_edit-going (Edit.going a) next b h = (a, refl, h)

module _ (services : Services) (db : Tables) (stamp : Stamp) (plan : Plan) (spec : EditSpec)
    (p : PreparedEdit) where
  -- The target plan, the outcome of the check of the members, the destination, and the rest.
  pub record Prepared (ids : List ℕ) : Type 0 where
    pub target : Plan
    pub fit : Bool
    pub dest : Option ℕ
    pub targeted : find_target db.plans plan spec ≡ Edit.going target
    pub checked :
        check_members spec.operation plan.id (wave_of (wave_membership plan)) db.vms ids
        ≡ Edit.going fit
    pub destined : find_destination spec target (wave_membership target) ≡ Edit.going dest
    pub ends :
        prepare_edited services db stamp ids (edited spec plan target ids dest) ≡ Edit.going p

  moves-going :
      (ids : List ℕ) (e : Edited)
      → prepare_moves services db stamp plan spec ids e ≡ Edit.going p
      → prepare_edited services db stamp ids e ≡ Edit.going p
  unfolding prepare_moves
  moves-going ids e h =
      let (some_move, told, rest) =
        then_edit-going (ensure (non_empty e.moves) (EditError.no_change e.dest)) _ p h in
      rest

  members-Prepared :
      (ids : List ℕ) (target : Plan)
      → find_target db.plans plan spec ≡ Edit.going target
      → prepare_members services db stamp plan spec ids target ≡ Edit.going p
      → Prepared ids
  unfolding prepare_members
  members-Prepared ids target targeted h =
      let (fit, checked, h') =
        then_edit-going
          (check_members spec.operation plan.id (wave_of (wave_membership plan)) db.vms ids) _ p
          h in
      let (dest, destined, rest) =
        then_edit-going (find_destination spec target (wave_membership target)) _ p h' in
      record {
        target = target;
        fit = fit;
        dest = dest;
        targeted = targeted;
        checked = checked;
        destined = destined;
        ends = moves-going ids (edited spec plan target ids dest) rest;
      }

  target-Prepared :
      (ids : List ℕ) (target : Plan)
      → find_target db.plans plan spec ≡ Edit.going target
      → prepare_target services db stamp plan spec ids target ≡ Edit.going p
      → Prepared ids
  unfolding prepare_target
  target-Prepared ids target targeted h =
      let missing = filter_by (λ vid. not (contains (vm_ids_of db.vms) vid)) ids in
      let (told, has, h') =
        then_edit-going (ensure (has_target spec) EditError.needs_target_wave) _ p h in
      let (known, all, rest) =
        then_edit-going (ensure (not (non_empty missing)) (EditError.unknown_vms missing)) _ p h' in
      members-Prepared ids target targeted rest

  ids-Prepared :
      (ids : List ℕ) → prepare_ids services db stamp plan spec ids ≡ Edit.going p → Prepared ids
  unfolding prepare_ids
  ids-Prepared ids h =
      let (asked, has, h') = then_edit-going (ensure (non_empty ids) EditError.no_vms) _ p h in
      let (editable, complete, h'') =
        then_edit-going
          (ensure (is_complete plan) (EditError.plan_not_editable plan.id plan.status)) _ p h' in
      let (target, targeted, rest) = then_edit-going (find_target db.plans plan spec) _ p h'' in
      target-Prepared ids target targeted rest

  pub prepare-Prepared :
      prepare services db stamp plan spec ≡ Edit.going p → Prepared (from_keys spec.vm_ids)
  unfolding prepare
  prepare-Prepared h =
      let (valid, known, rest) =
        then_edit-going
          (ensure (is_operation spec.operation) (EditError.bad_operation spec.operation)) _ p h in
      ids-Prepared (from_keys spec.vm_ids) rest
