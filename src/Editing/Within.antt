-- ===== src/Editing/Within.antt =====
-- An edit inside one plan (backend/app/core/plan_edit.py): its layout and its destination.
use virtvalidation.Base.{
  ℕ, ◌≡◌, refl, sym, ap, ◌∙◌, inl, inr, Bool, true, false, Option, some, List, [], arith,
  Option-cases, nat_Eq, option_Eq, list_Eq, ==-refl, any_by, All-perm,
}
use virtvalidation.Base.Dicts.{get_default}
use mathlib.Core.List.{Perm}
use mathlib.Core.List.Perm
use virtvalidation.Base.Distinct.{Distinct-perm, contains, Distinct}
use virtvalidation.Family.Split.{Names}
use virtvalidation.Preclassifier.Source.{SourceVm, vm_ids_of}
use virtvalidation.Editing.{is_add, is_remove, EditSpec, Edit, then_edit, ensure, Plan, Membership}
use virtvalidation.Editing.Waves.{wave_membership, wave_of}
use virtvalidation.Editing.Moved.{times}
use virtvalidation.Editing.Kept.{memberships-own, edited-times}
use virtvalidation.Editing.Checks.{Services, Tables, blocking, plan_violation}
use virtvalidation.Editing.Request.{
  check_members, before_of, memberships, find_destination, Edited, edited, after_of,
}
use virtvalidation.Editing.Violations.{empty_violations, edit_violations, has_severity}
use virtvalidation.Editing.Rebuilt.{AllInTable}
use virtvalidation.Editing.Sound.{ids_in_waves}
use virtvalidation.Editing.Keyed.{arranged-IsKeyed}
use virtvalidation.Editing.Whole.{IsFit}
use virtvalidation.Editing.Alone.{perm_of_times, IsAlone, move_vms-IsAlone, IsAlone-times}

-- A move inside a plan: the VMs behind it are those of before, in some order.
pub arranged-perm :
    (spec : EditSpec) (plan : Plan) (vms : List SourceVm) (ids : List ℕ) (n : ℕ) (b : Bool)
    → Distinct ids
    → is_add spec.operation ≡ false
    → check_members spec.operation plan.id (wave_of (wave_membership plan)) vms ids ≡ Edit.going b
    → Distinct (ids_in_waves (wave_membership plan))
    → Perm
        (ids_in_waves (get_default plan.id [] (edited spec plan plan ids (some n)).arranged))
        (ids_in_waves (wave_membership plan))
unfolding edited memberships
arranged-perm spec plan vms ids n b d plain checked distinct =
    let e = edited spec plan plan ids (some n) in
    let own = memberships-own plan plan in
    let alone : IsAlone plan.id e.before = (wave_membership plan, rw (==-refl plan.id) refl) in
    let moved = move_vms-IsAlone e.moving ids e.before refl alone in
    perm_of_times (ids_in_waves (get_default plan.id [] e.arranged))
      (ids_in_waves (wave_membership plan))
      (λ a.
        sym (IsAlone-times a plan.id e.arranged moved)
        ∙ edited-times spec plan plan vms ids n b d plain checked a
        ∙ IsAlone-times a plan.id e.before alone
        ∙ ap (λ z. times a (ids_in_waves z)) own)
      distinct

edited-own :
    (spec : EditSpec) (plan : Plan) (ids : List ℕ) (n : ℕ)
    → before_of (edited spec plan plan ids (some n)) plan.id ≡ wave_membership plan
unfolding edited
edited-own spec plan ids n = memberships-own plan plan

pub arranged-IsFit :
    (db : Tables) (spec : EditSpec) (plan : Plan) (ids : List ℕ) (n : ℕ)
    → Distinct (ids_in_waves (wave_membership plan))
    → AllInTable db.vms (ids_in_waves (wave_membership plan))
    → Perm
        (ids_in_waves (get_default plan.id [] (edited spec plan plan ids (some n)).arranged))
        (ids_in_waves (wave_membership plan))
    → IsFit db (edited spec plan plan ids (some n)) plan
arranged-IsFit db spec plan ids n distinct known p = record {
  own = edited-own spec plan ids n;
  keyed = arranged-IsKeyed spec plan plan ids (some n) plan.id;
  distinct = Distinct-perm _ _ (Perm.symm p) distinct;
  known =
      All-perm (λ vid. contains (vm_ids_of db.vms) vid ≡ true) (λ vid. hlevel) (Perm.symm p) known;
}

pub destination-some :
    (spec : EditSpec) (target : Plan) (waves : Membership) (dest : Option ℕ)
    → is_remove spec.operation ≡ false
    → find_destination spec target waves ≡ Edit.going dest
    → (n : ℕ) × (dest ≡ some n)
unfolding find_destination then_edit ensure
destination-some spec target waves dest stays_in h = elim (Option-cases dest) [
  | inr found ↦ found
  | inl nowhere ↦ absurd (ground (arith, stays_in, nowhere, h))
]

-- No VM left is a violation that blocks.
pub empty-blocks :
    (services : Services) (db : Tables) (names : Names) (e : Edited)
    → after_of e e.plan.id ≡ []
    → any_by (has_severity blocking) (edit_violations services db names e) ≡ true
unfolding edit_violations empty_violations plan_violation
empty-blocks services db names e h = rw h refl
