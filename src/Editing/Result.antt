-- ===== src/Editing/Result.antt =====
-- `prepare` of backend/app/core/plan_edit.py for a move between the waves of one plan.
use virtvalidation.Base.{
  List-cases, ℕ, ◌≡◌, refl, sym, ap, ◌∙◌, subst, ◌⊎◌, inl, inr, Bool, true, false, Option, some,
  List, [], ◌∷◌, ◌++◌, arith, Bool-cases, nat_Eq, option_Eq, list_Eq, ==-refl, any_by,
}
use virtvalidation.Base.Dicts.{Dict, get_default}
use mathlib.Core.List.{Perm, append-nil}
use mathlib.Core.List.Perm
use virtvalidation.Base.Distinct.{Distinct}
use virtvalidation.Family.Split.{Names}
use virtvalidation.Constraints.{Violation}
use virtvalidation.Editing.{
  Operation, is_add, is_remove, is_move_to_plan, EditSpec, Edit, then_edit, Plan, Membership,
}
use virtvalidation.Editing.Waves.{wave_membership, wave_of}
use virtvalidation.Editing.Checks.{Services, Tables, blocking, from_keys}
use virtvalidation.Editing.Docs.{Stamp}
use virtvalidation.Editing.Rebuild.{PlanChange, rebuild_plan}
use virtvalidation.Editing.Request.{
  check_members, find_target, Edited, edited, after_of, layout_at, plans_of,
}
use virtvalidation.Editing.Violations.{
  edit_violations, has_severity, names_involved, rows_involved, vcenter_by_vm,
}
use virtvalidation.Editing.Prepare.{
  PreparedEdit, prepared, rebuilding, rebuild_plans, prepare_edited, prepare,
}
use virtvalidation.Editing.Rebuilt.{AllInTable}
use virtvalidation.Editing.Sound.{ids_in_waves}
use virtvalidation.Editing.Whole.{IsFit, rebuild_plan-of_fit}
use virtvalidation.Editing.Steps.{prepare-Prepared, from_keys-IsDistinct}
use virtvalidation.Editing.Within.{arranged-perm, arranged-IsFit, destination-some, empty-blocks}

-- What a prepared edit of one plan may be: blocked with no change, or one change that holds the VMs.
abbrev pub IsKept : PreparedEdit → List ℕ → Type 0
IsKept p ids =
    ((p.changes ≡ []) × (any_by (has_severity blocking) p.violations ≡ true))
    ⊎ ((c : PlanChange) × (p.changes ≡ c ∷ []) × Perm c.vm_ids ids)

module _ (services : Services) (db : Tables) (stamp : Stamp) (names : Names) (e : Edited)
    (vcenters : Dict ℕ (Option ℕ)) where
  one_rebuild :
      (w : ℕ × List ℕ) (ws : Membership) (c : PlanChange) (found : List Violation)
      → after_of e e.plan.id ≡ w ∷ ws
      → rebuild_plan
          (rebuilding services db names e stamp e.plan)
          names
          vcenters
          ((layout_at e e.plan.id).removed)
        ≡ Edit.going (c, found)
      → rebuild_plans services db names e stamp vcenters (e.plan ∷ [])
        ≡ Edit.going (c ∷ [], found ++ [])
  unfolding rebuild_plans then_edit
  one_rebuild w ws c found h going = rw (rebuild_plans, h, going) refl

  one_change :
      (w : ℕ × List ℕ) (ws : Membership)
      → IsFit db e e.plan
      → after_of e e.plan.id ≡ w ∷ ws
      → (c : PlanChange) × (found : List Violation) × (rebuild_plans services db names e stamp
            vcenters
            (e.plan ∷ [])
          ≡ Edit.going (c ∷ [], found))
        × Perm c.vm_ids (ids_in_waves (get_default e.plan.id [] e.arranged))
  one_change w ws fit h =
      let (c, found, going, vms, perm) =
        rebuild_plan-of_fit services db names e stamp e.plan fit vcenters
          ((layout_at e e.plan.id).removed) in
      (c, found ++ [], one_rebuild w ws c found h going, perm)

prepare_edited-going :
    (services : Services) (db : Tables) (stamp : Stamp) (ids : List ℕ) (e : Edited)
    (p : PreparedEdit) (rebuilt : List PlanChange × List Violation)
    → any_by (has_severity blocking) (edit_violations services db (names_involved db e ids) e)
      ≡ false
    → rebuild_plans services db
        (names_involved db e ids)
        e
        stamp
        (vcenter_by_vm [] (rows_involved db e ids))
        (plans_of e)
      ≡ Edit.going rebuilt
    → prepare_edited services db stamp ids e ≡ Edit.going p
    → prepared e (edit_violations services db (names_involved db e ids) e) rebuilt ≡ p
unfolding prepare_edited then_edit
prepare_edited-going services db stamp ids e p rebuilt free going h = ground (arith, free, going, h)

edited-IsKept :
    (services : Services) (db : Tables) (stamp : Stamp) (ids : List ℕ) (e : Edited)
    (p : PreparedEdit)
    → plans_of e ≡ e.plan ∷ []
    → IsFit db e e.plan
    → prepare_edited services db stamp ids e ≡ Edit.going p
    → IsKept p (ids_in_waves (get_default e.plan.id [] e.arranged))
unfolding prepare_edited prepared
edited-IsKept services db stamp ids e p alone fit h =
    let names = names_involved db e ids in
    let violations = edit_violations services db names e in
    let vcenters = vcenter_by_vm [] (rows_involved db e ids) in
    elim (Bool-cases (any_by (has_severity blocking) violations)) [
      | inl blocks ↦
          let same : prepared e violations ([], []) ≡ p = ground (arith, blocks, h) in
          subst (λ z. IsKept z (ids_in_waves (get_default e.plan.id [] e.arranged))) same
            (inl (refl, rw (append-nil violations) blocks))
      | inr free ↦ elim (List-cases (after_of e e.plan.id)) [
        | inl empty ↦ absurd (ground (arith, free, empty-blocks services db names e empty))
        | inr (w, ws, held) ↦
            let (c, found, going, perm) =
              one_change services db stamp names e vcenters w ws fit held in
            let same : prepared e violations (c ∷ [], found) ≡ p =
              prepare_edited-going services db stamp ids e p (c ∷ [], found) free
                (ap (λ ps. rebuild_plans services db names e stamp vcenters ps) alone ∙ going) h in
            subst (λ z. IsKept z (ids_in_waves (get_default e.plan.id [] e.arranged))) same
              (inr (c, refl, perm))
      ]
    ]

own_target :
    (plans : List Plan) (plan target : Plan) (spec : EditSpec)
    → is_move_to_plan spec.operation ≡ false
    → find_target plans plan spec ≡ Edit.going target
    → plan ≡ target
unfolding find_target
own_target plans plan target spec inside h = ground (arith, inside, h)

prepared-IsKept :
    (services : Services) (db : Tables) (stamp : Stamp) (plan : Plan) (spec : EditSpec)
    (p : PreparedEdit) (n : ℕ) (b : Bool)
    → is_add spec.operation ≡ false
    → Distinct (ids_in_waves (wave_membership plan))
    → AllInTable db.vms (ids_in_waves (wave_membership plan))
    → check_members spec.operation plan.id
        (wave_of (wave_membership plan))
        db.vms
        (from_keys spec.vm_ids)
      ≡ Edit.going b
    → prepare_edited services db stamp
        (from_keys spec.vm_ids)
        (edited spec plan plan (from_keys spec.vm_ids) (some n))
      ≡ Edit.going p
    → IsKept p (ids_in_waves (wave_membership plan))
unfolding edited
prepared-IsKept services db stamp plan spec p n b plain distinct known checked ends =
    let ids = from_keys spec.vm_ids in
    let e = edited spec plan plan ids (some n) in
    let d = from_keys-IsDistinct spec.vm_ids in
    let perm = arranged-perm spec plan db.vms ids n b d plain checked distinct in
    let fit = arranged-IsFit db spec plan ids n distinct known perm in
    let kept = edited-IsKept services db stamp ids e p (rw (==-refl plan.id) refl) fit ends in
    elim kept [
      | inl blocked ↦ inl blocked
      | inr (c, only, held) ↦ inr (c, only, Perm.trans held perm)
    ]

-- If a move between the waves of a plan is prepared, no VM of the plan stands in two of its waves,
-- and each has a row in the inventory: either a violation blocks the edit and nothing is changed, or
-- there is one change, and its VMs are those of the plan's waves before, in some order. No VM is
-- lost, added or doubled, though the changed waves are classified anew.
pub prepare-IsKept :
    (services : Services) (db : Tables) (stamp : Stamp) (plan : Plan) (spec : EditSpec)
    (p : PreparedEdit)
    → spec.operation ≡ Operation.move_to_wave
    → Distinct (ids_in_waves (wave_membership plan))
    → AllInTable db.vms (ids_in_waves (wave_membership plan))
    → prepare services db stamp plan spec ≡ Edit.going p
    → IsKept p (ids_in_waves (wave_membership plan))
prepare-IsKept services db stamp plan spec p moves distinct known h =
    let s = prepare-Prepared services db stamp plan spec p h in
    let same : plan ≡ s.target =
      own_target db.plans plan s.target spec (ap is_move_to_plan moves) s.targeted in
    let (n, here) =
      destination-some spec s.target (wave_membership s.target) s.dest (ap is_remove moves)
        s.destined in
    prepared-IsKept services db stamp plan spec p n s.fit (ap is_add moves) distinct known s.checked
      (subst
        (λ t.
          prepare_edited services db stamp (from_keys spec.vm_ids)
            (edited spec plan t (from_keys spec.vm_ids) (some n))
          ≡ Edit.going p)
        (sym same)
        (subst
          (λ d.
            prepare_edited services db stamp (from_keys spec.vm_ids)
              (edited spec plan s.target (from_keys spec.vm_ids) d)
            ≡ Edit.going p)
          here s.ends))
