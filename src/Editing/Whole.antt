-- ===== src/Editing/Whole.antt =====
-- `_rebuild_plan` of backend/app/core/plan_edit.py on the layout of an edit.
use virtvalidation.Base.{
  ℕ, ◌≡◌, sym, ap, ◌∙◌, subst, true, Option, List, [], ◌∷◌, arith, leb, nat_Eq, option_Eq, list_Eq,
  ==-refl, All, All-imp,
}
use virtvalidation.Base.Dicts.{IsKeyed, Dict, get_default}
use virtvalidation.Base.Sorting.{sorted, sorted-All}
use mathlib.Core.List.{Perm}
use virtvalidation.Base.Distinct.{contains, Distinct}
use virtvalidation.Base.Keys.{keys}
use virtvalidation.Base.Rearranged.{collect}
use virtvalidation.Family.Split.{Names}
use virtvalidation.Preclassifier.Source.{vm_ids_of}
use virtvalidation.Constraints.{Violation}
use virtvalidation.Editing.{Edit, Plan}
use virtvalidation.Editing.Waves.{wave_membership, drop_empty}
use virtvalidation.Editing.Checks.{Services, Tables}
use virtvalidation.Editing.Docs.{Stamp}
use virtvalidation.Editing.Rebuild.{PlanChange, ids_of_docs, rebuild_plan}
use virtvalidation.Editing.Request.{Edited, before_of, after_of, layout_at}
use virtvalidation.Editing.Prepare.{rebuilding}
use virtvalidation.Editing.Rebuilt.{AllInTable, IsSound, rebuild_plan-IsWhole}
use virtvalidation.Editing.Sound.{
  ids_in_waves, drop_empty-filled, wave-Distinct, wave-All, untouched, previous-ids,
}
use virtvalidation.Editing.Keyed.{drop_empty-IsKeyed, ids_in_waves-keys, ids_in_waves-drop_empty}

All-contains :
    (xs whole : List ℕ)
    → ((a : ℕ) → contains xs a ≡ true → contains whole a ≡ true)
    → All (λ x. contains whole x ≡ true) xs
All-contains [] whole h = tt
All-contains (x ∷ xs) whole h =
    (h x (ground (arith, ==-refl x)), All-contains xs whole (λ a k. h a (ground (arith, k))))

-- A plan whose rebuild can go ahead: its membership is the one of before, no wave number is stored
-- twice, and the VMs that stay differ and have rows.
pub record IsFit (db : Tables) (e : Edited) (p : Plan) : Type 0 where
  pub own : before_of e p.id ≡ wave_membership p
  pub keyed : IsKeyed (get_default p.id [] e.arranged)
  pub distinct : Distinct (ids_in_waves (get_default p.id [] e.arranged))
  pub known : AllInTable db.vms (ids_in_waves (get_default p.id [] e.arranged))

module _ (services : Services) (db : Tables) (names : Names) (e : Edited) (stamp : Stamp) (p : Plan)
    (fit : IsFit db e p) where
  wave-IsSound :
      (n : ℕ)
      → contains (keys (after_of e p.id)) n ≡ true
      → IsSound (rebuilding services db names e stamp p) n
  unfolding rebuilding layout_at
  wave-IsSound n here =
      let moved = get_default p.id [] e.arranged in
      let same = ids_in_waves-drop_empty moved in
      record {
        filled = drop_empty-filled moved n here;
        distinct =
            wave-Distinct (drop_empty moved) n (subst (λ z. Distinct z) (sym same) fit.distinct);
        known =
            wave-All (λ vid. contains (vm_ids_of db.vms) vid ≡ true) (drop_empty moved) n
              (subst (λ z. AllInTable db.vms z) (sym same) fit.known);
        kept = λ h.
            let (was, equal) = untouched (before_of e p.id) moved n here h in
            let (w, found, ids) =
              previous-ids p n (subst (λ z. contains (keys z) n ≡ true) fit.own was) in
            (w, found, ids ∙ ap (λ z. get_default n [] z) (sym fit.own) ∙ sym equal);
      }

  -- If the membership in front of the edit is the plan's, no wave number is stored twice behind it,
  -- and the VMs that stay in the plan differ and have rows in the inventory: the rebuild of the plan
  -- returns a change, whose VMs are those of its documents and, in some order, those that the moves
  -- leave in the plan.
  pub rebuild_plan-of_fit :
      (vcenters : Dict ℕ (Option ℕ)) (removed : List ℕ)
      → (c : PlanChange) × (found : List Violation) × (rebuild_plan
            (rebuilding services db names e stamp p)
            names
            vcenters
            removed
          ≡ Edit.going (c, found))
        × (c.vm_ids ≡ ids_of_docs c.waves)
        × Perm c.vm_ids (ids_in_waves (get_default p.id [] e.arranged))
  unfolding rebuilding
  rebuild_plan-of_fit vcenters removed =
      let r = rebuilding services db names e stamp p in
      let moved = get_default p.id [] e.arranged in
      let after = drop_empty moved in
      let sound : All (IsSound r) (sorted leb (keys after)) =
        sorted-All leb (IsSound r) (keys after)
          (All-imp (keys after) wave-IsSound (All-contains (keys after) (keys after) (λ a h. h))) in
      let same : collect (λ n. get_default n [] after) (keys after) ≡ ids_in_waves moved =
        ids_in_waves-keys after (drop_empty-IsKeyed moved fit.keyed)
        ∙ ids_in_waves-drop_empty moved in
      let (c, found, going, vms, perm) =
        rebuild_plan-IsWhole r names vcenters removed sound
          (subst (λ z. Distinct z) (sym same) fit.distinct) in
      (c, found, going, vms, subst (λ z. Perm c.vm_ids z) same perm)
