-- ===== src/Editing/Rebuilt.antt =====
-- `_rebuild_plan` of backend/app/core/plan_edit.py: its loop and its last check.
use virtvalidation.Base.{
  List-cases, ℕ, ◌≡◌, refl, sym, ◌∙◌, subst, inl, inr, true, false, Option, none, some, List, [],
  ◌∷◌, ◌++◌, map, arith, leb, Bool-cases, ◌==◌, nat_Eq, option_Eq, list_Eq, ==→eq, ==-refl, length,
  All,
}
use virtvalidation.Base.Dicts.{Dict, get, get_default}
use virtvalidation.Base.Sorting.{sorted, sorted-perm}
use mathlib.Core.List.{Perm}
use mathlib.Core.List.Perm
use virtvalidation.Base.Distinct.{contains, Distinct, Distinct-perm, without-absent}
use virtvalidation.Base.Keys.{keys}
use virtvalidation.Base.Rearranged.{collect, collect-perm}
use virtvalidation.Family.Split.{Names}
use virtvalidation.Preclassifier.Source.{SourceVm, vm_ids_of, non_empty}
use virtvalidation.Preclassifier.Classify.{classify}
use virtvalidation.Preclassifier.Result.{classify-perm}
use virtvalidation.Skeleton.Assign.{ids_of-perm}
use virtvalidation.Skeleton.Wave.{Wave, wave_vm_ids, build_wave, priority_le}
use virtvalidation.Concurrency.{assign_concurrency_groups}
use virtvalidation.Constraints.{Violation}
use virtvalidation.Partitions.{find_vm}
use virtvalidation.Editing.{Edit, then_edit, ensure, WaveDoc}
use virtvalidation.Editing.Checks.{from_keys}
use virtvalidation.Editing.Docs.{classify_wave, build_wave_doc}
use virtvalidation.Editing.Rebuild.{
  shell_of, color_docs, recolor, rows_of, Rebuilding, Rebuilt, rebuild_touched, keep_doc,
  rebuild_waves, PlanChange, ids_of_docs, change_of, finish_rebuild, rebuild_plan,
}

-- Every id has a row in the table.
abbrev pub AllInTable : List SourceVm → List ℕ → Type 0
AllInTable table ids = All (λ vid. contains (vm_ids_of table) vid ≡ true) ids

find_vm-id :
    (vid : ℕ) (table : List SourceVm)
    → contains (vm_ids_of table) vid ≡ true
    → (v : SourceVm) × (find_vm vid table ≡ some v) × (v.id ≡ vid)
unfolding find_vm
find_vm-id vid [] h = absurd (cc)
find_vm-id vid (v ∷ vms) h = elim (Bool-cases (v.id == vid)) [
  | inl same ↦ (v, rw same, ==→eq v.id vid same)
  | inr other ↦ rw other (find_vm-id vid vms (ground (arith, h, other)))
]

pub rows_of-ids :
    (table : List SourceVm) (ids : List ℕ)
    → AllInTable table ids
    → vm_ids_of (rows_of table ids) ≡ ids
unfolding rows_of
rows_of-ids table [] h = refl
rows_of-ids table (vid ∷ ids) h =
    let (v, found, same) = find_vm-id vid table h.0 in rw (found, same, rows_of-ids table ids h.1)

classify_wave-perm :
    (number : ℕ) (vms : List SourceVm)
    → Distinct (vm_ids_of vms)
    → Perm (wave_vm_ids (classify_wave number vms)) (vm_ids_of vms)
unfolding classify_wave build_wave wave_vm_ids
classify_wave-perm number vms d =
    Perm.trans (ids_of-perm _ _ (sorted-perm priority_le (classify none vms)))
      (classify-perm none vms d)

-- `color_docs` changes no ids.
ids_of-color_docs :
    (f : Wave → Wave) (vcenters : Dict ℕ (Option ℕ)) (docs : List WaveDoc)
    → ids_of_docs (color_docs docs (map f (map (shell_of vcenters) docs))) ≡ ids_of_docs docs
ids_of-color_docs f vcenters [] = refl
ids_of-color_docs f vcenters (w ∷ ws) = rw (ids_of-color_docs f vcenters ws)

ids_of-recolor :
    (names : Names) (vcenters : Dict ℕ (Option ℕ)) (docs : List WaveDoc)
    → ids_of_docs (recolor names vcenters docs) ≡ ids_of_docs docs
unfolding recolor assign_concurrency_groups
ids_of-recolor names vcenters docs = ids_of-color_docs _ vcenters docs

keep_doc-ids : (r : Rebuilding) (number : ℕ) (w : WaveDoc) → (keep_doc r number w).vm_ids ≡ w.vm_ids
unfolding keep_doc
keep_doc-ids r number w = ground arith

from_keys-Distinct : (ids : List ℕ) → Distinct ids → from_keys ids ≡ ids
unfolding from_keys
from_keys-Distinct [] d = refl
from_keys-Distinct (x ∷ xs) d = rw (from_keys-Distinct xs d.1, without-absent x xs d.0)

-- What the loop relies on for one wave of the layout.
pub record IsSound (r : Rebuilding) (n : ℕ) : Type 0 where
  pub filled : non_empty (get_default n [] r.after) ≡ true
  pub distinct : Distinct (get_default n [] r.after)
  pub known : AllInTable r.table (get_default n [] r.after)
  pub kept :
      contains r.touched n ≡ false
      → (w : WaveDoc) × (get n r.previous ≡ some w) × (w.vm_ids ≡ get_default n [] r.after)

-- The VMs of some waves of the layout.
abbrev pub ids_at : Rebuilding → List ℕ → List ℕ
ids_at r numbers = collect (λ n. get_default n [] r.after) numbers

-- The loop returns, no wave is removed, and the documents hold the VMs.
abbrev IsRebuilt : Rebuilding → List ℕ → Type 0
IsRebuilt r numbers =
    (rebuilt : Rebuilt) × (rebuild_waves r numbers ≡ some rebuilt)
    × (rebuilt.removed ≡ [])
    × Perm (ids_of_docs rebuilt.docs) (ids_at r numbers)

touched-IsRebuilt :
    (r : Rebuilding) (n : ℕ) (numbers : List ℕ)
    → IsSound r n
    → contains r.touched n ≡ true
    → IsRebuilt r numbers
    → IsRebuilt r (n ∷ numbers)
unfolding rebuild_waves rebuild_touched build_wave_doc
touched-IsRebuilt r n numbers sound touched (rest, e, none_gone, p) =
    let ids = get_default n [] r.after in
    let same = rows_of-ids r.table ids sound.known in
    elim (List-cases (rows_of r.table ids)) [
      | inl empty ↦ absurd (ground (arith, same, empty, sound.filled))
      | inr (v, vms, some_rows) ↦
          let rows : vm_ids_of (v ∷ vms) ≡ ids = subst (λ z. vm_ids_of z ≡ ids) some_rows same in
          let here : Perm (wave_vm_ids (classify_wave n (v ∷ vms))) ids =
            subst (λ z. Perm (wave_vm_ids (classify_wave n (v ∷ vms))) z) rows
              (classify_wave-perm n (v ∷ vms)
                (subst (λ z. Distinct z) (sym rows) sound.distinct)) in
          let doc = rebuild_touched r n (v ∷ vms) in
          let next : Rebuilt = record rest {
            docs = doc.0 ∷ rest.docs;
            violations = doc.1 ++ rest.violations;
          } in
          (next, rw (e, touched, some_rows) refl, none_gone, Perm.append here p)
    ]

kept-IsRebuilt :
    (r : Rebuilding) (n : ℕ) (numbers : List ℕ)
    → IsSound r n
    → contains r.touched n ≡ false
    → IsRebuilt r numbers
    → IsRebuilt r (n ∷ numbers)
unfolding rebuild_waves
kept-IsRebuilt r n numbers sound untouched (rest, e, none_gone, p) =
    let (w, found, same) = sound.kept untouched in
    let next : Rebuilt = record rest { docs = keep_doc r n w ∷ rest.docs } in
    (
      next,
      rw (e, untouched, found) refl,
      none_gone,
      rw (keep_doc-ids r n w, same) (Perm.append_left (get_default n [] r.after) p),
    )

rebuild_waves-IsRebuilt :
    (r : Rebuilding) (numbers : List ℕ) → All (IsSound r) numbers → IsRebuilt r numbers
unfolding rebuild_waves
rebuild_waves-IsRebuilt r [] h =
    (record { docs = []; violations = []; removed = [] }, refl, refl, Perm.refl _)
rebuild_waves-IsRebuilt r (n ∷ numbers) h = elim (Bool-cases (contains r.touched n)) [
  | inl touched ↦ touched-IsRebuilt r n numbers h.0 touched (rebuild_waves-IsRebuilt r numbers h.1)
  | inr untouched ↦ kept-IsRebuilt r n numbers h.0 untouched (rebuild_waves-IsRebuilt r numbers h.1)
]

-- A rebuild that returns a change with the VMs of some waves of the layout.
abbrev pub IsWhole : Rebuilding → Names → Dict ℕ (Option ℕ) → List ℕ → List ℕ → Type 0
IsWhole r names vcenters removed numbers =
    (c : PlanChange) × (found : List Violation) × (rebuild_plan r names vcenters removed
      ≡ Edit.going (c, found))
    × (c.vm_ids ≡ ids_of_docs c.waves)
    × Perm c.vm_ids (ids_at r numbers)

finish_rebuild-going :
    (r : Rebuilding) (names : Names) (vcenters : Dict ℕ (Option ℕ)) (removed : List ℕ)
    (rebuilt : Rebuilt)
    → Distinct (ids_of_docs (recolor names vcenters rebuilt.docs))
    → finish_rebuild r names vcenters removed rebuilt
      ≡ Edit.going (
        change_of r (removed ++ rebuilt.removed) (recolor names vcenters rebuilt.docs),
        rebuilt.violations,
      )
unfolding finish_rebuild then_edit ensure
finish_rebuild-going r names vcenters removed rebuilt d =
    let ids = ids_of_docs (recolor names vcenters rebuilt.docs) in
    rw (from_keys-Distinct ids d, ==-refl (length ids)) refl

rebuild_plan-finish :
    (r : Rebuilding) (names : Names) (vcenters : Dict ℕ (Option ℕ)) (removed : List ℕ)
    (rebuilt : Rebuilt)
    → rebuild_waves r (sorted leb (keys r.after)) ≡ some rebuilt
    → rebuild_plan r names vcenters removed ≡ finish_rebuild r names vcenters removed rebuilt
unfolding rebuild_plan
rebuild_plan-finish r names vcenters removed rebuilt e = rw (rebuild_plan, e) refl

-- Enough for a rebuild: every wave of the layout is sound, and no VM stands in two of them.
pub rebuild_plan-IsWhole :
    (r : Rebuilding) (names : Names) (vcenters : Dict ℕ (Option ℕ)) (removed : List ℕ)
    → All (IsSound r) (sorted leb (keys r.after))
    → Distinct (ids_at r (keys r.after))
    → IsWhole r names vcenters removed (keys r.after)
unfolding rebuild_plan change_of
rebuild_plan-IsWhole r names vcenters removed sound d =
    let numbers = sorted leb (keys r.after) in
    let order = collect-perm (λ n. get_default n [] r.after) (sorted-perm leb (keys r.after)) in
    let (rebuilt, e, none_gone, p) = rebuild_waves-IsRebuilt r numbers sound in
    let docs = recolor names vcenters rebuilt.docs in
    let same : ids_of_docs docs ≡ ids_of_docs rebuilt.docs =
      ids_of-recolor names vcenters rebuilt.docs in
    let whole : Perm (ids_of_docs docs) (ids_at r (keys r.after)) = rw same (Perm.trans p order) in
    let distinct = Distinct-perm _ _ (Perm.symm whole) d in
    (
      change_of r (removed ++ rebuilt.removed) docs,
      rebuilt.violations,
      rebuild_plan-finish r names vcenters removed rebuilt e
          ∙ finish_rebuild-going r names vcenters removed rebuilt distinct,
      refl,
      whole,
    )
