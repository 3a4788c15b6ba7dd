-- ===== src/Planner/Lookup.antt =====
-- Stage 5 of `plan_with_groups`: the lookups by group id, and the verification.
use virtvalidation.Base.{
  ℕ, ◌≤◌, ◌≡◌, refl, ◌∙◌, subst, inl, inr, Bool, true, false, ◌||◌, Option, none, some, List, [],
  ◌∷◌, ◌++◌, map, arith, leb, Bool-cases, ◌==◌, nat_Eq, option_Eq, list_Eq, ==→eq, ==-refl, length,
  All, length-perm,
}
use virtvalidation.Base.Dicts.{Dict, get}
use virtvalidation.Base.Texts.{Text}
use virtvalidation.Base.Sorting.{sorted-perm}
use virtvalidation.Group.{VmGroup, group_id, ids_of, ids_of-append}
use virtvalidation.Base.Distinct.{contains, Distinct, Distinct-append_left, Distinct-append_right}
use virtvalidation.Skeleton.Wave.{Wave, vm_count, sum_vm_counts-eq}
use virtvalidation.Skeleton.Assign.{groups_of}
use virtvalidation.Preclassifier.Merge.{id_set}
use virtvalidation.Preclassifier.Formed.{id_set-of_Distinct}
use virtvalidation.Planner.{
  Planned, missing_from, ExpandedWave, looked_up_ids, expanded_wave, expand_waves, see_ids,
  expanded_ids, verify_expanded_plan,
}
use mathlib.Core.List.{Perm}
use mathlib.Core.List.Perm

abbrev has_ids : Option VmGroup → List ℕ → Bool
has_ids none ids = false
has_ids (some h) ids = h.vm_ids == ids

-- The id of the group finds a group with the VM ids of the group.
unfoldable pub finds : Dict Text VmGroup → VmGroup → Bool
finds by_id g = has_ids (get (group_id g) by_id) g.vm_ids

pub finds-get :
    (by_id : Dict Text VmGroup) (g : VmGroup)
    → get (group_id g) by_id ≡ some g
    → finds by_id g ≡ true
unfolding finds
finds-get by_id g h = rw h (==-refl g.vm_ids)

looked_up :
    (by_id : Dict Text VmGroup) (g : VmGroup)
    → finds by_id g ≡ true
    → (h : VmGroup) × (get (group_id g) by_id ≡ some h) × (h.vm_ids ≡ g.vm_ids)
unfolding finds
looked_up by_id g found = go (get (group_id g) by_id) found
  where
    go :
        (o : Option VmGroup)
        → has_ids o g.vm_ids ≡ true
        → (h : VmGroup) × (o ≡ some h) × (h.vm_ids ≡ g.vm_ids)
    go none e = absurd (cc)
    go (some h) e = (h, refl, ==→eq h.vm_ids g.vm_ids e)

looked_up_ids-finds :
    (by_id : Dict Text VmGroup) (gs : List VmGroup)
    → All (λ (g : VmGroup). finds by_id g ≡ true) gs
    → looked_up_ids by_id gs ≡ Planned.returned (ids_of gs)
unfolding looked_up_ids ids_of
looked_up_ids-finds by_id [] f = refl
looked_up_ids-finds by_id (g ∷ gs) f =
    let h = looked_up by_id g f.0 in
    rw (h.1, looked_up_ids-finds by_id gs f.1, h.2, looked_up_ids) refl

-- The rows of the waves, if every lookup finds its group.
abbrev pub row_of : Wave → ExpandedWave
row_of w = expanded_wave w (ids_of w.groups)

All-append_split {ℓ κ} :
    {A : Type ℓ} (P : A → Type κ) (xs ys : List A) → All P (xs ++ ys) → All P xs × All P ys
All-append_split P [] ys h = (tt, h)
All-append_split P (x ∷ xs) ys h =
    let parts = All-append_split P xs ys h.1 in ((h.0, parts.0), parts.1)

pub expand_waves-finds :
    (by_id : Dict Text VmGroup) (ws : List Wave)
    → All (λ (g : VmGroup). finds by_id g ≡ true) (groups_of ws)
    → expand_waves by_id ws ≡ Planned.returned (map row_of ws)
unfolding expand_waves
expand_waves-finds by_id [] f = refl
expand_waves-finds by_id (w ∷ ws) f =
    let parts =
      All-append_split (λ (g : VmGroup). finds by_id g ≡ true) w.groups (groups_of ws) f in
    rw
      (
        looked_up_ids-finds by_id w.groups parts.0,
        expand_waves-finds by_id ws parts.1,
        expand_waves,
      )
      refl

pub expanded_ids-perm :
    (ws : List Wave)
    → Distinct (ids_of (groups_of ws))
    → Perm (expanded_ids (map row_of ws)) (ids_of (groups_of ws))
unfolding ids_of
expanded_ids-perm [] d = Perm.refl _
expanded_ids-perm (w ∷ ws) d =
    let ids = ids_of-append w.groups (groups_of ws) in
    let d' : Distinct (ids_of w.groups ++ ids_of (groups_of ws)) = rw ids at d in
    rw (ids, id_set-of_Distinct (ids_of w.groups) (Distinct-append_left _ _ d'))
      (Perm.append (sorted-perm leb (ids_of w.groups))
        (expanded_ids-perm ws (Distinct-append_right (ids_of w.groups) _ d')))

id_set-length : (ids : List ℕ) → length (id_set ids) ≤ length ids
id_set-length [] = omega arith
id_set-length (i ∷ ids) = ground (arith, id_set-length ids)

pub rows-small :
    (max_vms : ℕ) (ws : List Wave)
    → All (λ (w : Wave). vm_count w ≤ max_vms) ws
    → All (λ (r : ExpandedWave). length r.vm_ids ≤ max_vms) (map row_of ws)
unfolding vm_count
rows-small max_vms [] h = tt
rows-small max_vms (w ∷ ws) h = (
  omega (
    arith,
    h.0,
    sum_vm_counts-eq w.groups,
    id_set-length (ids_of w.groups),
    length-perm (sorted-perm leb (id_set (ids_of w.groups))),
  ),
  rows-small max_vms ws h.1,
)

pub missing_from-none :
    (seen provided : List ℕ)
    → ((a : ℕ) → contains provided a ≡ true → contains seen a ≡ true)
    → missing_from seen provided ≡ []
unfolding missing_from
missing_from-none seen [] h = refl
missing_from-none seen (i ∷ provided) h =
    rw (h i (rw (==-refl i) refl))
      (missing_from-none seen provided (λ a there. h a (ground (arith, there))))

-- What the loops have seen behind the ids.
see_ids-Distinct :
    (seen vids : List ℕ)
    → Distinct vids
    → ((a : ℕ) → contains vids a ≡ true → contains seen a ≡ false)
    → (all : List ℕ) × (see_ids seen vids ≡ Planned.returned all)
      × ((a : ℕ) → contains all a ≡ (contains seen a || contains vids a))
unfolding see_ids
see_ids-Distinct seen [] d fresh = (seen, refl, λ a. ground arith)
see_ids-Distinct seen (vid ∷ vids) d fresh =
    let r = see_ids-Distinct (vid ∷ seen) vids d.1 (λ a there. later a there) in
    (r.0, rw (fresh vid (rw (==-refl vid) refl)) r.1, λ a. ground (arith, r.2 a))
  where
    later : (a : ℕ) → contains vids a ≡ true → contains (vid ∷ seen) a ≡ false
    later a there = elim (Bool-cases (vid == a)) [
      | inl same ↦
          absurd (clash (subst (λ z. contains vids z ≡ false) (==→eq vid a same) d.0) there)
      | inr other ↦ ground (arith, other, fresh a)
    ]
      where
        clash : {b : Bool} → b ≡ false → b ≡ true → ⊥
        clash h k = cc

-- Rows that hold the ids provided, each once, pass the verification.
pub verify_expanded_plan-returned :
    (provided : List ℕ) (rows : List ExpandedWave)
    → Distinct (expanded_ids rows)
    → ((a : ℕ) → contains provided a ≡ true → contains (expanded_ids rows) a ≡ true)
    → verify_expanded_plan provided rows ≡ Planned.returned rows
unfolding verify_expanded_plan
verify_expanded_plan-returned provided rows d h =
    let r = see_ids-Distinct [] (expanded_ids rows) d (λ a there. refl) in
    rw (r.1, missing_from-none r.0 provided (λ a there. r.2 a ∙ h a there), verify_expanded_plan)
      refl
