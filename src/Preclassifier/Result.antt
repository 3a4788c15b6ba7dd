-- ===== src/Preclassifier/Result.antt =====
-- What `PreClassifier.classify` returns.
use virtvalidation.Base.{
  ◌≡◌, refl, sym, ap, ◌∙◌, inl, inr, Bool, true, false, not, none, List, [], ◌∷◌, map, arith,
  Bool-cases, ◌==◌, nat_Eq, option_Eq, list_Eq, ==-refl, All, All-append, All-imp, All-map,
  filter_by,
}
use virtvalidation.Base.Dicts.{Dict, push}
use virtvalidation.Base.Texts.{Text, codes}
use virtvalidation.Base.Sorting.{sorted, sorted-perm}
use virtvalidation.Group.{VmGroup, group_id, ids_of}
use virtvalidation.Base.Distinct.{contains, contains-perm, Distinct, Distinct-perm}
use virtvalidation.Base.Buckets.{
  in_buckets, bucket_by-perm, bucket_by-All, push-All, get_default-All, filter_by-All,
}
use virtvalidation.Skeleton.Assign.{ids_of-perm}
use virtvalidation.Base.Sorting.{sorted-All}
use virtvalidation.Base.{All-always, All-zip}
use virtvalidation.Preclassifier.Source.{SourceVm, primary_key, primary_key_Eq, vm_ids_of}
use virtvalidation.Preclassifier.Merge.{Cap, consolidate}
use virtvalidation.Preclassifier.Classify.{
  primary_buckets, classify_buckets, ids_by_role, hints_for, set_hints, add_dependency_hints,
  group_le, classify,
}
use virtvalidation.Preclassifier.Consolidated.{consolidate-ids}
use virtvalidation.Preclassifier.Whole.{IsPure, classify_buckets-ids, classify_buckets-IsPure}
use mathlib.Core.List.Perm
use mathlib.Core.List.{Perm}

primary_buckets-ids :
    (vms : List SourceVm) → Perm (vm_ids_of (in_buckets (primary_buckets vms))) (vm_ids_of vms)
unfolding primary_buckets
primary_buckets-ids vms = Perm.map (λ (v : SourceVm). v.id) (bucket_by-perm primary_key [] vms)

ids_of-hints :
    (by_role : Dict Text (List Text)) (gs : List VmGroup)
    → ids_of (map (set_hints by_role) gs) ≡ ids_of gs
unfolding set_hints ids_of
ids_of-hints by_role [] = refl
ids_of-hints by_role (g ∷ gs) = rw (ids_of-hints by_role gs)

-- If the VMs have different ids, then under every cap the groups hold every VM, each in one group
-- and once.
pub classify-perm :
    (cap : Cap) (vms : List SourceVm)
    → Distinct (vm_ids_of vms)
    → Perm (ids_of (classify cap vms)) (vm_ids_of vms)
unfolding classify add_dependency_hints
classify-perm cap vms d =
    let buckets = primary_buckets vms in
    let groups = classify_buckets cap buckets in
    let merged = consolidate cap groups in
    let d' = Distinct-perm _ _ (Perm.symm (primary_buckets-ids vms)) d in
    let p = classify_buckets-ids cap buckets d' in
    let hinted = map (set_hints (ids_by_role [] merged)) merged in
    let same : Perm (ids_of hinted) (ids_of merged) =
      rw (ids_of-hints (ids_by_role [] merged) merged) (Perm.refl _) in
    Perm.trans (ids_of-perm _ _ (sorted-perm group_le hinted)) (
      Perm.trans same (
        Perm.trans (consolidate-ids cap groups (Distinct-perm _ _ (Perm.symm p) d'))
          (Perm.trans p (primary_buckets-ids vms))))

set_hints-IsPure :
    (Q : SourceVm → Type 0) (by_role : Dict Text (List Text)) (g : VmGroup)
    → IsPure Q g
    → IsPure Q (set_hints by_role g)
unfolding set_hints
set_hints-IsPure Q by_role g f = record { keyed = f.keyed; vms = f.vms; ids = f.ids; from = f.from }

-- If the VMs have different ids and `Q` holds of them, then without a cap on the number of groups
-- the ids of every group are those of VMs of which `Q` holds and that have the vCenter, the target
-- cluster, the target namespace and the environment of the group.
pub classify-IsPure :
    (Q : SourceVm → Type 0) (vms : List SourceVm)
    → Distinct (vm_ids_of vms)
    → All Q vms
    → All (IsPure Q) (classify none vms)
unfolding classify add_dependency_hints consolidate primary_buckets
classify-IsPure Q vms d q =
    let buckets = primary_buckets vms in
    let groups = classify_buckets none buckets in
    let d' = Distinct-perm _ _ (Perm.symm (primary_buckets-ids vms)) d in
    let pure =
      classify_buckets-IsPure none Q buckets d' (bucket_by-All primary_key Q [] vms tt q) in
    sorted-All group_le (IsPure Q) _ (
      All-map (IsPure Q) (set_hints (ids_by_role [] groups)) groups
        (All-imp groups (λ g f. set_hints-IsPure Q (ids_by_role [] groups) g f) pure))

ids_by_role-All :
    (P : Text → Type 0) (by_role : Dict Text (List Text)) (gs : List VmGroup)
    → All (λ (e : Text × List Text). All P e.1) by_role
    → All (λ (g : VmGroup). P (group_id g)) gs
    → All (λ (e : Text × List Text). All P e.1) (ids_by_role by_role gs)
unfolding ids_by_role
ids_by_role-All P by_role [] h q = h
ids_by_role-All P by_role (g ∷ gs) h q =
    ids_by_role-All P (push g.estimated_role (group_id g) by_role) gs
      (push-All P g.estimated_role (group_id g) by_role q.0 h) q.1

hints_for-All :
    (P : Text → Type 0) (by_role : Dict Text (List Text)) (role : Text)
    → All (λ (e : Text × List Text). All P e.1) by_role
    → All P (hints_for by_role role)
unfolding hints_for
hints_for-All P by_role role h =
    let of = λ (r : Text). get_default-All (λ (e : Text × List Text). All P e.1) r by_role tt h in
    elim (Bool-cases (role == codes "app")) [
      | inl app ↦ rw app (All-append P _ _ (of (codes "data")) (of (codes "infrastructure")))
      | inr other ↦ elim (Bool-cases (contains (codes "web" ∷ codes "edge" ∷ []) role)) [
        | inl front ↦ rw (other, front) (All-append P _ _ (of (codes "app")) (of (codes "data")))
        | inr rest ↦ rw (other, rest) tt
      ]
    ]

filter_by-kept {ℓ} :
    {A : Type ℓ} (p : A → Bool) (xs : List A) → All (λ x. p x ≡ true) (filter_by p xs)
filter_by-kept p [] = tt
filter_by-kept p (x ∷ xs) = elim (Bool-cases (p x)) [
  | inl kept ↦ rw kept (kept, filter_by-kept p xs)
  | inr dropped ↦ rw dropped (filter_by-kept p xs)
]

-- Every dependency hint of the group is one of the ids, and it is not the id of the group itself.
abbrev pub HasKnownHints : List Text → VmGroup → Type 0
HasKnownHints ids g =
    All (λ (h : Text). (contains ids h ≡ true) × ((h == group_id g) ≡ false)) g.dependency_hints

set_hints-HasKnownHints :
    (ids : List Text) (by_role : Dict Text (List Text)) (g : VmGroup)
    → All (λ (e : Text × List Text). All (λ h. contains ids h ≡ true) e.1) by_role
    → HasKnownHints ids (set_hints by_role g)
unfolding set_hints group_id
set_hints-HasKnownHints ids by_role g h =
    let hints = hints_for by_role g.estimated_role in
    let other : Text → Bool = λ t. not (t == group_id g) in
    let known =
      filter_by-All (λ (t : Text). contains ids t ≡ true) other hints
        (hints_for-All (λ (t : Text). contains ids t ≡ true) by_role g.estimated_role h) in
    All-zip (λ (t : Text). contains ids t ≡ true) (λ (t : Text). (t == group_id g) ≡ false) _ known
      (All-imp _ (λ t e. ground (arith, e)) (filter_by-kept other hints))

group_ids-hints :
    (by_role : Dict Text (List Text)) (gs : List VmGroup)
    → map group_id (map (set_hints by_role) gs) ≡ map group_id gs
unfolding set_hints group_id
group_ids-hints by_role [] = refl
group_ids-hints by_role (g ∷ gs) = rw (group_ids-hints by_role gs)

All-contains : (ids : List Text) → All (λ t. contains ids t ≡ true) ids
All-contains [] = tt
All-contains (i ∷ ids) =
    (rw (==-refl i) refl, All-imp ids (λ t there. ground (arith, there)) (All-contains ids))

All-of_map :
    (P : Text → Type 0) (gs : List VmGroup)
    → All P (map group_id gs)
    → All (λ (g : VmGroup). P (group_id g)) gs
All-of_map P [] h = tt
All-of_map P (g ∷ gs) h = (h.0, All-of_map P gs h.1)

-- The dependency hints of every group that comes out are ids of groups that come out, and none is
-- the id of the group itself.
pub classify-HasKnownHints :
    (cap : Cap) (vms : List SourceVm)
    → All (HasKnownHints (map group_id (classify cap vms))) (classify cap vms)
unfolding classify add_dependency_hints
classify-HasKnownHints cap vms =
    let groups = consolidate cap (classify_buckets cap (primary_buckets vms)) in
    let by_role = ids_by_role [] groups in
    let hinted = map (set_hints by_role) groups in
    let ids = map group_id groups in
    let same : (t : Text) → contains ids t ≡ contains (map group_id (sorted group_le hinted)) t =
      λ t.
        ap (λ l. contains l t) (sym (group_ids-hints by_role groups))
        ∙ contains-perm _ _ t (Perm.map group_id (Perm.symm (sorted-perm group_le hinted))) in
    let entries =
      ids_by_role-All (λ t. contains ids t ≡ true) [] groups tt
        (All-of_map (λ t. contains ids t ≡ true) groups (All-contains ids)) in
    let known : All (HasKnownHints ids) hinted =
      All-map (HasKnownHints ids) (set_hints by_role) groups
        (All-always _ groups (λ g. set_hints-HasKnownHints ids by_role g entries)) in
    All-imp _ (λ g h. All-imp g.dependency_hints (λ t k. (sym (same t) ∙ k.0, k.1)) h)
      (sorted-All group_le (HasKnownHints ids) hinted known)
