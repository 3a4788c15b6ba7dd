-- ===== src/Preclassifier/Ungrouped.antt =====
-- The clusters of the second pass and the VMs that it leaves hold the VMs, each once.
use virtvalidation.Base.{
  ℕ, ◌≡◌, refl, ap, ◌∙◌, subst, inl, inr, Bool, true, not, ◌&&◌, ◌||◌, List, [], ◌∷◌, ◌++◌, arith,
  Bool-cases, ◌==◌, nat_Eq, option_Eq, list_Eq, ==→eq, ==-refl, All, All-imp, filter_by,
}
use virtvalidation.Group.{ids_of}
use virtvalidation.Base.Distinct.{
  contains, Distinct, contains-append, Distinct-append, contains-filter_by, Distinct-filter_by,
  perm_of_contains,
}
use virtvalidation.Preclassifier.Source.{SourceVm, PrimaryKey, vm_ids_of}
use virtvalidation.Preclassifier.Cluster.{clusters_of, build_clusters, ungrouped}
use virtvalidation.Preclassifier.Formed.{build_group-ids}
use mathlib.Core.List.{Perm, map-append}
use mathlib.Core.List.Perm
use virtvalidation.Preclassifier.Clusters.{all_vms, clusters_of-IsClustered}

pub build_clusters-ids :
    (k : PrimaryKey) (clusters : List (List SourceVm))
    → Perm (ids_of (build_clusters k clusters)) (vm_ids_of (all_vms clusters))
unfolding build_clusters ids_of
build_clusters-ids k [] = Perm.refl _
build_clusters-ids k (c ∷ clusters) =
    rw (map-append (λ (v : SourceVm). v.id) c (all_vms clusters))
      (Perm.append (build_group-ids k c _) (build_clusters-ids k clusters))

ungrouped-ids :
    (grouped : List ℕ) (vms : List SourceVm)
    → vm_ids_of (ungrouped grouped vms) ≡ filter_by (λ i. not (contains grouped i)) (vm_ids_of vms)
ungrouped-ids grouped [] = refl
ungrouped-ids grouped (v ∷ vms) = elim (Bool-cases (contains grouped v.id)) [
  | inl taken ↦ rw taken (ungrouped-ids grouped vms)
  | inr free ↦ rw free (rw (ungrouped-ids grouped vms))
]

-- The VM is one of the list, by its id.
abbrev pub IsAmong : List SourceVm → SourceVm → Type 0
IsAmong vms v = contains (vm_ids_of vms) v.id ≡ true

pub All-IsAmong : (vms : List SourceVm) → All (IsAmong vms) vms
All-IsAmong [] = tt
All-IsAmong (v ∷ vms) =
    (rw (==-refl v.id) refl, All-imp vms (λ w there. ground (arith, there)) (All-IsAmong vms))

among_contains :
    (vms ws : List SourceVm) (a : ℕ)
    → All (IsAmong vms) ws
    → contains (vm_ids_of ws) a ≡ true
    → contains (vm_ids_of vms) a ≡ true
among_contains vms [] a h there = cc
among_contains vms (w ∷ ws) a h there = elim (Bool-cases (w.id == a)) [
  | inl here ↦ subst (λ z. contains (vm_ids_of vms) z ≡ true) (==→eq w.id a here) h.0
  | inr other ↦ among_contains vms ws a h.1 (rw other at there)
]

-- If the ids differ: the clusters and what they leave hold the VMs, each once.
pub clusters_of-perm :
    (vms : List SourceVm)
    → Distinct (vm_ids_of vms)
    → Perm
        (vm_ids_of (all_vms (clusters_of vms).found)
          ++ vm_ids_of (ungrouped (clusters_of vms).grouped vms))
        (vm_ids_of vms)
clusters_of-perm vms d =
    let c = clusters_of vms in
    let inv = clusters_of-IsClustered (IsAmong vms) vms (All-IsAmong vms) in
    let found = vm_ids_of (all_vms c.found) in
    let ids = vm_ids_of vms in
    let free : ℕ → Bool = λ i. not (contains c.grouped i) in
    rw (ungrouped-ids c.grouped vms) (
      perm_of_contains (found ++ filter_by free ids) ids
        (Distinct-append found (filter_by free ids) inv.distinct (Distinct-filter_by free ids d)
          (λ a there. ground (arith, there, inv.same a, contains-filter_by free ids a)))
        d
        (λ a.
          same_ids (contains found a) (contains ids a) _ (contains c.grouped a)
            (contains-append found (filter_by free ids) a
              ∙ ap (λ b. contains found a || b) (contains-filter_by free ids a))
            (inv.same a) (among_contains vms (all_vms c.found) a inv.from)))
  where
    same_ids :
        (found ids all grouped : Bool)
        → all ≡ (found || (ids && not grouped))
        → grouped ≡ found
        → (found ≡ true → ids ≡ true)
        → all ≡ ids
    same_ids found ids all grouped e g h = ground arith
