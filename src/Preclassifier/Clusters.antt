-- ===== src/Preclassifier/Clusters.antt =====
-- The second pass puts no VM in two clusters, and what it leaves is what no cluster holds.
use virtvalidation.Base.{
  ℕ, ◌≡◌, refl, sym, ap, ◌∙◌, subst, inl, inr, Bool, true, false, not, ◌&&◌, List, [], ◌∷◌, ◌++◌,
  arith, Bool-cases, ◌==◌, nat_Eq, option_Eq, list_Eq, ==→eq, length, All, All-append,
}
use virtvalidation.Base.Distinct.{
  contains, Distinct, contains-append, Distinct-append, contains-filter_by,
}
use virtvalidation.Base.Rearranged.{collect}
use virtvalidation.Preclassifier.Source.{SourceVm, PrimaryKey, vm_ids_of}
use virtvalidation.Preclassifier.Cluster.{
  overlaps, Pulled, add_vm, pull, Clusters, discard, keep_cluster, find_clusters, clusters_of,
  build_clusters,
}
use virtvalidation.Preclassifier.Formed.{Formed, build_group-Formed}
use virtvalidation.Base.Keys.{Distinct-middle}
use mathlib.Core.List.{append_assoc, append-nil, map-append}

-- The VMs of all clusters.
abbrev pub all_vms : List (List SourceVm) → List SourceVm
all_vms clusters = collect (λ (c : List SourceVm). c) clusters

Distinct-snoc :
    (xs : List ℕ) (x : ℕ) → Distinct xs → contains xs x ≡ false → Distinct (xs ++ x ∷ [])
Distinct-snoc xs x d h =
    Distinct-append xs (x ∷ []) d (refl, tt)
      (λ a there. elim (Bool-cases (x == a)) [
        | inl same ↦ absurd (clash (subst (λ z. contains xs z ≡ false) (==→eq x a same) h) there)
        | inr other ↦ rw other refl
      ])
  where
    clash : {b : Bool} → b ≡ false → b ≡ true → ⊥
    clash h k = cc

all_vms-snoc :
    (found : List (List SourceVm)) (c : List SourceVm)
    → all_vms (found ++ c ∷ []) ≡ all_vms found ++ c
all_vms-snoc [] c = append-nil c
all_vms-snoc (f ∷ found) c = rw (all_vms-snoc found c) (sym (append_assoc f (all_vms found) c))

lone_cluster :
    (seed : SourceVm) (p : Pulled) (tail : List SourceVm)
    → p.cluster ≡ seed ∷ tail
    → (length p.cluster == 1) ≡ true
    → p.cluster ≡ seed ∷ []
lone_cluster seed p [] e h = e
lone_cluster seed p (v ∷ tail) e h = absurd (ground (arith, ap length e, h))

-- Taking the seed off again leaves what was grouped before.
undo :
    (before : List ℕ) (seed : SourceVm) (p : Pulled) (a : ℕ)
    → p.cluster ≡ seed ∷ []
    → Distinct (before ++ vm_ids_of p.cluster)
    → contains p.grouped a ≡ contains (before ++ vm_ids_of p.cluster) a
    → contains (discard seed.id p.grouped) a ≡ contains before a
undo before seed p a lone d same =
    let fresh : contains before seed.id ≡ false =
      Distinct-middle before seed.id [] (subst (λ c. Distinct (before ++ vm_ids_of c)) lone d) in
    let same' : contains p.grouped a ≡ contains (before ++ seed.id ∷ []) a =
      same ∙ ap (λ c. contains (before ++ vm_ids_of c) a) lone in
    elim (Bool-cases (a == seed.id)) [
      | inl here ↦
          let gone : contains before a ≡ false =
            subst (λ z. contains before z ≡ false) (sym (==→eq a seed.id here)) fresh in
          contains-filter_by (λ i. not (i == seed.id)) p.grouped a
          ∙ rw (here, gone) (and_false (contains p.grouped a))
      | inr other ↦ ground (
        arith,
        other,
        same',
        contains-append before (seed.id ∷ []) a,
        contains-filter_by (λ i. not (i == seed.id)) p.grouped a,
      )
    ]
  where
    and_false : (b : Bool) → (b && false) ≡ false
    and_false b = ground arith

module _ (Q : SourceVm → Type 0) where
  -- The ids `before` and the cluster hold no id twice, and they are the ids marked as grouped.
  record IsPulled (before : List ℕ) (seed : SourceVm) (p : Pulled) : Type 0 where
    distinct : Distinct (before ++ vm_ids_of p.cluster)
    same : (a : ℕ) → contains p.grouped a ≡ contains (before ++ vm_ids_of p.cluster) a
    from : All Q p.cluster
    tail : List SourceVm
    seeded : p.cluster ≡ seed ∷ tail

  add_vm-IsPulled :
      (before : List ℕ) (seed v : SourceVm) (p : Pulled)
      → contains p.grouped v.id ≡ false
      → Q v
      → IsPulled before seed p
      → IsPulled before seed (add_vm v p)
  add_vm-IsPulled before seed v p fresh q inv =
      let ids = before ++ vm_ids_of p.cluster in
      let more : before ++ vm_ids_of (p.cluster ++ v ∷ []) ≡ ids ++ v.id ∷ [] =
        ap (λ l. before ++ l) (map-append (λ (w : SourceVm). w.id) p.cluster (v ∷ []))
        ∙ sym (append_assoc before (vm_ids_of p.cluster) (v.id ∷ [])) in
      record {
        distinct = rw more (Distinct-snoc ids v.id inv.distinct (sym (inv.same v.id) ∙ fresh));
        same = λ a. rw more (ground (arith, inv.same a, contains-append ids (v.id ∷ []) a));
        from = All-append _ _ _ inv.from (q, tt);
        tail = inv.tail ++ v ∷ [];
        seeded = ap (λ l. l ++ v ∷ []) inv.seeded;
      }

  pull-IsPulled :
      (before : List ℕ) (seed : SourceVm) (others : List SourceVm) (p : Pulled)
      → All Q others
      → IsPulled before seed p
      → IsPulled before seed (pull seed others p)
  unfolding pull
  pull-IsPulled before seed [] p q inv = inv
  pull-IsPulled before seed (o ∷ others) p q inv = elim (Bool-cases (contains p.grouped o.id)) [
    | inl taken ↦ rw taken (pull-IsPulled before seed others p q.1 inv)
    | inr fresh ↦ elim (Bool-cases (o.id == seed.id)) [
      | inl same ↦ rw (fresh, same) (pull-IsPulled before seed others p q.1 inv)
      | inr other ↦ elim (Bool-cases (overlaps seed o)) [
        | inl near ↦
            rw (fresh, other, near)
              (pull-IsPulled before seed others (add_vm o p) q.1
                (add_vm-IsPulled before seed o p fresh q.0 inv))
        | inr far ↦ rw (fresh, other, far) (pull-IsPulled before seed others p q.1 inv)
      ]
    ]
  ]

  -- The clusters hold no VM twice, and the ids marked as grouped are theirs.
  pub record IsClustered (c : Clusters) : Type 0 where
    pub distinct : Distinct (vm_ids_of (all_vms c.found))
    pub same : (a : ℕ) → contains c.grouped a ≡ contains (vm_ids_of (all_vms c.found)) a
    pub from : All Q (all_vms c.found)

  keep_cluster-IsClustered :
      (seed : SourceVm) (c : Clusters) (p : Pulled)
      → IsClustered c
      → IsPulled (vm_ids_of (all_vms c.found)) seed p
      → IsClustered (keep_cluster seed c p)
  unfolding keep_cluster
  keep_cluster-IsClustered seed c p inv pulled = elim (Bool-cases (length p.cluster == 1)) [
    | inl alone ↦ rw alone (record {
      distinct = inv.distinct;
      same = λ a.
          undo (vm_ids_of (all_vms c.found)) seed p a
            (lone_cluster seed p pulled.tail pulled.seeded alone) pulled.distinct (pulled.same a);
      from = inv.from;
    })
    | inr more ↦ rw more (
        let ids : vm_ids_of (all_vms (c.found ++ p.cluster ∷ []))
            ≡ vm_ids_of (all_vms c.found) ++ vm_ids_of p.cluster =
          ap vm_ids_of (all_vms-snoc c.found p.cluster)
          ∙ map-append (λ (w : SourceVm). w.id) (all_vms c.found) p.cluster in
        record {
          distinct = rw ids pulled.distinct;
          same = λ a. rw ids (pulled.same a);
          from = rw (all_vms-snoc c.found p.cluster) (All-append _ _ _ inv.from pulled.from);
        })
  ]

  find_clusters-IsClustered :
      (remaining seeds : List SourceVm) (c : Clusters)
      → All Q remaining
      → All Q seeds
      → IsClustered c
      → IsClustered (find_clusters remaining seeds c)
  unfolding find_clusters
  find_clusters-IsClustered remaining [] c q qs inv = inv
  find_clusters-IsClustered remaining (seed ∷ seeds) c q qs inv =
      elim (Bool-cases (contains c.grouped seed.id)) [
        | inl taken ↦ rw taken (find_clusters-IsClustered remaining seeds c q qs.1 inv)
        | inr fresh ↦ rw fresh (
            let before = vm_ids_of (all_vms c.found) in
            let first : Pulled = record { grouped = seed.id ∷ c.grouped; cluster = seed ∷ [] } in
            let pulled : IsPulled before seed first = record {
              distinct = Distinct-snoc before seed.id inv.distinct (sym (inv.same seed.id) ∙ fresh);
              same = λ a. ground (arith, inv.same a, contains-append before (seed.id ∷ []) a);
              from = (qs.0, tt);
              tail = [];
              seeded = refl;
            } in
            find_clusters-IsClustered remaining seeds
              (keep_cluster seed c (pull seed remaining first)) q qs.1
              (keep_cluster-IsClustered seed c (pull seed remaining first) inv
                (pull-IsPulled before seed remaining first q pulled)))
      ]

  pub clusters_of-IsClustered :
      (remaining : List SourceVm) → All Q remaining → IsClustered (clusters_of remaining)
  unfolding clusters_of
  clusters_of-IsClustered remaining q =
      find_clusters-IsClustered remaining remaining (record { grouped = []; found = [] }) q q
        (record { distinct = tt; same = λ a. refl; from = tt })

  pub build_clusters-Formed :
      (k : PrimaryKey) (clusters : List (List SourceVm))
      → All Q (all_vms clusters)
      → All (Formed Q k) (build_clusters k clusters)
  unfolding build_clusters
  build_clusters-Formed k [] h = tt
  build_clusters-Formed k (c ∷ clusters) h =
      let parts = All-append_split c (all_vms clusters) h in
      (build_group-Formed Q k c _ parts.0, build_clusters-Formed k clusters parts.1)
    where
      All-append_split : (xs ys : List SourceVm) → All Q (xs ++ ys) → All Q xs × All Q ys
      All-append_split [] ys h = (tt, h)
      All-append_split (x ∷ xs) ys h =
          let parts = All-append_split xs ys h.1 in ((h.0, parts.0), parts.1)
