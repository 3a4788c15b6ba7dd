-- ===== src/Preclassifier/Whole.antt =====
-- `PreClassifier.classify` as a whole: every VM ends up in one group, and groups keep to one key.
use virtvalidation.Base.{
  ◌≡◌, sym, subst, not, List, [], ◌∷◌, ◌++◌, nat_Eq, option_Eq, list_Eq, All, All-append, All-imp,
  filter_by,
}
use virtvalidation.Base.Dicts.{Dict}
use virtvalidation.Base.Texts.{Text, codes}
use virtvalidation.Group.{VmGroup, ids_of, ids_of-append}
use virtvalidation.Base.Distinct.{
  contains, Distinct, Distinct-perm, Distinct-append_left, Distinct-append_right,
}
use virtvalidation.Base.Buckets.{
  bucket_by, in_buckets, bucket_by-perm, bucket_by-All, filter_by-split, filter_by-All,
}
use virtvalidation.Preclassifier.Source.{
  SourceVm, PrimaryKey, primary_key, primary_key_Eq, vm_ids_of,
}
use virtvalidation.Preclassifier.Roles.{detect_role}
use virtvalidation.Preclassifier.Merge.{Cap}
use virtvalidation.Preclassifier.Cluster.{
  Buckets, build_buckets, hint_of, has_hint, build_hints, hint_groups, without_hint, clusters_of,
  build_clusters, prefix_of, ungrouped, prefix_groups, classify_within_primary,
}
use virtvalidation.Preclassifier.Classify.{PrimaryBuckets, collapse_small, classify_buckets}
use virtvalidation.Preclassifier.Formed.{
  Formed, group_primary, build_buckets-ids, build_buckets-Formed, collapse_small-ids,
  collapse_small-Formed,
}
use virtvalidation.Preclassifier.Clusters.{clusters_of-IsClustered, build_clusters-Formed}
use virtvalidation.Preclassifier.Ungrouped.{clusters_of-perm, build_clusters-ids}
use mathlib.Core.List.{Perm, append_assoc, map-append}
use mathlib.Core.List.Perm

vm_ids-perm : {vs ws : List SourceVm} → Perm vs ws → Perm (vm_ids_of vs) (vm_ids_of ws)
vm_ids-perm {vs} {ws} p = Perm.map (λ (v : SourceVm). v.id) p

keyless_All :
    {K : Type 0} (f : SourceVm → K) (Q : SourceVm → Type 0) (buckets : Dict K (List SourceVm))
    → All (λ (b : K × List SourceVm). All (λ v. Q v × (f v ≡ b.0)) b.1) buckets
    → All (λ (b : K × List SourceVm). All Q b.1) buckets
keyless_All f Q buckets h = All-imp buckets (λ b all. All-imp b.1 (λ v q. q.0) all) h

module _ (k : PrimaryKey) where
  build_hints-ids :
      (buckets : Buckets) → Perm (ids_of (build_hints k buckets)) (vm_ids_of (in_buckets buckets))
  unfolding build_hints ids_of
  build_hints-ids [] = Perm.refl _
  build_hints-ids ((hint, vs) ∷ buckets) =
      let name = λ (role : Text). codes "hint:" ++ hint ++ codes ":" ++ role in
      let by_role = bucket_by detect_role [] vs in
      rw
        (
          ids_of-append (build_buckets k name by_role) (build_hints k buckets),
          map-append (λ (v : SourceVm). v.id) vs (in_buckets buckets),
        )
        (Perm.append
          (Perm.trans (build_buckets-ids k name by_role)
            (vm_ids-perm (bucket_by-perm detect_role [] vs)))
          (build_hints-ids buckets))

  build_hints-Formed :
      (Q : SourceVm → Type 0) (buckets : Buckets)
      → All (λ (b : Text × List SourceVm). All Q b.1) buckets
      → All (Formed Q k) (build_hints k buckets)
  unfolding build_hints
  build_hints-Formed Q [] h = tt
  build_hints-Formed Q ((hint, vs) ∷ buckets) h =
      All-append _ _ _
        (build_buckets-Formed Q k _ _
          (keyless_All detect_role Q _ (bucket_by-All detect_role Q [] vs tt h.0)))
        (build_hints-Formed Q buckets h.1)

  hint_groups-ids :
      (vs : List SourceVm) → Perm (ids_of (hint_groups k vs)) (vm_ids_of (filter_by has_hint vs))
  unfolding hint_groups
  hint_groups-ids vs =
      let hinted = filter_by has_hint vs in
      Perm.trans (build_hints-ids (bucket_by hint_of [] hinted))
        (vm_ids-perm (bucket_by-perm hint_of [] hinted))

  hint_groups-Formed :
      (Q : SourceVm → Type 0) (vs : List SourceVm) → All Q vs → All (Formed Q k) (hint_groups k vs)
  unfolding hint_groups
  hint_groups-Formed Q vs q =
      let hinted = filter_by has_hint vs in
      build_hints-Formed Q (bucket_by hint_of [] hinted) (
        keyless_All hint_of Q (bucket_by hint_of [] hinted)
          (bucket_by-All hint_of Q [] hinted tt (filter_by-All Q has_hint vs q)))

  prefix_groups-ids : (vs : List SourceVm) → Perm (ids_of (prefix_groups k vs)) (vm_ids_of vs)
  unfolding prefix_groups
  prefix_groups-ids vs =
      Perm.trans
        (build_buckets-ids k (λ prefix. codes "prefix:" ++ prefix) (bucket_by prefix_of [] vs))
        (vm_ids-perm (bucket_by-perm prefix_of [] vs))

  prefix_groups-Formed :
      (Q : SourceVm → Type 0) (vs : List SourceVm)
      → All Q vs
      → All (Formed Q k) (prefix_groups k vs)
  unfolding prefix_groups
  prefix_groups-Formed Q vs q =
      build_buckets-Formed Q k (λ prefix. codes "prefix:" ++ prefix) (bucket_by prefix_of [] vs)
        (keyless_All prefix_of Q (bucket_by prefix_of [] vs) (bucket_by-All prefix_of Q [] vs tt q))

  pub classify_within_primary-ids :
      (vs : List SourceVm)
      → Distinct (vm_ids_of vs)
      → Perm (ids_of (classify_within_primary k vs)) (vm_ids_of vs)
  unfolding classify_within_primary
  classify_within_primary-ids vs d =
      let left = without_hint vs in
      let c = clusters_of left in
      let hinted = vm_ids_of (filter_by has_hint vs) in
      let split : Perm (hinted ++ vm_ids_of left) (vm_ids_of vs) =
        rw (← map-append (λ (v : SourceVm). v.id) (filter_by has_hint vs) left)
          (vm_ids-perm (filter_by-split has_hint vs)) in
      let d' : Distinct (vm_ids_of left) =
        Distinct-append_right hinted (vm_ids_of left) (Distinct-perm _ _ (Perm.symm split) d) in
      let clusters = build_clusters k c.found in
      let prefixed = prefix_groups k (ungrouped c.grouped left) in
      let rest =
        Perm.trans
          (Perm.append (build_clusters-ids k c.found)
            (prefix_groups-ids (ungrouped c.grouped left)))
          (clusters_of-perm left d') in
      let parts : Perm (ids_of (hint_groups k vs ++ clusters ++ prefixed)) (vm_ids_of vs) =
        rw
          (
            append_assoc (hint_groups k vs) clusters prefixed,
            ids_of-append (hint_groups k vs) (clusters ++ prefixed),
            ids_of-append clusters prefixed,
          )
          (Perm.trans (Perm.append (hint_groups-ids vs) rest) split) in
      parts

  pub classify_within_primary-Formed :
      (Q : SourceVm → Type 0) (vs : List SourceVm)
      → All Q vs
      → All (Formed Q k) (classify_within_primary k vs)
  unfolding classify_within_primary
  classify_within_primary-Formed Q vs q =
      let left = without_hint vs in
      let rest = filter_by-All Q (λ (v : SourceVm). not (has_hint v)) vs q in
      let c = clusters_of left in
      let free = filter_by-All Q (λ (v : SourceVm). not (contains c.grouped v.id)) left rest in
      let hinted = hint_groups k vs in
      let clusters = build_clusters k c.found in
      All-append (Formed Q k) (hinted ++ clusters) _
        (All-append (Formed Q k) hinted clusters (hint_groups-Formed Q vs q)
          (build_clusters-Formed Q k c.found (clusters_of-IsClustered Q left rest).from))
        (prefix_groups-Formed Q (ungrouped c.grouped left) free)

-- The group holds VMs of one primary key, its own, and `Q` holds of them.
abbrev pub IsPure : (SourceVm → Type 0) → VmGroup → Type 0
IsPure Q g = Formed (λ v. Q v × (primary_key v ≡ group_primary g)) (group_primary g) g

module _ (cap : Cap) where
  pub classify_buckets-ids :
      (buckets : PrimaryBuckets)
      → Distinct (vm_ids_of (in_buckets buckets))
      → Perm (ids_of (classify_buckets cap buckets)) (vm_ids_of (in_buckets buckets))
  unfolding classify_buckets ids_of
  classify_buckets-ids [] d = Perm.refl _
  classify_buckets-ids ((k, vs) ∷ buckets) d =
      let ids : vm_ids_of (vs ++ in_buckets buckets)
          ≡ vm_ids_of vs ++ vm_ids_of (in_buckets buckets) =
        map-append (λ (v : SourceVm). v.id) vs (in_buckets buckets) in
      let d' : Distinct (vm_ids_of vs ++ vm_ids_of (in_buckets buckets)) = rw ids at d in
      let groups = classify_within_primary k vs in
      let within = classify_within_primary-ids k vs (Distinct-append_left _ _ d') in
      rw (ids, ids_of-append (collapse_small cap groups) (classify_buckets cap buckets))
        (Perm.append
          (Perm.trans
            (collapse_small-ids cap groups
              (Distinct-perm _ _ (Perm.symm within) (Distinct-append_left _ _ d')))
            within)
          (classify_buckets-ids buckets
            (Distinct-append_right (vm_ids_of vs) (vm_ids_of (in_buckets buckets)) d')))

  pub classify_buckets-IsPure :
      (Q : SourceVm → Type 0) (buckets : PrimaryBuckets)
      → Distinct (vm_ids_of (in_buckets buckets))
      → All (λ (b : PrimaryKey × List SourceVm). All (λ v. Q v × (primary_key v ≡ b.0)) b.1) buckets
      → All (IsPure Q) (classify_buckets cap buckets)
  unfolding classify_buckets
  classify_buckets-IsPure Q [] d h = tt
  classify_buckets-IsPure Q ((k, vs) ∷ buckets) d h =
      let d' : Distinct (vm_ids_of vs ++ vm_ids_of (in_buckets buckets)) =
        rw (map-append (λ (v : SourceVm). v.id) vs (in_buckets buckets)) at d in
      let groups = classify_within_primary k vs in
      let within = classify_within_primary-ids k vs (Distinct-append_left _ _ d') in
      let formed =
        collapse_small-Formed cap (λ v. Q v × (primary_key v ≡ k)) k groups
          (Distinct-perm _ _ (Perm.symm within) (Distinct-append_left _ _ d'))
          (classify_within_primary-Formed k (λ v. Q v × (primary_key v ≡ k)) vs h.0) in
      All-append _ _ _
        (All-imp (collapse_small cap groups)
          (λ g f. subst (λ z. Formed (λ v. Q v × (primary_key v ≡ z)) z g) (sym f.keyed) f) formed)
        (classify_buckets-IsPure Q buckets
          (Distinct-append_right (vm_ids_of vs) (vm_ids_of (in_buckets buckets)) d') h.1)
