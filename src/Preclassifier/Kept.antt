-- ===== src/Preclassifier/Kept.antt =====
-- Properties that the groups keep from `_build_group` on to the end of `classify`.
use virtvalidation.Base.{
  ◌≡◌, ◌⊎◌, take, refl, inl, inr, none, List, [], ◌∷◌, ◌++◌, map, ltb, Bool-cases, nat_Eq,
  option_Eq, list_Eq, All, All-append, All-imp, All-map, filter_by,
}
use virtvalidation.Base.Dicts.{Dict}
use virtvalidation.Base.Texts.{Text, codes}
use virtvalidation.Group.{VmGroup}
use virtvalidation.Base.Sorting.{sorted-All}
use virtvalidation.Base.Buckets.{bucket_by}
use virtvalidation.Preclassifier.Source.{SourceVm, PrimaryKey}
use virtvalidation.Preclassifier.Roles.{detect_role}
use virtvalidation.Preclassifier.Build.{build_group}
use virtvalidation.Preclassifier.Merge.{merge_groups, total_vms, consolidate}
use virtvalidation.Preclassifier.Cluster.{
  Buckets, hint_of, has_hint, prefix_of, without_hint, ungrouped, build_buckets, build_hints,
  hint_groups, clusters_of, build_clusters, prefix_groups, classify_within_primary,
}
use virtvalidation.Preclassifier.Classify.{
  PrimaryBuckets, primary_buckets, merge_all, collapse_small, classify_buckets, ids_by_role,
  set_hints, add_dependency_hints, group_le, classify,
}
use virtvalidation.Preclassifier.Members.{HasMembers, member_ids, build_group-members}
use mathlib.Core.List.{Perm}

module _ (P : VmGroup → Type 0)
    (built : (k : PrimaryKey) (vs : List SourceVm) (d : Text) → P (build_group k vs d))
    (merged : (a b : VmGroup) → P (merge_groups none a b)) where
  build_buckets-All :
      (k : PrimaryKey) (name : Text → Text) (buckets : Buckets)
      → All P (build_buckets k name buckets)
  unfolding build_buckets
  build_buckets-All k name [] = tt
  build_buckets-All k name ((key, vs) ∷ buckets) =
      (built k vs (name key), build_buckets-All k name buckets)

  build_hints-All : (k : PrimaryKey) (buckets : Buckets) → All P (build_hints k buckets)
  unfolding build_hints
  build_hints-All k [] = tt
  build_hints-All k ((hint, vs) ∷ buckets) =
      let name = λ (role : Text). codes "hint:" ++ hint ++ codes ":" ++ role in
      let by_role = bucket_by detect_role [] vs in
      All-append P (build_buckets k name by_role) _ (build_buckets-All k name by_role)
        (build_hints-All k buckets)

  build_clusters-All :
      (k : PrimaryKey) (clusters : List (List SourceVm)) → All P (build_clusters k clusters)
  unfolding build_clusters
  build_clusters-All k [] = tt
  build_clusters-All k (c ∷ clusters) = (built k c _, build_clusters-All k clusters)

  hint_groups-All : (k : PrimaryKey) (vs : List SourceVm) → All P (hint_groups k vs)
  unfolding hint_groups
  hint_groups-All k vs = build_hints-All k (bucket_by hint_of [] (filter_by has_hint vs))

  prefix_groups-All : (k : PrimaryKey) (vs : List SourceVm) → All P (prefix_groups k vs)
  unfolding prefix_groups
  prefix_groups-All k vs =
      build_buckets-All k (λ prefix. codes "prefix:" ++ prefix) (bucket_by prefix_of [] vs)

  classify_within_primary-All :
      (k : PrimaryKey) (vs : List SourceVm) → All P (classify_within_primary k vs)
  unfolding classify_within_primary
  classify_within_primary-All k vs =
      let c = clusters_of (without_hint vs) in
      let hinted = hint_groups k vs in
      let clusters = build_clusters k c.found in
      All-append P (hinted ++ clusters) (prefix_groups k (ungrouped c.grouped (without_hint vs)))
        (All-append P hinted clusters (hint_groups-All k vs) (build_clusters-All k c.found))
        (prefix_groups-All k (ungrouped c.grouped (without_hint vs)))

  merge_all-All : (g h : VmGroup) (hs : List VmGroup) → P (merge_all none g (h ∷ hs))
  unfolding merge_all
  merge_all-All g h [] = merged g h
  merge_all-All g h (i ∷ hs) = merge_all-All (merge_groups none g h) i hs

  collapse_small-All : (gs : List VmGroup) → All P gs → All P (collapse_small none gs)
  unfolding collapse_small
  collapse_small-All [] h = tt
  collapse_small-All (g ∷ []) h = h
  collapse_small-All (a ∷ b ∷ hs) h = elim (Bool-cases (ltb (total_vms (a ∷ b ∷ hs)) 5)) [
    | inl small ↦ rw small (merge_all-All a b hs, tt)
    | inr large ↦ rw large h
  ]

  classify_buckets-All : (buckets : PrimaryBuckets) → All P (classify_buckets none buckets)
  unfolding classify_buckets
  classify_buckets-All [] = tt
  classify_buckets-All ((k, vs) ∷ buckets) =
      All-append P _ _
        (collapse_small-All (classify_within_primary k vs) (classify_within_primary-All k vs))
        (classify_buckets-All buckets)

  pub classify-All :
      ((by_role : Dict Text (List Text)) (g : VmGroup) → P g → P (set_hints by_role g))
      → (vms : List SourceVm) → All P (classify none vms)
  unfolding classify add_dependency_hints consolidate
  classify-All hinted vms =
      let groups = classify_buckets none (primary_buckets vms) in
      let by_role = ids_by_role [] groups in
      sorted-All group_le P (map (set_hints by_role) groups) (
        All-map P (set_hints by_role) groups
          (All-imp groups (λ g h. hinted by_role g h) (classify_buckets-All (primary_buckets vms))))

-- The group is one that `_merge_groups` makes: its discriminator says so, and it has no HA members.
abbrev pub IsMerged : VmGroup → Type 0
IsMerged g = (g.ha_members ≡ []) × (take 7 (g.key.discriminator) ≡ codes "merged:")

-- The HA members of the group are its VMs, unless it is a merged group.
unfoldable pub HasAllMembers : VmGroup → Type 0
HasAllMembers g = Perm (member_ids g.ha_members) g.vm_ids ⊎ IsMerged g

build_group-HasAllMembers :
    (k : PrimaryKey) (vs : List SourceVm) (discriminator : Text)
    → HasAllMembers (build_group k vs discriminator)
unfolding HasAllMembers
build_group-HasAllMembers k vs discriminator = inl (build_group-members k vs discriminator)

merge_groups-HasAllMembers : (a b : VmGroup) → HasAllMembers (merge_groups none a b)
unfolding merge_groups HasAllMembers
merge_groups-HasAllMembers a b = inr (refl, refl)

set_hints-HasAllMembers :
    (by_role : Dict Text (List Text)) (g : VmGroup)
    → HasAllMembers g
    → HasAllMembers (set_hints by_role g)
unfolding set_hints HasAllMembers
set_hints-HasAllMembers by_role g h = h

-- Without a cap, the HA members of each group of `classify` are the VMs of the group, each of them
-- once; only a group that a merge made, which its discriminator shows, has none instead.
pub classify-HasAllMembers : (vms : List SourceVm) → All HasAllMembers (classify none vms)
classify-HasAllMembers vms =
    classify-All HasAllMembers build_group-HasAllMembers merge_groups-HasAllMembers
      set_hints-HasAllMembers vms

-- What the HA expansion needs of the groups.
pub classify-HasMembers : (vms : List SourceVm) → All HasMembers (classify none vms)
unfolding HasMembers HasAllMembers
classify-HasMembers vms =
    All-imp (classify none vms)
      (λ g h. elim h [ inl members ↦ inr members | inr merged ↦ inl merged.0 ])
      (classify-HasAllMembers vms)
