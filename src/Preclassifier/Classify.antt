-- ===== src/Preclassifier/Classify.antt =====
-- `PreClassifier.classify`: the primary partition, the dependency hints and the final order.
use virtvalidation.Base.{
  ℕ, ◌+◌, Bool, not, none, some, List, [], ◌∷◌, ◌++◌, map, ltb, if◌then◌else◌, ◌==◌, nat_Eq,
  option_Eq, list_Eq, filter_by,
}
use virtvalidation.Base.Dicts.{Dict, get_default, push}
use virtvalidation.Base.Texts.{by_text, Text, codes, text_le}
use virtvalidation.Base.Sorting.{sorted, by_nat}
use virtvalidation.Group.{VmGroup, group_id}
use virtvalidation.Base.Distinct.{contains}
use virtvalidation.Preclassifier.Source.{SourceVm, PrimaryKey, primary_key, primary_key_Eq}
use virtvalidation.Preclassifier.Merge.{Cap, merge_groups, total_vms, consolidate}
use virtvalidation.Base.Buckets.{bucket_by}
use virtvalidation.Preclassifier.Cluster.{classify_within_primary}

abbrev pub PrimaryBuckets : Type 0
PrimaryBuckets = Dict PrimaryKey (List SourceVm)

-- `primary_buckets`
unfoldable pub primary_buckets : List SourceVm → PrimaryBuckets
unfolding bucket_by
primary_buckets vms = bucket_by primary_key [] vms

-- `collapsed`: the groups merged from the left
unfoldable pub merge_all : Cap → VmGroup → List VmGroup → VmGroup
unfolding merge_groups
merge_all cap g [] = g
merge_all cap g (h ∷ hs) = merge_all cap (merge_groups cap g h) hs

-- Fewer than five VMs in more than one group are collapsed into one group.
unfoldable pub collapse_small : Cap → List VmGroup → List VmGroup
unfolding merge_all total_vms
collapse_small cap (g ∷ h ∷ hs) =
    if ltb (total_vms (g ∷ h ∷ hs)) 5 then merge_all cap g (h ∷ hs) ∷ [] else g ∷ h ∷ hs
collapse_small cap groups = groups

unfoldable pub classify_buckets : Cap → PrimaryBuckets → List VmGroup
unfolding collapse_small
classify_buckets cap [] = []
classify_buckets cap ((primary, bucket) ∷ buckets) =
    collapse_small cap (classify_within_primary primary bucket) ++ classify_buckets cap buckets

-- `by_role[g.estimated_role].append(g.id)`
unfoldable pub ids_by_role : Dict Text (List Text) → List VmGroup → Dict Text (List Text)
ids_by_role by_role [] = by_role
ids_by_role by_role (g ∷ gs) = ids_by_role (push g.estimated_role (group_id g) by_role) gs

unfoldable pub hints_for : Dict Text (List Text) → Text → List Text
hints_for by_role role =
    if role == codes "app"
    then get_default (codes "data") [] by_role ++ get_default (codes "infrastructure") [] by_role
    else if contains (codes "web" ∷ codes "edge" ∷ []) role
    then get_default (codes "app") [] by_role ++ get_default (codes "data") [] by_role
    else []

unfoldable pub set_hints : Dict Text (List Text) → VmGroup → VmGroup
unfolding hints_for
set_hints by_role g = record g {
  dependency_hints =
      filter_by (λ (h : Text). not (h == group_id g)) (hints_for by_role g.estimated_role);
}

unfoldable pub add_dependency_hints : List VmGroup → List VmGroup
unfolding ids_by_role set_hints
add_dependency_hints groups = map (set_hints (ids_by_role [] groups)) groups

-- `vcenter_id if vcenter_id is not None else -1`: one more, so that it is a natural number
abbrev vcenter_rank : VmGroup → ℕ
vcenter_rank g = elim g.key.vcenter_id [ none ↦ 0 | some n ↦ n + 1 ]

unfoldable pub group_le : VmGroup → VmGroup → Bool
unfolding text_le
group_le = by_nat vcenter_rank (
    by_text (λ (g : VmGroup). g.key.target_namespace)
      (by_text (λ (g : VmGroup). g.key.role)
        (by_text (λ (g : VmGroup). g.key.state)
          (λ g h. text_le g.key.discriminator h.key.discriminator))))

unfoldable pub classify : Cap → List SourceVm → List VmGroup
unfolding primary_buckets classify_buckets consolidate add_dependency_hints sorted
classify cap vms =
    sorted group_le
      (add_dependency_hints (consolidate cap (classify_buckets cap (primary_buckets vms))))
