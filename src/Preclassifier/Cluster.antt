-- ===== src/Preclassifier/Cluster.antt =====
-- `_classify_within_primary`: the groups of one primary key, in three passes.
use virtvalidation.Base.{
  ℕ, Bool, not, ◌&&◌, ◌||◌, List, [], ◌∷◌, ◌++◌, if◌then◌else◌, ◌==◌, nat_Eq, option_Eq, list_Eq,
  length, filter_by,
}
use virtvalidation.Base.Dicts.{Dict}
use virtvalidation.Base.Texts.{Text, codes, text_le}
use virtvalidation.Base.Sorting.{sorted}
use virtvalidation.Group.{VmGroup}
use virtvalidation.Base.Distinct.{contains}
use virtvalidation.Concurrency.{meets}
use virtvalidation.Base.Buckets.{bucket_by}
use virtvalidation.Preclassifier.Source.{
  SourceVm, PrimaryKey, label, non_empty, shared_networks, shared_datastores,
}
use virtvalidation.Preclassifier.Roles.{detect_role}
use virtvalidation.Preclassifier.Ha.{name_prefix}
use virtvalidation.Preclassifier.Build.{build_group}

abbrev pub Buckets : Type 0
Buckets = Dict Text (List SourceVm)

-- A group for every bucket, with the discriminator that `name` gives for the key.
unfoldable pub build_buckets : PrimaryKey → (Text → Text) → Buckets → List VmGroup
build_buckets primary name [] = []
build_buckets primary name ((key, vms) ∷ buckets) =
    build_group primary vms (name key) ∷ build_buckets primary name buckets

abbrev pub hint_of : SourceVm → Text
hint_of v = label v.application_hint

abbrev pub has_hint : SourceVm → Bool
has_hint v = non_empty (hint_of v)

-- The groups of the application hints, split by role.
unfoldable pub build_hints : PrimaryKey → Buckets → List VmGroup
unfolding bucket_by build_buckets
build_hints primary [] = []
build_hints primary ((hint, vms) ∷ buckets) =
    build_buckets primary (λ role. codes "hint:" ++ hint ++ codes ":" ++ role)
      (bucket_by detect_role [] vms)
    ++ build_hints primary buckets

-- Pass 1, and the VMs that it leaves.
unfoldable pub hint_groups : PrimaryKey → List SourceVm → List VmGroup
unfolding build_hints
hint_groups primary vms = build_hints primary (bucket_by hint_of [] (filter_by has_hint vms))

abbrev pub without_hint : List SourceVm → List SourceVm
without_hint vms = filter_by (λ (v : SourceVm). not (has_hint v)) vms

-- Whether `other` is pulled into the cluster of `seed`.
unfoldable pub overlaps : SourceVm → SourceVm → Bool
overlaps seed other =
    let net_overlap = meets seed.vsphere_networks other.vsphere_networks in
    let ds_overlap = meets seed.vsphere_datastores other.vsphere_datastores in
    (net_overlap && ds_overlap)
    || (not (non_empty seed.vsphere_networks)
        && not (non_empty other.vsphere_networks)
        && ds_overlap)
    || (not (non_empty seed.vsphere_datastores)
        && not (non_empty other.vsphere_datastores)
        && net_overlap)

-- `grouped_ids` and `cluster`
pub record Pulled : Type 0 where
  pub grouped : List ℕ
  pub cluster : List SourceVm

abbrev pub add_vm : SourceVm → Pulled → Pulled
add_vm v p = record { grouped = v.id ∷ p.grouped; cluster = p.cluster ++ v ∷ [] }

-- The inner loop, which pulls the others into the cluster of `seed`.
unfoldable pub pull : SourceVm → List SourceVm → Pulled → Pulled
unfolding overlaps
pull seed [] p = p
pull seed (other ∷ others) p = pull seed others (
    if contains p.grouped other.id || other.id == seed.id
    then p
    else if overlaps seed other
    then add_vm other p
    else p)

abbrev first_of : List Text → Text
first_of [] = []
first_of (x ∷ xs) = x

abbrev first_name : List SourceVm → Text
first_name [] = []
first_name (v ∷ vms) = v.name

-- `_network_datastore_discriminator`
unfoldable pub network_datastore_discriminator : List SourceVm → Text
unfolding sorted
network_datastore_discriminator cluster =
    let nets = sorted text_le (shared_networks cluster) in
    let ds = sorted text_le (shared_datastores cluster) in
    if non_empty nets && non_empty ds
    then codes "net+ds:" ++ first_of nets ++ codes "+" ++ first_of ds
    else if non_empty nets
    then codes "net:" ++ first_of nets
    else if non_empty ds
    then codes "ds:" ++ first_of ds
    else codes "cluster:" ++ first_name cluster

-- `grouped_ids` and the clusters found, each with its VMs
pub record Clusters : Type 0 where
  pub grouped : List ℕ
  pub found : List (List SourceVm)

-- `grouped_ids.discard(id)`
abbrev pub discard : ℕ → List ℕ → List ℕ
discard id ids = filter_by (λ i. not (i == id)) ids

-- The end of a round: a cluster of the seed alone is left for the third pass.
unfoldable pub keep_cluster : SourceVm → Clusters → Pulled → Clusters
keep_cluster seed c p =
    if length p.cluster == 1
    then record { grouped = discard seed.id p.grouped; found = c.found }
    else record { grouped = p.grouped; found = c.found ++ p.cluster ∷ [] }

-- Pass 2 over the seeds that are left.
unfoldable pub find_clusters : List SourceVm → List SourceVm → Clusters → Clusters
unfolding pull keep_cluster
find_clusters remaining [] c = c
find_clusters remaining (seed ∷ seeds) c = find_clusters remaining seeds (
    if contains c.grouped seed.id
    then c
    else keep_cluster seed c
        (pull seed remaining (record { grouped = seed.id ∷ c.grouped; cluster = seed ∷ [] })))

unfoldable pub clusters_of : List SourceVm → Clusters
unfolding find_clusters
clusters_of remaining = find_clusters remaining remaining (record { grouped = []; found = [] })

unfoldable pub build_clusters : PrimaryKey → List (List SourceVm) → List VmGroup
unfolding network_datastore_discriminator
build_clusters primary [] = []
build_clusters primary (cluster ∷ clusters) =
    build_group primary cluster (network_datastore_discriminator cluster)
    ∷ build_clusters primary clusters

-- `_name_prefix(vm.name) or "misc"`
abbrev or_misc : Text → Text
or_misc [] = codes "misc"
or_misc (c ∷ s) = c ∷ s

abbrev pub prefix_of : SourceVm → Text
prefix_of v = or_misc (name_prefix v.name)

-- Pass 3: the VMs that no cluster holds, by the prefix of the name
abbrev pub ungrouped : List ℕ → List SourceVm → List SourceVm
ungrouped grouped vms = filter_by (λ (v : SourceVm). not (contains grouped v.id)) vms

unfoldable pub prefix_groups : PrimaryKey → List SourceVm → List VmGroup
unfolding bucket_by build_buckets
prefix_groups primary vms =
    build_buckets primary (λ prefix. codes "prefix:" ++ prefix) (bucket_by prefix_of [] vms)

unfoldable pub classify_within_primary : PrimaryKey → List SourceVm → List VmGroup
unfolding hint_groups clusters_of build_clusters prefix_groups
classify_within_primary primary bucket =
    let remaining = without_hint bucket in
    let clusters = clusters_of remaining in
    hint_groups primary bucket
    ++ build_clusters primary clusters.found
    ++ prefix_groups primary (ungrouped clusters.grouped remaining)
