-- ===== src/Preclassifier/Formed.antt =====
-- A group stands for a list of VMs: how groups are formed from VMs and from one another.
use virtvalidation.Base.{
  ℕ, ◌≡◌, refl, inl, inr, List, [], ◌∷◌, ◌++◌, ltb, leb, Bool-cases, nat_Eq, option_Eq, list_Eq,
  All, All-append,
}
use virtvalidation.Base.Texts.{Text}
use virtvalidation.Base.Sorting.{sorted-perm}
use virtvalidation.Group.{VmGroup, ids_of}
use virtvalidation.Base.Distinct.{Distinct, Distinct-append_left, Distinct-perm}
use virtvalidation.Base.Buckets.{in_buckets}
use virtvalidation.Preclassifier.Source.{SourceVm, PrimaryKey, vm_ids_of}
use virtvalidation.Preclassifier.Build.{build_group}
use virtvalidation.Preclassifier.Merge.{Cap, id_set, merge_groups, total_vms}
use virtvalidation.Preclassifier.Classify.{merge_all, collapse_small}
use virtvalidation.Preclassifier.Cluster.{Buckets, build_buckets}
use mathlib.Core.List.{Perm, append_assoc, append-nil, map-append}
use mathlib.Core.List.Perm

abbrev pub group_primary : VmGroup → PrimaryKey
group_primary g = record {
  vcenter_id = g.key.vcenter_id;
  cluster_id = g.key.target_cluster_id;
  namespace = g.key.target_namespace;
  environment = g.key.environment;
}

-- The group has the primary key `k`, and its VM ids are those of some VMs of which `Q` holds.
pub record Formed (Q : SourceVm → Type 0) (k : PrimaryKey) (g : VmGroup) : Type 0 where
  pub keyed : group_primary g ≡ k
  pub vms : List SourceVm
  pub ids : Perm g.vm_ids (vm_ids_of vms)
  pub from : All Q vms

pub build_group-Formed :
    (Q : SourceVm → Type 0) (k : PrimaryKey) (vs : List SourceVm) (discriminator : Text)
    → All Q vs
    → Formed Q k (build_group k vs discriminator)
unfolding build_group
build_group-Formed Q k vs discriminator q = record {
  keyed = refl;
  vms = vs;
  ids = sorted-perm leb (vm_ids_of vs);
  from = q;
}

pub build_group-ids :
    (k : PrimaryKey) (vs : List SourceVm) (discriminator : Text)
    → Perm (build_group k vs discriminator).vm_ids (vm_ids_of vs)
unfolding build_group
build_group-ids k vs discriminator = sorted-perm leb (vm_ids_of vs)

-- The groups of the buckets hold the VMs of the buckets.
pub build_buckets-ids :
    (k : PrimaryKey) (name : Text → Text) (buckets : Buckets)
    → Perm (ids_of (build_buckets k name buckets)) (vm_ids_of (in_buckets buckets))
unfolding build_buckets ids_of
build_buckets-ids k name [] = Perm.refl _
build_buckets-ids k name ((key, vs) ∷ buckets) =
    rw (map-append (λ (v : SourceVm). v.id) vs (in_buckets buckets))
      (Perm.append (build_group-ids k vs (name key)) (build_buckets-ids k name buckets))

pub build_buckets-Formed :
    (Q : SourceVm → Type 0) (k : PrimaryKey) (name : Text → Text) (buckets : Buckets)
    → All (λ (b : Text × List SourceVm). All Q b.1) buckets
    → All (Formed Q k) (build_buckets k name buckets)
unfolding build_buckets
build_buckets-Formed Q k name [] h = tt
build_buckets-Formed Q k name ((key, vs) ∷ buckets) h =
    (build_group-Formed Q k vs (name key) h.0, build_buckets-Formed Q k name buckets h.1)

-- A set of different ids is the list itself.
pub id_set-of_Distinct : (ids : List ℕ) → Distinct ids → id_set ids ≡ ids
id_set-of_Distinct [] h = refl
id_set-of_Distinct (i ∷ ids) h = rw (id_set-of_Distinct ids h.1, h.0) refl

module _ (cap : Cap) where
  pub merge_groups-ids :
      (a b : VmGroup)
      → Distinct (a.vm_ids ++ b.vm_ids)
      → Perm (merge_groups cap a b).vm_ids (a.vm_ids ++ b.vm_ids)
  unfolding merge_groups
  merge_groups-ids a b h =
      Perm.trans (sorted-perm leb (id_set (a.vm_ids ++ b.vm_ids)))
        (rw (id_set-of_Distinct (a.vm_ids ++ b.vm_ids) h) (Perm.refl _))

  pub merge_groups-Formed :
      (Q : SourceVm → Type 0) (k : PrimaryKey) (a b : VmGroup)
      → Distinct (a.vm_ids ++ b.vm_ids)
      → Formed Q k a
      → Formed Q k b
      → Formed Q k (merge_groups cap a b)
  unfolding merge_groups
  merge_groups-Formed Q k a b h fa fb = record {
    keyed = fa.keyed;
    vms = fa.vms ++ fb.vms;
    ids =
        Perm.trans (merge_groups-ids a b h)
          (rw (map-append (λ (v : SourceVm). v.id) fa.vms fb.vms) (Perm.append fa.ids fb.ids));
    from = All-append _ _ _ fa.from fb.from;
  }

  pub merge_step :
      (g h : VmGroup) (hs : List VmGroup)
      → Distinct (g.vm_ids ++ (h.vm_ids ++ ids_of hs))
      → Perm ((merge_groups cap g h).vm_ids ++ ids_of hs) (g.vm_ids ++ (h.vm_ids ++ ids_of hs))
  merge_step g h hs d =
      let d' : Distinct (g.vm_ids ++ h.vm_ids) =
        Distinct-append_left (g.vm_ids ++ h.vm_ids) (ids_of hs)
          (rw (append_assoc g.vm_ids h.vm_ids (ids_of hs)) d) in
      rw (← append_assoc g.vm_ids h.vm_ids (ids_of hs))
        (Perm.append_right (ids_of hs) (merge_groups-ids g h d'))

  pub merge_all-ids :
      (g : VmGroup) (hs : List VmGroup)
      → Distinct (g.vm_ids ++ ids_of hs)
      → Perm (merge_all cap g hs).vm_ids (g.vm_ids ++ ids_of hs)
  unfolding merge_all ids_of
  merge_all-ids g [] d = rw (append-nil g.vm_ids) (Perm.refl _)
  merge_all-ids g (h ∷ hs) d =
      let step = merge_step g h hs d in
      Perm.trans (merge_all-ids (merge_groups cap g h) hs (Distinct-perm _ _ (Perm.symm step) d))
        step

  pub merge_all-Formed :
      (Q : SourceVm → Type 0) (k : PrimaryKey) (g : VmGroup) (hs : List VmGroup)
      → Distinct (g.vm_ids ++ ids_of hs)
      → Formed Q k g
      → All (Formed Q k) hs
      → Formed Q k (merge_all cap g hs)
  unfolding merge_all ids_of
  merge_all-Formed Q k g [] d fg fs = fg
  merge_all-Formed Q k g (h ∷ hs) d fg fs =
      let step = merge_step g h hs d in
      let d' : Distinct (g.vm_ids ++ h.vm_ids) =
        Distinct-append_left (g.vm_ids ++ h.vm_ids) (ids_of hs)
          (rw (append_assoc g.vm_ids h.vm_ids (ids_of hs)) d) in
      merge_all-Formed Q k (merge_groups cap g h) hs (Distinct-perm _ _ (Perm.symm step) d)
        (merge_groups-Formed Q k g h d' fg fs.0) fs.1

  pub collapse_small-ids :
      (gs : List VmGroup) → Distinct (ids_of gs) → Perm (ids_of (collapse_small cap gs)) (ids_of gs)
  unfolding collapse_small ids_of
  collapse_small-ids [] d = Perm.refl _
  collapse_small-ids (g ∷ []) d = Perm.refl _
  collapse_small-ids (g ∷ h ∷ hs) d = elim (Bool-cases (ltb (total_vms (g ∷ h ∷ hs)) 5)) [
    | inl small ↦ rw (small, append-nil) (merge_all-ids g (h ∷ hs) d)
    | inr large ↦ rw large (Perm.refl _)
  ]

  pub collapse_small-Formed :
      (Q : SourceVm → Type 0) (k : PrimaryKey) (gs : List VmGroup)
      → Distinct (ids_of gs)
      → All (Formed Q k) gs
      → All (Formed Q k) (collapse_small cap gs)
  unfolding collapse_small ids_of
  collapse_small-Formed Q k [] d f = tt
  collapse_small-Formed Q k (g ∷ []) d f = f
  collapse_small-Formed Q k (g ∷ h ∷ hs) d f = elim (Bool-cases (ltb (total_vms (g ∷ h ∷ hs)) 5)) [
    | inl small ↦ rw small (merge_all-Formed Q k g (h ∷ hs) d f.0 f.1, tt)
    | inr large ↦ rw large f
  ]
