-- ===== src/Family/Cap.antt =====
-- What Stage 3 promises: no VM is lost or doubled, and no group holds more members of a family than
-- the cap that the family's size in the whole plan sets.
use virtvalidation.Base.{
  ℕ, ◌+◌, ◌≤◌, ◌≡◌, refl, ap, ◌≢◌, inl, inr, false, List, [], ◌∷◌, arith, leb, nat_eq, Bool-cases,
  ◌==◌, nat_Eq, option_Eq, list_Eq, length, All, All-append, All-imp, count_by-perm,
}
use virtvalidation.Base.Dicts.{Dict, get_default}
use virtvalidation.Base.Texts.{Text}
use virtvalidation.Base.Sorting.{sorted, sorted-perm}
use virtvalidation.Group.{VmGroup, ids_of, ids_of-append}
use virtvalidation.Family.Names.{family_cap}
use virtvalidation.Family.Split.{
  Names, family_of, family_sizes_from, bucket_by_family, cap_of, needs_split, Bucket, place_all,
  first_buckets, sub_group, sub_groups, split_by_buckets, split_group, split_groups,
  split_overconcentrated_families,
}
use virtvalidation.Family.Buckets.{
  family_count, bucket_ids, IsCapped, place_all-IsCapped, first_buckets-IsCapped, place_all-perm,
}
use virtvalidation.Family.Sizes.{
  is_counted, get_default-family_sizes, named_count-eq, length-bucket_by_family, needs_split_sound,
  needs_split_complete, bucket_by_family-IsBelow,
}
use mathlib.Core.List.{Perm, append-nil}
use mathlib.Core.List.Perm

module _ (names : Names) (sizes : Dict Text ℕ) where
  -- No family has more members in the group than its cap.
  abbrev pub IsWithin : VmGroup → Type 0
  IsWithin g = (fam : Text) → family_count names fam g.vm_ids ≤ cap_of sizes fam

  sub_group-IsWithin :
      (g : VmGroup) (total n : ℕ) (b : Bucket)
      → IsCapped names sizes b
      → IsWithin (sub_group g total n b)
  unfolding sub_group
  sub_group-IsWithin g total n b c fam =
      rw (count_by-perm (λ vid. family_of names vid == fam) (sorted-perm leb b.members))
        (c.capped fam)

  sub_groups-IsWithin :
      (g : VmGroup) (total n : ℕ) (bs : List Bucket)
      → All (IsCapped names sizes) bs
      → All IsWithin (sub_groups g total n bs)
  unfolding sub_groups
  sub_groups-IsWithin g total n [] h = tt
  sub_groups-IsWithin g total n (b ∷ bs) h =
      (sub_group-IsWithin g total n b h.0, sub_groups-IsWithin g total (n + 1) bs h.1)

  ids_of-sub_groups :
      (g : VmGroup) (total n : ℕ) (bs : List Bucket)
      → Perm (ids_of (sub_groups g total n bs)) (bucket_ids bs)
  unfolding sub_groups sub_group ids_of
  ids_of-sub_groups g total n [] = Perm.refl _
  ids_of-sub_groups g total n (b ∷ bs) =
      Perm.append (sorted-perm leb b.members) (ids_of-sub_groups g total (n + 1) bs)

  split_by_buckets-IsWithin :
      (g : VmGroup) (bs : List Bucket)
      → All (IsCapped names sizes) bs
      → Perm (bucket_ids bs) g.vm_ids
      → All IsWithin (split_by_buckets g bs)
  unfolding split_by_buckets
  split_by_buckets-IsWithin g [] h p = tt
  split_by_buckets-IsWithin g (b ∷ []) h p = (
    λ fam. rw (← count_by-perm (λ vid. family_of names vid == fam) p, append-nil) (h.0.capped fam),
    tt,
  )
  split_by_buckets-IsWithin g (b ∷ c ∷ bs) h p =
      ground (arith, sub_groups-IsWithin g (length (b ∷ c ∷ bs)) 1 (b ∷ c ∷ bs) h)

  split_by_buckets-perm :
      (g : VmGroup) (bs : List Bucket)
      → Perm (bucket_ids bs) g.vm_ids
      → Perm (ids_of (split_by_buckets g bs)) g.vm_ids
  unfolding split_by_buckets sub_groups ids_of
  split_by_buckets-perm g [] p = p
  split_by_buckets-perm g (b ∷ []) p = rw append-nil (Perm.refl _)
  split_by_buckets-perm g (b ∷ c ∷ bs) p =
      let many : nat_eq (length (b ∷ c ∷ bs)) 1 ≡ false = ground arith in
      rw many (Perm.trans (ids_of-sub_groups g (length (b ∷ c ∷ bs)) 1 (b ∷ c ∷ bs)) p)

  -- The buckets that a group is split by hold its VMs.
  buckets-perm :
      (ids : List ℕ) → Perm (bucket_ids (place_all names sizes first_buckets (sorted leb ids))) ids
  buckets-perm ids =
      Perm.trans (place_all-perm names sizes first_buckets (sorted leb ids)) (sorted-perm leb ids)

  split_group-IsWithin : (g : VmGroup) → All IsWithin (split_group names sizes g)
  unfolding split_group
  split_group-IsWithin g =
      elim (Bool-cases (needs_split sizes (bucket_by_family names [] g.vm_ids))) [
        | inl over ↦ rw over (
            split_by_buckets-IsWithin g _
              (place_all-IsCapped names sizes first_buckets (sorted leb g.vm_ids)
                (first_buckets-IsCapped names sizes))
              (buckets-perm g.vm_ids))
        | inr fits ↦ rw fits (
          λ fam. omega (
            arith,
            needs_split_sound sizes (bucket_by_family names [] g.vm_ids) fam fits,
            length-bucket_by_family names fam [] g.vm_ids,
          ),
          tt,
        )
      ]

  split_group-perm : (g : VmGroup) → Perm (ids_of (split_group names sizes g)) g.vm_ids
  unfolding split_group ids_of
  split_group-perm g = elim (Bool-cases (needs_split sizes (bucket_by_family names [] g.vm_ids))) [
    | inl over ↦ rw over (
        split_by_buckets-perm g (place_all names sizes first_buckets (sorted leb g.vm_ids))
          (buckets-perm g.vm_ids))
    | inr fits ↦ rw (fits, append-nil) (Perm.refl _)
  ]

  split_groups-IsWithin : (gs : List VmGroup) → All IsWithin (split_groups names sizes gs)
  unfolding split_groups
  split_groups-IsWithin [] = tt
  split_groups-IsWithin (g ∷ gs) =
      All-append IsWithin _ _ (split_group-IsWithin g) (split_groups-IsWithin gs)

  split_groups-perm : (gs : List VmGroup) → Perm (ids_of (split_groups names sizes gs)) (ids_of gs)
  unfolding split_groups ids_of
  split_groups-perm [] = Perm.refl _
  split_groups-perm (g ∷ gs) =
      rw ids_of-append (Perm.append (split_group-perm g) (split_groups-perm gs))

  split_group_of_IsWithin : (g : VmGroup) → IsWithin g → split_group names sizes g ≡ g ∷ []
  unfolding split_group
  split_group_of_IsWithin g h = rw (
      needs_split_complete sizes (bucket_by_family names [] g.vm_ids) (
        bucket_by_family-IsBelow names (cap_of sizes) [] g.vm_ids tt (λ fam. omega (arith, h fam))))

  split_groups_of_IsWithin :
      (gs : List VmGroup) → All IsWithin gs → split_groups names sizes gs ≡ gs
  unfolding split_groups
  split_groups_of_IsWithin [] h = refl
  split_groups_of_IsWithin (g ∷ gs) h =
      rw (split_group_of_IsWithin g h.0, split_groups_of_IsWithin gs h.1)

-- Stage 3 splits groups and does nothing else to the membership: the VMs of all groups together are
-- the same, each as often as before.
pub split_overconcentrated_families-perm :
    (names : Names) (gs : List VmGroup)
    → Perm (ids_of (split_overconcentrated_families names gs)) (ids_of gs)
unfolding split_overconcentrated_families
split_overconcentrated_families-perm names gs =
    split_groups-perm names (family_sizes_from names [] gs) gs

-- After Stage 3 no group holds more VMs of a name family than `family_cap` of the number of VMs
-- that share it in all the groups together, where the family is not the empty text, which stands
-- for the VMs without a name.
pub split_overconcentrated_families-capped :
    (names : Names) (gs : List VmGroup) (fam : Text)
    → fam ≢ []
    → All
        (λ (g : VmGroup).
          family_count names fam g.vm_ids ≤ family_cap (family_count names fam (ids_of gs)))
        (split_overconcentrated_families names gs)
unfolding split_overconcentrated_families cap_of
split_overconcentrated_families-capped names gs fam named =
    let sizes = family_sizes_from names [] gs in
    let size : get_default fam 0 sizes ≡ family_count names fam (ids_of gs) = omega (
      arith,
      get_default-family_sizes names fam [] gs,
      named_count-eq names fam (ids_of gs) named,
    ) in
    All-imp (split_groups names sizes gs) (λ g h. rw size at (h fam))
      (split_groups-IsWithin names sizes gs)

-- The sizes that Stage 3 reads are those of the VMs, however they are grouped.
cap_of-perm :
    (names : Names) (fam : Text) (gs hs : List VmGroup)
    → Perm (ids_of gs) (ids_of hs)
    → cap_of (family_sizes_from names [] gs) fam ≡ cap_of (family_sizes_from names [] hs) fam
unfolding cap_of
cap_of-perm names fam gs hs p =
    let same : get_default fam 0 (family_sizes_from names [] gs)
        ≡ get_default fam 0 (family_sizes_from names [] hs) =
      omega (
        arith,
        get_default-family_sizes names fam [] gs,
        get_default-family_sizes names fam [] hs,
        count_by-perm (is_counted names fam) p,
      ) in
    ap family_cap same

-- Stage 3 is idempotent: a second run changes nothing.
pub split_overconcentrated_families_idem :
    (names : Names) (gs : List VmGroup)
    → split_overconcentrated_families names (split_overconcentrated_families names gs)
      ≡ split_overconcentrated_families names gs
unfolding split_overconcentrated_families
split_overconcentrated_families_idem names gs =
    let sizes = family_sizes_from names [] gs in
    let once = split_groups names sizes gs in
    split_groups_of_IsWithin names (family_sizes_from names [] once) once (
      All-imp once
        (λ g h fam. rw (cap_of-perm names fam once gs (split_groups-perm names sizes gs)) (h fam))
        (split_groups-IsWithin names sizes gs))
