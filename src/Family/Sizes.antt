-- ===== src/Family/Sizes.antt =====
-- `global_family_sizes` and `by_family` of `split_overconcentrated_families` against plain counts.
use virtvalidation.Base.{
  ==-refl, ℕ, ◌+◌, ◌≤◌, ◌≡◌, ◌≢◌, refl, Bool, false, List, [], ◌∷◌, ◌++◌, inl, inr, if◌then◌else◌,
  ◌==◌, list_Eq, nat_Eq, Bool-cases, length, length-append, count_by, count_by-append, All, arith,
  list_eq_iff,
}
use virtvalidation.Base.Dicts.{
  Dict, get_default, put, push, get_default-increment, get_default-push,
}
use virtvalidation.Base.Texts.{Text}
use virtvalidation.Group.{VmGroup, ids_of}
use virtvalidation.Family.Names.{detect_family}
use virtvalidation.Family.Split.{
  Names, family_of, count_family, count_families, family_sizes_from, bucket_by_family, cap_of,
  needs_split,
}
use virtvalidation.Family.Buckets.{family_count}

module _ (names : Names) (fam : Text) where
  abbrev pub is_counted : ℕ → Bool
  is_counted vid = if get_default vid [] names == [] then false else family_of names vid == fam

  -- The members that have a name.
  abbrev pub named_count : List ℕ → ℕ
  named_count ids = count_by is_counted ids

  get_default-count_families :
      (sizes : Dict Text ℕ) (ids : List ℕ)
      → get_default fam 0 (count_families names sizes ids)
        ≡ get_default fam 0 sizes + named_count ids
  unfolding count_families count_family
  get_default-count_families sizes [] = omega arith
  get_default-count_families sizes (vid ∷ ids) = ground (
    arith,
    get_default-increment (family_of names vid) fam sizes,
    get_default-count_families (count_family names sizes vid) ids,
  )

  pub get_default-family_sizes :
      (sizes : Dict Text ℕ) (gs : List VmGroup)
      → get_default fam 0 (family_sizes_from names sizes gs)
        ≡ get_default fam 0 sizes + named_count (ids_of gs)
  unfolding family_sizes_from ids_of
  get_default-family_sizes sizes [] = omega arith
  get_default-family_sizes sizes (g ∷ gs) = omega (
    arith,
    get_default-count_families sizes g.vm_ids,
    get_default-family_sizes (count_families names sizes g.vm_ids) gs,
    count_by-append is_counted g.vm_ids (ids_of gs),
  )

  -- Only a VM without a name has the empty family by being passed over.
  pub named_count-eq : (ids : List ℕ) → fam ≢ [] → named_count ids ≡ family_count names fam ids
  unfolding family_of detect_family
  named_count-eq [] h = refl
  named_count-eq (vid ∷ ids) h =
      ground
        (arith, named_count-eq ids h, list_eq_iff (get_default vid [] names) [], list_eq_iff [] fam)

  pub length-bucket_by_family :
      (by_family : Dict Text (List ℕ)) (ids : List ℕ)
      → length (get_default fam [] (bucket_by_family names by_family ids))
        ≡ length (get_default fam [] by_family) + family_count names fam ids
  unfolding bucket_by_family
  length-bucket_by_family by_family [] = omega arith
  length-bucket_by_family by_family (vid ∷ ids) = ground (
    arith,
    get_default-push (family_of names vid) fam vid by_family,
    length-append (get_default fam [] by_family) (vid ∷ []),
    length-bucket_by_family (push (family_of names vid) vid by_family) ids,
  )

module _ (bound : Text → ℕ) where
  -- The entry of each family is no longer than a bound on that family.
  abbrev IsBelow : Dict Text (List ℕ) → Type 0
  IsBelow by_family = All (λ (entry : Text × List ℕ). length entry.1 ≤ bound entry.0) by_family

  IsBelow-get :
      (by_family : Dict Text (List ℕ)) (fam : Text)
      → IsBelow by_family
      → length (get_default fam [] by_family) ≤ bound fam
  IsBelow-get [] fam h = omega arith
  IsBelow-get ((f, ids) ∷ rest) fam h = ground (arith, list_eq_iff f fam, IsBelow-get rest fam)

  IsBelow-put :
      (fam : Text) (ids : List ℕ) (by_family : Dict Text (List ℕ))
      → length ids ≤ bound fam
      → IsBelow by_family
      → IsBelow (put fam ids by_family)
  IsBelow-put fam ids [] h hs = (h, tt)
  IsBelow-put fam ids ((f, old) ∷ rest) h hs = elim (Bool-cases (f == fam)) [
    | inl same ↦ rw same (ground (arith, list_eq_iff f fam), hs.1)
    | inr other ↦ rw other (hs.0, IsBelow-put fam ids rest h hs.1)
  ]

module _ (sizes : Dict Text ℕ) where
  -- The check looks at every family of the group.
  pub needs_split_sound :
      (by_family : Dict Text (List ℕ)) (fam : Text)
      → needs_split sizes by_family ≡ false
      → length (get_default fam [] by_family) ≤ cap_of sizes fam
  unfolding needs_split
  needs_split_sound [] fam h = omega arith
  needs_split_sound ((f, ids) ∷ rest) fam h =
      ground (arith, list_eq_iff f fam, needs_split_sound rest fam)

  pub needs_split_complete :
      (by_family : Dict Text (List ℕ))
      → IsBelow (cap_of sizes) by_family
      → needs_split sizes by_family ≡ false
  unfolding needs_split
  needs_split_complete [] h = refl
  needs_split_complete (entry ∷ rest) h = ground (arith, needs_split_complete rest)

module _ (names : Names) (bound : Text → ℕ) where
  pub bucket_by_family-IsBelow :
      (by_family : Dict Text (List ℕ)) (ids : List ℕ)
      → IsBelow bound by_family
      → ((fam : Text)
          → length (get_default fam [] by_family) + family_count names fam ids ≤ bound fam)
      → IsBelow bound (bucket_by_family names by_family ids)
  unfolding bucket_by_family
  bucket_by_family-IsBelow by_family [] h room = h
  bucket_by_family-IsBelow by_family (vid ∷ ids) h room =
      let own = family_of names vid in
      bucket_by_family-IsBelow (push own vid by_family) ids
        (IsBelow-put bound own (get_default own [] by_family ++ vid ∷ []) by_family
          (ground
            (arith, room own, length-append (get_default own [] by_family) (vid ∷ []), ==-refl own))
          h)
        (λ fam. ground (
          arith,
          room fam,
          get_default-push own fam vid by_family,
          length-append (get_default fam [] by_family) (vid ∷ []),
        ))
