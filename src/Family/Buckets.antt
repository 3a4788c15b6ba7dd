-- ===== src/Family/Buckets.antt =====
-- The two dicts of `split_overconcentrated_families`, and its buckets, against plain counts.
use virtvalidation.Base.{
  ℕ, ◌≤◌, ◌≡◌, refl, true, List, [], ◌∷◌, ◌++◌, inl, inr, ltb, ◌==◌, list_Eq, nat_Eq, Bool-cases,
  count_by, count_by-append, All, arith, list_eq_iff,
}
use virtvalidation.Base.Dicts.{Dict, get_default, increment, get_default-increment}
use virtvalidation.Base.Texts.{Text}
use virtvalidation.Family.Names.{family_cap}
use virtvalidation.Family.Split.{Names, family_of, cap_of, Bucket, place, place_all, first_buckets}
use mathlib.Core.List.{Perm, append_assoc, append-nil, perm_middle}
use mathlib.Core.List.Perm

-- The members of a family in a list of VMs.
abbrev pub family_count : Names → Text → List ℕ → ℕ
family_count names fam ids = count_by (λ vid. family_of names vid == fam) ids

-- The VMs of all buckets.
abbrev pub bucket_ids : List Bucket → List ℕ
bucket_ids [] = []
bucket_ids (b ∷ bs) = b.members ++ bucket_ids bs

module _ (names : Names) (sizes : Dict Text ℕ) where
  -- The counter is right, and no family has more than its cap.
  pub record IsCapped (b : Bucket) : Type 0 where
    pub counted : (fam : Text) → get_default fam 0 b.counts ≡ family_count names fam b.members
    pub capped : (fam : Text) → family_count names fam b.members ≤ cap_of sizes fam

  cap_of-pos : (fam : Text) → 1 ≤ cap_of sizes fam
  unfolding cap_of family_cap
  cap_of-pos fam = ground arith

  new-IsCapped :
      (vid : ℕ) → IsCapped (record { members = vid ∷ []; counts = (family_of names vid, 1) ∷ [] })
  new-IsCapped vid = record {
    counted = λ fam. ground arith;
    capped = λ fam. ground (arith, cap_of-pos fam);
  }

  joined-IsCapped :
      (vid : ℕ) (b : Bucket)
      → IsCapped b
      → ltb (get_default (family_of names vid) 0 b.counts) (cap_of sizes (family_of names vid))
        ≡ true
      → IsCapped (record {
        members = b.members ++ vid ∷ [];
        counts = increment (family_of names vid) b.counts;
      })
  joined-IsCapped vid b c room = record {
    counted = λ fam.
        rw
          (
            get_default-increment (family_of names vid) fam b.counts,
            count_by-append _ b.members (vid ∷ []),
          )
          (omega (arith, c.counted fam));
    capped = λ fam.
        rw (count_by-append (λ v. family_of names v == fam) b.members (vid ∷ []))
          (ground (arith, list_eq_iff (family_of names vid) fam, c.counted fam, c.capped fam));
  }

  place-IsCapped :
      (vid : ℕ) (bs : List Bucket)
      → All IsCapped bs
      → All IsCapped (place (family_of names vid) (cap_of sizes (family_of names vid)) vid bs)
  unfolding place
  place-IsCapped vid [] h = (new-IsCapped vid, tt)
  place-IsCapped vid (b ∷ bs) h =
      elim (Bool-cases
        (ltb (get_default (family_of names vid) 0 b.counts) (cap_of sizes (family_of names vid)))) [
          | inl room ↦ rw room (joined-IsCapped vid b h.0 room, h.1)
          | inr full ↦ rw full (h.0, place-IsCapped vid bs h.1)
        ]

  pub place_all-IsCapped :
      (bs : List Bucket) (vids : List ℕ)
      → All IsCapped bs
      → All IsCapped (place_all names sizes bs vids)
  unfolding place_all
  place_all-IsCapped bs [] h = h
  place_all-IsCapped bs (vid ∷ vids) h =
      place_all-IsCapped (place (family_of names vid) (cap_of sizes (family_of names vid)) vid bs)
        vids (place-IsCapped vid bs h)

  pub first_buckets-IsCapped : All IsCapped first_buckets
  first_buckets-IsCapped = (record { counted = λ fam. refl; capped = λ fam. omega arith }, tt)

place-perm :
    (fam : Text) (cap vid : ℕ) (bs : List Bucket)
    → Perm (bucket_ids (place fam cap vid bs)) (vid ∷ bucket_ids bs)
unfolding place
place-perm fam cap vid [] = Perm.refl _
place-perm fam cap vid (b ∷ bs) = elim (Bool-cases (ltb (get_default fam 0 b.counts) cap)) [
  | inl room ↦ rw (room, append_assoc) (perm_middle b.members (bucket_ids bs))
  | inr full ↦ rw full (
      Perm.trans (Perm.append_left b.members (place-perm fam cap vid bs))
        (perm_middle b.members (bucket_ids bs)))
]

pub place_all-perm :
    (names : Names) (sizes : Dict Text ℕ) (bs : List Bucket) (vids : List ℕ)
    → Perm (bucket_ids (place_all names sizes bs vids)) (bucket_ids bs ++ vids)
unfolding place_all
place_all-perm names sizes bs [] = rw append-nil (Perm.refl _)
place_all-perm names sizes bs (vid ∷ vids) =
    Perm.trans
      (place_all-perm names sizes
        (place (family_of names vid) (cap_of sizes (family_of names vid)) vid bs) vids)
      (Perm.trans (Perm.append_right vids (place-perm _ _ vid bs))
        (Perm.symm (perm_middle (bucket_ids bs) vids)))
