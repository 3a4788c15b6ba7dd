-- ===== src/Skeleton/Packing/Preserve.antt =====
-- Every round of the packing loop keeps the invariant.
use virtvalidation.Base.{
  ℕ, ◌+◌, ◌≤◌, ◌≡◌, refl, inl, inr, Bool, true, Option, none, some, List, [], ◌∷◌, ◌++◌, arith, leb,
  if◌then◌else◌, leb→le, Bool-cases, Option-cases, ◌==◌, nat_Eq, option_Eq, list_Eq, ==→eq, length,
  All-append,
}
use virtvalidation.Base.Dicts.{put-IsKeyed, Dict, get, get_default, get-put}
use virtvalidation.Base.Texts.{Text}
use virtvalidation.Group.{VmGroup, group_id, ha_count}
use virtvalidation.Skeleton.Wave.{empty_wave, vm_count, sum_vm_counts}
use virtvalidation.Skeleton.Packing.{
  Limits, Packing, is_primary_group, effective_family_cap, same_partition, partition_fits, vms_fit,
  peers_at, family_fits, candidate_fits, add_to_wave, put_group,
}
use virtvalidation.Skeleton.Packing.Invariant.{
  IsCoherent, wave_at, wave_at-new, wave_at-old, is_of_family, peer_count, has_primary,
  peer_count-snoc, has_primary-snoc, sum_vm_counts-snoc, ha_count-pos, IsPacked, IsSpread,
  wave_at-put_group, peers_at-put_group,
}

-- The seed of the wave, if it has one, agrees with the group.
abbrev seed_fits : List VmGroup → VmGroup → Bool
seed_fits [] g = true
seed_fits (seed ∷ gs) g = same_partition seed.key g.key

IsCoherent-snoc :
    (gs : List VmGroup) (g : VmGroup)
    → IsCoherent gs
    → seed_fits gs g ≡ true
    → IsCoherent (gs ++ g ∷ [])
IsCoherent-snoc [] g h fits = tt
IsCoherent-snoc (seed ∷ gs) g h fits = All-append _ gs (g ∷ []) h (fits, tt)

module _ (limits : Limits) (families : Dict Text Text) (p : Packing) (g : VmGroup) (t : ℕ) where
  abbrev family : Option Text
  family = get (group_id g) families

  abbrev after : Packing
  after = put_group limits g family t p

  partition_fits-seed :
      partition_fits g (get t p.waves) ≡ true → seed_fits (wave_at p t).groups g ≡ true
  unfolding partition_fits empty_wave
  partition_fits-seed h = elim (Option-cases (get t p.waves)) [
    | inl new ↦ rw (wave_at-new p t new)
    | inr (w, old) ↦ rw (wave_at-old p t w old) (go w.groups (rw old at h))
  ]
    where
      go :
          (gs : List VmGroup)
          → (elim gs [ [] ↦ true | seed ∷ _ ↦ same_partition seed.key g.key ]) ≡ true
          → seed_fits gs g ≡ true
      go [] h = refl
      go (seed ∷ gs) h = h

  vms_fit-room :
      vms_fit limits g (get t p.waves) ≡ true
      → vm_count (wave_at p t) + length g.vm_ids ≤ limits.max_vms
  unfolding vms_fit empty_wave vm_count sum_vm_counts
  vms_fit-room h = elim (Option-cases (get t p.waves)) [
    | inl new ↦ rw (wave_at-new p t new) (leb→le _ _ (rw new at h))
    | inr (w, old) ↦ rw (wave_at-old p t w old) (leb→le _ _ (rw old at h))
  ]

  module _ (fits : candidate_fits limits p g family t ≡ true) where
    fits-parts :
        (partition_fits g (get t p.waves) ≡ true)
        × (vms_fit limits g (get t p.waves) ≡ true)
        × (family_fits limits p.family_per_wave g family t ≡ true)
    unfolding candidate_fits
    fits-parts = ground arith

  module _ (inv : IsPacked limits families p)
      (fits : candidate_fits limits p g family t ≡ true) where
    small-after : (n : ℕ) → vm_count (wave_at after n) ≤ limits.max_vms
    unfolding vm_count
    small-after n = rw (wave_at-put_group limits g family t n p) (elim (Bool-cases (t == n)) [
      | inl same ↦
          rw (same, sum_vm_counts-snoc) (rw (==→eq t n same) at (vms_fit-room (fits-parts fits).1))
      | inr other ↦ rw other (inv.small n)
    ])

    IsCoherent-after : (n : ℕ) → IsCoherent (wave_at after n).groups
    IsCoherent-after n = rw (wave_at-put_group limits g family t n p) (elim (Bool-cases (t == n)) [
      | inl same ↦ rw same (
          IsCoherent-snoc (wave_at p n).groups g (inv.coherent n)
            (rw (==→eq t n same) at (partition_fits-seed (fits-parts fits).0)))
      | inr other ↦ rw other (inv.coherent n)
    ])

    numbered-after : (n : ℕ) → (wave_at after n).wave_number ≡ n
    numbered-after n = rw (wave_at-put_group limits g family t n p) (elim (Bool-cases (t == n)) [
      | inl same ↦ rw same (inv.numbered n)
      | inr other ↦ rw other (inv.numbered n)
    ])

    fresh-after :
        (n : ℕ) → get n after.waves ≡ none → (f : Text) → peers_at after.family_per_wave n f ≡ 0
    unfolding put_group add_to_wave
    fresh-after n none' f =
        let missing : (if t == n
              then some (record (get_default t (empty_wave t) p.waves) {
                groups = (get_default t (empty_wave t) p.waves).groups ++ g ∷ [];
              })
              else get n p.waves)
            ≡ none =
          rw get-put at none' in
        rw (peers_at-put_group limits g family t n f p) (elim (Bool-cases (t == n)) [
          | inl same ↦ cc (rw same at missing)
          | inr other ↦ rw other (inv.fresh n (rw other at missing) f)
        ])

  module _ (inv : IsSpread limits families p) (fits : candidate_fits limits p g family t ≡ true)
      (alone : leb (ha_count g) (effective_family_cap limits g) ≡ true)
      (positive : 1 ≤ limits.max_ha_peers) where
    -- The counter of the group's family leaves room for the group.
    family-room :
        (f : Text)
        → is_of_family families f g ≡ true
        → peers_at p.family_per_wave t f + ha_count g
          ≤ (if is_primary_group g then 1 else limits.max_ha_peers)
    unfolding family_fits effective_family_cap
    family-room f own =
        let e : family ≡ some f = ==→eq family (some f) own in
        ground (arith, alone, (fits-parts fits).2, e)

    room-in :
        (n : ℕ) (f : Text)
        → (t == n) ≡ true
        → is_of_family families f g ≡ true
        → peers_at p.family_per_wave n f + ha_count g
          ≤ (if is_primary_group g then 1 else limits.max_ha_peers)
    room-in n f same own = rw (==→eq t n same) at (family-room f own)

    capped-after : (n : ℕ) (f : Text) → peers_at after.family_per_wave n f ≤ limits.max_ha_peers
    capped-after n f = rw (peers_at-put_group limits g family t n f p) (elim (Bool-cases (t == n)) [
      | inl same ↦ elim (Bool-cases (is_of_family families f g)) [
        | inl own ↦ rw (same, own) (ground (arith, room-in n f same own))
        | inr foreign ↦ rw (same, foreign) (inv.capped n f)
      ]
      | inr other ↦ rw other (inv.capped n f)
    ])

    counted-after :
        (n : ℕ) (f : Text)
        → peer_count families f (wave_at after n).groups ≤ peers_at after.family_per_wave n f
    counted-after n f =
        rw (peers_at-put_group limits g family t n f p, wave_at-put_group limits g family t n p)
          (elim (Bool-cases (t == n)) [
            | inl same ↦ elim (Bool-cases (is_of_family families f g)) [
              | inl own ↦
                  rw (same, own, peer_count-snoc)
                    (rw own (ground (arith, room-in n f same own, inv.counted n f)))
              | inr foreign ↦
                  rw (same, foreign, peer_count-snoc) (rw foreign (omega (arith, inv.counted n f)))
            ]
            | inr other ↦ rw other (inv.counted n f)
          ])

    primary-after :
        (n : ℕ) (f : Text)
        → has_primary families f (wave_at after n).groups ≡ true
        → (peer_count families f (wave_at after n).groups ≡ 1)
          × (peers_at after.family_per_wave n f ≡ limits.max_ha_peers)
    primary-after n f =
        rw (peers_at-put_group limits g family t n f p, wave_at-put_group limits g family t n p)
          (elim (Bool-cases (t == n)) [
            | inl same ↦ elim (Bool-cases (is_of_family families f g)) [
              | inl own ↦
                  rw (same, own, peer_count-snoc, has_primary-snoc)
                    (rw own (λ h. ground (
                      arith,
                      room-in n f same own,
                      inv.counted n f,
                      inv.primary n f,
                      ha_count-pos g,
                    )))
              | inr foreign ↦
                  rw (same, foreign, peer_count-snoc, has_primary-snoc)
                    (rw foreign (λ h. ground (arith, inv.primary n f)))
            ]
            | inr other ↦ rw other (inv.primary n f)
          ])

  pub put_group-IsPacked :
      IsPacked limits families p
      → candidate_fits limits p g family t ≡ true
      → IsPacked limits families after
  unfolding put_group add_to_wave
  put_group-IsPacked inv fits = record {
    keyed = put-IsKeyed t _ p.waves inv.keyed;
    fresh = fresh-after inv fits;
    numbered = numbered-after inv fits;
    small = small-after inv fits;
    coherent = IsCoherent-after inv fits;
  }

  pub put_group-IsSpread :
      IsSpread limits families p
      → candidate_fits limits p g family t ≡ true
      → leb (ha_count g) (effective_family_cap limits g) ≡ true
      → 1 ≤ limits.max_ha_peers
      → IsSpread limits families after
  put_group-IsSpread inv fits alone positive = record {
    counted = counted-after inv fits alone positive;
    capped = capped-after inv fits alone positive;
    primary = primary-after inv fits alone positive;
  }
