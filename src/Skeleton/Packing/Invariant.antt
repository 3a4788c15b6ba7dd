-- ===== src/Skeleton/Packing/Invariant.antt =====
-- What holds of the waves after every round of the packing loop.
use virtvalidation.Base.{
  ℕ, ◌+◌, ◌≤◌, ◌≡◌, refl, inl, inr, Bool, true, false, not, ◌&&◌, ◌||◌, Option, none, some, List,
  [], ◌∷◌, ◌++◌, arith, if◌then◌else◌, nat_eq_iff, Bool-cases, ◌==◌, nat_Eq, option_Eq, list_Eq,
  ==→eq, list_eq_iff, length, All, any_by, count_by,
}
use virtvalidation.Base.Dicts.{get_default-put, IsKeyed, Dict, get, get_default}
use virtvalidation.Base.Texts.{Text, codes}
use virtvalidation.Group.{HaMember, VmGroup, group_id, is_ha_peer, ha_count}
use virtvalidation.Skeleton.Wave.{Wave, empty_wave, vm_count, sum_vm_counts}
use virtvalidation.Skeleton.Packing.{
  Limits, Packing, is_primary_group, same_partition, peers_at, bump_family, add_to_wave, put_group,
  start,
}

-- Every group agrees with the first one on vCenter, cluster and namespace.
abbrev pub IsCoherent : List VmGroup → Type 0
IsCoherent [] = Unit
IsCoherent (seed ∷ gs) = All (λ (g : VmGroup). same_partition seed.key g.key ≡ true) gs

unfoldable pub wave_at : Packing → ℕ → Wave
wave_at p n = get_default n (empty_wave n) p.waves

pub wave_at-new : (p : Packing) (n : ℕ) → get n p.waves ≡ none → wave_at p n ≡ empty_wave n
unfolding wave_at
wave_at-new p n e = ground arith

pub wave_at-old : (p : Packing) (n : ℕ) (w : Wave) → get n p.waves ≡ some w → wave_at p n ≡ w
unfolding wave_at
wave_at-old p n w e = ground arith

module _ (families : Dict Text Text) (f : Text) where
  -- The group belongs to the family `f`.
  abbrev pub is_of_family : VmGroup → Bool
  is_of_family g = get (group_id g) families == some f

  -- The HA peers of the family.
  unfoldable pub peer_count : List VmGroup → ℕ
  peer_count [] = 0
  peer_count (g ∷ gs) = (if is_of_family g then ha_count g else 0) + peer_count gs

  -- One of the groups is a primary of the family.
  unfoldable pub has_primary : List VmGroup → Bool
  has_primary [] = false
  has_primary (g ∷ gs) =
      let rest = has_primary gs in if is_of_family g && is_primary_group g then true else rest

  pub peer_count-snoc :
      (gs : List VmGroup) (g : VmGroup)
      → peer_count (gs ++ g ∷ []) ≡ peer_count gs + (if is_of_family g then ha_count g else 0)
  unfolding peer_count
  peer_count-snoc [] g = omega arith
  peer_count-snoc (h ∷ gs) g = omega (arith, peer_count-snoc gs g)

  pub has_primary-snoc :
      (gs : List VmGroup) (g : VmGroup)
      → has_primary (gs ++ g ∷ []) ≡ (has_primary gs || (is_of_family g && is_primary_group g))
  unfolding has_primary
  has_primary-snoc [] g = ground arith
  has_primary-snoc (h ∷ gs) g = ground (arith, has_primary-snoc gs g)

pub sum_vm_counts-snoc :
    (gs : List VmGroup) (g : VmGroup)
    → sum_vm_counts (gs ++ g ∷ []) ≡ sum_vm_counts gs + length g.vm_ids
unfolding sum_vm_counts
sum_vm_counts-snoc [] g = omega arith
sum_vm_counts-snoc (h ∷ gs) g = omega (arith, sum_vm_counts-snoc gs g)

primary-ne-standalone :
    (role : Text) → (role == codes "primary") ≡ true → not (role == codes "standalone") ≡ true
primary-ne-standalone role h = rw (==→eq role (codes "primary") h)

-- A primary is a peer.
pub ha_count-pos : (g : VmGroup) → is_primary_group g ≡ true → 1 ≤ ha_count g
unfolding ha_count is_primary_group is_ha_peer
ha_count-pos g h = go g.ha_members h
  where
    go :
        (ms : List HaMember)
        → any_by (λ (m : HaMember). m.ha_role == codes "primary") ms ≡ true
        → 1 ≤ count_by is_ha_peer ms
    go [] h = cc
    go (m ∷ ms) h = elim (Bool-cases (m.ha_role == codes "primary")) [
      | inl primary ↦ ground (arith, primary-ne-standalone m.ha_role primary)
      | inr other ↦ ground (arith, go ms)
    ]

module _ (limits : Limits) (families : Dict Text Text) where
  pub record IsPacked (p : Packing) : Type 0 where
    pub keyed : IsKeyed p.waves
    pub fresh : (n : ℕ) → get n p.waves ≡ none → (f : Text) → peers_at p.family_per_wave n f ≡ 0
    pub numbered : (n : ℕ) → (wave_at p n).wave_number ≡ n
    pub small : (n : ℕ) → vm_count (wave_at p n) ≤ limits.max_vms
    pub coherent : (n : ℕ) → IsCoherent (wave_at p n).groups

  -- The counters of the HA peers bound them, and a primary is alone in its wave.
  pub record IsSpread (p : Packing) : Type 0 where
    pub counted :
        (n : ℕ) (f : Text)
        → peer_count families f (wave_at p n).groups ≤ peers_at p.family_per_wave n f
    pub capped : (n : ℕ) (f : Text) → peers_at p.family_per_wave n f ≤ limits.max_ha_peers
    pub primary :
        (n : ℕ) (f : Text)
        → has_primary families f (wave_at p n).groups ≡ true
        → (peer_count families f (wave_at p n).groups ≡ 1)
          × (peers_at p.family_per_wave n f ≡ limits.max_ha_peers)

  pub start-IsPacked : IsPacked start
  unfolding wave_at empty_wave peers_at vm_count sum_vm_counts
  start-IsPacked = record {
    keyed = tt;
    fresh = λ n e f. refl;
    numbered = λ n. refl;
    small = λ n. omega arith;
    coherent = λ n. tt;
  }

  pub start-IsSpread : IsSpread start
  unfolding wave_at empty_wave peers_at peer_count has_primary
  start-IsSpread = record {
    counted = λ n f. omega arith;
    capped = λ n f. omega arith;
    primary = λ n f h. cc;
  }

-- The wave `n` after `g` went into wave `t`.
pub wave_at-put_group :
    (limits : Limits) (g : VmGroup) (family : Option Text) (t n : ℕ) (p : Packing)
    → wave_at (put_group limits g family t p) n ≡ (
        if t == n
        then record (wave_at p n) { groups = (wave_at p n).groups ++ g ∷ [] }
        else wave_at p n)
unfolding wave_at put_group add_to_wave
wave_at-put_group limits g family t n p = elim (Bool-cases (t == n)) [
  | inl same ↦ rw same (rw (get_default-put, same) (rw (==→eq t n same)))
  | inr other ↦ rw other (rw (get_default-put, other))
]

-- The counter of the family `f` in wave `n` after `g` went into wave `t`.
pub peers_at-put_group :
    (limits : Limits) (g : VmGroup) (family : Option Text) (t n : ℕ) (f : Text) (p : Packing)
    → peers_at (put_group limits g family t p).family_per_wave n f ≡ (
        if t == n && family == some f
        then (if is_primary_group g
            then limits.max_ha_peers
            else peers_at p.family_per_wave n f + ha_count g)
        else peers_at p.family_per_wave n f)
unfolding put_group bump_family peers_at
peers_at-put_group limits g none t n f p = ground arith
peers_at-put_group limits g (some family) t n f p = elim (Bool-cases (t == n)) [
  | inl same ↦
      rw (get_default-put, same)
        (rw (get_default-put) (ground (arith, list_eq_iff family f, nat_eq_iff t n)))
  | inr other ↦ rw (get_default-put, other) (ground arith)
]
