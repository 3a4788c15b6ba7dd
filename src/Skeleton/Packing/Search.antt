-- ===== src/Skeleton/Packing/Search.antt =====
-- The search of `_find_target_wave` ends: a wave that does not exist yet always fits.
use virtvalidation.Base.{
  ℕ, zero, suc, ◌+◌, ◌-◌, ◌≤◌, ◌<◌, max, ◌≡◌, inl, inr, true, Option, none, some, [], ◌∷◌, arith,
  leb, Bool-cases, Option-cases, ◌==◌, nat_Eq, option_Eq, list_Eq, length, count_by,
  count_by-le-length,
}
use virtvalidation.Base.Dicts.{Dict, get}
use virtvalidation.Base.Texts.{Text}
use virtvalidation.Group.{VmGroup}
use virtvalidation.Skeleton.Wave.{Wave}
use virtvalidation.Skeleton.Packing.{
  Limits, Packing, partition_fits, vms_fit, peers_at, family_fits, candidate_fits, search_wave,
  find_target_wave,
}

-- The waves from number `c` on.
abbrev waves_from : ℕ → Dict ℕ Wave → ℕ
waves_from c waves = count_by (λ (e : ℕ × Wave). leb c e.0) waves

waves_from_mono : (c : ℕ) (waves : Dict ℕ Wave) → waves_from (c + 1) waves ≤ waves_from c waves
waves_from_mono c [] = omega arith
waves_from_mono c (e ∷ waves) = ground (arith, waves_from_mono c waves)

waves_from-step :
    (c : ℕ) (w : Wave) (waves : Dict ℕ Wave)
    → get c waves ≡ some w
    → waves_from (c + 1) waves < waves_from c waves
waves_from-step c w [] h = cc
waves_from-step c w ((n, v) ∷ waves) h = elim (Bool-cases (n == c)) [
  | inl same ↦ ground (arith, waves_from_mono c waves)
  | inr other ↦ ground (arith, waves_from-step c w waves)
]

module _ (limits : Limits) (p : Packing) (g : VmGroup) (family : Option Text) where
  -- No HA peers are counted for a wave that does not exist.
  abbrev pub IsFresh : Type 0
  IsFresh = (n : ℕ) → get n p.waves ≡ none → (f : Text) → peers_at p.family_per_wave n f ≡ 0

  new_wave-fits :
      (c : ℕ)
      → length g.vm_ids ≤ limits.max_vms
      → IsFresh
      → get c p.waves ≡ none
      → candidate_fits limits p g family c ≡ true
  unfolding candidate_fits partition_fits vms_fit family_fits
  new_wave-fits c small fresh e = elim (Option-cases family) [
    | inl none' ↦ rw (e, none') (ground arith)
    | inr (f, some') ↦ rw (e, some') (ground (arith, fresh c e f))
  ]

  search_wave-finds :
      (left c : ℕ)
      → length g.vm_ids ≤ limits.max_vms
      → IsFresh
      → waves_from c p.waves < left
      → (t : ℕ) × (search_wave limits p g family left c ≡ some t)
  unfolding search_wave
  search_wave-finds zero c small fresh h = absurd (omega arith)
  search_wave-finds (suc left) c small fresh h =
      elim (Bool-cases (candidate_fits limits p g family c)) [
        | inl fits ↦ (c, rw fits)
        | inr full ↦ elim (Option-cases (get c p.waves)) [
          | inl free ↦ cc (new_wave-fits c small fresh free)
          | inr (w, taken) ↦ rw full (
              search_wave-finds left (c + 1) small fresh
                (omega (arith, waves_from-step c w p.waves taken)))
        ]
      ]

  -- If the group has no more VMs than a wave may hold, and no wave that does not exist has HA
  -- peers on its counters, then the search finds a wave: no RuntimeError.
  pub find_target_wave-finds :
      (min_wave : ℕ)
      → length g.vm_ids ≤ limits.max_vms
      → IsFresh
      → (t : ℕ) × (find_target_wave limits p g min_wave family ≡ some t)
  unfolding find_target_wave
  find_target_wave-finds min_wave small fresh =
      search_wave-finds (max (min_wave + length p.waves + 2) 1024 + 1 - min_wave) min_wave small
        fresh (omega (arith, count_by-le-length (λ (e : ℕ × Wave). leb min_wave e.0) p.waves))

  -- The wave that is found fits, and does not come before `min_wave`.
  search_wave-fits :
      (left c t : ℕ)
      → search_wave limits p g family left c ≡ some t
      → (candidate_fits limits p g family t ≡ true) × (c ≤ t)
  unfolding search_wave
  search_wave-fits zero c t h = cc
  search_wave-fits (suc left) c t h = ground (arith, search_wave-fits left (c + 1) t)

  pub find_target_wave-fits :
      (min_wave t : ℕ)
      → find_target_wave limits p g min_wave family ≡ some t
      → (candidate_fits limits p g family t ≡ true) × (min_wave ≤ t)
  unfolding find_target_wave
  find_target_wave-fits min_wave t h =
      search_wave-fits (max (min_wave + length p.waves + 2) 1024 + 1 - min_wave) min_wave t h
