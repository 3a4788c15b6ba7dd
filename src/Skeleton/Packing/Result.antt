-- ===== src/Skeleton/Packing/Result.antt =====
-- The packing loop as a whole: it places every group, in waves that keep the limits.
use virtvalidation.Base.{
  ℕ, ◌≤◌, ◌≡◌, refl, inl, inr, true, none, some, List, [], ◌∷◌, ◌++◌, arith, leb, Bool-cases, ◌==◌,
  nat_Eq, option_Eq, list_Eq, length, All,
}
use virtvalidation.Base.Dicts.{Dict, get, put}
use virtvalidation.Base.Texts.{Text}
use virtvalidation.Group.{VmGroup, group_id, ha_count}
use virtvalidation.Base.Rearranged.{collect}
use virtvalidation.Skeleton.Wave.{Wave, empty_wave}
use virtvalidation.Skeleton.Packing.{
  Limits, Packing, min_wave_from_deps, effective_family_cap, candidate_fits, put_group, add_to_wave,
  place_group, pack,
}
use virtvalidation.Skeleton.Packing.Search.{find_target_wave-finds, find_target_wave-fits}
use virtvalidation.Skeleton.Packing.Invariant.{IsPacked, IsSpread}
use virtvalidation.Skeleton.Packing.Preserve.{put_group-IsPacked, put_group-IsSpread}
use mathlib.Core.List.{Perm, append_assoc, append-nil, perm_middle}
use mathlib.Core.List.Perm

-- The groups of all waves.
abbrev pub groups_in : Dict ℕ Wave → List VmGroup
groups_in waves = collect (λ (e : ℕ × Wave). e.1.groups) waves

abbrev old_groups : ℕ → Dict ℕ Wave → List VmGroup
old_groups t waves = elim (get t waves) [ none ↦ [] | some w ↦ w.groups ]

groups_in-put :
    (g : VmGroup) (t : ℕ) (w : Wave) (waves : Dict ℕ Wave)
    → w.groups ≡ old_groups t waves ++ g ∷ []
    → Perm (groups_in (put t w waves)) (g ∷ groups_in waves)
groups_in-put g t w [] h = rw (h, append-nil) (Perm.refl _)
groups_in-put g t w ((n, v) ∷ waves) h = elim (Bool-cases (n == t)) [
  | inl same ↦
      let h' : w.groups ≡ v.groups ++ g ∷ [] = ground arith in
      rw (same, h', append_assoc) (perm_middle v.groups (groups_in waves))
  | inr other ↦
      let h' : w.groups ≡ old_groups t waves ++ g ∷ [] = ground arith in
      rw other (
        Perm.trans (Perm.append_left v.groups (groups_in-put g t w waves h'))
          (perm_middle v.groups (groups_in waves)))
]

add_to_wave-perm :
    (g : VmGroup) (t : ℕ) (waves : Dict ℕ Wave)
    → Perm (groups_in (add_to_wave g t waves)) (g ∷ groups_in waves)
unfolding add_to_wave empty_wave
add_to_wave-perm g t waves = groups_in-put g t _ waves (ground arith)

module _ (limits : Limits) (families : Dict Text Text) where
  -- The group is small enough for a wave of its own.
  abbrev pub IsSmall : VmGroup → Type 0
  IsSmall g = length g.vm_ids ≤ limits.max_vms

  -- The group has no more HA peers than a wave may hold.
  abbrev pub IsAlone : VmGroup → Type 0
  IsAlone g = leb (ha_count g) (effective_family_cap limits g) ≡ true

  -- What one round gives.
  pub record Placed (g : VmGroup) (p : Packing) : Type 0 where
    pub target : ℕ
    pub placed :
        place_group limits families g p
        ≡ some (put_group limits g (get (group_id g) families) target p)
    pub fits : candidate_fits limits p g (get (group_id g) families) target ≡ true
    pub late : min_wave_from_deps g p.wave_for_group ≤ target

  pub place_group-Placed :
      (g : VmGroup) (p : Packing) → IsPacked limits families p → IsSmall g → Placed g p
  unfolding place_group
  place_group-Placed g p inv small =
      let family = get (group_id g) families in
      let min_wave = min_wave_from_deps g p.wave_for_group in
      let (t, found) = find_target_wave-finds limits p g family min_wave small inv.fresh in
      let (fits, late) = find_target_wave-fits limits p g family min_wave t found in
      record { target = t; placed = rw (found, place_group); fits = fits; late = late }

  -- What the whole loop gives.
  pub record Packed (gs : List VmGroup) (p : Packing) : Type 0 where
    pub end : Packing
    pub packed : pack limits families gs p ≡ some end
    pub inv : IsPacked limits families end
    pub all_placed : Perm (groups_in end.waves) (gs ++ groups_in p.waves)
    pub spread :
        IsSpread limits families p
        → All IsAlone gs
        → 1 ≤ limits.max_ha_peers
        → IsSpread limits families end

  pub pack-Packed :
      (gs : List VmGroup) (p : Packing) → IsPacked limits families p → All IsSmall gs → Packed gs p
  unfolding pack put_group
  pack-Packed [] p inv small = record {
    end = p;
    packed = refl;
    inv = inv;
    all_placed = Perm.refl _;
    spread = λ s _ _. s;
  }
  pack-Packed (g ∷ gs) p inv small =
      let one = place_group-Placed g p inv small.0 in
      let next = put_group limits g (get (group_id g) families) one.target p in
      let rest =
        pack-Packed gs next (put_group-IsPacked limits families p g one.target inv one.fits)
          small.1 in
      record {
        end = rest.end;
        packed = rw (one.placed, pack) rest.packed;
        inv = rest.inv;
        all_placed = Perm.trans rest.all_placed (
            Perm.trans (Perm.append_left gs (add_to_wave-perm g one.target p.waves))
              (perm_middle gs (groups_in p.waves)));
        spread = λ s alone positive.
            rest.spread
              (put_group-IsSpread limits families p g one.target s one.fits alone.0 positive)
              alone.1 positive;
      }
