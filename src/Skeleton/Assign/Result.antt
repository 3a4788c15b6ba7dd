-- ===== src/Skeleton/Assign/Result.antt =====
-- `assign_waves`: it always returns, and the waves hold every VM within the limits.
use virtvalidation.Base.{
  ℕ, ◌≤◌, ◌≡◌, refl, sym, ◌∙◌, subst, some, List, [], ◌∷◌, map, arith, le→leb, nat_Eq, option_Eq,
  list_Eq, All, All-imp, All-perm,
}
use virtvalidation.Base.Dicts.{Dict}
use virtvalidation.Base.Texts.{Text}
use virtvalidation.Group.{VmGroup, ha_count, ids_of}
use virtvalidation.Base.Rearranged.{collect}
use virtvalidation.Base.Distinct.{Distinct}
use virtvalidation.Skeleton.Wave.{Wave, vm_count, wave_vm_ids, sum_vm_counts}
use virtvalidation.Skeleton.HaFamily.{detect_ha_families, group_to_family}
use virtvalidation.Skeleton.Oversized.{split_oversized_groups}
use virtvalidation.Skeleton.Oversized.Batches.{
  split_oversized_groups-small, split_oversized_groups-perm,
}
use virtvalidation.Skeleton.Order.{topological_sort}
use virtvalidation.Skeleton.Order.Complete.{group_ids, topological_sort-perm}
use virtvalidation.Skeleton.Packing.{
  Limits, Packing, effective_family_cap, start, finalize, pack_ordered, assign_waves,
}
use virtvalidation.Skeleton.Packing.Invariant.{wave_at, IsSpread, start-IsPacked, start-IsSpread}
use virtvalidation.Skeleton.Packing.Result.{IsSmall, Packed, pack-Packed}
use virtvalidation.Skeleton.Assign.{
  IsOnePartition, IsOnePartition-of_IsCoherent, IsOnePartition-perm, sum_vm_counts-perm,
  IsSpreadWave, IsSpreadWave-perm, groups_of, numbers_from, finalize-perm, finalize-All,
  finalize-numbers, entries-All, ids_of-groups, ids_of-perm,
}
use mathlib.Core.List.{Perm, append-nil}
use mathlib.Core.List.Perm
use native.Mathlib.Bridge.{le_prop}

-- The group has no more HA peers than a wave may hold.
abbrev pub HasFewPeers : Limits → VmGroup → Type 0
HasFewPeers limits g = ha_count g ≤ effective_family_cap limits g

-- What is true of the waves of a list of groups that are small enough.
record Assigned (limits : Limits) (families : Dict Text Text) (gs : List VmGroup) (ws : List Wave)
    : Type 0 where
  all_placed : Perm (groups_of ws) gs
  small : All (λ (w : Wave). vm_count w ≤ limits.max_vms) ws
  coherent : All (λ (w : Wave). IsOnePartition w.groups) ws
  numbers : map (λ (w : Wave). w.wave_number) ws ≡ numbers_from 1 ws
  spread :
      All (HasFewPeers limits) gs
      → 1 ≤ limits.max_ha_peers
      → All (λ (w : Wave). IsSpreadWave limits families w.groups) ws

module _ (limits : Limits) (families : Dict Text Text) where
  IsSpreadWave-of_IsSpread :
      (p : Packing)
      → IsSpread limits families p
      → (n : ℕ) → IsSpreadWave limits families (wave_at p n).groups
  unfolding IsSpreadWave
  IsSpreadWave-of_IsSpread p s n f =
      (omega (arith, s.counted n f, s.capped n f), λ h. (s.primary n f h).0)

  finalize-Assigned :
      (gs : List VmGroup) (r : Packed limits families gs start)
      → Assigned limits families gs (finalize r.end.waves)
  unfolding vm_count
  finalize-Assigned gs r =
      let p = r.end in
      let small_perm : (hs ks : List VmGroup)
          → Perm hs ks
          → sum_vm_counts hs ≤ limits.max_vms
          → sum_vm_counts ks ≤ limits.max_vms =
        λ hs ks same h. subst (λ n. n ≤ limits.max_vms) (sum_vm_counts-perm same) h in
      record {
        all_placed = Perm.trans (finalize-perm p.waves) (rw (append-nil gs) at r.all_placed);
        small =
            finalize-All (λ hs. sum_vm_counts hs ≤ limits.max_vms) small_perm p.waves
              (entries-All (λ hs. sum_vm_counts hs ≤ limits.max_vms) p r.inv.keyed r.inv.small);
        coherent = finalize-All IsOnePartition IsOnePartition-perm p.waves (
            entries-All IsOnePartition p r.inv.keyed
              (λ n. IsOnePartition-of_IsCoherent _ (r.inv.coherent n)));
        numbers = finalize-numbers p.waves;
        spread = λ few positive.
            let alone = All-imp gs (λ g h. le→leb _ _ h) few in
            finalize-All (IsSpreadWave limits families) (IsSpreadWave-perm limits families) p.waves
              (entries-All (IsSpreadWave limits families) p r.inv.keyed (
                IsSpreadWave-of_IsSpread p
                  (r.spread (start-IsSpread limits families) alone positive)));
      }

-- The groups in the order in which they are packed, and the HA family of each.
abbrev pub ordered_groups : Limits → List VmGroup → List VmGroup
ordered_groups limits gs = topological_sort (split_oversized_groups limits.max_vms gs)

abbrev pub family_map : Limits → List VmGroup → Dict Text Text
family_map limits gs = group_to_family [] (detect_ha_families (ordered_groups limits gs))

pack_ordered-Assigned :
    (limits : Limits) (gs : List VmGroup)
    → All (IsSmall limits []) gs
    → (ws : List Wave) × (pack_ordered limits gs ≡ some ws)
      × Assigned limits (group_to_family [] (detect_ha_families gs)) gs ws
unfolding pack_ordered
pack_ordered-Assigned limits gs small =
    let families = group_to_family [] (detect_ha_families gs) in
    let r = pack-Packed limits families gs start (start-IsPacked limits families) small in
    (finalize r.end.waves, rw (r.packed, pack_ordered) refl, finalize-Assigned limits families gs r)

ordered-IsSmall :
    (limits : Limits) (gs : List VmGroup)
    → 1 ≤ limits.max_vms
    → Distinct (group_ids (split_oversized_groups limits.max_vms gs))
    → All (IsSmall limits []) (ordered_groups limits gs)
ordered-IsSmall limits gs positive unique =
    All-perm (IsSmall limits []) (λ g. le_prop)
      (Perm.symm (topological_sort-perm (split_oversized_groups limits.max_vms gs) unique))
      (split_oversized_groups-small limits.max_vms positive gs)

empty-Assigned :
    (limits : Limits) → Assigned limits (family_map limits []) (ordered_groups limits []) []
unfolding split_oversized_groups numbers_from
empty-Assigned limits = record {
  all_placed = Perm.symm (topological_sort-perm [] tt);
  small = tt;
  coherent = tt;
  numbers = refl;
  spread = λ few positive. tt;
}

assign_waves-Assigned :
    (limits : Limits) (gs : List VmGroup)
    → 1 ≤ limits.max_vms
    → Distinct (group_ids (split_oversized_groups limits.max_vms gs))
    → (ws : List Wave) × (assign_waves limits gs ≡ some ws)
      × Assigned limits (family_map limits gs) (ordered_groups limits gs) ws
unfolding assign_waves
assign_waves-Assigned limits [] positive unique = ([], refl, empty-Assigned limits)
assign_waves-Assigned limits (g ∷ gs) positive unique =
    pack_ordered-Assigned limits (ordered_groups limits (g ∷ gs))
      (ordered-IsSmall limits (g ∷ gs) positive unique)

-- The waves that `assign_waves` returned are the ones of `assign_waves-Assigned`.
returned-Assigned :
    (limits : Limits) (gs : List VmGroup) (ws : List Wave)
    → 1 ≤ limits.max_vms
    → Distinct (group_ids (split_oversized_groups limits.max_vms gs))
    → assign_waves limits gs ≡ some ws
    → Assigned limits (family_map limits gs) (ordered_groups limits gs) ws
returned-Assigned limits gs ws positive unique returned =
    let r = assign_waves-Assigned limits gs positive unique in
    subst (λ vs. Assigned limits (family_map limits gs) (ordered_groups limits gs) vs)
      (some-injective r.0 ws (sym r.1 ∙ returned)) r.2
  where
    some-injective : (a b : List Wave) → some a ≡ some b → a ≡ b
    some-injective a b e = cc

module _ (limits : Limits) (gs : List VmGroup) (positive : 1 ≤ limits.max_vms)
    (unique : Distinct (group_ids (split_oversized_groups limits.max_vms gs))) where
  -- If a wave may hold at least one VM and the groups, once the oversized ones are split, have
  -- different ids, then `assign_waves` returns waves (its RuntimeError is not raised), and their
  -- VM ids are a rearrangement of the VM ids of the groups: no VM is lost, added or doubled.
  pub assign_waves-perm :
      (ws : List Wave) × (assign_waves limits gs ≡ some ws)
      × Perm (collect wave_vm_ids ws) (ids_of gs)
  unfolding wave_vm_ids
  assign_waves-perm =
      let r = assign_waves-Assigned limits gs positive unique in
      let split = split_oversized_groups limits.max_vms gs in
      (
        r.0,
        r.1,
        rw (← ids_of-groups r.0) (
            Perm.trans (ids_of-perm _ _ (r.2).all_placed) (
              Perm.trans (ids_of-perm _ _ (topological_sort-perm split unique))
                (split_oversized_groups-perm limits.max_vms positive gs))),
      )

  -- The waves hold the groups, once the oversized ones are split.
  pub assign_waves-groups :
      (ws : List Wave) × (assign_waves limits gs ≡ some ws)
      × Perm (groups_of ws) (split_oversized_groups limits.max_vms gs)
      × All (λ (w : Wave). vm_count w ≤ limits.max_vms) ws
      × (map (λ (w : Wave). w.wave_number) ws ≡ numbers_from 1 ws)
  assign_waves-groups =
      let r = assign_waves-Assigned limits gs positive unique in
      (
        r.0,
        r.1,
        Perm.trans (r.2).all_placed
            (topological_sort-perm (split_oversized_groups limits.max_vms gs) unique),
        (r.2).small,
        (r.2).numbers,
      )

  module _ (ws : List Wave) (returned : assign_waves limits gs ≡ some ws) where
    result : Assigned limits (family_map limits gs) (ordered_groups limits gs) ws
    result = returned-Assigned limits gs ws positive unique returned

    -- If a wave may hold at least one VM, the groups, once the oversized ones are split, have
    -- different ids, and `assign_waves` returned some waves: no wave holds more VMs than the
    -- limit, and the waves are numbered 1, 2, 3 and so on.
    pub assign_waves-small :
        All (λ (w : Wave). vm_count w ≤ limits.max_vms) ws
        × (map (λ (w : Wave). w.wave_number) ws ≡ numbers_from 1 ws)
    assign_waves-small = (result.small, result.numbers)

    -- If a wave may hold at least one VM, the groups, once the oversized ones are split, have
    -- different ids, and `assign_waves` returned some waves: any two groups of one wave have the
    -- same vCenter, the same target cluster and the same target namespace.
    pub assign_waves-IsOnePartition : All (λ (w : Wave). IsOnePartition w.groups) ws
    assign_waves-IsOnePartition = result.coherent

    -- If a wave may hold at least one VM, the groups, once the oversized ones are split, have
    -- different ids, and `assign_waves` returned some waves, if moreover a wave may hold at least
    -- one HA peer and no group has more peers than its wave may hold (one, if the group has a
    -- primary): no wave has more peers of one HA family than the limit, and in a wave that holds a
    -- primary of a family that primary is the only peer of the family. The families are those of
    -- groups that `_detect_ha_families` puts together.
    pub assign_waves-IsSpreadWave :
        All (HasFewPeers limits) (ordered_groups limits gs)
        → 1 ≤ limits.max_ha_peers
        → All (λ (w : Wave). IsSpreadWave limits (family_map limits gs) w.groups) ws
    assign_waves-IsSpreadWave few peers = result.spread few peers
