-- ===== src/Skeleton/Packing.antt =====
-- `_min_wave_from_deps`, `_find_target_wave`, `_finalize` and `assign_waves`.
pub mod Search
pub mod Invariant
pub mod Preserve
pub mod Result
pub mod Late
use virtvalidation.Base.{
  ℕ, zero, suc, ◌+◌, ◌-◌, max, Bool, true, ◌&&◌, Option, none, some, List, [], ◌∷◌, ◌++◌, map, leb,
  if◌then◌else◌, ◌==◌, nat_Eq, option_Eq, list_Eq, length, any_by,
}
use virtvalidation.Base.Dicts.{Dict, get, get_default, put}
use virtvalidation.Base.Texts.{Text, codes}
use virtvalidation.Base.Sorting.{sorted}
use virtvalidation.Group.{GroupKey, HaMember, VmGroup, group_id, ha_count}
use virtvalidation.Skeleton.Wave.{Wave, empty_wave, vm_count, build_wave}
use virtvalidation.Skeleton.HaFamily.{detect_ha_families, group_to_family}
use virtvalidation.Skeleton.Oversized.{split_oversized_groups}
use virtvalidation.Skeleton.Order.{topological_sort}

-- The two limits of a `MechanicalWaveAssigner`; its constructor makes them at least 1.
pub record Limits : Type 0 where
  pub max_vms : ℕ
  pub max_ha_peers : ℕ

unfoldable pub assigner : ℕ → ℕ → Limits
assigner vms peers = record { max_vms = max 1 vms; max_ha_peers = max 1 peers }

-- What the packing loop carries from group to group.
pub record Packing : Type 0 where
  pub wave_for_group : Dict Text ℕ
  pub waves : Dict ℕ Wave
  pub family_per_wave : Dict ℕ (Dict Text ℕ)

-- `_min_wave_from_deps`, from the `min_wave` reached so far
unfoldable pub min_wave_from : Dict Text ℕ → ℕ → List Text → ℕ
min_wave_from placed min_wave [] = min_wave
min_wave_from placed min_wave (dep ∷ deps) =
    min_wave_from placed
      (elim (get dep placed) [ none ↦ min_wave | some wave ↦ max min_wave (wave + 1) ]) deps

unfoldable pub min_wave_from_deps : VmGroup → Dict Text ℕ → ℕ
unfolding min_wave_from
min_wave_from_deps g placed = min_wave_from placed 1 g.dependency_hints

-- `any(m.ha_role == "primary" for m in group.ha_members)`
unfoldable pub is_primary_group : VmGroup → Bool
is_primary_group g = any_by (λ (m : HaMember). m.ha_role == codes "primary") g.ha_members

unfoldable pub effective_family_cap : Limits → VmGroup → ℕ
effective_family_cap limits g = if is_primary_group g then 1 else limits.max_ha_peers

-- The three fields on which the groups of a wave agree.
unfoldable pub same_partition : GroupKey → GroupKey → Bool
same_partition a b =
    a.vcenter_id == b.vcenter_id
    && a.target_cluster_id == b.target_cluster_id
    && a.target_namespace == b.target_namespace

-- `existing and existing.groups`, and the seed group agrees
unfoldable pub partition_fits : VmGroup → Option Wave → Bool
partition_fits g none = true
partition_fits g (some w) = elim w.groups [ [] ↦ true | seed ∷ _ ↦ same_partition seed.key g.key ]

unfoldable pub vms_fit : Limits → VmGroup → Option Wave → Bool
vms_fit limits g existing =
    leb (elim existing [ none ↦ 0 | some w ↦ vm_count w ] + length g.vm_ids) limits.max_vms

-- `family_per_wave[candidate].get(family, 0)`
unfoldable pub peers_at : Dict ℕ (Dict Text ℕ) → ℕ → Text → ℕ
peers_at family_per_wave candidate family =
    get_default family 0 (get_default candidate [] family_per_wave)

-- The check is off without a family, and for a group that could never pass it.
unfoldable pub family_fits : Limits → Dict ℕ (Dict Text ℕ) → VmGroup → Option Text → ℕ → Bool
family_fits limits family_per_wave g none candidate = true
family_fits limits family_per_wave g (some family) candidate =
    let cap = effective_family_cap limits g in
    if leb (ha_count g) cap
    then leb (peers_at family_per_wave candidate family + ha_count g) cap
    else true

unfoldable pub candidate_fits : Limits → Packing → VmGroup → Option Text → ℕ → Bool
candidate_fits limits p g family candidate =
    partition_fits g (get candidate p.waves)
    && vms_fit limits g (get candidate p.waves)
    && family_fits limits p.family_per_wave g family candidate

-- The loop `while candidate <= max_waves`, by the candidates left. `none` is the RuntimeError.
unfoldable pub search_wave : Limits → Packing → VmGroup → Option Text → ℕ → ℕ → Option ℕ
search_wave limits p g family zero candidate = none
search_wave limits p g family (suc left) candidate =
    let rest = search_wave limits p g family left (candidate + 1) in
    if candidate_fits limits p g family candidate then some candidate else rest

unfoldable pub find_target_wave : Limits → Packing → VmGroup → ℕ → Option Text → Option ℕ
find_target_wave limits p g min_wave family =
    let max_waves = max (min_wave + length p.waves + 2) 1024 in
    search_wave limits p g family (max_waves + 1 - min_wave) min_wave

-- `family_per_wave[target][family]` after the group is placed
unfoldable pub bump_family :
    Limits → VmGroup → ℕ → Option Text → Dict ℕ (Dict Text ℕ) → Dict ℕ (Dict Text ℕ)
bump_family limits g target none family_per_wave = family_per_wave
bump_family limits g target (some family) family_per_wave =
    let peers = get_default target [] family_per_wave in
    let count =
      if is_primary_group g then limits.max_ha_peers else get_default family 0 peers + ha_count g in
    put target (put family count peers) family_per_wave

-- `waves.setdefault(target, Wave(wave_number=target)).groups.append(group)`
unfoldable pub add_to_wave : VmGroup → ℕ → Dict ℕ Wave → Dict ℕ Wave
add_to_wave g target waves =
    let wave = get_default target (empty_wave target) waves in
    put target (record wave { groups = wave.groups ++ g ∷ [] }) waves

unfoldable pub put_group : Limits → VmGroup → Option Text → ℕ → Packing → Packing
put_group limits g family target p = record {
  wave_for_group = put (group_id g) target p.wave_for_group;
  waves = add_to_wave g target p.waves;
  family_per_wave = bump_family limits g target family p.family_per_wave;
}

-- One round of the packing loop.
unfoldable pub place_group : Limits → Dict Text Text → VmGroup → Packing → Option Packing
place_group limits families g p =
    let family = get (group_id g) families in
    elim (find_target_wave limits p g (min_wave_from_deps g p.wave_for_group) family) [
      | none ↦ none
      | some target ↦ some (put_group limits g family target p)
    ]

unfoldable pub pack : Limits → Dict Text Text → List VmGroup → Packing → Option Packing
pack limits families [] p = some p
pack limits families (g ∷ gs) p = elim (place_group limits families g p) [
  | none ↦ none
  | some p' ↦ pack limits families gs p'
]

abbrev pub start : Packing
start = record { wave_for_group = []; waves = []; family_per_wave = [] }

-- `_finalize`: the waves by number, renumbered from `number` on
unfoldable pub renumber : ℕ → List Wave → List Wave
renumber number [] = []
renumber number (w ∷ ws) = build_wave number w.groups w ∷ renumber (number + 1) ws

unfoldable pub wave_le : Wave → Wave → Bool
wave_le v w = leb v.wave_number w.wave_number

unfoldable pub finalize : Dict ℕ Wave → List Wave
finalize waves = renumber 1 (sorted wave_le (map (λ (e : ℕ × Wave). e.1) waves))

unfoldable pub pack_ordered : Limits → List VmGroup → Option (List Wave)
pack_ordered limits ordered =
    elim (pack limits (group_to_family [] (detect_ha_families ordered)) ordered start) [
      | none ↦ none
      | some p ↦ some (finalize p.waves)
    ]

unfoldable pub assign_waves : Limits → List VmGroup → Option (List Wave)
assign_waves limits [] = some []
assign_waves limits (g ∷ gs) =
    pack_ordered limits (topological_sort (split_oversized_groups limits.max_vms (g ∷ gs)))
