-- ===== src/Concurrency.antt =====
-- backend/app/core/concurrency.py: the colouring of the waves by concurrency groups.
pub mod Colours
pub mod Proper
use virtvalidation.Base.{
  ℕ, zero, suc, ◌+◌, Bool, true, none, some, List, [], ◌∷◌, ◌++◌, map, if◌then◌else◌, Eq, ◌==◌,
  nat_Eq, option_Eq, list_Eq, length, any_by,
}
use virtvalidation.Base.Dicts.{Dict, get, get_default, put}
use virtvalidation.Base.Texts.{Text}
use virtvalidation.Base.Sorting.{sorted}
use virtvalidation.Base.Distinct.{contains}
use virtvalidation.Base.Keys.{dict_from}
use virtvalidation.Group.{VmGroup}
use virtvalidation.Family.Names.{detect_family}
use virtvalidation.Family.Split.{Names}
use virtvalidation.Skeleton.Wave.{Wave}
use virtvalidation.Skeleton.Packing.{wave_le}

-- The families of the VMs of one group; a VM without a name is passed over. A set is a list here,
-- since it is only asked for its members.
unfoldable pub family_keys_of_ids : Names → List ℕ → List Text
family_keys_of_ids names [] = []
family_keys_of_ids names (vid ∷ ids) =
    let rest = family_keys_of_ids names ids in
    elim (get_default vid [] names) [ [] ↦ rest | c ∷ s ↦ detect_family (c ∷ s) ∷ rest ]

unfoldable pub family_keys_of_groups : Names → List VmGroup → List Text
unfolding family_keys_of_ids
family_keys_of_groups names [] = []
family_keys_of_groups names (g ∷ gs) =
    family_keys_of_ids names g.vm_ids ++ family_keys_of_groups names gs

unfoldable pub family_keys_for_wave : Names → Wave → List Text
unfolding family_keys_of_groups
family_keys_for_wave names w = family_keys_of_groups names w.groups

abbrev pub vcenters_of : List VmGroup → List ℕ
vcenters_of [] = []
vcenters_of (g ∷ gs) =
    let rest = vcenters_of gs in elim g.key.vcenter_id [ none ↦ rest | some id ↦ id ∷ rest ]

unfoldable pub vcenters_for_wave : Wave → List ℕ
vcenters_for_wave w = vcenters_of w.groups

-- `xs & ys` is not empty.
abbrev pub meets {ℓ} : {A : Type ℓ} ⦃e : Eq A⦄ → List A → List A → Bool
meets xs ys = any_by (contains ys) xs

unfoldable pub conflicts : Wave → Wave → List Text → List Text → Bool
unfolding vcenters_for_wave
conflicts a b families_a families_b =
    if meets (vcenters_for_wave a) (vcenters_for_wave b) then true else meets families_a families_b

-- `families_per_wave[n]`
abbrev pub families_at : Dict ℕ (List Text) → ℕ → List Text
families_at families_per_wave n = get_default n [] families_per_wave

abbrev pub waves_conflict : Dict ℕ (List Text) → Wave → Wave → Bool
waves_conflict families_per_wave a b =
    conflicts a b (families_at families_per_wave a.wave_number)
      (families_at families_per_wave b.wave_number)

-- `used`: the colours of the waves that conflict with `w` and have one
unfoldable pub used_colors : Dict ℕ (List Text) → Dict ℕ ℕ → Wave → List Wave → List ℕ
used_colors families_per_wave assignments w [] = []
used_colors families_per_wave assignments w (other ∷ others) =
    let rest = used_colors families_per_wave assignments w others in
    if other.wave_number == w.wave_number then rest else elim (get other.wave_number assignments) [
      | none ↦ rest
      | some color ↦ if waves_conflict families_per_wave w other then color ∷ rest else rest
    ]

-- `while color in used: color += 1`
unfoldable pub lowest_color : List ℕ → ℕ → ℕ → ℕ
lowest_color used zero color = color
lowest_color used (suc fuel) color =
    let next = lowest_color used fuel (color + 1) in if contains used color then next else color

unfoldable pub color_for : Dict ℕ (List Text) → Dict ℕ ℕ → Wave → List Wave → ℕ
unfolding used_colors lowest_color
color_for families_per_wave assignments w ordered =
    let used = used_colors families_per_wave assignments w ordered in
    lowest_color used (length used + 1) 0

-- The loop `for w in ordered`.
unfoldable pub color_waves : Dict ℕ (List Text) → List Wave → Dict ℕ ℕ → List Wave → Dict ℕ ℕ
unfolding color_for
color_waves families_per_wave ordered assignments [] = assignments
color_waves families_per_wave ordered assignments (w ∷ ws) =
    color_waves families_per_wave ordered
      (put w.wave_number (color_for families_per_wave assignments w ordered) assignments) ws

-- `{w.wave_number: _family_keys_for_wave(w, ...) for w in ordered}`
unfoldable pub families_of_waves : Names → List Wave → Dict ℕ (List Text)
unfolding dict_from family_keys_for_wave
families_of_waves names ordered =
    dict_from (λ (w : Wave). w.wave_number) (family_keys_for_wave names) [] ordered

unfoldable pub color_assignments : Names → List Wave → Dict ℕ ℕ
unfolding color_waves families_of_waves
color_assignments names waves =
    let ordered = sorted wave_le waves in
    color_waves (families_of_waves names ordered) ordered [] ordered

-- The waves with their colours, in the order in which they were given. Waves of one number share
-- the last colour of that number.
unfoldable pub assign_concurrency_groups : List Wave → Names → List Wave
unfolding color_assignments
assign_concurrency_groups waves names =
    let assignments = color_assignments names waves in
    map (λ (w : Wave). record w { concurrency_group_id = get_default w.wave_number 0 assignments })
      waves
