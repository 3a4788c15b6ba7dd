-- ===== src/Concurrency/Proper.antt =====
-- `assign_concurrency_groups` gives waves that conflict different concurrency groups.
use virtvalidation.Base.{
  ℕ, ◌≡◌, true, false, some, List, [], arith, ◌==◌, nat_Eq, option_Eq, list_Eq, All, All-imp,
  All-map, All-perm,
}
use virtvalidation.Base.{All-zip, All-prop}
use virtvalidation.Base.Sorting.{sorted-All}
use virtvalidation.Base.Dicts.{Dict, get, has_key, get_default}
use virtvalidation.Base.Texts.{Text}
use virtvalidation.Base.Sorting.{sorted, sorted-perm}
use virtvalidation.Family.Split.{Names}
use virtvalidation.Skeleton.Wave.{Wave}
use virtvalidation.Skeleton.Packing.{wave_le}
use virtvalidation.Concurrency.{
  conflicts, waves_conflict, families_of_waves, color_assignments, assign_concurrency_groups,
}
use virtvalidation.Concurrency.Colours.{
  IsOnly, color_waves-IsProper, IsProper-start, color_waves-colored,
}

-- Waves of one number are one wave.
abbrev pub IsNumbered : List Wave → Type 0
IsNumbered waves = All (IsOnly [] waves) waves

module _ (names : Names) (waves : List Wave) where
  abbrev pub families_now : Dict ℕ (List Text)
  families_now = families_of_waves names (sorted wave_le waves)

  abbrev color_now : Wave → ℕ
  color_now w = get_default w.wave_number 0 (color_assignments names waves)

  abbrev Apart : Wave → Wave → Type 0
  Apart a b =
      (a.wave_number == b.wave_number) ≡ false
      → waves_conflict families_now a b ≡ true
      → (color_now a == color_now b) ≡ false

  has_color :
      (w : Wave)
      → has_key w.wave_number (color_assignments names waves) ≡ true
      → get w.wave_number (color_assignments names waves) ≡ some (color_now w)
  has_color w h = ground arith

  sorted-Apart :
      IsNumbered waves
      → All
          (λ (a : Wave). All (λ (b : Wave). Apart a b) (sorted wave_le waves))
          (sorted wave_le waves)
  unfolding color_assignments
  sorted-Apart numbered =
      let ordered = sorted wave_le waves in
      let only : All (IsOnly families_now ordered) ordered =
        sorted-All wave_le (IsOnly families_now ordered) waves
          (All-imp waves (λ w h. sorted-All wave_le _ waves h) numbered) in
      let proper =
        color_waves-IsProper families_now ordered [] ordered only
          (IsProper-start families_now ordered) in
      let colored = color_waves-colored families_now ordered [] ordered in
      All-imp ordered
        (λ a h.
          All-imp ordered
            (λ b k apart conflict.
              k.0 (color_now a) (color_now b) apart conflict (has_color a h.1) (has_color b k.1))
            (All-zip _ _ ordered h.0 colored))
        (All-zip _ _ ordered proper colored)

  Apart-prop : (a b : Wave) → IsProp (Apart a b)
  Apart-prop a b = hlevel

  waves-Apart : IsNumbered waves → All (λ (a : Wave). All (λ (b : Wave). Apart a b) waves) waves
  waves-Apart numbered =
      let order = sorted-perm wave_le waves in
      All-perm (λ (a : Wave). All (λ (b : Wave). Apart a b) waves)
        (λ a. All-prop (Apart a) (Apart-prop a) waves) order
        (All-imp (sorted wave_le waves) (λ a h. All-perm (Apart a) (Apart-prop a) order h)
          (sorted-Apart numbered))

  -- If waves of one number are one wave: two waves of the result with different numbers that share
  -- a source vCenter or a name family have different concurrency groups.
  pub assign_concurrency_groups-proper :
      IsNumbered waves
      → All
          (λ (a : Wave).
            All
              (λ (b : Wave).
                (a.wave_number == b.wave_number) ≡ false
                → waves_conflict families_now a b ≡ true
                → (a.concurrency_group_id == b.concurrency_group_id) ≡ false)
              (assign_concurrency_groups waves names))
          (assign_concurrency_groups waves names)
  unfolding assign_concurrency_groups conflicts
  assign_concurrency_groups-proper numbered =
      All-map _ _ waves (All-imp waves (λ a h. All-map _ _ waves h) (waves-Apart numbered))
