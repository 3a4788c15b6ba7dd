-- ===== src/Planner/Result.antt =====
-- What `plan_with_groups` returns.
use virtvalidation.Base.{
  ℕ, zero, suc, ◌+◌, ◌≤◌, ◌≡◌, refl, sym, ap, ◌∙◌, true, some, List, [], ◌∷◌, map, arith, le→leb,
  nat_Eq, option_Eq, list_Eq, length, All, All-imp, length-perm, All-perm,
}
use virtvalidation.Base.Texts.{Text}
use virtvalidation.Group.{VmGroup, ids_of}
use virtvalidation.Base.Distinct.{contains-perm, Distinct, Distinct-perm}
use virtvalidation.Skeleton.Wave.{Wave}
use virtvalidation.Skeleton.Oversized.{split_oversized_groups}
use virtvalidation.Skeleton.Order.{groups_by_id}
use virtvalidation.Skeleton.Order.Complete.{group_ids, groups_by_id-get}
use virtvalidation.Skeleton.Packing.{Limits}
use virtvalidation.Skeleton.Assign.{groups_of, numbers_from, ids_of-perm}
use virtvalidation.Skeleton.Assign.Result.{assign_waves-groups}
use virtvalidation.Preclassifier.Source.{SourceVm, vm_ids_of}
use virtvalidation.Planner.{
  Planned, ExpandedWave, expand_and_verify, expanded_ids, plan_assigned, plan_expanded,
  plan_with_groups,
}
use virtvalidation.Planner.Checked.{
  expanded_groups, expanded_groups-perm, plan_expanded-assigned, plan_with_groups-expanded,
}
use virtvalidation.Planner.Lookup.{
  finds, finds-get, row_of, expand_waves-finds, expanded_ids-perm, rows-small,
  verify_expanded_plan-returned,
}
use virtvalidation.Base.{length-map}
use mathlib.Core.List.{Perm}
use mathlib.Core.List.Perm

-- No group is too large for a wave.
abbrev pub AllFit : ℕ → List VmGroup → Type 0
AllFit max_vms gs = All (λ (g : VmGroup). length g.vm_ids ≤ max_vms) gs

split_oversized_groups-AllFit :
    (max_vms : ℕ) (gs : List VmGroup) → AllFit max_vms gs → split_oversized_groups max_vms gs ≡ gs
unfolding split_oversized_groups
split_oversized_groups-AllFit max_vms [] h = refl
split_oversized_groups-AllFit max_vms (g ∷ gs) h =
    rw (le→leb (length g.vm_ids) max_vms h.0, split_oversized_groups-AllFit max_vms gs h.1) refl

-- The numbers `start`, `start + 1` and so on, `n` of them.
abbrev pub numbers_upto : ℕ → ℕ → List ℕ
numbers_upto start zero = []
numbers_upto start (suc n) = start ∷ numbers_upto (start + 1) n

numbers_from-upto :
    (start : ℕ) (ws : List Wave) → numbers_from start ws ≡ numbers_upto start (length ws)
unfolding numbers_from
numbers_from-upto start [] = refl
numbers_from-upto start (w ∷ ws) = rw (numbers_from-upto (start + 1) ws)

row_numbers :
    (ws : List Wave)
    → map (λ (r : ExpandedWave). r.wave_number) (map row_of ws)
      ≡ map (λ (w : Wave). w.wave_number) ws
row_numbers [] = refl
row_numbers (w ∷ ws) = rw (row_numbers ws)

rows-numbered :
    (ws : List Wave)
    → map (λ (w : Wave). w.wave_number) ws ≡ numbers_from 1 ws
    → map (λ (r : ExpandedWave). r.wave_number) (map row_of ws)
      ≡ numbers_upto 1 (length (map row_of ws))
rows-numbered ws h =
    row_numbers ws ∙ h ∙ numbers_from-upto 1 ws ∙ ap (numbers_upto 1) (sym (length-map row_of ws))

-- A plan for the VM ids: every id stands in one row and once, no row holds more ids than the limit,
-- and the rows are numbered 1, 2, 3 and so on.
pub record IsPlan (max_vms : ℕ) (vm_ids : List ℕ) (rows : List ExpandedWave) : Type 0 where
  pub placed : Perm (expanded_ids rows) vm_ids
  pub small : All (λ (r : ExpandedWave). length r.vm_ids ≤ max_vms) rows
  pub numbered : map (λ (r : ExpandedWave). r.wave_number) rows ≡ numbers_upto 1 (length rows)

module _ (limits : Limits) (provided : List ℕ) (groups : List VmGroup)
    (positive : 1 ≤ limits.max_vms) (some_vm : 1 ≤ length provided) (distinct : Distinct provided)
    (same : Perm (ids_of groups) provided) where
  module _ (fit : AllFit limits.max_vms groups) (unique : Distinct (group_ids groups)) where
    assigned_waves : (ws : List Wave) → Perm (groups_of ws) groups → 1 ≤ length ws
    unfolding ids_of
    assigned_waves [] p =
        absurd (omega (arith, some_vm, length-perm (ids_of-perm _ _ p), length-perm same))
    assigned_waves (w ∷ ws) p = omega arith

    plan_assigned-some :
        (ws : List Wave)
        → 1 ≤ length ws
        → plan_assigned provided groups (some ws)
          ≡ expand_and_verify provided (groups_by_id groups) ws
    unfolding plan_assigned
    plan_assigned-some [] h = absurd (omega arith)
    plan_assigned-some (w ∷ ws) h = refl

    finds-groups :
        (ws : List Wave)
        → Perm (groups_of ws) groups
        → All (λ (g : VmGroup). finds (groups_by_id groups) g ≡ true) (groups_of ws)
    finds-groups ws p =
        All-perm (λ (g : VmGroup). finds (groups_by_id groups) g ≡ true) (λ g. hlevel) (Perm.symm p)
          (All-imp groups (λ g h. finds-get (groups_by_id groups) g h)
            (groups_by_id-get groups unique))

    pub plan_expanded-IsPlan :
        (rows : List ExpandedWave) × (plan_expanded limits provided groups ≡ Planned.returned rows)
        × IsPlan limits.max_vms provided rows
    unfolding expand_and_verify
    plan_expanded-IsPlan =
        let whole = split_oversized_groups-AllFit limits.max_vms groups fit in
        let r = assign_waves-groups limits groups positive (rw whole unique) in
        let ws = r.0 in
        let p : Perm (groups_of ws) groups = rw whole at r.2 in
        let ids = Perm.trans (ids_of-perm _ _ p) same in
        let rows = map row_of ws in
        let placed : Perm (expanded_ids rows) provided =
          Perm.trans (expanded_ids-perm ws (Distinct-perm _ _ (Perm.symm ids) distinct)) ids in
        let verified =
          verify_expanded_plan-returned provided rows
            (Distinct-perm _ _ (Perm.symm placed) distinct)
            (λ a there. contains-perm _ _ a placed ∙ there) in
        (
          rows,
          plan_expanded-assigned limits provided groups distinct same
              ∙ rw (r.1, plan_assigned-some ws (assigned_waves ws p))
                  (rw
                    (
                      expand_waves-finds (groups_by_id groups) ws (finds-groups ws p),
                      expand_and_verify,
                    )
                    verified),
          record {
            placed = placed;
            small = rows-small limits.max_vms ws r.3;
            numbered = rows-numbered ws r.4;
          },
        )

module _ (ha_strategy : Text) (limits : Limits) (v : SourceVm) (vms : List SourceVm)
    (positive : 1 ≤ limits.max_vms) (distinct : Distinct (vm_ids_of (v ∷ vms))) where
  -- If a wave may hold a VM, the VMs have different ids and there is one at least, and behind the HA
  -- expansion no group is larger than a wave and the groups have different ids, then the planner
  -- returns rows: each VM stands in one of them and once, none is larger than a wave, and they are
  -- numbered 1, 2, 3 and so on.
  pub plan_with_groups-IsPlan :
      AllFit limits.max_vms (expanded_groups ha_strategy (v ∷ vms))
      → Distinct (group_ids (expanded_groups ha_strategy (v ∷ vms)))
      → (rows : List ExpandedWave) × (plan_with_groups ha_strategy limits (v ∷ vms)
          ≡ Planned.returned rows)
        × IsPlan limits.max_vms (vm_ids_of (v ∷ vms)) rows
  plan_with_groups-IsPlan fit unique =
      let r =
        plan_expanded-IsPlan limits (vm_ids_of (v ∷ vms)) (expanded_groups ha_strategy (v ∷ vms))
          positive (omega arith) distinct (expanded_groups-perm ha_strategy limits v vms distinct)
          fit unique in
      (r.0, plan_with_groups-expanded ha_strategy limits v vms distinct ∙ r.1, r.2)
