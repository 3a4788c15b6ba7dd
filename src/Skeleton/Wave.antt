-- ===== src/Skeleton/Wave.antt =====
-- `Wave`, `build_wave` and the risk of a wave.
use virtvalidation.Base.{
  ℕ, zero, suc, ◌+◌, max, ◌≡◌, refl, Bool, List, [], ◌∷◌, arith, nat_Eq, option_Eq, list_Eq, length,
  length-append,
}
use virtvalidation.Base.Dicts.{Dict, get_default}
use virtvalidation.Base.Texts.{Text, codes, text_le, text_le-IsOrder}
use virtvalidation.Base.Sorting.{IsOrder, sorted, by_nat, by_nat-IsOrder}
use virtvalidation.Group.{VmGroup, group_id, ids_of}

-- `MAX_VMS_PER_WAVE` and `MAX_HA_PEERS_PER_WAVE`
abbrev pub max_vms_per_wave : ℕ
max_vms_per_wave = 10

abbrev pub max_ha_peers_per_wave : ℕ
max_ha_peers_per_wave = 2

pub record Wave : Type 0 where
  pub wave_number : ℕ
  pub groups : List VmGroup
  pub estimated_risk : Text
  pub notes : List Text
  pub concurrency_group_id : ℕ

-- `Wave(wave_number=n)`
unfoldable pub empty_wave : ℕ → Wave
empty_wave n = record {
  wave_number = n;
  groups = [];
  estimated_risk = codes "low";
  notes = [];
  concurrency_group_id = 0;
}

-- `Wave.vm_ids` and `Wave.vm_count`
unfoldable pub wave_vm_ids : Wave → List ℕ
unfolding ids_of
wave_vm_ids w = ids_of w.groups

unfoldable pub sum_vm_counts : List VmGroup → ℕ
sum_vm_counts [] = 0
sum_vm_counts (g ∷ gs) = length g.vm_ids + sum_vm_counts gs

unfoldable pub vm_count : Wave → ℕ
unfolding sum_vm_counts
vm_count w = sum_vm_counts w.groups

abbrev pub role_priorities : Dict Text ℕ
role_priorities =
    (codes "infrastructure", 0)
    ∷ (codes "data", 1)
    ∷ (codes "app", 2)
    ∷ (codes "web", 3)
    ∷ (codes "edge", 4)
    ∷ (codes "other", 5)
    ∷ []

abbrev pub risk_priorities : Dict Text ℕ
risk_priorities = (codes "low", 0) ∷ (codes "medium", 1) ∷ (codes "high", 2) ∷ []

-- `_ROLE_PRIORITY.get(role, 99)` and `_RISK_PRIORITY.get(risk, 1)`
unfoldable pub role_priority : VmGroup → ℕ
role_priority g = get_default g.estimated_role 99 role_priorities

unfoldable pub risk_priority : VmGroup → ℕ
risk_priority g = get_default g.migration_risk 1 risk_priorities

-- The sort key `(role priority, risk priority, id)`.
unfoldable pub id_le : VmGroup → VmGroup → Bool
id_le g h = text_le (group_id g) (group_id h)

unfoldable pub priority_le : VmGroup → VmGroup → Bool
unfolding role_priority risk_priority id_le
priority_le = by_nat role_priority (by_nat risk_priority id_le)

-- `max(...)` of a list that is not empty
unfoldable pub max_risk : List VmGroup → ℕ
unfolding risk_priority
max_risk [] = 0
max_risk (g ∷ gs) = max (risk_priority g) (max_risk gs)

-- `{0: "low", 1: "medium", 2: "high"}[n]`
unfoldable pub risk_name : ℕ → Text
risk_name zero = codes "low"
risk_name (suc zero) = codes "medium"
risk_name (suc (suc n)) = codes "high"

-- `_wave_aggregate_risk`
unfoldable pub wave_aggregate_risk : List VmGroup → Text
unfolding max_risk risk_name
wave_aggregate_risk [] = codes "low"
wave_aggregate_risk (g ∷ gs) = risk_name (max_risk (g ∷ gs))

-- `build_wave(wave_number, groups, wave=wave)`
unfoldable pub build_wave : ℕ → List VmGroup → Wave → Wave
unfolding wave_aggregate_risk
build_wave number groups wave =
    let ordered = sorted priority_le groups in
    record wave {
      wave_number = number;
      groups = ordered;
      estimated_risk = wave_aggregate_risk ordered;
    }

id_le-IsOrder : IsOrder id_le
unfolding id_le
id_le-IsOrder = record {
  total = λ g h. text_le-IsOrder.total (group_id g) (group_id h);
  trans = λ g h k. text_le-IsOrder.trans (group_id g) (group_id h) (group_id k);
}

pub priority_le-IsOrder : IsOrder priority_le
unfolding priority_le
priority_le-IsOrder =
    by_nat-IsOrder role_priority (by_nat risk_priority id_le)
      (by_nat-IsOrder risk_priority id_le id_le-IsOrder)

pub sum_vm_counts-eq : (gs : List VmGroup) → sum_vm_counts gs ≡ length (ids_of gs)
unfolding sum_vm_counts ids_of
sum_vm_counts-eq [] = refl
sum_vm_counts-eq (g ∷ gs) = omega (arith, sum_vm_counts-eq gs, length-append g.vm_ids (ids_of gs))
