-- ===== src/Preclassifier/Merge.antt =====
-- `_merge_groups` and `_consolidate`.
use virtvalidation.Base.{
  ℕ, zero, suc, ◌+◌, ◌*◌, ◌/◌, ◌%◌, min, max, Bool, ◌&&◌, ◌||◌, Option, none, some, List, [], ◌∷◌,
  ◌++◌, map, flatten, ltb, leb, if◌then◌else◌, ◌==◌, nat_Eq, option_Eq, list_Eq, length, take,
}
use virtvalidation.Base.Dicts.{Dict, get_default}
use virtvalidation.Base.Texts.{Text, codes, text_le, decimal}
use virtvalidation.Base.Sorting.{insert_sorted, sorted}
use virtvalidation.Group.{VmGroup}
use virtvalidation.Base.Distinct.{contains}
use virtvalidation.Preclassifier.Source.{as_set}
use virtvalidation.Preclassifier.Build.{role_weight}

-- `max_groups`: none is unbounded
abbrev pub Cap : Type 0
Cap = Option ℕ

-- `set(ids)` as a list
abbrev pub id_set : List ℕ → List ℕ
id_set [] = []
id_set (x ∷ xs) = let rest = id_set xs in if contains rest x then rest else x ∷ rest

unfoldable pub merged_role : Text → Text → Text
merged_role a b = if leb (role_weight b) (role_weight a) then a else b

unfoldable pub merged_state : Text → Text → Text
merged_state a b =
    if a == codes "stateful" || b == codes "stateful"
    then codes "stateful"
    else if a == codes "unknown" || b == codes "unknown"
    then codes "unknown"
    else codes "stateless"

abbrev risk_weights : Dict Text ℕ
risk_weights = (codes "high", 3) ∷ (codes "medium", 2) ∷ (codes "low", 1) ∷ []

unfoldable pub merged_risk : Text → Text → Text
merged_risk a b = if leb (get_default b 0 risk_weights) (get_default a 0 risk_weights) then a else b

-- `sorted(set(a.get(dim, [])) | set(b.get(dim, [])))`
unfoldable pub merged_dimension : VmGroup → VmGroup → Text → Text × List Text
unfolding sorted
merged_dimension a b dim = (
  dim,
  sorted text_le
      (as_set (get_default dim [] a.shared_attributes ++ get_default dim [] b.shared_attributes)),
)

abbrev dimensions : List Text
dimensions =
    codes "networks"
    ∷ codes "datastores"
    ∷ codes "application_hints"
    ∷ codes "environments"
    ∷ codes "os_families"
    ∷ []

unfoldable pub cap_text : Cap → Text
cap_text none = codes "None"
cap_text (some n) = decimal n

unfoldable pub merge_groups : Cap → VmGroup → VmGroup → VmGroup
unfolding merged_role merged_state merged_risk merged_dimension cap_text sorted
merge_groups cap a b =
    let role = merged_role a.estimated_role b.estimated_role in
    let state = merged_state a.estimated_state b.estimated_state in
    record {
      key = record (a.key) {
        role = role;
        state = state;
        discriminator =
            take 64 (codes "merged:" ++ a.key.discriminator ++ codes "+" ++ b.key.discriminator);
      };
      vm_ids = sorted leb (id_set (a.vm_ids ++ b.vm_ids));
      shared_attributes = map (merged_dimension a b) dimensions;
      estimated_role = role;
      estimated_state = state;
      migration_risk = merged_risk a.migration_risk b.migration_risk;
      dependency_hints = [];
      notes =
          codes "Consolidated from "
          ++ decimal (length a.vm_ids)
          ++ codes " + "
          ++ decimal (length b.vm_ids)
          ++ codes " VMs to keep LLM input <= "
          ++ cap_text cap
          ++ codes " groups.";
      risk_assessment = none;
      ha_members = [];
    }

abbrev pub size_le : VmGroup → VmGroup → Bool
size_le g h = leb (length g.vm_ids) (length h.vm_ids)

-- `while len(primary_groups) > allowed_here`: the two smallest are merged, and the result goes in
-- front of the first group that is not smaller. Every round takes one group away.
unfoldable pub merge_smallest : Cap → ℕ → ℕ → List VmGroup → List VmGroup
unfolding merge_groups
merge_smallest cap zero allowed groups = groups
merge_smallest cap (suc fuel) allowed (a ∷ b ∷ rest) =
    let next =
      merge_smallest cap fuel allowed (insert_sorted size_le (merge_groups cap a b) rest) in
    if ltb allowed (length (a ∷ b ∷ rest)) then next else a ∷ b ∷ rest
merge_smallest cap (suc fuel) allowed groups = groups

unfoldable pub total_vms : List VmGroup → ℕ
total_vms [] = 0
total_vms (g ∷ gs) = length g.vm_ids + total_vms gs

-- `round(n / d)` for a positive `d`: a half goes to the even neighbour
unfoldable pub round_div : ℕ → ℕ → ℕ
round_div n d =
    if ltb (2 * (n % d)) d
    then n / d
    else if ltb d (2 * (n % d))
    then n / d + 1
    else n / d + (n / d) % 2

-- `(vcenter_id, target_cluster_id, target_namespace)`
abbrev pub same_primary : VmGroup → VmGroup → Bool
same_primary g h =
    g.key.vcenter_id == h.key.vcenter_id
    && g.key.target_cluster_id == h.key.target_cluster_id
    && g.key.target_namespace == h.key.target_namespace

-- `by_primary[...].append(g)`
unfoldable pub add_to_primary : VmGroup → List (List VmGroup) → List (List VmGroup)
add_to_primary g [] = (g ∷ []) ∷ []
add_to_primary g ([] ∷ rest) = [] ∷ add_to_primary g rest
add_to_primary g ((h ∷ hs) ∷ rest) =
    let later = add_to_primary g rest in
    if same_primary g h then (h ∷ hs ++ g ∷ []) ∷ rest else (h ∷ hs) ∷ later

unfoldable pub primaries_from : List (List VmGroup) → List VmGroup → List (List VmGroup)
unfolding add_to_primary
primaries_from out [] = out
primaries_from out (g ∷ gs) = primaries_from (add_to_primary g out) gs

-- `allowed_here`
unfoldable pub allowed_groups : ℕ → ℕ → ℕ → ℕ → ℕ
unfolding round_div
allowed_groups max_groups here total present =
    min (max 1 (round_div (max_groups * here) (max 1 total))) present

-- The loop over the primary keys. The total counts the lists as they are now: the ones before are
-- consolidated already.
unfoldable pub consolidate_from : ℕ → List VmGroup → List (List VmGroup) → List VmGroup
unfolding merge_smallest total_vms allowed_groups sorted
consolidate_from max_groups done [] = done
consolidate_from max_groups done (groups ∷ rest) =
    let ordered = sorted size_le groups in
    let total = total_vms done + total_vms groups + total_vms (flatten rest) in
    let allowed = allowed_groups max_groups (total_vms groups) total (length groups) in
    consolidate_from max_groups
      (done ++ merge_smallest (some max_groups) (length groups) allowed ordered) rest

unfoldable pub consolidate : Cap → List VmGroup → List VmGroup
unfolding consolidate_from primaries_from
consolidate none groups = groups
consolidate (some max_groups) groups =
    if leb (length groups) max_groups
    then groups
    else consolidate_from max_groups [] (primaries_from [] groups)
