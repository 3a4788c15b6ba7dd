-- ===== src/Preclassifier/Build.antt =====
-- `_build_group`: one group from the VMs that belong together.
use virtvalidation.Base.{
  ℕ, Bool, ◌&&◌, ◌||◌, some, List, [], ◌∷◌, ◌++◌, map, ltb, leb, nat_eq, if◌then◌else◌, ◌==◌,
  nat_Eq, option_Eq, list_Eq, length, drop, any_by,
}
use virtvalidation.Base.Dicts.{Dict, get_default, increment}
use virtvalidation.Base.Texts.{Text, codes, join, text_le, decimal}
use virtvalidation.Base.Sorting.{sorted}
use virtvalidation.Group.{VmGroup}
use virtvalidation.Preclassifier.Source.{
  SourceVm, PrimaryKey, vm_ids_of, non_empty, shared_networks, shared_datastores, column_values,
}
use virtvalidation.Preclassifier.Roles.{detect_role, detect_state}
use virtvalidation.Preclassifier.Risk.{detect_risk, assess_risk}
use virtvalidation.Preclassifier.Ha.{has_sequential_names, detect_ha_members}

-- `{"data": 5, ...}.get(role, 0)`
abbrev pub role_weights : Dict Text ℕ
role_weights =
    (codes "data", 5)
    ∷ (codes "infrastructure", 4)
    ∷ (codes "edge", 3)
    ∷ (codes "app", 2)
    ∷ (codes "web", 1)
    ∷ (codes "other", 0)
    ∷ []

unfoldable pub role_weight : Text → ℕ
role_weight role = get_default role 0 role_weights

unfoldable pub count_roles : Dict Text ℕ → List SourceVm → Dict Text ℕ
count_roles counts [] = counts
count_roles counts (v ∷ vms) = count_roles (increment (detect_role v) counts) vms

-- The key of the vote: the count, then the weight.
abbrev vote_lt : Text × ℕ → Text × ℕ → Bool
vote_lt a b = ltb a.1 b.1 || (nat_eq a.1 b.1 && ltb (role_weight a.0) (role_weight b.0))

-- `max(items, key=...)`, from the best so far: of equal keys the first counts
unfoldable pub best_vote : Text × ℕ → Dict Text ℕ → Text
unfolding role_weight
best_vote best [] = best.0
best_vote best (e ∷ es) = best_vote (if vote_lt best e then e else best) es

unfoldable pub majority_role : List SourceVm → Text
unfolding count_roles best_vote
majority_role vms = elim (count_roles [] vms) [ [] ↦ [] | e ∷ es ↦ best_vote e es ]

abbrev is_stateful_vm : SourceVm → Bool
is_stateful_vm v = detect_state (detect_role v) == codes "stateful"

-- The state of the role, unless a VM behind the first is stateful.
unfoldable pub group_state : Text → List SourceVm → Text
group_state role vms =
    if any_by is_stateful_vm (drop 1 vms) then codes "stateful" else detect_state role

-- `if names: notes_parts.append(f"{title}: {', '.join(sorted(names))}")`
unfoldable pub note_part : Text → List Text → List Text
unfolding join sorted
note_part title names =
    if non_empty names
    then (title ++ codes ": " ++ join (codes ", ") (sorted text_le names)) ∷ []
    else []

unfoldable pub notes_parts : List SourceVm → Bool → List Text
unfolding note_part
notes_parts vms sequential =
    (if leb 2 (length vms) && sequential
      then (decimal (length vms) ++ codes " VMs with sequential names (likely HA group)") ∷ []
      else [])
    ++ note_part (codes "share networks") (shared_networks vms)
    ++ note_part (codes "share datastores") (shared_datastores vms)
    ++ note_part (codes "application_hint")
        (column_values (λ (v : SourceVm). v.application_hint) vms)
    ++ note_part (codes "environment") (column_values (λ (v : SourceVm). v.environment) vms)

-- `"; ".join(parts) or ...`; no part is empty
unfoldable pub group_notes : Text → List SourceVm → List Text → Text
group_notes discriminator vms [] = decimal (length vms) ++ codes " VMs grouped by " ++ discriminator
group_notes discriminator vms (p ∷ ps) = join (codes "; ") (p ∷ ps)

unfoldable pub shared_report : List SourceVm → Dict Text (List Text)
shared_report vms =
    (codes "networks", sorted text_le (shared_networks vms))
    ∷ (codes "datastores", sorted text_le (shared_datastores vms))
    ∷ (
      codes "application_hints",
      sorted text_le (column_values (λ (v : SourceVm). v.application_hint) vms),
    )
    ∷ (codes "environments", sorted text_le (column_values (λ (v : SourceVm). v.environment) vms))
    ∷ (codes "os_families", sorted text_le (column_values (λ (v : SourceVm). v.os_family) vms))
    ∷ []

unfoldable pub build_group : PrimaryKey → List SourceVm → Text → VmGroup
unfolding majority_role group_state notes_parts group_notes shared_report
build_group primary vms discriminator =
    let role = majority_role vms in
    let state = group_state role vms in
    let sequential = has_sequential_names (map (λ (v : SourceVm). v.name) vms) in
    let ha_members = detect_ha_members vms in
    record {
      key = record {
        vcenter_id = primary.vcenter_id;
        target_namespace = primary.namespace;
        role = role;
        state = state;
        discriminator = discriminator;
        environment = primary.environment;
        target_cluster_id = primary.cluster_id;
      };
      vm_ids = sorted leb (vm_ids_of vms);
      shared_attributes = shared_report vms;
      estimated_role = role;
      estimated_state = state;
      migration_risk = detect_risk role state (length vms) sequential;
      dependency_hints = [];
      notes = group_notes discriminator vms (notes_parts vms sequential);
      risk_assessment = some (assess_risk role state (length vms) ha_members sequential);
      ha_members = ha_members;
    }
