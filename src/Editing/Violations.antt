-- ===== src/Editing/Violations.antt =====
-- The violations that `prepare` of backend/app/core/plan_edit.py finds in front of the rebuild.
use virtvalidation.Base.{
  ℕ, Bool, not, ◌&&◌, ◌||◌, Option, none, some, List, [], ◌∷◌, ◌++◌, map, leb, if◌then◌else◌, ◌==◌,
  nat_Eq, option_Eq, list_Eq, length, filter_by,
}
use virtvalidation.Base.Dicts.{Dict, put}
use virtvalidation.Base.Texts.{Text, codes, decimal}
use virtvalidation.Base.Distinct.{contains}
use virtvalidation.Base.Keys.{keys}
use virtvalidation.Base.Rearranged.{collect}
use virtvalidation.Family.Split.{Names}
use virtvalidation.Preclassifier.Source.{SourceVm, non_empty}
use virtvalidation.Constraints.{Violation, check_waves, diff_violations}
use virtvalidation.Editing.{Operation, is_move_to_plan, is_add, Plan, Membership, Memberships}
use virtvalidation.Editing.Waves.{stored_names, as_members, Move, drop_empty, Layout}
use virtvalidation.Editing.Checks.{
  Services, Tables, blocking, overridable, info, plan_violation, run_violations,
  has_completed_baseline,
}
use virtvalidation.Editing.Targets.{target_violations}
use virtvalidation.Editing.Rebuild.{rows_of}
use virtvalidation.Editing.Request.{Edited, after_of, before_of, layout_at, plans_of}

-- `sum(len(ids) for ids in waves.values())`
abbrev pub size_of : Membership → ℕ
size_of waves = length (collect (λ (w : ℕ × List ℕ). w.1) waves)

unfoldable pub empty_violations : Edited → List Violation
unfolding plan_violation drop_empty
empty_violations e =
    if non_empty (after_of e e.plan.id)
    then []
    else plan_violation (codes "would_empty_plan") blocking
        (codes "This would leave plan '"
          ++ e.plan.name
          ++ codes "' with no VMs. Delete the plan instead.")
        e.plan.id
      ∷ []

-- `(set(touched) - set(created)) | set(removed)`
abbrev pub existing_waves : Layout → List ℕ
existing_waves l = filter_by (λ n. not (contains l.created n)) l.touched ++ l.removed

unfoldable pub busy_violations : Tables → Edited → List Violation
unfolding run_violations layout_at
busy_violations db e =
    collect (λ (p : Plan). run_violations db p.id (existing_waves (layout_at e p.id))) (plans_of e)

unfoldable pub plan_size_violations : Tables → Edited → List Violation
unfolding plan_violation drop_empty
plan_size_violations db e =
    let size = size_of (after_of e e.target.id) in
    if leb size db.max_vms_per_plan
    then []
    else record (plan_violation (codes "plan_size") overridable
        (codes "Plan '"
          ++ e.target.name
          ++ codes "' would hold "
          ++ decimal size
          ++ codes " VMs, above the "
          ++ decimal db.max_vms_per_plan
          ++ codes "-VM batch size plans are generated at.")
        e.target.id) { count = some size; limit = some db.max_vms_per_plan }
      ∷ []

abbrev enters_plan : Operation → Bool
enters_plan op = is_move_to_plan op || is_add op

-- `rows_moved`
unfoldable pub rows_moved : Tables → Edited → List SourceVm
unfolding rows_of
rows_moved db e = rows_of db.vms (map (λ (m : Move). m.vm_id) e.moves)

unfoldable pub entering_violations : Services → Tables → Edited → List Violation
unfolding target_violations plan_size_violations rows_moved
entering_violations services db e =
    if enters_plan e.spec.operation
    then target_violations services db e.spec.operation e.plan e.target (rows_moved db e)
      ++ plan_size_violations db e
    else []

-- Each row of the table, behind the names persisted on the waves; `all_ids` limits the rows to
-- those that are asked for.
unfoldable pub fresh_names : Names → List SourceVm → Names
fresh_names names [] = names
fresh_names names (v ∷ vms) = fresh_names (put v.id v.name names) vms

unfoldable pub vcenter_by_vm : Dict ℕ (Option ℕ) → List SourceVm → Dict ℕ (Option ℕ)
vcenter_by_vm out [] = out
vcenter_by_vm out (v ∷ vms) = vcenter_by_vm (put v.id v.source_vcenter_id out) vms

unfoldable pub update_names : Names → Names → Names
update_names names [] = names
update_names names ((vid, name) ∷ more) = update_names (put vid name names) more

abbrev ids_of_plans : Memberships → List ℕ
ids_of_plans before = collect (λ (p : ℕ × Membership). collect (λ (w : ℕ × List ℕ). w.1) p.1) before

-- The rows of `all_ids`
unfoldable pub rows_involved : Tables → Edited → List ℕ → List SourceVm
rows_involved db e ids =
    filter_by (λ (v : SourceVm). contains (ids_of_plans e.before ++ ids) v.id) db.vms

unfoldable pub names_involved : Tables → Edited → List ℕ → Names
unfolding fresh_names update_names stored_names rows_involved
names_involved db e ids =
    fresh_names (update_names (stored_names e.plan) (stored_names e.target))
      (rows_involved db e ids)

-- `introduced[pid]`: what the edit adds to the violations of the wave rules
unfoldable pub introduced : Names → Edited → ℕ → List Violation
unfolding diff_violations check_waves as_members drop_empty
introduced names e pid =
    diff_violations (check_waves (some pid) (as_members (before_of e pid) names))
      (check_waves (some pid) (as_members (after_of e pid) names))

unfoldable pub baseline_violation : Tables → Edited → ℕ → Violation
unfolding plan_violation rows_moved
baseline_violation db e n =
    record (plan_violation (codes "baseline_not_covered") info
      (codes "Wave "
        ++ decimal n
        ++ codes " already has a captured baseline. The "
        ++ decimal (length e.moves)
        ++ codes " VM(s) joining it are not in that baseline — capture it again before validating.")
      e.target.id) {
        wave_number = some n;
        vm_ids = map (λ (m : Move). m.vm_id) e.moves;
        vm_names = map (λ (v : SourceVm). v.name) (rows_moved db e);
      }

unfoldable pub baseline_violations : Tables → Edited → List Violation
unfolding baseline_violation has_completed_baseline
baseline_violations db e = elim e.dest [
  | none ↦ []
  | some n ↦
      if contains (keys (before_of e e.target.id)) n && has_completed_baseline db e.target.id n
      then baseline_violation db e n ∷ []
      else []
]

-- The violations in front of the rebuild, in the order in which they are found.
unfoldable pub edit_violations : Services → Tables → Names → Edited → List Violation
unfolding empty_violations busy_violations entering_violations introduced baseline_violations
edit_violations services db names e =
    empty_violations e
    ++ busy_violations db e
    ++ entering_violations services db e
    ++ collect (λ (p : Plan). introduced names e p.id) (plans_of e)
    ++ baseline_violations db e

abbrev pub has_severity : Text → Violation → Bool
has_severity severity v = v.severity == severity
