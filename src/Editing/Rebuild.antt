-- ===== src/Editing/Rebuild.antt =====
-- `_shell_wave` and `_rebuild_plan` of backend/app/core/plan_edit.py: a plan behind an edit.
use virtvalidation.Base.{
  ℕ, Bool, true, false, ◌||◌, Option, none, some, List, [], ◌∷◌, ◌++◌, map, leb, if◌then◌else◌,
  ◌==◌, nat_Eq, option_Eq, list_Eq, length, filter_by,
}
use virtvalidation.Base.Dicts.{Dict, get, get_default, put}
use virtvalidation.Base.Texts.{Text, codes, decimal}
use virtvalidation.Base.Sorting.{sorted}
use virtvalidation.Base.Distinct.{contains}
use virtvalidation.Base.Keys.{keys}
use virtvalidation.Base.Rearranged.{collect}
use virtvalidation.Family.Split.{Names}
use virtvalidation.Skeleton.Wave.{Wave, empty_wave}
use virtvalidation.Concurrency.{assign_concurrency_groups}
use virtvalidation.Preclassifier.Source.{SourceVm, non_empty}
use virtvalidation.Constraints.{Violation}
use virtvalidation.Partitions.{find_vm}
use virtvalidation.Editing.{
  EditSpec, EditError, Edit, then_edit, ensure, OverrideEntry, WaveDoc, Plan, Membership,
}
use virtvalidation.Editing.Waves.{max_of}
use virtvalidation.Editing.Checks.{Services, blocking, info, plan_violation, from_keys}
use virtvalidation.Editing.Docs.{Stamp, build_wave_doc}

-- `_shell_wave`
unfoldable pub shell_wave : ℕ → List ℕ → Option ℕ → Wave
unfolding empty_wave
shell_wave number ids vcenter = record (empty_wave number) {
  groups =
      record {
        key = record {
          vcenter_id = vcenter;
          target_namespace = [];
          role = codes "other";
          state = codes "unknown";
          discriminator = codes "shell";
          environment = codes "unknown";
          target_cluster_id = none;
        };
        vm_ids = ids;
        shared_attributes = [];
        estimated_role = codes "other";
        estimated_state = codes "unknown";
        migration_risk = codes "low";
        dependency_hints = [];
        notes = [];
        risk_assessment = none;
        ha_members = [];
      }
      ∷ [];
}

-- `next((vcenter_by_vm[vid] for vid in ids if vcenter_by_vm.get(vid) is not None), None)`
abbrev first_vcenter : Dict ℕ (Option ℕ) → List ℕ → Option ℕ
first_vcenter vcenters [] = none
first_vcenter vcenters (vid ∷ ids) =
    let rest = first_vcenter vcenters ids in
    elim (get_default vid none vcenters) [ none ↦ rest | some v ↦ some v ]

-- `doc["wave_number"]`, which every document of the rebuilt plan has
abbrev pub number_of : WaveDoc → ℕ
number_of w = elim w.wave_number [ none ↦ 0 | some n ↦ n ]

unfoldable pub shell_of : Dict ℕ (Option ℕ) → WaveDoc → Wave
unfolding shell_wave
shell_of vcenters w = shell_wave (number_of w) w.vm_ids (first_vcenter vcenters w.vm_ids)

-- `for doc, shell in zip(docs, shells)`
abbrev pub color_docs : List WaveDoc → List Wave → List WaveDoc
color_docs [] shells = []
color_docs (w ∷ ws) [] = []
color_docs (w ∷ ws) (s ∷ shells) =
    record w { concurrency_group_id = s.concurrency_group_id } ∷ color_docs ws shells

unfoldable pub recolor : Names → Dict ℕ (Option ℕ) → List WaveDoc → List WaveDoc
unfolding shell_of assign_concurrency_groups
recolor names vcenters docs =
    color_docs docs (assign_concurrency_groups (map (shell_of vcenters) docs) names)

-- `previous`: the documents by their numbers
unfoldable pub docs_by_number : Dict ℕ WaveDoc → List WaveDoc → Dict ℕ WaveDoc
docs_by_number out [] = out
docs_by_number out (w ∷ ws) = elim w.wave_number [
  | none ↦ docs_by_number out ws
  | some n ↦ docs_by_number (put n w out) ws
]

unfoldable pub emit_violation : ℕ → ℕ → Bool → Text → Violation
unfolding plan_violation
emit_violation plan_id number was_ok error =
    record (plan_violation (codes "yaml_emit_failed") (if was_ok then blocking else info)
      (codes "Wave " ++ decimal number ++ codes " could not be emitted as MTV YAML: " ++ error)
      plan_id) { wave_number = some number }

abbrev yaml_available : Option WaveDoc → Bool
yaml_available none = false
yaml_available (some w) = w.mtv_yaml_available

-- The documents, the violations and the removed waves of the loop.
pub record Rebuilt : Type 0 where
  pub docs : List WaveDoc
  pub violations : List Violation
  pub removed : List ℕ

-- What the loop reads.
pub record Rebuilding : Type 0 where
  pub services : Services
  pub table : List SourceVm
  pub plan : Plan
  pub after : Membership
  pub touched : List ℕ
  pub created : List ℕ
  pub overrides : Dict (Option ℕ) (List OverrideEntry)
  pub previous : Dict ℕ WaveDoc
  pub spec : EditSpec
  pub stamp : Stamp

-- `[vm_rows[vid] for vid in ids if vid in vm_rows]`
unfoldable pub rows_of : List SourceVm → List ℕ → List SourceVm
unfolding find_vm
rows_of table ids = collect (λ vid. elim (find_vm vid table) [ none ↦ [] | some v ↦ v ∷ [] ]) ids

abbrev pub overrides_at : Rebuilding → ℕ → List OverrideEntry
overrides_at r number = get_default (some number) [] r.overrides

-- A touched wave of which some VM still has a row.
unfoldable pub rebuild_touched : Rebuilding → ℕ → List SourceVm → WaveDoc × List Violation
unfolding build_wave_doc emit_violation
rebuild_touched r number vms =
    let previous = get number r.previous in
    let error = r.services.emit_error r.plan number vms in
    let was_ok = contains r.created number || yaml_available previous in
    (
      build_wave_doc number vms previous (overrides_at r number) error r.spec r.stamp,
      elim error [ none ↦ [] | some e ↦ emit_violation r.plan.id number was_ok e ∷ [] ],
    )

-- A wave that the edit does not touch: its document, with the overrides of now.
unfoldable pub keep_doc : Rebuilding → ℕ → WaveDoc → WaveDoc
keep_doc r number w =
    if non_empty (overrides_at r number) || non_empty w.overrides
    then record w { overrides = overrides_at r number }
    else w

-- The loop; `previous[number]` raises a KeyError, here none, if the plan had no such wave.
unfoldable pub rebuild_waves : Rebuilding → List ℕ → Option Rebuilt
unfolding rows_of rebuild_touched keep_doc
rebuild_waves r [] = some (record { docs = []; violations = []; removed = [] })
rebuild_waves r (number ∷ numbers) = elim (rebuild_waves r numbers) [
  | none ↦ none
  | some rest ↦ elim (contains r.touched number) [
    | true ↦ elim (rows_of r.table (get_default number [] r.after)) [
      | [] ↦ some (record rest { removed = number ∷ rest.removed })
      | v ∷ vms ↦
          let rebuilt = rebuild_touched r number (v ∷ vms) in
          some (record rest {
            docs = rebuilt.0 ∷ rest.docs;
            violations = rebuilt.1 ++ rest.violations;
          })
    ]
    | false ↦ elim (get number r.previous) [
      | none ↦ none
      | some w ↦ some (record rest { docs = keep_doc r number w ∷ rest.docs })
    ]
  ]
]

-- `PlanChange`
pub record PlanChange : Type 0 where
  pub plan : Plan
  pub waves : List WaveDoc
  pub vm_ids : List ℕ
  pub wave_number_seq : ℕ
  pub touched_waves : List ℕ
  pub created_waves : List ℕ
  pub removed_waves : List ℕ

abbrev pub ids_of_docs : List WaveDoc → List ℕ
ids_of_docs docs = collect (λ (w : WaveDoc). w.vm_ids) docs

abbrev pub kept_in : List WaveDoc → List ℕ → List ℕ
kept_in docs numbers = filter_by (contains (map number_of docs)) numbers

unfoldable pub change_of : Rebuilding → List ℕ → List WaveDoc → PlanChange
unfolding from_keys sorted
change_of r removed docs = record {
  plan = r.plan;
  waves = docs;
  vm_ids = ids_of_docs docs;
  wave_number_seq = max_of (r.plan.wave_number_seq ∷ keys r.previous ++ keys r.after);
  touched_waves = sorted leb (kept_in docs r.touched);
  created_waves = sorted leb (kept_in docs r.created);
  removed_waves = sorted leb (from_keys removed);
}

-- Behind the loop: the colours, and the check that no VM stands in two waves.
unfoldable pub finish_rebuild :
    Rebuilding → Names → Dict ℕ (Option ℕ) → List ℕ → Rebuilt → Edit (PlanChange × List Violation)
unfolding recolor then_edit ensure from_keys change_of
finish_rebuild r names vcenters removed rebuilt =
    let docs = recolor names vcenters rebuilt.docs in
    let ids = ids_of_docs docs in
    then_edit
      (ensure (length ids == length (from_keys ids)) (EditError.membership_corrupt r.plan.id))
      (λ sound. Edit.going (change_of r (removed ++ rebuilt.removed) docs, rebuilt.violations))

unfoldable pub rebuild_plan :
    Rebuilding → Names → Dict ℕ (Option ℕ) → List ℕ → Edit (PlanChange × List Violation)
unfolding rebuild_waves finish_rebuild sorted
rebuild_plan r names vcenters removed = elim (rebuild_waves r (sorted leb (keys r.after))) [
  | none ↦ Edit.refused EditError.key_error
  | some rebuilt ↦ finish_rebuild r names vcenters removed rebuilt
]
