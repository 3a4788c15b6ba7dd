-- ===== src/Editing/Docs.antt =====
-- `_override_entries`, `classify_wave` and `_build_wave_doc` of backend/app/core/plan_edit.py: the
-- wave documents behind an edit.
use virtvalidation.Base.{
  ℕ, ◌+◌, Bool, true, false, not, ◌&&◌, ◌||◌, Option, none, some, List, [], ◌∷◌, if◌then◌else◌,
  ◌==◌, nat_Eq, option_Eq, list_Eq, filter_by, any_by,
}
use virtvalidation.Base.Dicts.{Dict, push}
use virtvalidation.Base.Texts.{Text, codes}
use virtvalidation.Base.Rearranged.{collect}
use virtvalidation.Skeleton.Wave.{Wave, empty_wave, build_wave, wave_vm_ids}
use virtvalidation.Preclassifier.Source.{SourceVm}
use virtvalidation.Preclassifier.Classify.{classify}
use virtvalidation.Constraints.{Violation, WaveMembers, check_waves}
use virtvalidation.Partitions.{find_vm}
use virtvalidation.Editing.{EditSpec, OverrideEntry, WaveDoc, Plan}

-- `_WAVE_RULE_CODES`
abbrev is_wave_rule : Violation → Bool
is_wave_rule v = v.code == codes "wave_size" || v.code == codes "ha_family_cap"

-- `(wave_number, code, family)`
pub record RuleKey : Type 0 where
  pub wave_number : Option ℕ
  pub code : Text
  pub family : Option Text

abbrev same_rule : RuleKey → RuleKey → Bool
same_rule j k = j.wave_number == k.wave_number && j.code == k.code && j.family == k.family

abbrev rule_of : Violation → RuleKey
rule_of v = record { wave_number = v.wave_number; code = v.code; family = v.family }

-- `standing.get(key)`: of two violations with one key the later counts.
unfoldable pub find_standing : List Violation → RuleKey → Option Violation
find_standing [] key = none
find_standing (v ∷ vs) key =
    let later = find_standing vs key in
    elim later [ some w ↦ some w | none ↦ if same_rule (rule_of v) key then some v else none ]

-- `out` and `seen`
pub record Overrides : Type 0 where
  pub out : Dict (Option ℕ) (List OverrideEntry)
  pub seen : List RuleKey

unfoldable pub keep_entries : List Violation → Option ℕ → Overrides → List OverrideEntry → Overrides
unfolding find_standing
keep_entries standing number acc [] = acc
keep_entries standing number acc (entry ∷ entries) =
    let key : RuleKey = record { wave_number = number; code = entry.code; family = entry.family } in
    elim (find_standing standing key) [
      | none ↦ keep_entries standing number acc entries
      | some current ↦
          keep_entries standing number
            (record {
              out =
                  push number (record entry { count = current.count; limit = current.limit })
                    acc.out;
              seen = key ∷ acc.seen;
            })
            entries
    ]

unfoldable pub keep_overrides : List Violation → Overrides → List WaveDoc → Overrides
unfolding keep_entries
keep_overrides standing acc [] = acc
keep_overrides standing acc (w ∷ ws) =
    keep_overrides standing (keep_entries standing w.wave_number acc w.overrides) ws

unfoldable pub enter_overrides : ℕ → Text → Text → Overrides → List Violation → Overrides
enter_overrides plan_id actor now acc [] = acc
enter_overrides plan_id actor now acc (v ∷ vs) =
    let skip =
      not (is_wave_rule v)
      || not (v.plan_id == some plan_id)
      || any_by (same_rule (rule_of v)) acc.seen in
    let entry : OverrideEntry = record {
      code = v.code;
      family = v.family;
      count = v.count;
      limit = v.limit;
      by = actor;
      at = now;
    } in
    let acc' =
      if skip
      then acc
      else record { out = push v.wave_number entry acc.out; seen = rule_of v ∷ acc.seen } in
    enter_overrides plan_id actor now acc' vs

unfoldable pub override_entries :
    Plan → WaveMembers → List Violation → Text → Text → Dict (Option ℕ) (List OverrideEntry)
unfolding keep_overrides enter_overrides check_waves
override_entries plan after introduced actor now =
    let standing = filter_by is_wave_rule (check_waves (some plan.id) after) in
    let kept = keep_overrides standing (record { out = []; seen = [] }) plan.waves in
    let all = enter_overrides plan.id actor now kept introduced in all.out

-- The wave of `classify_wave`, rebuilt from its VMs.
unfoldable pub classify_wave : ℕ → List SourceVm → Wave
unfolding classify build_wave empty_wave
classify_wave number vms = build_wave number (classify none vms) (empty_wave number)

-- `vm_by_id[vid].name` for the ids of the wave
unfoldable pub names_by_id : List SourceVm → List ℕ → List Text
unfolding find_vm
names_by_id vms ids =
    collect (λ vid. elim (find_vm vid vms) [ none ↦ [] | some v ↦ v.name ∷ [] ]) ids

-- `previous.get("manual_edit") or {}`, the count and the note
abbrev prior_count_of : Option WaveDoc → ℕ
prior_count_of none = 0
prior_count_of (some w) = elim w.manual_edit [ none ↦ 0 | some m ↦ m.edit_count ]

abbrev prior_note_of : Option WaveDoc → Option Text
prior_note_of none = none
prior_note_of (some w) = elim w.manual_edit [ none ↦ none | some m ↦ m.note ]

-- `spec.note or prior_edit.get("note")`
abbrev note_or : Option Text → Option Text → Option Text
note_or none prior = prior
note_or (some []) prior = prior
note_or (some (c ∷ s)) prior = some (c ∷ s)

-- What the documents of one edit share: who edits, when, and the token of a wave.
pub record Stamp : Type 0 where
  pub actor : Text
  pub now : Text
  pub token : ℕ → Text

-- `error` is the YAML emit error, if the wave could not be emitted.
unfoldable pub build_wave_doc :
    ℕ
    → List SourceVm
    → Option WaveDoc
    → List OverrideEntry
    → Option Text
    → EditSpec
    → Stamp
    → WaveDoc
unfolding classify_wave names_by_id wave_vm_ids
build_wave_doc number vms previous overrides error spec stamp =
    let ids = wave_vm_ids (classify_wave number vms) in
    record {
      wave_number = some number;
      vm_ids = ids;
      vm_names = names_by_id vms ids;
      overrides = overrides;
      manual_edit = some (record {
        edited_at = stamp.now;
        edited_by = stamp.actor;
        edit_count = prior_count_of previous + 1;
        note = note_or spec.note (prior_note_of previous);
      });
      mtv_yaml_available = elim error [ none ↦ true | some e ↦ false ];
      concurrency_group_id = 0;
      reannotation = some (stamp.token number);
    }
