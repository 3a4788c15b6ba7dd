-- ===== src/Planner/Answers/Complete.antt =====
-- Which answers `_parse_group_plan` accepts: those that write down a division of the groups.
use virtvalidation.Base.{
  ℕ, ◌+◌, ◌≡◌, refl, ◌∙◌, true, not, some, List, [], ◌∷◌, ◌++◌, nat_Eq, option_Eq, list_Eq,
  filter_by,
}
use virtvalidation.Base.Texts.{Text, codes}
use virtvalidation.Base.Sorting.{sorted}
use virtvalidation.Base.Distinct.{contains}
use virtvalidation.Preclassifier.Source.{non_empty}
use virtvalidation.Planner.Answers.{
  ℤ, Json, Items, Fields, get_field, Answer, and_then, require, or_reject, check_risk, allowed_risk,
  as_text, AnswerWave, answer_ids, number_le, wave_rated, wave_fresh, wave_known, wave_with_ids,
  wave_with_items, wave_numbered, wave_of_fields, plan_of_waves, plan_of_items, plan_of_fields,
  plan_of_value, read_ids, unknown_in, parse_wave, parse_waves, parse_answer, parse_group_plan,
}

-- The answer that writes waves down.
abbrev pub write_ids : List Text → Items
write_ids [] = Items.end
write_ids (k ∷ ks) = Items.item (Json.text k) (write_ids ks)

abbrev pub write_wave : AnswerWave Text → Json
write_wave w = Json.object (
    Fields.field (codes "wave_number") (Json.int w.wave_number) (
      Fields.field (codes "group_ids") (Json.array (write_ids w.ids)) (
        Fields.field (codes "estimated_risk") (Json.text w.estimated_risk)
          (Fields.field (codes "rationale") (Json.text w.rationale) Fields.done))))

abbrev pub write_waves : List (AnswerWave Text) → Items
write_waves [] = Items.end
write_waves (w ∷ ws) = Items.item (write_wave w) (write_waves ws)

abbrev pub write_plan : Text → List (AnswerWave Text) → Json
write_plan summary ws = Json.object (
    Fields.field (codes "waves") (Json.array (write_waves ws))
      (Fields.field (codes "summary") (Json.text summary) Fields.done))

module _ (provided : List Text) where
  -- Each wave holds ids, of those provided and not of the waves before, and has one of the three
  -- risks; `seen` are the ids of the waves before.
  abbrev pub AreApart : List Text → List (AnswerWave Text) → Type 0
  AreApart seen [] = Unit
  AreApart seen (w ∷ ws) =
      (non_empty w.ids ≡ true)
      × (unknown_in as_text (codes "group_ids") provided w.ids ≡ [])
      × (filter_by (contains seen) w.ids ≡ [])
      × (contains allowed_risk w.estimated_risk ≡ true)
      × AreApart (w.ids ++ seen) ws

  read_ids-write :
      (ids : List Text) → read_ids as_text (codes "group_ids") provided (write_ids ids) ≡ some ids
  unfolding read_ids
  read_ids-write [] = refl
  read_ids-write (k ∷ ks) = rw (read_ids-write ks, read_ids) refl

  wave_with_items-write :
      (seen : List Text) (fields : Fields) (n : ℤ) (ids : List Text)
      → wave_with_items as_text (codes "group_ids") provided seen fields n (write_ids ids)
        ≡ wave_with_ids as_text (codes "group_ids") provided seen fields n ids
  unfolding wave_with_items or_reject and_then
  wave_with_items-write seen fields n ids =
      rw (read_ids-write ids, wave_with_items, or_reject, and_then) refl

  abbrev fields_written : ℤ → List Text → Text → Text → Fields
  fields_written n ids risk rationale = Fields.field (codes "wave_number") (Json.int n) (
      Fields.field (codes "group_ids") (Json.array (write_ids ids)) (
        Fields.field (codes "estimated_risk") (Json.text risk)
          (Fields.field (codes "rationale") (Json.text rationale) Fields.done)))

  wave_with_ids-write :
      (seen : List Text) (n : ℤ) (ids : List Text) (risk rationale : Text)
      → unknown_in as_text (codes "group_ids") provided ids ≡ []
      → filter_by (contains seen) ids ≡ []
      → contains allowed_risk risk ≡ true
      → wave_with_ids as_text
          (codes "group_ids")
          provided
          seen
          (fields_written n ids risk rationale)
          n
          ids
        ≡ Answer.accepted
            (record { wave_number = n; ids = ids; rationale = rationale; estimated_risk = risk })
  unfolding wave_with_ids wave_known wave_fresh wave_rated and_then require check_risk or_reject
      get_field
  wave_with_ids-write seen n ids risk rationale known fresh rated = rw (known, fresh, rated) refl

  parse_wave-write :
      (seen : List Text) (idx : ℕ) (n : ℤ) (ids : List Text) (risk rationale : Text)
      → non_empty ids ≡ true
      → unknown_in as_text (codes "group_ids") provided ids ≡ []
      → filter_by (contains seen) ids ≡ []
      → contains allowed_risk risk ≡ true
      → parse_wave as_text
          (codes "group_ids")
          provided
          seen
          idx
          (Json.object (fields_written n ids risk rationale))
        ≡ Answer.accepted
            (record { wave_number = n; ids = ids; rationale = rationale; estimated_risk = risk })
  unfolding parse_wave wave_of_fields wave_numbered and_then or_reject get_field
  parse_wave-write seen idx n [] risk rationale filled known fresh rated = absurd (cc)
  parse_wave-write seen idx n (k ∷ ks) risk rationale filled known fresh rated =
      wave_with_items-write seen (fields_written n (k ∷ ks) risk rationale) n (k ∷ ks)
      ∙ wave_with_ids-write seen n (k ∷ ks) risk rationale known fresh rated

  parse_waves-write :
      (seen : List Text) (idx : ℕ) (ws : List (AnswerWave Text))
      → AreApart seen ws
      → parse_waves as_text (codes "group_ids") provided seen idx (write_waves ws)
        ≡ Answer.accepted ws
  unfolding parse_waves
  parse_waves-write seen idx [] h = refl
  parse_waves-write seen idx (w ∷ ws) h =
      rw
        (
          parse_wave-write seen idx w.wave_number w.ids w.estimated_risk w.rationale h.0 h.1 h.2
              h.3,
          and_then,
        )
        (rw (parse_waves-write (w.ids ++ seen) (idx + 1) ws h.4, and_then) refl)

  -- If there is a wave, each wave holds ids, all of them provided and none of them in a wave before,
  -- and has one of the three risks, and every id provided is in a wave, then the answer that writes
  -- the waves down is accepted, and what is read from it is these waves, in the order of their
  -- numbers.
  pub parse_group_plan-write_plan :
      (summary : Text) (w : AnswerWave Text) (ws : List (AnswerWave Text))
      → AreApart [] (w ∷ ws)
      → filter_by (λ k. not (contains (answer_ids (w ∷ ws)) k)) provided ≡ []
      → parse_group_plan provided (some (write_plan summary (w ∷ ws)))
        ≡ Answer.accepted (record { summary = summary; waves = sorted number_le (w ∷ ws) })
  unfolding parse_group_plan parse_answer plan_of_value plan_of_fields plan_of_items plan_of_waves
      or_reject and_then require get_field
  parse_group_plan-write_plan summary w ws apart placed =
      rw (parse_waves-write [] 1 (w ∷ ws) apart, and_then) (rw (placed, require, and_then) refl)
