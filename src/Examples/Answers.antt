-- ===== src/Examples/Answers.antt =====
-- The theorem on the answers of a language model applied to an answer with two waves.
use virtvalidation.Base.{ℕ, ◌≡◌, refl, true, some, List, [], ◌∷◌, nat_Eq, option_Eq, list_Eq}
use virtvalidation.Base.Texts.{Text, codes}
use virtvalidation.Base.Sorting.{sorted}
use virtvalidation.Planner.Answers.{
  ℤ, Json, Items, Fields, get_field, Answer, and_then, require, or_reject, check_risk, as_text,
  AnswerWave, ParsedPlan, read_ids, wave_rated, wave_fresh, wave_known, wave_with_ids,
  wave_with_items, wave_numbered, wave_of_fields, parse_wave, parse_waves, plan_of_waves,
  plan_of_items, plan_of_fields, plan_of_value, parse_answer,
}
use virtvalidation.Planner.Answers.{parse_group_plan, number_le}
use virtvalidation.Planner.Answers.Complete.{AreApart, write_plan, parse_group_plan-write_plan}
use virtvalidation.Planner.Answers.Sound.{IsDivision, parse_answer-IsDivision}

abbrev two_ids : List Text
two_ids = codes "a" ∷ codes "b" ∷ []

abbrev wave_value : Json → Text → Json
wave_value number id = Json.object (
    Fields.field (codes "wave_number") number (
      Fields.field (codes "group_ids") (Json.array (Items.item (Json.text id) Items.end))
        (Fields.field (codes "estimated_risk") (Json.text (codes "low")) Fields.done)))

abbrev answer : Json
answer = Json.object (
    Fields.field (codes "waves")
      (Json.array (
        Items.item (wave_value (Json.int (ℤ.pos 2)) (codes "b"))
          (Items.item (wave_value (Json.bool true) (codes "a")) Items.end)))
      Fields.done)

abbrev answer_wave : ℕ → Text → AnswerWave Text
answer_wave n id = record {
  wave_number = ℤ.pos n;
  ids = id ∷ [];
  rationale = [];
  estimated_risk = codes "low";
}

abbrev answer_plan : ParsedPlan Text
answer_plan = record {
  summary = [];
  waves = answer_wave 1 (codes "a") ∷ answer_wave 2 (codes "b") ∷ [];
}

answer-accepted :
    parse_answer as_text (codes "group_ids") two_ids (some answer) ≡ Answer.accepted answer_plan
unfolding parse_answer plan_of_value plan_of_fields plan_of_items plan_of_waves parse_waves
    parse_wave wave_of_fields wave_numbered wave_with_items wave_with_ids wave_known wave_fresh
    wave_rated read_ids and_then require or_reject check_risk get_field sorted
answer-accepted = refl

parse_answer-IsDivision_example : IsDivision as_text (codes "group_ids") two_ids answer_plan.waves
parse_answer-IsDivision_example =
    parse_answer-IsDivision as_text (codes "group_ids") two_ids (some answer) answer_plan
      answer-accepted

waves-AreApart : AreApart two_ids [] (answer_wave 2 (codes "b") ∷ answer_wave 1 (codes "a") ∷ [])
waves-AreApart = (refl, refl, refl, refl, (refl, refl, refl, refl, tt))

parse_group_plan-write_plan_example :
    parse_group_plan two_ids (
      some (write_plan (codes "plan") (answer_wave 2 (codes "b") ∷ answer_wave 1 (codes "a") ∷ [])))
    ≡ Answer.accepted (record {
      summary = codes "plan";
      waves = sorted number_le (answer_wave 2 (codes "b") ∷ answer_wave 1 (codes "a") ∷ []);
    })
parse_group_plan-write_plan_example =
    parse_group_plan-write_plan two_ids (codes "plan") (answer_wave 2 (codes "b"))
      (answer_wave 1 (codes "a") ∷ []) waves-AreApart refl
