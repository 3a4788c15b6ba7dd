-- ===== src/Planner/Answers/Sound.antt =====
-- What an answer that is accepted is: a division of the ids provided into waves.
use virtvalidation.Base.{
  ℕ, ◌+◌, ◌≡◌, refl, ap, ◌∙◌, subst, inl, inr, Bool, true, false, not, Option, List, [], ◌∷◌, ◌++◌,
  arith, if◌then◌else◌, Bool-cases, Eq, ◌==◌, nat_Eq, option_Eq, list_Eq, ==→eq, All, filter_by,
  any_by, count_by, count_by-perm,
}
use virtvalidation.Base.Texts.{Text, codes}
use virtvalidation.Base.Sorting.{sorted, IsSorted, sorted-perm, sorted-IsSorted}
use virtvalidation.Base.Distinct.{contains, contains-append}
use virtvalidation.Base.Sorting.{sorted-All}
use virtvalidation.Preclassifier.Source.{non_empty}
use virtvalidation.Planner.Answers.{
  Json, Items, Fields, get_field, Fault, Answer, and_then, require, or_reject, allowed_risk,
  items_in, fields_of, summary_text, AnswerWave, answer_ids, ParsedPlan, number_le, plan_of_waves,
  plan_of_items, plan_of_fields, plan_of_value, parse_wave, parse_waves, parse_answer,
}
use virtvalidation.Planner.Answers.Steps.{
  and_then-accepted, accepted_same, number_le-IsOrder, require-accepted, filter_by-none,
}
use virtvalidation.Planner.Answers.Checked.{IsWave, parse_wave-IsWave}

module _ {K : Type 0} ⦃e : Eq K⦄ (read : Json → Option K) (ids_field : Text)
    (provided : List K) where
  any_by-of_contains :
      (p : K → Bool) (ids : List K) (a : K)
      → any_by p ids ≡ false
      → contains ids a ≡ true
      → p a ≡ false
  any_by-of_contains p [] a h there = absurd (cc)
  any_by-of_contains p (i ∷ ids) a h there = elim (Bool-cases (i == a)) [
    | inl same ↦ subst (λ z. p z ≡ false) (==→eq i a same) (ground (arith, h))
    | inr other ↦ any_by-of_contains p ids a (ground (arith, h)) (rw other at there)
  ]

  -- How many of the waves hold the id.
  abbrev pub waves_with : K → List (AnswerWave K) → ℕ
  waves_with a ws = count_by (λ (w : AnswerWave K). contains w.ids a) ws

  -- What holds of the waves of an answer for one id, when `seen` stands in the waves before.
  record IsOnce (seen : List K) (ws : List (AnswerWave K)) (a : K) : Type 0 where
    once : waves_with a ws ≡ (if contains (answer_ids ws) a then 1 else 0)
    known : contains (answer_ids ws) a ≡ true → contains provided a ≡ true
    fresh : contains (answer_ids ws) a ≡ true → contains seen a ≡ false

  cons-IsOnce :
      (seen : List K) (w : AnswerWave K) (ws : List (AnswerWave K)) (a : K)
      → IsWave read ids_field provided seen w
      → IsOnce (w.ids ++ seen) ws a
      → IsOnce seen (w ∷ ws) a
  cons-IsOnce seen w ws a wave rest =
      let split = contains-append w.ids (answer_ids ws) a in
      let before = contains-append w.ids seen a in
      let known = any_by-of_contains (λ k. not (contains provided k)) w.ids a wave.known in
      let fresh = any_by-of_contains (contains seen) w.ids a wave.fresh in
      record {
        once = ground (arith, split, before, rest.once, rest.fresh);
        known = λ there. ground (arith, there, split, known, rest.known);
        fresh = λ there. ground (arith, there, split, before, fresh, rest.fresh);
      }

  -- The wave holds ids, and its risk is one of the three.
  abbrev pub IsFilled : AnswerWave K → Type 0
  IsFilled w = (non_empty w.ids ≡ true) × (contains allowed_risk w.estimated_risk ≡ true)

  parse_waves-IsOnce :
      (seen : List K) (idx : ℕ) (items : Items) (ws : List (AnswerWave K))
      → parse_waves read ids_field provided seen idx items ≡ Answer.accepted ws
      → All IsFilled ws × ((a : K) → IsOnce seen ws a)
  unfolding parse_waves
  parse_waves-IsOnce seen idx Items.end ws h =
      subst (λ l. All IsFilled l × ((a : K) → IsOnce seen l a)) (accepted_same [] ws h)
        (
          tt,
          λ a. record { once = refl; known = λ there. absurd (cc); fresh = λ there. absurd (cc) },
        )
  parse_waves-IsOnce seen idx (Items.item v items) ws h =
      let first =
        and_then-accepted (parse_wave read ids_field provided seen idx v)
          (λ w.
            and_then (parse_waves read ids_field provided (w.ids ++ seen) (idx + 1) items)
              (λ vs. Answer.accepted (w ∷ vs)))
          ws h in
      let w = first.0 in
      let others =
        and_then-accepted (parse_waves read ids_field provided (w.ids ++ seen) (idx + 1) items)
          (λ vs. Answer.accepted (w ∷ vs)) ws first.2 in
      let wave = parse_wave-IsWave read ids_field provided seen idx v w first.1 in
      let rest = parse_waves-IsOnce (w.ids ++ seen) (idx + 1) items others.0 others.1 in
      subst (λ l. All IsFilled l × ((a : K) → IsOnce seen l a))
        (accepted_same (w ∷ others.0) ws others.2)
        (((wave.filled, wave.rated), rest.0), λ a. cons-IsOnce seen w others.0 a wave (rest.1 a))

  -- The division of the ids provided into waves.
  pub record IsDivision (ws : List (AnswerWave K)) : Type 0 where
    pub once : (a : K) → waves_with a ws ≡ (if contains provided a then 1 else 0)
    pub filled : All IsFilled ws
    pub ordered : IsSorted number_le ws

  plan_of_waves-IsDivision :
      (fields : Fields) (ws : List (AnswerWave K)) (plan : ParsedPlan K)
      → All IsFilled ws
      → ((a : K) → IsOnce [] ws a)
      → plan_of_waves read ids_field provided fields ws ≡ Answer.accepted plan
      → IsDivision plan.waves
  unfolding plan_of_waves
  plan_of_waves-IsDivision fields ws plan filled once h =
      let missing = filter_by (λ k. not (contains (answer_ids ws) k)) provided in
      let r =
        and_then-accepted (require (not (non_empty missing)) (Fault.not_placed missing))
          (λ placed. Answer.accepted (record {
            summary = summary_text (get_field (codes "summary") fields);
            waves = sorted number_le ws;
          }))
          plan h in
      let placed : any_by (λ k. not (contains (answer_ids ws) k)) provided ≡ false =
        filter_by-none (λ k. not (contains (answer_ids ws) k)) provided
          (require-accepted _ _ _ r.1) in
      let same : sorted number_le ws ≡ plan.waves =
        ap (λ (p : ParsedPlan K). p.waves) (accepted_same _ plan r.2) in
      subst (λ l. IsDivision l) same
        (record {
          once = λ a.
              count_by-perm (λ (w : AnswerWave K). contains w.ids a) (sorted-perm number_le ws)
              ∙ ground (
                arith,
                (once a).once,
                (once a).known,
                any_by-of_contains (λ k. not (contains (answer_ids ws) k)) provided a placed,
              );
          filled = sorted-All number_le IsFilled ws filled;
          ordered = sorted-IsSorted number_le number_le-IsOrder ws;
        })

  -- An answer that is accepted divides the ids provided into waves: every id that is provided stands
  -- in one wave, no other id does in any, every wave holds ids and has one of the three risks, and
  -- the waves are in the order of their numbers.
  pub parse_answer-IsDivision :
      (decoded : Option Json) (plan : ParsedPlan K)
      → parse_answer read ids_field provided decoded ≡ Answer.accepted plan
      → IsDivision plan.waves
  unfolding parse_answer plan_of_value plan_of_fields plan_of_items
  parse_answer-IsDivision decoded plan h =
      let value =
        and_then-accepted (or_reject decoded Fault.not_json) (plan_of_value read ids_field provided)
          plan h in
      let fields =
        and_then-accepted (or_reject (fields_of value.0) Fault.not_an_object)
          (plan_of_fields read ids_field provided) plan value.2 in
      let items =
        and_then-accepted (or_reject (items_in (get_field (codes "waves") fields.0)) Fault.no_waves)
          (plan_of_items read ids_field provided fields.0) plan fields.2 in
      let waves =
        and_then-accepted (parse_waves read ids_field provided [] 1 items.0)
          (plan_of_waves read ids_field provided fields.0) plan items.2 in
      let sound = parse_waves-IsOnce [] 1 items.0 waves.0 waves.1 in
      plan_of_waves-IsDivision fields.0 waves.0 plan sound.0 sound.1 waves.2
