-- ===== src/Planner/Answers/Checked.antt =====
-- What the checks on one wave of an answer establish.
use virtvalidation.Base.{
  ℕ, ◌-◌, ◌≡◌, refl, sym, ap, ◌∙◌, subst, inl, inr, true, false, not, Option, none, some, List, [],
  ◌∷◌, Option-cases, Eq, nat_Eq, option_Eq, list_Eq, any_by,
}
use virtvalidation.Base.Texts.{Text, codes}
use virtvalidation.Base.Distinct.{contains}
use virtvalidation.Preclassifier.Source.{non_empty}
use virtvalidation.Planner.Answers.{
  ℤ, Json, Items, Fields, get_field, Fault, Answer, or_reject, allowed_risk, number_in, items_in,
  fields_of, AnswerWave, wave_rated, wave_fresh, wave_known, wave_with_ids, wave_with_items,
  wave_numbered, wave_of_fields, read_ids, parse_wave,
}
use virtvalidation.Planner.Answers.Steps.{
  and_then-accepted, require-accepted, or_reject-accepted, check_risk-accepted, items_in-item,
  filter_by-none,
}

module _ {K : Type 0} ⦃e : Eq K⦄ (read : Json → Option K) (ids_field : Text)
    (provided : List K) where
  read_ids-some :
      (v : Json) (rest : Items) (ids : List K)
      → read_ids read ids_field provided (Items.item v rest) ≡ some ids
      → non_empty ids ≡ true
  unfolding read_ids
  read_ids-some v rest ids h =
      let all = read_ids read ids_field provided (Items.item v rest) in
      elim (Option-cases (read v)) [
        | inl bad ↦
            let gone : all ≡ none = rw (bad, read_ids) refl in absurd (none_some (sym gone ∙ h))
        | inr good ↦ elim (Option-cases (read_ids read ids_field provided rest)) [
          | inl bad ↦
              let gone : all ≡ none = rw (good.1, bad, read_ids) refl in
              absurd (none_some (sym gone ∙ h))
          | inr more ↦
              let found : all ≡ some (good.0 ∷ more.0) = rw (good.1, more.1, read_ids) refl in
              some_cons (good.0) (more.0) ids (sym found ∙ h)
        ]
      ]
    where
      none_some : none ≡ some ids → ⊥
      none_some h = cc

      some_cons : (k : K) (ks ids : List K) → some (k ∷ ks) ≡ some ids → non_empty ids ≡ true
      some_cons k ks [] h = absurd (cc)
      some_cons k ks (i ∷ ids) h = refl

  -- What is checked of a wave that is accepted, when the ids `seen` stand in the waves before.
  pub record IsWave (seen : List K) (w : AnswerWave K) : Type 0 where
    pub known : any_by (λ k. not (contains provided k)) w.ids ≡ false
    pub fresh : any_by (contains seen) w.ids ≡ false
    pub filled : non_empty w.ids ≡ true
    pub rated : contains allowed_risk w.estimated_risk ≡ true

  rated-IsWave :
      (fields : Fields) (n : ℤ) (ids : List K) (risk : Text) (w : AnswerWave K)
      → wave_rated read ids_field provided fields n ids risk ≡ Answer.accepted w
      → (w.ids ≡ ids) × (w.estimated_risk ≡ risk)
  unfolding wave_rated
  rated-IsWave fields n ids risk w h =
      let r =
        and_then-accepted _
          (λ rationale.
            Answer.accepted
              (record { wave_number = n; ids = ids; rationale = rationale; estimated_risk = risk }))
          w h in
      same _ r.2
    where
      same :
          (v : AnswerWave K)
          → ◌≡◌ {A = Answer K (AnswerWave K)} (Answer.accepted v) (Answer.accepted w)
          → (w.ids ≡ v.ids) × (w.estimated_risk ≡ v.estimated_risk)
      same v h =
          let e : w ≡ v = cc in
          (ap (λ (x : AnswerWave K). x.ids) e, ap (λ (x : AnswerWave K). x.estimated_risk) e)

  with_ids-IsWave :
      (seen : List K) (fields : Fields) (n : ℤ) (ids : List K) (w : AnswerWave K)
      → non_empty ids ≡ true
      → wave_with_ids read ids_field provided seen fields n ids ≡ Answer.accepted w
      → IsWave seen w
  unfolding wave_with_ids wave_known wave_fresh
  with_ids-IsWave seen fields n ids w filled h =
      let known = and_then-accepted _ (wave_known read ids_field provided seen fields n ids) w h in
      let fresh = and_then-accepted _ (wave_fresh read ids_field provided fields n ids) w known.2 in
      let risk = and_then-accepted _ (wave_rated read ids_field provided fields n ids) w fresh.2 in
      let same = rated-IsWave fields n ids risk.0 w risk.2 in
      record {
        known =
            rw same.0 (
              filter_by-none (λ k. not (contains provided k)) ids (require-accepted _ _ _ known.1));
        fresh = rw same.0 (filter_by-none (contains seen) ids (require-accepted _ _ _ fresh.1));
        filled = rw same.0 filled;
        rated =
            rw same.1
              (check_risk-accepted n (get_field (codes "estimated_risk") fields) risk.0 risk.1);
      }

  pub parse_wave-IsWave :
      (seen : List K) (idx : ℕ) (v : Json) (w : AnswerWave K)
      → parse_wave read ids_field provided seen idx v ≡ Answer.accepted w
      → IsWave seen w
  unfolding parse_wave wave_of_fields wave_numbered wave_with_items
  parse_wave-IsWave seen idx v w h =
      let fields =
        and_then-accepted (or_reject (fields_of v) (Fault.wave_not_an_object (idx - 1)))
          (wave_of_fields read ids_field provided seen idx) w h in
      let number =
        and_then-accepted
          (or_reject (number_in idx (get_field (codes "wave_number") fields.0))
            Fault.bad_wave_number)
          (wave_numbered read ids_field provided seen fields.0) w fields.2 in
      let items =
        and_then-accepted
          (or_reject (items_in (get_field ids_field fields.0)) (Fault.no_ids number.0))
          (wave_with_items read ids_field provided seen fields.0 number.0) w number.2 in
      let ids =
        and_then-accepted
          (or_reject (read_ids read ids_field provided items.0) (Fault.bad_ids number.0))
          (wave_with_ids read ids_field provided seen fields.0 number.0) w items.2 in
      let some_item =
        items_in-item (get_field ids_field fields.0) items.0 (or_reject-accepted _ _ _ items.1) in
      let found : read_ids read ids_field provided (Items.item some_item.0 some_item.1)
          ≡ some ids.0 =
        subst (λ l. read_ids read ids_field provided l ≡ some ids.0) some_item.2
          (or_reject-accepted _ _ _ ids.1) in
      with_ids-IsWave seen fields.0 number.0 ids.0 w
        (read_ids-some some_item.0 some_item.1 ids.0 found) ids.2
