-- ===== src/Editing/Sound.antt =====
-- The layout of an edit (backend/app/core/plan_edit.py) as the rebuild reads it.
use virtvalidation.Base.{
  ℕ, ◌≡◌, refl, sym, ◌∙◌, inl, inr, true, false, not, ◌&&◌, ◌||◌, Option, none, some, List, [], ◌∷◌,
  ◌++◌, arith, leb, Bool-cases, Option-cases, ◌==◌, nat_Eq, option_Eq, list_Eq, ==→eq, All,
}
use virtvalidation.Base.Dicts.{Dict, get, get_default, put, get-put}
use virtvalidation.Base.Sorting.{sorted-perm}
use virtvalidation.Base.Distinct.{
  contains, contains-append, contains-filter_by, contains-perm, Distinct, Distinct-append_left,
  Distinct-append_right,
}
use virtvalidation.Base.Keys.{keys}
use virtvalidation.Base.Rearranged.{collect}
use virtvalidation.Preclassifier.Source.{non_empty}
use virtvalidation.Editing.{WaveDoc, Plan, Membership}
use virtvalidation.Editing.Waves.{
  wave_membership, wave_membership_from, drop_empty, created_numbers, changed_waves, layout_of,
}
use virtvalidation.Editing.Rebuild.{docs_by_number}

-- The VMs of all waves of a plan.
abbrev pub ids_in_waves : Membership → List ℕ
ids_in_waves waves = collect (λ (w : ℕ × List ℕ). w.1) waves

pub drop_empty-filled :
    (waves : Membership) (n : ℕ)
    → contains (keys (drop_empty waves)) n ≡ true
    → non_empty (get_default n [] (drop_empty waves)) ≡ true
unfolding drop_empty
drop_empty-filled [] n h = absurd (cc)
drop_empty-filled ((k, []) ∷ waves) n h = drop_empty-filled waves n h
drop_empty-filled ((k, i ∷ ids) ∷ waves) n h = elim (Bool-cases (k == n)) [
  | inl same ↦ ground (arith, same)
  | inr other ↦ ground (arith, other, h, drop_empty-filled waves n)
]

pub wave-Distinct :
    (waves : Membership) (n : ℕ) → Distinct (ids_in_waves waves) → Distinct (get_default n [] waves)
wave-Distinct [] n d = tt
wave-Distinct ((k, ids) ∷ waves) n d = elim (Bool-cases (k == n)) [
  | inl same ↦ rw (get_default, same) (Distinct-append_left ids (ids_in_waves waves) d)
  | inr other ↦
      rw (get_default, other)
        (wave-Distinct waves n (Distinct-append_right ids (ids_in_waves waves) d))
]

All-append_left : (P : ℕ → Type 0) (xs ys : List ℕ) → All P (xs ++ ys) → All P xs
All-append_left P [] ys h = tt
All-append_left P (x ∷ xs) ys h = (h.0, All-append_left P xs ys h.1)

All-append_right : (P : ℕ → Type 0) (xs ys : List ℕ) → All P (xs ++ ys) → All P ys
All-append_right P [] ys h = h
All-append_right P (x ∷ xs) ys h = All-append_right P xs ys h.1

pub wave-All :
    (P : ℕ → Type 0) (waves : Membership) (n : ℕ)
    → All P (ids_in_waves waves)
    → All P (get_default n [] waves)
wave-All P [] n h = tt
wave-All P ((k, ids) ∷ waves) n h = elim (Bool-cases (k == n)) [
  | inl same ↦ rw (get_default, same) (All-append_left P ids (ids_in_waves waves) h)
  | inr other ↦
      rw (get_default, other) (wave-All P waves n (All-append_right P ids (ids_in_waves waves) h))
]

-- A wave that is not touched was there before, with the same VMs.
pub untouched :
    (before moved : Membership) (n : ℕ)
    → contains (keys (drop_empty moved)) n ≡ true
    → contains (layout_of before moved).touched n ≡ false
    → (contains (keys before) n ≡ true)
      × (get_default n [] (drop_empty moved) ≡ get_default n [] before)
unfolding layout_of changed_waves created_numbers
untouched before moved n here h =
    let after = drop_empty moved in
    let changed = changed_waves before after in
    let created = created_numbers before after in
    let parts : (contains changed n || contains created n) ≡ false =
      sym (contains-append changed created n)
      ∙ sym (contains-perm _ _ n (sorted-perm leb (changed ++ created)))
      ∙ h in
    let is_changed =
      contains-filter_by
        (λ k. contains (keys before) k && not (get_default k [] after == get_default k [] before))
        (keys after) n in
    let is_created = contains-filter_by (λ k. not (contains (keys before) k)) (keys after) n in
    let was : contains (keys before) n ≡ true = ground (arith, here, parts, is_created) in
    let equal : (get_default n [] after == get_default n [] before) ≡ true =
      ground (arith, here, was, parts, is_changed) in
    (was, ==→eq (get_default n [] after) (get_default n [] before) equal)

get_of_contains :
    (d : Membership) (n : ℕ) → contains (keys d) n ≡ true → (ids : List ℕ) × (get n d ≡ some ids)
get_of_contains [] n h = absurd (cc)
get_of_contains ((k, ids) ∷ d) n h = elim (Bool-cases (k == n)) [
  | inl same ↦ (ids, rw same refl)
  | inr other ↦ rw other (get_of_contains d n (ground (arith, other, h)))
]

abbrev ids_of_doc : Option WaveDoc → Option (List ℕ)
ids_of_doc none = none
ids_of_doc (some w) = some w.vm_ids

-- The membership and the documents are read off the plan alike.
docs_by_number-get :
    (out : Membership) (docs : Dict ℕ WaveDoc) (ws : List WaveDoc)
    → ((n : ℕ) → get n out ≡ ids_of_doc (get n docs))
    → (n : ℕ) → get n (wave_membership_from out ws) ≡ ids_of_doc (get n (docs_by_number docs ws))
unfolding wave_membership_from docs_by_number
docs_by_number-get out docs [] h n = h n
docs_by_number-get out docs (w ∷ ws) h n = elim (Option-cases w.wave_number) [
  | inl e ↦ rw e (docs_by_number-get out docs ws h n)
  | inr (k, e) ↦ rw e (
      docs_by_number-get (put k w.vm_ids out) (put k w docs) ws
        (λ j. ground (arith, get-put k j w.vm_ids out, get-put k j w docs, h j)) n)
]

pub previous-ids :
    (plan : Plan) (n : ℕ)
    → contains (keys (wave_membership plan)) n ≡ true
    → (w : WaveDoc) × (get n (docs_by_number [] plan.waves) ≡ some w)
      × (w.vm_ids ≡ get_default n [] (wave_membership plan))
unfolding wave_membership
previous-ids plan n h =
    let same = docs_by_number-get [] [] plan.waves (λ k. refl) n in
    let (ids, found) = get_of_contains (wave_membership plan) n h in
    elim (Option-cases (get n (docs_by_number [] plan.waves))) [
      | inl away ↦ absurd (ground (arith, away, found, same))
      | inr (w, e) ↦ (w, e, ground (arith, e, found, same))
    ]
