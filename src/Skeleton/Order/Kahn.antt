-- ===== src/Skeleton/Order/Kahn.antt =====
-- The loop of Kahn's algorithm: no id is placed twice, and the fuel is enough.
use virtvalidation.Base.{
  ℕ, zero, suc, ◌+◌, ◌≤◌, ◌≡◌, refl, ◌∙◌, subst, inl, inr, true, false, Option, none, some, List,
  [], ◌∷◌, ◌++◌, arith, ltb, nat_eq, if◌then◌else◌, Bool-cases, ◌==◌, nat_Eq, option_Eq, list_Eq,
  ==→eq, length, length-append, count_by, length-perm,
}
use virtvalidation.Base.Dicts.{Dict, get, get_default, put, get-put}
use virtvalidation.Base.Texts.{Text, text_le}
use virtvalidation.Base.Sorting.{sorted, sorted-perm}
use virtvalidation.Group.{VmGroup, group_id}
use virtvalidation.Base.Distinct.{
  contains, Distinct, contains-perm, Distinct-perm, Distinct-append_left,
}
use virtvalidation.Skeleton.Order.{Degrees, contains_text, lower_degree, release, relax, kahn}
use mathlib.Core.List.{Perm, append_assoc, perm_append_singleton}
use mathlib.Core.List.Perm

-- The ids that are placed or ready have degree 0, and are listed once.
pub record IsSettled (degrees : Dict Text ℕ) (ids : List Text) : Type 0 where
  pub distinct : Distinct ids
  pub settled : (a : Text) → contains ids a ≡ true → get a degrees ≡ some 0

pub IsSettled-perm :
    (degrees : Dict Text ℕ) (xs ys : List Text)
    → Perm xs ys
    → IsSettled degrees xs
    → IsSettled degrees ys
IsSettled-perm degrees xs ys p s = record {
  distinct = Distinct-perm xs ys p s.distinct;
  settled = λ a h. s.settled a (contains-perm xs ys a p ∙ h);
}

-- The ids that still wait for a dependency.
abbrev pub waiting : Dict Text ℕ → ℕ
waiting degrees = count_by (λ (e : Text × ℕ). ltb 0 e.1) degrees

waiting-put :
    (id : Text) (n : ℕ) (degrees : Dict Text ℕ)
    → get id degrees ≡ some (suc n)
    → (if n == 0 then 1 else 0) + waiting (put id n degrees) ≡ waiting degrees
waiting-put id n [] h = cc
waiting-put id n ((j, k) ∷ rest) h = ground (arith, waiting-put id n rest)

-- What the inner loop keeps: `placed` with the ready ids is settled.
module _ (placed : List Text) where
  abbrev IsSettledWith : Degrees → Type 0
  IsSettledWith (degrees, ready) = IsSettled degrees (placed ++ ready)

  -- The rounds that are left.
  abbrev pub rounds : Degrees → ℕ
  rounds (degrees, ready) = length ready + waiting degrees

  settled_absent :
      (degrees : Dict Text ℕ) (ids : List Text) (id : Text) (n : ℕ)
      → get id degrees ≡ some (suc n)
      → IsSettled degrees ids
      → contains ids id ≡ false
  settled_absent degrees ids id n h s = elim (Bool-cases (contains ids id)) [
    | inl there ↦ ground (arith, s.settled id there)
    | inr absent ↦ absent
  ]

  other_degree :
      (id : Text) (n : ℕ) (degrees : Dict Text ℕ) (ids : List Text)
      → IsSettled degrees ids
      → contains ids id ≡ false
      → (a : Text) → contains ids a ≡ true
      → get a (put id n degrees) ≡ some 0
  other_degree id n degrees ids s absent a there = elim (Bool-cases (id == a)) [
    | inl same ↦ cc (subst (λ z. contains ids z ≡ false) (==→eq id a same) absent)
    | inr other ↦ rw (get-put, other) (s.settled a there)
  ]

  lower_degree-IsSettled :
      (degrees : Dict Text ℕ) (ready : List Text) (id : Text) (n : ℕ)
      → get id degrees ≡ some (suc n)
      → IsSettledWith (degrees, ready)
      → IsSettledWith (lower_degree id (suc n) (degrees, ready))
  unfolding lower_degree
  lower_degree-IsSettled degrees ready id zero h s =
      let absent = settled_absent degrees (placed ++ ready) id 0 h s in
      let joined : IsSettled (put id 0 degrees) (id ∷ placed ++ ready) = record {
        distinct = (absent, s.distinct);
        settled = λ a there. ground (arith, get-put id a 0 degrees, s.settled a);
      } in
      rw (← append_assoc) (
        IsSettled-perm (put id 0 degrees) (id ∷ placed ++ ready) ((placed ++ ready) ++ id ∷ [])
          (Perm.symm (perm_append_singleton id (placed ++ ready))) joined)
  lower_degree-IsSettled degrees ready id (suc n) h s =
      let absent = settled_absent degrees (placed ++ ready) id (suc n) h s in
      let waits : nat_eq (suc n) 0 ≡ false = ground arith in
      let kept : IsSettled (put id (suc n) degrees) (placed ++ ready) = record {
        distinct = s.distinct;
        settled = λ a there. other_degree id (suc n) degrees (placed ++ ready) s absent a there;
      } in
      rw waits kept

  lower_degree-rounds :
      (degrees : Dict Text ℕ) (ready : List Text) (id : Text) (n : ℕ)
      → get id degrees ≡ some (suc n)
      → rounds (lower_degree id (suc n) (degrees, ready)) ≡ rounds (degrees, ready)
  unfolding lower_degree
  lower_degree-rounds degrees ready id n h =
      ground (arith, waiting-put id n degrees h, length-append ready (id ∷ []))

  release-keeps :
      (gid : Text) (g : VmGroup) (state : Degrees)
      → IsSettledWith state
      → IsSettledWith (release gid g state) × (rounds (release gid g state) ≡ rounds state)
  unfolding release
  release-keeps gid g (degrees, ready) s =
      elim (Bool-cases (contains_text g.dependency_hints gid)) [
        | inl hinted ↦ rw hinted (go (get (group_id g) degrees) refl)
        | inr other ↦ rw other (s, refl)
      ]
    where
      go :
          (degree : Option ℕ)
          → get (group_id g) degrees ≡ degree
          → IsSettledWith
              (lower_degree (group_id g) (get_default (group_id g) 0 degrees) (degrees, ready))
            × (rounds
                  (lower_degree (group_id g) (get_default (group_id g) 0 degrees) (degrees, ready))
                ≡ rounds (degrees, ready))
      go none e = rw (e, get_default) (s, refl)
      go (some zero) e = rw (e, get_default) (s, refl)
      go (some (suc n)) e =
          rw (e, get_default)
            (
              lower_degree-IsSettled degrees ready (group_id g) n e s,
              lower_degree-rounds degrees ready (group_id g) n e,
            )

  relax-keeps :
      (gid : Text) (gs : List VmGroup) (state : Degrees)
      → IsSettledWith state
      → IsSettledWith (relax gid state gs) × (rounds (relax gid state gs) ≡ rounds state)
  unfolding relax
  relax-keeps gid [] state s = (s, refl)
  relax-keeps gid (g ∷ gs) state s =
      let (s', same) = release-keeps gid g state s in
      let (s'', same') = relax-keeps gid gs (release gid g state) s' in (s'', same' ∙ same)

-- What is shown of the pair that the loop returns.
abbrev pub IsFinished : List Text × List Text → Type 0
IsFinished (placed, ready) = Distinct placed × (ready ≡ [])

-- One round: an id is popped, and the ids that it releases join the others.
pop-keeps :
    (groups : List VmGroup) (gid : Text) (others placed : List Text) (degrees : Dict Text ℕ)
    (ready : List Text)
    → Perm (gid ∷ others) ready
    → IsSettled degrees (placed ++ ready)
    → let next = relax gid (degrees, others) groups in
      IsSettled next.0 ((placed ++ gid ∷ []) ++ next.1)
      × (rounds (placed ++ gid ∷ []) next + 1 ≡ rounds placed (degrees, ready))
pop-keeps groups gid others placed degrees ready p s =
    let popped : IsSettled degrees ((placed ++ gid ∷ []) ++ others) = rw append_assoc (
      IsSettled-perm degrees (placed ++ ready) (placed ++ gid ∷ others)
        (Perm.append_left placed (Perm.symm p)) s) in
    let (settled, same) = relax-keeps (placed ++ gid ∷ []) gid groups (degrees, others) popped in
    (settled, omega (arith, same, length-perm p))

-- The loop with as much fuel as there are rounds left ends with no id ready, and has placed no id
-- twice.
pub kahn-IsFinished :
    (groups : List VmGroup) (fuel : ℕ) (degrees : Dict Text ℕ) (ready placed : List Text)
    → IsSettled degrees (placed ++ ready)
    → rounds placed (degrees, ready) ≤ fuel
    → IsFinished (kahn groups fuel degrees ready placed)
unfolding kahn
kahn-IsFinished groups zero degrees [] placed s h =
    (Distinct-append_left placed [] s.distinct, refl)
kahn-IsFinished groups zero degrees (r ∷ ready) placed s h = absurd (omega arith)
kahn-IsFinished groups (suc fuel) degrees ready placed s h =
    go (kahn-IsFinished groups fuel) (sorted text_le ready) (sorted-perm text_le ready)
  where
    go :
        ((degrees : Dict Text ℕ) (ready placed : List Text)
          → IsSettled degrees (placed ++ ready)
          → rounds placed (degrees, ready) ≤ fuel
          → IsFinished (kahn groups fuel degrees ready placed))
        → (order : List Text) → Perm order ready
        → let result : List Text × List Text = elim order [
          | [] ↦ (placed, [])
          | gid ∷ others ↦
              let (degrees', ready') = relax gid (degrees, others) groups in
              kahn groups fuel degrees' ready' (placed ++ gid ∷ [])
        ] in
          IsFinished result
    go rest [] p = (Distinct-append_left placed ready s.distinct, refl)
    go rest (gid ∷ others) p =
        let (settled, fewer) = pop-keeps groups gid others placed degrees ready p s in
        rest _ _ (placed ++ gid ∷ []) settled (omega arith)
