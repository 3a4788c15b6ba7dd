-- ===== src/Skeleton/Order/Complete.antt =====
-- `_topological_sort` returns the groups that it is given: Kahn's order with the remainder holds
-- each of them once.
use virtvalidation.Base.{
  length-map, ℕ, ◌+◌, ◌≡◌, refl, sym, ap, ◌∙◌, subst, inl, inr, true, false, not, none, some, List,
  [], ◌∷◌, ◌++◌, map, arith, Bool-cases, ◌==◌, nat_Eq, option_Eq, list_Eq, ==→eq, ==-refl, length,
  All, All-imp, filter_by, length-perm,
}
use virtvalidation.Base.Dicts.{IsKeyed-entries, Dict, get, has_key, increment}
use virtvalidation.Base.Texts.{Text, text_le}
use virtvalidation.Base.Sorting.{sorted, sorted-perm}
use virtvalidation.Group.{VmGroup, group_id}
use virtvalidation.Base.Rearranged.{collect, collect-perm}
use virtvalidation.Base.Keys.{
  keys, get_of_absent, keys-put_present, IsKeyed-of_Distinct, dict_from-Distinct,
}
use virtvalidation.Base.Distinct.{
  contains, Distinct, Distinct-append, contains-append, contains-perm, Distinct-perm,
  contains-filter_by, Distinct-filter_by, perm_of_contains,
}
use virtvalidation.Skeleton.Wave.{priority_le}
use virtvalidation.Skeleton.Order.{
  groups_by_id, zero_degrees, count_hints, indegrees, free_ids, group_at, groups_at, remainder,
  kahn_order, topological_order, topological_sort, contains_text,
}
use virtvalidation.Skeleton.Order.Kahn.{
  IsSettled-perm, IsSettled, waiting, IsFinished, kahn-IsFinished,
}
use mathlib.Core.List.{Perm, append_assoc}
use mathlib.Core.List.Perm

-- The ids of the groups.
abbrev pub group_ids : List VmGroup → List Text
group_ids gs = map group_id gs

count_hints-keys :
    (id : Text) (degrees : Dict Text ℕ) (deps : List Text)
    → contains (keys degrees) id ≡ true
    → keys (count_hints id degrees deps) ≡ keys degrees
unfolding count_hints
count_hints-keys id degrees [] h = refl
count_hints-keys id degrees (dep ∷ deps) h = elim (Bool-cases (has_key dep degrees)) [
  | inl known ↦
      let same : keys (increment id degrees) ≡ keys degrees = keys-put_present id _ degrees h in
      rw known (count_hints-keys id (increment id degrees) deps (rw same h) ∙ same)
  | inr unknown ↦ rw unknown (count_hints-keys id degrees deps h)
]

indegrees-keys :
    (degrees : Dict Text ℕ) (gs : List VmGroup)
    → All (λ (g : VmGroup). contains (keys degrees) (group_id g) ≡ true) gs
    → keys (indegrees degrees gs) ≡ keys degrees
unfolding indegrees
indegrees-keys degrees [] h = refl
indegrees-keys degrees (g ∷ gs) h =
    let same = count_hints-keys (group_id g) degrees g.dependency_hints h.0 in
    indegrees-keys (count_hints (group_id g) degrees g.dependency_hints) gs
      (All-imp gs (λ k there. rw same there) h.1)
    ∙ same

-- The free ids of a dict without repeated keys.
free_ids-keys :
    (degrees : Dict Text ℕ) (a : Text)
    → contains (keys degrees) a ≡ false
    → contains (free_ids degrees) a ≡ false
unfolding free_ids
free_ids-keys [] a h = refl
free_ids-keys ((id, n) ∷ rest) a h = ground (arith, free_ids-keys rest a)

free_ids-IsSettled :
    (degrees : Dict Text ℕ) → Distinct (keys degrees) → IsSettled degrees (free_ids degrees)
unfolding free_ids
free_ids-IsSettled [] h = record { distinct = tt; settled = λ a there. cc }
free_ids-IsSettled ((id, n) ∷ rest) h =
    let s = free_ids-IsSettled rest h.1 in
    let absent = free_ids-keys rest id h.0 in
    elim (Bool-cases (n == 0)) [
      | inl free ↦ rw free (record {
        distinct = (absent, s.distinct);
        settled = λ a there. elim (Bool-cases (id == a)) [
          | inl same ↦ rw (same, ==→eq n 0 free)
          | inr other ↦ ground (arith, s.settled a)
        ];
      })
      | inr waits ↦ rw waits (record {
        distinct = s.distinct;
        settled = λ a there. elim (Bool-cases (id == a)) [
          | inl same ↦ cc (subst (λ z. contains (free_ids rest) z ≡ false) (==→eq id a same) absent)
          | inr other ↦ ground (arith, s.settled a there)
        ];
      })
    ]

free_ids-waiting :
    (degrees : Dict Text ℕ) → length (free_ids degrees) + waiting degrees ≡ length degrees
unfolding free_ids
free_ids-waiting [] = omega arith
free_ids-waiting ((id, n) ∷ rest) = ground (arith, free_ids-waiting rest)

group_ids-contained :
    (gs : List VmGroup) → All (λ (g : VmGroup). contains (group_ids gs) (group_id g) ≡ true) gs
group_ids-contained [] = tt
group_ids-contained (g ∷ gs) =
    (rw (==-refl (group_id g)), All-imp gs (λ h there. ground arith) (group_ids-contained gs))

pub group_at-some :
    (by_id : Dict Text VmGroup) (id : Text) (g : VmGroup)
    → get id by_id ≡ some g
    → group_at by_id id ≡ g ∷ []
group_at-some by_id id g h = ground arith

group_at-none :
    (by_id : Dict Text VmGroup) (id : Text) → get id by_id ≡ none → group_at by_id id ≡ []
group_at-none by_id id h = ground arith

module _ (gs : List VmGroup) (unique : Distinct (group_ids gs)) where
  keys-zero_degrees : keys (zero_degrees gs) ≡ group_ids gs
  unfolding zero_degrees
  keys-zero_degrees =
      rw (dict_from-Distinct {V = ℕ} group_id (λ (g : VmGroup). 0) gs unique) (keys-entries gs)
    where
      keys-entries :
          (hs : List VmGroup)
          → keys {V = ℕ} (map (λ (g : VmGroup). (group_id g, 0)) hs) ≡ group_ids hs
      keys-entries [] = refl
      keys-entries (h ∷ hs) = rw (keys-entries hs)

  abbrev final_degrees : Dict Text ℕ
  final_degrees = indegrees (zero_degrees gs) gs

  keys-final_degrees : keys final_degrees ≡ group_ids gs
  keys-final_degrees =
      indegrees-keys (zero_degrees gs) gs (rw keys-zero_degrees (group_ids-contained gs))
      ∙ keys-zero_degrees

  length-final_degrees : length final_degrees ≡ length gs
  length-final_degrees =
      sym (length-map (λ (entry : Text × ℕ). entry.0) final_degrees)
      ∙ ap length keys-final_degrees
      ∙ length-map group_id gs

  -- If the ids of the groups differ: Kahn's loop places no id twice and ends with no id ready, so
  -- its fuel, the number of groups, is enough.
  pub kahn_order-IsFinished : IsFinished (kahn_order gs)
  unfolding kahn_order
  kahn_order-IsFinished =
      let free = free_ids final_degrees in
      let settled = free_ids-IsSettled final_degrees (rw keys-final_degrees unique) in
      let order = sorted-perm text_le free in
      kahn-IsFinished gs (length gs) final_degrees (sorted text_le free) []
        (IsSettled-perm final_degrees free (sorted text_le free) (Perm.symm order) settled)
        (omega (arith, length-perm order, free_ids-waiting final_degrees, length-final_degrees))

  by_id-eq : groups_by_id gs ≡ map (λ (g : VmGroup). (group_id g, g)) gs
  unfolding groups_by_id
  by_id-eq = dict_from-Distinct group_id (λ (g : VmGroup). g) gs unique

  pub keys-by_id : keys (groups_by_id gs) ≡ group_ids gs
  keys-by_id = rw by_id-eq (go gs)
    where
      go : (hs : List VmGroup) → keys (map (λ (g : VmGroup). (group_id g, g)) hs) ≡ group_ids hs
      go [] = refl
      go (h ∷ hs) = rw (go hs)

  -- Every group is found by its id.
  pub groups_by_id-get : All (λ (g : VmGroup). get (group_id g) (groups_by_id gs) ≡ some g) gs
  groups_by_id-get = go gs (
      subst (λ d. All (λ (entry : Text × VmGroup). get entry.0 (groups_by_id gs) ≡ some entry.1) d)
        by_id-eq
        (IsKeyed-entries (groups_by_id gs)
          (IsKeyed-of_Distinct (groups_by_id gs) (rw keys-by_id unique))))
    where
      go :
          (hs : List VmGroup)
          → All
              (λ (entry : Text × VmGroup). get entry.0 (groups_by_id gs) ≡ some entry.1)
              (map (λ (g : VmGroup). (group_id g, g)) hs)
          → All (λ (g : VmGroup). get (group_id g) (groups_by_id gs) ≡ some g) hs
      go [] h = tt
      go (g ∷ hs) h = (h.0, go hs h.1)

  groups_at-ids : groups_at (groups_by_id gs) (group_ids gs) ≡ gs
  unfolding groups_at
  groups_at-ids = go gs groups_by_id-get
    where
      go :
          (hs : List VmGroup)
          → All (λ (g : VmGroup). get (group_id g) (groups_by_id gs) ≡ some g) hs
          → groups_at (groups_by_id gs) (group_ids hs) ≡ hs
      go [] h = refl
      go (g ∷ hs) h = rw (group_at-some (groups_by_id gs) (group_id g) g h.0, go hs h.1)

groups_at-collect :
    (by_id : Dict Text VmGroup) (ids : List Text)
    → groups_at by_id ids ≡ collect (group_at by_id) ids
unfolding groups_at
groups_at-collect by_id [] = refl
groups_at-collect by_id (id ∷ ids) = rw (groups_at-collect by_id ids)

groups_at-append :
    (by_id : Dict Text VmGroup) (xs ys : List Text)
    → groups_at by_id (xs ++ ys) ≡ groups_at by_id xs ++ groups_at by_id ys
unfolding groups_at
groups_at-append by_id [] ys = refl
groups_at-append by_id (x ∷ xs) ys =
    rw (groups_at-append by_id xs ys) (sym (append_assoc (group_at by_id x) _ _))

-- An id that is no key finds nothing.
groups_at-known :
    (by_id : Dict Text VmGroup) (ids : List Text)
    → groups_at by_id (filter_by (contains (keys by_id)) ids) ≡ groups_at by_id ids
unfolding groups_at
groups_at-known by_id [] = refl
groups_at-known by_id (id ∷ ids) = elim (Bool-cases (contains (keys by_id) id)) [
  | inl known ↦ rw (known, groups_at-known by_id ids)
  | inr unknown ↦
      rw (
        unknown,
        group_at-none by_id id (get_of_absent by_id id unknown),
        groups_at-known by_id ids,
      )
]

-- The ids that were placed and the remainder are all the ids.
placed-perm :
    (by_id : Dict Text VmGroup) (placed : List Text)
    → Distinct placed
    → Distinct (keys by_id)
    → Perm (filter_by (contains (keys by_id)) placed ++ remainder by_id placed) (keys by_id)
unfolding remainder
placed-perm by_id placed dp dk =
    let ids = sorted text_le (keys by_id) in
    let same : (a : Text) → contains ids a ≡ contains (keys by_id) a =
      λ a. contains-perm ids (keys by_id) a (sorted-perm text_le (keys by_id)) in
    let known = filter_by (contains (keys by_id)) placed in
    let left = filter_by (λ id. not (contains_text placed id)) ids in
    let distinct : Distinct (known ++ left) =
      Distinct-append known left (Distinct-filter_by _ placed dp)
        (Distinct-filter_by _ ids
          (Distinct-perm (keys by_id) ids (Perm.symm (sorted-perm text_le (keys by_id))) dk))
        (λ a there. ground (
          arith,
          there,
          contains-filter_by (contains (keys by_id)) placed a,
          contains-filter_by (λ id. not (contains_text placed id)) ids a,
        )) in
    perm_of_contains (known ++ left) (keys by_id) distinct dk (λ a. ground (
      arith,
      same a,
      contains-append known left a,
      contains-filter_by (contains (keys by_id)) placed a,
      contains-filter_by (λ id. not (contains_text placed id)) ids a,
    ))

-- If the ids of the groups differ, the groups that come out are a rearrangement of the groups that
-- went in.
pub topological_sort-perm :
    (gs : List VmGroup) → Distinct (group_ids gs) → Perm (topological_sort gs) gs
unfolding topological_sort topological_order
topological_sort-perm gs unique =
    let by_id = groups_by_id gs in
    let placed = (kahn_order gs).0 in
    let known = filter_by (contains (keys by_id)) placed in
    let together : groups_at by_id placed ++ groups_at by_id (remainder by_id placed)
        ≡ collect (group_at by_id) (known ++ remainder by_id placed) =
      ap (λ l. l ++ groups_at by_id (remainder by_id placed)) (sym (groups_at-known by_id placed))
      ∙ sym (groups_at-append by_id known (remainder by_id placed))
      ∙ groups_at-collect by_id (known ++ remainder by_id placed) in
    let keyed : Distinct (keys by_id) = rw (keys-by_id gs unique) unique in
    let back : collect (group_at by_id) (keys by_id) ≡ gs =
      sym (groups_at-collect by_id (keys by_id))
      ∙ ap (groups_at by_id) (keys-by_id gs unique)
      ∙ groups_at-ids gs unique in
    Perm.trans (sorted-perm priority_le _) (
      rw together (
        rw back at (
          collect-perm (group_at by_id)
            (placed-perm by_id placed (kahn_order-IsFinished gs unique).0 keyed))))
