-- ===== src/Skeleton/Packing/Late.antt =====
-- A group comes after the groups that it depends on, as far as these are placed already.
use virtvalidation.Base.{
  ℕ, ◌+◌, ◌≤◌, ◌<◌, max, ◌≡◌, refl, subst, inl, inr, Option, none, some, List, [], ◌∷◌, arith,
  Option-cases, nat_Eq, option_Eq, list_Eq, ==-refl, All,
}
use virtvalidation.Base.Dicts.{Dict, get, get-put}
use virtvalidation.Base.Texts.{Text}
use virtvalidation.Group.{VmGroup, group_id}
use virtvalidation.Skeleton.Packing.{
  Limits, Packing, min_wave_from, min_wave_from_deps, find_target_wave, put_group, place_group,
}
use virtvalidation.Skeleton.Packing.Search.{find_target_wave-fits}

module _ (placed : Dict Text ℕ) where
  min_wave_from-le : (m : ℕ) (deps : List Text) → m ≤ min_wave_from placed m deps
  unfolding min_wave_from
  min_wave_from-le m [] = omega arith
  min_wave_from-le m (dep ∷ deps) = elim (Option-cases (get dep placed)) [
    | inl missing ↦ rw missing (min_wave_from-le m deps)
    | inr (w, found) ↦ rw found (omega (arith, min_wave_from-le (max m (w + 1)) deps))
  ]

  -- The target comes after every hint that is placed.
  abbrev pub ComesAfter : ℕ → Text → Type 0
  ComesAfter target dep = (w : ℕ) → get dep placed ≡ some w → w < target

  min_wave_from-late :
      (m target : ℕ) (deps : List Text)
      → min_wave_from placed m deps ≤ target
      → All (ComesAfter target) deps
  unfolding min_wave_from
  min_wave_from-late m target [] h = tt
  min_wave_from-late m target (dep ∷ deps) h = elim (Option-cases (get dep placed)) [
    | inl missing ↦ (λ w e. cc, min_wave_from-late m target deps (rw missing at h))
    | inr (v, found) ↦
        let h' : min_wave_from placed (max m (v + 1)) deps ≤ target = rw found at h in
        (
          λ w e.
              (let same : v ≡ w = cc in
                omega (arith, same, h', min_wave_from-le (max m (v + 1)) deps)),
          min_wave_from-late (max m (v + 1)) target deps h',
        )
  ]

put_group-target :
    (limits : Limits) (families : Dict Text Text) (g : VmGroup) (p : Packing) (t : ℕ)
    → get (group_id g) (put_group limits g (get (group_id g) families) t p).wave_for_group ≡ some t
unfolding put_group
put_group-target limits families g p t = rw (get-put, ==-refl (group_id g)) refl

-- When a group is placed, its wave is recorded, and every dependency hint that names a group placed
-- before has a wave of a smaller number.
pub place_group-late :
    (limits : Limits) (families : Dict Text Text) (g : VmGroup) (p p' : Packing)
    → place_group limits families g p ≡ some p'
    → (target : ℕ) × (get (group_id g) p'.wave_for_group ≡ some target)
      × All (ComesAfter p.wave_for_group target) g.dependency_hints
unfolding place_group min_wave_from_deps
place_group-late limits families g p p' e =
    let family = get (group_id g) families in
    let min_wave = min_wave_from_deps g p.wave_for_group in
    go (find_target_wave limits p g min_wave family)
      (λ t found. (find_target_wave-fits limits p g family min_wave t found).1) e
  where
    go :
        (o : Option ℕ)
        → ((t : ℕ) → o ≡ some t → min_wave_from_deps g p.wave_for_group ≤ t)
        → (elim o [
          | none ↦ none
          | some target ↦ some (put_group limits g (get (group_id g) families) target p)
        ])
          ≡ some p'
        → (target : ℕ) × (get (group_id g) p'.wave_for_group ≡ some target)
          × All (ComesAfter p.wave_for_group target) g.dependency_hints
    go none late e = absurd cc
    go (some t) late e =
        let next = put_group limits g (get (group_id g) families) t p in
        let same : next ≡ p' = cc in
        (
          t,
          subst (λ (q : Packing). get (group_id g) q.wave_for_group ≡ some t) same
              (put_group-target limits families g p t),
          min_wave_from-late p.wave_for_group 1 t g.dependency_hints (late t refl),
        )
