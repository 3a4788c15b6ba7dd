-- ===== src/Skeleton/Order/Sorted.antt =====
-- `_topological_sort` of backend/app/core/wave_skeleton.py against the plain sort by its key.
use virtvalidation.Base.{
  arith, ℕ, ◌≡◌, refl, sym, ap, ◌∙◌, some, Option, List, [], ◌∷◌, map, Bool, true, nat_Eq,
  option_Eq, list_Eq, All, All-perm,
}
use virtvalidation.Base.Dicts.{Dict, get}
use virtvalidation.Base.Texts.{Text, text_le, text_le-IsOrder, text_le_antisymm}
use virtvalidation.Base.Sorting.{
  IsOrder, sorted, sorted-perm, by_nat, by_nat-IsOrder, by_nat_antisymm,
}
use virtvalidation.Base.Unique.{sorted_unique, map-sorted}
use virtvalidation.Group.{VmGroup, group_id}
use virtvalidation.Base.Distinct.{Distinct}
use virtvalidation.Skeleton.Wave.{role_priority, risk_priority, id_le, priority_le}
use virtvalidation.Skeleton.Order.{groups_by_id, groups_at, topological_order, topological_sort}
use virtvalidation.Skeleton.Order.Complete.{
  group_ids, group_at-some, groups_by_id-get, topological_sort-perm,
}
use mathlib.Core.List.{Perm}
use mathlib.Core.List.Perm

-- The sort key of a group.
record SortKey : Type 0 where
  role : ℕ
  risk : ℕ
  id : Text

abbrev sort_key : VmGroup → SortKey
sort_key g = record { role = role_priority g; risk = risk_priority g; id = group_id g }

abbrev by_id : SortKey → SortKey → Bool
by_id j k = text_le j.id k.id

abbrev by_risk : SortKey → SortKey → Bool
by_risk = by_nat (λ (k : SortKey). k.risk) by_id

abbrev sort_key_le : SortKey → SortKey → Bool
sort_key_le = by_nat (λ (k : SortKey). k.role) by_risk

sort_key_le-IsOrder : IsOrder sort_key_le
sort_key_le-IsOrder =
    by_nat-IsOrder (λ (k : SortKey). k.role) by_risk
      (by_nat-IsOrder (λ (k : SortKey). k.risk) by_id
        (record {
          total = λ j k. text_le-IsOrder.total j.id k.id;
          trans = λ j k l. text_le-IsOrder.trans j.id k.id l.id;
        }))

sort_key_le_antisymm : (j k : SortKey) → sort_key_le j k ≡ true → sort_key_le k j ≡ true → j ≡ k
sort_key_le_antisymm j k a b =
    let roles : j.role ≡ k.role = ground (arith, a, b) in
    let next = by_nat_antisymm (λ (k : SortKey). k.role) by_risk j k a b in
    let risks : j.risk ≡ k.risk = ground (arith, next.0, next.1) in
    let last = by_nat_antisymm (λ (k : SortKey). k.risk) by_id j k next.0 next.1 in
    let ids : j.id ≡ k.id = text_le_antisymm j.id k.id last.0 last.1 in
    λ i. record { role = roles i; risk = risks i; id = ids i }

SortKey-IsSet : IsSet SortKey
SortKey-IsSet = hlevel

sorted-keys :
    (gs : List VmGroup)
    → map sort_key (sorted priority_le gs) ≡ sorted sort_key_le (map sort_key gs)
unfolding priority_le id_le
sorted-keys gs = map-sorted sort_key sort_key_le gs

sorted-ids :
    (gs hs : List VmGroup)
    → Perm gs hs
    → group_ids (sorted priority_le gs) ≡ group_ids (sorted priority_le hs)
sorted-ids gs hs p =
    sym (ids (sorted priority_le gs))
    ∙ ap (map (λ (k : SortKey). k.id)) (
        sorted-keys gs
        ∙ sorted_unique sort_key_le sort_key_le-IsOrder sort_key_le_antisymm SortKey-IsSet _ _
            (Perm.map sort_key p)
        ∙ sym (sorted-keys hs))
    ∙ ids (sorted priority_le hs)
  where
    ids : (ks : List VmGroup) → map (λ (k : SortKey). k.id) (map sort_key ks) ≡ group_ids ks
    ids [] = refl
    ids (k ∷ ks) = rw (ids ks) refl

groups_at-found :
    (found : Dict Text VmGroup) (hs : List VmGroup)
    → All (λ (g : VmGroup). get (group_id g) found ≡ some g) hs
    → groups_at found (group_ids hs) ≡ hs
unfolding groups_at
groups_at-found found [] h = refl
groups_at-found found (g ∷ hs) h =
    rw (group_at-some found (group_id g) g h.0, groups_at-found found hs h.1)

group-IsSet : IsSet (Option VmGroup)
group-IsSet = hlevel

-- Groups whose ids differ are known from their ids.
from_ids :
    (gs hs : List VmGroup)
    → Distinct (group_ids gs)
    → Perm gs hs
    → groups_at (groups_by_id gs) (group_ids hs) ≡ hs
from_ids gs hs unique p = groups_at-found (groups_by_id gs) hs (
    All-perm (λ (g : VmGroup). get (group_id g) (groups_by_id gs) ≡ some g) (λ g. group-IsSet _ _) p
      (groups_by_id-get gs unique))

-- If the ids of the groups differ, the groups come out exactly as a plain sort by the role's
-- priority, the risk's priority and the id puts them: Kahn's algorithm, which reads the dependency
-- hints, neither loses a group nor has a say in the order.
pub topological_sort-sorted :
    (gs : List VmGroup) → Distinct (group_ids gs) → topological_sort gs ≡ sorted priority_le gs
unfolding topological_sort
topological_sort-sorted gs unique =
    let kept = topological_sort-perm gs unique in
    let order = topological_order gs in
    let found : Perm order gs = Perm.trans (Perm.symm (sorted-perm priority_le order)) kept in
    sym (from_ids gs (topological_sort gs) unique (Perm.symm kept))
    ∙ ap (groups_at (groups_by_id gs)) (sorted-ids order gs found)
    ∙ from_ids gs (sorted priority_le gs) unique (Perm.symm (sorted-perm priority_le gs))
