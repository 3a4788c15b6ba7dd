-- ===== src/Skeleton/Order.antt =====
-- `_topological_sort`: Kahn's algorithm over the dependency hints, then a sort by priority.
pub mod Kahn
pub mod Complete
pub mod Sorted
use virtvalidation.Base.Keys.{dict_from, keys}
use virtvalidation.Base.{
  ℕ, zero, suc, Bool, not, none, some, List, [], ◌∷◌, ◌++◌, if◌then◌else◌, ◌==◌, nat_Eq, option_Eq,
  list_Eq, length, filter_by, any_by,
}
use virtvalidation.Base.Dicts.{Dict, get, has_key, get_default, put, increment}
use virtvalidation.Base.Texts.{Text, text_le}
use virtvalidation.Base.Sorting.{sorted}
use virtvalidation.Group.{VmGroup, group_id}
use virtvalidation.Skeleton.Wave.{priority_le}

-- `{g.id: g for g in groups}` and `{g.id: 0 for g in groups}`
unfoldable pub groups_by_id : List VmGroup → Dict Text VmGroup
unfolding dict_from
groups_by_id gs = dict_from group_id (λ g. g) [] gs

unfoldable pub zero_degrees : List VmGroup → Dict Text ℕ
unfolding dict_from
zero_degrees gs = dict_from group_id (λ g. 0) [] gs

-- The loops that fill `indegree`.
unfoldable pub count_hints : Text → Dict Text ℕ → List Text → Dict Text ℕ
count_hints id degrees [] = degrees
count_hints id degrees (dep ∷ deps) =
    count_hints id (if has_key dep degrees then increment id degrees else degrees) deps

unfoldable pub indegrees : Dict Text ℕ → List VmGroup → Dict Text ℕ
unfolding count_hints
indegrees degrees [] = degrees
indegrees degrees (g ∷ gs) = indegrees (count_hints (group_id g) degrees g.dependency_hints) gs

-- `[gid for gid, deg in indegree.items() if deg == 0]`
unfoldable pub free_ids : Dict Text ℕ → List Text
free_ids [] = []
free_ids ((id, degree) ∷ rest) =
    let others = free_ids rest in if degree == 0 then id ∷ others else others

abbrev pub contains_text : List Text → Text → Bool
contains_text ids id = any_by (λ i. i == id) ids

-- `indegree` and `ready`
abbrev pub Degrees : Type 0
Degrees = Dict Text ℕ × List Text

-- The body of `if ... indegree[g.id] > 0`, by the degree: an id with no dependency left is ready.
unfoldable pub lower_degree : Text → ℕ → Degrees → Degrees
lower_degree id zero state = state
lower_degree id (suc n) (degrees, ready) =
    (put id n degrees, if n == 0 then ready ++ id ∷ [] else ready)

unfoldable pub release : Text → VmGroup → Degrees → Degrees
unfolding lower_degree
release gid g state =
    if contains_text g.dependency_hints gid
    then lower_degree (group_id g) (get_default (group_id g) 0 state.0) state
    else state

-- The inner loop for the popped id.
unfoldable pub relax : Text → Degrees → List VmGroup → Degrees
unfolding release
relax gid state [] = state
relax gid state (g ∷ gs) = relax gid (release gid g state) gs

-- The loop `while ready`, with the ids placed so far. Every round places one id.
unfoldable pub kahn : List VmGroup → ℕ → Dict Text ℕ → List Text → List Text → List Text × List Text
kahn groups zero degrees ready placed = (placed, ready)
kahn groups (suc fuel) degrees ready placed = elim (sorted text_le ready) [
  | [] ↦ (placed, [])
  | gid ∷ others ↦
      let (degrees', ready') = relax gid (degrees, others) groups in
      kahn groups fuel degrees' ready' (placed ++ gid ∷ [])
]

-- `by_id[gid]`, as the list of what is found
abbrev pub group_at : Dict Text VmGroup → Text → List VmGroup
group_at by_id gid = elim (get gid by_id) [ none ↦ [] | some g ↦ g ∷ [] ]

unfoldable pub groups_at : Dict Text VmGroup → List Text → List VmGroup
groups_at by_id [] = []
groups_at by_id (gid ∷ gids) = group_at by_id gid ++ groups_at by_id gids

-- `for gid in sorted(by_id): if gid not in placed`
unfoldable pub remainder : Dict Text VmGroup → List Text → List Text
unfolding sorted
remainder by_id placed =
    filter_by (λ gid. not (contains_text placed gid)) (sorted text_le (keys by_id))

-- `ordered` as ids, with the ids that are left in `ready`: none, see `Kahn`
unfoldable pub kahn_order : List VmGroup → List Text × List Text
kahn_order groups =
    let degrees = indegrees (zero_degrees groups) groups in
    kahn groups (length groups) degrees (sorted text_le (free_ids degrees)) []

unfoldable pub topological_order : List VmGroup → List VmGroup
unfolding kahn_order
topological_order groups =
    let by_id = groups_by_id groups in
    let placed = (kahn_order groups).0 in
    groups_at by_id placed ++ groups_at by_id (remainder by_id placed)

unfoldable pub topological_sort : List VmGroup → List VmGroup
unfolding topological_order
topological_sort groups = sorted priority_le (topological_order groups)
