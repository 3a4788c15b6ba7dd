-- ===== src/Editing/Waves.antt =====
-- The membership helpers of backend/app/core/plan_edit.py: which wave holds which VM, the number of
-- a new wave, and the loop of `prepare` that moves the VMs.
use virtvalidation.Base.{
  ℕ, ◌+◌, max, Bool, not, ◌&&◌, Option, none, some, List, [], ◌∷◌, ◌++◌, map, leb, if◌then◌else◌,
  ◌==◌, nat_Eq, option_Eq, list_Eq, filter_by,
}
use virtvalidation.Base.Dicts.{Dict, get, get_default, put}
use virtvalidation.Base.Texts.{Text, codes, decimal}
use virtvalidation.Base.Sorting.{sorted}
use virtvalidation.Editing.{Operation, is_move_to_wave, WaveDoc, Plan, Membership, Memberships}
use virtvalidation.Base.Keys.{keys}
use virtvalidation.Base.Distinct.{contains}
use virtvalidation.Family.Split.{Names}
use virtvalidation.Constraints.{WaveMembers}
use virtvalidation.Preclassifier.Source.{non_empty}

unfoldable pub wave_membership_from : Membership → List WaveDoc → Membership
wave_membership_from out [] = out
wave_membership_from out (w ∷ ws) = elim w.wave_number [
  | none ↦ wave_membership_from out ws
  | some n ↦ wave_membership_from (put n w.vm_ids out) ws
]

unfoldable pub wave_membership : Plan → Membership
unfolding wave_membership_from
wave_membership plan = wave_membership_from [] plan.waves

-- `max(l, default=0)`
abbrev pub max_of : List ℕ → ℕ
max_of [] = 0
max_of (n ∷ ns) = max n (max_of ns)

unfoldable pub next_wave_number : Plan → Membership → ℕ
next_wave_number plan members = max_of (plan.wave_number_seq ∷ keys members) + 1

-- The loop over one document's ids and names; an empty name is passed over.
unfoldable pub store_names : Names → List ℕ → List Text → Names
store_names out [] names = out
store_names out (vid ∷ ids) [] = out
store_names out (vid ∷ ids) (name ∷ names) =
    store_names (if non_empty name then put vid name out else out) ids names

unfoldable pub stored_names_from : Names → List WaveDoc → Names
unfolding store_names
stored_names_from out [] = out
stored_names_from out (w ∷ ws) = stored_names_from (store_names out w.vm_ids w.vm_names) ws

unfoldable pub stored_names : Plan → Names
unfolding stored_names_from
stored_names plan = stored_names_from [] plan.waves

-- `names.get(vid, f"vm-{vid}")`
unfoldable pub name_of : Names → ℕ → Text
name_of names vid = get_default vid (codes "vm-" ++ decimal vid) names

unfoldable pub as_members : Membership → Names → WaveMembers
unfolding name_of
as_members waves names =
    map (λ (w : ℕ × List ℕ). (w.0, map (λ vid. (vid, name_of names vid)) w.1)) waves

-- `wave_of`: of two waves that hold a VM the later counts.
unfoldable pub waves_of_ids : Dict ℕ ℕ → ℕ → List ℕ → Dict ℕ ℕ
waves_of_ids out n [] = out
waves_of_ids out n (vid ∷ ids) = waves_of_ids (put vid n out) n ids

unfoldable pub wave_of_from : Dict ℕ ℕ → Membership → Dict ℕ ℕ
unfolding waves_of_ids
wave_of_from out [] = out
wave_of_from out ((n, ids) ∷ waves) = wave_of_from (waves_of_ids out n ids) waves

unfoldable pub wave_of : Membership → Dict ℕ ℕ
unfolding wave_of_from
wave_of waves = wave_of_from [] waves

-- `l.remove(x)`: the first `x` goes.
abbrev pub remove_first : ℕ → List ℕ → List ℕ
remove_first x [] = []
remove_first x (y ∷ ys) = let rest = remove_first x ys in if y == x then ys else y ∷ rest

-- `after[plan_id][number]`
abbrev pub ids_of_wave : ℕ → ℕ → Memberships → List ℕ
ids_of_wave plan_id number after = get_default number [] (get_default plan_id [] after)

-- `after[plan_id][number] = ids`
abbrev pub set_wave : ℕ → ℕ → List ℕ → Memberships → Memberships
set_wave plan_id number ids after =
    put plan_id (put number ids (get_default plan_id [] after)) after

-- `after[plan.id][from_wave].remove(vid)`, if the VM stands in a wave
unfoldable pub leave_wave : ℕ → Option ℕ → ℕ → Memberships → Memberships
leave_wave plan_id none vid after = after
leave_wave plan_id (some n) vid after =
    set_wave plan_id n (remove_first vid (ids_of_wave plan_id n after)) after

-- `after[target_plan.id].setdefault(dest, []).append(vid)`, if there is a destination
unfoldable pub join_wave : ℕ → Option ℕ → ℕ → Memberships → Memberships
join_wave plan_id none vid after = after
join_wave plan_id (some n) vid after =
    set_wave plan_id n (ids_of_wave plan_id n after ++ vid ∷ []) after

-- An entry of `moves`; the plan ids follow from the two waves, and the name from the VM.
pub record Move : Type 0 where
  pub vm_id : ℕ
  pub from_wave : Option ℕ
  pub to_wave : Option ℕ

-- What the loop reads: the request, the two plans, the destination and `wave_of`.
pub record Moving : Type 0 where
  pub operation : Operation
  pub plan_id : ℕ
  pub target_id : ℕ
  pub dest : Option ℕ
  pub waves : Dict ℕ ℕ

-- `continue`: the VM is in the destination already.
abbrev pub stays : Moving → ℕ → Bool
stays m vid = is_move_to_wave m.operation && get vid m.waves == m.dest

unfoldable pub move_vm : Moving → ℕ → Memberships → Memberships
unfolding leave_wave join_wave
move_vm m vid after =
    join_wave m.target_id m.dest vid (leave_wave m.plan_id (get vid m.waves) vid after)

unfoldable pub move_vms : Moving → List ℕ → Memberships → Memberships
unfolding move_vm
move_vms m [] after = after
move_vms m (vid ∷ ids) after =
    if stays m vid then move_vms m ids after else move_vms m ids (move_vm m vid after)

-- `moves`
unfoldable pub moves_of : Moving → List ℕ → List Move
moves_of m ids =
    map (λ vid. record { vm_id = vid; from_wave = get vid m.waves; to_wave = m.dest })
      (filter_by (λ vid. not (stays m vid)) ids)

-- `del after[pid][n]` for each wave that has become empty
unfoldable pub drop_empty : Membership → Membership
drop_empty waves = filter_by (λ (w : ℕ × List ℕ). non_empty w.1) waves

unfoldable pub removed_numbers : Membership → List ℕ
removed_numbers waves = keys (filter_by (λ (w : ℕ × List ℕ). not (non_empty w.1)) waves)

unfoldable pub created_numbers : Membership → Membership → List ℕ
created_numbers before after = filter_by (λ n. not (contains (keys before) n)) (keys after)

-- `touched`: the waves of before whose VMs differ
unfoldable pub changed_waves : Membership → Membership → List ℕ
changed_waves before after =
    filter_by
      (λ n. contains (keys before) n && not (get_default n [] after == get_default n [] before))
      (keys after)

-- The `layout` of one plan: the waves touched or created, those created, those removed.
pub record Layout : Type 0 where
  pub touched : List ℕ
  pub created : List ℕ
  pub removed : List ℕ

unfoldable pub layout_of : Membership → Membership → Layout
unfolding drop_empty removed_numbers created_numbers changed_waves sorted
layout_of before moved =
    let after = drop_empty moved in
    let created = created_numbers before after in
    record {
      touched = sorted leb (changed_waves before after ++ created);
      created = sorted leb created;
      removed = sorted leb (removed_numbers moved);
    }
