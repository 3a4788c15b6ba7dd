-- ===== src/Editing/Kept.antt =====
-- The request of an edit (backend/app/core/plan_edit.py): its check of the members, and its moves.
use virtvalidation.Base.{
  ℕ, ◌+◌, ◌≡◌, refl, sym, ◌∙◌, inl, inr, Bool, true, false, not, ◌&&◌, Option, some, List, [], ◌∷◌,
  arith, if◌then◌else◌, nat_eq_iff, Bool-cases, Option-cases, ◌==◌, nat_Eq, option_Eq, list_Eq, All,
  filter_by, count_by,
}
use virtvalidation.Base.Dicts.{
  IsKeyed, put-IsKeyed, IsKeyed-entries, Dict, get, has_key, get_default, put, get-put,
}
use virtvalidation.Base.Distinct.{contains, Distinct}
use virtvalidation.Preclassifier.Source.{SourceVm, non_empty}
use virtvalidation.Editing.{Operation, is_add, EditSpec, Edit, ensure, WaveDoc, Plan, Membership}
use virtvalidation.Editing.Waves.{
  wave_membership, wave_membership_from, waves_of_ids, wave_of_from, wave_of, ids_of_wave, Moving,
  stays, moves_of,
}
use virtvalidation.Editing.Moved.{times, times_in_all, IsReady, is_some}
use virtvalidation.Editing.Conserved.{moved, move_vms-times, move_vms-at}
use virtvalidation.Editing.Waves.{Move}
use virtvalidation.Editing.Request.{memberships, check_members, edited}

get-waves_of_ids :
    (out : Dict ℕ ℕ) (n vid : ℕ) (ids : List ℕ)
    → get vid (waves_of_ids out n ids) ≡ (if contains ids vid then some n else get vid out)
unfolding waves_of_ids
get-waves_of_ids out n vid [] = refl
get-waves_of_ids out n vid (i ∷ ids) =
    ground (arith, get-waves_of_ids (put i n out) n vid ids, get-put i vid n out)

-- What the entries so far say of a VM is true of the membership.
abbrev IsTrue : Membership → Dict ℕ ℕ → ℕ → Type 0
IsTrue all out vid = (n : ℕ) → get vid out ≡ some n → contains (get_default n [] all) vid ≡ true

wave_of_from-IsTrue :
    (all : Membership) (out : Dict ℕ ℕ) (waves : Membership) (vid : ℕ)
    → All (λ (entry : ℕ × List ℕ). get entry.0 all ≡ some entry.1) waves
    → IsTrue all out vid
    → IsTrue all (wave_of_from out waves) vid
unfolding wave_of_from
wave_of_from-IsTrue all out [] vid h true_of = true_of
wave_of_from-IsTrue all out ((k, ids) ∷ waves) vid h true_of =
    wave_of_from-IsTrue all (waves_of_ids out k ids) waves vid h.1 (λ n e.
      elim (Bool-cases (contains ids vid)) [
        | inl here ↦
            let there : some k ≡ some n = sym (get-waves_of_ids out k vid ids ∙ rw here refl) ∙ e in
            ground (arith, there, h.0, here)
        | inr apart ↦ true_of n (sym (get-waves_of_ids out k vid ids ∙ rw apart refl) ∙ e)
      ])

pub wave_of-IsTrue :
    (waves : Membership) (vid : ℕ) → IsKeyed waves → IsTrue waves (wave_of waves) vid
unfolding wave_of
wave_of-IsTrue waves vid keyed =
    wave_of_from-IsTrue waves [] waves vid (IsKeyed-entries waves keyed) (λ n e. absurd (cc))

wave_membership_from-IsKeyed :
    (out : Membership) (ws : List WaveDoc) → IsKeyed out → IsKeyed (wave_membership_from out ws)
unfolding wave_membership_from
wave_membership_from-IsKeyed out [] h = h
wave_membership_from-IsKeyed out (w ∷ ws) h = elim (Option-cases w.wave_number) [
  | inl e ↦ rw e (wave_membership_from-IsKeyed out ws h)
  | inr found ↦ rw (found.1) (
      wave_membership_from-IsKeyed (put found.0 w.vm_ids out) ws
        (put-IsKeyed found.0 w.vm_ids out h))
]

pub wave_membership-IsKeyed : (plan : Plan) → IsKeyed (wave_membership plan)
unfolding wave_membership
wave_membership-IsKeyed plan = wave_membership_from-IsKeyed [] plan.waves tt

pub memberships-own :
    (plan target : Plan) → get_default plan.id [] (memberships plan target) ≡ wave_membership plan
unfolding memberships
memberships-own plan target = ground (arith, nat_eq_iff plan.id plan.id)

pub all-IsReady :
    (spec : EditSpec) (plan target : Plan) (ids some_ids : List ℕ) (dest : Option ℕ)
    → All
        (IsReady
          (edited spec plan target ids dest).moving
          (edited spec plan target ids dest).before)
        some_ids
unfolding edited
all-IsReady spec plan target ids [] dest = tt
all-IsReady spec plan target ids (vid ∷ some_ids) dest = (
  rw (memberships-own plan target)
      (wave_of-IsTrue (wave_membership plan) vid (wave_membership-IsKeyed plan)),
  all-IsReady spec plan target ids some_ids dest,
)

-- Every VM of the request stands in a wave of the plan.
abbrev pub AllStand : Dict ℕ ℕ → List ℕ → Type 0
AllStand waves ids = All (λ vid. has_key vid waves ≡ true) ids

none_absent :
    (waves : Dict ℕ ℕ) (ids : List ℕ)
    → non_empty (filter_by (λ vid. not (has_key vid waves)) ids) ≡ false
    → AllStand waves ids
none_absent waves [] h = tt
none_absent waves (vid ∷ ids) h = elim (Bool-cases (has_key vid waves)) [
  | inl here ↦ (here, none_absent waves ids (ground (arith, here, h)))
  | inr away ↦ absurd (ground (arith, away, h))
]

pub check_members-AllStand :
    (op : Operation) (plan_id : ℕ) (waves : Dict ℕ ℕ) (vms : List SourceVm) (ids : List ℕ)
    (b : Bool)
    → is_add op ≡ false
    → check_members op plan_id waves vms ids ≡ Edit.going b
    → AllStand waves ids
unfolding check_members ensure
check_members-AllStand op plan_id waves vms ids b plain h =
    none_absent waves ids
      (elim (Bool-cases (non_empty (filter_by (λ vid. not (has_key vid waves)) ids))) [
        | inr nothing ↦ nothing
        | inl something ↦ absurd (ground (arith, plain, something, h))
      ])

same_counts :
    (m : Moving) (a n : ℕ) (ids : List ℕ)
    → m.dest ≡ some n
    → AllStand m.waves ids
    → count_by (λ vid. vid == a && is_some (get vid m.waves)) (moved m ids)
      ≡ count_by (λ vid. vid == a && is_some m.dest) (moved m ids)
same_counts m a n [] e h = refl
same_counts m a n (vid ∷ ids) e h = elim (Option-cases (get vid m.waves)) [
  | inl away ↦ absurd (ground (arith, away, h.0))
  | inr here ↦ elim (Bool-cases (stays m vid)) [
    | inl stay ↦ rw stay (same_counts m a n ids e h.1)
    | inr go ↦ rw (go, here.1, e) (ground (arith, same_counts m a n ids e h.1, e))
  ]
]

-- If the VMs of a move between waves or plans have different ids and pass the check of the
-- members, and the move has a destination: every VM stands in the waves of the two plans together
-- as often as before.
pub edited-times :
    (spec : EditSpec) (plan target : Plan) (vms : List SourceVm) (ids : List ℕ) (n : ℕ) (b : Bool)
    → Distinct ids
    → is_add spec.operation ≡ false
    → check_members spec.operation plan.id (wave_of (wave_membership plan)) vms ids ≡ Edit.going b
    → (a : ℕ)
    → times_in_all a (edited spec plan target ids (some n)).arranged
      ≡ times_in_all a (edited spec plan target ids (some n)).before
unfolding edited
edited-times spec plan target vms ids n b d plain checked a =
    let e = edited spec plan target ids (some n) in
    let stand = check_members-AllStand spec.operation plan.id _ vms ids b plain checked in
    let all : AllStand e.moving.waves ids = rw (memberships-own plan target) stand in
    omega (
      arith,
      move_vms-times e.moving a ids e.before d (all-IsReady spec plan target ids ids (some n)),
      same_counts e.moving a n ids refl all,
    )

moves-count :
    (m : Moving) (p : Move → Bool) (ids : List ℕ)
    → count_by p (moves_of m ids)
      ≡ count_by
          (λ vid. p (record { vm_id = vid; from_wave = get vid m.waves; to_wave = m.dest }))
          (moved m ids)
unfolding moves_of
moves-count m p [] = refl
moves-count m p (vid ∷ ids) = elim (Bool-cases (stays m vid)) [
  | inl stay ↦ rw stay (moves-count m p ids)
  | inr go ↦ rw (go, moves-count m p ids)
]

-- If the VMs of a request have different ids: the moves that the edit reports are what it does to
-- each wave of each plan. How often a VM stands in a wave behind the edit, and how often it is
-- reported to leave it, is together how often it stood there and how often it is reported to join.
pub edited-moves :
    (spec : EditSpec) (plan target : Plan) (ids : List ℕ) (dest : Option ℕ)
    → Distinct ids
    → (a q k : ℕ)
    → times a (ids_of_wave q k (edited spec plan target ids dest).arranged)
        + count_by
            (λ (m : Move). m.vm_id == a && (plan.id == q && m.from_wave == some k))
            (edited spec plan target ids dest).moves
      ≡ times a (ids_of_wave q k (edited spec plan target ids dest).before)
        + count_by
            (λ (m : Move). m.vm_id == a && (target.id == q && m.to_wave == some k))
            (edited spec plan target ids dest).moves
unfolding edited
edited-moves spec plan target ids dest d a q k =
    let e = edited spec plan target ids dest in
    omega (
      arith,
      move_vms-at a q k e.moving ids e.before d (all-IsReady spec plan target ids ids dest),
      moves-count e.moving (λ (m : Move). m.vm_id == a && (plan.id == q && m.from_wave == some k))
          ids,
      moves-count e.moving (λ (m : Move). m.vm_id == a && (target.id == q && m.to_wave == some k))
          ids,
    )
