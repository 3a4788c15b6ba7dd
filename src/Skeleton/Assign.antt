-- ===== src/Skeleton/Assign.antt =====
-- `_finalize` and `assign_waves` as a whole: what holds of the waves that come out.
pub mod Result
use virtvalidation.Base.{
  ℕ, ◌+◌, ◌-◌, ◌≤◌, ◌≡◌, refl, ◌∙◌, subst, true, List, [], ◌∷◌, map, arith, Eq, ◌==◌, nat_Eq,
  option_Eq, list_Eq, ==-refl, option_eq_iff, list_eq_iff, All, All-imp, All-map, All-perm,
  All-prop,
}
use virtvalidation.Base.Dicts.{IsKeyed, IsKeyed-entries, Dict}
use virtvalidation.Base.Texts.{Text}
use virtvalidation.Base.Sorting.{sorted, sorted-All, sorted-perm}
use virtvalidation.Group.{GroupKey, VmGroup, ids_of, ids_of-append}
use virtvalidation.Base.Rearranged.{collect, collect-perm}
use virtvalidation.Skeleton.Wave.{Wave, sum_vm_counts, build_wave, priority_le}
use virtvalidation.Skeleton.Packing.{Limits, Packing, same_partition, renumber, wave_le, finalize}
use virtvalidation.Skeleton.Packing.Invariant.{
  IsCoherent, wave_at, wave_at-old, peer_count, has_primary,
}
use virtvalidation.Skeleton.Packing.Result.{groups_in}
use mathlib.Core.List.{Perm, Permᴰ}
use mathlib.Core.Logic.{∥∥₁_elim}
use mathlib.Core.List.Perm
use native.Mathlib.Nat.{ℕ_set}

-- Any two groups agree on vCenter, cluster and namespace.
unfoldable pub IsOnePartition : List VmGroup → Type 0
IsOnePartition gs =
    All (λ (g : VmGroup). All (λ (h : VmGroup). same_partition g.key h.key ≡ true) gs) gs

same_partition-join :
    (a b c : GroupKey)
    → same_partition a b ≡ true
    → same_partition a c ≡ true
    → same_partition b c ≡ true
unfolding same_partition
same_partition-join a b c h k = ground (
  arith,
  option_eq_iff a.vcenter_id b.vcenter_id,
  option_eq_iff a.vcenter_id c.vcenter_id,
  option_eq_iff b.vcenter_id c.vcenter_id,
  option_eq_iff a.target_cluster_id b.target_cluster_id,
  option_eq_iff a.target_cluster_id c.target_cluster_id,
  option_eq_iff b.target_cluster_id c.target_cluster_id,
  list_eq_iff a.target_namespace b.target_namespace,
  list_eq_iff a.target_namespace c.target_namespace,
  list_eq_iff b.target_namespace c.target_namespace,
)

same_partition_refl : (a : GroupKey) → same_partition a a ≡ true
unfolding same_partition
same_partition_refl a =
    rw (==-refl a.vcenter_id, ==-refl a.target_cluster_id, ==-refl a.target_namespace) refl

-- Agreement with the first group is agreement of any two.
pub IsOnePartition-of_IsCoherent : (gs : List VmGroup) → IsCoherent gs → IsOnePartition gs
unfolding IsOnePartition
IsOnePartition-of_IsCoherent [] h = tt
IsOnePartition-of_IsCoherent (s ∷ gs) h =
    let all : All (λ (g : VmGroup). same_partition s.key g.key ≡ true) (s ∷ gs) =
      (same_partition_refl s.key, h) in
    All-imp (s ∷ gs)
      (λ g sg. All-imp (s ∷ gs) (λ k sk. same_partition-join s.key g.key k.key sg sk) all) all

pub IsOnePartition-perm :
    (gs hs : List VmGroup) → Perm gs hs → IsOnePartition gs → IsOnePartition hs
unfolding IsOnePartition
IsOnePartition-perm gs hs p h =
    All-perm (λ (g : VmGroup). All (λ (k : VmGroup). same_partition g.key k.key ≡ true) hs)
      (λ g. All-prop (λ (k : VmGroup). same_partition g.key k.key ≡ true) (λ k. hlevel) hs) p
      (All-imp gs
        (λ g all. All-perm (λ (k : VmGroup). same_partition g.key k.key ≡ true) (λ k. hlevel) p all)
        h)

sum_vm_counts-permᴰ : {gs hs : List VmGroup} → Permᴰ gs hs → sum_vm_counts gs ≡ sum_vm_counts hs
unfolding sum_vm_counts
sum_vm_counts-permᴰ Permᴰ.nil = refl
sum_vm_counts-permᴰ (Permᴰ.cons e h) = rw e (omega (arith, sum_vm_counts-permᴰ h))
sum_vm_counts-permᴰ (Permᴰ.swap e f) = rw (e, f) (omega arith)
sum_vm_counts-permᴰ (Permᴰ.trans h k) = sum_vm_counts-permᴰ h ∙ sum_vm_counts-permᴰ k

pub sum_vm_counts-perm : {gs hs : List VmGroup} → Perm gs hs → sum_vm_counts gs ≡ sum_vm_counts hs
sum_vm_counts-perm p = ∥∥₁_elim p (ℕ_set _ _) sum_vm_counts-permᴰ

module _ (families : Dict Text Text) (f : Text) where
  peer_count-permᴰ :
      {gs hs : List VmGroup} → Permᴰ gs hs → peer_count families f gs ≡ peer_count families f hs
  unfolding peer_count
  peer_count-permᴰ Permᴰ.nil = refl
  peer_count-permᴰ (Permᴰ.cons e h) = rw e (omega (arith, peer_count-permᴰ h))
  peer_count-permᴰ (Permᴰ.swap e d) = rw (e, d) (omega arith)
  peer_count-permᴰ (Permᴰ.trans h k) = peer_count-permᴰ h ∙ peer_count-permᴰ k

  peer_count-perm :
      {gs hs : List VmGroup} → Perm gs hs → peer_count families f gs ≡ peer_count families f hs
  peer_count-perm p = ∥∥₁_elim p (ℕ_set _ _) peer_count-permᴰ

  has_primary-permᴰ :
      {gs hs : List VmGroup} → Permᴰ gs hs → has_primary families f gs ≡ has_primary families f hs
  unfolding has_primary
  has_primary-permᴰ Permᴰ.nil = refl
  has_primary-permᴰ (Permᴰ.cons e h) = rw (e, has_primary-permᴰ h)
  has_primary-permᴰ (Permᴰ.swap e d) = rw (e, d) (ground arith)
  has_primary-permᴰ (Permᴰ.trans h k) = has_primary-permᴰ h ∙ has_primary-permᴰ k

  has_primary-perm :
      {gs hs : List VmGroup} → Perm gs hs → has_primary families f gs ≡ has_primary families f hs
  has_primary-perm p = ∥∥₁_elim p (hlevel) has_primary-permᴰ

-- What holds of every wave, for the cap on HA peers `peers`.
module _ (limits : Limits) (families : Dict Text Text) where
  unfoldable pub IsSpreadWave : List VmGroup → Type 0
  IsSpreadWave gs =
      (f : Text)
      → (peer_count families f gs ≤ limits.max_ha_peers)
        × (has_primary families f gs ≡ true → peer_count families f gs ≡ 1)

  pub IsSpreadWave-perm : (gs hs : List VmGroup) → Perm gs hs → IsSpreadWave gs → IsSpreadWave hs
  unfolding IsSpreadWave
  IsSpreadWave-perm gs hs p s f =
      rw (← peer_count-perm families f p, ← has_primary-perm families f p) (s f)

-- The waves that come out hold the groups of the waves that go in.
abbrev pub groups_of : List Wave → List VmGroup
groups_of ws = collect (λ (w : Wave). w.groups) ws

-- `enumerate(..., start=number)`
unfoldable pub numbers_from : ℕ → List Wave → List ℕ
numbers_from number [] = []
numbers_from number (w ∷ ws) = number ∷ numbers_from (number + 1) ws

renumber-numbers :
    (number : ℕ) (ws : List Wave)
    → map (λ (w : Wave). w.wave_number) (renumber number ws)
      ≡ numbers_from number (renumber number ws)
unfolding renumber build_wave numbers_from
renumber-numbers number [] = refl
renumber-numbers number (w ∷ ws) = rw (renumber-numbers (number + 1) ws)

renumber-All :
    (P : List VmGroup → Type 0)
    → ((gs hs : List VmGroup) → Perm gs hs → P gs → P hs)
    → (number : ℕ) (ws : List Wave) → All (λ (w : Wave). P w.groups) ws
    → All (λ (w : Wave). P w.groups) (renumber number ws)
unfolding renumber build_wave
renumber-All P invariant number [] h = tt
renumber-All P invariant number (w ∷ ws) h = (
  invariant w.groups (sorted priority_le w.groups) (Perm.symm (sorted-perm priority_le w.groups))
      h.0,
  renumber-All P invariant (number + 1) ws h.1,
)

renumber-perm : (number : ℕ) (ws : List Wave) → Perm (groups_of (renumber number ws)) (groups_of ws)
unfolding renumber build_wave
renumber-perm number [] = Perm.refl _
renumber-perm number (w ∷ ws) =
    Perm.append (sorted-perm priority_le w.groups) (renumber-perm (number + 1) ws)

values-groups :
    (waves : Dict ℕ Wave) → groups_of (map (λ (e : ℕ × Wave). e.1) waves) ≡ groups_in waves
values-groups [] = refl
values-groups ((n, w) ∷ waves) = rw (values-groups waves)

pub finalize-perm : (waves : Dict ℕ Wave) → Perm (groups_of (finalize waves)) (groups_in waves)
unfolding finalize
finalize-perm waves =
    let values = map (λ (e : ℕ × Wave). e.1) waves in
    Perm.trans (renumber-perm 1 (sorted wave_le values)) (
      rw (values-groups waves) at
        (collect-perm (λ (w : Wave). w.groups) (sorted-perm wave_le values)))

pub finalize-All :
    (P : List VmGroup → Type 0)
    → ((gs hs : List VmGroup) → Perm gs hs → P gs → P hs)
    → (waves : Dict ℕ Wave) → All (λ (e : ℕ × Wave). P e.1.groups) waves
    → All (λ (w : Wave). P w.groups) (finalize waves)
unfolding finalize
finalize-All P invariant waves h = renumber-All P invariant 1 _ (
    sorted-All wave_le (λ (w : Wave). P w.groups) _
      (All-map (λ (w : Wave). P w.groups) (λ (e : ℕ × Wave). e.1) waves h))

pub finalize-numbers :
    (waves : Dict ℕ Wave)
    → map (λ (w : Wave). w.wave_number) (finalize waves) ≡ numbers_from 1 (finalize waves)
unfolding finalize
finalize-numbers waves = renumber-numbers 1 _

-- What holds at every number holds of every wave that is stored.
pub entries-All :
    (P : List VmGroup → Type 0) (p : Packing)
    → IsKeyed p.waves
    → ((n : ℕ) → P (wave_at p n).groups)
    → All (λ (e : ℕ × Wave). P e.1.groups) p.waves
entries-All P p keyed h =
    All-imp p.waves
      (λ e found. subst (λ (w : Wave). P w.groups) (wave_at-old p e.0 e.1 found) (h e.0))
      (IsKeyed-entries p.waves keyed)

pub ids_of-groups :
    (ws : List Wave) → ids_of (groups_of ws) ≡ collect (λ (w : Wave). ids_of w.groups) ws
unfolding ids_of
ids_of-groups [] = refl
ids_of-groups (w ∷ ws) = rw (ids_of-append w.groups (groups_of ws), ids_of-groups ws)

ids_of-collect : (gs : List VmGroup) → ids_of gs ≡ collect (λ (g : VmGroup). g.vm_ids) gs
unfolding ids_of
ids_of-collect [] = refl
ids_of-collect (g ∷ gs) = rw (ids_of-collect gs)

pub ids_of-perm : (gs hs : List VmGroup) → Perm gs hs → Perm (ids_of gs) (ids_of hs)
ids_of-perm gs hs p =
    rw (ids_of-collect gs, ids_of-collect hs) (collect-perm (λ (g : VmGroup). g.vm_ids) p)
