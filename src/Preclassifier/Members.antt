-- ===== src/Preclassifier/Members.antt =====
-- The HA members of a group, and what `split_ha_group` makes of a group.
use virtvalidation.Base.{
  ℕ, ◌+◌, ◌≤◌, ◌<◌, ◌≡◌, refl, ◌⊎◌, inl, inr, ◌||◌, Option, none, some, List, [], ◌∷◌, map, arith,
  ltb, leb, ltb→lt, Bool-cases, nat_Eq, option_Eq, list_Eq, length, All, All-imp, All-map, any_by,
}
use virtvalidation.Base.Texts.{Text}
use virtvalidation.Base.Sorting.{sorted, sorted-perm}
use virtvalidation.Group.{HaMember, VmGroup, is_ha_peer, ha_count, ids_of}
use virtvalidation.Skeleton.Packing.{Limits, effective_family_cap}
use virtvalidation.Skeleton.Assign.Result.{HasFewPeers}
use virtvalidation.Preclassifier.Source.{SourceVm, PrimaryKey, vm_ids_of}
use virtvalidation.Preclassifier.Ha.{
  pattern_members, suffixes_from, suffix_le, sequence_members, members_by_suffix, detect_ha_members,
  member_le, micro_group, split_ha_group,
}
use virtvalidation.Preclassifier.Build.{build_group}
use virtvalidation.Preclassifier.Formed.{group_primary}
use virtvalidation.Base.{All-always}
use mathlib.Core.List.{Perm, append-nil}
use mathlib.Core.List.Perm

abbrev pub member_ids : List HaMember → List ℕ
member_ids ms = map (λ (m : HaMember). m.vm_id) ms

pattern_members-ids : (vs : List SourceVm) → member_ids (pattern_members vs) ≡ vm_ids_of vs
unfolding pattern_members
pattern_members-ids [] = refl
pattern_members-ids (v ∷ vs) = rw (pattern_members-ids vs)

sequence_members-ids :
    (lowest i : ℕ) (vs : List SourceVm) → member_ids (sequence_members lowest i vs) ≡ vm_ids_of vs
unfolding sequence_members
sequence_members-ids lowest i [] = refl
sequence_members-ids lowest i (v ∷ vs) = rw (sequence_members-ids lowest (i + 1) vs)

members_by_suffix-ids :
    (vs : List SourceVm) (suffixes : List (ℕ × ℕ))
    → member_ids (members_by_suffix vs (pattern_members vs) suffixes) ≡ vm_ids_of vs
unfolding members_by_suffix
members_by_suffix-ids vs [] = pattern_members-ids vs
members_by_suffix-ids vs (s ∷ []) = pattern_members-ids vs
members_by_suffix-ids vs (s ∷ t ∷ rest) = sequence_members-ids s.1 0 vs

-- There is one HA member for every VM, in the order of the VMs.
pub detect_ha_members-ids : (vs : List SourceVm) → member_ids (detect_ha_members vs) ≡ vm_ids_of vs
unfolding detect_ha_members
detect_ha_members-ids vs =
    elim (Bool-cases (any_by is_ha_peer (pattern_members vs) || ltb (length vs) 2)) [
      | inl settled ↦ rw settled (pattern_members-ids vs)
      | inr unsettled ↦ rw unsettled (by_number (suffixes_from 0 vs))
    ]
  where
    by_number :
        (found : Option (List (ℕ × ℕ)))
        → member_ids (elim found [
          | none ↦ pattern_members vs
          | some suffixes ↦ members_by_suffix vs (pattern_members vs) (sorted suffix_le suffixes)
        ])
          ≡ vm_ids_of vs
    by_number none = pattern_members-ids vs
    by_number (some suffixes) = members_by_suffix-ids vs (sorted suffix_le suffixes)

-- The HA members of the group are its VMs, unless it has none.
unfoldable pub HasMembers : VmGroup → Type 0
HasMembers g = (g.ha_members ≡ []) ⊎ Perm (member_ids g.ha_members) g.vm_ids

-- A group that is built from VMs has its VMs as HA members.
pub build_group-members :
    (k : PrimaryKey) (vs : List SourceVm) (discriminator : Text)
    → Perm
        (member_ids (build_group k vs discriminator).ha_members)
        (build_group k vs discriminator).vm_ids
unfolding build_group
build_group-members k vs discriminator =
    rw (detect_ha_members-ids vs) (Perm.symm (sorted-perm leb (vm_ids_of vs)))

micro_groups-ids :
    (g : VmGroup) (ms : List HaMember) → ids_of (map (micro_group g) ms) ≡ member_ids ms
unfolding micro_group ids_of
micro_groups-ids g [] = refl
micro_groups-ids g (m ∷ ms) = rw (micro_groups-ids g ms)

-- A micro-group of the group: one VM, which is its one HA member, and the primary key of the group.
pub record IsMicro (g h : VmGroup) : Type 0 where
  pub member : HaMember
  pub tagged : h.ha_members ≡ member ∷ []
  pub alone : h.vm_ids ≡ member.vm_id ∷ []
  pub keyed : group_primary h ≡ group_primary g

micro_group-IsMicro : (g : VmGroup) (m : HaMember) → IsMicro g (micro_group g m)
unfolding micro_group
micro_group-IsMicro g m = record { member = m; tagged = refl; alone = refl; keyed = refl }

-- If the HA members of a group are its VMs, or it has none, then the groups that it is split into
-- hold its VMs, each once.
pub split_ha_group-perm : (g : VmGroup) → HasMembers g → Perm (ids_of (split_ha_group g)) g.vm_ids
unfolding split_ha_group ids_of HasMembers ha_count
split_ha_group-perm g (inl empty) = rw (empty, append-nil g.vm_ids) (Perm.refl _)
split_ha_group-perm g (inr p) = elim (Bool-cases (ltb (ha_count g) 2)) [
  | inl few ↦ rw (few, append-nil g.vm_ids) (Perm.refl _)
  | inr many ↦
      rw (many, micro_groups-ids g (sorted member_le g.ha_members))
        (Perm.trans (Perm.map (λ (m : HaMember). m.vm_id) (sorted-perm member_le g.ha_members)) p)
]

-- Unless the group stays whole, for fewer than two HA peers, each part is a micro-group of one VM.
pub split_ha_group-IsMicro :
    (g : VmGroup)
    → (split_ha_group g ≡ g ∷ []) × (ha_count g < 2)
      ⊎ All (IsMicro g) (split_ha_group g) × (2 ≤ ha_count g)
unfolding split_ha_group
split_ha_group-IsMicro g = elim (Bool-cases (ltb (ha_count g) 2)) [
  | inl few ↦ rw few (inl (refl, ltb→lt _ _ few))
  | inr many ↦ rw many (
      inr (
        All-map (IsMicro g) (micro_group g) (sorted member_le g.ha_members)
            (All-always _ (sorted member_le g.ha_members) (micro_group-IsMicro g)),
        ground (arith, many),
      ))
]

IsMicro-few : (g h : VmGroup) → IsMicro g h → ha_count h ≤ 1
unfolding ha_count
IsMicro-few g h micro = rw micro.tagged (ground arith)

few-HasFewPeers :
    (limits : Limits) (g : VmGroup)
    → 1 ≤ limits.max_ha_peers
    → ha_count g ≤ 1
    → HasFewPeers limits g
unfolding effective_family_cap
few-HasFewPeers limits g h few = ground arith

-- If a wave may hold an HA peer, every part of a group has so few HA peers that a wave may hold them.
pub split_ha_group-HasFewPeers :
    (limits : Limits) (g : VmGroup)
    → 1 ≤ limits.max_ha_peers
    → All (HasFewPeers limits) (split_ha_group g)
split_ha_group-HasFewPeers limits g h = elim (split_ha_group-IsMicro g) [
  | inl whole ↦ rw whole.0 (few-HasFewPeers limits g h (omega (arith, whole.1)), tt)
  | inr parts ↦
      All-imp (split_ha_group g) (λ m micro. few-HasFewPeers limits m h (IsMicro-few g m micro))
        parts.0
]
