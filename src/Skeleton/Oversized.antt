-- ===== src/Skeleton/Oversized.antt =====
-- `_split_oversized_groups` and `_split_one`.
pub mod Batches
use virtvalidation.Base.{
  ℕ, zero, suc, ◌+◌, none, some, List, [], ◌∷◌, ◌++◌, leb, if◌then◌else◌, nat_Eq, option_Eq,
  list_Eq, length, take, drop,
}
use virtvalidation.Base.Dicts.{Dict, get, put}
use virtvalidation.Base.Texts.{codes, decimal}
use virtvalidation.Base.Sorting.{sorted}
use virtvalidation.Group.{HaMember, VmGroup, group_id}

-- `{m.vm_id: m for m in ha_members}`: of two members with one id the later counts
unfoldable pub members_by_id : Dict ℕ HaMember → List HaMember → Dict ℕ HaMember
members_by_id out [] = out
members_by_id out (m ∷ ms) = members_by_id (put m.vm_id m out) ms

-- `[id_to_member[i] for i in batch_ids if i in id_to_member]`
unfoldable pub members_of : Dict ℕ HaMember → List ℕ → List HaMember
members_of by_id [] = []
members_of by_id (i ∷ ids) =
    let rest = members_of by_id ids in elim (get i by_id) [ none ↦ rest | some m ↦ m ∷ rest ]

-- The sub-group of one batch.
unfoldable pub batch_group : VmGroup → ℕ → List ℕ → VmGroup
unfolding members_of members_by_id
batch_group g batch_num batch_ids = record g {
  key = record (g.key) {
    discriminator = g.key.discriminator ++ codes "/batch-" ++ decimal batch_num;
  };
  vm_ids = batch_ids;
  notes =
      codes "Batch "
      ++ decimal batch_num
      ++ codes " of "
      ++ group_id g
      ++ codes " ("
      ++ decimal (length batch_ids)
      ++ codes " VMs) — split for MTV per-ESXi concurrency limit";
  ha_members = members_of (members_by_id [] g.ha_members) batch_ids;
}

-- The loop over `range(0, len(sorted_ids), max_vms)`, on the ids that are left. Each round takes at
-- least one id when `max_vms` is positive, so the number of ids is fuel enough.
unfoldable pub batches : ℕ → VmGroup → ℕ → ℕ → List ℕ → List VmGroup
unfolding batch_group
batches max_vms g zero batch_num ids = []
batches max_vms g (suc fuel) batch_num [] = []
batches max_vms g (suc fuel) batch_num (i ∷ ids) =
    batch_group g batch_num (take max_vms (i ∷ ids))
    ∷ batches max_vms g fuel (batch_num + 1) (drop max_vms (i ∷ ids))

unfoldable pub split_one : ℕ → VmGroup → List VmGroup
unfolding batches sorted
split_one max_vms g = batches max_vms g (length g.vm_ids) 1 (sorted leb g.vm_ids)

unfoldable pub split_oversized_groups : ℕ → List VmGroup → List VmGroup
unfolding split_one
split_oversized_groups max_vms [] = []
split_oversized_groups max_vms (g ∷ gs) =
    (if leb (length g.vm_ids) max_vms then g ∷ [] else split_one max_vms g)
    ++ split_oversized_groups max_vms gs
