-- ===== src/Family/Split.antt =====
-- `split_overconcentrated_families` of backend/app/core/family.py.
use virtvalidation.Base.{
  ℕ, ◌+◌, Bool, List, [], ◌∷◌, ◌++◌, if◌then◌else◌, leb, ltb, ◌==◌, list_Eq, nat_Eq, any_by,
  filter_by, length,
}
use virtvalidation.Base.Dicts.{Dict, get_default, push, increment}
use virtvalidation.Base.Sorting.{sorted}
use virtvalidation.Base.Texts.{Text, codes, decimal}
use virtvalidation.Group.{VmGroup, HaMember}
use virtvalidation.Family.Names.{detect_family, family_cap}

-- `vm_name_by_id`
abbrev pub Names : Type 0
Names = Dict ℕ Text

-- `detect_family(vm_name_by_id.get(vid, ""))`
unfoldable pub family_of : Names → ℕ → Text
family_of names vid = detect_family (get_default vid [] names)

-- One VM of the loops that fill `global_family_sizes`: a VM with no name is passed over.
unfoldable pub count_family : Names → Dict Text ℕ → ℕ → Dict Text ℕ
unfolding family_of
count_family names sizes vid =
    if get_default vid [] names == [] then sizes else increment (family_of names vid) sizes

unfoldable pub count_families : Names → Dict Text ℕ → List ℕ → Dict Text ℕ
unfolding count_family
count_families names sizes [] = sizes
count_families names sizes (vid ∷ vids) = count_families names (count_family names sizes vid) vids

unfoldable pub family_sizes_from : Names → Dict Text ℕ → List VmGroup → Dict Text ℕ
unfolding count_families
family_sizes_from names sizes [] = sizes
family_sizes_from names sizes (g ∷ gs) =
    family_sizes_from names (count_families names sizes g.vm_ids) gs

-- `by_family`: the VMs of one group by family.
unfoldable pub bucket_by_family : Names → Dict Text (List ℕ) → List ℕ → Dict Text (List ℕ)
unfolding family_of
bucket_by_family names by_family [] = by_family
bucket_by_family names by_family (vid ∷ vids) =
    bucket_by_family names (push (family_of names vid) vid by_family) vids

-- `family_cap(global_family_sizes.get(fam, 0))`
unfoldable pub cap_of : Dict Text ℕ → Text → ℕ
unfolding family_cap
cap_of sizes fam = family_cap (get_default fam 0 sizes)

-- The loop that sets `needs_split`.
unfoldable pub needs_split : Dict Text ℕ → Dict Text (List ℕ) → Bool
unfolding cap_of
needs_split sizes by_family =
    any_by (λ entry. ltb (cap_of sizes entry.0) (length entry.1)) by_family

-- An entry of `buckets` with its entry of `bucket_family_counts`.
pub record Bucket : Type 0 where
  pub members : List ℕ
  pub counts : Dict Text ℕ

-- The loop over the buckets for one VM: the first bucket with room, or a new one behind them all.
unfoldable pub place : Text → ℕ → ℕ → List Bucket → List Bucket
place fam cap vid [] = record { members = vid ∷ []; counts = (fam, 1) ∷ [] } ∷ []
place fam cap vid (b ∷ bs) =
    let rest = place fam cap vid bs in
    if ltb (get_default fam 0 b.counts) cap
    then record { members = b.members ++ vid ∷ []; counts = increment fam b.counts } ∷ bs
    else b ∷ rest

unfoldable pub place_all : Names → Dict Text ℕ → List Bucket → List ℕ → List Bucket
unfolding place family_of cap_of
place_all names sizes buckets [] = buckets
place_all names sizes buckets (vid ∷ vids) =
    let fam = family_of names vid in
    place_all names sizes (place fam (cap_of sizes fam) vid buckets) vids

-- `buckets = [[]]` and `bucket_family_counts = [Counter()]`
abbrev pub first_buckets : List Bucket
first_buckets = record { members = []; counts = [] } ∷ []

abbrev pub contains_id : List ℕ → ℕ → Bool
contains_id ids vid = any_by (λ i. i == vid) ids

-- One sub-group, number `n` of `total`.
unfoldable pub sub_group : VmGroup → ℕ → ℕ → Bucket → VmGroup
unfolding sorted
sub_group g total n b = record g {
  key = record (g.key) {
    discriminator = g.key.discriminator ++ codes "/family-split-" ++ decimal n;
  };
  vm_ids = sorted leb b.members;
  ha_members = filter_by (λ (m : HaMember). contains_id b.members m.vm_id) g.ha_members;
  notes =
      g.notes
      ++ codes " [family-split "
      ++ decimal n
      ++ codes "/"
      ++ decimal total
      ++ codes ": HA family cap enforced]";
}

-- `for n, member_ids in enumerate(buckets, start=n)`
unfoldable pub sub_groups : VmGroup → ℕ → ℕ → List Bucket → List VmGroup
unfolding sub_group
sub_groups g total n [] = []
sub_groups g total n (b ∷ bs) = sub_group g total n b ∷ sub_groups g total (n + 1) bs

-- `if len(buckets) == 1` the group stays as it is.
unfoldable pub split_by_buckets : VmGroup → List Bucket → List VmGroup
unfolding sub_groups
split_by_buckets g buckets =
    if length buckets == 1 then g ∷ [] else sub_groups g (length buckets) 1 buckets

-- The body of the loop over the groups.
unfoldable pub split_group : Names → Dict Text ℕ → VmGroup → List VmGroup
unfolding needs_split bucket_by_family place_all split_by_buckets sorted
split_group names sizes g =
    if needs_split sizes (bucket_by_family names [] g.vm_ids)
    then split_by_buckets g (place_all names sizes first_buckets (sorted leb g.vm_ids))
    else g ∷ []

unfoldable pub split_groups : Names → Dict Text ℕ → List VmGroup → List VmGroup
unfolding split_group
split_groups names sizes [] = []
split_groups names sizes (g ∷ gs) = split_group names sizes g ++ split_groups names sizes gs

unfoldable pub split_overconcentrated_families : Names → List VmGroup → List VmGroup
unfolding split_groups family_sizes_from
split_overconcentrated_families names groups =
    split_groups names (family_sizes_from names [] groups) groups
