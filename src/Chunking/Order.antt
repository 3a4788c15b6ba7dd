-- ===== src/Chunking/Order.antt =====
-- The batches of `chunk_partition` do not depend on the order of the selection.
use virtvalidation.Base.{
  ℕ, zero, suc, ◌+◌, ◌<◌, ◌≡◌, refl, sym, ap, ◌∙◌, inl, inr, Bool, true, false, Option, none, some,
  List, [], ◌∷◌, map, arith, leb, nat_eq, Bool-cases, nat_Eq, option_Eq, list_Eq, length, take,
  drop, length-perm,
}
use virtvalidation.Base.Texts.{by_text, by_text-IsOrder, by_text_antisymm}
use virtvalidation.Base.Sorting.{IsOrder, sorted}
use virtvalidation.Base.Unique.{sorted_unique, map-sorted}
use virtvalidation.Base.{length-map}
use virtvalidation.Preclassifier.Source.{SourceVm, vm_ids_of}
use virtvalidation.Chunking.{
  ChunkKey, chunk_sort_key, key_le, chunk_le, cut, chunk_size, cut_balanced, chunk_partition,
}
use mathlib.Core.List.{Perm}
use mathlib.Core.List.Perm

abbrev key_id_le : ChunkKey → ChunkKey → Bool
key_id_le j k = leb j.id k.id

key_id_le-IsOrder : IsOrder key_id_le
key_id_le-IsOrder = record { total = λ j k h. ground arith; trans = λ j k l h m. ground arith }

abbrev by_name : ChunkKey → ChunkKey → Bool
by_name = by_text (λ (k : ChunkKey). k.name) key_id_le

abbrev by_family : ChunkKey → ChunkKey → Bool
by_family = by_text (λ (k : ChunkKey). k.family) by_name

key_le-IsOrder : IsOrder key_le
unfolding key_le
key_le-IsOrder =
    by_text-IsOrder (λ (k : ChunkKey). k.hint) by_family
      (by_text-IsOrder (λ (k : ChunkKey). k.family) by_name
        (by_text-IsOrder (λ (k : ChunkKey). k.name) key_id_le key_id_le-IsOrder))

key_le_antisymm : (j k : ChunkKey) → key_le j k ≡ true → key_le k j ≡ true → j ≡ k
unfolding key_le
key_le_antisymm j k a b =
    let hints = by_text_antisymm (λ (k : ChunkKey). k.hint) by_family j k a b in
    let families = by_text_antisymm (λ (k : ChunkKey). k.family) by_name j k hints.1 hints.2 in
    let names = by_text_antisymm (λ (k : ChunkKey). k.name) key_id_le j k families.1 families.2 in
    let ids : j.id ≡ k.id = ground (arith, names.1, names.2) in
    λ i. record { hint = hints.0 i; family = families.0 i; name = names.0 i; id = ids i }

ChunkKey-IsSet : IsSet ChunkKey
ChunkKey-IsSet = hlevel

sorted_keys :
    (vms ws : List SourceVm)
    → Perm vms ws
    → map chunk_sort_key (sorted chunk_le vms) ≡ map chunk_sort_key (sorted chunk_le ws)
sorted_keys vms ws p =
    map-sorted chunk_sort_key key_le vms
    ∙ sorted_unique key_le key_le-IsOrder key_le_antisymm ChunkKey-IsSet _ _
        (Perm.map chunk_sort_key p)
    ∙ sym (map-sorted chunk_sort_key key_le ws)

ids-keys :
    (vms : List SourceVm) → map (λ (k : ChunkKey). k.id) (map chunk_sort_key vms) ≡ vm_ids_of vms
unfolding chunk_sort_key
ids-keys [] = refl
ids-keys (v ∷ vms) = rw (ids-keys vms) refl

sorted_ids :
    (vms ws : List SourceVm)
    → Perm vms ws
    → vm_ids_of (sorted chunk_le vms) ≡ vm_ids_of (sorted chunk_le ws)
sorted_ids vms ws p =
    sym (ids-keys (sorted chunk_le vms))
    ∙ ap (map (λ (k : ChunkKey). k.id)) (sorted_keys vms ws p)
    ∙ ids-keys (sorted chunk_le ws)

take-ids : (n : ℕ) (vms : List SourceVm) → vm_ids_of (take n vms) ≡ take n (vm_ids_of vms)
take-ids zero vms = refl
take-ids (suc n) [] = refl
take-ids (suc n) (v ∷ vms) = rw (take-ids n vms) refl

drop-ids : (n : ℕ) (vms : List SourceVm) → vm_ids_of (drop n vms) ≡ drop n (vm_ids_of vms)
drop-ids zero vms = refl
drop-ids (suc n) [] = refl
drop-ids (suc n) (v ∷ vms) = drop-ids n vms

cut-ids :
    (base extra i n : ℕ) (vms : List SourceVm)
    → map vm_ids_of (cut base extra i n vms) ≡ cut base extra i n (vm_ids_of vms)
unfolding cut
cut-ids base extra i zero vms = refl
cut-ids base extra i (suc n) vms =
    let s = chunk_size base extra i in
    rw (take-ids s vms, cut-ids base extra (i + 1) n (drop s vms), drop-ids s vms) refl

cut_balanced-ids :
    (max_per_plan : ℕ) (vms : List SourceVm)
    → map vm_ids_of (cut_balanced max_per_plan vms) ≡ cut_balanced max_per_plan (vm_ids_of vms)
unfolding cut_balanced
cut_balanced-ids max_per_plan vms =
    rw (length-map (λ (v : SourceVm). v.id) vms) (cut-ids _ _ 0 _ vms)

-- The VM ids of the batches, or none for a ValueError.
abbrev pub chunk_ids : Option (List (List SourceVm)) → Option (List (List ℕ))
chunk_ids none = none
chunk_ids (some chunks) = some (map vm_ids_of chunks)

-- A selection that is larger than the cap is cut into the same batches, by the ids of their VMs and
-- their order, in whatever order its VMs are given.
pub chunk_partition-perm :
    (vms ws : List SourceVm) (max_per_plan : ℕ)
    → Perm vms ws
    → max_per_plan < length vms
    → chunk_ids (chunk_partition vms max_per_plan) ≡ chunk_ids (chunk_partition ws max_per_plan)
unfolding chunk_partition
chunk_partition-perm vms ws max_per_plan p over = elim (Bool-cases (nat_eq max_per_plan 0)) [
  | inl none_fit ↦ rw none_fit refl
  | inr cap ↦
      let over_vms : leb (length vms) max_per_plan ≡ false = ground (arith, over) in
      let over_ws : leb (length ws) max_per_plan ≡ false = ground (arith, over, length-perm p) in
      rw (cap, over_vms, over_ws)
        (ap some (
          cut_balanced-ids max_per_plan (sorted chunk_le vms)
          ∙ ap (cut_balanced max_per_plan) (sorted_ids vms ws p)
          ∙ sym (cut_balanced-ids max_per_plan (sorted chunk_le ws))))
]
