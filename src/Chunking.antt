-- ===== src/Chunking.antt =====
-- backend/app/core/plan_chunking.py: the batches of a selection that is larger than a plan, and the
-- names of the plans of a series.
pub mod Balance
pub mod Order
pub mod Slugs
pub mod Names
use virtvalidation.Base.{
  ℕ, ◌<◌, ◌≡◌, All, zero, suc, ◌+◌, ◌-◌, ◌/◌, ◌%◌, Bool, true, false, not, ◌&&◌, Option, none, some,
  List, [], ◌∷◌, ◌++◌, ltb, leb, nat_eq, if◌then◌else◌, Eq, ◌==◌, nat_Eq, option_Eq, list_Eq,
  length, take, drop, filter_by,
}
use virtvalidation.Base.Texts.{by_text, Text, codes, is_alnum, lower, join, decimal}
use virtvalidation.Base.Sorting.{sorted}
use virtvalidation.Family.Names.{detect_family}
use virtvalidation.Preclassifier.Source.{SourceVm, non_empty}

-- `_chunk_sort_key`
pub record ChunkKey : Type 0 where
  pub hint : Text
  pub family : Text
  pub name : Text
  pub id : ℕ

unfoldable pub chunk_sort_key : SourceVm → ChunkKey
unfolding detect_family
chunk_sort_key v = record {
  hint = lower v.application_hint;
  family = detect_family v.name;
  name = lower v.name;
  id = v.id;
}

unfoldable pub key_le : ChunkKey → ChunkKey → Bool
key_le =
    by_text (λ (k : ChunkKey). k.hint)
      (by_text (λ (k : ChunkKey). k.family)
        (by_text (λ (k : ChunkKey). k.name) (λ j k. leb j.id k.id)))

abbrev pub chunk_le : SourceVm → SourceVm → Bool
chunk_le v w = key_le (chunk_sort_key v) (chunk_sort_key w)

-- `base + (1 if i < extra else 0)`
abbrev pub chunk_size : ℕ → ℕ → ℕ → ℕ
chunk_size base extra i = base + (if ltb i extra then 1 else 0)

-- The loop over `range(n_chunks)`: `n` rounds are left, `i` is the next, `rest` is `ordered[start:]`.
unfoldable pub cut {ℓ} : {A : Type ℓ} → ℕ → ℕ → ℕ → ℕ → List A → List (List A)
cut base extra i zero rest = []
cut base extra i (suc n) rest =
    take (chunk_size base extra i) rest
    ∷ cut base extra (i + 1) n (drop (chunk_size base extra i) rest)

-- `ceil(n / d)` for a positive `d`
abbrev pub ceil_div : ℕ → ℕ → ℕ
ceil_div n d = (n + (d - 1)) / d

unfoldable pub cut_balanced {ℓ} : {A : Type ℓ} → ℕ → List A → List (List A)
unfolding cut
cut_balanced max_per_plan ordered =
    let n_chunks = ceil_div (length ordered) max_per_plan in
    cut (length ordered / n_chunks) (length ordered % n_chunks) 0 n_chunks ordered

-- `chunk_partition`; a ValueError is `none`
unfoldable pub chunk_partition : List SourceVm → ℕ → Option (List (List SourceVm))
unfolding cut_balanced sorted chunk_sort_key key_le
chunk_partition vms max_per_plan =
    if nat_eq max_per_plan 0
    then none
    else if leb (length vms) max_per_plan
    then some (vms ∷ [])
    else some (cut_balanced max_per_plan (sorted chunk_le vms))

abbrev pub plan_name_slug_max_len : ℕ
plan_name_slug_max_len = 63

-- `ch.isalnum()` and `s.lower()`, which go by Python's Unicode tables.
pub record StrMethods : Type 0 where
  pub isalnum : ℕ → Bool
  pub to_lower : Text → Text

abbrev pub AllAscii : Text → Type 0
AllAscii s = All (λ c. c < 128) s

-- What is documented of the two methods: on ASCII they are the ASCII ones.
pub record IsPython (m : StrMethods) : Type 0 where
  pub isalnum_ascii : (c : ℕ) → c < 128 → m.isalnum c ≡ is_alnum c
  pub to_lower_ascii : (s : Text) → AllAscii s → m.to_lower s ≡ lower s

-- The loop of `slug_for_plan_name`: the flags say whether `out` is non-empty and ends with a dash.
unfoldable pub slug_chars : (ℕ → Bool) → Bool → Bool → Text → Text
slug_chars isalnum started last_dash [] = []
slug_chars isalnum started last_dash (c ∷ s) =
    let kept = slug_chars isalnum true false s in
    let dashed = slug_chars isalnum started true s in
    let skipped = slug_chars isalnum started last_dash s in
    if isalnum c then c ∷ kept else if not last_dash && started then b'-' ∷ dashed else skipped

-- `s.lstrip("-")`, `s.rstrip("-")` and `s.strip("-")`
unfoldable pub lstrip_dash : Text → Text
lstrip_dash [] = []
lstrip_dash (c ∷ s) = let rest = lstrip_dash s in if c == b'-' then rest else c ∷ s

abbrev pub keep_unless_dash : ℕ → Text → Text
keep_unless_dash c [] = if c == b'-' then [] else c ∷ []
keep_unless_dash c (d ∷ s) = c ∷ d ∷ s

unfoldable pub rstrip_dash : Text → Text
rstrip_dash [] = []
rstrip_dash (c ∷ s) = keep_unless_dash c (rstrip_dash s)

-- `s or "plan"`
abbrev pub or_plan : Text → Text
or_plan [] = codes "plan"
or_plan (c ∷ s) = c ∷ s

unfoldable pub slug_for_plan_name : StrMethods → Text → ℕ → Text
unfolding slug_chars lstrip_dash rstrip_dash
slug_for_plan_name m value max_len =
    let slug = rstrip_dash (lstrip_dash (slug_chars m.isalnum false false (m.to_lower value))) in
    or_plan (rstrip_dash (take max_len (or_plan slug)))

-- `[s for s in (vcenter_name, cluster_name, namespace) if s]`; none is the empty text
abbrev pub filled : List Text → List Text
filled parts = filter_by non_empty parts

unfoldable pub series_stem : Text → List Text → Bool → Text
unfolding join
series_stem base partition multi_partition =
    join (codes "-") (base ∷ (if multi_partition then filled partition else []))

unfoldable pub compose_series_name : StrMethods → Text → List Text → ℕ → ℕ → Bool → Text
unfolding series_stem slug_for_plan_name decimal
compose_series_name m base partition index total multi_partition =
    if leb total 1 && not multi_partition
    then base
    else if leb total 1
    then slug_for_plan_name m (series_stem base partition multi_partition) plan_name_slug_max_len
    else let suffix = codes "-" ++ decimal index in
      slug_for_plan_name m (series_stem base partition multi_partition)
        (plan_name_slug_max_len - length suffix)
      ++ suffix
