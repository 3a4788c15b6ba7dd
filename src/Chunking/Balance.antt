-- ===== src/Chunking/Balance.antt =====
-- The batches of `chunk_partition`: how many, how large, and which VMs.
use virtvalidation.Base.{
  ℕ, zero, suc, ◌+◌, ◌-◌, ◌*◌, ◌/◌, ◌%◌, ◌≤◌, ◌<◌, min, max, ◌≡◌, refl, sym, ap, ◌∙◌, inl, inr,
  false, some, List, [], ◌∷◌, arith, ltb, leb, nat_eq, leb→le, Bool-cases, nat_Eq, option_Eq,
  list_Eq, length, drop, take-append-drop, length-take, length-drop, All, All-imp, length-perm,
}
use virtvalidation.Base.Sorting.{sorted, sorted-perm}
use virtvalidation.Base.Rearranged.{collect}
use virtvalidation.Preclassifier.Source.{SourceVm}
use virtvalidation.Chunking.{chunk_le, chunk_size, cut, ceil_div, cut_balanced, chunk_partition}
use mathlib.Core.List.{Perm, append-nil}
use mathlib.Core.List.Perm
use native.Mathlib.Nat.{div-add-mod, mod-lt, le_of_mul-le-mul_left, lt_of_mul-lt-mul_left}

-- The sum of the sizes of `n` batches from number `i` on.
abbrev total : ℕ → ℕ → ℕ → ℕ → ℕ
total base extra i zero = 0
total base extra i (suc n) = chunk_size base extra i + total base extra (i + 1) n

total-eq : (base extra i n : ℕ) → total base extra i n ≡ n * base + min n (extra - i)
total-eq base extra i zero = omega arith
total-eq base extra i (suc n) = ground (arith, total-eq base extra (i + 1) n)

module _ {ℓ} {A : Type ℓ} (base extra : ℕ) where
  cut-collect :
      (i n : ℕ) (xs : List A)
      → length xs ≡ total base extra i n
      → collect (λ (c : List A). c) (cut base extra i n xs) ≡ xs
  unfolding cut
  cut-collect i zero [] h = refl
  cut-collect i zero (x ∷ xs) h = absurd (omega (arith, h))
  cut-collect i (suc n) xs h =
      let s = chunk_size base extra i in
      rw (cut-collect (i + 1) n (drop s xs) (omega (arith, h, length-drop s xs)))
        (take-append-drop s xs)

  -- Every batch has the least size, or one item more if there are some left over.
  cut-sizes :
      (i n : ℕ) (xs : List A)
      → length xs ≡ total base extra i n
      → All
          (λ (c : List A). (base ≤ length c) × (length c ≤ base + min 1 extra))
          (cut base extra i n xs)
  unfolding cut
  cut-sizes i zero xs h = tt
  cut-sizes i (suc n) xs h =
      let s = chunk_size base extra i in
      let least : base ≤ s = ground arith in
      let most : s ≤ base + min 1 extra = ground arith in
      (
        (omega (arith, h, least, length-take s xs), omega (arith, most, length-take s xs)),
        cut-sizes (i + 1) n (drop s xs) (omega (arith, h, length-drop s xs)),
      )

  cut-length : (i n : ℕ) (xs : List A) → length (cut base extra i n xs) ≡ n
  unfolding cut
  cut-length i zero xs = refl
  cut-length i (suc n) xs = rw (cut-length (i + 1) n (drop (chunk_size base extra i) xs)) refl

-- The number of batches is the least at which they can hold the items.
ceil_div-holds : (n d : ℕ) → 1 ≤ d → n ≤ d * ceil_div n d
ceil_div-holds n d h = omega (arith, div-add-mod (n + (d - 1)) d, mod-lt (n + (d - 1)) {m = d} h)

ceil_div-positive : (n d : ℕ) → 1 ≤ n → 1 ≤ d → 1 ≤ ceil_div n d
ceil_div-positive n d some_item h = go (ceil_div n d) (ceil_div-holds n d h)
  where
    go : (c : ℕ) → n ≤ d * c → 1 ≤ c
    go zero le = absurd (ground (arith, le, some_item))
    go (suc c) le = omega arith

-- The size of a batch is within the cap.
size_fits : (n d c : ℕ) → 1 ≤ c → n ≤ d * c → n / c + min 1 (n % c) ≤ d
size_fits n d c positive le =
    let whole = div-add-mod n c in
    elim (Bool-cases (ltb 0 (n % c))) [
      | inl left ↦
          let less : c * (n / c) < c * d = ground (arith, whole, le, left) in
          omega (arith, lt_of_mul-lt-mul_left c less)
      | inr none_left ↦
          let most : c * (n / c) ≤ c * d = ground (arith, whole, le) in
          ground (arith, le_of_mul-le-mul_left {k = c} most positive, none_left)
    ]

-- Batches of a selection: they hold the VMs, each once, none holds more than the cap, the sizes
-- differ by one at most, and there are as few as the cap allows.
pub record IsBalanced (max_per_plan : ℕ) (vms : List SourceVm) (chunks : List (List SourceVm))
    : Type 0 where
  pub placed : Perm (collect (λ (c : List SourceVm). c) chunks) vms
  pub small : All (λ (c : List SourceVm). length c ≤ max_per_plan) chunks
  pub even :
      All
        (λ (c : List SourceVm). All (λ (d : List SourceVm). length c ≤ length d + 1) chunks)
        chunks
  pub few : length chunks ≡ max 1 (ceil_div (length vms) max_per_plan)

-- The batches of a list that is longer than the cap.
module _ {ℓ} {A : Type ℓ} (max_per_plan : ℕ) (xs : List A) (positive : 1 ≤ max_per_plan)
    (over : max_per_plan < length xs) where
  abbrev n_chunks : ℕ
  n_chunks = ceil_div (length xs) max_per_plan

  n_chunks-positive : 1 ≤ n_chunks
  n_chunks-positive = ceil_div-positive (length xs) max_per_plan (omega (arith, over)) positive

  sizes-total : length xs ≡ total (length xs / n_chunks) (length xs % n_chunks) 0 n_chunks
  sizes-total =
      let whole = div-add-mod (length xs) n_chunks in
      let less = mod-lt (length xs) {m = n_chunks} n_chunks-positive in
      omega (arith, whole, less, total-eq (length xs / n_chunks) (length xs % n_chunks) 0 n_chunks)

  cut_balanced-collect : collect (λ (c : List A). c) (cut_balanced max_per_plan xs) ≡ xs
  unfolding cut_balanced
  cut_balanced-collect =
      cut-collect (length xs / n_chunks) (length xs % n_chunks) 0 n_chunks xs sizes-total

  cut_balanced-sizes :
      All
        (λ (c : List A).
          (length xs / n_chunks ≤ length c)
          × (length c ≤ length xs / n_chunks + min 1 (length xs % n_chunks)))
        (cut_balanced max_per_plan xs)
  unfolding cut_balanced
  cut_balanced-sizes =
      cut-sizes (length xs / n_chunks) (length xs % n_chunks) 0 n_chunks xs sizes-total

  cut_balanced-small : All (λ (c : List A). length c ≤ max_per_plan) (cut_balanced max_per_plan xs)
  cut_balanced-small =
      let fits =
        size_fits (length xs) max_per_plan n_chunks n_chunks-positive
          (ceil_div-holds (length xs) max_per_plan positive) in
      All-imp (cut_balanced max_per_plan xs) (λ c sizes. omega (arith, sizes.1, fits))
        cut_balanced-sizes

  cut_balanced-even :
      All
        (λ (c : List A).
          All (λ (d : List A). length c ≤ length d + 1) (cut_balanced max_per_plan xs))
        (cut_balanced max_per_plan xs)
  cut_balanced-even =
      All-imp (cut_balanced max_per_plan xs)
        (λ c most.
          All-imp (cut_balanced max_per_plan xs) (λ d least. omega (arith, most.1, least.0))
            cut_balanced-sizes)
        cut_balanced-sizes

  cut_balanced-length : length (cut_balanced max_per_plan xs) ≡ n_chunks
  unfolding cut_balanced
  cut_balanced-length = cut-length (length xs / n_chunks) (length xs % n_chunks) 0 n_chunks xs

one_chunk : (n d : ℕ) → 1 ≤ d → n ≤ d → max 1 (ceil_div n d) ≡ 1
one_chunk n d positive fits =
    let whole = div-add-mod (n + (d - 1)) d in
    let less : d * ceil_div n d < d * 2 = ground (arith, whole, fits, positive) in
    omega (arith, lt_of_mul-lt-mul_left d less)

-- If the cap is positive, the selection is cut into batches that hold its VMs, each once, of which
-- none is larger than the cap, whose sizes differ by one at most, and that are as few as the cap
-- allows (one for a selection that fits, be it empty).
pub chunk_partition-IsBalanced :
    (vms : List SourceVm) (max_per_plan : ℕ)
    → 1 ≤ max_per_plan
    → (chunks : List (List SourceVm)) × (chunk_partition vms max_per_plan ≡ some chunks)
      × IsBalanced max_per_plan vms chunks
unfolding chunk_partition
chunk_partition-IsBalanced vms max_per_plan positive =
    let not_zero : nat_eq max_per_plan 0 ≡ false = ground (arith, positive) in
    elim (Bool-cases (leb (length vms) max_per_plan)) [
      | inl fits ↦
          let le = leb→le _ _ fits in
          (
            vms ∷ [],
            rw (not_zero, fits) refl,
            record {
              placed = rw (append-nil vms) (Perm.refl _);
              small = (le, tt);
              even = ((omega arith, tt), tt);
              few = sym (one_chunk (length vms) max_per_plan positive le);
            },
          )
      | inr over ↦
          let ordered = sorted chunk_le vms in
          let p = sorted-perm chunk_le vms in
          let long : max_per_plan < length ordered = ground (arith, over, length-perm p) in
          (
            cut_balanced max_per_plan ordered,
            rw (not_zero, over) refl,
            record {
              placed = rw (cut_balanced-collect max_per_plan ordered positive long) p;
              small = cut_balanced-small max_per_plan ordered positive long;
              even = cut_balanced-even max_per_plan ordered positive long;
              few =
                  cut_balanced-length max_per_plan ordered positive long
                  ∙ ap (λ n. ceil_div n max_per_plan) (length-perm p)
                  ∙ at_least_one _ (
                      ceil_div-positive (length vms) max_per_plan
                        (omega (arith, long, length-perm p)) positive);
            },
          )
    ]
  where
    at_least_one : (n : ℕ) → 1 ≤ n → n ≡ max 1 n
    at_least_one n h = omega (arith, h)
