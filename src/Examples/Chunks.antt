-- ===== src/Examples/Chunks.antt =====
-- The theorems on the batches and the names of plans applied to three VMs.
use virtvalidation.Base.{
  refl, false, leb, any_by, ◌||◌, ◌==◌, ◌≤◌, ◌≡◌, true, some, List, [], ◌∷◌, arith, nat_Eq,
  option_Eq, list_Eq, length,
}
use virtvalidation.Base.Texts.{Text, codes, decimal, is_alnum, lower}
use virtvalidation.Examples.Planning.{vm, three_vms}
use virtvalidation.Preclassifier.Source.{SourceVm}
use virtvalidation.Chunking.{
  StrMethods, AllAscii, IsPython, slug_chars, lstrip_dash, rstrip_dash, chunk_partition,
  slug_for_plan_name, compose_series_name,
}
use virtvalidation.Chunking.Balance.{IsBalanced, chunk_partition-IsBalanced}
use virtvalidation.Chunking.Order.{chunk_ids, chunk_partition-perm}
use virtvalidation.Chunking.Slugs.{IsLabel, slug_for_plan_name-IsLabel}
use virtvalidation.Chunking.Names.{
  after_dash, compose_series_name-IsLabel, compose_series_name-decimal,
}
use virtvalidation.Base.Texts.{decimal_loop}
use mathlib.Core.List.{Perm}
use mathlib.Core.List.Perm

abbrev shuffled : List SourceVm
shuffled = vm 2 (codes "beta") ∷ vm 1 (codes "alpha") ∷ vm 3 (codes "gamma") ∷ []

shuffled-perm : Perm three_vms shuffled
shuffled-perm = Perm.swap _ _ _

chunk_partition-IsBalanced_example :
    (chunks : List (List SourceVm)) × (chunk_partition three_vms 2 ≡ some chunks)
    × IsBalanced 2 three_vms chunks
chunk_partition-IsBalanced_example = chunk_partition-IsBalanced three_vms 2 (omega arith)

chunk_partition-perm_example :
    chunk_ids (chunk_partition three_vms 2) ≡ chunk_ids (chunk_partition shuffled 2)
chunk_partition-perm_example = chunk_partition-perm three_vms shuffled 2 shuffled-perm (omega arith)

small_codes : (s : Text) → any_by (λ c. leb 128 c) s ≡ false → AllAscii s
small_codes [] h = tt
small_codes (c ∷ s) h = (ground (arith, h), small_codes s (ground (arith, h)))

-- The two methods on ASCII, with é as a further letter.
abbrev methods : StrMethods
methods = record { isalnum = λ c. is_alnum c || c == 233; to_lower = lower }

methods-IsPython : IsPython methods
methods-IsPython = record {
  isalnum_ascii = λ c small. ground (arith, small);
  to_lower_ascii = λ s ascii. refl;
}

-- A letter that is not ASCII stays in the slug.
accented : slug_for_plan_name methods (codes "Café") 63 ≡ codes "café"
unfolding slug_for_plan_name slug_chars lstrip_dash rstrip_dash
accented = refl

my_plan-AllAscii : AllAscii (codes "My Plan!")
my_plan-AllAscii = small_codes (codes "My Plan!") refl

slug_for_plan_name-IsLabel_example :
    IsLabel (slug_for_plan_name methods (codes "My Plan!") 63)
    × (length (slug_for_plan_name methods (codes "My Plan!") 63) ≤ 63)
slug_for_plan_name-IsLabel_example =
    slug_for_plan_name-IsLabel methods methods-IsPython (codes "My Plan!") 63 my_plan-AllAscii
      (omega arith)

one_digit : length (decimal 2) ≤ 61
unfolding decimal decimal_loop
one_digit = omega arith

compose_series_name-decimal_example :
    (length (compose_series_name methods (codes "Café") (codes "vc01" ∷ []) 2 3 true) ≤ 63)
    × (after_dash (compose_series_name methods (codes "Café") (codes "vc01" ∷ []) 2 3 true)
        ≡ decimal 2)
compose_series_name-decimal_example =
    compose_series_name-decimal methods (codes "Café") (codes "vc01" ∷ []) 2 3 true (omega arith)
      one_digit

compose_series_name-IsLabel_example :
    IsLabel (compose_series_name methods (codes "Epic") (codes "vc01" ∷ []) 2 3 true)
compose_series_name-IsLabel_example =
    compose_series_name-IsLabel methods methods-IsPython (codes "Epic") (codes "vc01" ∷ []) 2 3 true
      (small_codes (codes "Epic") refl) (small_codes (codes "vc01") refl, tt) (omega arith)
      one_digit
