-- ===== src/Base/Rearranged.antt =====
-- Lists that are collected from the items of a list, under a rearrangement of that list.
use virtvalidation.Base.{List, [], ◌∷◌, ◌++◌}
use mathlib.Core.List.{Perm, Permᴰ, Perm-prop, append_assoc, perm_append_comm}
use mathlib.Core.Logic.{∥∥₁_elim}
use mathlib.Core.List.Perm

module _ {ℓ κ} {A : Type ℓ} {B : Type κ} (f : A → List B) where
  abbrev pub collect : List A → List B
  collect [] = []
  collect (x ∷ xs) = f x ++ collect xs

  collect-permᴰ : {xs ys : List A} → Permᴰ xs ys → Perm (collect xs) (collect ys)
  collect-permᴰ Permᴰ.nil = Perm.refl _
  collect-permᴰ (Permᴰ.cons {a = a} e h) = rw (← e) (Perm.append_left (f a) (collect-permᴰ h))
  collect-permᴰ (Permᴰ.swap {a = a} {b = b} {l = l} e d) =
      rw (← e, ← d, ← append_assoc, ← append_assoc)
        (Perm.append_right (collect l) (perm_append_comm (f a) (f b)))
  collect-permᴰ (Permᴰ.trans h k) = Perm.trans (collect-permᴰ h) (collect-permᴰ k)

  pub collect-perm : {xs ys : List A} → Perm xs ys → Perm (collect xs) (collect ys)
  collect-perm h = ∥∥₁_elim h Perm-prop collect-permᴰ
