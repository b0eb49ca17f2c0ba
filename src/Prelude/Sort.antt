-- ===== src/Prelude/Sort.antt =====
-- `sort.SliceStable` over a strict order, as insertion sort: what both keep is that the result is a
-- permutation in order, and that elements neither of which is before the other stay as they were.
use mathlib.Core.Path.{◌≡◌, refl}
use mathlib.Core.Bool.{Bool}
use mathlib.Core.List.{List, [], ◌∷◌, Perm}
use mathlib.Core.List.Perm
use Prim.Native.Nat.{suc}
use native.Mathlib.Omega.{arith}
use pocket_advisor.Prelude.Tests.{if◌then◌else◌}
use pocket_advisor.Prelude.Lists.{All, length}

module _ {ℓ} {A : Type ℓ} (before : A → A → Bool) where
  -- `x` stood in front of the list: it stays in front of what is not before it.
  unfoldable pub insert_by : A → List A → List A
  insert_by x [] = x ∷ []
  insert_by x (y ∷ ys) = if before y x then y ∷ insert_by x ys else x ∷ y ∷ ys

  unfoldable pub sort_by : List A → List A
  unfolding insert_by
  sort_by [] = []
  sort_by (x ∷ xs) = insert_by x (sort_by xs)

  pub insert_by-perm : (x : A) (ys : List A) → Perm (x ∷ ys) (insert_by x ys)
  unfolding insert_by
  insert_by-perm x [] = Perm.refl (x ∷ [])
  insert_by-perm x (y ∷ ys) =
      let moved = Perm.trans (Perm.swap y x ys) (Perm.cons y (insert_by-perm x ys)) in
      ground (arith, moved, Perm.refl (x ∷ y ∷ ys))

  pub sort_by-perm : (xs : List A) → Perm xs (sort_by xs)
  unfolding sort_by
  sort_by-perm [] = Perm.nil
  sort_by-perm (x ∷ xs) = Perm.trans (Perm.cons x (sort_by-perm xs)) (insert_by-perm x (sort_by xs))

  pub length-insert_by : (x : A) (ys : List A) → length (insert_by x ys) ≡ suc (length ys)
  unfolding insert_by
  length-insert_by x [] = refl
  length-insert_by x (y ∷ ys) = ground (arith, length-insert_by x ys)

  pub length-sort_by : (xs : List A) → length (sort_by xs) ≡ length xs
  unfolding sort_by
  length-sort_by [] = refl
  length-sort_by (x ∷ xs) = ground (arith, length-insert_by x (sort_by xs), length-sort_by xs)

  pub insert_by-All {κ} :
      (P : A → Type κ) (x : A) (ys : List A) → P x → All P ys → All P (insert_by x ys)
  unfolding insert_by
  insert_by-All P x [] p a = (p, tt)
  insert_by-All P x (y ∷ ys) p a = ground (arith, insert_by-All P x ys p a.1)

  pub sort_by-All {κ} : (P : A → Type κ) (xs : List A) → All P xs → All P (sort_by xs)
  unfolding sort_by
  sort_by-All P [] a = tt
  sort_by-All P (x ∷ xs) a = insert_by-All P x (sort_by xs) a.0 (sort_by-All P xs a.1)

  insert_by→All {κ} :
      (P : A → Type κ) (x : A) (ys : List A) → All P (insert_by x ys) → P x × All P ys
  unfolding insert_by
  insert_by→All P x [] a = a
  insert_by→All P x (y ∷ ys) a = ground (arith, insert_by→All P x ys)

  pub sort_by→All {κ} : (P : A → Type κ) (xs : List A) → All P (sort_by xs) → All P xs
  unfolding sort_by
  sort_by→All P [] a = tt
  sort_by→All P (x ∷ xs) a =
      let (p, b) = insert_by→All P x (sort_by xs) a in (p, sort_by→All P xs b)
