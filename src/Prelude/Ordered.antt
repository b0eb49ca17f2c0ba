-- ===== src/Prelude/Ordered.antt =====
-- Lists in strict order, and what sorting and selecting do to them.
use mathlib.Core.Path.{◌≡◌, refl, ap}
use mathlib.Core.Logic.{◌⊎◌, inl, inr}
use mathlib.Core.Bool.{Bool, true, false}
use mathlib.Core.List.{List, [], ◌∷◌, ◌++◌}
use native.Mathlib.Omega.{arith}
use pocket_advisor.Prelude.Tests.{if◌then◌else◌, Bool-cases}
use Prim.Native.Nat.{ℕ, zero, suc}
use pocket_advisor.Prelude.Lists.{All, select, All-select, take, All-take}
use pocket_advisor.Prelude.Sort.{insert_by, sort_by, insert_by-All, sort_by-All}

module _ {ℓ} {A : Type ℓ} (before : A → A → Bool) where
  -- Each element is before all that follow it.
  abbrev pub Strict : List A → Type 0
  Strict [] = Unit {0}
  Strict (x ∷ xs) = All (λ y. before x y ≡ true) xs × Strict xs

  -- `x` is before or after each of the list.
  abbrev pub Apart : A → List A → Type 0
  Apart x = All (λ y. (before x y ≡ true) ⊎ (before y x ≡ true))

  -- Any two elements of the list are ordered one way or the other.
  abbrev pub AllApart : List A → Type 0
  AllApart [] = Unit {0}
  AllApart (x ∷ xs) = Apart x xs × AllApart xs

module _ {ℓ} {A : Type ℓ} (before : A → A → Bool)
    (trans : (x y z : A) → before x y ≡ true → before y z ≡ true → before x z ≡ true)
    (asymm : (x y : A) → before x y ≡ true → before y x ≡ false) where
  before-All :
      (x y : A) (ys : List A)
      → before x y ≡ true
      → All (λ z. before y z ≡ true) ys
      → All (λ z. before x z ≡ true) ys
  before-All x y [] h a = tt
  before-All x y (z ∷ ys) h a = (trans x y z h a.0, before-All x y ys h a.1)

  insert_by-Strict :
      (x : A) (ys : List A)
      → Apart before x ys
      → Strict before ys
      → Strict before (insert_by before x ys)
  unfolding insert_by
  insert_by-Strict x [] p s = (tt, tt)
  insert_by-Strict x (y ∷ ys) p s = elim (Bool-cases (before y x)) [
    | inl e ↦
        rw e
          (insert_by-All before (λ z. before y z ≡ true) x ys e s.0, insert_by-Strict x ys p.1 s.1)
    | inr e ↦ rw e ((first e p.0, before-All x y ys (first e p.0) s.0), s)
  ]
    where
      first : before y x ≡ false → (before x y ≡ true) ⊎ (before y x ≡ true) → before x y ≡ true
      first e h = ground arith

  pub sort_by-Strict : (xs : List A) → AllApart before xs → Strict before (sort_by before xs)
  unfolding sort_by
  sort_by-Strict [] p = tt
  sort_by-Strict (x ∷ xs) p =
      insert_by-Strict x (sort_by before xs)
        (sort_by-All before (λ y. (before x y ≡ true) ⊎ (before y x ≡ true)) xs p.0)
        (sort_by-Strict xs p.1)

  insert_in_front :
      (x : A) (ys : List A) → All (λ y. before x y ≡ true) ys → insert_by before x ys ≡ x ∷ ys
  unfolding insert_by
  insert_in_front x [] a = refl
  insert_in_front x (y ∷ ys) a = rw (asymm x y a.0)

  select-insert_by :
      (p : A → Bool) (x : A) (ys : List A)
      → Apart before x ys
      → Strict before ys
      → select p (insert_by before x ys)
        ≡ (if p x then insert_by before x (select p ys) else select p ys)
  unfolding select insert_by
  select-insert_by p x [] a s = ground arith
  select-insert_by p x (y ∷ ys) a s = ground (
    arith,
    select-insert_by p x ys a.1 s.1,
    insert_in_front x (select p ys),
    All-select (λ z. before x z ≡ true) p ys,
    before-All x y ys,
    s.0,
    a.0,
  )

  -- To sort what passes a test is to select from the sorted list.
  pub sort_by-select :
      (p : A → Bool) (xs : List A)
      → AllApart before xs
      → sort_by before (select p xs) ≡ select p (sort_by before xs)
  unfolding select sort_by
  sort_by-select p [] a = refl
  sort_by-select p (x ∷ xs) a = ground (
    arith,
    sort_by-select p xs a.1,
    select-insert_by p x (sort_by before xs)
        (sort_by-All before (λ y. (before x y ≡ true) ⊎ (before y x ≡ true)) xs a.0)
        (sort_by-Strict xs a.1),
  )

  select_back : (k : A) (zs : List A) → All (λ z. before k z ≡ true) zs → select (before k) zs ≡ zs
  unfolding select
  select_back k [] a = refl
  select_back k (z ∷ zs) a = rw a.0 (ap (◌∷◌ z) (select_back k zs a.1))

  irrefl : (k : A) → before k k ≡ false
  irrefl k = ground (arith, asymm k k)

  -- What follows an element of a list in strict order is what that element is before.
  pub select_after :
      (xs : List A) (k : A) (zs : List A)
      → Strict before (xs ++ k ∷ zs)
      → select (before k) (xs ++ k ∷ zs) ≡ zs
  unfolding select
  select_after [] k zs s = rw (irrefl k) (select_back k zs s.0)
  select_after (x ∷ xs) k zs s = rw (asymm x k (middle xs s.0)) (select_after xs k zs s.1)
    where
      middle : (xs : List A) → All (λ y. before x y ≡ true) (xs ++ k ∷ zs) → before x k ≡ true
      middle [] a = a.0
      middle (y ∷ ys) a = middle ys a.1

module _ {ℓ} {A : Type ℓ} (before : A → A → Bool) where
  pub select-AllApart :
      (p : A → Bool) (xs : List A) → AllApart before xs → AllApart before (select p xs)
  unfolding select
  select-AllApart p [] a = tt
  select-AllApart p (x ∷ xs) a = ground (
    arith,
    select-AllApart p xs a.1,
    All-select (λ y. (before x y ≡ true) ⊎ (before y x ≡ true)) p xs a.0,
  )

  pub Strict-take : (n : ℕ) (xs : List A) → Strict before xs → Strict before (take n xs)
  Strict-take zero xs s = tt
  Strict-take (suc n) [] s = tt
  Strict-take (suc n) (x ∷ xs) s =
      (All-take (λ y. before x y ≡ true) n xs s.0, Strict-take n xs s.1)
