-- ===== src/Chunker/Slices.antt =====
-- Slices of a text, and of its slices.
use pocket_advisor.Prelude.{
  ℕ, zero, suc, ◌+◌, ◌-◌, ◌≤◌, ◌≡◌, refl, ap, sym, ◌∙◌, List, [], ◌∷◌, arith, Bytes, length, take,
  drop, length-drop, length-take,
}
use mathlib.Core.List.{reverse}
use pocket_advisor.Prelude.Runes.{
  spaces_from, space_size, last_space_size, trim_left, trim_right, trim,
}
use pocket_advisor.Chunker.Split.{slice}

take_eq {ℓ} : {A : Type ℓ} (m n : ℕ) (s : List A) → m ≡ n → take m s ≡ take n s
take_eq m n s e = ap (λ k. take k s) e

drop_eq {ℓ} : {A : Type ℓ} (m n : ℕ) (s : List A) → m ≡ n → drop m s ≡ drop n s
drop_eq m n s e = ap (λ k. drop k s) e

drop-nil {ℓ} : {A : Type ℓ} (n : ℕ) → drop {A = A} n [] ≡ []
drop-nil zero = refl
drop-nil (suc n) = refl

pub drop-drop {ℓ} : {A : Type ℓ} (m n : ℕ) (s : List A) → drop m (drop n s) ≡ drop (n + m) s
drop-drop m zero s = drop_eq m (0 + m) s (omega arith)
drop-drop m (suc n) [] = drop-nil m ∙ sym (drop-nil (suc n + m))
drop-drop m (suc n) (b ∷ s) =
    drop-drop m n s ∙ drop_eq (suc (n + m)) (suc n + m) (b ∷ s) (omega arith)

take-take : (m n : ℕ) (s : Bytes) → m ≤ n → take m (take n s) ≡ take m s
take-take zero n s h = refl
take-take (suc m) zero s h = absurd (omega arith)
take-take (suc m) (suc n) [] h = refl
take-take (suc m) (suc n) (b ∷ s) h = ap (◌∷◌ b) (take-take m n s (omega arith))

take-nil : (n : ℕ) → take {A = ℕ} n [] ≡ []
take-nil zero = refl
take-nil (suc n) = refl

pub drop-take : (m n : ℕ) (s : Bytes) → drop m (take n s) ≡ take (n - m) (drop m s)
drop-take zero n s = take_eq n (n - 0) s (omega arith)
drop-take (suc m) zero s = sym (take_eq (0 - suc m) 0 (drop (suc m) s) (omega arith))
drop-take (suc m) (suc n) [] = sym (take-nil (suc n - suc m))
drop-take (suc m) (suc n) (b ∷ s) =
    drop-take m n s ∙ take_eq (n - m) (suc n - suc m) (drop m s) (omega arith)

-- A slice of a slice is a slice of the whole.
pub slice-slice :
    (s : Bytes) (a b c d : ℕ)
    → c ≤ d
    → a + d ≤ b
    → slice (slice s a b) c d ≡ slice s (a + c) (a + d)
slice-slice s a b c d h k =
    ap (take (d - c)) (drop-take c (b - a) (drop a s))
    ∙ (take-take (d - c) (b - a - c) (drop c (drop a s)) (omega arith)
        ∙ (ap (take (d - c)) (drop-drop c a s)
            ∙ take_eq (d - c) (a + d - (a + c)) (drop (a + c) s) (omega arith)))

spaces_from_le :
    (size : Bytes → ℕ) (fuel : ℕ) (s : Bytes)
    → ((t : Bytes) → size t ≤ length t)
    → spaces_from size fuel s ≤ length s
unfolding spaces_from
spaces_from_le size zero s h = omega arith
spaces_from_le size (suc fuel) s h =
    ground (arith, spaces_from_le size fuel (drop (size s) s) h, h s, length-drop (size s) s)

space_size_le : (s : Bytes) → space_size s ≤ length s
unfolding space_size
space_size_le [] = omega arith
space_size_le (a ∷ []) = ground arith
space_size_le (a ∷ b ∷ []) = ground arith
space_size_le (a ∷ b ∷ c ∷ s) = ground arith

-- Trimming on the left drops a part, and trimming on the right keeps one.
trim_left-drop : (s : Bytes) → trim_left s ≡ drop (length s - length (trim_left s)) s
unfolding trim_left
trim_left-drop s =
    drop_eq (spaces_from space_size (length s) s)
      (length s - length (drop (spaces_from space_size (length s) s) s)) s
      (omega (
        arith,
        length-drop (spaces_from space_size (length s) s) s,
        spaces_from_le space_size (length s) s space_size_le,
      ))

trim_right-take : (s : Bytes) → trim_right s ≡ take (length (trim_right s)) s
unfolding trim_right
trim_right-take s =
    take_eq (length s - spaces_from last_space_size (length s) (reverse s))
      (length (take (length s - spaces_from last_space_size (length s) (reverse s)) s)) s
      (omega (arith, length-take (length s - spaces_from last_space_size (length s) (reverse s)) s))

trim_right_le : (s : Bytes) → length (trim_right s) ≤ length s
unfolding trim_right
trim_right_le s =
    omega (arith, length-take (length s - spaces_from last_space_size (length s) (reverse s)) s)

trim_left_le : (s : Bytes) → length (trim_left s) ≤ length s
unfolding trim_left
trim_left_le s = omega (arith, length-drop (spaces_from space_size (length s) s) s)

-- A trimmed text is a slice, from the first byte that is kept on.
pub trim-slice :
    (s : Bytes)
    → (trim s
        ≡ slice s
            (length s - length (trim_left s))
            (length s - length (trim_left s) + length (trim s)))
      × (length s - length (trim_left s) + length (trim s) ≤ length s)
unfolding trim
trim-slice s = (
  trim_right-take (trim_left s)
      ∙ (ap (take (length (trim_right (trim_left s)))) (trim_left-drop s)
          ∙ take_eq (length (trim_right (trim_left s)))
              (length s
                - length (trim_left s)
                + length (trim_right (trim_left s))
                - (length s - length (trim_left s)))
              (drop (length s - length (trim_left s)) s) (omega arith)),
  omega (arith, trim_right_le (trim_left s), trim_left_le s),
)
