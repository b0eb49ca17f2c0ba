-- ===== src/Worker/Cache.antt =====
-- internal/worker/vector_cache.go: the bounded, least recently used cache of embedding vectors.
-- A list element is named by the entry that it holds: an entry never changes once it is pushed, so
-- the map from a key to its element is a map from the key to that entry. The mutex makes each
-- method one step. SHA-256 is the standard library's, and enters as an argument.
pub mod Evict
pub mod Invariant
pub mod Recency
pub mod Refinement
pub mod Examples
use pocket_advisor.Prelude.{
  ℕ, zero, suc, ◌+◌, ◌-◌, ◌*◌, ◌≡◌, ◌↔◌, Bool, true, false, ◌&&◌, List, [], ◌∷◌, Option, none, some,
  arith, Eq, ltb, if◌then◌else◌, Bytes, bytes_eq, bytes_eq_iff, length,
}

pub record VectorKey : Type 0 where
  pub model : Bytes
  pub text : Bytes

pub key_beq : VectorKey → VectorKey → Bool
key_beq a b = bytes_eq a.model b.model && bytes_eq a.text b.text

pub key_beq_iff : (a b : VectorKey) → (key_beq a b ≡ true) ↔ (a ≡ b)
unfolding key_beq
key_beq_iff a b = ground (arith, bytes_eq_iff a.model b.model, bytes_eq_iff a.text b.text)

instance abbrev pub vector_key_Eq : Eq VectorKey
vector_key_Eq = record { beq = key_beq; beq_iff = key_beq_iff }

pub record VectorEntry (F : Type 0) : Type 0 where
  pub key : VectorKey
  pub vector : List F

pub record VectorCache (F : Type 0) : Type 0 where
  pub max_bytes : ℕ
  pub size : ℕ
  pub entries : List (VectorKey × VectorEntry F)
  pub order : List (VectorEntry F)  -- the front first

pub key_of : (Bytes → Bytes) → Bytes → Bytes → VectorKey
key_of sha256 model text = record { model = model; text = sha256 text }

module _ {F : Type 0} where
  -- `m[k]` of a Go map.
  pub lookup : VectorKey → List (VectorKey × VectorEntry F) → Option (VectorEntry F)
  lookup k [] = none
  lookup k ((j, v) ∷ m) = if key_beq j k then some v else lookup k m

  -- `delete(m, k)`.
  pub delete : VectorKey → List (VectorKey × VectorEntry F) → List (VectorKey × VectorEntry F)
  delete k [] = []
  delete k ((j, v) ∷ m) = if key_beq j k then delete k m else (j, v) ∷ delete k m

  -- The list without the element of a key.
  pub remove : VectorKey → List (VectorEntry F) → List (VectorEntry F)
  remove k [] = []
  remove k (v ∷ vs) = if key_beq v.key k then vs else v ∷ remove k vs

  -- `order.Back()`, with what stands before it.
  pub split_last : List (VectorEntry F) → Option (List (VectorEntry F) × VectorEntry F)
  split_last [] = none
  split_last (v ∷ []) = some ([], v)
  split_last (v ∷ w ∷ vs) = elim (split_last (w ∷ vs)) [
    | none ↦ some ([], v)
    | some (front, back) ↦ some (v ∷ front, back)
  ]

  pub weight : VectorEntry F → ℕ
  weight v = 4 * length v.vector

  pub new_vector_cache : ℕ → VectorCache F
  new_vector_cache n = record { max_bytes = n; size = 0; entries = []; order = [] }

  -- The loop that evicts the oldest entries beyond the bound.
  pub evict : ℕ → VectorCache F → VectorCache F
  evict zero c = c
  evict (suc fuel) c = elim (ltb c.max_bytes c.size) [
    | false ↦ c
    | true ↦ elim (split_last c.order) [
      | none ↦ c
      | some (front, v) ↦
          evict fuel
            (record c { order = front; entries = delete v.key c.entries; size = c.size - weight v })
    ]
  ]

  pub get : VectorKey → VectorCache F → VectorCache F × Option (List F)
  get k c = elim (lookup k c.entries) [
    | none ↦ (c, none)
    | some v ↦ (record c { order = v ∷ remove k c.order }, some v.vector)
  ]

  -- The loop ends after one round for each element of the order, the new one among them, so the
  -- fuel is enough.
  pub put : VectorKey → List F → VectorCache F → VectorCache F
  put k vector c = elim (lookup k c.entries) [
    | some v ↦ record c { order = v ∷ remove k c.order }
    | none ↦
        let v : VectorEntry F = record { key = k; vector = vector } in
        evict (suc (suc (length c.order)))
          (record c { order = v ∷ c.order; entries = (k, v) ∷ c.entries; size = c.size + weight v })
  ]

  -- `Get` and `Put` on a pointer that may be nil.
  pub get_text :
      (Bytes → Bytes)
      → Bytes
      → Bytes
      → Option (VectorCache F)
      → Option (VectorCache F) × Option (List F)
  get_text sha256 model text none = (none, none)
  get_text sha256 model text (some c) =
      let (c', found) = get (key_of sha256 model text) c in (some c', found)

  pub put_text :
      (Bytes → Bytes) → Bytes → Bytes → List F → Option (VectorCache F) → Option (VectorCache F)
  put_text sha256 model text vector none = none
  put_text sha256 model text vector (some c) = some (put (key_of sha256 model text) vector c)
