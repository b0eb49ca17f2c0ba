-- ===== src/Chunker/Batches.antt =====
-- internal/engine/embed/chunker.go: `Batcher`, which hands the chunks out as requests. Floating-point
-- numbers and what is done with them are an argument: they decide where a batch ends.
use pocket_advisor.Prelude.{
  ℕ, zero, suc, ◌+◌, ◌≤◌, ◌<◌, ◌≡◌, refl, ap, subst, sym, ◌∙◌, inl, inr, Bool, ◌&&◌, ◌||◌, List, [],
  ◌∷◌, ◌++◌, arith, leb, ltb, ◌==◌, if◌then◌else◌, All, Bool-cases, length, take, drop, length-drop,
  length-take, take-append-drop,
}
use pocket_advisor.Prelude.Runes.{rune_count}
use pocket_advisor.Chunker.Split.{Chunk}
use pocket_advisor.Chunker.Slices.{drop-drop}

pub record Floats (F : Type 0) : Type 0 where
  pub of_nat : ℕ → F
  pub add : F → F → F
  pub div : F → F → F
  pub exceeds : F → F → Bool
  pub at_least : F → F → F  -- `max`
  pub at_most : F → F → F  -- `min`
  pub densest : F  -- 1.3
  pub half : F  -- 0.5

abbrev pub max_batch_chunks : ℕ
max_batch_chunks = 64

abbrev pub max_batch_tokens : ℕ
max_batch_tokens = 16_000

abbrev pub chars_per_token : ℕ
chars_per_token = 4

pub record Batcher (F : Type 0) : Type 0 where
  pub chunks : List Chunk
  pub next : ℕ
  pub ratio : F

module _ {F : Type 0} (f : Floats F) where
  unfoldable pub new_batcher : List Chunk → Batcher F
  new_batcher chunks = record { chunks = chunks; next = 0; ratio = f.densest }

  -- The loop of `Next`: how many of the chunks that are left join a batch of `n` chunks.
  unfoldable pub grow : F → ℕ → F → List Chunk → ℕ
  grow ratio n tokens [] = 0
  grow ratio n tokens (c ∷ cs) =
      let t = f.add tokens (f.div (f.of_nat (rune_count c.text)) ratio) in
      let rest = grow ratio (suc n) t cs in
      if ltb 0 n && (leb max_batch_chunks n || f.exceeds t (f.of_nat max_batch_tokens))
      then 0
      else suc rest

  -- `Next`: an empty batch is none.
  unfoldable pub next_batch : Batcher F → List Chunk × Batcher F
  unfolding grow
  next_batch b =
      let n = grow b.ratio 0 (f.of_nat 0) (drop b.next b.chunks) in
      (take n (drop b.next b.chunks), record b { next = b.next + n })

  unfoldable pub batch_chars : List Chunk → ℕ
  batch_chars [] = 0
  batch_chars (c ∷ cs) = rune_count c.text + batch_chars cs

  unfoldable pub observe : List Chunk → ℕ → Batcher F → Batcher F
  unfolding batch_chars
  observe batch tokens b = if tokens == 0 then b else record b {
    ratio =
        f.at_most (f.at_least (f.div (f.of_nat (batch_chars batch)) (f.of_nat tokens)) f.half)
          (f.of_nat chars_per_token);
  }

  -- The batches until `Next` gives none, the endpoint counting `counted k` tokens for the `k`-th.
  unfoldable pub batches : (ℕ → ℕ) → ℕ → ℕ → Batcher F → List (List Chunk)
  unfolding next_batch observe
  batches counted zero k b = []
  batches counted (suc fuel) k b =
      let (batch, b') = next_batch b in
      let rest = batches counted fuel (suc k) (observe batch (counted k) b') in
      if length batch == 0 then [] else batch ∷ rest

unfoldable pub joined : List (List Chunk) → List Chunk
joined [] = []
joined (b ∷ bs) = b ++ joined bs

module _ {F : Type 0} (f : Floats F) where
  grow_bounds :
      (ratio : F) (n : ℕ) (tokens : F) (cs : List Chunk)
      → n ≤ max_batch_chunks
      → (grow f ratio n tokens cs ≤ length cs) × (n + grow f ratio n tokens cs ≤ max_batch_chunks)
  unfolding grow
  grow_bounds ratio n tokens [] h = (omega arith, omega arith)
  grow_bounds ratio n tokens (c ∷ cs) h = ground (
    arith,
    grow_bounds ratio (suc n) (f.add tokens (f.div (f.of_nat (rune_count c.text)) ratio)) cs,
  )

  grow_starts :
      (ratio : F) (tokens : F) (cs : List Chunk) → grow f ratio 0 tokens cs ≡ 0 → length cs ≡ 0
  unfolding grow
  grow_starts ratio tokens [] h = refl
  grow_starts ratio tokens (c ∷ cs) h = ground arith

  -- The batches make up the chunks in their order, each with a chunk and no more than 64.
  abbrev pub Batched : List Chunk → List (List Chunk) → Type 0
  Batched rest bs =
      (joined bs ≡ rest) × All (λ b. (0 < length b) × (length b ≤ max_batch_chunks)) bs

  none_left : (cs : List Chunk) → length cs ≡ 0 → Batched cs []
  unfolding joined
  none_left [] h = (refl, tt)
  none_left (c ∷ cs) h = absurd (omega arith)

  batches_step :
      (b : Batcher F) (bs : List (List Chunk)) (n : ℕ)
      → 0 < n
      → n ≤ max_batch_chunks
      → n ≤ length (drop b.next b.chunks)
      → Batched (drop (b.next + n) b.chunks) bs
      → Batched (drop b.next b.chunks) (take n (drop b.next b.chunks) ∷ bs)
  unfolding joined
  batches_step b bs n h k l (whole, sizes) = (
    ap (λ rest. take n (drop b.next b.chunks) ++ rest) (whole ∙ sym (drop-drop n b.next b.chunks))
        ∙ take-append-drop n (drop b.next b.chunks),
    (
      (
        omega (arith, length-take n (drop b.next b.chunks)),
        omega (arith, length-take n (drop b.next b.chunks)),
      ),
      sizes,
    ),
  )

  observe_keeps :
      (batch : List Chunk) (tokens : ℕ) (b : Batcher F)
      → ((observe f batch tokens b).next ≡ b.next) × ((observe f batch tokens b).chunks ≡ b.chunks)
  unfolding observe
  observe_keeps batch tokens b = ground arith

  -- With fuel for one request more than there are chunks left, the requests of a document are its
  -- chunks that are left, in order and each once, and each has between 1 and 64 of them, whatever
  -- the endpoint counts and however floating-point numbers compare.
  pub batches-Batched :
      (counted : ℕ → ℕ) (fuel k : ℕ) (b : Batcher F)
      → length b.chunks < b.next + fuel
      → Batched (drop b.next b.chunks) (batches f counted fuel k b)
  unfolding batches next_batch
  batches-Batched counted zero k b h =
      none_left (drop b.next b.chunks) (omega (arith, length-drop b.next b.chunks))
  batches-Batched counted (suc fuel) k b h =
      let n = grow f b.ratio 0 (f.of_nat 0) (drop b.next b.chunks) in
      let (within, few) = grow_bounds b.ratio 0 (f.of_nat 0) (drop b.next b.chunks) (omega arith) in
      let size : length (take n (drop b.next b.chunks)) ≡ n =
        omega (arith, length-take n (drop b.next b.chunks), within) in
      let taken : Batcher F = record b { next = b.next + n } in
      let (same_next, same_chunks) =
        observe_keeps (take n (drop b.next b.chunks)) (counted k) taken in
      elim (Bool-cases (length (take n (drop b.next b.chunks)) == 0)) [
        | inl done ↦
            rw (batches, done)
              (none_left (drop b.next b.chunks)
                (grow_starts b.ratio (f.of_nat 0) (drop b.next b.chunks) (ground arith)))
        | inr more ↦
            let some_chunks : 0 < n = ground arith in
            rw (batches, more)
              (batches_step b _ n some_chunks (omega (arith, few)) within (
                subst
                  (λ i. Batched (drop i b.chunks) (
                    batches f counted fuel (suc k)
                      (observe f (take n (drop b.next b.chunks)) (counted k) taken)))
                  same_next
                  (subst
                    (λ cs.
                      Batched
                        (drop (observe f (take n (drop b.next b.chunks)) (counted k) taken).next cs)
                        (batches f counted fuel (suc k)
                          (observe f (take n (drop b.next b.chunks)) (counted k) taken)))
                    same_chunks
                    (batches-Batched counted fuel (suc k) _ (
                      omega
                        (arith, same_next, ap (length {A = Chunk}) same_chunks, some_chunks, h))))))
      ]
