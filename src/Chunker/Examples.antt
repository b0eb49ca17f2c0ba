-- ===== src/Chunker/Examples.antt =====
-- Chunks of a short text with small windows, and batches with whole numbers for floating-point ones.
use pocket_advisor.Prelude.{
  ℕ, ◌+◌, ◌/◌, ◌≡◌, refl, min, max, arith, List, [], ◌∷◌, Bytes, bytes, ltb,
}
use pocket_advisor.Prelude.Runes.{is_pair, is_triple, is_quad}
use pocket_advisor.Chunker.Split.{Chunk, split_with, split, windows}
use pocket_advisor.Chunker.Tiling.{Tiles, windows-Tiles}
use pocket_advisor.Chunker.Texts.{Faithful, split_with-Faithful}
use pocket_advisor.Chunker.Batches.{Floats, Batcher, Batched, batches, batches-Batched}

abbrev sample : Bytes
sample = bytes " one two.\nthree four "

split_sample :
    split_with 8 2 sample
    ≡ record { index = 0; start = 1; stop = 9; text = bytes "one two." }
      ∷ record { index = 1; start = 7; stop = 15; text = bytes "o.\nthree" }
      ∷ record { index = 2; start = 13; stop = 20; text = bytes "ee four" }
      ∷ []
unfolding split_with is_pair is_triple is_quad
split_sample = refl

short_text :
    split (bytes "a b ") ≡ record { index = 0; start = 0; stop = 3; text = bytes "a b" } ∷ []
unfolding split is_pair is_triple
short_text = refl

no_text : split (bytes " \n") ≡ []
unfolding split
no_text = refl

split_with-Faithful_example : Faithful sample 0 (split_with 8 2 sample)
split_with-Faithful_example = split_with-Faithful 8 2 sample (omega arith)

windows-Tiles_example : Tiles 21 0 (windows 8 2 21 sample 0)
windows-Tiles_example = windows-Tiles 8 2 21 sample 0 (omega arith) (omega arith) (omega arith)

abbrev whole_numbers : Floats ℕ
whole_numbers = record {
  of_nat = λ n. n;
  add = λ a b. a + b;
  div = λ a b. a / max b 1;
  exceeds = λ a b. ltb b a;
  at_least = max;
  at_most = min;
  densest = 1;
  half = 1;
}

abbrev three_chunks : List Chunk
three_chunks =
    record { index = 0; start = 0; stop = 2; text = bytes "ab" }
    ∷ record { index = 1; start = 2; stop = 4; text = bytes "cd" }
    ∷ record { index = 2; start = 4; stop = 5; text = bytes "e" }
    ∷ []

abbrev batcher : Batcher ℕ
batcher = record { chunks = three_chunks; next = 0; ratio = 1 }

batches-Batched_example :
    Batched whole_numbers three_chunks (batches whole_numbers (λ k. k) 4 0 batcher)
batches-Batched_example = batches-Batched whole_numbers (λ k. k) 4 0 batcher (omega arith)
