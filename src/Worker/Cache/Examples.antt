-- ===== src/Worker/Cache/Examples.antt =====
-- internal/worker/vector_cache.go: small caches on which the theorems apply.
use pocket_advisor.Prelude.{ℕ, ◌≡◌, refl, List, [], ◌∷◌, some, arith}
use pocket_advisor.Worker.Cache.{
  VectorKey, VectorCache, new_vector_cache, get, put, evict, key_beq, lookup, weight,
}
use pocket_advisor.Worker.Cache.Evict.{Evicted, evict-Evicted, find, total}
use pocket_advisor.Worker.Cache.Invariant.{Inv, Call, gets, puts, run, run-Inv, entry}
use pocket_advisor.Worker.Cache.Refinement.{answers, listed_answers, answers-refine}
use pocket_advisor.Worker.Cache.Recency.{stored, vector_of, order-put, get-eq-find, get-put}

abbrev first_key : VectorKey
first_key = record { model = 1 ∷ []; text = 2 ∷ [] }

abbrev second_key : VectorKey
second_key = record { model = 1 ∷ []; text = 3 ∷ [] }

abbrev numbers : List ℕ
numbers = 5 ∷ 6 ∷ []

-- Room for three numbers.
abbrev calls : List (Call ℕ)
calls = puts first_key numbers ∷ puts second_key numbers ∷ gets first_key ∷ []

abbrev used : VectorCache ℕ
used = run (new_vector_cache 12) (puts first_key numbers ∷ [])

run-Inv_example : Inv (run (new_vector_cache 12) calls)
run-Inv_example = run-Inv 12 calls

used-Inv : Inv used
used-Inv = run-Inv 12 (puts first_key numbers ∷ [])

order-put_example :
    (put second_key numbers used).order
    ≡ stored used.max_bytes second_key numbers used.order (find second_key used.order)
order-put_example = order-put second_key numbers used used-Inv

get-eq-find_example : (get first_key used).1 ≡ vector_of (find first_key used.order)
get-eq-find_example = get-eq-find first_key used used-Inv

get-put_example : (get second_key (put second_key numbers used)).1 ≡ some numbers
unfolding run put get evict new_vector_cache weight lookup find key_beq
get-put_example = get-put second_key numbers used used-Inv refl (omega arith)

answers-refine_example : answers (new_vector_cache 12) calls ≡ listed_answers 12 [] calls
answers-refine_example = answers-refine 12 calls

-- A cache that holds more than its bound.
abbrev over : VectorCache ℕ
over = record {
  max_bytes = 4;
  size = 8;
  entries = (first_key, entry first_key numbers) ∷ [];
  order = entry first_key numbers ∷ [];
}

evict-Evicted_example : Evicted over (evict 2 over)
unfolding find lookup total weight
evict-Evicted_example =
    evict-Evicted 2 over (record { same = λ k. refl; unique = (refl, tt); counted = refl })
      (omega arith)
