-- ===== src/Retrieval/Examples.antt =====
-- internal/retrieval: a small search on which the theorems apply.
use pocket_advisor.Prelude.{
  ℕ, ◌≤◌, ◌≡◌, ◌⊎◌, true, List, [], ◌∷◌, map, Option, some, Bytes, bytes_Eq, ltb, length, select,
  All, contains, if◌then◌else◌,
}
use pocket_advisor.Retrieval.{Candidate}
use pocket_advisor.Retrieval.Pool.{PoolFloors, pool_candidates, is_full, is_seen, all_of}
use pocket_advisor.Retrieval.Pool.Laws.{Window, pool_candidates-Window, pool_candidates_covers}
use pocket_advisor.Retrieval.Selection.{Scored, select_packets}
use pocket_advisor.Retrieval.Selection.Laws.{Picked, select_packets-Picked}
use pocket_advisor.Retrieval.Selection.Coverage.{
  Answered, select_packets_answers, floored_count-select_packets,
}
use pocket_advisor.Retrieval.Packets.{Document, Neighbour, parent, sibling, build_packets}
use pocket_advisor.Retrieval.Packets.Counts.{packet_bytes, attached_count}
use pocket_advisor.Retrieval.Packets.Laws.{build_packets_budget, build_packets_once}

abbrev found : ℕ → ℕ → ℕ → Candidate ℕ
found n dense_rank lex_rank = record {
  chunk_id = n ∷ [];
  doc_id = n ∷ [];
  text = 5 ∷ [];
  start_byte = 0;
  end_byte = 1;
  dense_rank = dense_rank;
  lex_rank = lex_rank;
  rrf = n;
  sub_query = 0;
}

abbrev groups : List (List (Candidate ℕ))
groups = (found 1 1 0 ∷ found 2 2 1 ∷ []) ∷ (found 2 1 1 ∷ found 3 0 2 ∷ []) ∷ []

abbrev floors : PoolFloors
floors = record { per_sub_query = 1; dense_only = 1 }

pool_candidates-Window_example : Window 2 (pool_candidates ltb floors groups 2)
pool_candidates-Window_example = pool_candidates-Window ltb floors groups 2

pool_candidates_covers_example :
    (is_full 5 (pool_candidates ltb floors groups 5) ≡ true)
    ⊎ All (λ c. is_seen c (pool_candidates ltb floors groups 5) ≡ true) (all_of groups)
pool_candidates_covers_example = pool_candidates_covers ltb floors groups 5

-- Two passages with one text, and one below the floor.
abbrev ranked : List (Scored ℕ)
ranked =
    record { candidate = found 1 1 0; score = 9 }
    ∷ record { candidate = found 2 1 1; score = 8 }
    ∷ record { candidate = found 3 0 2; score = 1 }
    ∷ []

abbrev words : Bytes → List Bytes
words s = s ∷ []

select_packets-Picked_example : Picked ltb words 5 2 (select_packets ltb words 5 ranked 2)
select_packets-Picked_example = select_packets-Picked ltb words 5 ranked 2

select_packets_answers_example :
    All (Answered ltb words 5 2 (select_packets ltb words 5 ranked 2)) ranked
select_packets_answers_example = select_packets_answers ltb words 5 ranked 2

floored_count-select_packets_example :
    (select_packets ltb words 5 ranked 2).floored_count
    ≡ length (select (λ r. ltb r.score 5) ranked)
floored_count-select_packets_example = floored_count-select_packets ltb words 5 ranked 2

abbrev document : Bytes → Option Document
document d = some (record { doc_id = d; parent_id = 7 ∷ [] })

abbrev neighbours : List Neighbour
neighbours =
    record {
      document = record { doc_id = 7 ∷ []; parent_id = [] };
      relation = parent;
      text = 1 ∷ [];
    }
    ∷ record {
      document = record { doc_id = 8 ∷ []; parent_id = 7 ∷ [] };
      relation = sibling;
      text = 1 ∷ 2 ∷ [];
    }
    ∷ []

build_packets_budget_example :
    (packet_bytes (build_packets 4 document (λ d. 1 ∷ d) neighbours [] ranked).0
      ≡ (build_packets 4 document (λ d. 1 ∷ d) neighbours [] ranked).1.used)
    × (packet_bytes (build_packets 4 document (λ d. 1 ∷ d) neighbours [] ranked).0 ≤ 4)
build_packets_budget_example = build_packets_budget 4 document (λ d. 1 ∷ d) neighbours [] ranked

build_packets_once_example :
    attached_count (8 ∷ []) (build_packets 4 document (λ d. 1 ∷ d) neighbours [] ranked).0
    ≤ (if contains (map (λ p. p.candidate.doc_id) ranked) (8 ∷ []) then 0 else 1)
build_packets_once_example =
    build_packets_once 4 document (λ d. 1 ∷ d) neighbours [] ranked (8 ∷ [])
