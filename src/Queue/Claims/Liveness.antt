-- ===== src/Queue/Claims/Liveness.antt =====
-- internal/storage/postgres/jobs.go: how much a `Claim` takes, and that it takes some job.
use pocket_advisor.Prelude.{
  ℕ, min, ap, ◌-◌, ◌≤◌, ◌<◌, ◌≡◌, refl, ◌⊎◌, inl, inr, Bool, false, not, ◌&&◌, List, [], ◌∷◌, map,
  arith, Bytes, length, length-append, length-take, length-map, length-sort_by, sort_by, ltb,
  Bool-cases,
}
use pocket_advisor.Queue.{Row}
use pocket_advisor.Queue.Claims.{
  Statement, ready_work, expired_work, eligible, row_before, select_rows, selected, Session,
  Claimed, claim_statement, claim, claimed_job, claim_apply, ids, first_choice, second_choice,
}

length-selected_le :
    (s : Statement) (now : ℕ) (subject : Bytes) (limit : ℕ) (locked : Row → Bool) (rows : List Row)
    → length (selected s now subject limit locked rows) ≤ limit
unfolding selected
length-selected_le s now subject limit locked rows = omega (
  arith,
  length-take limit
      (sort_by (row_before s) (select_rows (λ r. eligible s now subject r && not (locked r)) rows)),
)

pub statement_le :
    (c : Session) (s : Statement) (subject : Bytes) (limit : ℕ) (rows : List Row)
    → length (claim_statement c s subject limit rows).jobs ≤ limit
unfolding claim_statement
statement_le c s subject limit rows = elim (Bool-cases (c.fails s)) [
  | inl e ↦ rw e (omega arith)
  | inr e ↦ rw e (
      omega (
        arith,
        length-map (claimed_job (c.now s) (c.started s))
            (selected s (c.now s) subject limit (c.locked s) rows),
        length-selected_le s (c.now s) subject limit (c.locked s) rows,
      ))
]

-- A claim never takes more jobs than its limit.
pub claim_le :
    (c : Session) (flip : ℕ) (subject : Bytes) (limit : ℕ) (rows : List Row)
    → length (claim c flip subject limit rows).jobs ≤ limit
unfolding claim
claim_le c flip subject limit rows = ground (
  arith,
  statement_le c expired_work subject 1 rows,
  statement_le c ready_work subject (limit - length several.jobs) several.rows,
  length-append several.jobs rest.jobs,
  statement_le c (first_choice flip) subject 1 rows,
  statement_le c (second_choice flip) subject 1 one.rows,
)
  where
    several : Claimed
    several = claim_statement c expired_work subject 1 rows

    rest : Claimed
    rest = claim_statement c ready_work subject (limit - length several.jobs) several.rows

    one : Claimed
    one = claim_statement c (first_choice flip) subject 1 rows

-- The rows that a statement could take.
abbrev pub candidates : Session → Statement → Bytes → List Row → List Row
candidates c s subject rows =
    select_rows (λ r. eligible s (c.now s) subject r && not (c.locked s r)) rows

pub length-statement :
    (c : Session) (s : Statement) (subject : Bytes) (limit : ℕ) (rows : List Row)
    → c.fails s ≡ false
    → length (claim_statement c s subject limit rows).jobs
      ≡ min limit (length (candidates c s subject rows))
unfolding claim_statement selected
length-statement c s subject limit rows h = rw h (
    omega (
      arith,
      length-map (claimed_job (c.now s) (c.started s))
          (selected s (c.now s) subject limit (c.locked s) rows),
      length-take limit (sort_by (row_before s) (candidates c s subject rows)),
      length-sort_by (row_before s) (candidates c s subject rows),
    ))

map_unclaimed :
    (now : ℕ) (owner : Bytes) (rows : List Row) → map (claim_apply now owner []) rows ≡ rows
unfolding claim_apply
map_unclaimed now owner [] = refl
map_unclaimed now owner (r ∷ rows) = ap (◌∷◌ r) (map_unclaimed now owner rows)

rows-of_none :
    (c : Session) (s : Statement) (rows chosen : List Row)
    → length (map (claimed_job (c.now s) (c.started s)) chosen) ≡ 0
    → map (claim_apply (c.now s) c.owner (ids chosen)) rows ≡ rows
rows-of_none c s rows [] h = map_unclaimed (c.now s) c.owner rows
rows-of_none c s rows (r ∷ chosen) h = absurd (omega arith)

-- A statement that takes nothing leaves the table as it was.
statement_empty :
    (c : Session) (s : Statement) (subject : Bytes) (limit : ℕ) (rows : List Row)
    → length (claim_statement c s subject limit rows).jobs ≡ 0
    → (claim_statement c s subject limit rows).rows ≡ rows
unfolding claim_statement
statement_empty c s subject limit rows h = elim (Bool-cases (c.fails s)) [
  | inl e ↦ rw e
  | inr e ↦
      rw e
        (rows-of_none c s rows (selected s (c.now s) subject limit (c.locked s) rows) (rw e at h))
]

statement_takes :
    (c : Session) (s : Statement) (subject : Bytes) (limit : ℕ) (rows : List Row)
    → c.fails s ≡ false
    → 0 < limit
    → 0 < length (candidates c s subject rows)
    → 0 < length (claim_statement c s subject limit rows).jobs
statement_takes c s subject limit rows f h k =
    omega (arith, length-statement c s subject limit rows f)

pub statement_ok :
    (c : Session) (s : Statement) (subject : Bytes) (limit : ℕ) (rows : List Row)
    → c.fails s ≡ false
    → (claim_statement c s subject limit rows).failed ≡ false
unfolding claim_statement
statement_ok c s subject limit rows f = rw f

-- A statement takes what the one before it, which took nothing, left.
statement_takes_after :
    (c : Session) (s t : Statement) (subject : Bytes) (limit n : ℕ) (rows : List Row)
    → c.fails s ≡ false
    → 0 < limit
    → 0 < length (candidates c s subject rows)
    → length (claim_statement c t subject n rows).jobs ≡ 0
    → 0 < length (claim_statement c s subject limit (claim_statement c t subject n rows).rows).jobs
statement_takes_after c s t subject limit n rows f h k e =
    rw (statement_empty c t subject n rows e) (statement_takes c s subject limit rows f h k)

several_takes :
    (c : Session) (flip : ℕ) (subject : Bytes) (limit : ℕ) (rows : List Row) (s : Statement)
    → ((t : Statement) → c.fails t ≡ false)
    → 1 < limit
    → 0 < length (candidates c s subject rows)
    → 0 < length (claim c flip subject limit rows).jobs
unfolding claim
several_takes c flip subject limit rows expired_work ok h k = ground (
  arith,
  statement_takes c expired_work subject 1 rows (ok expired_work) (omega arith) k,
  statement_ok c expired_work subject 1 rows (ok expired_work),
  length-append several.jobs rest.jobs,
)
  where
    several : Claimed
    several = claim_statement c expired_work subject 1 rows

    rest : Claimed
    rest = claim_statement c ready_work subject (limit - length several.jobs) several.rows
several_takes c flip subject limit rows ready_work ok h k = ground (
  arith,
  statement_takes_after c ready_work expired_work subject (limit - length several.jobs) 1 rows
      (ok ready_work) (omega (arith, statement_le c expired_work subject 1 rows)) k,
  statement_ok c expired_work subject 1 rows (ok expired_work),
  length-append several.jobs rest.jobs,
)
  where
    several : Claimed
    several = claim_statement c expired_work subject 1 rows

    rest : Claimed
    rest = claim_statement c ready_work subject (limit - length several.jobs) several.rows

one_takes :
    (c : Session) (flip : ℕ) (subject : Bytes) (rows : List Row) (s t : Statement)
    → ((t : Statement) → c.fails t ≡ false)
    → first_choice flip ≡ t
    → (s ≡ t) ⊎ (second_choice flip ≡ s)
    → 0 < length (candidates c s subject rows)
    → 0 < length (claim c flip subject 1 rows).jobs
unfolding claim
one_takes c flip subject rows s t ok first which k = ground (
  arith,
  statement_ok c t subject 1 rows (ok t),
  statement_takes c s subject 1 rows (ok s) (omega arith) k,
  statement_takes_after c s t subject 1 1 rows (ok s) (omega arith) k,
)

choices : (flip : ℕ) (s : Statement) → (s ≡ first_choice flip) ⊎ (second_choice flip ≡ s)
choices flip ready_work = ground arith
choices flip expired_work = ground arith

-- While no statement fails, a claim with a reservation takes a job whenever a row of either state
-- could be taken.
pub claim_takes :
    (c : Session) (flip : ℕ) (subject : Bytes) (limit : ℕ) (rows : List Row) (s : Statement)
    → ((t : Statement) → c.fails t ≡ false)
    → 0 < limit
    → 0 < length (candidates c s subject rows)
    → 0 < length (claim c flip subject limit rows).jobs
claim_takes c flip subject limit rows s ok h k = elim (Bool-cases (ltb 1 limit)) [
  | inl many ↦ several_takes c flip subject limit rows s ok (ground arith) k
  | inr few ↦
      let single : limit ≡ 1 = ground arith in
      rw single (one_takes c flip subject rows s (first_choice flip) ok refl (choices flip s) k)
]
