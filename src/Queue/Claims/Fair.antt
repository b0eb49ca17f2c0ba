-- ===== src/Queue/Claims/Fair.antt =====
-- internal/storage/postgres/jobs.go: two calls of `Claim` for one subject, one after the other.
use pocket_advisor.Prelude.{
  ℕ, suc, sym, subst, ◌-◌, ◌<◌, ◌≡◌, refl, ◌⊎◌, inl, inr, true, false, not, ◌||◌, List, [], ◌∷◌,
  ◌++◌, arith, Bytes, length, Distinct, bytes_Eq, ltb, Bool-cases,
}
use mathlib.Core.List.Memᴰ
use pocket_advisor.Queue.{Row, Job}
use pocket_advisor.Queue.Claims.{
  Statement, ready_work, expired_work, Session, Claimed, claim_statement, claim, ids, first_choice,
  is_empty,
}
use pocket_advisor.Queue.Claims.Liveness.{candidates, statement_ok, statement_le}
use pocket_advisor.Queue.Claims.Served.{Served, statement-Served, still_ready, behind_first}

Served-left :
    (c : Session) (s : Statement) (subject : Bytes) (rows : List Row) (a b : List Job)
    → Served c s subject rows a
    → Served c s subject rows (a ++ b)
Served-left c s subject rows a b (r, member, able, there) =
    (r, member, able, Memᴰ.append_left b there)

Served-right :
    (c : Session) (s : Statement) (subject : Bytes) (rows : List Row) (a b : List Job)
    → Served c s subject rows b
    → Served c s subject rows (a ++ b)
Served-right c s subject rows a b (r, member, able, there) =
    (r, member, able, Memᴰ.append_right a there)

some_job :
    (c : Session) (s : Statement) (subject : Bytes) (rows : List Row) (jobs : List Job)
    → Served c s subject rows jobs
    → is_empty jobs ≡ false
some_job c s subject rows [] (r, member, able, there) = elim there [ ]
some_job c s subject rows (j ∷ jobs) served = refl

module _ (c : Session) (flip : ℕ) (subject : Bytes) (rows : List Row)
    (works : (t : Statement) → c.fails t ≡ false) where
  many_jobs :
      (limit : ℕ)
      → 1 < limit
      → (claim c flip subject limit rows).jobs
        ≡ (claim_statement c expired_work subject 1 rows).jobs
          ++ (claim_statement c ready_work subject
              (limit - length (claim_statement c expired_work subject 1 rows).jobs)
              (claim_statement c expired_work subject 1 rows).rows).jobs
  unfolding claim
  many_jobs limit h =
      let some_left : ltb limit 1 ≡ false = ground arith in
      let several : ltb 1 limit ≡ true = ground arith in
      rw
        (claim, some_left, several, statement_ok c expired_work subject 1 rows (works expired_work))
        refl

  -- A claim with several reservations serves both states.
  many-Served :
      (limit : ℕ) (s : Statement)
      → 1 < limit
      → Distinct (ids rows)
      → 0 < length (candidates c s subject rows)
      → Served c s subject rows (claim c flip subject limit rows).jobs
  many-Served limit expired_work h d k = rw (many_jobs limit h) (
      Served-left c expired_work subject rows _ _
        (statement-Served c expired_work subject 1 rows (works expired_work) (omega arith) k))
  many-Served limit ready_work h d k =
      let first = claim_statement c expired_work subject 1 rows in
      let room = statement_le c expired_work subject 1 rows in
      rw (many_jobs limit h) (
        Served-right c ready_work subject rows _ _ (
          behind_first c subject 1 rows (works expired_work) _ (
            statement-Served c ready_work subject (limit - length first.jobs) first.rows
              (works ready_work) (omega (arith, room, h))
              (still_ready c subject 1 rows (works expired_work) d k))))

  abbrev one : ℕ → Claimed
  one flip = claim_statement c (first_choice flip) subject 1 rows

  single_jobs :
      is_empty (one flip).jobs ≡ false → (claim c flip subject 1 rows).jobs ≡ (one flip).jobs
  unfolding claim
  single_jobs found =
      let taken : ((one flip).failed || not (is_empty (one flip).jobs)) ≡ true = ground arith in
      rw (claim, taken) refl

  -- A claim with one reservation serves the state whose turn it is.
  single-Served :
      (s : Statement)
      → first_choice flip ≡ s
      → 0 < length (candidates c s subject rows)
      → Served c s subject rows (claim c flip subject 1 rows).jobs
  single-Served s first k =
      let served = statement-Served c s subject 1 rows (works s) (omega arith) k in
      let mine : Served c s subject rows (one flip).jobs =
        subst (λ t. Served c s subject rows (claim_statement c t subject 1 rows).jobs) (sym first)
          served in
      let found = some_job c s subject rows (one flip).jobs mine in
      subst (Served c s subject rows) (sym (single_jobs found)) mine

turn : (flip : ℕ) (s : Statement) → (first_choice flip ≡ s) ⊎ (first_choice (suc flip) ≡ s)
turn flip ready_work = ground arith
turn flip expired_work = ground arith

-- Of two claims for one subject whose counters follow each other, one takes a row that the
-- statement of a given state could take, whichever of the two states that is, as long as both
-- claims meet such a row: so neither state starves the other. No statement fails, each claim has a
-- reservation, and the job identifiers of a table are distinct. The two claims may run on different
-- tables, with any rows of the other state.
pub claim_fair :
    (c c' : Session) (flip : ℕ) (subject : Bytes) (limit limit' : ℕ) (rows rows' : List Row)
    (s : Statement)
    → ((t : Statement) → c.fails t ≡ false)
    → ((t : Statement) → c'.fails t ≡ false)
    → 0 < limit
    → 0 < limit'
    → Distinct (ids rows)
    → Distinct (ids rows')
    → 0 < length (candidates c s subject rows)
    → 0 < length (candidates c' s subject rows')
    → Served c s subject rows (claim c flip subject limit rows).jobs
      ⊎ Served c' s subject rows' (claim c' (suc flip) subject limit' rows').jobs
claim_fair c c' flip subject limit limit' rows rows' s works works' h h' d d' k k' =
    elim (Bool-cases (ltb 1 limit)) [
      | inl several ↦ inl (many-Served c flip subject rows works limit s (ground arith) d k)
      | inr single ↦ elim (Bool-cases (ltb 1 limit')) [
        | inl several ↦
            inr (many-Served c' (suc flip) subject rows' works' limit' s (ground arith) d' k')
        | inr single' ↦
            let one : limit ≡ 1 = ground arith in
            let one' : limit' ≡ 1 = ground arith in
            elim (turn flip s) [
              | inl first ↦ inl (rw one (single-Served c flip subject rows works s first k))
              | inr first ↦
                  inr (rw one' (single-Served c' (suc flip) subject rows' works' s first k'))
            ]
      ]
    ]
