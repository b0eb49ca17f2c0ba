-- ===== src/Queue/Claims/Served.antt =====
-- internal/storage/postgres/jobs.go: which rows a claim statement takes, and what it leaves.
use pocket_advisor.Prelude.{
  ℕ, ap, sym, subst, ◌<◌, ◌≡◌, refl, ◌∙◌, inl, inr, Bool, true, false, not, ◌&&◌, List, [], ◌∷◌,
  map, arith, Bytes, bytes_eq, bytes_eq→eq, bytes_eq_refl, length, sort_by, sort_by-All, All,
  All-take, Distinct, contains, bytes_Eq, Bool-cases,
}
use mathlib.Core.List.{Memᴰ}
use mathlib.Core.List.Memᴰ
use pocket_advisor.Queue.{
  Row, Job, State, ready, running, waiting_source, completed, failed, is_ready, is_running,
}
use pocket_advisor.Queue.Claims.{
  Statement, ready_work, expired_work, eligible, row_before, select_rows, selected, Session,
  claim_statement, claimed_job, claim_row, claim_apply, ids,
}
use pocket_advisor.Queue.Claims.Liveness.{candidates, length-statement}

-- A row of the table that the state's statement could take is among the jobs claimed.
abbrev pub Served : Session → Statement → Bytes → List Row → List Job → Type 0
Served c s subject rows jobs =
    (r : Row) × Memᴰ r rows
    × (eligible s (c.now s) subject r ≡ true)
    × Memᴰ (claimed_job (c.now s) (c.started s) r) jobs

select_rows-All :
    (P : Row → Type 0) (p : Row → Bool) (rows : List Row)
    → ((r : Row) → Memᴰ r rows → p r ≡ true → P r)
    → All P (select_rows p rows)
unfolding select_rows
select_rows-All P p [] h = tt
select_rows-All P p (r ∷ rows) h =
    let rest = select_rows-All P p rows (λ x m e. h x (Memᴰ.tail m) e) in
    elim (Bool-cases (p r)) [
      | inl passes ↦ rw (select_rows, passes) (h r (Memᴰ.head refl) passes, rest)
      | inr fails ↦ rw (select_rows, fails) rest
    ]

select_rows_there :
    (p : Row → Bool) (rows : List Row) (r : Row)
    → Memᴰ r rows
    → p r ≡ true
    → 0 < length (select_rows p rows)
unfolding select_rows
select_rows_there p [] r m h = elim m [ ]
select_rows_there p (x ∷ rows) r (Memᴰ.head e) h =
    let passes : p x ≡ true = ap p (sym e) ∙ h in rw (select_rows, passes) (omega arith)
select_rows_there p (x ∷ rows) r (Memᴰ.tail m) h = ground (arith, select_rows_there p rows r m h)

first_of :
    (P : Row → Type 0) (rows : List Row)
    → All P rows
    → 0 < length rows
    → (r : Row) × P r × Memᴰ r rows
first_of P [] a h = absurd (omega arith)
first_of P (r ∷ rows) a h = (r, a.0, Memᴰ.head refl)

-- What the rows that a statement takes are.
abbrev Taken : Session → Statement → Bytes → List Row → Row → Type 0
Taken c s subject rows r =
    Memᴰ r rows × (eligible s (c.now s) subject r ≡ true) × (c.locked s r ≡ false)

candidates-Taken :
    (c : Session) (s : Statement) (subject : Bytes) (rows : List Row)
    → All (Taken c s subject rows) (candidates c s subject rows)
candidates-Taken c s subject rows =
    select_rows-All (Taken c s subject rows)
      (λ r. eligible s (c.now s) subject r && not (c.locked s r)) rows
      (λ r m e. (m, ground arith, ground arith))

selected-Taken :
    (c : Session) (s : Statement) (subject : Bytes) (limit : ℕ) (rows : List Row)
    → All (Taken c s subject rows) (selected s (c.now s) subject limit (c.locked s) rows)
unfolding selected
selected-Taken c s subject limit rows =
    All-take (Taken c s subject rows) limit (sort_by (row_before s) (candidates c s subject rows)) (
      sort_by-All (row_before s) (Taken c s subject rows) (candidates c s subject rows)
        (candidates-Taken c s subject rows))

statement_jobs :
    (c : Session) (s : Statement) (subject : Bytes) (limit : ℕ) (rows : List Row)
    → c.fails s ≡ false
    → (claim_statement c s subject limit rows).jobs
      ≡ map
          (claimed_job (c.now s) (c.started s))
          (selected s (c.now s) subject limit (c.locked s) rows)
unfolding claim_statement
statement_jobs c s subject limit rows f = rw (claim_statement, f) refl

statement_rows :
    (c : Session) (s : Statement) (subject : Bytes) (limit : ℕ) (rows : List Row)
    → c.fails s ≡ false
    → (claim_statement c s subject limit rows).rows
      ≡ map
          (claim_apply
            (c.now s)
            c.owner
            (ids (selected s (c.now s) subject limit (c.locked s) rows)))
          rows
unfolding claim_statement
statement_rows c s subject limit rows f = rw (claim_statement, f) refl

map_some :
    (c : Session) (s : Statement) (rows : List Row)
    → 0 < length (map (claimed_job (c.now s) (c.started s)) rows)
    → 0 < length rows
map_some c s [] h = h
map_some c s (r ∷ rows) h = omega arith

pub statement-Served :
    (c : Session) (s : Statement) (subject : Bytes) (limit : ℕ) (rows : List Row)
    → c.fails s ≡ false
    → 0 < limit
    → 0 < length (candidates c s subject rows)
    → Served c s subject rows (claim_statement c s subject limit rows).jobs
statement-Served c s subject limit rows f h k =
    let chosen = selected s (c.now s) subject limit (c.locked s) rows in
    let jobs = statement_jobs c s subject limit rows f in
    let some_chosen = map_some c s chosen (
      omega (arith, ap (length {A = Job}) jobs, length-statement c s subject limit rows f, h, k)) in
    let (r, (member, able, free), there) =
      first_of (Taken c s subject rows) chosen (selected-Taken c s subject limit rows)
        some_chosen in
    (
      r,
      member,
      able,
      subst (Memᴰ (claimed_job (c.now s) (c.started s) r)) (sym jobs)
          (Memᴰ.map (claimed_job (c.now s) (c.started s)) there),
    )

contains-Memᴰ :
    (rows : List Row) (r : Row) (id : Bytes)
    → Memᴰ r rows
    → r.job_id ≡ id
    → contains (ids rows) id ≡ true
contains-Memᴰ [] r id m h = elim m [ ]
contains-Memᴰ (x ∷ rows) r id (Memᴰ.head e) h =
    let same : x.job_id ≡ id = ap (λ y. y.job_id) (sym e) ∙ h in rw (same, bytes_eq_refl id) refl
contains-Memᴰ (x ∷ rows) r id (Memᴰ.tail m) h = ground (arith, contains-Memᴰ rows r id m h)

contains_some :
    (P : Row → Type 0) (rows : List Row) (id : Bytes)
    → All P rows
    → contains (ids rows) id ≡ true
    → (r : Row) × P r × (r.job_id ≡ id)
contains_some P [] id a h = absurd cc
contains_some P (r ∷ rows) id a h = elim (Bool-cases (bytes_eq r.job_id id)) [
  | inl same ↦ (r, a.0, bytes_eq→eq r.job_id id same)
  | inr other ↦ contains_some P rows id a.1 (ground arith)
]

-- A job identifier stands in one row.
one_row :
    (rows : List Row) (a b : Row)
    → Distinct (ids rows)
    → Memᴰ a rows
    → Memᴰ b rows
    → a.job_id ≡ b.job_id
    → a ≡ b
one_row [] a b d m n h = elim m [ ]
one_row (x ∷ rows) a b d (Memᴰ.head e) (Memᴰ.head e') h = e ∙ sym e'
one_row (x ∷ rows) a b d (Memᴰ.head e) (Memᴰ.tail m) h = absurd (
    let there = contains-Memᴰ rows b x.job_id m (sym h ∙ ap (λ y. y.job_id) e) in
    let none_there = d.0 in cc)
one_row (x ∷ rows) a b d (Memᴰ.tail m) (Memᴰ.head e) h = absurd (
    let there = contains-Memᴰ rows a x.job_id m (h ∙ ap (λ y. y.job_id) e) in
    let none_there = d.0 in cc)
one_row (x ∷ rows) a b d (Memᴰ.tail m) (Memᴰ.tail n) h = one_row rows a b d.1 m n h

states_differ : (t : State) → is_ready t ≡ true → is_running t ≡ true → ⊥
states_differ ready h k = cc
states_differ running h k = cc
states_differ waiting_source h k = cc
states_differ completed h k = cc
states_differ failed h k = cc

two_states :
    (now now' : ℕ) (subject : Bytes) (r : Row)
    → eligible ready_work now subject r ≡ true
    → eligible expired_work now' subject r ≡ true
    → ⊥
unfolding eligible
two_states now now' subject r h k = states_differ r.state (ground arith) (ground arith)

claimed_not_ready :
    (now now' : ℕ) (subject owner : Bytes) (r : Row)
    → eligible ready_work now subject (claim_row now' owner r) ≡ false
unfolding eligible claim_row
claimed_not_ready now now' subject owner r = ground arith

-- A claim of expired work leaves the READY work as it was.
module _ (c : Session) (subject : Bytes) (limit : ℕ) (rows : List Row)
    (works : c.fails expired_work ≡ false) where
  abbrev chosen : List Row
  chosen = selected expired_work (c.now expired_work) subject limit (c.locked expired_work) rows

  abbrev pub after : List Row
  after = (claim_statement c expired_work subject limit rows).rows

  abbrev moved : Row → Row
  moved = claim_apply (c.now expired_work) c.owner (ids chosen)

  pub still_ready :
      Distinct (ids rows)
      → 0 < length (candidates c ready_work subject rows)
      → 0 < length (candidates c ready_work subject after)
  unfolding claim_apply
  still_ready d h =
      let (r, (member, able, free), there) =
        first_of (Taken c ready_work subject rows) (candidates c ready_work subject rows)
          (candidates-Taken c ready_work subject rows) h in
      let unchosen : contains (ids chosen) r.job_id ≡ false =
        elim (Bool-cases (contains (ids chosen) r.job_id)) [
          | inr spared ↦ spared
          | inl picked ↦
              let (x, (x_member, x_able, x_free), same_id) =
                contains_some (Taken c expired_work subject rows) chosen r.job_id
                  (selected-Taken c expired_work subject limit rows) picked in
              let same = one_row rows x r d x_member member same_id in
              absurd (
                two_states (c.now ready_work) (c.now expired_work) subject r able (
                  subst (λ y. eligible expired_work (c.now expired_work) subject y ≡ true) same
                    x_able))
        ] in
      let kept : moved r ≡ r = rw (claim_apply, unchosen) refl in
      let placed : Memᴰ r after =
        subst (Memᴰ r) (sym (statement_rows c expired_work subject limit rows works))
          (subst (λ y. Memᴰ y (map moved rows)) kept (Memᴰ.map moved member)) in
      select_rows_there
        (λ y. eligible ready_work (c.now ready_work) subject y && not (c.locked ready_work y)) after
        r placed (ground arith)

  pub behind_first :
      (jobs : List Job)
      → Served c ready_work subject after jobs
      → Served c ready_work subject rows jobs
  unfolding claim_apply
  behind_first jobs (r, member, able, there) =
      let (x, x_member, same) =
        Memᴰ.of_map moved rows
          (subst (Memᴰ r) (statement_rows c expired_work subject limit rows works) member) in
      elim (Bool-cases (contains (ids chosen) x.job_id)) [
        | inl picked ↦
            let claimed : claim_row (c.now expired_work) c.owner x ≡ r =
              sym (rw (claim_apply, picked) refl) ∙ same in
            let not_able =
              claimed_not_ready (c.now ready_work) (c.now expired_work) subject c.owner x in
            absurd (let able' = ap (eligible ready_work (c.now ready_work) subject) claimed in cc)
        | inr spared ↦
            let kept : x ≡ r = sym (rw (claim_apply, spared) refl) ∙ same in
            (r, subst (λ y. Memᴰ y rows) kept x_member, able, there)
      ]
