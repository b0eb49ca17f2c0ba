-- ===== src/Mailbox/Pages/Series.antt =====
-- internal/mailbox: a client that follows every `next_cursor` of a series.
use pocket_advisor.Prelude.{
  ℕ, zero, suc, inl, inr, ◌+◌, ◌<◌, ◌≡◌, refl, subst, sym, ◌∙◌, ap, Bool, true, false, List, [],
  ◌∷◌, ◌++◌, Option, none, some, arith, Bytes, ltb, if◌then◌else◌, take, drop, length, select,
  sort_by, sort_by-All, All, AllApart, Distinct, bytes_Eq, length-drop, take_last, select_whole,
  take-append-drop, Bool-cases,
}
use mathlib.Core.List.{append_assoc}
use pocket_advisor.Mailbox.Keyset.{Key, valid}
use pocket_advisor.Mailbox.Store.{
  Message, key, row_before, after_boundary, direction_error, is_empty,
}
use pocket_advisor.Mailbox.Cursor.{Codec, CursorState, fingerprint, is_uuid, cursor_for}
use pocket_advisor.Mailbox.Pages.{
  Config, Request, Page, page, page_limit, page_of, page_after, list_messages,
}
use pocket_advisor.Mailbox.Pages.Step.{doc_ids, rows-AllApart, sorted_after}
use pocket_advisor.Mailbox.Pages.Verified.{
  series_rows, page_after_sorted, resumed, last_page, full_page,
}

All-at :
    (p : Message → Bool) (xs ys : List Message) (m : Message)
    → All (λ x. p x ≡ true) (xs ++ m ∷ ys)
    → p m ≡ true
All-at p [] ys m a = a.0
All-at p (x ∷ xs) ys m a = All-at p xs ys m a.1

-- What a client gets that asks for the first page and then follows each `next_cursor`: the `k`-th
-- request meets the table `ts k` and the clock `now k`. None when a page is refused or the fuel ends.
unfoldable pub follow :
    Codec
    → Config
    → List Bytes
    → (ℕ → List Message)
    → (ℕ → ℕ)
    → ℕ
    → ℕ
    → Request
    → Option (List Message)
follow c cfg owners ts now zero k r = none
follow c cfg owners ts now (suc fuel) k r = elim (list_messages c cfg owners r (now k) (ts k)) [
  | page p ↦
      if is_empty p.next_cursor
      then some p.messages
      else elim (follow c cfg owners ts now fuel (suc k) (record r { cursor = p.next_cursor })) [
        | none ↦ none
        | some ms ↦ some (p.messages ++ ms)
      ]
  | _ ↦ none
]

module _ (c : Codec) (cfg : Config) (owners : List Bytes) (ts : ℕ → List Message)
    (now : ℕ → ℕ) where
  follow_last :
      (fuel k : ℕ) (r : Request) (p : Page) (ms : List Message)
      → list_messages c cfg owners r (now k) (ts k) ≡ page p
      → p.messages ≡ ms
      → p.next_cursor ≡ []
      → follow c cfg owners ts now (suc fuel) k r ≡ some ms
  unfolding follow
  follow_last fuel k r p ms a whole ended = rw (follow, a, ended, whole) refl

  follow_more :
      (fuel k : ℕ) (r : Request) (p : Page) (cursor : Bytes) (front rest : List Message)
      → list_messages c cfg owners r (now k) (ts k) ≡ page p
      → p.messages ≡ front
      → p.next_cursor ≡ cursor
      → is_empty cursor ≡ false
      → follow c cfg owners ts now fuel (suc k) (record r { cursor = cursor }) ≡ some rest
      → follow c cfg owners ts now (suc fuel) k r ≡ some (front ++ rest)
  unfolding follow
  follow_more fuel k r p cursor front rest a full next given more =
      rw (follow, a, next, given, more, full) refl

module _ (c : Codec) (cfg : Config) (owners : List Bytes) where
  -- Below: one series, of a request `r` without a cursor, over the tables `ts` and the clock `now`.
  module _ (ts : ℕ → List Message) (now : ℕ → ℕ) (r : Request) (vs : List Message)
      (back : (st : CursorState) → c.read (c.write st) ≡ some st)
      (written : (st : CursorState) → is_empty (c.write st) ≡ false)
      (named : is_empty (fingerprint c r.filters) ≡ false) (v : valid r.order ≡ true)
      (d : direction_error r.filters.direction owners ≡ none)
      (some_limit : 0 < page_limit cfg r.limit) (taken : 0 < now 0)
      (uuids : All (λ m. is_uuid m.doc_id ≡ true) vs) (distinct : Distinct (doc_ids vs))
      (stable : (k : ℕ) → series_rows c cfg owners r (now 0) (ts k) ≡ vs) where
    abbrev sorted : List Message
    sorted = sort_by (row_before r.order) vs

    apart : AllApart (row_before r.order) vs
    apart = rows-AllApart r.order vs distinct

    abbrev left : List Message → List Message
    left rest = drop (page_limit cfg r.limit) rest

    abbrev cursor_at : Message → Bytes
    cursor_at m = c.write (cursor_for c (key m) r.order r.filters (now 0))

    regroup :
        (pre front rest : List Message) (m : Message)
        → rest ≡ front ++ m ∷ left rest
        → pre ++ rest ≡ (pre ++ front) ++ m ∷ left rest
    regroup pre front rest m split =
        ap (λ z. pre ++ z) split ∙ sym (append_assoc pre front (m ∷ left rest))

    row_uuid :
        (front rest : List Message) (m : Message)
        → sorted ≡ front ++ m ∷ rest
        → is_uuid m.doc_id ≡ true
    row_uuid front rest m s =
        All-at (λ x. is_uuid x.doc_id) front rest m
          (subst (All (λ x. is_uuid x.doc_id ≡ true)) s
            (sort_by-All (row_before r.order) (λ x. is_uuid x.doc_id ≡ true) vs uuids))

    -- One page of the series, when the rows `rest` are left.
    one_page :
        (k : ℕ) (cursor : Bytes) (after : Option Key) (rest : List Message)
        → sort_by (row_before r.order) (select (after_boundary r.order after) vs) ≡ rest
        → page_after c cfg owners (record r { cursor = cursor }) (now 0) after (ts k)
          ≡ page (
              page_of c cfg owners
                (record r { cursor = cursor })
                (now 0)
                (take (page_limit cfg r.limit + 1) rest))
    one_page k cursor after rest e =
        page_after_sorted c cfg owners (record r { cursor = cursor }) (now 0) after (ts k) rest v d
          (rw (stable k) apart) (rw (stable k) e)

    follow_page :
        (fuel k : ℕ) (cursor : Bytes) (after : Option Key) (pre rest : List Message)
        → list_messages c cfg owners (record r { cursor = cursor }) (now k) (ts k)
          ≡ page_after c cfg owners (record r { cursor = cursor }) (now 0) after (ts k)
        → sort_by (row_before r.order) (select (after_boundary r.order after) vs) ≡ rest
        → sorted ≡ pre ++ rest
        → length rest < fuel
        → follow c cfg owners ts now fuel k (record r { cursor = cursor }) ≡ some rest
    follow_page zero k cursor after pre rest answer e s h = absurd (omega arith)
    follow_page (suc fuel) k cursor after pre rest answer e s h =
        elim (Bool-cases (ltb (page_limit cfg r.limit) (length rest))) [
          | inr few ↦
              let (whole, ended) =
                last_page c cfg owners (record r { cursor = cursor }) (now 0) rest (ground arith) in
              follow_last c cfg owners ts now fuel k (record r { cursor = cursor }) _ rest
                (answer ∙ one_page k cursor after rest e) whole ended
          | inl many ↦
              let long : page_limit cfg r.limit < length rest = ground arith in
              let (front, m, l, t, split) =
                take_last (page_limit cfg r.limit) rest some_limit long in
              let (full, next) =
                full_page c cfg owners (record r { cursor = cursor }) (now 0) m rest long l in
              let s' = s ∙ regroup pre front rest m split in
              subst
                (λ z.
                  follow c cfg owners ts now (suc fuel) k (record r { cursor = cursor }) ≡ some z)
                (take-append-drop (page_limit cfg r.limit) rest)
                (follow_more c cfg owners ts now fuel k (record r { cursor = cursor }) _
                  (cursor_at m) (take (page_limit cfg r.limit) rest) (left rest)
                  (answer ∙ one_page k cursor after rest e) full next
                  (written (cursor_for c (key m) r.order r.filters (now 0)))
                  (follow_page fuel (suc k) (cursor_at m) (some (key m)) ((pre ++ front) ++ m ∷ [])
                    (left rest)
                    (resumed c cfg owners r (now 0) (now (suc k)) m (ts (suc k)) back written named
                      (row_uuid _ _ m s') v taken)
                    (sorted_after r.order vs (pre ++ front) (left rest) m apart s')
                    (s' ∙ sym (append_assoc (pre ++ front) (m ∷ []) (left rest)))
                    (omega (arith, length-drop (page_limit cfg r.limit) rest))))
        ]

    -- A client that asks for the first page and follows every next_cursor gets the matching
    -- messages of the snapshot, each exactly once and in the order asked for, and then stops, also
    -- when rows come and go between its requests; for a valid order and direction, a positive page
    -- limit and snapshot, distinct document identifiers that are UUIDs, cursors that are read back
    -- as written and are not empty, a fingerprint that is not empty, and tables whose rows that
    -- match at the snapshot stay the same. Fuel for one page more than there are messages is
    -- enough.
    pub follow-sorted :
        (fuel : ℕ)
        → is_empty r.cursor ≡ true
        → length sorted < fuel
        → follow c cfg owners ts now fuel 0 r ≡ some (sort_by (row_before r.order) vs)
    follow-sorted fuel first h =
        follow_page fuel 0 r.cursor none [] sorted (unfold list_messages in (rw first refl))
          (unfold after_boundary in
            ap (sort_by (row_before r.order)) (select_whole (λ x. true) vs (λ x. refl)))
          refl h
