-- ===== src/Mailbox/Pages/Verified.antt =====
-- internal/mailbox/query.go: what one page of a series holds, and how the next one is asked for.
use pocket_advisor.Prelude.{
  ℕ, suc, ◌+◌, ◌≤◌, ◌<◌, ◌≡◌, refl, subst, true, false, List, [], ◌∷◌, Option, none, some, arith,
  Bytes, take, length, select, sort_by, sort_by-All, All, Strict, AllApart, sort_by-Strict,
  bytes_Eq, length-take, last?, All-take, Strict-take, take-take-suc, take_whole, select-All,
  select-AllApart,
}
use mathlib.Core.Path.{fun_ext}
use pocket_advisor.Mailbox.Keyset.{Order, Key, before, valid}
use pocket_advisor.Mailbox.Store.{
  Message, key, row_before, after_boundary, visible, page_rows, list_rows, rows, direction_error,
  is_empty,
}
use pocket_advisor.Mailbox.Store.Keyset.{row_before-eq-before, keyset_predicate-eq-after_key}
use pocket_advisor.Mailbox.Cursor.{Codec, CursorState, fingerprint, is_uuid, cursor_for}
use pocket_advisor.Mailbox.Cursor.RoundTrip.{cursor_for-decode}
use pocket_advisor.Mailbox.Pages.{
  Config, Request, page, page_limit, verify_from, verify_page, follows_boundary, follows_previous,
  query_of, page_of, page_after, next_for, list_messages,
}
use pocket_advisor.Mailbox.Pages.Step.{row_trans, row_asymm}

module _ (o : Order) where
  by_key : row_before o ≡ (λ (a : Message). λ (b : Message). before o (key a) (key b))
  by_key = fun_ext λ a. fun_ext λ b. row_before-eq-before o a b

  verify_from_sorted :
      (after : Option Key) (previous : Option Message) (ms : List Message)
      → All (λ m. follows_boundary o after m ≡ true) ms
      → All (λ m. follows_previous o previous m ≡ true) ms
      → Strict (λ a. λ b. before o (key a) (key b)) ms
      → verify_from o after previous ms ≡ none
  unfolding verify_from
  verify_from_sorted after previous [] b p s = refl
  verify_from_sorted after previous (m ∷ ms) b p s =
      rw (b.0, p.0) (verify_from_sorted after (some m) ms b.1 s.0 s.1)

  no_previous : (ms : List Message) → All (λ m. follows_previous o none m ≡ true) ms
  no_previous [] = tt
  no_previous (m ∷ ms) = (refl, no_previous ms)

  past_boundary :
      (after : Option Key) (m : Message) → after_boundary o after m ≡ follows_boundary o after m
  unfolding after_boundary
  past_boundary none m = refl
  past_boundary (some k) m = keyset_predicate-eq-after_key o k m

  -- The service finds nothing wrong with what the store returns.
  pub verify_page_sorted :
      (after : Option Key) (n : ℕ) (vs : List Message)
      → AllApart (row_before o) vs
      → verify_page (take n (sort_by (row_before o) (select (after_boundary o after) vs))) o after
        ≡ none
  verify_page_sorted after n vs a =
      verify_from_sorted after none _
        (All-take _ n _ (
          sort_by-All (row_before o) _ _ (
            subst (λ p. All (λ m. p m ≡ true) (select (after_boundary o after) vs))
              (fun_ext (past_boundary after)) (select-All (after_boundary o after) vs))))
        (no_previous _)
        (subst
          (λ f. Strict f (take n (sort_by (row_before o) (select (after_boundary o after) vs))))
          by_key
          (Strict-take (row_before o) n _ (
            sort_by-Strict (row_before o) (row_trans o) (row_asymm o) _
              (select-AllApart (row_before o) (after_boundary o after) vs a))))

plus_one : (n : ℕ) → n + 1 ≡ suc n
plus_one n = omega arith

module _ (c : Codec) (cfg : Config) (owners : List Bytes) where
  -- The rows of the series of a request at a snapshot.
  abbrev pub series_rows : Request → ℕ → List Message → List Message
  series_rows r snapshot table = visible (query_of c cfg owners r snapshot none) table

  pub list_rows_sorted :
      (r : Request) (snapshot : ℕ) (after : Option Key) (table back : List Message)
      → valid r.order ≡ true
      → direction_error r.filters.direction owners ≡ none
      → sort_by
          (row_before r.order)
          (select (after_boundary r.order after) (series_rows r snapshot table))
        ≡ back
      → list_rows (query_of c cfg owners r snapshot after) table
        ≡ rows (take (page_limit cfg r.limit + 1) back)
  unfolding list_rows page_rows
  list_rows_sorted r snapshot after table back v d e = rw (v, d, e) refl

  -- A page holds the first rows after its boundary, in order, and nothing else is answered.
  pub page_after_sorted :
      (r : Request) (snapshot : ℕ) (after : Option Key) (table back : List Message)
      → valid r.order ≡ true
      → direction_error r.filters.direction owners ≡ none
      → AllApart (row_before r.order) (series_rows r snapshot table)
      → sort_by
          (row_before r.order)
          (select (after_boundary r.order after) (series_rows r snapshot table))
        ≡ back
      → page_after c cfg owners r snapshot after table
        ≡ page (page_of c cfg owners r snapshot (take (page_limit cfg r.limit + 1) back))
  unfolding page_after
  page_after_sorted r snapshot after table back v d a e =
      rw (page_after, list_rows_sorted r snapshot after table back v d e, verified) refl
    where
      verified : verify_page (take (page_limit cfg r.limit + 1) back) r.order after ≡ none
      verified = rw e at (
          verify_page_sorted r.order after (page_limit cfg r.limit + 1)
            (series_rows r snapshot table) a)

  -- The next page is asked for at the last row of this one, at the same snapshot.
  pub resumed :
      (r : Request) (snapshot t : ℕ) (m : Message) (table : List Message)
      → ((st : CursorState) → c.read (c.write st) ≡ some st)
      → ((st : CursorState) → is_empty (c.write st) ≡ false)
      → is_empty (fingerprint c r.filters) ≡ false
      → is_uuid m.doc_id ≡ true
      → valid r.order ≡ true
      → 0 < snapshot
      → list_messages c cfg owners
          (record r { cursor = c.write (cursor_for c (key m) r.order r.filters snapshot) })
          t
          table
        ≡ page_after c cfg owners
            (record r { cursor = c.write (cursor_for c (key m) r.order r.filters snapshot) })
            snapshot
            (some (key m))
            table
  unfolding list_messages
  resumed r snapshot t m table back written named uuid v taken =
      let (decoded, checked, at) =
        cursor_for-decode c (key m) r.order r.filters snapshot back named uuid v taken in
      rw (written (cursor_for c (key m) r.order r.filters snapshot), decoded, checked, at)
        (same_snapshot)
    where
      same_snapshot :
          page_after c cfg owners
            (record r { cursor = c.write (cursor_for c (key m) r.order r.filters snapshot) })
            (cursor_for c (key m) r.order r.filters snapshot).snapshot
            (some (key m))
            table
          ≡ page_after c cfg owners
              (record r { cursor = c.write (cursor_for c (key m) r.order r.filters snapshot) })
              snapshot
              (some (key m))
              table
      same_snapshot = unfold cursor_for in refl

  pub last_page :
      (r : Request) (snapshot : ℕ) (rest : List Message)
      → length rest ≤ page_limit cfg r.limit
      → ((page_of c cfg owners r snapshot (take (page_limit cfg r.limit + 1) rest)).messages ≡ rest)
        × ((page_of c cfg owners r snapshot (take (page_limit cfg r.limit + 1) rest)).next_cursor
            ≡ [])
  unfolding page_of next_for
  last_page r snapshot rest h =
      rw
        (
          take_whole (page_limit cfg r.limit + 1) rest (omega arith),
          take_whole (page_limit cfg r.limit) rest h,
        )
        (refl, ground arith)

  pub full_page :
      (r : Request) (snapshot : ℕ) (m : Message) (rest : List Message)
      → page_limit cfg r.limit < length rest
      → last? (take (page_limit cfg r.limit) rest) ≡ some m
      → ((page_of c cfg owners r snapshot (take (page_limit cfg r.limit + 1) rest)).messages
          ≡ take (page_limit cfg r.limit) rest)
        × ((page_of c cfg owners r snapshot (take (page_limit cfg r.limit + 1) rest)).next_cursor
            ≡ c.write (cursor_for c (key m) r.order r.filters snapshot))
  unfolding page_of next_for
  full_page r snapshot m rest h l =
      let whole : take (page_limit cfg r.limit) (take (page_limit cfg r.limit + 1) rest)
          ≡ take (page_limit cfg r.limit) rest =
        rw (plus_one (page_limit cfg r.limit)) (take-take-suc (page_limit cfg r.limit) rest) in
      rw (whole, l) (refl, ground (arith, length-take (page_limit cfg r.limit + 1) rest))
