-- ===== src/Mailbox/Pages.antt =====
-- internal/mailbox/query.go: `ListMessages` of the service, from normalized filters on.
pub mod Step
pub mod Verified
pub mod Series
use pocket_advisor.Prelude.{
  ℕ, suc, ◌+◌, Bool, true, false, not, ◌&&◌, List, [], ◌∷◌, ◌++◌, Option, none, some, Bytes, ltb,
  ◌==◌, if◌then◌else◌, take, length, last?,
}
use pocket_advisor.Mailbox.Keyset.{Order, Key, before, after_key}
use pocket_advisor.Mailbox.Store.{
  Filters, Message, PageQuery, StoreError, Listed, rows, refused, key, list_rows, is_empty,
}
use pocket_advisor.Mailbox.Cursor.{
  Codec, CursorState, CursorError, ok, err, decode_cursor, check, cursor_for, boundary,
}

-- `Config` of mailbox.go, its defaults filled in.
pub record Config : Type 0 where
  pub default_limit : ℕ
  pub max_limit : ℕ

-- A request after `normalize`; the limit 0 stands for any that is not positive.
pub record Request : Type 0 where
  pub filters : Filters
  pub order : Order
  pub limit : ℕ
  pub cursor : Bytes

pub record Page : Type 0 where
  pub messages : List Message
  pub limit : ℕ
  pub has_more : Bool
  pub next_cursor : Bytes  -- empty when there is none
  pub snapshot : ℕ
  pub clamped : Bool  -- the limit_clamped warning
  pub undated_excluded : Bool  -- the undated_messages_excluded warning

pub data Answer : Type 0 where
  page : Page → Answer
  bad_cursor : CursorError → Answer
  store_failed : StoreError → Answer
  boundary_repeated out_of_order : Answer

unfoldable pub page_limit : Config → ℕ → ℕ
page_limit c n = if n == 0 then c.default_limit else if ltb c.max_limit n then c.max_limit else n

unfoldable pub dated : Filters → Bool
dated f = not ((f.after == 0) && (f.before == 0))

abbrev pub follows_boundary : Order → Option Key → Message → Bool
follows_boundary o none m = true
follows_boundary o (some k) m = after_key o k (key m)

abbrev pub follows_previous : Order → Option Message → Message → Bool
follows_previous o none m = true
follows_previous o (some p) m = before o (key p) (key m)

-- `verifyPage`, with the row before.
unfoldable pub verify_from : Order → Option Key → Option Message → List Message → Option Answer
verify_from o after previous [] = none
verify_from o after previous (m ∷ ms) =
    let rest = verify_from o after (some m) ms in
    if not (follows_boundary o after m)
    then some boundary_repeated
    else if not (follows_previous o previous m)
    then some out_of_order
    else rest

abbrev pub verify_page : List Message → Order → Option Key → Option Answer
verify_page ms o after = verify_from o after none ms

module _ (c : Codec) (cfg : Config) (owners : List Bytes) where
  abbrev pub query_of : Request → ℕ → Option Key → PageQuery
  query_of r snapshot after = record {
    filters = r.filters;
    order = r.order;
    limit = page_limit cfg r.limit + 1;
    snapshot = snapshot;
    after = after;
    owners = owners;
  }

  unfoldable pub next_for : Request → ℕ → Bool → List Message → Bytes
  next_for r snapshot has_more kept =
      if has_more
      then elim (last? kept) [
        | none ↦ []
        | some m ↦ c.write (cursor_for c (key m) r.order r.filters snapshot)
      ]
      else []

  -- What is made of the rows that the store returned.
  unfoldable pub page_of : Request → ℕ → List Message → Page
  page_of r snapshot ms =
      let limit = page_limit cfg r.limit in
      let kept = take limit ms in
      record {
        messages = kept;
        limit = limit;
        has_more = ltb limit (length ms);
        next_cursor = next_for r snapshot (ltb limit (length ms)) kept;
        snapshot = snapshot;
        clamped = ltb cfg.max_limit r.limit;
        undated_excluded = dated r.filters;
      }

  -- The page of one series at its snapshot, after its boundary.
  unfoldable pub page_after : Request → ℕ → Option Key → List Message → Answer
  page_after r snapshot after table = elim (list_rows (query_of r snapshot after) table) [
    | refused e ↦ store_failed e
    | rows ms ↦ elim (verify_page ms r.order after) [
      | some a ↦ a
      | none ↦ page (page_of r snapshot ms)
    ]
  ]

  -- `ListMessages`; `now` is the database clock.
  unfoldable pub list_messages : Request → ℕ → List Message → Answer
  list_messages r now table =
      if is_empty r.cursor then page_after r now none table else elim (decode_cursor c r.cursor) [
        | err e ↦ bad_cursor e
        | ok st ↦ elim (check c st r.order r.filters) [
          | err e ↦ bad_cursor e
          | ok st' ↦ page_after r st'.snapshot (some (boundary st')) table
        ]
      ]
