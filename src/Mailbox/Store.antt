-- ===== src/Mailbox/Store.antt =====
-- internal/mailbox/store_postgres.go (and the query types of store.go and query.go): the browse
-- statement over the stored messages. A NULL `sent_at`, which the code reads as the zero time, is 0.
-- Document identifiers are compared as text, which for canonical UUIDs is the order of the column.
pub mod Keyset
use pocket_advisor.Prelude.{
  ℕ, Bool, true, false, not, ◌&&◌, ◌||◌, List, [], ◌∷◌, Option, none, some, Bytes, bytes, bytes_eq,
  bytes_lt, ltb, leb, ◌==◌, if◌then◌else◌, select, sort_by, take, contains, bytes_Eq, nat_eq,
}
use pocket_advisor.Mailbox.Keyset.{Order, newest_first, oldest_first, unlisted, valid, Key}

pub data Direction : Type 0 where
  unset either inbound outbound : Direction
  unlisted_direction : Bytes → Direction

-- An empty text and the time 0 are filters that are not set.
pub record Filters : Type 0 where
  pub sender : Bytes
  pub sender_domain : Bytes
  pub recipient : Bytes
  pub after : ℕ
  pub before : ℕ
  pub direction : Direction

pub data Kind : Type 0 where
  from to cc bcc : Kind

-- A row of email_addresses.
pub record Address : Type 0 where
  pub kind : Kind
  pub is_valid : Bool
  pub address : Bytes

-- A row of email_messages with its addresses.
pub record Message : Type 0 where
  pub doc_id : Bytes
  pub sent_at : ℕ
  pub ingested_at : ℕ
  pub addresses : List Address
  pub warnings : List Bytes

abbrev pub key : Message → Key
key m = record { sent_at = m.sent_at; doc_id = m.doc_id }

pub record PageQuery : Type 0 where
  pub filters : Filters
  pub order : Order
  pub limit : ℕ
  pub snapshot : ℕ
  pub after : Option Key
  pub owners : List Bytes

abbrev pub is_from : Kind → Bool
is_from from = true
is_from _ = false

-- `EXISTS (SELECT 1 FROM email_addresses …)`.
unfoldable pub some_address : (Address → Bool) → List Address → Bool
some_address p [] = false
some_address p (a ∷ as') = p a || some_address p as'

-- `reverse(split_part(reverse(address), '@', 1))`: what follows the last `@`.
unfoldable pub domain_of : Bytes → Bytes
domain_of [] = []
domain_of (b ∷ bs) =
    let rest = domain_of bs in if contains bs b'@' then rest else if b == b'@' then bs else b ∷ bs

abbrev pub is_empty : Bytes → Bool
is_empty [] = true
is_empty (b ∷ bs) = false

unfoldable pub sent_by : (Bytes → Bool) → Message → Bool
sent_by p m = some_address (λ a. is_from a.kind && a.is_valid && p a.address) m.addresses

unfoldable pub sent_to : (Bytes → Bool) → Message → Bool
sent_to p m = some_address (λ a. not (is_from a.kind) && a.is_valid && p a.address) m.addresses

unfoldable pub direction_matches : Direction → List Bytes → Message → Bool
direction_matches outbound owners m = sent_by (contains owners) m
direction_matches inbound owners m =
    sent_to (contains owners) m && not (sent_by (contains owners) m)
direction_matches _ owners m = true

-- The `WHERE` of `matched`. `sent_at >= after` and `sent_at < before` are not true of NULL.
unfoldable pub matches : Filters → ℕ → List Bytes → Message → Bool
matches f snapshot owners m =
    leb m.ingested_at snapshot
    && (is_empty f.sender || sent_by (bytes_eq f.sender) m)
    && (is_empty f.sender_domain || sent_by (λ a. bytes_eq (domain_of a) f.sender_domain) m)
    && (is_empty f.recipient || sent_to (bytes_eq f.recipient) m)
    && direction_matches f.direction owners m
    && ((f.after == 0) || (not (m.sent_at == 0) && leb f.after m.sent_at))
    && ((f.before == 0) || (not (m.sent_at == 0) && ltb m.sent_at f.before))

-- `orderSQL`: `DESC NULLS LAST`, and `ASC NULLS FIRST`.
unfoldable pub row_before : Order → Message → Message → Bool
row_before oldest_first a b =
    if a.sent_at == 0
    then (if b.sent_at == 0 then bytes_lt a.doc_id b.doc_id else true)
    else if b.sent_at == 0
    then false
    else ltb a.sent_at b.sent_at || ((a.sent_at == b.sent_at) && bytes_lt a.doc_id b.doc_id)
row_before _ a b =
    if b.sent_at == 0
    then (if a.sent_at == 0 then bytes_lt b.doc_id a.doc_id else true)
    else if a.sent_at == 0
    then false
    else ltb b.sent_at a.sent_at || ((a.sent_at == b.sent_at) && bytes_lt b.doc_id a.doc_id)

-- `keysetPredicate`: what the statement asks of a row after the boundary `k`.
unfoldable pub keyset_predicate : Order → Key → Message → Bool
keyset_predicate oldest_first k m =
    if k.sent_at == 0
    then ((m.sent_at == 0) && bytes_lt k.doc_id m.doc_id) || not (m.sent_at == 0)
    else not (m.sent_at == 0)
      && (ltb k.sent_at m.sent_at || ((m.sent_at == k.sent_at) && bytes_lt k.doc_id m.doc_id))
keyset_predicate _ k m =
    if k.sent_at == 0
    then (m.sent_at == 0) && bytes_lt m.doc_id k.doc_id
    else (m.sent_at == 0)
      || ltb m.sent_at k.sent_at
      || ((m.sent_at == k.sent_at) && bytes_lt m.doc_id k.doc_id)

unfoldable pub after_boundary : Order → Option Key → Message → Bool
after_boundary o none m = true
after_boundary o (some k) m = keyset_predicate o k m

pub data StoreError : Type 0 where
  unsupported_order unsupported_direction owners_required : StoreError

pub data Listed : Type 0 where
  rows : List Message → Listed
  refused : StoreError → Listed

-- The checks of `ListMessages` on a direction filter.
unfoldable pub direction_error : Direction → List Bytes → Option StoreError
direction_error unset owners = none
direction_error (unlisted_direction s) [] = some owners_required
direction_error (unlisted_direction s) (o ∷ os) = some unsupported_direction
direction_error d [] = some owners_required
direction_error d (o ∷ os) = none

-- The rows that a series is about: those the filters match, ingested up to the snapshot.
abbrev pub visible : PageQuery → List Message → List Message
visible q table = select (matches q.filters q.snapshot q.owners) table

unfoldable pub page_rows : PageQuery → List Message → List Message
page_rows q table =
    take q.limit
      (sort_by (row_before q.order) (select (after_boundary q.order q.after) (visible q table)))

-- `ListMessages` of the store.
unfoldable pub list_rows : PageQuery → List Message → Listed
unfolding page_rows direction_error valid
list_rows q table =
    if not (valid q.order)
    then refused unsupported_order
    else elim (direction_error q.filters.direction q.owners) [
      | some e ↦ refused e
      | none ↦ rows (page_rows q table)
    ]
