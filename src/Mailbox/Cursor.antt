-- ===== src/Mailbox/Cursor.antt =====
-- internal/mailbox/cursor.go: what a continuation token carries, and when it is refused. JSON and
-- base64, SHA-256 and the text of an instant are the standard library's, and are arguments.
pub mod Preimage
pub mod RoundTrip
use pocket_advisor.Prelude.{
  ℕ, zero, suc, ◌+◌, ◌-◌, ◌/◌, ◌%◌, Bool, true, false, not, ◌&&◌, ◌||◌, List, [], ◌∷◌, ◌++◌, Option,
  none, some, Bytes, bytes, bytes_eq, leb, ◌==◌, if◌then◌else◌, length,
}
use pocket_advisor.Mailbox.Keyset.{Order, newest_first, oldest_first, unlisted, valid, Key, undated}
use pocket_advisor.Mailbox.Store.{
  Filters, Direction, unset, either, inbound, outbound, unlisted_direction, is_empty,
}

abbrev pub cursor_version : ℕ
cursor_version = 3

pub record CursorState : Type 0 where
  pub version : ℕ
  pub order : Order
  pub fingerprint : Bytes
  pub sent_at : Option ℕ
  pub doc_id : Bytes
  pub snapshot : ℕ

pub data CursorError : Type 0 where
  cursor_malformed cursor_version_changed cursor_order cursor_filters : CursorError

pub data Result {ℓ} (A : Type ℓ) : Type ℓ where
  ok : A → Result A
  err : CursorError → Result A

-- The encodings of the standard library. `read` is `DecodeString` of the trimmed text and then
-- `json.Unmarshal`.
pub record Codec : Type 0 where
  pub write : CursorState → Bytes
  pub read : Bytes → Option CursorState
  pub sum : Bytes → Bytes  -- the hex form of half of a SHA-256 digest
  pub format_time : ℕ → Bytes

-- `strconv.Itoa`, with fuel for the digits: there are at most as many as the number counts.
unfoldable pub itoa_from : ℕ → ℕ → Bytes → Bytes
itoa_from zero n out = out
itoa_from (suc fuel) n out =
    let rest = itoa_from fuel (n / 10) ((b'0' + n % 10) ∷ out) in
    if leb 10 n then rest else (b'0' + n) ∷ out

unfoldable pub itoa : ℕ → Bytes
unfolding itoa_from
itoa n = itoa_from (suc n) n []

-- The closure `write` of `fingerprint`: a length, a colon, the text.
unfoldable pub prefixed : Bytes → Bytes
prefixed s = itoa (length s) ++ (b':' ∷ s)

unfoldable pub direction_text : Direction → Bytes
direction_text unset = []
direction_text either = bytes "either"
direction_text inbound = bytes "inbound"
direction_text outbound = bytes "outbound"
direction_text (unlisted_direction s) = s

module _ (c : Codec) where
  unfoldable pub time_fingerprint : ℕ → Bytes
  time_fingerprint t = if t == 0 then [] else c.format_time t

  -- What `fingerprint` hashes.
  unfoldable pub preimage : Filters → Bytes
  preimage f =
      prefixed (bytes "v3")
      ++ (prefixed f.sender
          ++ (prefixed f.sender_domain
              ++ (prefixed f.recipient
                  ++ (prefixed (direction_text f.direction)
                      ++ (prefixed (time_fingerprint f.after)
                          ++ prefixed (time_fingerprint f.before))))))

  unfoldable pub fingerprint : Filters → Bytes
  fingerprint f = c.sum (preimage f)

-- `isUUID`: 8-4-4-4-12 lowercase hexadecimal digits.
abbrev pub is_dash_place : ℕ → Bool
is_dash_place i = (i == 8) || (i == 13) || (i == 18) || (i == 23)

abbrev pub is_hex : ℕ → Bool
is_hex r = (leb b'0' r && leb r b'9') || (leb b'a' r && leb r b'f')

unfoldable pub uuid_from : ℕ → Bytes → Bool
uuid_from i [] = true
uuid_from i (r ∷ rs) = (if is_dash_place i then r == b'-' else is_hex r) && uuid_from (suc i) rs

unfoldable pub is_uuid : Bytes → Bool
unfolding uuid_from
is_uuid s = (length s == 36) && uuid_from 0 s

abbrev pub check_decoded : CursorState → Result CursorState
check_decoded c =
    if not (c.version == cursor_version)
    then err cursor_version_changed
    else if not (valid c.order) || is_empty c.doc_id || (c.snapshot == 0) || is_empty c.fingerprint
    then err cursor_malformed
    else if not (is_uuid c.doc_id)
    then err cursor_malformed
    else ok c

module _ (c : Codec) where
  unfoldable pub decode_cursor : Bytes → Result CursorState
  decode_cursor s = elim (c.read s) [ none ↦ err cursor_malformed | some st ↦ check_decoded st ]

  abbrev pub same_order : Order → Order → Bool
  same_order newest_first newest_first = true
  same_order oldest_first oldest_first = true
  same_order (unlisted s) (unlisted t) = bytes_eq s t
  same_order _ _ = false

  -- `check`: the cursor belongs to this request.
  unfoldable pub check : CursorState → Order → Filters → Result CursorState
  check st o f =
      if not (same_order st.order o)
      then err cursor_order
      else if not (bytes_eq st.fingerprint (fingerprint c f))
      then err cursor_filters
      else ok st

  unfoldable pub cursor_for : Key → Order → Filters → ℕ → CursorState
  cursor_for k o f snapshot = record {
    version = cursor_version;
    order = o;
    fingerprint = fingerprint c f;
    sent_at = (if undated k then none else some k.sent_at);
    doc_id = k.doc_id;
    snapshot = snapshot;
  }

-- `cursorState.key`.
unfoldable pub boundary : CursorState → Key
boundary st = record { sent_at = (elim st.sent_at [ none ↦ 0 | some t ↦ t ]); doc_id = st.doc_id }
