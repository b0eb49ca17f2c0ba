-- ===== src/Mcp/Fetch/Resume.antt =====
-- internal/mcp/document.go: a cursor leads back to the position that it was issued for.
use pocket_advisor.Prelude.{
  ℕ, zero, suc, ◌+◌, ◌≤◌, ◌≡◌, refl, ap, ◌∙◌, inl, inr, true, false, List, [], ◌∷◌, some, arith,
  Bytes, bytes_eq, bytes_eq_refl, bytes_eq→eq, ltb, leb, Bool-cases, length, get_elem?, contains,
  bytes_Eq, Distinct,
}
use pocket_advisor.Mcp.Page.{ok}
use pocket_advisor.Mcp.Documents.{max_cursor_bytes, DocumentMatch, DocumentPosition}
use pocket_advisor.Mcp.Fetch.Cursor.{
  CursorCodec, cursor_of, decode_document_cursor, encode_document_cursor, resolve_cursor,
  start_position, issue_cursor, is_empty,
}
use pocket_advisor.Mcp.Fetch.Turns.{Resumes}

abbrev pub doc_ids : {L : Type 0} → List (DocumentMatch L) → List Bytes
doc_ids [] = []
doc_ids (m ∷ ms) = m.header.doc_id ∷ doc_ids ms

contains_there :
    {L : Type 0} (ms : List (DocumentMatch L)) (i : ℕ) (m : DocumentMatch L)
    → get_elem? ms i ≡ some m
    → contains (doc_ids ms) m.header.doc_id ≡ true
contains_there [] i m e = absurd cc
contains_there (n ∷ ms) zero m e =
    let same : n ≡ m = cc in
    let eq = ap (λ k. bytes_eq k.header.doc_id m.header.doc_id) same in
    rw (eq, bytes_eq_refl m.header.doc_id) refl
contains_there (n ∷ ms) (suc i) m e = ground (arith, contains_there ms i m e)

module _ {L : Type 0} (codec : CursorCodec) (fingerprint : Bytes) where
  -- The cursor is as it was issued, and the text of its match did not change.
  resolve_here :
      (m : DocumentMatch L) (p : DocumentPosition) (k : ℕ) (ms : List (DocumentMatch L))
      → Resumes m p
      → resolve_cursor codec (cursor_of codec m p fingerprint) k (m ∷ ms)
        ≡ ok (record { index = k; phase = p.phase; offset = p.offset })
  unfolding resolve_cursor
  resolve_here m p k ms (inl (phase, inside, begins)) =
      let within : leb (length m.text) p.offset ≡ false = ground arith in
      rw
        (
          resolve_cursor,
          bytes_eq_refl m.header.doc_id,
          bytes_eq_refl (codec.text_hash m.text),
          phase,
          within,
          begins,
        )
        refl
  resolve_here m p k ms (inr (phase, inside)) =
      let within : ltb (length m.attachments) p.offset ≡ false = ground arith in
      rw
        (
          resolve_cursor,
          bytes_eq_refl m.header.doc_id,
          bytes_eq_refl (codec.text_hash m.text),
          phase,
          within,
        )
        refl

  resolve_from :
      (ms : List (DocumentMatch L)) (i k : ℕ) (m : DocumentMatch L) (p : DocumentPosition)
      → get_elem? ms i ≡ some m
      → Distinct (doc_ids ms)
      → Resumes m p
      → resolve_cursor codec (cursor_of codec m p fingerprint) k ms
        ≡ ok (record { index = k + i; phase = p.phase; offset = p.offset })
  unfolding resolve_cursor
  resolve_from [] i k m p e d r = absurd cc
  resolve_from (n ∷ ms) zero k m p e d r =
      let same : n ≡ m = cc in
      let plus : k ≡ k + 0 = omega arith in
      ap (λ x. resolve_cursor codec (cursor_of codec m p fingerprint) k (x ∷ ms)) same
      ∙ (resolve_here m p k ms r
          ∙ ap (λ j. ok (record { index = j; phase = p.phase; offset = p.offset })) plus)
  resolve_from (n ∷ ms) (suc i) k m p e d r =
      let there = contains_there ms i m e in
      let other : bytes_eq n.header.doc_id m.header.doc_id ≡ false =
        elim (Bool-cases (bytes_eq n.header.doc_id m.header.doc_id)) [
          | inr differ ↦ differ
          | inl same ↦
              let eq = bytes_eq→eq n.header.doc_id m.header.doc_id same in
              let back = ap (contains (doc_ids ms)) eq in absurd cc
        ] in
      let plus : suc k + i ≡ k + suc i = omega arith in
      rw (resolve_cursor, other)
        (resolve_from ms i (suc k) m p e d.1 r
          ∙ ap (λ j. ok (record { index = j; phase = p.phase; offset = p.offset })) plus)

  -- The JSON of a cursor comes back as it was written, and a cursor is within the bound.
  abbrev pub CursorsKeep : List (DocumentMatch L) → Type 0
  CursorsKeep matches =
      (m : DocumentMatch L) (p : DocumentPosition)
      → get_elem? matches p.index ≡ some m
      → Resumes m p
      → (encoded : Bytes) × (codec.encode (cursor_of codec m p fingerprint) ≡ some encoded)
        × (length encoded ≤ max_cursor_bytes)
        × (codec.decode encoded ≡ some (cursor_of codec m p fingerprint))

  decoded :
      (m : DocumentMatch L) (p : DocumentPosition) (encoded : Bytes)
      → codec.decode encoded ≡ some (cursor_of codec m p fingerprint)
      → is_empty m.header.doc_id ≡ false
      → Resumes m p
      → decode_document_cursor codec encoded fingerprint ≡ ok (cursor_of codec m p fingerprint)
  unfolding decode_document_cursor
  decoded m p encoded e named (inl (phase, rest, begins)) =
      rw (decode_document_cursor, e, bytes_eq_refl fingerprint, named, phase) refl
  decoded m p encoded e named (inr (phase, rest)) =
      rw (decode_document_cursor, e, bytes_eq_refl fingerprint, named, phase) refl

  -- The cursor issued for a position in a match is within the bound and leads back to that
  -- position, for matches with distinct identifiers, an identifier that is not empty, and cursors
  -- that are within the bound and read back as written.
  pub issue_cursor-start_position :
      (matches : List (DocumentMatch L)) (m : DocumentMatch L) (p : DocumentPosition)
      → CursorsKeep matches
      → Distinct (doc_ids matches)
      → get_elem? matches p.index ≡ some m
      → is_empty m.header.doc_id ≡ false
      → Resumes m p
      → (encoded : Bytes) × (issue_cursor codec matches (some p) fingerprint ≡ ok (some encoded))
        × (length encoded ≤ max_cursor_bytes)
        × (start_position codec matches (some encoded) fingerprint ≡ ok p)
  unfolding issue_cursor encode_document_cursor start_position
  issue_cursor-start_position matches m p keep d there named r =
      let (encoded, written, bound, read) = keep m p there r in
      let within : ltb max_cursor_bytes (length encoded) ≡ false = ground (arith, bound) in
      (
        encoded,
        rw (issue_cursor, encode_document_cursor, there, written, within) refl,
        bound,
        rw (start_position, decoded m p encoded read named r)
            (resolve_from matches p.index 0 m p there d r
              ∙ ap (λ i. ok (record { index = i; phase = p.phase; offset = p.offset }))
                  {x = 0 + p.index} {y = p.index} (omega arith)),
      )
