-- ===== src/Mcp/Fetch/Stale.antt =====
-- internal/mcp/document.go: what a cursor that is accepted leads to.
use pocket_advisor.Prelude.{
  ℕ, suc, ◌+◌, ◌≡◌, refl, sym, subst, ◌∙◌, ◌⊎◌, inl, inr, Bool, true, false, not, ◌&&◌, ◌||◌, List,
  [], ◌∷◌, some, arith, Bytes, bytes_eq, bytes_eq→eq, ltb, leb, Bool-cases, Option-cases, length,
  get_elem?,
}
use pocket_advisor.Prelude.Runes.{starts_at}
use pocket_advisor.Mcp.Page.{ok, err, cursor_invalid, cursor_stale}
use pocket_advisor.Mcp.Documents.{phase_text, phase_attachments, DocumentMatch, DocumentPosition}
use pocket_advisor.Mcp.Fetch.Cursor.{
  CursorCodec, DocumentCursor, natural, is_number, is_empty, is_negative, document_cursor_version,
  cursor_refused, is_stale, decode_document_cursor, resolve_cursor, start_position,
}
use pocket_advisor.Mcp.Fetch.Turns.{Resumes}

not_refused :
    (a b c d e f : Bool)
    → (not a || not b || c || d || (not e && not f)) ≡ false
    → (b ≡ true) × ((e ≡ true) ⊎ (f ≡ true))
not_refused a b c d e f h = ground arith

not_stale :
    (a t u v w x : Bool)
    → (not a || (t && (u || not v)) || (w && x)) ≡ false
    → (a ≡ true) × (t ≡ true → (u ≡ false) × (v ≡ true)) × (w ≡ true → x ≡ false)
not_stale a t u v w x h = (ground arith, λ t_eq. (ground arith, ground arith), λ w_eq. ground arith)

ok_injective : {A : Type 0} {a b : A} → ok a ≡ ok b → a ≡ b
ok_injective h = cc

module _ {L : Type 0} (codec : CursorCodec) where
  -- What a cursor names, and where it leads.
  abbrev pub Leads : DocumentCursor → ℕ → List (DocumentMatch L) → DocumentPosition → Type 0
  Leads c k ms p =
      (i : ℕ) × (m : DocumentMatch L) × (p.index ≡ k + i)
      × (get_elem? ms i ≡ some m)
      × (m.header.doc_id ≡ c.doc_id)
      × (codec.text_hash m.text ≡ c.text_hash)
      × Resumes m p

  place_there :
      (c : DocumentCursor) (m : DocumentMatch L) (index : ℕ)
      → (bytes_eq c.phase phase_text ≡ true) ⊎ (bytes_eq c.phase phase_attachments ≡ true)
      → is_stale codec c m ≡ false
      → (codec.text_hash m.text ≡ c.text_hash)
        × Resumes m (record { index = index; phase = c.phase; offset = natural c.offset })
  place_there c m index phase fresh =
      let (hash, text_there, items_there) =
        not_stale (bytes_eq (codec.text_hash m.text) c.text_hash) (bytes_eq c.phase phase_text)
          (leb (length m.text) (natural c.offset)) (starts_at m.text (natural c.offset))
          (bytes_eq c.phase phase_attachments) (ltb (length m.attachments) (natural c.offset))
          fresh in
      (
        bytes_eq→eq (codec.text_hash m.text) c.text_hash hash,
        elim phase [
          | inl t ↦
              let (inside, begins) = text_there t in
              inl (bytes_eq→eq c.phase phase_text t, ground arith, begins)
          | inr a ↦
              let within = items_there a in
              inr (bytes_eq→eq c.phase phase_attachments a, ground arith)
        ],
      )

  resolve_cursor-Leads :
      (c : DocumentCursor) (k : ℕ) (ms : List (DocumentMatch L)) (p : DocumentPosition)
      → (bytes_eq c.phase phase_text ≡ true) ⊎ (bytes_eq c.phase phase_attachments ≡ true)
      → resolve_cursor codec c k ms ≡ ok p
      → Leads c k ms p
  unfolding resolve_cursor
  resolve_cursor-Leads c k [] p phase h = absurd (let bad : err cursor_stale ≡ ok p = h in cc)
  resolve_cursor-Leads c k (m ∷ ms) p phase h =
      elim (Bool-cases (bytes_eq m.header.doc_id c.doc_id)) [
        | inr other ↦
            let step : resolve_cursor codec c k (m ∷ ms) ≡ resolve_cursor codec c (suc k) ms =
              rw (resolve_cursor, other) refl in
            let (i, n, place, here, id, hash, resumes) =
              resolve_cursor-Leads c (suc k) ms p phase (sym step ∙ h) in
            (suc i, n, omega (arith, place), here, id, hash, resumes)
        | inl same ↦ elim (Bool-cases (is_stale codec c m)) [
          | inl stale ↦
              let step : resolve_cursor codec c k (m ∷ ms) ≡ err cursor_stale =
                rw (resolve_cursor, same, stale) refl in
              absurd (let bad : err cursor_stale ≡ ok p = sym step ∙ h in cc)
          | inr fresh ↦
              let there : DocumentPosition = record {
                index = k;
                phase = c.phase;
                offset = natural c.offset;
              } in
              let step : resolve_cursor codec c k (m ∷ ms) ≡ ok there =
                rw (resolve_cursor, same, fresh) refl in
              let (hash, resumes) = place_there c m k phase fresh in
              subst (Leads c k (m ∷ ms)) (ok_injective (sym step ∙ h))
                (0, m, omega arith, refl, bytes_eq→eq m.header.doc_id c.doc_id same, hash, resumes)
        ]
      ]

  -- A cursor that a lookup accepts was issued with the same fingerprint and leads into a match with
  -- the identifier and the text hash that it names, to an offset inside the text where a rune
  -- begins, or to an index not behind the attachments.
  pub start_position-Leads :
      (matches : List (DocumentMatch L)) (value fingerprint : Bytes) (p : DocumentPosition)
      → start_position codec matches (some value) fingerprint ≡ ok p
      → (c : DocumentCursor) × (codec.decode value ≡ some c)
        × (c.fingerprint ≡ fingerprint)
        × Leads c 0 matches p
  unfolding start_position decode_document_cursor
  start_position-Leads matches value fingerprint p h = elim (Option-cases (codec.decode value)) [
    | inl unread ↦
        let step : start_position codec matches (some value) fingerprint ≡ err cursor_invalid =
          rw (start_position, decode_document_cursor, unread) refl in
        absurd (let bad : err cursor_invalid ≡ ok p = sym step ∙ h in cc)
    | inr (c, read) ↦ elim (Bool-cases (cursor_refused c fingerprint)) [
      | inl refused ↦
          let step : start_position codec matches (some value) fingerprint ≡ err cursor_invalid =
            rw (start_position, decode_document_cursor, read, refused) refl in
          absurd (let bad : err cursor_invalid ≡ ok p = sym step ∙ h in cc)
      | inr taken ↦
          let step : start_position codec matches (some value) fingerprint
              ≡ resolve_cursor codec c 0 matches =
            rw (start_position, decode_document_cursor, read, taken) refl in
          let (same, phase) =
            not_refused (is_number document_cursor_version c.version)
              (bytes_eq c.fingerprint fingerprint) (is_empty c.doc_id) (is_negative c.offset)
              (bytes_eq c.phase phase_text) (bytes_eq c.phase phase_attachments) taken in
          (
            c,
            read,
            bytes_eq→eq c.fingerprint fingerprint same,
            resolve_cursor-Leads c 0 matches p phase (sym step ∙ h),
          )
    ]
  ]
