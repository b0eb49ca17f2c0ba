-- ===== src/Mailbox/Cursor/Preimage.antt =====
-- internal/mailbox/cursor.go: the length-prefixed text that `fingerprint` hashes tells apart any two
-- filter sets.
use mathlib.Core.List.{append_assoc, append-nil}
use pocket_advisor.Prelude.{
  ℕ, zero, suc, ◌+◌, ◌-◌, ◌*◌, ◌/◌, ◌%◌, ◌<◌, ◌≡◌, ◌≢◌, refl, ap, sym, ◌∙◌, inl, inr, [], ◌∷◌, ◌++◌,
  arith, Bytes, leb, length, All, Bool-cases,
}
use pocket_advisor.Mailbox.Store.{Filters}
use pocket_advisor.Mailbox.Cursor.{
  Codec, itoa, itoa_from, prefixed, preimage, direction_text, time_fingerprint,
}

-- The number that decimal digits stand for, after `n`.
value_from : ℕ → Bytes → ℕ
value_from n [] = n
value_from n (d ∷ ds) = value_from (n * 10 + (d - b'0')) ds

value-itoa_from :
    (fuel n : ℕ) (out : Bytes) → n < fuel → value_from 0 (itoa_from fuel n out) ≡ value_from n out
unfolding value_from itoa_from
value-itoa_from zero n out h = elim h [ ]
value-itoa_from (suc fuel) n out h = elim (Bool-cases (leb 10 n)) [
  | inl more ↦
      rw (more, itoa_from)
        (value-itoa_from fuel (n / 10) ((b'0' + n % 10) ∷ out) (ground arith)
          ∙ ap (λ (k : ℕ). value_from k out) (omega arith))
  | inr last ↦ rw (last, itoa_from) (ap (λ (k : ℕ). value_from k out) (omega arith))
]

itoa-injective : (m n : ℕ) → itoa m ≡ itoa n → m ≡ n
unfolding itoa value_from
itoa-injective m n h =
    sym (value-itoa_from (suc m) m [] (omega arith))
    ∙ ap (value_from 0) h
    ∙ value-itoa_from (suc n) n [] (omega arith)

-- No digit is a colon.
abbrev NoColon : Bytes → Type 0
NoColon = All (λ b. b ≢ b':')

itoa_from-NoColon : (fuel n : ℕ) (out : Bytes) → NoColon out → NoColon (itoa_from fuel n out)
unfolding itoa_from
itoa_from-NoColon zero n out h = h
itoa_from-NoColon (suc fuel) n out h = elim (Bool-cases (leb 10 n)) [
  | inl more ↦
      rw (more, itoa_from)
        (itoa_from-NoColon fuel (n / 10) ((b'0' + n % 10) ∷ out) ((λ e. absurd (omega arith)), h))
  | inr last ↦ rw (last, itoa_from) ((λ e. absurd (ground arith)), h)
]

split_colon :
    (ds es xs ys : Bytes)
    → NoColon ds
    → NoColon es
    → ds ++ (b':' ∷ xs) ≡ es ++ (b':' ∷ ys)
    → (ds ≡ es) × (xs ≡ ys)
split_colon [] [] xs ys h k e = ground arith
split_colon [] (d ∷ es) xs ys h k e = absurd (k.0 (ground arith))
split_colon (d ∷ ds) [] xs ys h k e = absurd (h.0 (ground arith))
split_colon (d ∷ ds) (f ∷ es) xs ys h k e = ground (arith, split_colon ds es xs ys h.1 k.1)

split_length :
    (xs ys as' bs : Bytes) → length xs ≡ length ys → xs ++ as' ≡ ys ++ bs → (xs ≡ ys) × (as' ≡ bs)
split_length [] [] as' bs h e = (refl, e)
split_length [] (y ∷ ys) as' bs h e = absurd (omega arith)
split_length (x ∷ xs) [] as' bs h e = absurd (omega arith)
split_length (x ∷ xs) (y ∷ ys) as' bs h e = ground (arith, split_length xs ys as' bs)

prefixed-append : (s r : Bytes) → prefixed s ++ r ≡ itoa (length s) ++ (b':' ∷ (s ++ r))
unfolding prefixed
prefixed-append s r = append_assoc (itoa (length s)) (b':' ∷ s) r

itoa-NoColon : (n : ℕ) → NoColon (itoa n)
unfolding itoa
itoa-NoColon n = itoa_from-NoColon (suc n) n [] tt

-- A prefixed text can be read back from the front of what follows it.
prefixed_parts : (s t as' bs : Bytes) → prefixed s ++ as' ≡ prefixed t ++ bs → (s ≡ t) × (as' ≡ bs)
prefixed_parts s t as' bs e =
    let (lengths, rest) =
      split_colon (itoa (length s)) (itoa (length t)) (s ++ as') (t ++ bs) (itoa-NoColon (length s))
        (itoa-NoColon (length t)) (sym (prefixed-append s as') ∙ (e ∙ prefixed-append t bs)) in
    split_length s t as' bs (itoa-injective (length s) (length t) lengths) rest

prefixed_last : (s t : Bytes) → prefixed s ≡ prefixed t → s ≡ t
prefixed_last s t e =
    (prefixed_parts s t [] [] (append-nil (prefixed s) ∙ (e ∙ sym (append-nil (prefixed t))))).0

time_fingerprint_injective :
    (c : Codec)
    → ((t : ℕ) → c.format_time t ≢ [])
    → ((t u : ℕ) → c.format_time t ≡ c.format_time u → t ≡ u)
    → (t u : ℕ) → time_fingerprint c t ≡ time_fingerprint c u
    → t ≡ u
unfolding time_fingerprint
time_fingerprint_injective c nonempty inj t u e = ground (arith, nonempty t, nonempty u, inj t u)

-- Two filter sets with the same text to hash are the same in every field, the direction by its
-- text, where the text of an instant is not empty and tells instants apart.
pub preimage_injective :
    (c : Codec) (f g : Filters)
    → ((t : ℕ) → c.format_time t ≢ [])
    → ((t u : ℕ) → c.format_time t ≡ c.format_time u → t ≡ u)
    → preimage c f ≡ preimage c g
    → (f.sender ≡ g.sender)
      × (f.sender_domain ≡ g.sender_domain)
      × (f.recipient ≡ g.recipient)
      × (direction_text f.direction ≡ direction_text g.direction)
      × (f.after ≡ g.after)
      × (f.before ≡ g.before)
unfolding preimage
preimage_injective c f g nonempty inj e =
    let (_, e1) = prefixed_parts _ _ _ _ e in
    let (sender, e2) = prefixed_parts _ _ _ _ e1 in
    let (domain, e3) = prefixed_parts _ _ _ _ e2 in
    let (recipient, e4) = prefixed_parts _ _ _ _ e3 in
    let (direction, e5) = prefixed_parts _ _ _ _ e4 in
    let (after, e6) = prefixed_parts _ _ _ _ e5 in
    (
      sender,
      domain,
      recipient,
      direction,
      time_fingerprint_injective c nonempty inj f.after g.after after,
      time_fingerprint_injective c nonempty inj f.before g.before (prefixed_last _ _ e6),
    )
