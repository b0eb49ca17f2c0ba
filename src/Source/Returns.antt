-- ===== src/Source/Returns.antt =====
-- internal/source/source.go: every way in which a document is read.
use pocket_advisor.Prelude.{
  ℕ, ◌≡◌, refl, subst, ◌⊎◌, inl, inr, List, [], ◌∷◌, none, some, arith, Bytes, Option-cases, length,
  bytes_Eq,
}
use pocket_advisor.Source.Resolver.{
  Disk, Root, File, ReadReply, got, failed, SourceError, read_file,
}
use pocket_advisor.Source.Replay.{
  ReplayBudget, Member, Archive, spend, spend_all, delivered, find_child, try_members, try_files,
  worse,
}
use pocket_advisor.Source.Checked.{
  Fewer, Paid, Fewer-refl, Fewer-trans, Fewer-Paid, spend-Paid, spend_all-Fewer, Matches, Hashed,
  read_file-Hashed, find_child-Paid,
}

ReadReply-cases :
    (r : ReadReply) → ((e : SourceError) × (r ≡ failed e)) ⊎ ((content : Bytes) × (r ≡ got content))
ReadReply-cases (failed e) = inl (e, refl)
ReadReply-cases (got content) = inr (content, refl)

-- A reply with bytes is paid for, and any other leaves no more than there was.
abbrev pub Fair : ReplayBudget → ReadReply → ReplayBudget → Type 0
Fair b (failed e) b' = Fewer b b'
Fair b (got content) b' = Paid (length content) b b'

Fewer-Fair :
    (a b : ReplayBudget) (r : ReadReply) (c : ReplayBudget) → Fewer a b → Fair b r c → Fair a r c
Fewer-Fair a b (failed e) c h k = Fewer-trans a b c h k
Fewer-Fair a b (got content) c h k = Fewer-Paid a b c (length content) h k

Paid-Fewer : (k : ℕ) (a b : ReplayBudget) → Paid k a b → Fewer a b
Paid-Fewer k a none h = tt
Paid-Fewer k none (some n) h = h
Paid-Fewer k (some m) (some n) h = omega (arith, h)

module _ (d : Disk) (roots : List Root) (a : Archive) where
  abbrev pub Settled : Bytes → ReplayBudget → ReadReply × ReplayBudget → Type 0
  Settled sha b (r, b') = Hashed d roots a sha r × Fair b r b'

  later_reply :
      (sha : Bytes) (b c : ReplayBudget) (x : ReadReply × ReplayBudget)
      → Fewer b c
      → Settled sha c x
      → Settled sha b x
  later_reply sha b c (r, b') h (hash, fair) = (hash, Fewer-Fair b c r b' h fair)

  module _ (sha : Bytes) (read_parent : Bytes → Bytes → ReplayBudget → ReadReply × ReplayBudget)
      (parent_fair : (id expected : Bytes) (b : ReplayBudget)
        → Fair b (read_parent id expected b).0 (read_parent id expected b).1) where
    try_members-Settled :
        (ms : List Member) (e : SourceError) (b : ReplayBudget)
        → Settled sha b (try_members d roots a sha read_parent ms e b)
    unfolding try_members
    try_members-Settled [] e b = (tt, Fewer-refl b)
    try_members-Settled (m ∷ ms) e b = elim (Option-cases (a.source_record m.parent_id)) [
      | inl missing ↦ rw (try_members, missing) (try_members-Settled ms e b)
      | inr (parent, there) ↦
          let reply = read_parent m.parent_id parent.sha256 b in
          let fair = parent_fair m.parent_id parent.sha256 b in
          elim (ReadReply-cases reply.0) [
            | inl (e', lost) ↦
                let fewer : Fewer b reply.1 = subst (λ r. Fair b r reply.1) lost fair in
                rw (try_members, there, lost)
                  (later_reply sha b reply.1 _ fewer (try_members-Settled ms (worse e' e) reply.1))
            | inr (content, read_there) ↦
                let paid : Paid (length content) b reply.1 =
                  subst (λ r. Fair b r reply.1) read_there fair in
                let fewer = Paid-Fewer (length content) b reply.1 paid in
                elim (Option-cases (a.children content parent.mime_type parent.filename)) [
                  | inl packed ↦
                      rw (try_members, there, read_there, packed)
                        (later_reply sha b reply.1 _ fewer (try_members-Settled ms e reply.1))
                  | inr (children, unpacked) ↦ elim (Option-cases (spend_all children reply.1)) [
                    | inl over ↦ rw (try_members, there, read_there, unpacked, over) (tt, tt)
                    | inr (left, within) ↦
                        elim (Option-cases (find_child d roots a m.selector sha children)) [
                          | inl nowhere ↦
                              let fewer_left : Fewer reply.1 (some left) =
                                subst (Fewer reply.1) within (spend_all-Fewer children reply.1) in
                              rw (try_members, there, read_there, unpacked, within, nowhere)
                                (later_reply sha b (some left) _
                                  (Fewer-trans b reply.1 (some left) fewer fewer_left)
                                  (try_members-Settled ms e (some left)))
                          | inr (x, found) ↦
                              let (hash, paid_x) =
                                find_child-Paid d roots a m.selector sha children reply.1 left x
                                  within found in
                              rw (try_members, there, read_there, unpacked, within, found)
                                (inr hash, Fewer-Paid b reply.1 (some left) (length x) fewer paid_x)
                        ]
                  ]
                ]
          ]
    ]

    delivered-Settled :
        (content : Bytes) (b : ReplayBudget)
        → Matches d roots a sha content
        → Settled sha b (delivered content (spend b (length content)))
    delivered-Settled content b hash = elim (Option-cases (spend b (length content))) [
      | inl over ↦ rw over (tt, tt)
      | inr (left, within) ↦ rw within (hash, spend-Paid b (length content) left within)
    ]

    pub try_files-Settled :
        (fs : List File) (ms : List Member) (e : SourceError) (b : ReplayBudget)
        → Settled sha b (try_files d roots a sha read_parent fs ms e b)
    unfolding try_files
    try_files-Settled [] ms e b = try_members-Settled ms e b
    try_files-Settled (f ∷ fs) ms e b =
        let file : File = record f { sha256 = sha } in
        elim (ReadReply-cases (read_file d roots file)) [
          | inl (e', lost) ↦ rw (try_files, lost) (try_files-Settled fs ms (worse e' e) b)
          | inr (content, read_there) ↦
              let hash : Matches d roots a sha content =
                subst (Hashed d roots a sha) read_there (read_file-Hashed d roots a file) in
              rw (try_files, read_there) (delivered-Settled content b hash)
        ]
