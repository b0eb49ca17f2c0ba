-- ===== src/Workspace/Ignore.antt =====
-- internal/workspace/ignore.go: the ignore rules of a workspace. `path.Match`, which gives none for a
-- malformed pattern, and `strings.ToLower` are arguments. Paths are those of a system whose separator
-- is the slash.
pub mod Segments
pub mod Rules
pub mod Examples
use pocket_advisor.Prelude.{
  ℕ, zero, suc, ◌+◌, ◌-◌, Bool, true, false, not, ◌&&◌, ◌||◌, List, [], ◌∷◌, ◌++◌, Option, none,
  some, Bytes, bytes, bytes_eq, ltb, ◌==◌, if◌then◌else◌, length, take,
}
use pocket_advisor.Prelude.Runes.{trim}

pub record Rule : Type 0 where
  pub segs : List Bytes
  pub name : Bool
  pub negate : Bool
  pub directory : Bool

-- The errors of `CompileIgnore`, with the number of the entry.
pub data IgnoreError : Type 0 where
  empty_entry negates_nothing no_pattern malformed : ℕ → IgnoreError

pub data Compiled {ℓ} (A : Type ℓ) : Type ℓ where
  ok : A → Compiled A
  err : IgnoreError → Compiled A

infixl 5 ◌>>=◌
abbrev pub ◌>>=◌ {ℓ κ} : {A : Type ℓ} {B : Type κ} → Compiled A → (A → Compiled B) → Compiled B
ok a >>= f = f a
err e >>= f = err e

abbrev pub is_none {ℓ} : {A : Type ℓ} → List A → Bool
is_none [] = true
is_none (x ∷ xs) = false

abbrev pub slash : ℕ
slash = b'/'

-- `strings.Split(s, "/")`.
unfoldable pub split_slash : Bytes → List Bytes
split_slash [] = [] ∷ []
split_slash (b ∷ s) =
    let rest = split_slash s in
    if b == slash
    then [] ∷ rest
    else elim rest [ [] ↦ (b ∷ []) ∷ [] | seg ∷ segs ↦ (b ∷ seg) ∷ segs ]

unfoldable pub has_slash : Bytes → Bool
has_slash [] = false
has_slash (b ∷ s) = (b == slash) || has_slash s

-- `strings.HasSuffix(s, "/")` and `strings.TrimSuffix(s, "/")`.
unfoldable pub ends_in_slash : Bytes → Bool
ends_in_slash [] = false
ends_in_slash (b ∷ s) = elim s [ [] ↦ b == slash | c ∷ t ↦ ends_in_slash s ]

unfoldable pub trim_slash : Bytes → Bytes
unfolding ends_in_slash
trim_slash s = if ends_in_slash s then take (length s - 1) s else s

abbrev pub begins_with : ℕ → Bytes → Bool
begins_with a [] = false
begins_with a (b ∷ s) = b == a

abbrev pub rest_of : Bytes → Bytes
rest_of [] = []
rest_of (b ∷ s) = s

abbrev pub stars : Bytes
stars = b'*' ∷ b'*' ∷ []

-- `r.segs[0]`.
abbrev pub first_seg : List Bytes → Bytes
first_seg [] = []
first_seg (s ∷ ss) = s

-- A test of a list and of each of its tails.
unfoldable pub some_tail {ℓ} : {A : Type ℓ} → (List A → Bool) → List A → Bool
some_tail p [] = p []
some_tail p (x ∷ xs) = p (x ∷ xs) || some_tail p xs

abbrev pub last_seg : List Bytes → Bytes
last_seg [] = []
last_seg (s ∷ []) = s
last_seg (s ∷ t ∷ ss) = last_seg (t ∷ ss)

-- The loops of `Match` and `MatchName`, with the verdict so far.
unfoldable pub verdict_of : (Rule → Bool) → List Rule → Bool → Bool
verdict_of p [] ignored = ignored
verdict_of p (r ∷ rs) ignored = verdict_of p rs (if p r then not r.negate else ignored)

abbrev pub trim_here : Bytes → Bytes
trim_here (a ∷ b ∷ s) = if (a == b'.') && (b == slash) then s else a ∷ b ∷ s
trim_here s = s

-- What a pattern has before its first dot, and from it on.
unfoldable pub split_dot : Bytes → Option (Bytes × Bytes)
split_dot [] = none
split_dot (b ∷ s) =
    let rest = split_dot s in
    if b == b'.'
    then some ([], b ∷ s)
    else elim rest [ none ↦ none | some (stem, suffix) ↦ some (b ∷ stem, suffix) ]

module _ (path_match : Bytes → Bytes → Option Bool) (lower : Bytes → Bytes) where
  -- The check of the segments in `CompileIgnore`.
  unfoldable pub well_formed : List Bytes → Bool
  well_formed [] = true
  well_formed (seg ∷ segs) =
      (bytes_eq seg stars || elim (path_match seg []) [ none ↦ false | some b ↦ true ])
      && well_formed segs

  -- The body of the loop of `CompileIgnore`, for the entry with the number `i`.
  unfoldable pub compile_rule : ℕ → Bytes → Compiled Rule
  unfolding well_formed trim_slash split_slash has_slash
  compile_rule i raw =
      let p = trim raw in
      let negated = begins_with b'!' p in
      let q = if negated then trim (rest_of p) else p in
      let body = trim_slash q in
      let segs = split_slash body in
      if is_none p
      then err (empty_entry i)
      else if negated && is_none q
      then err (negates_nothing i)
      else if is_none body
      then err (no_pattern i)
      else if not (well_formed segs)
      then err (malformed i)
      else ok (record {
        segs = segs;
        name = not (has_slash body);
        negate = negated;
        directory = ends_in_slash q;
      })

  -- `CompileIgnore`.
  unfoldable pub compile_from : ℕ → List Bytes → Compiled (List Rule)
  unfolding compile_rule
  compile_from i [] = ok []
  compile_from i (raw ∷ raws) =
      compile_rule i raw >>= λ r. compile_from (suc i) raws >>= λ rs. ok (r ∷ rs)

  abbrev pub compile_ignore : List Bytes → Compiled (List Rule)
  compile_ignore = compile_from 1

  abbrev pub matched : Bytes → Bytes → Bool
  matched pat name = elim (path_match pat name) [ none ↦ false | some b ↦ b ]

  -- The loop of `matchSegment` over the dots of the name, with the part before.
  unfoldable pub match_dots : Bytes → Bytes → Bytes → Bytes → Bool
  match_dots stem suffix before [] = false
  match_dots stem suffix before (b ∷ s) =
      ((b == b'.') && matched stem before && matched suffix (lower (b ∷ s)))
      || match_dots stem suffix (before ++ b ∷ []) s

  unfoldable pub match_segment : Bytes → Bytes → Bool
  unfolding split_dot match_dots
  match_segment pat name = if matched pat name then true else elim (split_dot pat) [
    | none ↦ false
    | some (stem, suffix) ↦ match_dots stem (lower suffix) [] name
  ]

  unfoldable pub match_segments : List Bytes → List Bytes → Bool
  unfolding match_segment some_tail
  match_segments [] names = is_none names
  match_segments (p ∷ ps) names =
      let deeper = some_tail (match_segments ps) names in
      let one : Bool = elim names [
        | [] ↦ false
        | n ∷ ns ↦ match_segment p n && match_segments ps ns
      ] in
      if bytes_eq p stars then (if is_none ps then not (is_none names) else deeper) else one

  -- `ignoreRule.matches` for a directory rule: the ancestors of the file, `before` it.
  unfoldable pub match_ancestors : Rule → List Bytes → List Bytes → Bool
  unfolding match_segments
  match_ancestors r before [] = false
  match_ancestors r before (seg ∷ segs) =
      let here =
        if r.name
        then match_segment (first_seg r.segs) seg
        else match_segments r.segs (before ++ seg ∷ []) in
      if is_none segs then false else here || match_ancestors r (before ++ seg ∷ []) segs

  unfoldable pub rule_matches : Rule → List Bytes → Bool
  unfolding match_ancestors
  rule_matches r segs =
      if r.directory
      then match_ancestors r [] segs
      else if r.name
      then match_segment (first_seg r.segs) (last_seg segs)
      else match_segments r.segs segs

  -- `Match`.
  unfoldable pub match : List Rule → Bytes → Bool
  unfolding rule_matches verdict_of split_slash
  match rules rel =
      let segs = split_slash (trim_here rel) in
      if is_none rules then false else verdict_of (λ r. rule_matches r segs) rules false

  unfoldable pub names_member : Bytes → Rule → Bool
  unfolding match_segment
  names_member name r = r.name && not r.directory && match_segment (first_seg r.segs) name

  -- `MatchName`.
  unfoldable pub match_name : List Rule → Bytes → Bool
  unfolding names_member verdict_of
  match_name rules name = verdict_of (names_member name) rules false
