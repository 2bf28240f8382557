-- ===== src/Graph/Names/Pieces.antt =====
-- The pieces that `name_lines` breaks a name into.
use mathlib.Core.List.{append_assoc}
use stable_mir_json.Prelude.{
  ℕ, zero, suc, ◌≤◌, ◌<◌, ◌≡◌, ◌≢◌, ◌⊎◌, inl, inr, Bool, false, Bool-cases, nat_beq, nat_beq_iff,
  subst, refl, ap, ◌∙◌, sym, List, [], ◌∷◌, ◌++◌, ok, arith, length, All, txt, join, true,
  All-append, All-split,
}
use stable_mir_json.Mir.{Text}
use stable_mir_json.Graph.Names.{
  cons_first, split_inclusive, chunks, all_chunks, is_utf8, check_utf8, pieces, name_lines,
}

pub concat : List Text → Text
concat [] = []
concat (p ∷ ps) = p ++ concat ps

concat-cons_first : (b : ℕ) (ps : List Text) → concat (cons_first b ps) ≡ b ∷ concat ps
unfolding concat
concat-cons_first b [] = refl
concat-cons_first b (p ∷ ps) = refl

concat-append : (ps qs : List Text) → concat (ps ++ qs) ≡ concat ps ++ concat qs
unfolding concat
concat-append [] qs = refl
concat-append (p ∷ ps) qs = rw (concat-append ps qs) (sym (append_assoc p (concat ps) (concat qs)))

concat-split_inclusive : (t : Text) → concat (split_inclusive t) ≡ t
unfolding concat split_inclusive
concat-split_inclusive [] = refl
concat-split_inclusive (b ∷ t) =
    ground (arith, concat-split_inclusive t, concat-cons_first b (split_inclusive t))

concat-chunks : (room : ℕ) (t : Text) → concat (chunks room t) ≡ t
unfolding concat chunks
concat-chunks room [] = refl
concat-chunks zero (b ∷ t) = ap (λ u. b ∷ u) (concat-chunks 24 t)
concat-chunks (suc room) (b ∷ t) =
    concat-cons_first b (chunks room t) ∙ ap (λ u. b ∷ u) (concat-chunks room t)

concat-all_chunks : (ps : List Text) → concat (all_chunks ps) ≡ concat ps
unfolding concat all_chunks
concat-all_chunks [] = refl
concat-all_chunks (p ∷ ps) =
    concat-append (chunks 24 p) (all_chunks ps)
    ∙ rw (concat-chunks 24 p) (ap (λ u. p ++ u) (concat-all_chunks ps))

abbrev pub IsShort : Text → Type 0
IsShort p = (0 < length p) × (length p ≤ 25)

-- The first chunk fits in the room, and the others are short.
abbrev Fits : ℕ → List Text → Type 0
Fits room [] = Unit
Fits room (p ∷ ps) = (0 < length p) × (length p ≤ suc room) × All IsShort ps

All-Fits : (room : ℕ) → room ≤ 24 → (ps : List Text) → Fits room ps → All IsShort ps
All-Fits room h [] k = tt
All-Fits room h (p ∷ ps) k = ((k.0, omega arith), k.2)

Fits-chunks : (room : ℕ) → room ≤ 24 → (t : Text) → Fits room (chunks room t)
unfolding chunks
Fits-chunks room h [] = tt
Fits-chunks zero h (b ∷ t) = (
  omega arith,
  omega arith,
  All-Fits 24 (omega arith) (chunks 24 t) (Fits-chunks 24 (omega arith) t),
)
Fits-chunks (suc room) h (b ∷ t) =
    elim (chunks room t) as (λ ps. Fits room ps → Fits (suc room) (cons_first b ps)) [
      | [] ↦ λ k. (omega arith, omega arith, tt)
      | p ∷ ps ↦ λ k. (omega arith, omega arith, k.2)
    ]
      (Fits-chunks room (omega arith) t)

All-all_chunks : (ps : List Text) → All IsShort (all_chunks ps)
unfolding all_chunks
All-all_chunks [] = tt
All-all_chunks (p ∷ ps) =
    All-append IsShort (chunks 24 p) (all_chunks ps)
      (All-Fits 24 (omega arith) (chunks 24 p) (Fits-chunks 24 (omega arith) p)) (All-all_chunks ps)

abbrev pub IsAscii : ℕ → Type 0
IsAscii b = b < 128

is_utf8-ascii : (t : Text) → All IsAscii t → is_utf8 0 128 191 t ≡ true
unfolding is_utf8
is_utf8-ascii [] h = refl
is_utf8-ascii (b ∷ t) h = ground (arith, h.0, is_utf8-ascii t h.1)

check_utf8-ascii : (ps : List Text) → All IsAscii (concat ps) → check_utf8 ps ≡ ok ps
unfolding check_utf8 concat
check_utf8-ascii [] h = refl
check_utf8-ascii (p ∷ ps) h =
    let (now, later) = All-split IsAscii p (concat ps) h in
    rw (check_utf8-ascii ps later) (rw (is_utf8-ascii p now) refl)

-- A space is at the end of the piece only.
abbrev pub HasSpaceLast : Text → Type 0
HasSpaceLast [] = Unit
HasSpaceLast (b ∷ []) = Unit
HasSpaceLast (b ∷ a ∷ t) = (b ≢ 32) × HasSpaceLast (a ∷ t)

abbrev pub ends_in_space : Text → Bool
ends_in_space [] = false
ends_in_space (b ∷ []) = nat_beq b 32
ends_in_space (b ∷ a ∷ t) = ends_in_space (a ∷ t)

-- Every piece but the last one is full or ends in a space.
abbrev pub IsBroken : List Text → Type 0
IsBroken [] = Unit
IsBroken (p ∷ []) = Unit
IsBroken (p ∷ q ∷ ps) = ((length p ≡ 25) ⊎ (ends_in_space p ≡ true)) × IsBroken (q ∷ ps)

-- Words: each ends at its first space, and each but the last one ends in a space.
abbrev IsWords : List Text → Type 0
IsWords [] = Unit
IsWords (p ∷ []) = (0 < length p) × HasSpaceLast p
IsWords (p ∷ q ∷ ps) = (0 < length p) × HasSpaceLast p × (ends_in_space p ≡ true) × IsWords (q ∷ ps)

cons_first-IsWords : (b : ℕ) (ps : List Text) → b ≢ 32 → IsWords ps → IsWords (cons_first b ps)
cons_first-IsWords b [] other h = (omega arith, tt)
cons_first-IsWords b ([] ∷ []) other h = absurd (omega (arith, h.0))
cons_first-IsWords b ((a ∷ p) ∷ []) other h = (omega arith, (other, h.1))
cons_first-IsWords b ([] ∷ q ∷ ps) other h = absurd (omega (arith, h.0))
cons_first-IsWords b ((a ∷ p) ∷ q ∷ ps) other h = (omega arith, (other, h.1), h.2, h.3)

space_first : (ps : List Text) → IsWords ps → IsWords ((32 ∷ []) ∷ ps)
space_first [] h = (omega arith, tt)
space_first (p ∷ ps) h = (omega arith, tt, refl, h)

split_inclusive-IsWords : (t : Text) → IsWords (split_inclusive t)
unfolding split_inclusive
split_inclusive-IsWords [] = tt
split_inclusive-IsWords (b ∷ t) = elim (Bool-cases (nat_beq b 32)) [
  | inl space ↦
      let e : 32 ≡ b = sym ((nat_beq_iff b 32).0 space) in
      rw space (
        subst (λ b. IsWords ((b ∷ []) ∷ split_inclusive t)) e
          (space_first (split_inclusive t) (split_inclusive-IsWords t)))
  | inr other ↦ rw other (
      cons_first-IsWords b (split_inclusive t) (λ e. ground (arith, (nat_beq_iff b 32).1 e))
        (split_inclusive-IsWords t))
]

-- The chunks of a word, of which the first has so many bytes if there are more: no space but at the
-- end of the last one, which ends as the word does.
abbrev IsChunked : ℕ → Bool → List Text → Type 0
IsChunked size last [] = Unit
IsChunked size last (p ∷ []) = HasSpaceLast p × (ends_in_space p ≡ last)
IsChunked size last (p ∷ q ∷ ps) = HasSpaceLast p × (length p ≡ size) × IsChunked 25 last (q ∷ ps)

cons_first-IsChunked :
    (b : ℕ) (size : ℕ) (last : Bool) (p : Text) (ps : List Text)
    → 0 < length p
    → b ≢ 32
    → IsChunked size last (p ∷ ps)
    → IsChunked (suc size) last ((b ∷ p) ∷ ps)
cons_first-IsChunked b size last [] ps full other h = absurd (omega arith)
cons_first-IsChunked b size last (a ∷ p) [] full other h = ((other, h.0), h.1)
cons_first-IsChunked b size last (a ∷ p) (q ∷ ps) full other h =
    ((other, h.0), omega (arith, h.1), h.2)

chunks-cons :
    (room : ℕ) (b : ℕ) (t : Text)
    → (p : Text) × (ps : List Text) × (chunks room (b ∷ t) ≡ p ∷ ps) × (0 < length p)
unfolding chunks
chunks-cons zero b t = (b ∷ [], chunks 24 t, refl, omega arith)
chunks-cons (suc room) b t = by_chunks (chunks room t)
  where
    by_chunks :
        (qs : List Text)
        → (p : Text) × (ps : List Text) × (cons_first b qs ≡ p ∷ ps) × (0 < length p)
    by_chunks [] = (b ∷ [], [], refl, omega arith)
    by_chunks (q ∷ qs) = (b ∷ q, qs, refl, omega arith)

chunks-IsChunked :
    (room : ℕ) (t : Text) → HasSpaceLast t → IsChunked (suc room) (ends_in_space t) (chunks room t)
unfolding chunks
chunks-IsChunked room [] h = tt
chunks-IsChunked zero (b ∷ []) h = (tt, refl)
chunks-IsChunked (suc room) (b ∷ []) h = (tt, refl)
chunks-IsChunked zero (b ∷ a ∷ t) h =
    let (p, ps, e, full) = chunks-cons 24 a t in
    let rest : IsChunked 25 (ends_in_space (a ∷ t)) (p ∷ ps) =
      subst (IsChunked 25 (ends_in_space (a ∷ t))) e (chunks-IsChunked 24 (a ∷ t) h.1) in
    let made : IsChunked 1 (ends_in_space (a ∷ t)) ((b ∷ []) ∷ p ∷ ps) = (tt, refl, rest) in
    subst (λ qs. IsChunked 1 (ends_in_space (a ∷ t)) ((b ∷ []) ∷ qs)) (sym e) made
chunks-IsChunked (suc room) (b ∷ a ∷ t) h =
    let (p, ps, e, full) = chunks-cons room a t in
    let rest : IsChunked (suc room) (ends_in_space (a ∷ t)) (p ∷ ps) =
      subst (IsChunked (suc room) (ends_in_space (a ∷ t))) e (chunks-IsChunked room (a ∷ t) h.1) in
    subst (λ qs. IsChunked (suc (suc room)) (ends_in_space (a ∷ t)) (cons_first b qs)) (sym e)
      (cons_first-IsChunked b (suc room) (ends_in_space (a ∷ t)) p ps full h.0 rest)

Chunked-All : (last : Bool) (ps : List Text) → IsChunked 25 last ps → All HasSpaceLast ps
Chunked-All last [] h = tt
Chunked-All last (p ∷ []) h = (h.0, tt)
Chunked-All last (p ∷ q ∷ ps) h = (h.0, Chunked-All last (q ∷ ps) h.2)

-- The pieces of a word before those of later words.
Chunked-IsBroken :
    (last : Bool) (ps qs : List Text)
    → IsChunked 25 last ps
    → (qs ≡ []) ⊎ (last ≡ true)
    → IsBroken qs
    → IsBroken (ps ++ qs)
Chunked-IsBroken last [] qs h end broken = broken
Chunked-IsBroken last (p ∷ []) [] h end broken = tt
Chunked-IsBroken last (p ∷ []) (q ∷ qs) h (inl none_left) broken = absurd (cc)
Chunked-IsBroken last (p ∷ []) (q ∷ qs) h (inr space) broken = (inr (h.1 ∙ space), broken)
Chunked-IsBroken last (p ∷ p' ∷ ps) qs h end broken =
    (inl h.1, Chunked-IsBroken last (p' ∷ ps) qs h.2 end broken)

all_chunks-IsBroken :
    (ps : List Text) → IsWords ps → IsBroken (all_chunks ps) × All HasSpaceLast (all_chunks ps)
unfolding all_chunks
all_chunks-IsBroken [] h = (tt, tt)
all_chunks-IsBroken (p ∷ []) h =
    let mine = chunks-IsChunked 24 p h.1 in
    (
      Chunked-IsBroken (ends_in_space p) (chunks 24 p) [] mine (inl refl) tt,
      All-append HasSpaceLast (chunks 24 p) [] (Chunked-All (ends_in_space p) (chunks 24 p) mine)
          tt,
    )
all_chunks-IsBroken (p ∷ q ∷ ps) h =
    let mine = chunks-IsChunked 24 p h.1 in
    let (broken, spaces) = all_chunks-IsBroken (q ∷ ps) h.3 in
    (
      Chunked-IsBroken (ends_in_space p) (chunks 24 p) (all_chunks (q ∷ ps)) mine (inr h.2) broken,
      All-append HasSpaceLast (chunks 24 p) (all_chunks (q ∷ ps))
          (Chunked-All (ends_in_space p) (chunks 24 p) mine) spaces,
    )

-- An ASCII name is broken into pieces, joined by the line break, which together are the name: after
-- each space, and where 25 bytes are reached. No piece is empty or longer than 25 bytes, a space is at
-- the end of a piece only, and every piece but the last one ends in a space or has 25 bytes.
pub name_lines-pieces :
    (name : Text)
    → All IsAscii name
    → (ps : List Text) × (name_lines name ≡ ok (join (txt "\\n") ps))
      × (concat ps ≡ name)
      × All IsShort ps
      × All HasSpaceLast ps
      × IsBroken ps
unfolding name_lines pieces
name_lines-pieces name h =
    let whole : concat (pieces name) ≡ name =
      concat-all_chunks (split_inclusive name) ∙ concat-split_inclusive name in
    let ascii : All IsAscii (concat (pieces name)) = rw whole h in
    let (broken, spaces) =
      all_chunks-IsBroken (split_inclusive name) (split_inclusive-IsWords name) in
    (
      pieces name,
      rw (check_utf8-ascii (pieces name) ascii) refl,
      whole,
      All-all_chunks (split_inclusive name),
      spaces,
      broken,
    )
