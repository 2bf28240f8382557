-- ===== src/Graph/Names.antt =====
-- mk_graph/util.rs, the names and escapes of the graph. A text is its bytes, and what the code
-- searches for in it is ASCII, so that bytes can be searched.
pub mod Short
pub mod Pieces
pub mod Escapes
use stable_mir_json.Prelude.{
  ℕ, zero, suc, Bool, true, false, not, ◌&&◌, ◌||◌, Option, none, some, List, [], ◌∷◌, ◌++◌, map,
  txt, decimal, join, if◌then◌else◌, nat_beq, ltb, leb, Outcome, ok, panic, Panic, ◌>>=◌,
}
use stable_mir_json.Mir.{Text}
use stable_mir_json.Printer.Schema.{FnSymType, no_op_sym, intrinsic_sym, normal_sym}
use stable_mir_json.Graph.Format.{Format}

-- The rest of a text that starts with `::`.
unfoldable pub separator : Text → Option Text
separator (a ∷ b ∷ t) = if nat_beq a 58 && nat_beq b 58 then some t else none
separator _ = none

-- The rest after the last `::`, the first piece that `rsplit` gives if there is one.
unfoldable pub after_last : Text → Option Text
after_last [] = none
after_last (b ∷ t) = elim (after_last t) [ some rest ↦ some rest | none ↦ separator (b ∷ t) ]

unfoldable pub short_fn_name : Text → Text
unfolding after_last
short_fn_name name = elim (after_last name) [ some rest ↦ rest | none ↦ name ]

-- `contains("::")`
unfoldable pub contains_separator : Text → Bool
contains_separator [] = false
contains_separator (b ∷ t) = elim (separator (b ∷ t)) [
  | some rest ↦ true
  | none ↦ contains_separator t
]

unfoldable pub is_unqualified : Text → Bool
unfolding contains_separator
is_unqualified name = not (contains_separator name)

unfoldable pub function_string : FnSymType → Text
function_string (normal_sym name) = name
function_string (no_op_sym name) = txt "NoOp: " ++ name
function_string (intrinsic_sym name) = txt "Intr: " ++ name

abbrev pub cons_first : ℕ → List Text → List Text
cons_first b [] = (b ∷ []) ∷ []
cons_first b (p ∷ ps) = (b ∷ p) ∷ ps

-- `split_inclusive(" ")`
unfoldable pub split_inclusive : Text → List Text
split_inclusive [] = []
split_inclusive (b ∷ t) =
    let rest = split_inclusive t in if nat_beq b 32 then (b ∷ []) ∷ rest else cons_first b rest

-- `chunks(25)`, where the first chunk has room for so many bytes after the next one.
unfoldable pub chunks : ℕ → Text → List Text
chunks room [] = []
chunks zero (b ∷ t) = (b ∷ []) ∷ chunks 24 t
chunks (suc room) (b ∷ t) = cons_first b (chunks room t)

unfoldable pub all_chunks : List Text → List Text
unfolding chunks
all_chunks [] = []
all_chunks (p ∷ ps) = chunks 24 p ++ all_chunks ps

-- What follows a first byte in UTF-8: how many bytes, and the bounds of the next one.
abbrev lead : ℕ → Option (ℕ × ℕ × ℕ)
lead b =
    if ltb b 128
    then some (0, 128, 191)
    else if ltb b 194
    then none
    else if ltb b 224
    then some (1, 128, 191)
    else if ltb b 240
    then some (2, (if nat_beq b 224 then 160 else 128), (if nat_beq b 237 then 159 else 191))
    else if ltb b 245
    then some (3, (if nat_beq b 240 then 144 else 128), (if nat_beq b 244 then 143 else 191))
    else none

-- Whether bytes are UTF-8, `more` bytes into a character.
unfoldable pub is_utf8 : (more low high : ℕ) → Text → Bool
is_utf8 zero low high [] = true
is_utf8 (suc more) low high [] = false
is_utf8 zero low high (b ∷ t) = elim (lead b) [
  | some (more, low', high') ↦ is_utf8 more low' high' t
  | none ↦ false
]
is_utf8 (suc more) low high (b ∷ t) = leb low b && leb b high && is_utf8 more 128 191 t

-- `from_utf8(..).unwrap()` of each piece.
unfoldable pub check_utf8 : List Text → Outcome (List Text)
unfolding is_utf8
check_utf8 [] = ok []
check_utf8 (p ∷ ps) =
    let rest = check_utf8 ps in
    if is_utf8 0 128 191 p then rest >>= (λ qs. ok (p ∷ qs)) else panic Panic.invalid_utf8

unfoldable pub pieces : Text → List Text
unfolding split_inclusive all_chunks
pieces name = all_chunks (split_inclusive name)

unfoldable pub name_lines : Text → Outcome Text
unfolding pieces check_utf8
name_lines name = check_utf8 (pieces name) >>= λ ps. ok (join (txt "\\n") ps)

module _ (fmt : Format) where
  unfoldable pub short_name : Text → Text
  short_name function_name = txt "X" ++ fmt.hash function_name

  unfoldable pub block_name : Text → ℕ → Text
  block_name function_name id = txt "X" ++ (fmt.hash function_name ++ (txt "_" ++ decimal id))

-- `replace` of one byte.
unfoldable pub replace : ℕ → Text → Text → Text
replace b by [] = []
replace b by (a ∷ t) = let rest = replace b by t in if nat_beq a b then by ++ rest else a ∷ rest

-- Backslash, quote and dollar sign get a backslash.
unfoldable pub escape_d2 : Text → Text
unfolding replace
escape_d2 s = replace 36 (92 ∷ 36 ∷ []) (replace 34 (92 ∷ 34 ∷ []) (replace 92 (92 ∷ 92 ∷ []) s))
