-- ===== src/Gamedata/Version.antt =====
-- The file of versions (utils/gamedata/load.go): `loadVersionFile`, and what `updateGameData` writes.
pub mod Round
use rhine.Prelude.{
  map, false, some, ◌++◌, true, none, ◌∷◌, [], Option, List, ℕ, Bool, Bytes, ◌==◌, if◌then◌else◌,
  length, leb, bytes_eq,
}
use rhine.Gamedata.Pool.{version_line}

-- One more byte in front of the parts of a text, by whether it separates them.
abbrev pub push : Bool → ℕ → List Bytes → List Bytes
push true c parts = [] ∷ parts
push false c (part ∷ parts) = (c ∷ part) ∷ parts
push false c [] = (c ∷ []) ∷ []

-- `bytes.Split` by one byte.
unfoldable pub split_on : ℕ → Bytes → List Bytes
split_on sep [] = [] ∷ []
split_on sep (c ∷ cs) = push (c == sep) c (split_on sep cs)

-- A carriage return at the end of a line.
unfoldable pub drop_cr : Bytes → Bytes
drop_cr [] = []
drop_cr (c ∷ []) = if c == b'\r' then [] else c ∷ []
drop_cr (c ∷ d ∷ cs) = c ∷ drop_cr (d ∷ cs)

-- A last line that is empty and not ended is none.
unfoldable pub ended : List Bytes → List Bytes
ended [] = []
ended ([] ∷ []) = []
ended (line ∷ lines) = line ∷ ended lines

-- `bufio.MaxScanTokenSize`.
abbrev pub max_token_size : ℕ
max_token_size = 65536

-- A line's path and etag, or `none` where the loop ends: the scanner refuses a line that is too
-- long, and the code one with fewer than two parts.
abbrev pub first_two : List Bytes → Option (Bytes × Bytes)
first_two (path ∷ etag ∷ rest) = some (path, etag)
first_two _ = none

unfoldable pub parse_line : Bytes → Option (Bytes × Bytes)
unfolding split_on drop_cr
parse_line line =
    if leb max_token_size (length line) then none else first_two (split_on b' ' (drop_cr line))

-- The version map; a path that is not in it has the empty etag.
abbrev pub VerMap : Type 0
VerMap = Bytes → Bytes

unfoldable pub put : Bytes → Bytes → VerMap → VerMap
put path etag m p = if bytes_eq path p then etag else m p

-- The loop over the lines, by what they parse to.
abbrev pub load_each : List (Option (Bytes × Bytes)) → VerMap → VerMap
load_each [] m = m
load_each (none ∷ _) m = m
load_each (some (path, etag) ∷ lines) m = load_each lines (put path etag m)

unfoldable pub load_lines : List Bytes → VerMap → VerMap
load_lines lines m = load_each (map parse_line lines) m

-- `loadVersionFile`, by the content of the file, if it can be opened.
unfoldable pub load_version_file : Option Bytes → VerMap
unfolding load_lines ended
load_version_file none = λ path. []
load_version_file (some content) = load_lines (ended (split_on b'\n' content)) (λ path. [])

-- The loop of `updateGameData` that writes the lines.
unfoldable pub write_lines : List Bytes → Bytes
write_lines [] = []
write_lines (line ∷ lines) = line ++ (b'\n' ∷ write_lines lines)
