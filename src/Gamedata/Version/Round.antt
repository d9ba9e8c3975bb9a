-- ===== src/Gamedata/Version/Round.antt =====
-- What is written into the file of versions is what is loaded.
use rhine.Gamedata.Version.{
  push, load_each, max_token_size, VerMap, split_on, drop_cr, ended, parse_line, put, load_lines,
  load_version_file, write_lines,
}
use rhine.Prelude.{
  Bool, bytes_eq, leb, false, [], some, ◌++◌, length, ◌∷◌, ℕ, Bytes, List, true, sym, bytes_eq_iff,
  ◌∙◌, arith, refl, eq_self, ◌<◌, map, ap, ◌==◌, ◌≡◌, ◌≢◌,
}
use rhine.Gamedata.Pool.{version_line}
use mathlib.Core.List.{nil≢cons}

abbrev pub Without : ℕ → Bytes → Type 0
Without c [] = Unit
Without c (x ∷ xs) = ((x == c) ≡ false) × Without c xs

-- A path and an etag that a line can hold.
pub record IsClean (path etag : Bytes) : Type 0 where
  pub path_words : Without b' ' path
  pub path_line : Without b'\n' path
  pub etag_words : Without b' ' etag
  pub etag_line : Without b'\n' etag
  pub etag_end : Without b'\r' etag
  pub fits : length (version_line path etag) < max_token_size

split_on-skip :
    (sep : ℕ) (xs ys : Bytes)
    → Without sep xs
    → split_on sep (xs ++ (sep ∷ ys)) ≡ xs ∷ split_on sep ys
unfolding split_on
split_on-skip sep [] ys w = rw (eq_self sep) refl
split_on-skip sep (x ∷ xs) ys (n, w) = rw (n, split_on-skip sep xs ys w) refl

split_on-whole : (sep : ℕ) (xs : Bytes) → Without sep xs → split_on sep xs ≡ xs ∷ []
unfolding split_on
split_on-whole sep [] w = refl
split_on-whole sep (x ∷ xs) (n, w) = rw (n, split_on-whole sep xs w) refl

drop_cr-whole : (xs : Bytes) → Without b'\r' xs → drop_cr xs ≡ xs
unfolding drop_cr
drop_cr-whole [] w = refl
drop_cr-whole (x ∷ []) (n, w) = rw n refl
drop_cr-whole (x ∷ y ∷ xs) (n, w) = ap (λ r. x ∷ r) (drop_cr-whole (y ∷ xs) w)

drop_cr-cons : (x : ℕ) (xs : Bytes) → xs ≢ [] → drop_cr (x ∷ xs) ≡ x ∷ drop_cr xs
unfolding drop_cr
drop_cr-cons x [] n = absurd (n refl)
drop_cr-cons x (y ∷ ys) n = refl

drop_cr-line :
    (path etag : Bytes)
    → Without b'\r' etag
    → drop_cr (version_line path etag) ≡ version_line path etag
unfolding drop_cr
drop_cr-line [] etag w = drop_cr-whole (b' ' ∷ etag) (refl, w)
drop_cr-line (x ∷ []) etag w = ap (λ r. x ∷ r) (drop_cr-line [] etag w)
drop_cr-line (x ∷ y ∷ path) etag w = ap (λ r. x ∷ r) (drop_cr-line (y ∷ path) etag w)

pub parse_line-version_line :
    (path etag : Bytes)
    → IsClean path etag
    → parse_line (version_line path etag) ≡ some (path, etag)
unfolding parse_line
parse_line-version_line path etag c =
    rw
      (
        small (length (version_line path etag)) c.fits,
        drop_cr-line path etag c.etag_end,
        split_on-skip b' ' path etag c.path_words,
        split_on-whole b' ' etag c.etag_words,
      )
      refl
  where
    small : (n : ℕ) → n < max_token_size → leb max_token_size n ≡ false
    small n l = ground arith

abbrev AllWithout : ℕ → List Bytes → Type 0
AllWithout c [] = Unit
AllWithout c (line ∷ lines) = Without c line × AllWithout c lines

split_on-ne : (sep : ℕ) (xs : Bytes) → split_on sep xs ≢ []
unfolding split_on
split_on-ne sep [] e = nil≢cons (sym e)
split_on-ne sep (x ∷ xs) e = pushed (x == sep) (split_on sep xs) e
  where
    pushed : (b : Bool) (parts : List Bytes) → push b x parts ≡ [] → ⊥
    pushed true parts e = nil≢cons (sym e)
    pushed false [] e = nil≢cons (sym e)
    pushed false (p ∷ ps) e = nil≢cons (sym e)

ended-cons :
    (line : Bytes) (lines : List Bytes) → lines ≢ [] → ended (line ∷ lines) ≡ line ∷ ended lines
unfolding ended
ended-cons line [] n = absurd (n refl)
ended-cons [] (l ∷ lines) n = refl
ended-cons (c ∷ cs) (l ∷ lines) n = refl

-- The lines that are written, and a last part that is empty.
split_on-write_lines :
    (lines : List Bytes)
    → AllWithout b'\n' lines
    → ended (split_on b'\n' (write_lines lines)) ≡ lines
unfolding split_on ended write_lines
split_on-write_lines [] w = refl
split_on-write_lines (line ∷ lines) (n, w) =
    ap ended (split_on-skip b'\n' line (write_lines lines) n)
    ∙ ended-cons line (split_on b'\n' (write_lines lines)) (split_on-ne b'\n' (write_lines lines))
    ∙ ap (λ r. line ∷ r) (split_on-write_lines lines w)

abbrev pub line_of : Bytes × Bytes → Bytes
line_of (path, etag) = version_line path etag

abbrev pub AllClean : List (Bytes × Bytes) → Type 0
AllClean [] = Unit
AllClean ((path, etag) ∷ entries) = IsClean path etag × AllClean entries

-- The map of entries, of which the later ones count.
unfoldable pub entries_map : List (Bytes × Bytes) → VerMap → VerMap
entries_map [] m = m
entries_map ((path, etag) ∷ entries) m = entries_map entries (put path etag m)

load_lines-entries :
    (entries : List (Bytes × Bytes)) (m : VerMap)
    → AllClean entries
    → load_lines (map line_of entries) m ≡ entries_map entries m
unfolding load_lines entries_map
load_lines-entries [] m c = refl
load_lines-entries ((path, etag) ∷ entries) m (c, cs) =
    ap (λ o. load_each (o ∷ map parse_line (map line_of entries)) m)
      (parse_line-version_line path etag c)
    ∙ load_lines-entries entries (put path etag m) cs

Without-append : (c : ℕ) (xs ys : Bytes) → Without c xs → Without c ys → Without c (xs ++ ys)
Without-append c [] ys v w = w
Without-append c (x ∷ xs) ys (n, v) w = (n, Without-append c xs ys v w)

lines-AllWithout :
    (entries : List (Bytes × Bytes)) → AllClean entries → AllWithout b'\n' (map line_of entries)
lines-AllWithout [] c = tt
lines-AllWithout ((path, etag) ∷ entries) (c, cs) = (
  Without-append b'\n' path (b' ' ∷ etag) c.path_line (refl, c.etag_line),
  lines-AllWithout entries cs,
)

-- No entry has the path.
abbrev pub IsNew : Bytes → List (Bytes × Bytes) → Type 0
IsNew p [] = Unit
IsNew p ((path, etag) ∷ entries) = (bytes_eq path p ≡ false) × IsNew p entries

entries_map-IsNew :
    (p : Bytes) (entries : List (Bytes × Bytes)) (m : VerMap)
    → IsNew p entries
    → entries_map entries m p ≡ m p
unfolding entries_map put
entries_map-IsNew p [] m n = refl
entries_map-IsNew p ((path, etag) ∷ entries) m (n, ns) =
    entries_map-IsNew p entries (put path etag m) ns ∙ rw n refl

entries_map-last :
    (p e : Bytes) (before behind : List (Bytes × Bytes)) (m : VerMap)
    → IsNew p behind
    → entries_map (before ++ (p, e) ∷ behind) m p ≡ e
unfolding entries_map put
entries_map-last p e [] behind m n =
    entries_map-IsNew p behind (put p e m) n ∙ rw ((bytes_eq_iff p p).1 refl) refl
entries_map-last p e ((path, etag) ∷ before) behind m n =
    entries_map-last p e before behind (put path etag m) n

-- A file of clean entries is loaded as their map.
pub load_version_file-entries :
    (entries : List (Bytes × Bytes))
    → AllClean entries
    → load_version_file (some (write_lines (map line_of entries)))
      ≡ entries_map entries (λ path. [])
unfolding load_version_file
load_version_file-entries entries c =
    ap (λ lines. load_lines lines (λ path. []))
      (split_on-write_lines (map line_of entries) (lines-AllWithout entries c))
    ∙ load_lines-entries entries (λ path. []) c

-- Lines of paths and etags with no space and no line break, with no carriage return in the etag,
-- and that the scanner's buffer holds, are loaded as they were written: a path has the etag of the
-- last line with the path.
load_version_file-write_lines :
    (p e : Bytes) (before behind : List (Bytes × Bytes))
    → AllClean (before ++ (p, e) ∷ behind)
    → IsNew p behind
    → load_version_file (some (write_lines (map line_of (before ++ (p, e) ∷ behind)))) p ≡ e
load_version_file-write_lines p e before behind c n =
    ap (λ (m : VerMap). m p) (load_version_file-entries (before ++ (p, e) ∷ behind) c)
    ∙ entries_map-last p e before behind (λ path. []) n
