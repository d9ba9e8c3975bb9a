-- ===== src/Scanner/Text.antt =====
-- The text of a `SyntaxError`, and what goes back to the pool (proxy/gamestate/scanner.go).
use rhine.Scanner.State.{Message, Scanner, invalid_character, unexpected_end}
use rhine.Prelude.{
  inr, inl, ap, Bool-cases, ◌%◌, ℕ, ◌+◌, Bytes, Option, none, some, [], ◌∷◌, ◌++◌, codes,
  if◌then◌else◌, ◌==◌, ltb, length, ◌≡◌, refl,
}

-- `strconv.Quote`, whose result is a literal in double quotes.
pub record Quoting : Type 0 where
  pub quote : Bytes → Bytes
  pub literal : Bytes → Bytes
  pub quote-literal : (text : Bytes) → quote text ≡ b'"' ∷ (literal text ++ b'"' ∷ [])

-- `string(c)` of a byte is the UTF-8 of the character with its number.
unfoldable pub string_of : ℕ → Bytes
string_of c = if ltb c 128 then c ∷ [] else (if ltb c 192 then 194 else 195) ∷ (128 + c % 64) ∷ []

abbrev pub but_last : ℕ → Bytes → Bytes
but_last c [] = []
but_last c (d ∷ ds) = c ∷ but_last d ds

-- `s[1 : len(s)-1]`, with `none` for a panic.
unfoldable pub cut_ends : Bytes → Option Bytes
cut_ends [] = none
cut_ends (c ∷ []) = none
cut_ends (c ∷ d ∷ ds) = some (but_last d ds)

module _ (quoting : Quoting) where
  abbrev pub in_quotes : Option Bytes → Option Bytes
  in_quotes none = none
  in_quotes (some text) = some (b'\'' ∷ (text ++ b'\'' ∷ []))

  -- `quoteChar`.
  unfoldable pub quote_char : ℕ → Option Bytes
  unfolding string_of cut_ends
  quote_char c =
      if c == b'\''
      then some (codes "'\\''")
      else if c == b'"'
      then some (codes "'\"'")
      else in_quotes (cut_ends (quoting.quote (string_of c)))

  abbrev pub with_quoted : Bytes → Option Bytes → Option Bytes
  with_quoted context none = none
  with_quoted context (some quoted) =
      some (codes "invalid character " ++ quoted ++ codes " " ++ context)

  -- The message that `error` and `eof` put together.
  unfoldable pub message_text : Message → Option Bytes
  unfolding quote_char
  message_text (invalid_character c context) = with_quoted (codes context) (quote_char c)
  message_text unexpected_end = some (codes "unexpected end of JSON input")

  but_last-append : (c d : ℕ) (xs : Bytes) → but_last c (xs ++ d ∷ []) ≡ c ∷ xs
  but_last-append c d [] = refl
  but_last-append c d (x ∷ xs) = ap (λ ys. c ∷ ys) (but_last-append x d xs)

  cut_ends-literal : (a b : ℕ) (text : Bytes) → cut_ends (a ∷ (text ++ b ∷ [])) ≡ some text
  unfolding cut_ends
  cut_ends-literal a b [] = refl
  cut_ends-literal a b (c ∷ text) = ap some (but_last-append c b text)

  abbrev IsQuoted : Option Bytes → Type 0
  IsQuoted text = (inside : Bytes) × (text ≡ some (b'\'' ∷ (inside ++ b'\'' ∷ [])))

  -- Every byte has a text between single quotes.
  quote_char-IsQuoted : (c : ℕ) → IsQuoted (quote_char c)
  unfolding quote_char
  quote_char-IsQuoted c = elim (Bool-cases (c == b'\'')) [
    | inl e ↦ rw e (codes "\\'", refl)
    | inr e ↦ elim (Bool-cases (c == b'"')) [
      | inl q ↦ rw (e, q) (codes "\"", refl)
      | inr q ↦
          rw
            (
              e,
              q,
              quoting.quote-literal (string_of c),
              cut_ends-literal b'"' b'"' (quoting.literal (string_of c)),
            )
            (quoting.literal (string_of c), refl)
    ]
  ]

  -- Every message has a text: the slice of its quoted byte is in range.
  message_text-some : (m : Message) → (text : Bytes) × (message_text m ≡ some text)
  unfolding message_text
  message_text-some (invalid_character c context) =
      let (inside, q) = quote_char-IsQuoted c in (_, ap (with_quoted (codes context)) q)
  message_text-some unexpected_end = (_, refl)

-- `freeScanner`: what goes back to the pool.
unfoldable pub free_scanner : Scanner → Scanner
free_scanner s = if ltb 1024 (length s.parse_state) then record s { parse_state = [] } else s
