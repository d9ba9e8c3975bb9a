-- ===== src/Scanner/Grammar.antt =====
-- The JSON grammar (RFC 8259), written without the scanner. `G xs r` says that `xs` begins with a
-- phrase of the kind `G`, and that `r` stands behind it.
use rhine.Prelude.{ℕ, suc, ◌≤◌, ◌≡◌, ◌≢◌, true, [], ◌∷◌, Bytes, codes}
use rhine.Scanner.State.{is_space}
use rhine.Scanner.Step.{is_digit, is_digit19, is_hex, is_escape}

-- One byte, with white space before it.
pub data Token (want : ℕ) : Bytes → Bytes → Type 0 where
  byte : {c : ℕ} {r : Bytes} → c ≡ want → Token want (c ∷ r) r
  blank : {c : ℕ} {xs r : Bytes} → is_space c ≡ true → Token want xs r → Token want (c ∷ xs) r

-- Nothing but white space.
pub data Spaces : Bytes → Type 0 where
  nothing : Spaces []
  blank : {c : ℕ} {xs : Bytes} → is_space c ≡ true → Spaces xs → Spaces (c ∷ xs)

-- The bytes of a word.
pub data Word : Bytes → Bytes → Bytes → Type 0 where
  spelled : {r : Bytes} → Word [] r r
  letter : {c d : ℕ} {w xs r : Bytes} → c ≡ d → Word w xs r → Word (d ∷ w) (c ∷ xs) r

-- A string behind its opening quote, with the closing one.
mutual
  pub data Chars : Bytes → Bytes → Type 0 where
    quote : {c : ℕ} {r : Bytes} → c ≡ b'"' → Chars (c ∷ r) r
    plain : {c : ℕ} {xs r : Bytes} → c ≢ b'"' → c ≢ b'\\' → 0x20 ≤ c → Chars xs r → Chars (c ∷ xs) r
    escape : {c : ℕ} {xs r : Bytes} → c ≡ b'\\' → Escape xs r → Chars (c ∷ xs) r

  pub data Escape : Bytes → Bytes → Type 0 where
    simple : {c : ℕ} {xs r : Bytes} → is_escape c ≡ true → Chars xs r → Escape (c ∷ xs) r
    unicode : {c : ℕ} {xs r : Bytes} → c ≡ b'u' → Hex 4 xs r → Escape (c ∷ xs) r

  -- So many hexadecimal digits, and the rest of the string.
  pub data Hex : ℕ → Bytes → Bytes → Type 0 where
    enough : {xs r : Bytes} → Chars xs r → Hex 0 xs r
    digit : {k c : ℕ} {xs r : Bytes} → is_hex c ≡ true → Hex k xs r → Hex (suc k) (c ∷ xs) r

-- The exponent's digits, all but the first.
pub data ExpDigits : Bytes → Bytes → Type 0 where
  stop : {r : Bytes} → ExpDigits r r
  digit : {c : ℕ} {xs r : Bytes} → is_digit c ≡ true → ExpDigits xs r → ExpDigits (c ∷ xs) r

pub data ExpUnsigned : Bytes → Bytes → Type 0 where
  digit : {c : ℕ} {xs r : Bytes} → is_digit c ≡ true → ExpDigits xs r → ExpUnsigned (c ∷ xs) r

pub data Exponent : Bytes → Bytes → Type 0 where
  unsigned : {xs r : Bytes} → ExpUnsigned xs r → Exponent xs r
  plus : {c : ℕ} {xs r : Bytes} → c ≡ b'+' → ExpUnsigned xs r → Exponent (c ∷ xs) r
  minus : {c : ℕ} {xs r : Bytes} → c ≡ b'-' → ExpUnsigned xs r → Exponent (c ∷ xs) r

-- An exponent or none.
pub data ExpPart : Bytes → Bytes → Type 0 where
  stop : {r : Bytes} → ExpPart r r
  lower : {c : ℕ} {xs r : Bytes} → c ≡ b'e' → Exponent xs r → ExpPart (c ∷ xs) r
  upper : {c : ℕ} {xs r : Bytes} → c ≡ b'E' → Exponent xs r → ExpPart (c ∷ xs) r

-- The fraction's digits, all but the first.
pub data FracDigits : Bytes → Bytes → Type 0 where
  exponent : {xs r : Bytes} → ExpPart xs r → FracDigits xs r
  digit : {c : ℕ} {xs r : Bytes} → is_digit c ≡ true → FracDigits xs r → FracDigits (c ∷ xs) r

pub data Fraction : Bytes → Bytes → Type 0 where
  digit : {c : ℕ} {xs r : Bytes} → is_digit c ≡ true → FracDigits xs r → Fraction (c ∷ xs) r

-- What may follow the integer part.
pub data FracPart : Bytes → Bytes → Type 0 where
  exponent : {xs r : Bytes} → ExpPart xs r → FracPart xs r
  dot : {c : ℕ} {xs r : Bytes} → c ≡ b'.' → Fraction xs r → FracPart (c ∷ xs) r

-- The digits behind a first digit that is not 0.
pub data IntDigits : Bytes → Bytes → Type 0 where
  fraction : {xs r : Bytes} → FracPart xs r → IntDigits xs r
  digit : {c : ℕ} {xs r : Bytes} → is_digit c ≡ true → IntDigits xs r → IntDigits (c ∷ xs) r

pub data Unsigned : Bytes → Bytes → Type 0 where
  leading_0 : {c : ℕ} {xs r : Bytes} → c ≡ b'0' → FracPart xs r → Unsigned (c ∷ xs) r
  leading_1 : {c : ℕ} {xs r : Bytes} → is_digit19 c ≡ true → IntDigits xs r → Unsigned (c ∷ xs) r

mutual
  -- A value, with white space before it.
  pub data Value : Bytes → Bytes → Type 0 where
    blank : {c : ℕ} {xs r : Bytes} → is_space c ≡ true → Value xs r → Value (c ∷ xs) r
    object : {c : ℕ} {xs r : Bytes} → c ≡ b'{' → ObjectBody xs r → Value (c ∷ xs) r
    array : {c : ℕ} {xs r : Bytes} → c ≡ b'[' → ArrayBody xs r → Value (c ∷ xs) r
    string : {c : ℕ} {xs r : Bytes} → c ≡ b'"' → Chars xs r → Value (c ∷ xs) r
    negative : {c : ℕ} {xs r : Bytes} → c ≡ b'-' → Unsigned xs r → Value (c ∷ xs) r
    number : {xs r : Bytes} → Unsigned xs r → Value xs r
    true_word : {c : ℕ} {xs r : Bytes} → c ≡ b't' → Word (codes "rue") xs r → Value (c ∷ xs) r
    false_word : {c : ℕ} {xs r : Bytes} → c ≡ b'f' → Word (codes "alse") xs r → Value (c ∷ xs) r
    null_word : {c : ℕ} {xs r : Bytes} → c ≡ b'n' → Word (codes "ull") xs r → Value (c ∷ xs) r

  -- Behind `[`.
  pub data ArrayBody : Bytes → Bytes → Type 0 where
    empty_array : {xs r : Bytes} → Token b']' xs r → ArrayBody xs r
    elements : {xs ys r : Bytes} → Value xs ys → ArrayTail ys r → ArrayBody xs r

  -- Behind an element.
  pub data ArrayTail : Bytes → Bytes → Type 0 where
    close_array : {xs r : Bytes} → Token b']' xs r → ArrayTail xs r
    next_element :
        {xs ys zs r : Bytes} → Token b',' xs ys → Value ys zs → ArrayTail zs r → ArrayTail xs r

  -- Behind `{`.
  pub data ObjectBody : Bytes → Bytes → Type 0 where
    empty_object : {xs r : Bytes} → Token b'}' xs r → ObjectBody xs r
    members : {xs r : Bytes} → Members xs r → ObjectBody xs r

  -- One member and what follows it, up to `}`.
  pub data Members : Bytes → Bytes → Type 0 where
    member : {xs ys zs r : Bytes} → Token b'"' xs ys → Chars ys zs → MemberValue zs r → Members xs r

  -- Behind a key.
  pub data MemberValue : Bytes → Bytes → Type 0 where
    colon :
        {xs ys zs r : Bytes} → Token b':' xs ys → Value ys zs → ObjectTail zs r → MemberValue xs r

  -- Behind a member.
  pub data ObjectTail : Bytes → Bytes → Type 0 where
    close_object : {xs r : Bytes} → Token b'}' xs r → ObjectTail xs r
    next_member : {xs ys r : Bytes} → Token b',' xs ys → Members ys r → ObjectTail xs r

-- A JSON text: one value, and white space round it.
pub data Json (text : Bytes) : Type 0 where
  document : {r : Bytes} → Value text r → Spaces r → Json text
