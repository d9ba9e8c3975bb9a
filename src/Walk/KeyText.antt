-- ===== src/Walk/KeyText.antt =====
-- Which bytes of the text `WalkAndNotify` takes for a key.
use rhine.Scanner.Grammar.{Chars, Escape, Hex, Token}
use rhine.Walk.Tell.{key_before}
use rhine.Walk.Loop.{slice, Walk, max_path_depth, object_key, notify_key}
use rhine.Walk.Notify.{StateHook, Looked}
use rhine.Walk.Loop.Key.{slice-key, drop-length}
use rhine.Walk.Loop.Phrases.{Chars-length, Token-length}
use rhine.Prelude.{
  List, ◌==◌, ltb, false, ◌+◌, some, drop, ◌≤◌, ℕ, ◌-◌, Bytes, [], ◌∷◌, ◌++◌, ◌≡◌, refl, ap, sym,
  ◌∙◌, take, length, length-append, arith,
}
use rhine.Slices.{take-append, last_of}
use mathlib.Core.List.{append_assoc}

-- The bytes of a string between its quotes.
unfoldable mutual
  pub content : {xs r : Bytes} → Chars xs r → Bytes
  content (Chars.quote e) = []
  content (Chars.plain {c} p q l g) = c ∷ content g
  content (Chars.escape {c} e g) = c ∷ escaped g

  pub escaped : {xs r : Bytes} → Escape xs r → Bytes
  escaped (Escape.simple {c} e g) = c ∷ content g
  escaped (Escape.unicode {c} e g) = c ∷ hex_content g

  pub hex_content : {k : ℕ} {xs r : Bytes} → Hex k xs r → Bytes
  hex_content (Hex.enough g) = content g
  hex_content (Hex.digit {c} e g) = c ∷ hex_content g

-- The white space before a token.
abbrev pub blanks : {want : ℕ} {xs r : Bytes} → Token want xs r → Bytes
blanks (Token.byte e) = []
blanks (Token.blank {c} e t) = c ∷ blanks t

abbrev pub drop_last : ℕ → Bytes → Bytes
drop_last c [] = []
drop_last c (d ∷ xs) = c ∷ drop_last d xs

mutual
  unfolding content escaped hex_content

  content-append : {xs r : Bytes} (g : Chars xs r) → xs ≡ content g ++ (b'"' ∷ r)
  content-append (Chars.quote {c} {r} e) = ap (λ c. c ∷ r) e
  content-append (Chars.plain {c} p q l g) = ap (λ xs. c ∷ xs) (content-append g)
  content-append (Chars.escape {c} e g) = ap (λ xs. c ∷ xs) (escaped-append g)

  escaped-append : {xs r : Bytes} (g : Escape xs r) → xs ≡ escaped g ++ (b'"' ∷ r)
  escaped-append (Escape.simple {c} e g) = ap (λ xs. c ∷ xs) (content-append g)
  escaped-append (Escape.unicode {c} e g) = ap (λ xs. c ∷ xs) (hex_content-append g)

  hex_content-append : {k : ℕ} {xs r : Bytes} (g : Hex k xs r) → xs ≡ hex_content g ++ (b'"' ∷ r)
  hex_content-append (Hex.enough g) = content-append g
  hex_content-append (Hex.digit {c} e g) = ap (λ xs. c ∷ xs) (hex_content-append g)

blanks-append : {want : ℕ} {xs r : Bytes} (t : Token want xs r) → xs ≡ blanks t ++ (want ∷ r)
blanks-append (Token.byte {c} {r} e) = ap (λ c. c ∷ r) e
blanks-append (Token.blank {c} e t) = ap (λ xs. c ∷ xs) (blanks-append t)

drop_last-append : (c : ℕ) (xs ys : Bytes) → c ∷ (xs ++ ys) ≡ drop_last c xs ++ (last_of c xs ∷ ys)
drop_last-append c [] ys = refl
drop_last-append c (d ∷ xs) ys = ap (λ r. c ∷ r) (drop_last-append d xs ys)

key_before-append : (key ys : Bytes) (c d : ℕ) → key_before (key ++ (c ∷ d ∷ ys)) ys ≡ key
key_before-append key ys c d =
    let n : length (key ++ (c ∷ d ∷ ys)) - length ys - 2 ≡ length key =
      omega (arith, length-append key (c ∷ d ∷ ys)) in
    ap (λ n. take n (key ++ (c ∷ d ∷ ys))) n ∙ take-append key (c ∷ d ∷ ys)

key_before-content :
    (from xs ys : Bytes) (g : Chars from xs) (q : Token b':' xs ys)
    → key_before from ys ≡ content g ++ drop_last b'"' (blanks q)
key_before-content from xs ys g q =
    let e : from ≡ content g ++ drop_last b'"' (blanks q) ++ (last_of b'"' (blanks q) ∷ b':' ∷ ys) =
      content-append g
      ∙ ap (λ xs. content g ++ (b'"' ∷ xs)) (blanks-append q)
      ∙ ap (λ xs. content g ++ xs) (drop_last-append b'"' (blanks q) (b':' ∷ ys))
      ∙ sym (
          append_assoc (content g) (drop_last b'"' (blanks q))
            (last_of b'"' (blanks q) ∷ b':' ∷ ys)) in
    ap (λ from. key_before from ys) e
    ∙ key_before-append (content g ++ drop_last b'"' (blanks q)) ys (last_of b'"' (blanks q)) b':'

slice-content :
    (text : Bytes) (l i : ℕ) (from xs ys : Bytes) (g : Chars from xs) (q : Token b':' xs ys)
    → drop l text ≡ b'"' ∷ from
    → drop i text ≡ b':' ∷ ys
    → slice text (l + 1) (i - 1) ≡ some (content g ++ drop_last b'"' (blanks q))
slice-content text l i from xs ys g q d c =
    let n : length ys + 2 ≤ length from = omega (arith, Chars-length g, Token-length q) in
    slice-key text l i from ys d c n ∙ ap some (key_before-content from xs ys g q)

-- The branch of `WalkAndNotify` for the colon behind a key, in at most 64 containers, where the last
-- literal began at the key's quote: it tells the hooks of a key that it cuts out of the text, and
-- no slice is out of range. The key is what stands between the quotes if the colon follows at once;
-- with white space before the colon it is that, the closing quote, and the white space but for its
-- last byte.
pub object_key-content :
    {P E : Type 0} (lookup : Bytes → Looked P E) (hooks : Bytes → List StateHook) (text : Bytes)
    (i depth : ℕ) (w : Walk P) (from xs ys : Bytes) (g : Chars from xs) (q : Token b':' xs ys)
    → depth ≤ max_path_depth
    → drop w.last_literal_pos text ≡ b'"' ∷ from
    → drop i text ≡ b':' ∷ ys
    → object_key lookup hooks text i depth w
      ≡ notify_key lookup hooks text depth w (content g ++ drop_last b'"' (blanks q))
unfolding object_key
object_key-content lookup hooks text i depth w from xs ys g q m d c =
    let n : length ys + 2 ≤ length from = omega (arith, Chars-length g, Token-length q) in
    let a = drop-length w.last_literal_pos text b'"' from d in
    let b = drop-length i text b':' ys c in
    let z : (i == 0) ≡ false = ground (arith, a, b, n) in
    let s : ltb max_path_depth depth ≡ false = ground (arith, m) in
    rw (s, z, slice-content text w.last_literal_pos i from xs ys g q d c) refl
