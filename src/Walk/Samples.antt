-- ===== src/Walk/Samples.antt =====
-- The theorems on the told paths at one text, by its derivation in the grammar.
use rhine.Prelude.{
  ◌≢◌, ◌≤◌, Bytes, codes, List, [], ◌∷◌, ◌++◌, ◌≡◌, ℕ, some, refl, replicate, arith, true,
}
use rhine.Scanner.Grammar.{
  Json, Value, ObjectBody, Members, MemberValue, ObjectTail, Token, Chars, Unsigned, IntDigits,
  FracPart, ExpPart, Spaces, ArrayBody, ArrayTail,
}
use rhine.Scanner.Step.{is_digit19}
use rhine.Scanner.State.{zero_scanner, is_space}
use rhine.Walk.Notify.{StateHook, World, Looked, found}
use rhine.Walk.Loop.{notify_key, Walk, object_key, KeyPath, walk_and_notify}
use rhine.Walk.Loop.Steps.{observe}
use rhine.Walk.Paths.{finish, tell_text, walk_and_notify-tells}
use rhine.Walk.Fresh.{
  walk_and_notify-fresh, IsTidy, BodyTidy, MembersTidy, TailTidy, AreKeyless, RestKeyless,
  IsKeyless,
}
use rhine.Walk.KeyText.{object_key-content, content}

abbrev text : Bytes
text = codes "{\"a\":{\"b\" :1},\"c\":[2]}"

-- A digit that is not 0.
abbrev one_digit : (c : ℕ) (r : Bytes) → is_digit19 c ≡ true → Value (c ∷ r) r
one_digit c r e =
    Value.number (Unsigned.leading_1 e (IntDigits.fraction (FracPart.exponent ExpPart.stop)))

is_letter : (c : ℕ) → 93 ≤ c → (c ≢ b'"') × (c ≢ b'\\') × (0x20 ≤ c)
is_letter c l = (λ e. omega (arith, l, e), λ e. omega (arith, l, e), omega (arith, l))

-- A key of one letter.
abbrev short_key : (c : ℕ) (r : Bytes) → 93 ≤ c → Chars (c ∷ b'"' ∷ r) r
short_key c r l =
    Chars.plain (is_letter c l).0 (is_letter c l).1 (is_letter c l).2 (Chars.quote refl)

letter_a : 93 ≤ b'a'
letter_a = omega arith

letter_b : 93 ≤ b'b'
letter_b = omega arith

letter_c : 93 ≤ b'c'
letter_c = omega arith

abbrev inner : Bytes
inner = codes "{\"b\" :1},\"c\":[2]}"

abbrev inner-Value : Value inner (codes ",\"c\":[2]}")
unfolding is_digit19 is_space
inner-Value = Value.object refl (
    ObjectBody.members (
      Members.member (Token.byte refl) (short_key b'b' (codes " :1},\"c\":[2]}") letter_b) (
        MemberValue.colon (Token.blank refl (Token.byte refl))
          (one_digit b'1' (codes "},\"c\":[2]}") refl)
          (ObjectTail.close_object (Token.byte refl)))))

abbrev array-Value : Value (codes "[2]}") (codes "}")
unfolding is_digit19
array-Value = Value.array refl (
    ArrayBody.elements (one_digit b'2' (codes "]}") refl) (ArrayTail.close_array (Token.byte refl)))

abbrev text-Json : Json text
text-Json =
    Json.document
      (Value.object refl (
        ObjectBody.members (
          Members.member (Token.byte refl) (short_key b'a' (codes ":" ++ inner) letter_a) (
            MemberValue.colon (Token.byte refl) inner-Value (
              ObjectTail.next_member (Token.byte refl) (
                Members.member (Token.byte refl) (short_key b'c' (codes ":[2]}") letter_c) (
                  MemberValue.colon (Token.byte refl) array-Value
                    (ObjectTail.close_object (Token.byte refl)))))))))
      Spaces.nothing

-- One channel is told of every key.
abbrev one_hook : Bytes → List StateHook
one_hook path =
    record { target = path; module_name = codes "test"; listener = 7; event = true } ∷ []

abbrev world : World ℕ
world = record { channels = λ id. record { room = 9; sent = [] }; dropped = [] }

abbrev lookup : Bytes → Looked ℕ ℕ
lookup path = found (some 1)

abbrev clear : KeyPath
clear = record { items = replicate 64 []; is_full = refl }

abbrev used : KeyPath
used = record { items = replicate 64 (codes "old"); is_full = refl }

walk_and_notify-tells_example :
    observe (walk_and_notify lookup one_hook text zero_scanner clear world)
    ≡ finish (tell_text lookup one_hook text-Json (record { path = clear; world = world }))
walk_and_notify-tells_example =
    walk_and_notify-tells lookup one_hook text zero_scanner clear world text-Json

walk_and_notify-fresh_example :
    observe (walk_and_notify lookup one_hook text zero_scanner clear world)
    ≡ observe (walk_and_notify lookup one_hook text zero_scanner used world)
unfolding IsTidy BodyTidy MembersTidy TailTidy AreKeyless RestKeyless IsKeyless inner-Value
    array-Value
walk_and_notify-fresh_example =
    walk_and_notify-fresh lookup one_hook text zero_scanner clear used world text-Json
      ((tt, tt), ((tt, tt), tt))

-- The walk at the colon of `"b" :1`, in one container.
abbrev at_key : Walk ℕ
at_key = record { scan = zero_scanner; path = clear; last_literal_pos = 1; world = world }

object_key-content_example :
    object_key lookup one_hook inner 5 1 at_key
    ≡ notify_key lookup one_hook inner 1 at_key (codes "b\"")
unfolding content is_space
object_key-content_example =
    object_key-content lookup one_hook inner 5 1 at_key (codes "b\" :1},\"c\":[2]}")
      (codes " :1},\"c\":[2]}") (codes "1},\"c\":[2]}")
      (short_key b'b' (codes " :1},\"c\":[2]}") letter_b) (Token.blank refl (Token.byte refl))
      (omega arith) refl refl
