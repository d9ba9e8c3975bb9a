-- ===== src/Scanner/Residual/Composite.antt =====
-- One byte more round values: what the grammar wanted before it.
use rhine.Prelude.{ℕ, true, [], ◌∷◌, ◌≡◌, Bytes}
use rhine.Scanner.State.{
  parse_object_key, parse_object_value, parse_array_value, begin_value_or_empty, begin_value,
  begin_string_or_empty, begin_string, end_value, end_top, in_string, after_neg, after_1, after_0,
  after_t, after_f, after_n, is_space,
}
use rhine.Scanner.Step.{is_digit19}
use rhine.Scanner.Config.{Stack, closed}
use rhine.Scanner.Grammar.{
  Token, Spaces, Value, ArrayBody, ArrayTail, ObjectBody, Members, MemberValue, ObjectTail,
  Unsigned,
}
use rhine.Scanner.Residual.{After, Completes}

module _ {c : ℕ} {xs r : Bytes} (e : is_space c ≡ true) where
  ArrayBody-blank : ArrayBody xs r → ArrayBody (c ∷ xs) r
  ArrayBody-blank (ArrayBody.empty_array t) = ArrayBody.empty_array (Token.blank e t)
  ArrayBody-blank (ArrayBody.elements v t) = ArrayBody.elements (Value.blank e v) t

  ArrayTail-blank : ArrayTail xs r → ArrayTail (c ∷ xs) r
  ArrayTail-blank (ArrayTail.close_array t) = ArrayTail.close_array (Token.blank e t)
  ArrayTail-blank (ArrayTail.next_element t v u) = ArrayTail.next_element (Token.blank e t) v u

  Members-blank : Members xs r → Members (c ∷ xs) r
  Members-blank (Members.member t k v) = Members.member (Token.blank e t) k v

  ObjectBody-blank : ObjectBody xs r → ObjectBody (c ∷ xs) r
  ObjectBody-blank (ObjectBody.empty_object t) = ObjectBody.empty_object (Token.blank e t)
  ObjectBody-blank (ObjectBody.members m) = ObjectBody.members (Members-blank m)

  MemberValue-blank : MemberValue xs r → MemberValue (c ∷ xs) r
  MemberValue-blank (MemberValue.colon t v u) = MemberValue.colon (Token.blank e t) v u

  ObjectTail-blank : ObjectTail xs r → ObjectTail (c ∷ xs) r
  ObjectTail-blank (ObjectTail.close_object t) = ObjectTail.close_object (Token.blank e t)
  ObjectTail-blank (ObjectTail.next_member t m) = ObjectTail.next_member (Token.blank e t) m

module _ (c : ℕ) (xs : Bytes) where
  pub Completes-blank_top :
      (st : Stack) → is_space c ≡ true → Completes end_top [] xs → Completes end_value [] (c ∷ xs)
  unfolding Completes
  Completes-blank_top st e h = Spaces.blank e h

  pub Completes-blank_end :
      (st : Stack) → is_space c ≡ true → Completes end_value st xs → Completes end_value st (c ∷ xs)
  unfolding Completes
  Completes-blank_end [] e h = Spaces.blank e h
  Completes-blank_end (parse_object_key ∷ st) e (r, g, a) = (r, MemberValue-blank e g, a)
  Completes-blank_end (parse_object_value ∷ st) e (r, g, a) = (r, ObjectTail-blank e g, a)
  Completes-blank_end (parse_array_value ∷ st) e (r, g, a) = (r, ArrayTail-blank e g, a)

  pub Completes-blank_spaces :
      is_space c ≡ true → Completes end_top [] xs → Completes end_top [] (c ∷ xs)
  unfolding Completes
  Completes-blank_spaces e h = Spaces.blank e h

module _ (c : ℕ) (st : Stack) (xs : Bytes) where
  pub Completes-colon :
      c ≡ b':'
      → Completes begin_value (parse_object_value ∷ st) xs
      → Completes end_value (parse_object_key ∷ st) (c ∷ xs)
  unfolding Completes
  Completes-colon e (_, v, (r, t, a)) = (r, MemberValue.colon (Token.byte e) v t, a)

  pub Completes-next_member :
      c ≡ b','
      → Completes begin_string (parse_object_key ∷ st) xs
      → Completes end_value (parse_object_value ∷ st) (c ∷ xs)
  unfolding Completes
  Completes-next_member e (r, m, a) = (r, ObjectTail.next_member (Token.byte e) m, a)

  pub Completes-next_element :
      c ≡ b','
      → Completes begin_value (parse_array_value ∷ st) xs
      → Completes end_value (parse_array_value ∷ st) (c ∷ xs)
  unfolding Completes
  Completes-next_element e (_, v, (r, t, a)) = (r, ArrayTail.next_element (Token.byte e) v t, a)

  After-closed : Completes (closed st) st xs → After st xs
  unfolding Completes
  After-closed h = go st h
    where
      go : (q : Stack) → Completes (closed q) q xs → After q xs
      go [] k = k
      go (_ ∷ _) k = k

  pub Completes-close_object :
      c ≡ b'}'
      → Completes (closed st) st xs
      → Completes end_value (parse_object_value ∷ st) (c ∷ xs)
  unfolding Completes
  Completes-close_object e h = (xs, ObjectTail.close_object (Token.byte e), After-closed h)

  pub Completes-close_array :
      c ≡ b']' → Completes (closed st) st xs → Completes end_value (parse_array_value ∷ st) (c ∷ xs)
  unfolding Completes
  Completes-close_array e h = (xs, ArrayTail.close_array (Token.byte e), After-closed h)

  pub Completes-empty_object :
      c ≡ b'}'
      → Completes (closed st) st xs
      → Completes begin_string_or_empty (parse_object_key ∷ st) (c ∷ xs)
  unfolding Completes
  Completes-empty_object e h = (xs, ObjectBody.empty_object (Token.byte e), After-closed h)

  pub Completes-empty_array :
      c ≡ b']'
      → Completes (closed st) st xs
      → Completes begin_value_or_empty (parse_array_value ∷ st) (c ∷ xs)
  unfolding Completes
  Completes-empty_array e h = (xs, ArrayBody.empty_array (Token.byte e), After-closed h)

  pub Completes-key :
      c ≡ b'"'
      → Completes in_string (parse_object_key ∷ st) xs
      → Completes begin_string (parse_object_key ∷ st) (c ∷ xs)
  unfolding Completes
  Completes-key e (_, k, (r, v, a)) = (r, Members.member (Token.byte e) k v, a)

  pub Completes-blank_key :
      is_space c ≡ true
      → Completes begin_string (parse_object_key ∷ st) xs
      → Completes begin_string (parse_object_key ∷ st) (c ∷ xs)
  unfolding Completes
  Completes-blank_key e (r, m, a) = (r, Members-blank e m, a)

  pub Completes-blank_object :
      is_space c ≡ true
      → Completes begin_string_or_empty (parse_object_key ∷ st) xs
      → Completes begin_string_or_empty (parse_object_key ∷ st) (c ∷ xs)
  unfolding Completes
  Completes-blank_object e (r, m, a) = (r, ObjectBody-blank e m, a)

  pub Completes-blank_array :
      is_space c ≡ true
      → Completes begin_value_or_empty (parse_array_value ∷ st) xs
      → Completes begin_value_or_empty (parse_array_value ∷ st) (c ∷ xs)
  unfolding Completes
  Completes-blank_array e (r, m, a) = (r, ArrayBody-blank e m, a)

-- Where no byte is needed.
module _ (st : Stack) (xs : Bytes) where
  pub Completes-first_element :
      Completes begin_value (parse_array_value ∷ st) xs
      → Completes begin_value_or_empty (parse_array_value ∷ st) xs
  unfolding Completes
  Completes-first_element (_, v, (r, t, a)) = (r, ArrayBody.elements v t, a)

  pub Completes-first_member :
      Completes begin_string (parse_object_key ∷ st) xs
      → Completes begin_string_or_empty (parse_object_key ∷ st) xs
  unfolding Completes
  Completes-first_member (r, m, a) = (r, ObjectBody.members m, a)

-- The first byte of a value.
module _ (c : ℕ) (st : Stack) (xs : Bytes) where
  pub Completes-blank :
      is_space c ≡ true → Completes begin_value st xs → Completes begin_value st (c ∷ xs)
  unfolding Completes
  Completes-blank e (r, v, a) = (r, Value.blank e v, a)

  pub Completes-object :
      c ≡ b'{'
      → Completes begin_string_or_empty (parse_object_key ∷ st) xs
      → Completes begin_value st (c ∷ xs)
  unfolding Completes
  Completes-object e (r, b, a) = (r, Value.object e b, a)

  pub Completes-array :
      c ≡ b'['
      → Completes begin_value_or_empty (parse_array_value ∷ st) xs
      → Completes begin_value st (c ∷ xs)
  unfolding Completes
  Completes-array e (r, b, a) = (r, Value.array e b, a)

  pub Completes-string : c ≡ b'"' → Completes in_string st xs → Completes begin_value st (c ∷ xs)
  unfolding Completes
  Completes-string e (r, k, a) = (r, Value.string e k, a)

  pub Completes-negative : c ≡ b'-' → Completes after_neg st xs → Completes begin_value st (c ∷ xs)
  unfolding Completes
  Completes-negative e (r, u, a) = (r, Value.negative e u, a)

  pub Completes-zero : c ≡ b'0' → Completes after_0 st xs → Completes begin_value st (c ∷ xs)
  unfolding Completes
  Completes-zero e (r, g, a) = (r, Value.number (Unsigned.leading_0 e g), a)

  pub Completes-digit19 :
      is_digit19 c ≡ true → Completes after_1 st xs → Completes begin_value st (c ∷ xs)
  unfolding Completes
  Completes-digit19 e (r, g, a) = (r, Value.number (Unsigned.leading_1 e g), a)

  pub Completes-true : c ≡ b't' → Completes after_t st xs → Completes begin_value st (c ∷ xs)
  unfolding Completes
  Completes-true e (r, w, a) = (r, Value.true_word e w, a)

  pub Completes-false : c ≡ b'f' → Completes after_f st xs → Completes begin_value st (c ∷ xs)
  unfolding Completes
  Completes-false e (r, w, a) = (r, Value.false_word e w, a)

  pub Completes-null : c ≡ b'n' → Completes after_n st xs → Completes begin_value st (c ∷ xs)
  unfolding Completes
  Completes-null e (r, w, a) = (r, Value.null_word e w, a)
