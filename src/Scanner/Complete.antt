-- ===== src/Scanner/Complete.antt =====
-- What is JSON the scanner accepts: the induction over the grammar.
use rhine.Scanner.Run.{new_scanner, scan_all, accepts, accepted, on_step, is_error}
use rhine.Scanner.Carry.Moves.{Moves, Carries, is_plain}
use rhine.Scanner.Carry.Opens.{
  StartsValue, for_value, for_element, StartsKey, for_key, for_first_key, Moves-object, Moves-array,
  Moves-string, Moves-negative, Moves-zero, Moves-digit, Moves-true, Moves-false, Moves-null,
  Moves-key, Moves-blank_value, Moves-blank_key, Moves-blank_end, Moves-blank_top, Moves-blank_last,
  Moves-colon, Moves-next_member, Moves-next_element, Moves-close_object, Moves-close_array,
  Moves-empty_object, Moves-empty_array,
}
use rhine.Scanner.Carry.Text.{carries-string, carries-true, carries-false, carries-null}
use rhine.Scanner.Carry.Number.{Goes, carries-zero, carries-digits, carries-Unsigned}
use rhine.Scanner.Carry.Ends.{
  Delegates, carries-Token, Goes-Token, goes_on-space, Delimits-comma, Delimits-bracket,
  Delimits-brace,
}
use rhine.Scanner.Step.{step_at}
use rhine.Scanner.Config.{Stack, at, closed, next}
use rhine.Scanner.Delegate.{EndsValue, at_end, eof-number, step-number}
use rhine.Scanner.State.{
  scan_object_value, parse_object_value, scan_end_object, scan_array_value, scan_end_array, after_n,
  after_f, after_t, after_1, after_0, after_neg, in_string, scan_begin_array, parse_array_value,
  begin_value_or_empty, scan_begin_object, parse_object_key, scan_object_key, scan_end,
  begin_string_or_empty, scan_error, end_value, scan_skip_space, end_top, scan_begin_literal, State,
  Opcode, Scanner, is_space,
}
use rhine.Scanner.Grammar.{
  Value, ArrayBody, ArrayTail, ObjectBody, Members, MemberValue, ObjectTail, Unsigned, Spaces, Json,
}
use rhine.Prelude.{sym, ℕ, Bytes, [], ◌∷◌, ◌≡◌, refl, ap, ◌∙◌, true, false}

-- What a run from a step function and a stack accepts, at any byte count.
abbrev Accepts : State → Stack → Bytes → Type 0
Accepts k st xs = (n : ℕ) → accepts (at k st n) xs ≡ true

step-Accepts :
    (k k' : State) (st st' : Stack) (c : ℕ) (xs : Bytes) (op : Opcode)
    → is_error op ≡ false
    → Moves k st c k' st' op
    → Accepts k' st' xs
    → Accepts k st (c ∷ xs)
unfolding scan_all
step-Accepts k k' st st' c xs op e m h n =
    ap (λ o. accepted (on_step o (λ s. scan_all s xs))) (m (next n)) ∙ rw (e, accepted) (h (next n))

plain-is_error : (op : Opcode) → is_plain op ≡ true → is_error op ≡ false
plain-is_error scan_error p = sym p
plain-is_error scan_begin_literal p = refl
plain-is_error scan_object_key p = refl
plain-is_error _ p = refl

Accepts-Carries : Carries Accepts
Accepts-Carries k k' st st' c xs op p m h =
    step-Accepts k k' st st' c xs op (plain-is_error op p) m h

Accepts-Delegates : Delegates Accepts
unfolding scan_all
Accepts-Delegates k k' st c xs e h n =
    ap (λ o. accepted (on_step o (λ s. scan_all s xs))) (e (next n)) ∙ h n

literal-Accepts :
    (k k' : State) (st : Stack) (c : ℕ) (xs : Bytes)
    → Moves k st c k' st scan_begin_literal
    → Accepts k' st xs
    → Accepts k st (c ∷ xs)
literal-Accepts k k' st c xs m h = step-Accepts k k' st st c xs scan_begin_literal refl m h

mutual
  Value-Accepts :
      {k : State} {xs r : Bytes} (st : Stack)
      → StartsValue k
      → Value xs r
      → Goes Accepts st r
      → Accepts k st xs
  Value-Accepts {k} st s (Value.blank {c} {xs} e v) h =
      Accepts-Carries k k st st c xs scan_skip_space refl (Moves-blank_value st c s e)
        (Value-Accepts st s v h)
  Value-Accepts {k} st s (Value.object {c} {xs} e b) h =
      Accepts-Carries k begin_string_or_empty st (parse_object_key ∷ st) c xs scan_begin_object refl
        (Moves-object st c s e) (Object-Accepts st b h.shut)
  Value-Accepts {k} st s (Value.array {c} {xs} e b) h =
      Accepts-Carries k begin_value_or_empty st (parse_array_value ∷ st) c xs scan_begin_array refl
        (Moves-array st c s e) (Array-Accepts st b h.shut)
  Value-Accepts {k} st s (Value.string {c} {xs} e g) h =
      literal-Accepts k in_string st c xs (Moves-string st c s e)
        (carries-string Accepts Accepts-Carries st g (h.ended end_value at_end))
  Value-Accepts {k} st s (Value.negative {c} {xs} e u) h =
      literal-Accepts k after_neg st c xs (Moves-negative st c s e)
        (carries-Unsigned Accepts Accepts-Carries st h u)
  Value-Accepts {k} st s (Value.number (Unsigned.leading_0 {c} {xs} e g)) h =
      literal-Accepts k after_0 st c xs (Moves-zero st c s e)
        (carries-zero Accepts Accepts-Carries st h g)
  Value-Accepts {k} st s (Value.number (Unsigned.leading_1 {c} {xs} e g)) h =
      literal-Accepts k after_1 st c xs (Moves-digit st c s e)
        (carries-digits Accepts Accepts-Carries st h g)
  Value-Accepts {k} st s (Value.true_word {c} {xs} e w) h =
      literal-Accepts k after_t st c xs (Moves-true st c s e)
        (carries-true Accepts Accepts-Carries st (h.ended end_value at_end) w)
  Value-Accepts {k} st s (Value.false_word {c} {xs} e w) h =
      literal-Accepts k after_f st c xs (Moves-false st c s e)
        (carries-false Accepts Accepts-Carries st (h.ended end_value at_end) w)
  Value-Accepts {k} st s (Value.null_word {c} {xs} e w) h =
      literal-Accepts k after_n st c xs (Moves-null st c s e)
        (carries-null Accepts Accepts-Carries st (h.ended end_value at_end) w)

  Array-Accepts :
      {xs r : Bytes} (st : Stack)
      → ArrayBody xs r
      → Accepts (closed st) st r
      → Accepts begin_value_or_empty (parse_array_value ∷ st) xs
  Array-Accepts st (ArrayBody.empty_array {xs} {r} k) h =
      carries-Token Accepts begin_value_or_empty (parse_array_value ∷ st)
        (λ c ys e.
          Accepts-Carries _ _ _ _ c ys scan_skip_space refl
            (Moves-blank_value (parse_array_value ∷ st) c for_element e))
        k (Accepts-Carries _ _ _ _ b']' r scan_end_array refl (Moves-empty_array st) h)
  Array-Accepts st (ArrayBody.elements v u) h =
      Value-Accepts (parse_array_value ∷ st) for_element v (Elements-Goes st u h)

  Elements-Goes :
      {xs r : Bytes} (st : Stack)
      → ArrayTail xs r
      → Accepts (closed st) st r
      → Goes Accepts (parse_array_value ∷ st) xs
  Elements-Goes st (ArrayTail.close_array {xs} {r} k) h =
      Goes-Token Accepts parse_array_value st Accepts-Carries Accepts-Delegates Delimits-bracket k
        (Accepts-Carries _ _ _ _ b']' r scan_end_array refl (Moves-close_array st) h)
  Elements-Goes st (ArrayTail.next_element {xs} {ys} k v u) h =
      Goes-Token Accepts parse_array_value st Accepts-Carries Accepts-Delegates Delimits-comma k (
        Accepts-Carries _ _ _ _ b',' ys scan_array_value refl (Moves-next_element st)
          (Value-Accepts (parse_array_value ∷ st) for_value v (Elements-Goes st u h)))

  Object-Accepts :
      {xs r : Bytes} (st : Stack)
      → ObjectBody xs r
      → Accepts (closed st) st r
      → Accepts begin_string_or_empty (parse_object_key ∷ st) xs
  Object-Accepts st (ObjectBody.empty_object {xs} {r} k) h =
      carries-Token Accepts begin_string_or_empty (parse_object_key ∷ st)
        (λ c ys e.
          Accepts-Carries _ _ _ _ c ys scan_skip_space refl
            (Moves-blank_key (parse_object_key ∷ st) c for_first_key e))
        k (Accepts-Carries _ _ _ _ b'}' r scan_end_object refl (Moves-empty_object st) h)
  Object-Accepts st (ObjectBody.members m) h = Members-Accepts st for_first_key m h

  Members-Accepts :
      {k : State} {xs r : Bytes} (st : Stack)
      → StartsKey k
      → Members xs r
      → Accepts (closed st) st r
      → Accepts k (parse_object_key ∷ st) xs
  Members-Accepts {k} st s (Members.member {xs} {ys} q g (MemberValue.colon {ys = zs} q' v u)) h =
      carries-Token Accepts k (parse_object_key ∷ st)
        (λ c ws e.
          Accepts-Carries _ _ _ _ c ws scan_skip_space refl
            (Moves-blank_key (parse_object_key ∷ st) c s e))
        q
        (literal-Accepts k in_string (parse_object_key ∷ st) b'"' ys
          (Moves-key (parse_object_key ∷ st) b'"' s refl)
          (carries-string Accepts Accepts-Carries (parse_object_key ∷ st) g (
            carries-Token Accepts end_value (parse_object_key ∷ st)
              (λ c ws e.
                Accepts-Carries _ _ _ _ c ws scan_skip_space refl
                  (Moves-blank_end parse_object_key st c e))
              q'
              (step-Accepts _ _ _ _ b':' zs scan_object_key refl (Moves-colon st)
                (Value-Accepts (parse_object_value ∷ st) for_value v (Tail-Goes st u h))))))

  Tail-Goes :
      {xs r : Bytes} (st : Stack)
      → ObjectTail xs r
      → Accepts (closed st) st r
      → Goes Accepts (parse_object_value ∷ st) xs
  Tail-Goes st (ObjectTail.close_object {xs} {r} k) h =
      Goes-Token Accepts parse_object_value st Accepts-Carries Accepts-Delegates Delimits-brace k
        (Accepts-Carries _ _ _ _ b'}' r scan_end_object refl (Moves-close_object st) h)
  Tail-Goes st (ObjectTail.next_member {xs} {ys} k m) h =
      Goes-Token Accepts parse_object_value st Accepts-Carries Accepts-Delegates Delimits-comma k (
        Accepts-Carries _ _ _ _ b',' ys scan_object_value refl (Moves-next_member st)
          (Members-Accepts st for_key m h))

Spaces-Accepts : {xs : Bytes} → Spaces xs → Accepts end_top [] xs
Spaces-Accepts Spaces.nothing = λ n. unfold scan_all in refl
Spaces-Accepts (Spaces.blank {c} {xs} e s) =
    Accepts-Carries _ _ _ _ c xs scan_end refl (Moves-blank_top c e) (Spaces-Accepts s)

ended-Accepts : {xs : Bytes} → Spaces xs → (k : State) → EndsValue k → Accepts k [] xs
ended-Accepts Spaces.nothing k v =
    λ n. unfold scan_all step_at is_space in ap accepted (eof-number [] n v)
ended-Accepts (Spaces.blank {c} {xs} e s) k v =
    Accepts-Delegates k end_value [] c xs (λ n. step-number c [] n v (goes_on-space c e k v))
      (Accepts-Carries _ _ _ _ c xs scan_end refl (Moves-blank_last c e) (Spaces-Accepts s))

pub Json-accepts : (s : Scanner) (text : Bytes) → Json text → accepts (new_scanner s) text ≡ true
Json-accepts s text (Json.document v t) =
    Value-Accepts [] for_value v (record { ended = ended-Accepts t; shut = Spaces-Accepts t }) 0
