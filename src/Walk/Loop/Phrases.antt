-- ===== src/Walk/Loop/Phrases.antt =====
-- The outer loop of `WalkAndNotify` through the phrases of the grammar: it tells what the derivation
-- has to tell.
use rhine.Scanner.Carry.Moves.{Moves, Carries}
use rhine.Scanner.Carry.Opens.{
  StartsValue, for_value, for_element, StartsKey, for_key, for_first_key, Moves-object, Moves-array,
  Moves-string, Moves-negative, Moves-zero, Moves-digit, Moves-true, Moves-false, Moves-null,
  Moves-key, Moves-blank_value, Moves-blank_key, Moves-blank_end, Moves-next_member,
  Moves-next_element, Moves-close_object, Moves-close_array, Moves-empty_object, Moves-empty_array,
}
use rhine.Scanner.Carry.Text.{carries-string, carries-true, carries-false, carries-null}
use rhine.Scanner.Carry.Number.{Goes, carries-zero, carries-digits, carries-Unsigned}
use rhine.Scanner.Carry.Ends.{
  Delegates, carries-Token, Goes-Token, Delimits-comma, Delimits-bracket, Delimits-brace,
}
use rhine.Scanner.Step.{scan_step}
use rhine.Scanner.Config.{Stack, at, closed, next}
use rhine.Scanner.Delegate.{at_end}
use rhine.Scanner.State.{
  scan_object_value, begin_string, parse_object_value, scan_end_object, scan_array_value,
  begin_value, scan_end_array, after_n, after_f, after_t, after_1, after_0, after_neg, end_value,
  in_string, scan_begin_array, parse_array_value, begin_value_or_empty, scan_begin_object,
  parse_object_key, panic, begin_string_or_empty, ret, Outcome, scan_skip_space, scan_begin_literal,
  State,
}
use rhine.Scanner.Grammar.{
  Value, ArrayBody, ArrayTail, ObjectBody, Members, MemberValue, ObjectTail, Token, Chars, Escape,
  Hex, Unsigned,
}
use rhine.Walk.Notify.{StateHook, World, Looked}
use rhine.Walk.Loop.{WalkError, walk_bytes, walk_byte, and_then, after_scan}
use rhine.Walk.Loop.Steps.{
  observe, walk_of, Walks, WalksAt, WalksAt-plain, Walks-plain, literal-WalksAt,
}
use rhine.Walk.Loop.Key.{TellsTo, TellsTo-map, TellsTo-then, colon-WalksAt}
use rhine.Walk.Tell.{
  Told, tell_value, tell_array, tell_elements, tell_object, tell_members, tell_member, tell_tail,
  tell_key, key_before,
}
use rhine.Prelude.{
  ℕ, suc, ◌+◌, ◌≤◌, Bytes, List, ◌∷◌, ◌≡◌, refl, ap, ◌∙◌, Option, length, drop, arith,
}

-- What stands behind a phrase is shorter.
mutual
  pub Chars-length : {xs r : Bytes} → Chars xs r → length r + 1 ≤ length xs
  Chars-length (Chars.quote e) = omega arith
  Chars-length (Chars.plain p q l g) = omega (arith, Chars-length g)
  Chars-length (Chars.escape e g) = omega (arith, Escape-length g)

  Escape-length : {xs r : Bytes} → Escape xs r → length r + 1 ≤ length xs
  Escape-length (Escape.simple e g) = omega (arith, Chars-length g)
  Escape-length (Escape.unicode e g) = omega (arith, Hex-length g)

  Hex-length : {k : ℕ} {xs r : Bytes} → Hex k xs r → length r + 1 ≤ length xs
  Hex-length (Hex.enough g) = Chars-length g
  Hex-length (Hex.digit e g) = omega (arith, Hex-length g)

pub Token-length : {want : ℕ} {xs r : Bytes} → Token want xs r → length r + 1 ≤ length xs
Token-length (Token.byte e) = omega arith
Token-length (Token.blank e t) = omega (arith, Token-length t)

module _ {P E : Type 0} (lookup : Bytes → Looked P E) (hooks : Bytes → List StateHook)
    (text : Bytes) (out : Option (World P × Option (WalkError E))) where
  -- The runs of one walk that end with the outcome.
  abbrev Ends : Told P → State → Stack → Bytes → Type 0
  Ends t = Walks lookup hooks text t out

  abbrev EndsAt : ℕ → Told P → State → Stack → Bytes → Type 0
  EndsAt l t = WalksAt lookup hooks text l t out

  at-Carries : (l : ℕ) (t : Told P) → Carries (EndsAt l t)
  at-Carries l t k k' st st' c xs op p m h =
      WalksAt-plain lookup hooks text l t out k k' st st' c xs op p m h

  pub Ends-Carries : (t : Told P) → Carries (Ends t)
  Ends-Carries t k k' st st' c xs op p m h =
      Walks-plain lookup hooks text t out k k' st st' c xs op p m h

  -- The round reads the scanner only through the step.
  after_scan-forgets :
      (i n l : ℕ) (t : Told P) (k k' : State) (st : Stack) (o : Outcome)
      → after_scan lookup hooks text i (walk_of lookup hooks text k st n l t) o
        ≡ after_scan lookup hooks text i (walk_of lookup hooks text k' st n l t) o
  unfolding after_scan
  after_scan-forgets i n l t k k' st panic = refl
  after_scan-forgets i n l t k k' st (ret s op) = refl

  pub Ends-Delegates : (t : Told P) → Delegates (Ends t)
  unfolding walk_bytes walk_byte
  Ends-Delegates t k k' st c xs e h l n i d =
      ap
        (λ o. observe (
          and_then (after_scan lookup hooks text i (walk_of lookup hooks text k st n l t) o)
            (walk_bytes lookup hooks text (i + 1) xs)))
        (e (next n))
      ∙ ap (λ r. observe (and_then r (walk_bytes lookup hooks text (i + 1) xs)))
          (after_scan-forgets i n l t k k' st (scan_step (at k' st (next n)) c))
      ∙ h l n i d

  literal-Ends :
      (t : Told P) (k k' : State) (st : Stack) (c : ℕ) (xs : Bytes)
      → Moves k st c k' st scan_begin_literal
      → Ends t k' st xs
      → Ends t k st (c ∷ xs)
  literal-Ends t k k' st c xs m h l =
      literal-WalksAt lookup hooks text l t out k k' st c xs m (λ q d. h q)

  mutual
    unfolding tell_value tell_array tell_elements tell_object tell_members tell_member tell_tail

    pub Value-Ends :
        {k : State} {xs r : Bytes} (st : Stack)
        → StartsValue k
        → (v : Value xs r) (t : Told P)
        → TellsTo out (tell_value lookup hooks v (length st) t) (λ t'. Goes (Ends t') st r)
        → Ends t k st xs
    Value-Ends {k} st s (Value.blank {c} {xs} e v) t h =
        Ends-Carries t k k st st c xs scan_skip_space refl (Moves-blank_value st c s e)
          (Value-Ends st s v t h)
    Value-Ends {k} st s (Value.object {c} {xs} e b) t h =
        Ends-Carries t k begin_string_or_empty st (parse_object_key ∷ st) c xs scan_begin_object
          refl (Moves-object st c s e)
          (Object-Ends st b t (
            TellsTo-map out (tell_object lookup hooks b (suc (length st)) t) _ _ (λ t' g. g.shut)
              h))
    Value-Ends {k} st s (Value.array {c} {xs} e b) t h =
        Ends-Carries t k begin_value_or_empty st (parse_array_value ∷ st) c xs scan_begin_array refl
          (Moves-array st c s e)
          (Array-Ends st b t (
            TellsTo-map out (tell_array lookup hooks b (suc (length st)) t) _ _ (λ t' g. g.shut) h))
    Value-Ends {k} st s (Value.string {c} {xs} e g) t h =
        literal-Ends t k in_string st c xs (Moves-string st c s e)
          (carries-string (Ends t) (Ends-Carries t) st g (h.ended end_value at_end))
    Value-Ends {k} st s (Value.negative {c} {xs} e u) t h =
        literal-Ends t k after_neg st c xs (Moves-negative st c s e)
          (carries-Unsigned (Ends t) (Ends-Carries t) st h u)
    Value-Ends {k} st s (Value.number (Unsigned.leading_0 {c} {xs} e g)) t h =
        literal-Ends t k after_0 st c xs (Moves-zero st c s e)
          (carries-zero (Ends t) (Ends-Carries t) st h g)
    Value-Ends {k} st s (Value.number (Unsigned.leading_1 {c} {xs} e g)) t h =
        literal-Ends t k after_1 st c xs (Moves-digit st c s e)
          (carries-digits (Ends t) (Ends-Carries t) st h g)
    Value-Ends {k} st s (Value.true_word {c} {xs} e w) t h =
        literal-Ends t k after_t st c xs (Moves-true st c s e)
          (carries-true (Ends t) (Ends-Carries t) st (h.ended end_value at_end) w)
    Value-Ends {k} st s (Value.false_word {c} {xs} e w) t h =
        literal-Ends t k after_f st c xs (Moves-false st c s e)
          (carries-false (Ends t) (Ends-Carries t) st (h.ended end_value at_end) w)
    Value-Ends {k} st s (Value.null_word {c} {xs} e w) t h =
        literal-Ends t k after_n st c xs (Moves-null st c s e)
          (carries-null (Ends t) (Ends-Carries t) st (h.ended end_value at_end) w)

    Array-Ends :
        {xs r : Bytes} (st : Stack) (b : ArrayBody xs r) (t : Told P)
        → TellsTo out
            (tell_array lookup hooks b (suc (length st)) t)
            (λ t'. Ends t' (closed st) st r)
        → Ends t begin_value_or_empty (parse_array_value ∷ st) xs
    Array-Ends st (ArrayBody.empty_array {xs} {r} k) t h =
        carries-Token (Ends t) begin_value_or_empty (parse_array_value ∷ st)
          (λ c ys e.
            Ends-Carries t begin_value_or_empty begin_value_or_empty (parse_array_value ∷ st)
              (parse_array_value ∷ st) c ys scan_skip_space refl
              (Moves-blank_value (parse_array_value ∷ st) c for_element e))
          k
          (Ends-Carries t begin_value_or_empty (closed st) (parse_array_value ∷ st) st b']' r
            scan_end_array refl (Moves-empty_array st) h)
    Array-Ends st (ArrayBody.elements v u) t h =
        Value-Ends (parse_array_value ∷ st) for_element v t (
          TellsTo-map out (tell_value lookup hooks v (suc (length st)) t) _ _
            (λ t' h'. Elements-Goes st u t' h')
            (TellsTo-then out (tell_value lookup hooks v (suc (length st)) t)
              (tell_elements lookup hooks u (suc (length st))) _ h))

    Elements-Goes :
        {xs r : Bytes} (st : Stack) (u : ArrayTail xs r) (t : Told P)
        → TellsTo out
            (tell_elements lookup hooks u (suc (length st)) t)
            (λ t'. Ends t' (closed st) st r)
        → Goes (Ends t) (parse_array_value ∷ st) xs
    Elements-Goes st (ArrayTail.close_array {xs} {r} k) t h =
        Goes-Token (Ends t) parse_array_value st (Ends-Carries t) (Ends-Delegates t)
          Delimits-bracket k
          (Ends-Carries t end_value (closed st) (parse_array_value ∷ st) st b']' r scan_end_array
            refl (Moves-close_array st) h)
    Elements-Goes st (ArrayTail.next_element {xs} {ys} k v u) t h =
        Goes-Token (Ends t) parse_array_value st (Ends-Carries t) (Ends-Delegates t) Delimits-comma
          k
          (Ends-Carries t end_value begin_value (parse_array_value ∷ st) (parse_array_value ∷ st)
            b',' ys scan_array_value refl (Moves-next_element st)
            (Value-Ends (parse_array_value ∷ st) for_value v t (
              TellsTo-map out (tell_value lookup hooks v (suc (length st)) t) _ _
                (λ t' h'. Elements-Goes st u t' h')
                (TellsTo-then out (tell_value lookup hooks v (suc (length st)) t)
                  (tell_elements lookup hooks u (suc (length st))) _ h))))

    Object-Ends :
        {xs r : Bytes} (st : Stack) (b : ObjectBody xs r) (t : Told P)
        → TellsTo out
            (tell_object lookup hooks b (suc (length st)) t)
            (λ t'. Ends t' (closed st) st r)
        → Ends t begin_string_or_empty (parse_object_key ∷ st) xs
    Object-Ends st (ObjectBody.empty_object {xs} {r} k) t h =
        carries-Token (Ends t) begin_string_or_empty (parse_object_key ∷ st)
          (λ c ys e.
            Ends-Carries t begin_string_or_empty begin_string_or_empty (parse_object_key ∷ st)
              (parse_object_key ∷ st) c ys scan_skip_space refl
              (Moves-blank_key (parse_object_key ∷ st) c for_first_key e))
          k
          (Ends-Carries t begin_string_or_empty (closed st) (parse_object_key ∷ st) st b'}' r
            scan_end_object refl (Moves-empty_object st) h)
    Object-Ends st (ObjectBody.members m) t h = Members-Ends st for_first_key m t h

    Members-Ends :
        {k : State} {xs r : Bytes} (st : Stack)
        → StartsKey k
        → (m : Members xs r) (t : Told P)
        → TellsTo out
            (tell_members lookup hooks m (suc (length st)) t)
            (λ t'. Ends t' (closed st) st r)
        → Ends t k (parse_object_key ∷ st) xs
    Members-Ends {k} st s (Members.member {xs} {ys} q g v) t h =
        carries-Token (Ends t) k (parse_object_key ∷ st)
          (λ c zs e.
            Ends-Carries t k k (parse_object_key ∷ st) (parse_object_key ∷ st) c zs scan_skip_space
              refl (Moves-blank_key (parse_object_key ∷ st) c s e))
          q
          (λ l.
            literal-WalksAt lookup hooks text l t out k in_string (parse_object_key ∷ st) b'"' ys
              (Moves-key (parse_object_key ∷ st) b'"' s refl)
              (λ p d.
                carries-string (EndsAt p t) (at-Carries p t) (parse_object_key ∷ st) g
                  (Member-EndsAt st ys v t p d (Chars-length g) h)))

    Member-EndsAt :
        {xs r : Bytes} (st : Stack) (from : Bytes) (v : MemberValue xs r) (t : Told P) (l : ℕ)
        → drop l text ≡ b'"' ∷ from
        → length xs + 1 ≤ length from
        → TellsTo out
            (tell_member lookup hooks from v (suc (length st)) t)
            (λ t'. Ends t' (closed st) st r)
        → EndsAt l t end_value (parse_object_key ∷ st) xs
    Member-EndsAt st from (MemberValue.colon {xs} {ys} q v u) t l d n h =
        carries-Token (EndsAt l t) end_value (parse_object_key ∷ st)
          (λ c zs e.
            at-Carries l t end_value end_value (parse_object_key ∷ st) (parse_object_key ∷ st) c zs
              scan_skip_space refl (Moves-blank_end parse_object_key st c e))
          q
          (colon-WalksAt lookup hooks text l t out st from ys d (omega (arith, n, Token-length q)) (
            TellsTo-map out (tell_key lookup hooks (suc (length st)) (key_before from ys) t) _ _
              (λ t' h'. Value-Ends (parse_object_value ∷ st) for_value v t' (
                TellsTo-map out (tell_value lookup hooks v (suc (length st)) t') _ _
                  (λ t'' h''. Tail-Goes st u t'' h'')
                  (TellsTo-then out (tell_value lookup hooks v (suc (length st)) t')
                    (tell_tail lookup hooks u (suc (length st))) _ h')))
              (TellsTo-then out (tell_key lookup hooks (suc (length st)) (key_before from ys) t) _ _
                h)))

    Tail-Goes :
        {xs r : Bytes} (st : Stack) (u : ObjectTail xs r) (t : Told P)
        → TellsTo out
            (tell_tail lookup hooks u (suc (length st)) t)
            (λ t'. Ends t' (closed st) st r)
        → Goes (Ends t) (parse_object_value ∷ st) xs
    Tail-Goes st (ObjectTail.close_object {xs} {r} k) t h =
        Goes-Token (Ends t) parse_object_value st (Ends-Carries t) (Ends-Delegates t) Delimits-brace
          k
          (Ends-Carries t end_value (closed st) (parse_object_value ∷ st) st b'}' r scan_end_object
            refl (Moves-close_object st) h)
    Tail-Goes st (ObjectTail.next_member {xs} {ys} k m) t h =
        Goes-Token (Ends t) parse_object_value st (Ends-Carries t) (Ends-Delegates t) Delimits-comma
          k
          (Ends-Carries t end_value begin_string (parse_object_value ∷ st) (parse_object_key ∷ st)
            b',' ys scan_object_value refl (Moves-next_member st) (Members-Ends st for_key m t h))
