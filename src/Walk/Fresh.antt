-- ===== src/Walk/Fresh.antt =====
-- Whether what the pool's path holds can reach the hooks.
use rhine.Scanner.Grammar.{
  Json, Value, ArrayBody, ArrayTail, ObjectBody, Members, MemberValue, ObjectTail,
}
use rhine.Walk.Notify.{StateHook, World, Looked, Notified, notified, lookup_error, notify_hooks}
use rhine.Walk.Loop.{write, KeyPath, walk_and_notify, join, max_path_depth}
use rhine.Walk.Tell.{
  key_before, Told, Telling, going, halted, then_tell, after_hooks, tell_key, tell_value,
  tell_array, tell_elements, tell_object, tell_members, tell_member, tell_tail,
}
use rhine.Walk.Paths.{walk_and_notify-tells, finish}
use rhine.Prelude.{
  ℕ, suc, zero, ◌-◌, ◌<◌, Bytes, List, [], ◌∷◌, ◌++◌, ◌≡◌, refl, ap, sym, ◌∙◌, take, set, length,
  ltb, Bool-cases, inl, inr, arith, some, none,
}
use mathlib.Core.Path.{subst}
use rhine.Scanner.State.{Scanner}
use rhine.Walk.Loop.Steps.{observe}

-- The value has no keys.
unfoldable mutual
  pub IsKeyless : {xs r : Bytes} → Value xs r → Type 0
  IsKeyless (Value.blank e v) = IsKeyless v
  IsKeyless (Value.object e (ObjectBody.empty_object k)) = Unit
  IsKeyless (Value.object e (ObjectBody.members m)) = ⊥
  IsKeyless (Value.array e b) = AreKeyless b
  IsKeyless _ = Unit

  pub AreKeyless : {xs r : Bytes} → ArrayBody xs r → Type 0
  AreKeyless (ArrayBody.empty_array k) = Unit
  AreKeyless (ArrayBody.elements v u) = IsKeyless v × RestKeyless u

  pub RestKeyless : {xs r : Bytes} → ArrayTail xs r → Type 0
  RestKeyless (ArrayTail.close_array k) = Unit
  RestKeyless (ArrayTail.next_element k v u) = IsKeyless v × RestKeyless u

-- No key of the value stands in an array.
unfoldable mutual
  pub IsTidy : {xs r : Bytes} → Value xs r → Type 0
  IsTidy (Value.blank e v) = IsTidy v
  IsTidy (Value.object e b) = BodyTidy b
  IsTidy (Value.array e b) = AreKeyless b
  IsTidy _ = Unit

  pub BodyTidy : {xs r : Bytes} → ObjectBody xs r → Type 0
  BodyTidy (ObjectBody.empty_object k) = Unit
  BodyTidy (ObjectBody.members m) = MembersTidy m

  pub MembersTidy : {xs r : Bytes} → Members xs r → Type 0
  MembersTidy (Members.member q g (MemberValue.colon k v u)) = IsTidy v × TailTidy u

  pub TailTidy : {xs r : Bytes} → ObjectTail xs r → Type 0
  TailTidy (ObjectTail.close_object k) = Unit
  TailTidy (ObjectTail.next_member k m) = MembersTidy m

take-set :
    (d : ℕ) (xs : List Bytes) (v : Bytes)
    → d < length xs
    → take (suc d) (set xs d v) ≡ take d xs ++ v ∷ []
take-set d [] v l = absurd (omega (arith, l))
take-set zero (x ∷ xs) v l = refl
take-set (suc d) (x ∷ xs) v l =
    let l' : d < length xs = omega (arith, l) in ap (λ r. x ∷ r) (take-set d xs v l')

take-take : (d : ℕ) (xs : List Bytes) → take d (take (suc d) xs) ≡ take d xs
take-take zero xs = refl
take-take (suc d) [] = refl
take-take (suc d) (x ∷ xs) = ap (λ r. x ∷ r) (take-take d xs)

module _ {P : Type 0} where
  -- Two walks whose paths agree so far.
  pub record Agree (d : ℕ) (t t' : Told P) : Type 0 where
    pub takes : take d t.path.items ≡ take d t'.path.items
    pub worlds : t.world ≡ t'.world

  shorter : (d : ℕ) (t t' : Told P) → Agree (suc d) t t' → Agree d t t'
  shorter d t t' a = record {
    takes = sym (take-take d t.path.items) ∙ ap (take d) a.takes ∙ take-take d t'.path.items;
    worlds = a.worlds;
  }

module _ {P E : Type 0} where
  abbrev AreSame : ℕ → Telling P E → Telling P E → Type 0
  AreSame d (going t) (going t') = Agree d t t'
  AreSame d (halted w e) (halted w' e') = (w ≡ w') × (e ≡ e')
  AreSame d (going t) (halted w' e') = ⊥
  AreSame d (halted w e) (going t') = ⊥

  then-AreSame :
      (d d' : ℕ) (s s' : Telling P E) (f : Told P → Telling P E)
      → AreSame d s s'
      → ((t t' : Told P) → Agree d t t' → AreSame d' (f t) (f t'))
      → AreSame d' (then_tell s f) (then_tell s' f)
  then-AreSame d d' (going t) (going t') f a h = h t t' a
  then-AreSame d d' (halted w e) (halted w' e') f a h = a
  then-AreSame d d' (going t) (halted w' e') f a h = absurd a
  then-AreSame d d' (halted w e) (going t') f a h = absurd a

  AreSame-finish : (d : ℕ) (s s' : Telling P E) → AreSame d s s' → finish s ≡ finish s'
  AreSame-finish d (going t) (going t') a = ap (λ w. some (w, none)) a.worlds
  AreSame-finish d (halted w e) (halted w' e') (p, q) =
      ap (λ w. some (w, some e)) p ∙ ap (λ e. some (w', some e)) q
  AreSame-finish d (going t) (halted w' e') a = absurd a
  AreSame-finish d (halted w e) (going t') a = absurd a

  hooks-AreSame :
      (d : ℕ) (path path' : KeyPath) (o : Notified P E)
      → take d path.items ≡ take d path'.items
      → AreSame d (after_hooks path o) (after_hooks path' o)
  hooks-AreSame d path path' (notified w) p = record { takes = p; worlds = refl }
  hooks-AreSame d path path' (lookup_error w e) p = (refl, refl)

module _ {P E : Type 0} (lookup : Bytes → Looked P E) (hooks : Bytes → List StateHook) where
  tell_key-AreSame :
      (d : ℕ) (key : Bytes) (t t' : Told P)
      → Agree d t t'
      → AreSame (suc d) (tell_key lookup hooks (suc d) key t) (tell_key lookup hooks (suc d) key t')
  unfolding tell_key
  tell_key-AreSame d key t t' a = elim (Bool-cases (ltb max_path_depth (suc d))) [
    | inl e ↦ rw e (a.worlds, refl)
    | inr e ↦
        let l : d < length t.path.items = ground (arith, t.path.is_full, e) in
        let l' : d < length t'.path.items = ground (arith, t'.path.is_full, e) in
        let n : suc d - 1 ≡ d = omega arith in
        let p : take (suc d) (set t.path.items d key) ≡ take (suc d) (set t'.path.items d key) =
          take-set d t.path.items key l
          ∙ ap (λ r. r ++ key ∷ []) a.takes
          ∙ sym (take-set d t'.path.items key l') in
        let o : Bytes → World P → Notified P E =
          λ cur w. notify_hooks lookup cur none (hooks cur) w in
        let q : o (join (take (suc d) (set t.path.items d key))) t.world
            ≡ o (join (take (suc d) (set t'.path.items d key))) t'.world =
          ap (λ ps. o (join ps) t.world) p
          ∙ ap (o (join (take (suc d) (set t'.path.items d key)))) a.worlds in
        rw (e, n)
          (subst
            (λ r.
              AreSame (suc d)
                (after_hooks (write t.path d key)
                  (o (join (take (suc d) (set t.path.items d key))) t.world))
                (after_hooks (write t'.path d key) r))
            q
            (hooks-AreSame (suc d) (write t.path d key) (write t'.path d key)
              (o (join (take (suc d) (set t.path.items d key))) t.world) p))
  ]

  mutual
    unfolding tell_value tell_array tell_elements tell_object tell_members tell_member tell_tail
        IsKeyless AreKeyless RestKeyless

    tell_value-keyless :
        {xs r : Bytes} (v : Value xs r) (d : ℕ) (t : Told P)
        → IsKeyless v
        → tell_value lookup hooks v d t ≡ going t
    tell_value-keyless (Value.blank e v) d t k = tell_value-keyless v d t k
    tell_value-keyless (Value.object e (ObjectBody.empty_object q)) d t k = refl
    tell_value-keyless (Value.object e (ObjectBody.members m)) d t k = absurd k
    tell_value-keyless (Value.array e b) d t k = tell_array-keyless b (suc d) t k
    tell_value-keyless (Value.string e g) d t k = refl
    tell_value-keyless (Value.negative e u) d t k = refl
    tell_value-keyless (Value.number u) d t k = refl
    tell_value-keyless (Value.true_word e w) d t k = refl
    tell_value-keyless (Value.false_word e w) d t k = refl
    tell_value-keyless (Value.null_word e w) d t k = refl

    tell_array-keyless :
        {xs r : Bytes} (b : ArrayBody xs r) (d : ℕ) (t : Told P)
        → AreKeyless b
        → tell_array lookup hooks b d t ≡ going t
    tell_array-keyless (ArrayBody.empty_array q) d t k = refl
    tell_array-keyless (ArrayBody.elements v u) d t (k, ks) =
        ap (λ s. then_tell s (tell_elements lookup hooks u d)) (tell_value-keyless v d t k)
        ∙ tell_elements-keyless u d t ks

    tell_elements-keyless :
        {xs r : Bytes} (u : ArrayTail xs r) (d : ℕ) (t : Told P)
        → RestKeyless u
        → tell_elements lookup hooks u d t ≡ going t
    tell_elements-keyless (ArrayTail.close_array q) d t k = refl
    tell_elements-keyless (ArrayTail.next_element q v u) d t (k, ks) =
        ap (λ s. then_tell s (tell_elements lookup hooks u d)) (tell_value-keyless v d t k)
        ∙ tell_elements-keyless u d t ks

  mutual
    unfolding tell_value tell_array tell_elements tell_object tell_members tell_member tell_tail
        IsTidy BodyTidy MembersTidy TailTidy

    tell_value-AreSame :
        {xs r : Bytes} (v : Value xs r) (d : ℕ) (t t' : Told P)
        → IsTidy v
        → Agree d t t'
        → AreSame d (tell_value lookup hooks v d t) (tell_value lookup hooks v d t')
    tell_value-AreSame (Value.blank e v) d t t' k a = tell_value-AreSame v d t t' k a
    tell_value-AreSame (Value.object e (ObjectBody.empty_object q)) d t t' k a = a
    tell_value-AreSame (Value.object e (ObjectBody.members m)) d t t' k a =
        tell_members-AreSame m d t t' k a
    tell_value-AreSame (Value.array e b) d t t' k a =
        rw (tell_array-keyless b (suc d) t k, tell_array-keyless b (suc d) t' k) a
    tell_value-AreSame (Value.string e g) d t t' k a = a
    tell_value-AreSame (Value.negative e u) d t t' k a = a
    tell_value-AreSame (Value.number u) d t t' k a = a
    tell_value-AreSame (Value.true_word e w) d t t' k a = a
    tell_value-AreSame (Value.false_word e w) d t t' k a = a
    tell_value-AreSame (Value.null_word e w) d t t' k a = a

    tell_members-AreSame :
        {xs r : Bytes} (m : Members xs r) (d : ℕ) (t t' : Told P)
        → MembersTidy m
        → Agree d t t'
        → AreSame d (tell_members lookup hooks m (suc d) t) (tell_members lookup hooks m (suc d) t')
    tell_members-AreSame (Members.member {ys} q g (MemberValue.colon {ys = zs} k v u)) d t t'
          (i, is) a =
        then-AreSame (suc d) d (tell_key lookup hooks (suc d) (key_before ys zs) t)
          (tell_key lookup hooks (suc d) (key_before ys zs) t')
          (λ s. then_tell (tell_value lookup hooks v (suc d) s) (tell_tail lookup hooks u (suc d)))
          (tell_key-AreSame d (key_before ys zs) t t' a)
          (λ s s' b.
            then-AreSame (suc d) d (tell_value lookup hooks v (suc d) s)
              (tell_value lookup hooks v (suc d) s') (tell_tail lookup hooks u (suc d))
              (tell_value-AreSame v (suc d) s s' i b)
              (λ r r' c. tell_tail-AreSame u d r r' is (shorter d r r' c)))

    tell_tail-AreSame :
        {xs r : Bytes} (u : ObjectTail xs r) (d : ℕ) (t t' : Told P)
        → TailTidy u
        → Agree d t t'
        → AreSame d (tell_tail lookup hooks u (suc d) t) (tell_tail lookup hooks u (suc d) t')
    tell_tail-AreSame (ObjectTail.close_object q) d t t' k a = a
    tell_tail-AreSame (ObjectTail.next_member q m) d t t' k a = tell_members-AreSame m d t t' k a

abbrev pub TextTidy : {text : Bytes} → Json text → Type 0
TextTidy (Json.document v s) = IsTidy v

-- On a JSON text none of whose arrays has an object with keys in it, what `WalkAndNotify` does to
-- the channels and returns does not depend on the path of 64 slices that the pool gives: nothing of
-- an earlier walk is told to a hook.
pub walk_and_notify-fresh :
    {P E : Type 0} (lookup : Bytes → Looked P E) (hooks : Bytes → List StateHook) (text : Bytes)
    (pooled : Scanner) (path path' : KeyPath) (world : World P) (j : Json text)
    → TextTidy j
    → observe (walk_and_notify lookup hooks text pooled path world)
      ≡ observe (walk_and_notify lookup hooks text pooled path' world)
walk_and_notify-fresh {P} {E} lookup hooks text pooled path path' world (Json.document v s) k =
    let t : Told P = record { path = path; world = world } in
    let t' : Told P = record { path = path'; world = world } in
    walk_and_notify-tells lookup hooks text pooled path world (Json.document v s)
    ∙ AreSame-finish 0 (tell_value lookup hooks v 0 t) (tell_value lookup hooks v 0 t')
        (tell_value-AreSame lookup hooks v 0 t t' k (record { takes = refl; worlds = refl }))
    ∙ sym (walk_and_notify-tells lookup hooks text pooled path' world (Json.document v s))
