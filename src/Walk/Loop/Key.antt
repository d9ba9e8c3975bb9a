-- ===== src/Walk/Loop/Key.antt =====
-- The colon behind a key in the outer loop of `WalkAndNotify`.
use rhine.Scanner.Carry.Opens.{Moves-colon}
use rhine.Scanner.Config.{Stack, next}
use rhine.Scanner.State.{
  scan_object_key, parse_object_key, end_value, parse_object_value, begin_value,
}
use rhine.Walk.Notify.{StateHook, World, Looked, Notified, notified, lookup_error, notify_hooks}
use rhine.Walk.Loop.{
  KeyPath, write, Walk, Round, WalkError, max_path_depth, and_then, after_scan, on_opcode,
  object_key, notify_key, after_notify, walk_bytes, slice, join,
}
use rhine.Walk.Loop.Correct.{slice-in_range}
use rhine.Walk.Loop.Steps.{observe, walk_of, Walks, WalksAt, walk_bytes-step}
use rhine.Walk.Tell.{then_tell, Told, Telling, going, halted, tell_key, after_hooks, key_before}
use rhine.Slices.{drop-suc}
use rhine.Prelude.{
  ℕ, suc, zero, ◌+◌, ◌-◌, ◌≤◌, ◌<◌, ◌==◌, ◌||◌, ltb, Bytes, List, [], ◌∷◌, ◌≡◌, ap, ◌∙◌, Option,
  none, some, Bool-cases, inl, inr, false, drop, take, length, arith,
}
use mathlib.Core.List.{nil≢cons}

-- A telling that halts gives the outcome, and one that goes on has to go on to it.
abbrev pub TellsTo :
    {P E : Type 0}
    → Option (World P × Option (WalkError E))
    → Telling P E
    → (Told P → Type 0)
    → Type 0
TellsTo out (going t) K = K t
TellsTo out (halted w e) K = some (w, some e) ≡ out

module _ {P E : Type 0} (out : Option (World P × Option (WalkError E))) where
  pub TellsTo-map :
      (s : Telling P E) (K K' : Told P → Type 0)
      → ((t : Told P) → K t → K' t)
      → TellsTo out s K
      → TellsTo out s K'
  TellsTo-map (going t) K K' f h = f t h
  TellsTo-map (halted w e) K K' f h = h

  pub TellsTo-then :
      (s : Telling P E) (f : Told P → Telling P E) (K : Told P → Type 0)
      → TellsTo out (then_tell s f) K
      → TellsTo out s (λ t. TellsTo out (f t) K)
  TellsTo-then (going t) f K h = h
  TellsTo-then (halted w e) f K h = h

pub drop-length :
    (i : ℕ) (text : Bytes) (c : ℕ) (xs : Bytes)
    → drop i text ≡ c ∷ xs
    → length text ≡ i + suc (length xs)
drop-length zero text c xs e = ap length e ∙ (omega arith)
drop-length (suc i) [] c xs e = absurd (nil≢cons e)
drop-length (suc i) (a ∷ text) c xs e = omega (arith, drop-length i text c xs e)

module _ {P E : Type 0} (lookup : Bytes → Looked P E) (hooks : Bytes → List StateHook)
    (text : Bytes) (out : Option (World P × Option (WalkError E))) (w : Walk P)
    (rest : Walk P → Round P E) where
  -- What the rounds behind the key come to.
  abbrev Rests : Told P → Type 0
  Rests t = observe (rest (record w { path = t.path; world = t.world })) ≡ out

  after_notify-tells :
      (path : KeyPath) (o : Notified P E)
      → TellsTo out (after_hooks path o) Rests
      → observe (and_then (after_notify lookup hooks text (record w { path = path }) o) rest) ≡ out
  unfolding after_notify
  after_notify-tells path (notified world) h = h
  after_notify-tells path (lookup_error world e) h = h

  object_key-tells :
      (i d : ℕ) (key : Bytes)
      → (i == 0) ≡ false
      → slice text (w.last_literal_pos + 1) (i - 1) ≡ some key
      → TellsTo out
          (tell_key lookup hooks (suc d) key (record { path = w.path; world = w.world }))
          Rests
      → observe (and_then (object_key lookup hooks text i (suc d) w) rest) ≡ out
  unfolding object_key tell_key notify_key
  object_key-tells i d key z s = elim (Bool-cases (ltb max_path_depth (suc d))) [
    | inl e ↦ rw e (λ h. h)
    | inr e ↦
        let in_range : (suc d == 0 || ltb (length w.path.items) (suc d)) ≡ false =
          ground (arith, w.path.is_full, e) in
        rw (e, z, s, in_range)
          (let path = write w.path (suc d - 1) key in
            let cur_path = join (take (suc d) path.items) in
            after_notify-tells path (notify_hooks lookup cur_path none (hooks cur_path) w.world))
  ]

pub slice-key :
    (text : Bytes) (l i : ℕ) (from xs : Bytes)
    → drop l text ≡ b'"' ∷ from
    → drop i text ≡ b':' ∷ xs
    → length xs + 2 ≤ length from
    → slice text (l + 1) (i - 1) ≡ some (key_before from xs)
slice-key text l i from xs q c n =
    let a = drop-length l text b'"' from q in
    let b = drop-length i text b':' xs c in
    let m : i - 1 - (l + 1) ≡ length from - length xs - 2 = omega (arith, a, b, n) in
    slice-in_range text (l + 1) (i - 1) (omega (arith, a, b, n)) (omega (arith, a, b, n))
    ∙ ap (λ m. some (take m (drop (l + 1) text))) m
    ∙ ap (λ ys. some (take (length from - length xs - 2) ys)) (drop-suc l text b'"' from q)

module _ {P E : Type 0} (lookup : Bytes → Looked P E) (hooks : Bytes → List StateHook)
    (text : Bytes) where
  -- The colon of a key that began behind the last literal's quote.
  pub colon-WalksAt :
      (l : ℕ) (t : Told P) (out : Option (World P × Option (WalkError E))) (st : Stack)
      (from xs : Bytes)
      → drop l text ≡ b'"' ∷ from
      → length xs + 2 ≤ length from
      → TellsTo out
          (tell_key lookup hooks (suc (length st)) (key_before from xs) t)
          (λ t'. Walks lookup hooks text t' out begin_value (parse_object_value ∷ st) xs)
      → WalksAt lookup hooks text l t out end_value (parse_object_key ∷ st) (b':' ∷ xs)
  unfolding after_scan on_opcode
  colon-WalksAt l t out st from xs q m h n i c =
      let w = walk_of lookup hooks text begin_value (parse_object_value ∷ st) (next n) l t in
      let rest = walk_bytes lookup hooks text (i + 1) xs in
      let a = drop-length l text b'"' from q in
      let b = drop-length i text b':' xs c in
      let z : 0 < i = omega (arith, a, b, m) in
      ap observe (
        walk_bytes-step lookup hooks text end_value begin_value (parse_object_key ∷ st)
          (parse_object_value ∷ st) b':' n i l xs scan_object_key t (Moves-colon st))
      ∙ object_key-tells lookup hooks text out w rest i (length st) (key_before from xs)
          (ground (arith, z)) (slice-key text l i from xs q c m)
          (TellsTo-map out (tell_key lookup hooks (suc (length st)) (key_before from xs) t) _ _
            (λ t' r. r l (next n) (i + 1) (drop-suc i text b':' xs c)) h)
