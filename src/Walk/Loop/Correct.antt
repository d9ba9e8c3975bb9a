-- ===== src/Walk/Loop/Correct.antt =====
-- `WalkAndNotify` judges its input as the scanner does, and no index is out of range.
use rhine.Prelude.{
  ltb, ◌||◌, ◌==◌, if◌then◌else◌, drop, inr, ◌⊎◌, inl, ◌-◌, take, false, not, true, Bool, Bytes, ℕ,
  ◌+◌, ◌≤◌, ◌<◌, List, [], ◌∷◌, ◌≡◌, none, some, arith, length, refl,
}
use rhine.Scanner.Step.{step_at}
use rhine.Scanner.Run.{accepted, is_error, accepts, scan_all}
use rhine.Scanner.Invariant.Runs.{Told, Explained}
use rhine.Walk.Loop.{
  write, KeyPath, join, after_notify, notify_key, err_max_path, lookup_failed, max_path_depth,
  and_then, syntax_error, slice, object_key, after_eof, Walk, Round, go, stop, fault, walk_byte,
  walk_bytes,
}
use rhine.Scanner.State.{Outcome, SyntaxError, panic, ret, after_error}
use rhine.Walk.Notify.{
  try_send, found, not_found, StateHook, World, Looked, Notified, notified, lookup_error,
  notify_hooks,
}
use mathlib.Core.Option.{Option}
use mathlib.Core.Option

Looked-cases :
    {P E : Type 0} (o : Looked P E)
    → ((v : Option P) × (o ≡ found v)) ⊎ ((e : E) × (o ≡ not_found e))
Looked-cases (found v) = inl (v, refl)
Looked-cases (not_found e) = inr (e, refl)

pub slice-in_range :
    (text : Bytes) (lo hi : ℕ)
    → lo ≤ hi
    → hi ≤ length text
    → slice text lo hi ≡ some (take (hi - lo) (drop lo text))
unfolding slice
slice-in_range text lo hi p q = ground arith

module _ {P E : Type 0} (lookup : Bytes → Looked P E) where
  -- The result against the scanner's verdict on the text.
  abbrev pub Judged : Bool → ℕ → Round P E → Type 0
  Judged ok hi (go w) = ⊥
  Judged ok hi (stop w none) = ok ≡ true
  Judged ok hi (stop w (some (syntax_error x))) = (ok ≡ false) × (x.offset ≤ hi)
  Judged ok hi (stop w (some err_max_path)) = max_path_depth < length w.scan.parse_state
  Judged ok hi (stop w (some (lookup_failed e))) = (path : Bytes) × (lookup path ≡ not_found e)
  Judged ok hi fault = ⊥

  lookup_error-not_found :
      (hooks : List StateHook) (path : Bytes) (payload : Option P) (w : World P) {w' : World P}
      {e : E}
      → notify_hooks lookup path payload hooks w ≡ lookup_error w' e
      → lookup path ≡ not_found e
  unfolding notify_hooks
  lookup_error-not_found [] path payload w h = cc
  lookup_error-not_found (hook ∷ hooks) path (some p) w {w'} {e} h =
      let told = λ (v : Option P). try_send hook (record { path = path; payload = v }) w in
      ground (
        arith,
        lookup_error-not_found hooks path (some p) (told none) {w' = w'} {e = e},
        lookup_error-not_found hooks path (some p) (told (some p)) {w' = w'} {e = e},
      )
  lookup_error-not_found (hook ∷ hooks) path none w {w'} {e} h =
      let told = λ (v : Option P). try_send hook (record { path = path; payload = v }) w in
      elim (Looked-cases (lookup path)) [
        | inl (v, q) ↦ ground (
          arith,
          lookup_error-not_found hooks path none (told none) {w' = w'} {e = e},
          lookup_error-not_found hooks path v (told v) {w' = w'} {e = e},
        )
        | inr (x, q) ↦
            ground (arith, lookup_error-not_found hooks path none (told none) {w' = w'} {e = e})
      ]

module _ {P E : Type 0} (lookup : Bytes → Looked P E) (hooks : Bytes → List StateHook)
    (text : Bytes) where
  syntax_error-Judged :
      (hi : ℕ) (b : Bool) (e : Option SyntaxError) (w : Walk P)
      → Told hi b e
      → Judged lookup (not b) hi (stop w (if b then Option.map syntax_error e else none))
  syntax_error-Judged hi true none w t = absurd t
  syntax_error-Judged hi true (some x) w t = (refl, t)
  syntax_error-Judged hi false none w t = refl
  syntax_error-Judged hi false (some x) w t = absurd t

  pub eof-Judged :
      (hi : ℕ) (w : Walk P) (o : Outcome)
      → Explained hi o
      → Judged lookup (accepted o) hi (after_eof lookup hooks text w o)
  unfolding after_eof
  eof-Judged hi w panic h = absurd h
  eof-Judged hi w (ret s op) h =
      syntax_error-Judged hi (is_error op) s.err (record w { scan = s }) h

  -- Behind an error that was told late.
  pub error-Judged :
      (hi i : ℕ) (xs : Bytes) (w : Walk P) {x : SyntaxError}
      → w.scan.step ≡ after_error
      → w.scan.err ≡ some x
      → x.offset ≤ hi
      → Judged lookup (accepts w.scan xs) hi (walk_bytes lookup hooks text i xs w)
  unfolding walk_bytes walk_byte scan_all step_at
  error-Judged hi i [] w p q l = ground arith
  error-Judged hi i (c ∷ xs) w p q l = ground arith

  module _ (ok : Bool) (hi : ℕ) (w : Walk P) (rest : Walk P → Round P E)
      (ih : (path : KeyPath) (world : World P)
        → Judged lookup ok hi (rest (record w { path = path; world = world }))) where
    after_notify-Judged :
        (path : KeyPath) (o : Notified P E) (cur_path : Bytes)
        → notify_hooks lookup cur_path none (hooks cur_path) w.world ≡ o
        → Judged lookup ok hi
            (and_then (after_notify lookup hooks text (record w { path = path }) o) rest)
    unfolding after_notify
    after_notify-Judged path (notified world) cur_path e = ih path world
    after_notify-Judged path (lookup_error world x) cur_path e =
        (cur_path, lookup_error-not_found lookup (hooks cur_path) cur_path none w.world e)

    notify_key-Judged :
        (depth : ℕ) (key : Bytes)
        → 0 < depth
        → depth ≤ max_path_depth
        → Judged lookup ok hi (and_then (notify_key lookup hooks text depth w key) rest)
    unfolding notify_key
    notify_key-Judged depth key z m =
        let path = write w.path (depth - 1) key in
        let cur_path = join (take depth path.items) in
        let told =
          after_notify-Judged path (notify_hooks lookup cur_path none (hooks cur_path) w.world)
            cur_path refl in
        let in_range : (depth == 0 || ltb (length w.path.items) depth) ≡ false =
          ground (arith, w.path.is_full, z, m) in
        rw in_range told

    -- The slice of a key is in range, and its hooks end the walk only by a failed lookup.
    pub object_key-Judged :
        (i : ℕ)
        → w.last_literal_pos + 2 ≤ i
        → 0 < length w.scan.parse_state
        → i ≤ length text
        → Judged lookup ok hi
            (and_then (object_key lookup hooks text i (length w.scan.parse_state) w) rest)
    unfolding object_key
    object_key-Judged i l z t =
        let depth = length w.scan.parse_state in
        let lo = w.last_literal_pos + 1 in
        let key = take (i - 1 - lo) (drop lo text) in
        ground (arith, slice-in_range text lo (i - 1), notify_key-Judged depth key)
