-- ===== src/Walk/Loop/Total.antt =====
-- The whole of `WalkAndNotify`, byte by byte.
use native.Mathlib.Nat.{add-zero}
use rhine.Prelude.{
  ◌^◌, true, inr, inl, ◌∙◌, Option, false, Bytes, ℕ, ◌+◌, ◌≤◌, ◌<◌, List, [], ◌∷◌, ◌≡◌, none, some,
  arith, length, refl, sym,
}
use mathlib.Core.Path.{subst}
use rhine.Scanner.Step.{scan_step}
use rhine.Scanner.Run.{new_scanner, is_error, accepts, scan_all, eof, on_step, accepted}
use rhine.Scanner.Config.{Stack, at, next, Fits}
use rhine.Scanner.Invariant.Step.{Fine, Left, step-Fine}
use rhine.Scanner.Invariant.Runs.{Explained-mono, Explained, at-eta, scan_all-Explained}
use rhine.Scanner.State.{
  Scanner, begin_value, scan_object_key, scan_continue, scan_begin_literal, scan_end, panic,
  Outcome, after_error, scan_error, ret, SyntaxError, Opcode, State,
}
use rhine.Walk.Loop.{
  KeyPath, Walk, Round, and_then, walk_byte, walk_bytes, walk_and_notify, on_opcode, after_scan,
}
use rhine.Walk.Loop.Correct.{eof-Judged, error-Judged, object_key-Judged, Judged}
use rhine.Walk.Keys.{KeyEnds, Placed, Keeps, step-Keeps, literal_after}
use rhine.Walk.Notify.{StateHook, World, Looked}

abbrev walk_at : {P : Type 0} → Scanner → KeyPath → ℕ → World P → Walk P
walk_at s path l world = record { scan = s; path = path; last_literal_pos = l; world = world }

module _ {P E : Type 0} (lookup : Bytes → Looked P E) (hooks : Bytes → List StateHook)
    (text : Bytes) (hi i m : ℕ) (xs : Bytes)
    (ih : (k : State) (st : Stack) (path : KeyPath) (l : ℕ) (world : World P)
      → Fits k st
      → Placed k st l (i + 1)
      → Judged lookup
          (accepts (at k st m) xs)
          hi
          (walk_bytes lookup hooks text (i + 1) xs (walk_at (at k st m) path l world))) where
  abbrev rest : Walk P → Round P E
  rest w = walk_bytes lookup hooks text (i + 1) xs w

  on_opcode-Judged :
      (op : Opcode) (k : State) (st : Stack) (path : KeyPath) (l : ℕ) (world : World P)
      → is_error op ≡ false
      → i ≤ length text
      → Fits k st
      → Placed k st (literal_after op l i) (i + 1)
      → KeyEnds op st l i
      → Judged lookup
          (accepts (at k st m) xs)
          hi
          (and_then (on_opcode lookup hooks text i op (walk_at (at k st m) path l world)) rest)
  unfolding on_opcode
  on_opcode-Judged scan_begin_literal k st path l world e t f p q = ih k st path i world f p
  on_opcode-Judged scan_object_key k st path l world e t f p q =
      object_key-Judged lookup hooks text (accepts (at k st m) xs) hi
        (walk_at (at k st m) path l world) rest (λ path' world'. ih k st path' l world' f p) i q.0
        q.1 t
  on_opcode-Judged scan_error k st path l world e t f p q = cc
  on_opcode-Judged _ k st path l world e t f p q = ih k st path l world f p

  -- What the walk and the scanner make of one step of the scanner.
  abbrev After : Scanner → Opcode → KeyPath → ℕ → World P → Walk P → Type 0
  After s op path l world w =
      Judged lookup (accepted (on_step (ret s op) (λ s'. scan_all s' xs))) hi
        (and_then (after_scan lookup hooks text i (walk_at w.scan path l world) (ret s op)) rest)

  clean-Judged :
      (op : Opcode) (st : Stack) (s : Scanner) (path : KeyPath) (l : ℕ) (world : World P)
      (w : Walk P)
      → s.err ≡ none
      → s.bytes ≡ m
      → i ≤ length text
      → Left st m s op none
      → Keeps st l i (ret s op)
      → After s op path l world w
  unfolding after_scan
  clean-Judged scan_error st s path l world w e b t (f, top, o) kept = cc
  clean-Judged op st s path l world w e b t (f, top, o) kept =
      let (placed, ends) = kept e in
      let same : s ≡ at s.step s.parse_state m = at-eta s e top ∙ rw b in
      subst
        (λ z.
          Judged lookup (accepts z xs) hi
            (and_then (on_opcode lookup hooks text i op (walk_at z path l world)) rest))
        (sym same) (on_opcode-Judged op s.step s.parse_state path l world o t f placed ends)

  refused-Judged :
      (op : Opcode) (s : Scanner) (x : SyntaxError) (path : KeyPath) (l : ℕ) (world : World P)
      (w : Walk P)
      → s.err ≡ some x
      → x.offset ≤ hi
      → is_error op ≡ true
      → After s op path l world w
  unfolding after_scan
  refused-Judged scan_error s x path l world w e le o = rw e (refl, le)
  refused-Judged _ s x path l world w e le o = cc

  late-Judged :
      (op : Opcode) (s : Scanner) (x : SyntaxError) (path : KeyPath) (l : ℕ) (world : World P)
      (w : Walk P)
      → s.step ≡ after_error
      → s.err ≡ some x
      → x.offset ≤ hi
      → op ≡ scan_end
      → After s op path l world w
  unfolding after_scan on_opcode
  late-Judged scan_end s x path l world w p e le o =
      error-Judged lookup hooks text hi (i + 1) xs (walk_at s path l world) p e le
  late-Judged scan_continue s x path l world w p e le o = absurd (cc o)
  late-Judged _ s x path l world w p e le o = absurd (cc o)

  scanned-Judged :
      (st : Stack) (s : Scanner) (op : Opcode) (e : Option SyntaxError) (path : KeyPath) (l : ℕ)
      (world : World P) (w : Walk P)
      → s.err ≡ e
      → s.bytes ≡ m
      → m ≤ hi
      → i ≤ length text
      → Left st m s op e
      → Keeps st l i (ret s op)
      → After s op path l world w
  scanned-Judged st s op none path l world w e b le t left kept =
      clean-Judged op st s path l world w e b t left kept
  scanned-Judged st s op (some x) path l world w e b le t (p, q, inl o) kept =
      refused-Judged op s x path l world w e (omega arith) o
  scanned-Judged st s op (some x) path l world w e b le t (p, q, inr (o, _)) kept =
      late-Judged op s x path l world w p e (omega arith) o

  step-Judged :
      (st : Stack) (o : Outcome) (path : KeyPath) (l : ℕ) (world : World P) (w : Walk P)
      → m ≤ hi
      → i ≤ length text
      → Fine st m o
      → Keeps st l i o
      → Judged lookup
          (accepted (on_step o (λ s'. scan_all s' xs)))
          hi
          (and_then (after_scan lookup hooks text i (walk_at w.scan path l world) o) rest)
  step-Judged st panic path l world w le t f kept = absurd f
  step-Judged st (ret s op) path l world w le t (b, _, left) kept =
      scanned-Judged st s op s.err path l world w refl b le t left kept

module _ {P E : Type 0} (lookup : Bytes → Looked P E) (hooks : Bytes → List StateHook)
    (text : Bytes) (hi : ℕ) (below : hi < 2 ^ 64) where
  walk_bytes-Judged :
      (xs : Bytes) (i : ℕ) (k : State) (st : Stack) (n : ℕ) (path : KeyPath) (l : ℕ)
      (world : World P)
      → n + length xs ≤ hi
      → i + length xs ≤ length text
      → Fits k st
      → Placed k st l i
      → Judged lookup
          (accepts (at k st n) xs)
          hi
          (walk_bytes lookup hooks text i xs (walk_at (at k st n) path l world))
  unfolding walk_bytes walk_byte scan_all
  walk_bytes-Judged [] i k st n path l world a b f p =
      eof-Judged lookup hooks text hi (walk_at (at k st n) path l world) (eof (at k st n)) (
        Explained-mono n hi (eof (at k st n)) (omega arith) (
          subst (λ z. Explained z (eof (at k st n))) (add-zero n)
            (scan_all-Explained [] k st n f (omega arith))))
  walk_bytes-Judged (c ∷ xs) i k st n path l world a b f p =
      step-Judged lookup hooks text hi i (next n) xs
        (λ k' st' path' l' world' f' p'.
          walk_bytes-Judged xs (i + 1) k' st' (next n) path' l' world' (omega arith) (omega arith)
            f' p')
        st (scan_step (at k st (next n)) c) path l world (walk_at (at k st (next n)) path l world)
        (omega arith) (omega arith) (step-Fine k st (next n) c f)
        (step-Keeps k st (next n) c l i f p)

-- The walk against the verdict of the scanner.
pub walk_and_notify-Judged :
    {P E : Type 0} (lookup : Bytes → Looked P E) (hooks : Bytes → List StateHook) (text : Bytes)
    (pooled : Scanner) (path : KeyPath) (world : World P)
    → length text < 2 ^ 64
    → Judged lookup
        (accepts (new_scanner pooled) text)
        (length text)
        (walk_and_notify lookup hooks text pooled path world)
unfolding walk_and_notify
walk_and_notify-Judged lookup hooks text pooled path world below =
    walk_bytes-Judged lookup hooks text (length text) below text 0 begin_value [] 0 path 0 world
      (omega arith) (omega arith) tt tt
