-- ===== src/Walk/Loop/Steps.antt =====
-- The outer loop of `WalkAndNotify`, step by step along the steps of the scanner.
use rhine.Scanner.Carry.Moves.{Moves, is_plain}
use rhine.Scanner.Config.{Stack, at, next}
use rhine.Scanner.State.{
  scan_error, scan_object_key, scan_begin_literal, State, Opcode, ret, Scanner,
}
use rhine.Walk.Notify.{StateHook, World, Looked}
use rhine.Walk.Loop.{
  Walk, Round, go, stop, fault, WalkError, and_then, after_scan, on_opcode, walk_byte, walk_bytes,
}
use rhine.Walk.Tell.{Told}
use rhine.Slices.{drop-suc}
use rhine.Prelude.{ℕ, ◌+◌, Bytes, List, ◌∷◌, ◌≡◌, refl, ap, ◌∙◌, Option, none, some, true, drop}
use mathlib.Core.Bool.{false≢true}

-- What is seen of a walk that has returned.
abbrev pub observe : {P E : Type 0} → Round P E → Option (World P × Option (WalkError E))
observe (go w) = none
observe (stop w e) = some (w.world, e)
observe fault = none

module _ {P E : Type 0} (lookup : Bytes → Looked P E) (hooks : Bytes → List StateHook)
    (text : Bytes) where
  abbrev pub walk_of : State → Stack → ℕ → ℕ → Told P → Walk P
  walk_of k st n l t = record {
    scan = at k st n;
    path = t.path;
    last_literal_pos = l;
    world = t.world;
  }

  -- The walk over the rest of the text comes to an end with this outcome, with the last literal
  -- where it is said to be.
  abbrev pub WalksAt :
      ℕ → Told P → Option (World P × Option (WalkError E)) → State → Stack → Bytes → Type 0
  WalksAt l t out k st xs =
      (n i : ℕ)
      → drop i text ≡ xs
      → observe (walk_bytes lookup hooks text i xs (walk_of k st n l t)) ≡ out

  -- Wherever the last literal is.
  abbrev pub Walks :
      Told P → Option (World P × Option (WalkError E)) → State → Stack → Bytes → Type 0
  Walks t out k st xs = (l : ℕ) → WalksAt l t out k st xs

  after_scan-plain :
      (op : Opcode) (i : ℕ) (w : Walk P) (s : Scanner)
      → is_plain op ≡ true
      → after_scan lookup hooks text i w (ret s op) ≡ go (record w { scan = s })
  unfolding after_scan on_opcode
  after_scan-plain scan_begin_literal i w s e = absurd (false≢true e)
  after_scan-plain scan_object_key i w s e = absurd (false≢true e)
  after_scan-plain scan_error i w s e = absurd (false≢true e)
  after_scan-plain _ i w s e = refl

  -- One byte, by what the scanner makes of it.
  pub walk_bytes-step :
      (k k' : State) (st st' : Stack) (c n i l : ℕ) (xs : Bytes) (op : Opcode) (t : Told P)
      → Moves k st c k' st' op
      → walk_bytes lookup hooks text i (c ∷ xs) (walk_of k st n l t)
        ≡ and_then
            (after_scan lookup hooks text i (walk_of k st n l t) (ret (at k' st' (next n)) op))
            (walk_bytes lookup hooks text (i + 1) xs)
  unfolding walk_bytes walk_byte
  walk_bytes-step k k' st st' c n i l xs op t m =
      ap
        (λ o.
          and_then (after_scan lookup hooks text i (walk_of k st n l t) o)
            (walk_bytes lookup hooks text (i + 1) xs))
        (m (next n))

  pub WalksAt-plain :
      (l : ℕ) (t : Told P) (out : Option (World P × Option (WalkError E))) (k k' : State)
      (st st' : Stack) (c : ℕ) (xs : Bytes) (op : Opcode)
      → is_plain op ≡ true
      → Moves k st c k' st' op
      → WalksAt l t out k' st' xs
      → WalksAt l t out k st (c ∷ xs)
  WalksAt-plain l t out k k' st st' c xs op p m h n i d =
      ap observe (walk_bytes-step k k' st st' c n i l xs op t m)
      ∙ ap (λ r. observe (and_then r (walk_bytes lookup hooks text (i + 1) xs)))
          (after_scan-plain op i (walk_of k st n l t) (at k' st' (next n)) p)
      ∙ h (next n) (i + 1) (drop-suc i text c xs d)

  pub Walks-plain :
      (t : Told P) (out : Option (World P × Option (WalkError E))) (k k' : State) (st st' : Stack)
      (c : ℕ) (xs : Bytes) (op : Opcode)
      → is_plain op ≡ true
      → Moves k st c k' st' op
      → Walks t out k' st' xs
      → Walks t out k st (c ∷ xs)
  Walks-plain t out k k' st st' c xs op p m h l =
      WalksAt-plain l t out k k' st st' c xs op p m (h l)

  -- The first byte of a literal, at the position that is kept.
  pub literal-WalksAt :
      (l : ℕ) (t : Told P) (out : Option (World P × Option (WalkError E))) (k k' : State)
      (st : Stack) (c : ℕ) (xs : Bytes)
      → Moves k st c k' st scan_begin_literal
      → ((q : ℕ) → drop q text ≡ c ∷ xs → WalksAt q t out k' st xs)
      → WalksAt l t out k st (c ∷ xs)
  unfolding after_scan on_opcode
  literal-WalksAt l t out k k' st c xs m h n i d =
      ap observe (walk_bytes-step k k' st st c n i l xs scan_begin_literal t m)
      ∙ h i d (next n) (i + 1) (drop-suc i text c xs d)
