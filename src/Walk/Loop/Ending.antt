-- ===== src/Walk/Loop/Ending.antt =====
-- The end of a text in `WalkAndNotify`: the white space behind the value, and `eof`.
use rhine.Scanner.Grammar.{Spaces}
use rhine.Scanner.Run.{eof}
use rhine.Scanner.Step.{step_at}
use rhine.Scanner.Delegate.{EndsValue, eof-number, step-number}
use rhine.Scanner.Carry.Ends.{goes_on-space}
use rhine.Scanner.Carry.Opens.{Moves-blank_top, Moves-blank_last}
use rhine.Scanner.State.{end_top, end_value, State, is_space, scan_end}
use rhine.Walk.Notify.{StateHook, Looked}
use rhine.Walk.Loop.{walk_bytes, after_eof}
use rhine.Walk.Loop.Steps.{observe, Walks, walk_of}
use rhine.Walk.Loop.Phrases.{Ends-Carries, Ends-Delegates}
use rhine.Walk.Tell.{Told}
use rhine.Prelude.{Bytes, List, [], refl, ap, none, some}

module _ {P E : Type 0} (lookup : Bytes → Looked P E) (hooks : Bytes → List StateHook)
    (text : Bytes) where
  pub Spaces-Walks :
      {xs : Bytes} (t : Told P)
      → Spaces xs
      → Walks lookup hooks text t (some (t.world, none)) end_top [] xs
  unfolding walk_bytes after_eof eof
  Spaces-Walks t Spaces.nothing = λ l n i d. refl
  Spaces-Walks t (Spaces.blank {c} {xs} e s) =
      Ends-Carries lookup hooks text (some (t.world, none)) t end_top end_top [] [] c xs scan_end
        refl (Moves-blank_top c e) (Spaces-Walks t s)

  pub ended-Walks :
      {xs : Bytes} (t : Told P)
      → Spaces xs
      → (k : State) → EndsValue k
      → Walks lookup hooks text t (some (t.world, none)) k [] xs
  unfolding walk_bytes after_eof eof step_at is_space
  ended-Walks t Spaces.nothing k v = λ l n i d.
      ap (λ o. observe (after_eof lookup hooks text (walk_of lookup hooks text k [] n l t) o))
        (eof-number [] n v)
  ended-Walks t (Spaces.blank {c} {xs} e s) k v =
      Ends-Delegates lookup hooks text (some (t.world, none)) t k end_value [] c xs
        (λ n. step-number c [] n v (goes_on-space c e k v))
        (Ends-Carries lookup hooks text (some (t.world, none)) t end_value end_top [] [] c xs
          scan_end refl (Moves-blank_last c e) (Spaces-Walks t s))
