-- ===== src/Walk/Verdict.antt =====
-- What `WalkAndNotify` returns, in terms of the grammar.
use rhine.Prelude.{◌∙◌, sym, Bytes, ◌≤◌, ◌<◌, ◌^◌, List, ◌≡◌, none, some, length}
use mathlib.Core.Bool.{false≢true}
use rhine.Scanner.Run.{accepts, new_scanner}
use rhine.Scanner.Grammar.{Json}
use rhine.Scanner.Sound.{accepts-Json}
use rhine.Scanner.Complete.{Json-accepts}
use rhine.Walk.Loop.{
  KeyPath, err_max_path, lookup_failed, max_path_depth, syntax_error, Round, go, stop, fault,
  walk_and_notify,
}
use rhine.Walk.Loop.Correct.{Judged}
use rhine.Walk.Loop.Total.{walk_and_notify-Judged}
use rhine.Walk.Notify.{not_found, StateHook, World, Looked}
use rhine.Scanner.State.{Scanner}

module _ {P E : Type 0} (lookup : Bytes → Looked P E) (text : Bytes) where
  abbrev pub Verdict : Round P E → Type 0
  Verdict (go w) = ⊥
  Verdict (stop w none) = Json text
  Verdict (stop w (some (syntax_error x))) = (¬ Json text) × (x.offset ≤ length text)
  Verdict (stop w (some err_max_path)) = max_path_depth < length w.scan.parse_state
  Verdict (stop w (some (lookup_failed e))) = (path : Bytes) × (lookup path ≡ not_found e)
  Verdict fault = ⊥

  Judged-Verdict :
      (pooled : Scanner) (r : Round P E)
      → Judged lookup (accepts (new_scanner pooled) text) (length text) r
      → Verdict r
  Judged-Verdict pooled (go w) h = absurd h
  Judged-Verdict pooled (stop w none) h = accepts-Json pooled text h
  Judged-Verdict pooled (stop w (some (syntax_error x))) (h, l) =
      (λ j. false≢true (sym h ∙ Json-accepts pooled text j), l)
  Judged-Verdict pooled (stop w (some err_max_path)) h = h
  Judged-Verdict pooled (stop w (some (lookup_failed e))) h = h
  Judged-Verdict pooled fault h = absurd h

-- `WalkAndNotify` on a text shorter than 2^64 bytes, whatever the pools, the hooks and the state's
-- lookup give: no index or slice is out of range, and it returns. With no error the text is JSON;
-- with a syntax error it is not, and the error's offset lies in the text; `ErrMaxPath` is returned
-- only at a depth above 64; and any other error is one that the lookup of a path gave.
pub walk_and_notify-Verdict :
    {P E : Type 0} (lookup : Bytes → Looked P E) (hooks : Bytes → List StateHook) (text : Bytes)
    (pooled : Scanner) (path : KeyPath) (world : World P)
    → length text < 2 ^ 64
    → Verdict lookup text (walk_and_notify lookup hooks text pooled path world)
walk_and_notify-Verdict lookup hooks text pooled path world below =
    Judged-Verdict lookup text pooled (walk_and_notify lookup hooks text pooled path world)
      (walk_and_notify-Judged lookup hooks text pooled path world below)
