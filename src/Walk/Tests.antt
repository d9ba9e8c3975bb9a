-- ===== src/Walk/Tests.antt =====
-- Walks at fixed inputs, and the theorems at such inputs.
use rhine.Prelude.{
  [], refl, false, arith, some, Bool, true, none, ◌∷◌, ◌≡◌, ℕ, List, replicate, Bytes, codes,
  length,
}
use rhine.Scanner.State.{zero_scanner, is_space}
use rhine.Scanner.Step.{step_at, is_digit, is_digit19, is_hex, is_escape}
use rhine.Scanner.Run.{eof}
use rhine.Walk.Notify.{
  notified, StateEvent, StateHook, World, Looked, try_send, notify_hooks, found,
}
use rhine.Walk.Loop.{
  KeyPath, fault, stop, go, Round, walk_bytes, walk_byte, walk_and_notify, slice, join,
}
use rhine.Walk.Verdict.{Verdict, walk_and_notify-Verdict}
use rhine.Walk.Delivery.{receive, events_for, notify_hooks-delivers}
use Prim.Native.String.{String}

abbrev text : Bytes
text = codes "{\"a\":{\"b\":[1,{\"c\":2}]}}"

abbrev hook_at : String → Bool → StateHook
hook_at target event = record {
  target = codes target;
  module_name = codes "test";
  listener = 7;
  event = event;
}

-- Every path has one hook.
abbrev one_hook : Bytes → List StateHook
one_hook path =
    record { target = path; module_name = codes "test"; listener = 7; event = true } ∷ []

abbrev world : World ℕ
world = record { channels = λ id. record { room = 9; sent = [] }; dropped = [] }

abbrev lookup : Bytes → Looked ℕ ℕ
lookup path = found (some (length path))

-- The paths that channel 7 was told of.
abbrev paths_of : List (StateEvent ℕ) → List Bytes
paths_of [] = []
paths_of (evt ∷ evts) = evt.path ∷ paths_of evts

abbrev told : Round ℕ ℕ → List Bytes
told (go w) = []
told (stop w e) = paths_of (w.world.channels 7).sent
told fault = []

abbrev clear : KeyPath
clear = record { items = replicate 64 []; is_full = refl }

abbrev walked : Bytes → Round ℕ ℕ
walked data_in = walk_and_notify lookup one_hook data_in zero_scanner clear world

walk_nested :
    told (walked (codes "{\"a\":{\"b\":1,\"c\":{\"d\":2}},\"e\":3}"))
    ≡ codes "a" ∷ codes "a.b" ∷ codes "a.c" ∷ codes "a.c.d" ∷ codes "e" ∷ []
unfolding walk_and_notify walk_bytes walk_byte slice join try_send notify_hooks eof step_at is_space
    is_digit is_digit19 is_hex is_escape
walk_nested = refl

-- White space before the colon becomes part of the path.
walk_spaced : told (walked (codes "{\"a\" :1}")) ≡ codes "a\"" ∷ []
unfolding walk_and_notify walk_bytes walk_byte slice join try_send notify_hooks eof step_at is_space
    is_digit is_digit19 is_hex is_escape
walk_spaced = refl

-- A key below an array keeps what the path array held at the array's depth.
walk_stale :
    told (walked (codes "{\"x\":{\"y\":1},\"a\":[{\"b\":2}]}"))
    ≡ codes "x" ∷ codes "x.y" ∷ codes "a" ∷ codes "a.y.b" ∷ []
unfolding walk_and_notify walk_bytes walk_byte slice join try_send notify_hooks eof step_at is_space
    is_digit is_digit19 is_hex is_escape
walk_stale = refl

walk_and_notify-Verdict_example : Verdict lookup text (walked text)
walk_and_notify-Verdict_example =
    walk_and_notify-Verdict lookup one_hook text zero_scanner clear world (omega arith)

abbrev two_hooks : List StateHook
two_hooks = hook_at "a" true ∷ hook_at "a" false ∷ []

notify_hooks-delivers_example :
    (w' : World ℕ) × (notify_hooks lookup (codes "a") none two_hooks world ≡ notified w')
    × ((id : ℕ)
        → w'.channels id
          ≡ receive (codes "a") 1 (world.channels id) (events_for (codes "a") 1 id two_hooks))
notify_hooks-delivers_example = notify_hooks-delivers lookup (codes "a") 1 two_hooks world refl
