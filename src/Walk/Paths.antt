-- ===== src/Walk/Paths.antt =====
-- Which keys `WalkAndNotify` tells the hooks of a JSON text.
use rhine.Scanner.Carry.Number.{Goes}
use rhine.Walk.Loop.Steps.{Walks, observe}
use rhine.Scanner.Grammar.{Json}
use rhine.Scanner.Carry.Opens.{for_value}
use rhine.Scanner.State.{Scanner}
use rhine.Walk.Notify.{StateHook, World, Looked}
use rhine.Walk.Loop.{KeyPath, WalkError, walk_and_notify}
use rhine.Walk.Loop.Key.{TellsTo}
use rhine.Walk.Loop.Phrases.{Value-Ends}
use rhine.Walk.Loop.Ending.{Spaces-Walks, ended-Walks}
use rhine.Walk.Tell.{Told, Telling, going, halted, tell_value}
use rhine.Prelude.{Bytes, List, [], ◌≡◌, refl, Option, none, some}

-- The outcome of a telling.
abbrev pub finish : {P E : Type 0} → Telling P E → Option (World P × Option (WalkError E))
finish (going t) = some (t.world, none)
finish (halted w e) = some (w, some e)

TellsTo-finish :
    {P E : Type 0} (s : Telling P E)
    → (K : Option (World P × Option (WalkError E)) → Told P → Type 0)
    → ((t : Told P) → K (some (t.world, none)) t)
    → TellsTo (finish s) s (K (finish s))
TellsTo-finish (going t) K h = h t
TellsTo-finish (halted w e) K h = refl

module _ {P E : Type 0} (lookup : Bytes → Looked P E) (hooks : Bytes → List StateHook) where
  abbrev pub tell_text : {text : Bytes} → Json text → Told P → Telling P E
  tell_text (Json.document v s) t = tell_value lookup hooks v 0 t

-- `WalkAndNotify` on a JSON text, whatever the pools, the hooks and the lookup are: it does to the
-- channels, and returns, what the recursion over the text's derivation in the grammar says. Each key
-- of an object, in the order of the text, is written into the entry of the path for the number of
-- containers it stands in; the hooks of the entries up to it are told; a failed lookup ends the
-- walk, and so does a key in more than 64 containers.
pub walk_and_notify-tells :
    {P E : Type 0} (lookup : Bytes → Looked P E) (hooks : Bytes → List StateHook) (text : Bytes)
    (pooled : Scanner) (path : KeyPath) (world : World P) (j : Json text)
    → observe (walk_and_notify lookup hooks text pooled path world)
      ≡ finish (tell_text lookup hooks j (record { path = path; world = world }))
unfolding walk_and_notify
walk_and_notify-tells {P} {E} lookup hooks text pooled path world (Json.document {r} v s) =
    let t : Told P = record { path = path; world = world } in
    Value-Ends lookup hooks text (finish (tell_value lookup hooks v 0 t)) [] for_value v t
      (TellsTo-finish (tell_value lookup hooks v 0 t)
        (λ out t'. Goes (Walks lookup hooks text t' out) [] r)
        (λ t'. record {
          ended = ended-Walks lookup hooks text t' s;
          shut = Spaces-Walks lookup hooks text t' s;
        }))
      0 0 0 refl
