-- ===== src/Proxy/Users/Callbacks.antt =====
-- The callbacks that `addUser` calls for a user who reconnects.
use rhine.Proxy.Users.{shutdown_modules, Calls, old_calls}
use rhine.Proxy.Modules.{Dispatch, RhineModule}
use rhine.Prelude.{map, none, some, Option, List, true, refl, ap, ◌≡◌, [], ◌∷◌, ℕ}

-- The callbacks of a user's modules, in their order.
abbrev pub callbacks : {H : Type 0} → List (RhineModule H) → List ℕ
callbacks [] = []
callbacks (m ∷ ms) = elim m.shutdown_cb [ none ↦ callbacks ms | some cb ↦ cb ∷ callbacks ms ]

-- Each of the callbacks of a user who is in the map, called with true.
abbrev pub told_true : {H U P E : Type 0} → Option (Dispatch H U P E) → Calls
told_true none = []
told_true (some d) = map (λ cb. (cb, true)) (callbacks d.modules)

shutdown_modules-callbacks :
    {H : Type 0} (ms : List (RhineModule H))
    → shutdown_modules ms ≡ map (λ cb. (cb, true)) (callbacks ms)
unfolding shutdown_modules
shutdown_modules-callbacks [] = refl
shutdown_modules-callbacks (m ∷ ms) =
    called m.shutdown_cb (shutdown_modules ms) (callbacks ms) (shutdown_modules-callbacks ms)
  where
    called :
        (o : Option ℕ) (calls : Calls) (cbs : List ℕ)
        → calls ≡ map (λ cb. (cb, true)) cbs
        → (elim o [ none ↦ calls | some cb ↦ (cb, true) ∷ calls ])
          ≡ map (λ cb. (cb, true)) (elim o [ none ↦ cbs | some cb ↦ cb ∷ cbs ])
    called none calls cbs e = e
    called (some cb) calls cbs e = ap (λ cs. (cb, true) ∷ cs) e

pub old_calls-told_true :
    {H U P E : Type 0} (d : Option (Dispatch H U P E)) → old_calls d ≡ told_true d
old_calls-told_true none = refl
old_calls-told_true (some d) = shutdown_modules-callbacks d.modules
