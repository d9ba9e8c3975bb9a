-- ===== src/State/Reference.antt =====
-- What a module reads of the state, in the states that are reached.
use rhine.State.Store.{GameState, Codec, get_state_ref}
use rhine.State.Calls.{get, state_sync, returns, waits}
use rhine.State.Steps.{Reachable}
use rhine.State.Invariant.{get_state_ref-some}
use rhine.Walk.Notify.{World}
use rhine.Prelude.{none, some, Bytes, ◌≡◌, inl, inr, refl, Bool-cases}

module _ {U P E : Type 0} (codec : Codec U P E) where
  -- `GetStateRef`, `Get` of a path and `StateSync` all wait, or all return, `Get` with the lookup on
  -- the user that `GetStateRef` gives.
  pub data Agree (at : Bytes) (g : GameState U P E) : Type 0 where
    all_wait : get_state_ref g ≡ none → get codec at g ≡ waits → state_sync g ≡ waits → Agree at g
    all_return :
        (user : U)
        → get_state_ref g ≡ some (some user)
        → get codec at g ≡ returns (some (codec.lookup user at))
        → state_sync g ≡ returns tt
        → Agree at g

  -- In every reachable state GetStateRef, Get and StateSync all wait for the lock, or all return at
  -- once; then Get makes its lookup on the user to which GetStateRef points, never on nil.
  pub get-Agree :
      (world : World P) (g : GameState U P E) (at : Bytes) → Reachable codec world g → Agree at g
  unfolding get state_sync get_state_ref
  get-Agree world g at r = elim (Bool-cases g.locked) [
    | inl l ↦ all_wait (rw l refl) (rw l refl) (rw l refl)
    | inr l ↦
        let (user, s) = get_state_ref-some codec world g g.state r (rw l refl) in
        all_return user (rw (l, s) refl) (rw (l, s) refl) (rw l refl)
  ]
