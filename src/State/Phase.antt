-- ===== src/State/Phase.antt =====
-- Who holds the lock of a `GameState`: nobody can have it before the first sync, one goroutine
-- while it runs, and nobody else between the packets.
use rhine.State.Store.{
  Attached, bad_delta, merge_failed, bad_sync, warn_if, notify_failed, merge_delta, after_walk,
  delta_of, parse_data_delta, handle_sync_data, unlock, crashed, run_task, done, Ran, Codec,
  GameState, Task, sync_task, delta_task,
}
use rhine.Prelude.{map, ◌++◌, none, refl, ◌∷◌, [], Bytes, true, some, false, Option, ◌≡◌}
use rhine.Scanner.State.{Scanner}
use rhine.Walk.Notify.{Looked}
use rhine.Walk.Loop.{KeyPath, fault, stop, go, Round}
use rhine.Walk.Verdict.{walk_and_notify-Verdict, Verdict}

-- What a goroutine needs of the state.
abbrev pub Ready : {U : Type 0} → Task → Option U → Type 0
Ready (sync_task packet) state = Unit
Ready {U} (delta_task packet op) state = (user : U) × (state ≡ some user)

pub data Phase {U P E : Type 0} (g : GameState U P E) : Type 0 where
  waiting : g.loaded ≡ false → g.locked ≡ true → g.tasks ≡ [] → Phase g
  busy :
      (task : Task)
      → g.loaded ≡ true
      → g.locked ≡ true
      → g.tasks ≡ task ∷ []
      → Ready task g.state
      → Phase g
  idle :
      (user : U) → g.loaded ≡ true → g.locked ≡ false → g.tasks ≡ [] → g.state ≡ some user → Phase g

-- A goroutine that ran: the lock is free and the state is there.
abbrev pub Settled : {U P E : Type 0} → Ran U P E → Type 0
Settled {U} (done g) =
    (user : U) × ((g.locked ≡ false)
      × ((g.loaded ≡ true) × ((g.tasks ≡ []) × (g.state ≡ some user))))
Settled crashed = ⊥

module _ {U P E : Type 0} where
  unlock-Settled :
      (g : GameState U P E) (user : U)
      → g.locked ≡ true
      → g.loaded ≡ true
      → g.tasks ≡ []
      → g.state ≡ some user
      → Settled (unlock g)
  unlock-Settled g user l d t s = rw l (user, (refl, (d, (t, s))))

  walked-Settled :
      (g : GameState U P E) (user : U) (raw : Bytes) (lookup : Bytes → Looked P E) (r : Round P E)
      → Verdict lookup raw r
      → g.locked ≡ true
      → g.loaded ≡ true
      → g.tasks ≡ []
      → g.state ≡ some user
      → Settled (after_walk g r)
  unfolding after_walk
  walked-Settled g user raw lookup (go w) v l d t s = absurd v
  walked-Settled g user raw lookup (stop w none) v l d t s =
      unlock-Settled (record g { world = w.world }) user l d t s
  walked-Settled g user raw lookup (stop w (some e)) v l d t s =
      unlock-Settled (record g { world = w.world; log = g.log ++ notify_failed e ∷ [] }) user l d t
        s
  walked-Settled g user raw lookup fault v l d t s = absurd v

module _ {U P E : Type 0} (codec : Codec U P E) (pooled : Scanner) (path : KeyPath) where
  delta-Settled :
      (packet op : Bytes) (raw : Option Bytes) (g : GameState U P E) (user : U)
      → codec.modified packet ≡ raw
      → g.locked ≡ true
      → g.loaded ≡ true
      → g.tasks ≡ []
      → g.state ≡ some user
      → Settled (delta_of codec pooled path packet op raw g)
  unfolding delta_of merge_delta
  delta-Settled packet op none g user m l d t s = unlock-Settled g user l d t s
  delta-Settled packet op (some raw) g user m l d t s =
      let merged = (codec.merge user (codec.unmarshal_user raw).0).0 in
      rw s (
        walked-Settled
          (record g {
            state = some merged;
            log =
                warn_if (codec.merge user (codec.unmarshal_user raw).0).1 (merge_failed op)
                  (warn_if (codec.unmarshal_user raw).1 (bad_delta op packet) g.log);
          })
          merged raw (codec.lookup merged) _
          (walk_and_notify-Verdict (codec.lookup merged)
            (λ target. map (λ (h : Attached). h.hook) (g.state_hooks target)) raw pooled path
            g.world (codec.modified-length packet raw m))
          l d t refl)

  -- A goroutine that is ready runs to its end, in which it gives the lock back.
  pub run_task-Settled :
      (task : Task) (g : GameState U P E)
      → Ready task g.state
      → g.locked ≡ true
      → g.loaded ≡ true
      → g.tasks ≡ []
      → Settled (run_task codec pooled path task g)
  unfolding run_task handle_sync_data parse_data_delta
  run_task-Settled (sync_task packet) g r l d t =
      unlock-Settled
        (record g {
          state = some (codec.unmarshal_sync packet).0;
          log = warn_if (codec.unmarshal_sync packet).1 (bad_sync packet) g.log;
        })
        (codec.unmarshal_sync packet).0 l d t refl
  run_task-Settled (delta_task packet op) g (user, s) l d t =
      delta-Settled packet op (codec.modified packet) g user refl l d t s
