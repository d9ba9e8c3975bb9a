-- ===== src/State/Race/Single.antt =====
-- Calls of `handle` that race, of which at most one is a sync.
use rhine.State.Store.{
  GameState, Codec, Task, Ran, sync_task, run_task, handle_sync_data, done, crashed,
}
use rhine.State.Phase.{Settled}
use rhine.State.Invariant.{only_task, not_nil, Settled-Phase, task-Settled}
use rhine.State.Race.{
  Call, Racing, RaceReachable, start, next, call, read, lock, spawn, set_loaded, run,
}
use rhine.State.Race.Counts.{sync_op, count}
use rhine.State.Race.Safe.{
  Safe, fresh, between, running, Synced, syncing, synced, Freed, call-Safe, read-Safe, lock-Safe,
  spawn-Safe, set_loaded-Safe,
}
use rhine.Prelude.{
  ◌∙◌, sym, [], true, arith, ◌∷◌, ◌≤◌, false, ◌+◌, ◌++◌, ℕ, ◌≡◌, Bytes, List, some, refl,
}
use rhine.Scanner.State.{Scanner}
use rhine.Walk.Notify.{World}
use mathlib.Core.Path.{subst}
use rhine.Walk.Loop.{KeyPath}

module _ {U P E : Type 0} (codec : Codec U P E) (pooled : Scanner) (path : KeyPath) where
  -- How many of the calls were of a sync.
  unfoldable pub sync_calls :
      {world : World P} {r : Racing U P E} → RaceReachable codec pooled path world r → ℕ
  unfolding sync_op
  sync_calls start = 0
  sync_calls (next r (call op packet)) = sync_calls r + sync_op op
  sync_calls (next r (read before behind op packet e)) = sync_calls r
  sync_calls (next r (lock before behind op packet e l)) = sync_calls r
  sync_calls (next r (spawn before behind packet e)) = sync_calls r
  sync_calls (next r (set_loaded before behind e)) = sync_calls r
  sync_calls (next r (run before behind task g e e')) = sync_calls r

  -- A sync that ran, while the state is not marked as loaded.
  abbrev Rested : Ran U P E → Type 0
  Rested (done g) =
      (user : U) × ((g.locked ≡ false)
        × ((g.tasks ≡ []) × ((g.state ≡ some user) × (g.loaded ≡ false))))
  Rested crashed = ⊥

  sync-Rested :
      (packet : Bytes) (g : GameState U P E)
      → g.loaded ≡ false
      → g.locked ≡ true
      → g.tasks ≡ []
      → Rested (run_task codec pooled path (sync_task packet) g)
  unfolding run_task handle_sync_data
  sync-Rested packet g d l t = rw l ((codec.unmarshal_sync packet).0, (refl, (t, (refl, d))))

  between-Rested :
      (before behind : List Task) (task : Task) (g : GameState U P E)
      → g.loaded ≡ false
      → Synced g
      → g.tasks ≡ before ++ task ∷ behind
      → Rested (run_task codec pooled path task (record g { tasks = before ++ behind }))
  between-Rested before behind task g d (synced user l t s) e =
      absurd (not_nil before behind task (sym e ∙ t))
  between-Rested before behind task g d (syncing packet l t) e =
      let (same, rest) = only_task before behind task (sync_task packet) (sym e ∙ t) in
      subst (λ x. Rested (run_task codec pooled path x (record g { tasks = before ++ behind })))
        (sym same) (sync-Rested packet (record g { tasks = before ++ behind }) d l rest)

  -- A goroutine's run keeps what holds.
  run-Safe :
      (n : ℕ) (before behind : List Task) (task : Task) (g g' : GameState U P E) (calls : List Call)
      → g.tasks ≡ before ++ task ∷ behind
      → run_task codec pooled path task (record g { tasks = before ++ behind }) ≡ done g'
      → Safe n g calls
      → Safe n g' calls
  run-Safe n before behind task g g' calls e e' (fresh d l t p s w) =
      absurd (not_nil before behind task (sym e ∙ t))
  run-Safe n before behind task g g' calls e e' (between d y p s w) =
      let (user, (l, (t, (u, d')))) = subst Rested e' (between-Rested before behind task g d y e) in
      between d' (synced user l t u) p s w
  run-Safe n before behind task g g' calls e e' (running d p y s) =
      let settled = subst Settled e' (task-Settled codec pooled path before behind task g p e) in
      running (settled.1.1.0) (Settled-Phase g' settled) y s

  Reachable-Safe :
      (world : World P) (r : Racing U P E) (h : RaceReachable codec pooled path world r)
      → sync_calls h ≤ 1
      → Safe (sync_calls h) r.game r.calls
  unfolding sync_calls count
  Reachable-Safe world r start one = fresh refl refl refl (omega arith) refl refl
  Reachable-Safe world r (next {r = r₀} h (call op packet)) one =
      call-Safe (sync_calls h) r₀.game r₀.calls op packet
        (Reachable-Safe world r₀ h (omega (arith, one)))
  Reachable-Safe world r (next {r = r₀} h (read before behind op packet e)) one =
      read-Safe (sync_calls h) r₀.game r₀.calls before behind op packet e
        (Reachable-Safe world r₀ h one)
  Reachable-Safe world r (next {r = r₀} h (lock before behind op packet e l)) one =
      lock-Safe (sync_calls h) r₀.game r₀.calls before behind op packet e l
        (Reachable-Safe world r₀ h one)
  Reachable-Safe world r (next {r = r₀} h (spawn before behind packet e)) one =
      spawn-Safe (sync_calls h) r₀.game r₀.calls before behind packet one e
        (Reachable-Safe world r₀ h one)
  Reachable-Safe world r (next {r = r₀} h (set_loaded before behind e)) one =
      set_loaded-Safe (sync_calls h) r₀.game r₀.calls before behind one e
        (Reachable-Safe world r₀ h one)
  Reachable-Safe world r (next {r = r₀} h (run before behind task g e e')) one =
      run-Safe (sync_calls h) before behind task r₀.game g r₀.calls e e'
        (Reachable-Safe world r₀ h one)

  Rested-Freed : (ran : Ran U P E) → Rested ran → Freed ran
  Rested-Freed (done g) (user, (l, (t, (s, d)))) = (user, (l, (t, s)))
  Rested-Freed crashed h = h

  Settled-Freed : (ran : Ran U P E) → Settled ran → Freed ran
  Settled-Freed (done g) (user, (l, (d, (t, s)))) = (user, (l, (t, s)))
  Settled-Freed crashed h = h

  task-Freed :
      (n : ℕ) (before behind : List Task) (task : Task) (g : GameState U P E) (calls : List Call)
      → g.tasks ≡ before ++ task ∷ behind
      → Safe n g calls
      → Freed (run_task codec pooled path task (record g { tasks = before ++ behind }))
  task-Freed n before behind task g calls e (fresh d l t p s w) =
      absurd (not_nil before behind task (sym e ∙ t))
  task-Freed n before behind task g calls e (between d y p s w) =
      Rested-Freed _ (between-Rested before behind task g d y e)
  task-Freed n before behind task g calls e (running d p y s) =
      Settled-Freed _ (task-Settled codec pooled path before behind task g p e)

  -- However calls of `handle` by several goroutines interleave, if at most one of them is of a sync,
  -- then every goroutine that they start comes to its end: it does not crash, no other one runs, and
  -- it leaves the lock free and the state not nil.
  pub race_task-Freed :
      (world : World P) (r : Racing U P E) (before behind : List Task) (task : Task)
      (h : RaceReachable codec pooled path world r)
      → sync_calls h ≤ 1
      → r.game.tasks ≡ before ++ task ∷ behind
      → Freed (run_task codec pooled path task (record r.game { tasks = before ++ behind }))
  race_task-Freed world r before behind task h one e =
      task-Freed (sync_calls h) before behind task r.game r.calls e (Reachable-Safe world r h one)
