-- ===== src/State/Race/Safe.antt =====
-- What holds of racing calls of which at most one is a sync.
use rhine.State.Store.{delta_task, GameState, Ran, sync_task, done, crashed}
use rhine.State.Phase.{waiting, idle, busy, Phase}
use rhine.State.Race.{wants_lock, syncs, sets_loaded, reads, Call, called}
use rhine.State.Race.Counts.{
  read_fresh, none_at, gone, count-append, sync_op, count, pending, spawning, setting, count-last,
  count-split, count-middle, reads-pending, reads-waiting, reads-setting, reads-spawning,
  count-spawning-le, count-at,
}
use rhine.Prelude.{
  sym, ap, ◌∙◌, refl, Bool, arith, ◌≤◌, ◌++◌, [], ◌+◌, ◌∷◌, List, false, true, ℕ, Bytes, ◌≡◌, some,
}
use mathlib.Core.Path.{subst}
use mathlib.Core.Bool.{true≢false}
use rhine.State.Race.Counts

-- The sync runs with the lock, or it has ended.
pub data Synced {U P E : Type 0} (g : GameState U P E) : Type 0 where
  syncing : (packet : Bytes) → g.locked ≡ true → g.tasks ≡ sync_task packet ∷ [] → Synced g
  synced : (user : U) → g.locked ≡ false → g.tasks ≡ [] → g.state ≡ some user → Synced g

-- Before the sync, between its start and the write of `loaded`, and behind that, for the number of
-- syncs that were called.
pub data Safe {U P E : Type 0} (n : ℕ) (g : GameState U P E) (calls : List Call) : Type 0 where
  fresh :
      g.loaded ≡ false
      → g.locked ≡ true
      → g.tasks ≡ []
      → count pending calls ≤ n
      → count setting calls ≡ 0
      → count Counts.waiting calls ≡ 0
      → Safe n g calls
  between :
      g.loaded ≡ false
      → Synced g
      → count pending calls + 1 ≤ n
      → count setting calls ≡ 1
      → count Counts.waiting calls ≡ 0
      → Safe n g calls
  running :
      g.loaded ≡ true
      → Phase g
      → count spawning calls ≡ 0
      → count setting calls ≡ 0
      → Safe n g calls

-- A goroutine that ran to its end, with the lock given back.
abbrev pub Freed : {U P E : Type 0} → Ran U P E → Type 0
Freed {U} (done g) = (user : U) × ((g.locked ≡ false) × ((g.tasks ≡ []) × (g.state ≡ some user)))
Freed crashed = ⊥

module _ {U P E : Type 0} where
  pub call-Safe :
      (n : ℕ) (g : GameState U P E) (calls : List Call) (op packet : Bytes)
      → Safe n g calls
      → Safe (n + sync_op op) g (calls ++ called op packet ∷ [])
  call-Safe n g calls op packet (fresh d l t p s w) =
      fresh d l t (omega (arith, p, count-last pending calls (called op packet)))
        (omega (arith, s, count-last setting calls (called op packet)))
        (omega (arith, w, count-last Counts.waiting calls (called op packet)))
  call-Safe n g calls op packet (between d y p s w) =
      between d y (omega (arith, p, count-last pending calls (called op packet)))
        (omega (arith, s, count-last setting calls (called op packet)))
        (omega (arith, w, count-last Counts.waiting calls (called op packet)))
  call-Safe n g calls op packet (running d p y s) =
      running d p (omega (arith, y, count-last spawning calls (called op packet)))
        (omega (arith, s, count-last setting calls (called op packet)))

  reads_as :
      (n : ℕ) (g : GameState U P E) (before behind : List Call) (op packet : Bytes) (b : Bool)
      → g.loaded ≡ b
      → Safe n g (before ++ reads b op packet ++ behind)
      → Safe n g (before ++ reads g.loaded op packet ++ behind)
  reads_as n g before behind op packet b d =
      subst (λ x. Safe n g (before ++ reads x op packet ++ behind)) (sym d)

  pub read-Safe :
      (n : ℕ) (g : GameState U P E) (calls before behind : List Call) (op packet : Bytes)
      → calls ≡ before ++ called op packet ∷ behind
      → Safe n g calls
      → Safe n g (before ++ reads g.loaded op packet ++ behind)
  read-Safe n g calls before behind op packet e (fresh d l t p s w) =
      let (p', (s', w')) = read_fresh calls before behind op packet e in
      reads_as n g before behind op packet false d
        (fresh d l t (omega (arith, p, p')) (s' ∙ s) (w' ∙ w))
  read-Safe n g calls before behind op packet e (between d y p s w) =
      let (p', (s', w')) = read_fresh calls before behind op packet e in
      reads_as n g before behind op packet false d
        (between d y (omega (arith, p, p')) (s' ∙ s) (w' ∙ w))
  read-Safe n g calls before behind op packet e (running d p y s) =
      reads_as n g before behind op packet true d (
        running d p
          (omega (
            arith,
            y,
            count-middle spawning before (reads true op packet) behind,
            count-split spawning calls before behind (called op packet) e,
            reads-spawning op packet,
          ))
          (omega (
            arith,
            s,
            count-middle setting before (reads true op packet) behind,
            count-split setting calls before behind (called op packet) e,
            reads-setting true op packet,
          )))

  lock-Phase :
      (g : GameState U P E) (op packet : Bytes)
      → g.loaded ≡ true
      → g.locked ≡ false
      → Phase g
      → Phase (record g { locked = true; tasks = g.tasks ++ delta_task packet op ∷ [] })
  lock-Phase g op packet d l (waiting d' l' t) = absurd (true≢false (sym d ∙ d'))
  lock-Phase g op packet d l (busy task d' l' t r) = absurd (true≢false (sym l' ∙ l))
  lock-Phase g op packet d l (idle user d' l' t s) =
      busy (delta_task packet op) d refl (ap (λ ts. ts ++ delta_task packet op ∷ []) t) (user, s)

  pub lock-Safe :
      (n : ℕ) (g : GameState U P E) (calls before behind : List Call) (op packet : Bytes)
      → calls ≡ before ++ wants_lock op packet ∷ behind
      → g.locked ≡ false
      → Safe n g calls
      → Safe n
          (record g { locked = true; tasks = g.tasks ++ delta_task packet op ∷ [] })
          (before ++ behind)
  lock-Safe n g calls before behind op packet e l (fresh d l' t p s w) =
      absurd (none_at Counts.waiting calls before behind (wants_lock op packet) e refl w)
  lock-Safe n g calls before behind op packet e l (between d y p s w) =
      absurd (none_at Counts.waiting calls before behind (wants_lock op packet) e refl w)
  lock-Safe n g calls before behind op packet e l (running d p y s) =
      running d (lock-Phase g op packet d l p)
        (omega (arith, y, gone spawning calls before behind (wants_lock op packet) e))
        (omega (arith, s, gone setting calls before behind (wants_lock op packet) e))

  pub spawn-Safe :
      (n : ℕ) (g : GameState U P E) (calls before behind : List Call) (packet : Bytes)
      → n ≤ 1
      → calls ≡ before ++ syncs packet ∷ behind
      → Safe n g calls
      → Safe n
          (record g { tasks = g.tasks ++ sync_task packet ∷ [] })
          (before ++ sets_loaded ∷ behind)
  spawn-Safe n g calls before behind packet one e (fresh d l t p s w) =
      between d (syncing packet l (ap (λ ts. ts ++ sync_task packet ∷ []) t))
        (omega (
          arith,
          p,
          count-split pending calls before behind (syncs packet) e,
          count-at pending before behind sets_loaded,
        ))
        (omega (
          arith,
          s,
          count-split setting calls before behind (syncs packet) e,
          count-at setting before behind sets_loaded,
        ))
        (omega (
          arith,
          w,
          count-split Counts.waiting calls before behind (syncs packet) e,
          count-at Counts.waiting before behind sets_loaded,
        ))
  spawn-Safe n g calls before behind packet one e (between d y p s w) =
      absurd (omega (arith, p, one, count-split pending calls before behind (syncs packet) e))
  spawn-Safe n g calls before behind packet one e (running d p y s) =
      absurd (none_at spawning calls before behind (syncs packet) e refl y)

  Synced-Phase : (g : GameState U P E) → Synced g → Phase (record g { loaded = true })
  Synced-Phase g (syncing packet l t) = busy (sync_task packet) refl l t tt
  Synced-Phase g (synced user l t s) = idle user refl l t s

  pub set_loaded-Safe :
      (n : ℕ) (g : GameState U P E) (calls before behind : List Call)
      → n ≤ 1
      → calls ≡ before ++ sets_loaded ∷ behind
      → Safe n g calls
      → Safe n (record g { loaded = true }) (before ++ behind)
  set_loaded-Safe n g calls before behind one e (fresh d l t p s w) =
      absurd (none_at setting calls before behind sets_loaded e refl s)
  set_loaded-Safe n g calls before behind one e (between d y p s w) =
      running refl (Synced-Phase g y)
        (omega
          (arith, p, one, count-spawning-le calls, gone spawning calls before behind sets_loaded e))
        (omega (arith, s, gone setting calls before behind sets_loaded e))
  set_loaded-Safe n g calls before behind one e (running d p y s) =
      absurd (none_at setting calls before behind sets_loaded e refl s)
