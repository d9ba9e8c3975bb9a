-- ===== src/State/Invariant.antt =====
-- Every step of a `GameState` keeps its phase.
use rhine.State.Store.{
  get_state_ref, run_task, Codec, delta_task, queue_full, sync_task, hook_queue_max, attach_taken,
  Attached, take_from, GameState, Task, handle, hook, take_hook, attach_hook, done,
}
use rhine.State.Calls.{unhook, without, Called, waits, panics, returns}
use rhine.State.Steps.{
  unhook_step, receive_step, attach_step, take_step, hook_step, start, next, task_step, packet_step,
  Step, Reachable,
}
use rhine.State.Phase.{run_task-Settled, Ready, busy, waiting, idle, Phase, Settled}
use rhine.Prelude.{
  if◌then◌else◌, false, ap, ◌∙◌, length, inr, codes, refl, ltb, bytes_eq, inl, sym, [], none, ◌∷◌,
  some, ◌++◌, Bool-cases, List, Bytes, ◌≡◌, Option,
}
use mathlib.Core.Path.{subst}
use mathlib.Core.List.{nil≢cons, head-eq_of_cons-eq, tail-eq_of_cons-eq}
use rhine.Scanner.State.{Scanner}
use rhine.Walk.Notify.{World}
use rhine.Walk.Loop.{KeyPath}

-- What a method leaves, or a wait.
abbrev pub IsSafe : {U P E : Type 0} → Option (GameState U P E) → Type 0
IsSafe none = Unit
IsSafe (some g) = Phase g

pub not_nil : (before behind : List Task) (task : Task) → before ++ task ∷ behind ≡ [] → ⊥
not_nil [] behind task e = nil≢cons (sym e)
not_nil (b ∷ before) behind task e = nil≢cons (sym e)

pub only_task :
    (before behind : List Task) (task task' : Task)
    → before ++ task ∷ behind ≡ task' ∷ []
    → (task ≡ task') × (before ++ behind ≡ [])
only_task [] behind task task' e = (head-eq_of_cons-eq e, tail-eq_of_cons-eq e)
only_task (b ∷ before) behind task task' e =
    absurd (not_nil before behind task (tail-eq_of_cons-eq e))

module _ {U P E : Type 0} where
  -- A change of the other fields.
  Phase-same :
      (g g' : GameState U P E)
      → g.loaded ≡ g'.loaded
      → g.locked ≡ g'.locked
      → g.tasks ≡ g'.tasks
      → g.state ≡ g'.state
      → Phase g
      → Phase g'
  Phase-same g g' d l t s (waiting d' l' t') = waiting (sym d ∙ d') (sym l ∙ l') (sym t ∙ t')
  Phase-same g g' d l t s (busy task d' l' t' r) =
      busy task (sym d ∙ d') (sym l ∙ l') (sym t ∙ t') (subst (Ready task) s r)
  Phase-same g g' d l t s (idle user d' l' t' s') =
      idle user (sym d ∙ d') (sym l ∙ l') (sym t ∙ t') (sym s ∙ s')

  handle-IsSafe : (op packet : Bytes) (g : GameState U P E) → Phase g → IsSafe (handle op packet g)
  unfolding handle
  handle-IsSafe op packet g (waiting d l t) =
      elim (Bool-cases (bytes_eq op (codes "S/account/syncData"))) [
        | inl e ↦
            rw (d, e) (busy (sync_task packet) refl l (ap (λ ts. ts ++ sync_task packet ∷ []) t) tt)
        | inr e ↦ rw (d, e) (waiting refl l t)
      ]
  handle-IsSafe op packet g (busy task d l t r) = rw (d, l) tt
  handle-IsSafe op packet g (idle user d l t s) =
      rw (d, l)
        (busy (delta_task packet op) refl refl (ap (λ ts. ts ++ delta_task packet op ∷ []) t)
          (user, s))

  hook-Phase : (h : Attached) (g : GameState U P E) → Phase g → Phase (hook h g)
  unfolding hook
  hook-Phase h g p = elim (Bool-cases (ltb (length g.queue) hook_queue_max)) [
    | inl e ↦ rw e (Phase-same g (record g { queue = g.queue ++ h ∷ [] }) refl refl refl refl p)
    | inr e ↦
        rw e (Phase-same g (record g { log = g.log ++ queue_full h ∷ [] }) refl refl refl refl p)
  ]

  take_from-IsSafe :
      (queue : List Attached) (taken : Option Attached) (g : GameState U P E)
      → Phase g
      → IsSafe (take_from queue taken g)
  unfolding take_from
  take_from-IsSafe [] taken g p = tt
  take_from-IsSafe (h ∷ queue) none g p =
      Phase-same g (record g { queue = queue; taken = some h }) refl refl refl refl p
  take_from-IsSafe (h ∷ queue) (some _) g p = tt

  attach_taken-IsSafe :
      (taken : Option Attached) (g : GameState U P E) → Phase g → IsSafe (attach_taken taken g)
  unfolding attach_taken
  attach_taken-IsSafe none g p = tt
  attach_taken-IsSafe (some h) g p = elim (Bool-cases g.locked) [
    | inl e ↦ rw e tt
    | inr e ↦ rw e (
        Phase-same g
          (record g {
            locked = false;
            taken = none;
            state_hooks = λ path.
                if bytes_eq h.hook.target path
                then g.state_hooks path ++ h ∷ []
                else g.state_hooks path;
          })
          refl e refl refl p)
  ]

  -- The phase of what a call leaves.
  abbrev IsKept : Called (GameState U P E) → Type 0
  IsKept waits = Unit
  IsKept panics = Unit
  IsKept (returns g) = Phase g

  unhook-IsKept : (h : Attached) (g : GameState U P E) → Phase g → IsKept (unhook (some h) g)
  unfolding unhook
  unhook-IsKept h g p = elim (Bool-cases g.locked) [
    | inl l ↦ rw l tt
    | inr l ↦ rw l (
        Phase-same g
          (record g {
            locked = false;
            state_hooks = λ path.
                if bytes_eq h.hook.target path
                then without h (g.state_hooks path)
                else g.state_hooks path;
          })
          refl l refl refl p)
  ]

  pub Settled-Phase : (g : GameState U P E) → Settled (done g) → Phase g
  Settled-Phase g (user, (l, (d, (t, s)))) = idle user d l t s

module _ {U P E : Type 0} (codec : Codec U P E) (pooled : Scanner) (path : KeyPath) where
  -- The goroutine that holds the lock is the only one.
  pub task-Settled :
      (before behind : List Task) (task : Task) (g : GameState U P E)
      → Phase g
      → g.tasks ≡ before ++ task ∷ behind
      → Settled (run_task codec pooled path task (record g { tasks = before ++ behind }))
  task-Settled before behind task g (waiting d l t) e =
      absurd (not_nil before behind task (sym e ∙ t))
  task-Settled before behind task g (idle user d l t s) e =
      absurd (not_nil before behind task (sym e ∙ t))
  task-Settled before behind task g (busy task' d l t r) e =
      let (same, rest) = only_task before behind task task' (sym e ∙ t) in
      run_task-Settled codec pooled path task (record g { tasks = before ++ behind })
        (subst (λ x. Ready x g.state) (sym same) r) l d rest

module _ {U P E : Type 0} (codec : Codec U P E) where
  Step-Phase : (g g' : GameState U P E) → Phase g → Step codec g g' → Phase g'
  unfolding take_hook attach_hook
  Step-Phase g g' p (packet_step op packet g'' e) = subst IsSafe e (handle-IsSafe op packet g p)
  Step-Phase g g' p (task_step pooled path before behind task g'' t e) =
      Settled-Phase g' (subst Settled e (task-Settled codec pooled path before behind task g p t))
  Step-Phase g g' p (hook_step h) = hook-Phase h g p
  Step-Phase g g' p (take_step g'' e) = subst IsSafe e (take_from-IsSafe g.queue g.taken g p)
  Step-Phase g g' p (attach_step g'' e) = subst IsSafe e (attach_taken-IsSafe g.taken g p)
  Step-Phase g g' p (unhook_step h g'' e) = subst IsKept e (unhook-IsKept h g p)
  Step-Phase g g' p (receive_step rooms) = Phase-same g _ refl refl refl refl p

  -- In every reachable state, one of these holds: the lock is held since `New`, with no goroutine,
  -- until the sync packet comes; or one goroutine runs, it holds the lock, and if it is one for a
  -- delta the state is not nil; or the lock is free, none runs, and the state is not nil.
  pub Reachable-Phase : (world : World P) (g : GameState U P E) → Reachable codec world g → Phase g
  Reachable-Phase world g start = waiting refl refl refl
  Reachable-Phase world g (next {g = g₀} r s) = Step-Phase g₀ g (Reachable-Phase world g₀ r) s

  -- In every state that is reached while packets are handled one at a time, a goroutine that runs
  -- comes to its end, whatever packet it has and whatever the pools give it: it does not crash, no
  -- other one runs, and it leaves the lock free and the state not nil.
  pub Reachable_task-Settled :
      (pooled : Scanner) (path : KeyPath) (world : World P) (g : GameState U P E)
      (before behind : List Task) (task : Task)
      → Reachable codec world g
      → g.tasks ≡ before ++ task ∷ behind
      → Settled (run_task codec pooled path task (record g { tasks = before ++ behind }))
  Reachable_task-Settled pooled path world g before behind task r e =
      task-Settled codec pooled path before behind task g (Reachable-Phase world g r) e

  -- What `GetStateRef` returns is not nil.
  abbrev IsGiven : Option (Option U) → Type 0
  IsGiven none = Unit
  IsGiven (some found) = (user : U) × (found ≡ some user)

  get_state_ref-IsGiven : (g : GameState U P E) → Phase g → IsGiven (get_state_ref g)
  unfolding get_state_ref
  get_state_ref-IsGiven g (waiting d l t) = rw l tt
  get_state_ref-IsGiven g (busy task d l t r) = rw l tt
  get_state_ref-IsGiven g (idle user d l t s) = rw l (user, s)

  -- In every reachable state, `GetStateRef` waits for the lock or returns a reference that is not
  -- nil.
  pub get_state_ref-some :
      (world : World P) (g : GameState U P E) (found : Option U)
      → Reachable codec world g
      → get_state_ref g ≡ some found
      → (user : U) × (found ≡ some user)
  get_state_ref-some world g found r e =
      subst IsGiven e (get_state_ref-IsGiven g (Reachable-Phase world g r))
