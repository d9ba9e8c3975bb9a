-- ===== src/Gamedata/Complete.antt =====
-- The update when no reply ends a worker: it never stands still, and every file is answered.
use rhine.Gamedata.Pool.{
  close, leave, finish, receive, start, next, answer, sends_error, send, sends_etag, Pool,
  JobResult, Step, Reachable, IsFinished, UpdateError,
}
use mathlib.Core.Bool.{Bool, true, true≢false}
use rhine.Prelude.{
  false, ap, ◌∙◌, refl, arith, suc, length, inl, ◌+◌, ◌⊎◌, ◌∷◌, sym, [], ◌++◌, ℕ, inr, List, ◌≡◌,
  Bytes,
}
use Prim.Native.Nat.{zero}
use rhine.Gamedata.Progress.{Reachable-count, length-split}
use mathlib.Core.List.{nil≢cons}

-- The replies that leave the worker in its loop.
pub data GoesOn : JobResult → Type 0 where
  etag_sent : (line : Bytes) → GoesOn (sends_etag line)
  error_sent : (e : UpdateError) → GoesOn (sends_error e)

either_map : {A B A' B' : Type 0} → (A → A') → (B → B') → A ⊎ B → A' ⊎ B'
either_map f g (inl a) = inl (f a)
either_map f g (inr b) = inr (g b)

-- The workers are gone because there is nothing left to do, or all of them are there.
record Alive (p : Pool) : Type 0 where
  workers : ((p.closed ≡ true) × (p.jobs ≡ [])) ⊎ (p.idle + length p.busy ≡ 4)
  all_sent : p.closed ≡ true → p.to_send ≡ []

module _ (result : Bytes → JobResult) (goes_on : (job : Bytes) → GoesOn (result job)) where
  answer-Alive :
      (before behind : List Bytes) (job : Bytes) (r : JobResult) (p : Pool)
      → GoesOn r
      → p.busy ≡ before ++ job ∷ behind
      → Alive p
      → Alive (answer (before ++ behind) r p)
  answer-Alive before behind job r p (etag_sent line) e a = record {
    workers =
        either_map (λ h. h) (λ h. omega (arith, h, length-split before behind job p.busy e))
          a.workers;
    all_sent = a.all_sent;
  }
  answer-Alive before behind job r p (error_sent x) e a = record {
    workers =
        either_map (λ h. h) (λ h. omega (arith, h, length-split before behind job p.busy e))
          a.workers;
    all_sent = a.all_sent;
  }

  Step-Alive : (p q : Pool) → Alive p → Step result p q → Alive q
  Step-Alive p q a (send job rest e l) = record {
    workers = either_map (λ h. absurd (nil≢cons (sym (a.all_sent h.0) ∙ e))) (λ h. h) a.workers;
    all_sent = λ c. absurd (nil≢cons (sym (a.all_sent c) ∙ e));
  }
  Step-Alive p q a (receive job rest idle e i) = record {
    workers =
        either_map (λ h. absurd (nil≢cons (sym h.1 ∙ e))) (λ h. omega (arith, h, i)) a.workers;
    all_sent = a.all_sent;
  }
  Step-Alive p q a (finish before behind job e) =
      answer-Alive before behind job (result job) p (goes_on job) e a
  Step-Alive p q a (close e c) = record {
    workers = either_map (λ h. (refl, h.1)) (λ h. h) a.workers;
    all_sent = λ _. e;
  }
  Step-Alive p q a (leave idle c e i) = record { workers = inl (c, e); all_sent = a.all_sent }

  Reachable-Alive : (paths : List Bytes) (p : Pool) → Reachable result paths p → Alive p
  Reachable-Alive paths p start = record {
    workers = inr refl;
    all_sent = λ c. absurd (true≢false (sym c));
  }
  Reachable-Alive paths p (next {p = q} r s) = Step-Alive q p (Reachable-Alive paths q r) s

  -- With no worker at work, one that waits can go on, or all are gone.
  idle-moves :
      (p : Pool) (to_send jobs : List Bytes) (idle : ℕ) (closed : Bool)
      → p.to_send ≡ to_send
      → p.jobs ≡ jobs
      → p.idle ≡ idle
      → p.closed ≡ closed
      → p.busy ≡ []
      → Alive p
      → IsFinished p ⊎ ((q : Pool) × Step result p q)
  idle-moves p to_send [] zero true t j i c b a = inl (c, (i, b))
  idle-moves p to_send (job ∷ jobs) (suc idle) closed t j i c b a =
      inr (_, receive job jobs idle j (omega (arith, i)))
  idle-moves p to_send [] (suc idle) true t j i c b a = inr (_, leave idle c j (omega (arith, i)))
  idle-moves p [] [] (suc idle) false t j i c b a = inr (_, close t c)
  idle-moves p (job ∷ to_send) [] (suc idle) false t j i c b a =
      inr (_, send job to_send t (omega (arith, ap (length {0}) j)))
  idle-moves p to_send [] zero false t j i c b a = inr (absurd (all_gone a.workers))
    where
      all_gone : ((p.closed ≡ true) × (p.jobs ≡ [])) ⊎ (p.idle + length p.busy ≡ 4) → ⊥
      all_gone (inl (c', h)) = true≢false (sym c' ∙ c)
      all_gone (inr h) = omega (arith, h, i, ap (length {0}) b)
  idle-moves p to_send (job ∷ jobs) zero closed t j i c b a = inr (absurd (all_gone a.workers))
    where
      all_gone : ((p.closed ≡ true) × (p.jobs ≡ [])) ⊎ (p.idle + length p.busy ≡ 4) → ⊥
      all_gone (inl (c', h)) = nil≢cons (sym h ∙ j)
      all_gone (inr h) = omega (arith, h, i, ap (length {0}) b)

  moves :
      (p : Pool) (busy : List Bytes)
      → p.busy ≡ busy
      → Alive p
      → IsFinished p ⊎ ((q : Pool) × Step result p q)
  moves p [] b a = idle-moves p p.to_send p.jobs p.idle p.closed refl refl refl refl b a
  moves p (job ∷ busy) b a = inr (_, finish [] busy job b)

  -- When `wg.Wait` has returned, no job is left.
  pub finished-empty :
      (paths : List Bytes) (p : Pool)
      → Reachable result paths p
      → IsFinished p
      → (p.to_send ≡ []) × (p.jobs ≡ [])
  finished-empty paths p r (closed, (idle, busy)) =
      ((Reachable-Alive paths p r).all_sent closed, no_jobs (Reachable-Alive paths p r).workers)
    where
      no_jobs : ((p.closed ≡ true) × (p.jobs ≡ [])) ⊎ (p.idle + length p.busy ≡ 4) → p.jobs ≡ []
      no_jobs (inl (c, h)) = h
      no_jobs (inr h) = absurd (omega (arith, h, idle, ap (length {0}) busy))

  all_answered :
      (paths : List Bytes) (p : Pool)
      → Reachable result paths p
      → IsFinished p
      → length p.etags + length p.errs ≡ length paths
  all_answered paths p r (closed, (idle, busy)) =
      let (sent, done) = finished-empty paths p r (closed, (idle, busy)) in
      omega (
        arith,
        Reachable-count result paths p r,
        ap (length {0}) busy,
        ap (length {0}) sent,
        ap (length {0}) done,
      )

  -- If no reply ends a worker, then in every reachable state `wg.Wait` has returned, with one line
  -- or one error for each file, or some goroutine can make a step.
  pub pool-moves :
      (paths : List Bytes) (p : Pool)
      → Reachable result paths p
      → (IsFinished p × (length p.etags + length p.errs ≡ length paths))
        ⊎ ((q : Pool) × Step result p q)
  pool-moves paths p r =
      either_map (λ f. (f, all_answered paths p r f)) (λ s. s)
        (moves p p.busy refl (Reachable-Alive paths p r))
