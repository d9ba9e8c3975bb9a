-- ===== src/Gamedata/Deadlock.antt =====
-- The update when every reply has an unexpected status: each one ends a worker.
use rhine.Gamedata.Pool.{
  response, Saving, unexpected_status, Fetched, get_and_update, leave, close, finish, receive,
  answer, start, next, send, Pool, JobResult, Step, Reachable, IsFinished, UpdateError, stops,
}
use rhine.Prelude.{
  ◌≢◌, ◌∙◌, sym, [], refl, length-append, ◌∷◌, false, ap, arith, ◌++◌, ◌≤◌, List, length, ◌<◌, ◌≡◌,
  ◌+◌, Bytes,
}
use Prim.Native.Nat.{ℕ}
use mathlib.Core.Bool.{true≢false}
use rhine.Gamedata.Progress.{length-split}

-- Each of the four workers waits, works on a job, or has sent its only error.
record Drained (n : ℕ) (p : Pool) : Type 0 where
  workers : p.idle + length p.busy + length p.errs ≡ 4
  jobs : length p.to_send + length p.jobs + length p.busy + length p.errs ≡ n
  room : length p.jobs ≤ 4
  is_open : p.closed ≡ false

module _ (result : Bytes → JobResult)
    (always : (job : Bytes) → (e : UpdateError) × (result job ≡ stops e)) where
  finish-Drained :
      (n : ℕ) (p : Pool) (before behind : List Bytes) (job : Bytes) (r : JobResult)
      (x : UpdateError)
      → r ≡ stops x
      → p.busy ≡ before ++ job ∷ behind
      → Drained n p
      → Drained n (answer (before ++ behind) r p)
  finish-Drained n p before behind job r x same e d = rw same (record {
    workers = omega (
      arith,
      d.workers,
      length-split before behind job p.busy e,
      length-append {0} p.errs (x ∷ []),
    );
    jobs =
        omega (
          arith,
          d.jobs,
          length-split before behind job p.busy e,
          length-append {0} p.errs (x ∷ []),
        );
    room = d.room;
    is_open = d.is_open;
  })

  Step-Drained : (n : ℕ) (p q : Pool) → 8 < n → Drained n p → Step result p q → Drained n q
  Step-Drained n p q many d (send job rest e l) = record {
    workers = d.workers;
    jobs = omega (arith, d.jobs, ap (length {0}) e, length-append {0} p.jobs (job ∷ []));
    room = omega (arith, l, length-append {0} p.jobs (job ∷ []));
    is_open = d.is_open;
  }
  Step-Drained n p q many d (receive job rest idle e i) = record {
    workers = omega (arith, d.workers, i);
    jobs = omega (arith, d.jobs, ap (length {0}) e);
    room = omega (arith, d.room, ap (length {0}) e);
    is_open = d.is_open;
  }
  Step-Drained n p q many d (finish before behind job e) =
      finish-Drained n p before behind job (result job) (always job).0 (always job).1 e d
  Step-Drained n p q many d (close e c) =
      absurd (omega (arith, many, d.workers, d.jobs, d.room, ap (length {0}) e))
  Step-Drained n p q many d (leave idle c e i) = absurd (true≢false (sym c ∙ d.is_open))

  Reachable-Drained :
      (paths : List Bytes) (p : Pool)
      → 8 < length paths
      → Reachable result paths p
      → Drained (length paths) p
  Reachable-Drained paths p many start = record {
    workers = refl;
    jobs = omega arith;
    room = omega arith;
    is_open = refl;
  }
  Reachable-Drained paths p many (next {p = q} r s) =
      Step-Drained (length paths) q p many (Reachable-Drained paths q many r) s

  stops-IsFinished :
      (paths : List Bytes) (p : Pool) → 8 < length paths → Reachable result paths p → ¬ IsFinished p
  stops-IsFinished paths p many r (closed, _) =
      true≢false (sym closed ∙ (Reachable-Drained paths p many r).is_open)

-- A reply with another status than the two that are expected.
pub data IsUnexpected : Fetched → Type 0 where
  other :
      (status : ℕ) (header : Bytes) (saving : Saving)
      → status ≢ 200
      → status ≢ 304
      → IsUnexpected (response status header saving)

get_and_update_stops :
    (path etag : Bytes) (f : Fetched)
    → IsUnexpected f
    → (e : UpdateError) × (get_and_update path etag f ≡ stops e)
unfolding get_and_update
get_and_update_stops path etag f (other status header saving a b) =
    (unexpected_status status path, ground arith)

-- If there are more than eight files and every request gets a status other than 200 and 304, no
-- reachable state is one in which `wg.Wait` has returned: `updateGameData` never returns, and the
-- lock on the files is never given back.
pub update_never_IsFinished :
    (etag_of : Bytes → Bytes) (fetch : Bytes → Fetched) (paths : List Bytes) (p : Pool)
    → ((path : Bytes) → IsUnexpected (fetch path))
    → 8 < length paths
    → Reachable (λ path. get_and_update path (etag_of path) (fetch path)) paths p
    → ¬ IsFinished p
update_never_IsFinished etag_of fetch paths p unexpected many r =
    stops-IsFinished (λ path. get_and_update path (etag_of path) (fetch path))
      (λ path. get_and_update_stops path (etag_of path) (fetch path) (unexpected path)) paths p many
      r
