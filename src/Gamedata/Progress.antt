-- ===== src/Gamedata/Progress.antt =====
-- The runs of the update whose replies are all expected, and what holds of every run.
use rhine.Gamedata.Pool.{
  max_connections, start, next, sends_error, leave, close, sends_etag, answer, finish, receive,
  send, Pool, JobResult, Step, Reachable, stops,
}
use rhine.Prelude.{
  ◌∙◌, ◌≤◌, [], refl, length-append, ap, arith, if◌then◌else◌, ◌∷◌, ◌++◌, ◌+◌, length, ◌≡◌, ◌*◌,
  ◌<◌, Bytes, List,
}
use Prim.Native.Nat.{ℕ}

-- How many steps a state has left, at most.
abbrev pub measure : Pool → ℕ
measure p =
    4 * length p.to_send
    + 3 * length p.jobs
    + 2 * length p.busy
    + p.idle
    + (if p.closed then 0 else 1)

-- The jobs that are not answered, and the answers.
abbrev pub count : Pool → ℕ
count p = length p.to_send + length p.jobs + length p.busy + length p.etags + length p.errs

pub length-split :
    (before behind : List Bytes) (job : Bytes) (busy : List Bytes)
    → busy ≡ before ++ job ∷ behind
    → length busy ≡ length (before ++ behind) + 1
length-split before behind job busy e = omega (
  arith,
  ap (length {0}) e,
  length-append {0} before (job ∷ behind),
  length-append {0} before behind,
)

module _ (result : Bytes → JobResult) where
  answer-measure :
      (before behind : List Bytes) (job : Bytes) (r : JobResult) (p : Pool)
      → p.busy ≡ before ++ job ∷ behind
      → measure (answer (before ++ behind) r p) < measure p
  answer-measure before behind job (sends_etag line) p e =
      omega (arith, length-split before behind job p.busy e)
  answer-measure before behind job (sends_error x) p e =
      omega (arith, length-split before behind job p.busy e)
  answer-measure before behind job (stops x) p e =
      omega (arith, length-split before behind job p.busy e)

  answer-count :
      (before behind : List Bytes) (job : Bytes) (r : JobResult) (p : Pool)
      → p.busy ≡ before ++ job ∷ behind
      → count (answer (before ++ behind) r p) ≡ count p
  answer-count before behind job (sends_etag line) p e =
      omega (arith, length-split before behind job p.busy e, length-append {0} p.etags (line ∷ []))
  answer-count before behind job (sends_error x) p e =
      omega (arith, length-split before behind job p.busy e, length-append {0} p.errs (x ∷ []))
  answer-count before behind job (stops x) p e =
      omega (arith, length-split before behind job p.busy e, length-append {0} p.errs (x ∷ []))

  Step-measure : (p q : Pool) → Step result p q → measure q < measure p
  Step-measure p q (send job rest e l) =
      omega (arith, ap (length {0}) e, length-append {0} p.jobs (job ∷ []))
  Step-measure p q (receive job rest idle e i) = omega (arith, ap (length {0}) e, i)
  Step-measure p q (finish before behind job e) = answer-measure before behind job (result job) p e
  Step-measure p q (close e c) = rw c (omega arith)
  Step-measure p q (leave idle c e i) = omega (arith, i)

  Step-count : (p q : Pool) → Step result p q → count q ≡ count p
  Step-count p q (send job rest e l) =
      omega (arith, ap (length {0}) e, length-append {0} p.jobs (job ∷ []))
  Step-count p q (receive job rest idle e i) = omega (arith, ap (length {0}) e)
  Step-count p q (finish before behind job e) = answer-count before behind job (result job) p e
  Step-count p q (close e c) = refl
  Step-count p q (leave idle c e i) = refl

  -- The number of steps on the way to a state.
  abbrev pub steps : {paths : List Bytes} {p : Pool} → Reachable result paths p → ℕ
  steps start = 0
  steps (next r s) = steps r + 1

  steps-measure :
      (paths : List Bytes) (p : Pool) (r : Reachable result paths p)
      → steps r + measure p ≤ 4 * length paths + 5
  steps-measure paths p start = omega arith
  steps-measure paths p (next {p = q} r s) =
      omega (arith, steps-measure paths q r, Step-measure q p s)

  pub Reachable-count :
      (paths : List Bytes) (p : Pool) → Reachable result paths p → count p ≡ length paths
  Reachable-count paths p start = omega arith
  Reachable-count paths p (next {p = q} r s) = Step-count q p s ∙ Reachable-count paths q r

  answer-jobs : (busy : List Bytes) (r : JobResult) (p : Pool) → (answer busy r p).jobs ≡ p.jobs
  answer-jobs busy (sends_etag line) p = refl
  answer-jobs busy (sends_error x) p = refl
  answer-jobs busy (stops x) p = refl

  Step-room : (p q : Pool) → Step result p q → length p.jobs ≤ 4 → length q.jobs ≤ 4
  Step-room p q (send job rest e l) h = omega (arith, l, length-append {0} p.jobs (job ∷ []))
  Step-room p q (receive job rest idle e i) h = omega (arith, h, ap (length {0}) e)
  Step-room p q (finish before behind job e) h =
      omega (arith, h, ap (length {0}) (answer-jobs (before ++ behind) (result job) p))
  Step-room p q (close e c) h = h
  Step-room p q (leave idle c e i) h = h

  Reachable-room : (paths : List Bytes) (p : Pool) → Reachable result paths p → length p.jobs ≤ 4
  Reachable-room paths p start = omega arith
  Reachable-room paths p (next {p = q} r s) = Step-room q p s (Reachable-room paths q r)

  -- Whatever the replies are, a run of `updateGameData` and its workers has at most four steps for
  -- each job and five more.
  steps-bounded :
      (paths : List Bytes) (p : Pool) (r : Reachable result paths p)
      → steps r ≤ 4 * length paths + 5
  steps-bounded paths p r = omega (arith, steps-measure paths p r)

  -- In every reachable state, the channel of jobs holds at most `maxConnections` of them, and the
  -- lines and errors that were sent are together at most as many as there are files, which is the
  -- size of either channel's buffer: no worker waits to send a result.
  pub channels-bounded :
      (paths : List Bytes) (p : Pool)
      → Reachable result paths p
      → (length p.jobs ≤ max_connections) × (length p.etags + length p.errs ≤ length paths)
  channels-bounded paths p r = (Reachable-room paths p r, omega (arith, Reachable-count paths p r))
