-- ===== src/Gamedata/Save/Tally.antt =====
-- How often a line is sent: in every state of the pool, as often as its jobs say.
use rhine.Gamedata.Pool.{
  Pool, JobResult, Step, Reachable, IsFinished, answer, sends_etag, sends_error, stops, send,
  receive, finish, close, leave, start, next,
}
use mathlib.Core.Logic.{∥∥₁_elim}
use native.Mathlib.Nat.{ℕ_set}
use mathlib.Core.List.{Perm, Permᴰ}
use rhine.Gamedata.Complete.{GoesOn, finished-empty}
use rhine.Prelude.{
  refl, ◌∙◌, bytes_eq, ap, [], ◌+◌, if◌then◌else◌, ◌∷◌, arith, ◌++◌, List, ℕ, ◌≡◌, Bytes,
}

-- Whether a line is this one, as a number.
unfoldable pub hit : Bytes → Bytes → ℕ
hit line l = if bytes_eq l line then 1 else 0

-- How often a line is in a list.
unfoldable pub tally : Bytes → List Bytes → ℕ
tally line [] = 0
tally line (l ∷ ls) = hit line l + tally line ls

abbrev pub sends : Bytes → JobResult → ℕ
sends line (sends_etag l) = hit line l
sends line (sends_error e) = 0
sends line (stops e) = 0

tally-append :
    (line : Bytes) (xs ys : List Bytes) → tally line (xs ++ ys) ≡ tally line xs + tally line ys
unfolding tally
tally-append line [] ys = omega arith
tally-append line (x ∷ xs) ys = omega (arith, tally-append line xs ys)

tally-Permᴰ : (line : Bytes) (xs ys : List Bytes) → Permᴰ xs ys → tally line xs ≡ tally line ys
unfolding tally
tally-Permᴰ line _ _ Permᴰ.nil = refl
tally-Permᴰ line _ _ (Permᴰ.cons {l₁ = xs} {l₂ = ys} e d) =
    omega (arith, ap (hit line) e, tally-Permᴰ line xs ys d)
tally-Permᴰ line _ _ (Permᴰ.swap e e') = omega (arith, ap (hit line) e, ap (hit line) e')
tally-Permᴰ line xs zs (Permᴰ.trans {l₂ = ys} d d') =
    tally-Permᴰ line xs ys d ∙ tally-Permᴰ line ys zs d'

pub tally-Perm : (line : Bytes) (xs ys : List Bytes) → Perm xs ys → tally line xs ≡ tally line ys
tally-Perm line xs ys p = ∥∥₁_elim p (ℕ_set _ _) (tally-Permᴰ line xs ys)

module _ (result : Bytes → JobResult) where
  -- How often the jobs send a line.
  unfoldable pub weigh : Bytes → List Bytes → ℕ
  weigh line [] = 0
  weigh line (job ∷ jobs) = sends line (result job) + weigh line jobs

  weigh-append :
      (line : Bytes) (xs ys : List Bytes) → weigh line (xs ++ ys) ≡ weigh line xs + weigh line ys
  unfolding weigh
  weigh-append line [] ys = omega arith
  weigh-append line (x ∷ xs) ys = omega (arith, weigh-append line xs ys)

  -- The lines that are sent, and those of the jobs that are not done.
  total : Bytes → Pool → ℕ
  total line p = tally line p.etags + weigh line p.busy + weigh line p.jobs + weigh line p.to_send

  answer-total :
      (line : Bytes) (before behind : List Bytes) (job : Bytes) (r : JobResult) (p : Pool)
      → result job ≡ r
      → p.busy ≡ before ++ job ∷ behind
      → total line (answer (before ++ behind) r p) ≡ total line p
  unfolding total weigh tally
  answer-total line before behind job (sends_etag l) p s e = omega (
    arith,
    weigh-append line before behind,
    weigh-append line before (job ∷ behind),
    ap (weigh line) e,
    ap (sends line) s,
    tally-append line p.etags (l ∷ []),
  )
  answer-total line before behind job (sends_error x) p s e = omega (
    arith,
    weigh-append line before behind,
    weigh-append line before (job ∷ behind),
    ap (weigh line) e,
    ap (sends line) s,
  )
  answer-total line before behind job (stops x) p s e = omega (
    arith,
    weigh-append line before behind,
    weigh-append line before (job ∷ behind),
    ap (weigh line) e,
    ap (sends line) s,
  )

  Step-total : (line : Bytes) (p q : Pool) → Step result p q → total line q ≡ total line p
  unfolding total weigh
  Step-total line p q (send job rest e l) =
      omega (arith, ap (weigh line) e, weigh-append line p.jobs (job ∷ []))
  Step-total line p q (receive job rest idle e i) = omega (arith, ap (weigh line) e)
  Step-total line p q (finish before behind job e) =
      answer-total line before behind job (result job) p refl e
  Step-total line p q (close e c) = refl
  Step-total line p q (leave idle c e i) = refl

  Reachable-total :
      (line : Bytes) (paths : List Bytes) (p : Pool)
      → Reachable result paths p
      → total line p ≡ weigh line paths
  unfolding total tally weigh
  Reachable-total line paths p start = omega arith
  Reachable-total line paths p (next {p = q} r s) =
      Step-total line q p s ∙ Reachable-total line paths q r

  -- When the workers are gone, each line was sent as often as the jobs say.
  pub finished-tally :
      (line : Bytes) (paths : List Bytes) (p : Pool)
      → ((job : Bytes) → GoesOn (result job))
      → Reachable result paths p
      → IsFinished p
      → tally line p.etags ≡ weigh line paths
  unfolding total weigh
  finished-tally line paths p goes_on r (closed, (idle, busy)) =
      let (sent, done) = finished-empty result goes_on paths p r (closed, (idle, busy)) in
      omega (
        arith,
        Reachable-total line paths p r,
        ap (weigh line) busy,
        ap (weigh line) sent,
        ap (weigh line) done,
      )
