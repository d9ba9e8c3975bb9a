-- ===== src/Log/Tests.antt =====
-- The log at a few calls.
use rhine.Log.Output.{Log, Call, printf, verbosef, warnln, new_log, log_path, run_calls}
use rhine.Log.Appended.{log_with}
use rhine.Log.Written.{run_calls-writes, AreLines, shown}
use rhine.Prelude.{Bytes, List, [], ◌∷◌, ◌≡◌, codes, true, false, refl, some, bytes_eq, ℕ}

abbrev paint : ℕ → Bytes → Bytes
paint color prefix = color ∷ prefix

abbrev log : Log
log =
    new_log true false (log_path (codes "/opt/rhine") (codes "logs/proxy.log")) (λ path line. true)
      (λ line. true)

abbrev calls : List Call
calls = printf (codes "listening") ∷ verbosef (codes "hidden") ∷ warnln (codes "refused") ∷ []

run_calls-writes_example :
    (std_out : List Bytes) × (AreLines (paint 4) (paint 2) (paint 1) (shown false calls) std_out)
    × (run_calls (paint 4) (paint 2) (paint 1) calls (some log)
        ≡ some (some (log_with (codes "INFO listening" ∷ codes "WARN refused" ∷ []) std_out log)))
unfolding new_log log_path bytes_eq
run_calls-writes_example =
    run_calls-writes (paint 4) (paint 2) (paint 1) calls log (λ line. refl) (λ line. refl)
