-- ===== src/Gamedata/Tests.antt =====
-- The theorems on the game data at small inputs.
use rhine.Gamedata.Pool.{
  Step, version_line, saved, max_connections, JobResult, Fetched, IsFinished, Pool, start_pool,
  start, next, send, receive, Reachable, response, get_and_update,
}
use rhine.Prelude.{
  false, ◌⊎◌, refl, none, arith, ◌≡◌, ◌∷◌, ◌+◌, codes, ◌≤◌, ℕ, [], List, drop, length, Bytes,
}
use rhine.Gamedata.Tables.{Tables}
use rhine.Gamedata.Version.{VerMap}
use rhine.Gamedata.Progress.{channels-bounded}
use rhine.Gamedata.Deadlock.{other, update_never_IsFinished, IsUnexpected}
use rhine.Gamedata.Complete.{pool-moves, etag_sent, GoesOn}

abbrev paths : List Bytes
paths =
    codes "en_US/gamedata/excel/stage_table.json"
    ∷ codes "b"
    ∷ codes "c"
    ∷ codes "d"
    ∷ codes "e"
    ∷ codes "f"
    ∷ codes "g"
    ∷ codes "h"
    ∷ codes "i"
    ∷ []

abbrev no_etags : VerMap
no_etags path = []

-- Every request is refused, and every file is new.
abbrev refused : Bytes → Fetched
refused path = response 429 [] saved

abbrev fresh : Bytes → Fetched
fresh path = response 200 (codes "W/\"1\"") saved

abbrev result_of : (Bytes → Fetched) → Bytes → JobResult
result_of fetch path = get_and_update path (no_etags path) (fetch path)

-- One job was sent, and one worker has it.
abbrev one_busy : Pool
one_busy = record (start_pool paths) {
  to_send = drop 1 paths;
  idle = 3;
  busy = codes "en_US/gamedata/excel/stage_table.json" ∷ [];
}

one_busy-Reachable : (result : Bytes → JobResult) → Reachable result paths one_busy
one_busy-Reachable result =
    next
      (next start
        (send (codes "en_US/gamedata/excel/stage_table.json") (drop 1 paths) refl (omega arith)))
      (receive (codes "en_US/gamedata/excel/stage_table.json") [] 3 refl refl)

refused-IsUnexpected : (path : Bytes) → IsUnexpected (refused path)
refused-IsUnexpected path = other 429 [] saved (omega arith) (omega arith)

fresh-GoesOn : (path : Bytes) → GoesOn (result_of fresh path)
unfolding get_and_update
fresh-GoesOn path = etag_sent (version_line path (codes "W/\"1\""))

update_never_IsFinished_example : ¬ IsFinished one_busy
update_never_IsFinished_example =
    update_never_IsFinished no_etags refused paths one_busy refused-IsUnexpected (omega arith)
      (one_busy-Reachable (λ path. get_and_update path (no_etags path) (refused path)))

pool-moves_example :
    (IsFinished one_busy × (length one_busy.etags + length one_busy.errs ≡ length paths))
    ⊎ ((q : Pool) × Step (result_of fresh) one_busy q)
pool-moves_example =
    pool-moves (result_of fresh) fresh-GoesOn paths one_busy (one_busy-Reachable (result_of fresh))

channels-bounded_example :
    (length one_busy.jobs ≤ max_connections)
    × (length one_busy.etags + length one_busy.errs ≤ length paths)
channels-bounded_example =
    channels-bounded (result_of fresh) paths one_busy (one_busy-Reachable (result_of fresh))

-- Both tables of a region that the file has.
abbrev no_tables : Tables ℕ ℕ
no_tables = record {
  stage_tables = λ region. none;
  item_tables = λ region. none;
  file_locked = false;
  updated = false;
  updates = 0;
}
