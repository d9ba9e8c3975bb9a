-- ===== src/Gamedata/Pool.antt =====
-- `updateGameData` and its workers `getAndUpdate` (utils/gamedata/load.go): the jobs, the channels
-- and the goroutines.
use rhine.Prelude.{
  ◌&&◌, false, ◌<◌, not, [], ◌++◌, true, Bool, ◌∷◌, ◌+◌, Bytes, ℕ, List, ◌≡◌, ◌==◌, if◌then◌else◌,
  length,
}

abbrev pub max_connections : ℕ
max_connections = 4

-- What a worker writes into the channel of errors.
pub data UpdateError : Type 0 where
  bad_request no_reply unreadable no_folder no_file not_minified : Bytes → UpdateError
  unexpected_status : ℕ → Bytes → UpdateError

-- How far the saving of a body comes.
pub data Saving : Type 0 where
  read_fails folder_fails create_fails minify_fails saved : Saving

-- What the request for a path gives: no request, no reply, or a status with the header "ETag" and
-- what becomes of the body.
pub data Fetched : Type 0 where
  no_request : Fetched
  no_response : Fetched
  response : ℕ → Bytes → Saving → Fetched

-- What a worker does behind a job: it sends a line for the version file or an error and goes on, or
-- it sends an error and returns.
pub data JobResult : Type 0 where
  sends_etag : Bytes → JobResult
  sends_error : UpdateError → JobResult
  stops : UpdateError → JobResult

-- `reqPath + " " + etag`.
abbrev pub version_line : Bytes → Bytes → Bytes
version_line path etag = path ++ (b' ' ∷ etag)

-- The rest of a round, when the status is 200.
abbrev pub save_body : Bytes → Bytes → Saving → JobResult
save_body path etag read_fails = sends_error (unreadable path)
save_body path etag folder_fails = sends_error (no_folder path)
save_body path etag create_fails = sends_error (no_file path)
save_body path etag minify_fails = sends_error (not_minified path)
save_body path etag saved = sends_etag (version_line path etag)

abbrev pub is_empty : Bytes → Bool
is_empty [] = true
is_empty (_ ∷ _) = false

-- One round of `getAndUpdate`: `etag` is the entry of the version map, empty if there is none.
unfoldable pub get_and_update : Bytes → Bytes → Fetched → JobResult
get_and_update path etag no_request = sends_error (bad_request path)
get_and_update path etag no_response = sends_error (no_reply path)
get_and_update path etag (response status header saving) =
    if not (is_empty etag) && status == 304
    then sends_etag (version_line path etag)
    else if status == 200
    then save_body path header saving
    else stops (unexpected_status status path)

-- The goroutines: `to_send` are the jobs that `updateGameData` has not sent, `jobs` is the buffered
-- channel and `closed` whether it is closed, `idle` counts the workers that wait for a job, and
-- `busy` are the jobs that the others work on.
pub record Pool : Type 0 where
  pub to_send : List Bytes
  pub jobs : List Bytes
  pub closed : Bool
  pub idle : ℕ
  pub busy : List Bytes
  pub etags : List Bytes
  pub errs : List UpdateError

abbrev pub start_pool : List Bytes → Pool
start_pool paths = record {
  to_send = paths;
  jobs = [];
  closed = false;
  idle = max_connections;
  busy = [];
  etags = [];
  errs = [];
}

-- A worker sends its result; it waits for the next job, or is gone.
abbrev pub answer : List Bytes → JobResult → Pool → Pool
answer busy (sends_etag line) p = record p {
  busy = busy;
  idle = p.idle + 1;
  etags = p.etags ++ line ∷ [];
}
answer busy (sends_error e) p = record p { busy = busy; idle = p.idle + 1; errs = p.errs ++ e ∷ [] }
answer busy (stops e) p = record p { busy = busy; errs = p.errs ++ e ∷ [] }

-- `wg.Wait` returns.
abbrev pub IsFinished : Pool → Type 0
IsFinished p = (p.closed ≡ true) × ((p.idle ≡ 0) × (p.busy ≡ []))

module _ (result : Bytes → JobResult) where
  -- One step of one goroutine.
  pub data Step (p : Pool) : Pool → Type 0 where
    send :
        (job : Bytes) (rest : List Bytes)
        → p.to_send ≡ job ∷ rest
        → length p.jobs < max_connections
        → Step p (record p { to_send = rest; jobs = p.jobs ++ job ∷ [] })
    receive :
        (job : Bytes) (rest : List Bytes) (idle : ℕ)
        → p.jobs ≡ job ∷ rest
        → p.idle ≡ idle + 1
        → Step p (record p { jobs = rest; idle = idle; busy = job ∷ p.busy })
    finish :
        (before behind : List Bytes) (job : Bytes)
        → p.busy ≡ before ++ job ∷ behind
        → Step p (answer (before ++ behind) (result job) p)
    close : p.to_send ≡ [] → p.closed ≡ false → Step p (record p { closed = true })
    leave :
        (idle : ℕ)
        → p.closed ≡ true
        → p.jobs ≡ []
        → p.idle ≡ idle + 1
        → Step p (record p { idle = idle })

  pub data Reachable (paths : List Bytes) : Pool → Type 0 where
    start : Reachable paths (start_pool paths)
    next : {p q : Pool} → Reachable paths p → Step p q → Reachable paths q
