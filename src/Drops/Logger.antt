-- ===== src/Drops/Logger.antt =====
-- The drop logger (mods/droplogger/dropLogger.go, dropLogger_json.go).
use mathlib.Core.Option
use rhine.Prelude.{
  true, ◌++◌, not, negsuc, none, ◌^◌, some, ◌&&◌, false, pos, ◌∷◌, Bool, ℤ, Option, ◌||◌, [], Bytes,
  ℕ, List, bytes_eq, codes, if◌then◌else◌, ltb, ◌==◌,
}

pub record Reward : Type 0 where
  pub id : Bytes
  pub count : ℤ
  pub kind : Bytes

-- `battleFinish`, the fields that are read. The scale is the bit pattern of a float64.
pub record BattleFinish : Type 0 where
  pub exp_scale : ℕ
  pub rewards : List Reward
  pub unusual_rewards : List Reward
  pub additional_rewards : List Reward
  pub furniture_rewards : List Reward

-- The entry of the log, without its time.
pub record LogEntry : Type 0 where
  pub rating : Bool
  pub rewards : List Reward

-- What a goroutine writes: an entry into the file, or, to the proxy's log, the code of the stage, the
-- drops by their names, without the time that the battle took.
pub data Line : Type 0 where
  file_line : LogEntry → Line
  report : Bytes → List (Bytes × ℤ) → Line

-- `modState`: whether the file of the entries is open, whether a start time is set, and the tables, nil before the first battle starts. A
-- table gives the name of an item and the code of a stage, the empty text if it has none.
pub record ModState : Type 0 where
  pub file_open : Bool
  pub curr_stage : Bytes
  pub has_start : Bool
  pub is_practice : Bool
  pub item_table : Option (Bytes → Bytes)
  pub stage_table : Option (Bytes → Bytes)

-- The request of a battle's start: `usePracticeTicket` and `stageId`.
pub record BattleStart : Type 0 where
  pub practice : Bool
  pub stage_id : Bytes

-- Behind `initFunc`, which closes the file as it returns.
abbrev pub new_state : ModState
new_state = record {
  file_open = false;
  curr_stage = [];
  has_start = false;
  is_practice = false;
  item_table = none;
  stage_table = none;
}

-- `== 0` and `== 1.2` on a float64.
abbrev pub is_zero : ℕ → Bool
is_zero scale = scale == 0 || scale == 2 ^ 63

abbrev pub is_three_stars : ℕ → Bool
is_three_stars scale = scale == 4608083138725491507

abbrev pub is_positive : ℤ → Bool
is_positive (pos n) = ltb 0 n
is_positive (negsuc n) = false

-- `x.Count > 0 && x.ID != "4001"`.
unfoldable pub is_wanted : Reward → Bool
is_wanted x = is_positive x.count && not (bytes_eq x.id (codes "4001"))

-- The inner and the outer loop that collect the rewards.
unfoldable pub append_wanted : List Reward → List Reward → List Reward
append_wanted out [] = out
append_wanted out (x ∷ xs) = append_wanted (if is_wanted x then out ++ x ∷ [] else out) xs

unfoldable pub append_each : List Reward → List (List Reward) → List Reward
unfolding append_wanted
append_each out [] = out
append_each out (xs ∷ xss) = append_each (append_wanted out xs) xss

unfoldable pub collect : BattleFinish → List Reward
unfolding append_each
collect b =
    append_each [] (b.rewards ∷ b.unusual_rewards ∷ b.additional_rewards ∷ b.furniture_rewards ∷ [])

-- What a goroutine did: the lines that it wrote, and the state, or a nil pointer.
pub data Ran : Type 0 where
  done : List Line → ModState → Ran
  crashed : List Line → Ran

-- `logDrops`: `Println` gives no error of the file, and nothing reaches one that is closed.
unfoldable pub log_drops : ModState → LogEntry → List Line
log_drops s entry = if s.file_open then file_line entry ∷ [] else []

-- The loop that writes the names reads the table at each reward that it writes.
unfoldable pub names : Option (Bytes → Bytes) → List Reward → Option (List (Bytes × ℤ))
names table [] = some []
names table (x ∷ xs) =
    let rest = names table xs in
    if is_positive x.count
    then elim table [ none ↦ none | some name ↦ Option.map (λ r. (name x.id, x.count) ∷ r) rest ]
    else rest

-- `Printf` at the end, which reads the table of stages and the start time.
abbrev pub printed : Option (Bytes → Bytes) → Bool → List (Bytes × ℤ) → ModState → List Line → Ran
printed none has_start drops s lines = crashed lines
printed (some code) true drops s lines = done (lines ++ report (code s.curr_stage) drops ∷ []) s
printed (some code) false drops s lines = crashed lines

abbrev pub write_drops : ModState → LogEntry → Option (List (Bytes × ℤ)) → Ran
write_drops s entry none = crashed []
write_drops s entry (some drops) = printed s.stage_table s.has_start drops s (log_drops s entry)

-- `battleFinish`, with the lock; the packet is decoded.
unfoldable pub battle_finish : BattleFinish → ModState → Ran
unfolding collect names log_drops
battle_finish b s =
    if s.is_practice || is_zero b.exp_scale
    then done [] s
    else write_drops s (record { rating = is_three_stars b.exp_scale; rewards = collect b })
        (names s.item_table (collect b))

abbrev pub Table : Type 0
Table = Bytes → Bytes

-- The tables behind the test for nil: those that are there, or those that `GetStageInfo` and
-- `GetItemInfo` give, with `none` for their panic.
abbrev pub both : Option Table → Option Table → Option (Table × Table)
both (some stages) (some items) = some (stages, items)
both (some stages) none = none
both none items = none

abbrev pub tables :
    Option Table → Option Table → Option Table → Option Table → Option (Table × Table)
tables stages items (some st) (some it) = some (st, it)
tables stages items (some st) none = both stages items
tables stages items none it = both stages items

abbrev pub started : BattleStart → ModState → Option (Table × Table) → Ran
started b s none = crashed []
started b s (some (stages, items)) = done [] (record {
  file_open = s.file_open;
  curr_stage = b.stage_id;
  has_start = true;
  is_practice = b.practice;
  item_table = some items;
  stage_table = some stages;
})

-- `battleStartHandler` and `battleStartRoutine`.
unfoldable pub battle_start : Option Table → Option Table → BattleStart → ModState → Ran
battle_start stages items b s = started b s (tables stages items s.stage_table s.item_table)

-- The packets of one user, and what the tables give at each start.
pub data Event : Type 0 where
  start_event : Option Table → Option Table → BattleStart → Event
  finish_event : BattleFinish → Event

unfoldable pub handle : Event → ModState → Ran
unfolding battle_start battle_finish
handle (start_event stages items b) s = battle_start stages items b s
handle (finish_event b) s = battle_finish b s

-- A crash ends the program, and with it the run.
abbrev pub behind_lines : List Line → Ran → Ran
behind_lines lines (done more s) = done (lines ++ more) s
behind_lines lines (crashed more) = crashed (lines ++ more)

abbrev pub then_run : Ran → (ModState → Ran) → Ran
then_run (crashed lines) rest = crashed lines
then_run (done lines s) rest = behind_lines lines (rest s)

unfoldable pub run : List Event → ModState → Ran
unfolding handle
run [] s = done [] s
run (e ∷ es) s = then_run (handle e s) (λ s'. run es s')
