-- ===== src/Drops/Tests.antt =====
use rhine.Drops.Logger.{
  start_event, new_state, finish_event, Line, report, run, BattleStart, Table, BattleFinish,
}
use rhine.Drops.Runs.{run_start-IsReported, run_finish-IsCrashed, IsReported, reports_of, IsCrashed}
use rhine.Drops.Select.{wanted}
use rhine.Prelude.{some, refl, negsuc, ◌≡◌, [], ◌∷◌, pos, bytes_eq, codes, false}

-- The theorems on the drop logger at small battles.
abbrev table : Table
table id = id

abbrev practice_off : BattleStart
practice_off = record { practice = false; stage_id = codes "main_01-07" }

-- Three stars, with gold, an item, and an item with no count.
abbrev battle : BattleFinish
battle = record {
  exp_scale = 4608083138725491507;
  rewards =
      record { id = codes "4001"; count = pos 90; kind = codes "GOLD" }
      ∷ record { id = codes "30012"; count = pos 2; kind = codes "MATERIAL" }
      ∷ [];
  unusual_rewards = record { id = codes "30013"; count = negsuc 0; kind = codes "MATERIAL" } ∷ [];
  additional_rewards = [];
  furniture_rewards = [];
}

abbrev kept : Line
kept = report (codes "main_01-07") ((codes "30012", pos 2) ∷ [])

kept_only : reports_of table table (codes "main_01-07") false (finish_event battle ∷ []) ≡ kept ∷ []
unfolding reports_of wanted bytes_eq
kept_only = refl

run_start-IsReported_example :
    IsReported table table
      (reports_of table table (codes "main_01-07") false (finish_event battle ∷ []))
      (run
        (start_event (some table) (some table) practice_off ∷ finish_event battle ∷ [])
        new_state)
run_start-IsReported_example =
    run_start-IsReported table table practice_off (finish_event battle ∷ [])

run_finish-IsCrashed_example : IsCrashed (run (finish_event battle ∷ []) new_state)
run_finish-IsCrashed_example = run_finish-IsCrashed battle [] refl
