-- ===== src/Drops/Runs.antt =====
-- The lines of a run of battles, and the battle that has not been seen to start.
use rhine.Drops.Logger.{
  started, behind_lines, then_run, crashed, printed, tables, collect, BattleStart, write_drops,
  done, finish_event, is_zero, start_event, Reward, is_three_stars, LogEntry, Table, names,
  BattleFinish, ModState, Event, Ran, run, battle_finish, battle_start, new_state, Line, report,
  file_line, log_drops,
}
use rhine.Drops.Select.{wanted, collect-wanted, names-wanted}
use rhine.Prelude.{
  false, none, ◌∙◌, ap, Option, refl, [], ℤ, Bytes, ◌||◌, some, ◌++◌, if◌then◌else◌, true, ◌∷◌, ◌≡◌,
  List, Bool, map,
}
use mathlib.Core.Path.{ap₂}

-- The report of a battle, by the tables and the stage that runs: the code of the stage, and the
-- names and counts of its rewards.
abbrev pub report_of : Table → Table → Bytes → BattleFinish → Line
report_of items stages stage b = report (stages stage) (
    map (λ (x : Reward). (items x.id, x.count))
      (wanted (b.rewards ++ b.unusual_rewards ++ b.additional_rewards ++ b.furniture_rewards)))

-- The reports that the packets call for, by the tables, the stage that runs and whether it is for
-- practice.
unfoldable pub reports_of : Table → Table → Bytes → Bool → List Event → List Line
reports_of items stages stage practice [] = []
reports_of items stages stage practice (start_event _ _ b ∷ es) =
    reports_of items stages b.stage_id b.practice es
reports_of items stages stage practice (finish_event b ∷ es) =
    if practice || is_zero b.exp_scale
    then reports_of items stages stage practice es
    else report_of items stages stage b ∷ reports_of items stages stage practice es

-- A state behind the start of a battle, with such tables; `initFunc` has closed the file.
pub record IsReady (items stages : Table) (s : ModState) : Type 0 where
  pub is_closed : s.file_open ≡ false
  pub is_started : s.has_start ≡ true
  pub has_items : s.item_table ≡ some items
  pub has_stages : s.stage_table ≡ some stages

module _ (items stages : Table) where
  written-IsReady :
      (s : ModState) (entry : LogEntry) (xs : List Reward)
      → IsReady items stages s
      → write_drops s entry (names s.item_table (wanted xs))
        ≡ done
            (report (stages s.curr_stage) (map (λ (x : Reward). (items x.id, x.count)) (wanted xs))
              ∷ [])
            s
  unfolding log_drops
  written-IsReady s entry xs r =
      let drops = map (λ (x : Reward). (items x.id, x.count)) (wanted xs) in
      ap (λ t. write_drops s entry (names t (wanted xs))) r.has_items
      ∙ ap (write_drops s entry) (names-wanted items xs)
      ∙ ap₂ (λ t b. printed t b drops s (if s.file_open then file_line entry ∷ [] else []))
          r.has_stages r.is_started
      ∙ ap
          (λ o.
            done
              ((if o then file_line entry ∷ [] else []) ++ report (stages s.curr_stage) drops ∷ [])
              s)
          r.is_closed

  battle_finish-IsReady :
      (b : BattleFinish) (s : ModState)
      → IsReady items stages s
      → battle_finish b s ≡ (
          if s.is_practice || is_zero b.exp_scale
          then done [] s
          else done (report_of items stages s.curr_stage b ∷ []) s)
  unfolding battle_finish
  battle_finish-IsReady b s r =
      let all = b.rewards ++ b.unusual_rewards ++ b.additional_rewards ++ b.furniture_rewards in
      ap (λ d. if s.is_practice || is_zero b.exp_scale then done [] s else d)
        (ap
            (λ xs.
              write_drops s (record { rating = is_three_stars b.exp_scale; rewards = xs })
                (names s.item_table xs))
            (collect-wanted b)
          ∙ written-IsReady s (record { rating = is_three_stars b.exp_scale; rewards = wanted all })
              all r)

  started-IsReady :
      (b : BattleStart) (s : ModState)
      → s.file_open ≡ false
      → IsReady items stages (record {
        file_open = s.file_open;
        curr_stage = b.stage_id;
        has_start = true;
        is_practice = b.practice;
        item_table = some items;
        stage_table = some stages;
      })
  started-IsReady b s c = record {
    is_closed = c;
    is_started = refl;
    has_items = refl;
    has_stages = refl;
  }

  -- A run that goes through, with such lines.
  abbrev pub IsReported : List Line → Ran → Type 0
  IsReported lines r = (s : ModState) × (r ≡ done lines s)

  run-IsReported :
      (es : List Event) (s : ModState)
      → IsReady items stages s
      → IsReported (reports_of items stages s.curr_stage s.is_practice es) (run es s)
  unfolding run reports_of battle_start
  run-IsReported [] s r = (s, refl)
  run-IsReported (start_event st it b ∷ es) s r =
      let (s', e') = run-IsReported es _ (started-IsReady b s r.is_closed) in
      (
        s',
        ap (λ t. then_run (started b s t) (run es)) (ap₂ (tables st it) r.has_stages r.has_items)
            ∙ ap (behind_lines []) e',
      )
  run-IsReported (finish_event b ∷ es) s r =
      let (s', e) = run-IsReported es s r in
      (
        s',
        ap (λ q. then_run q (run es)) (battle_finish-IsReady b s r)
            ∙ by_practice (s.is_practice || is_zero b.exp_scale) s' e,
      )
    where
      by_practice :
          (c : Bool) (s' : ModState)
          → run es s ≡ done (reports_of items stages s.curr_stage s.is_practice es) s'
          → then_run
              (if c then done [] s else done (report_of items stages s.curr_stage b ∷ []) s)
              (run es)
            ≡ done
                (if c
                  then reports_of items stages s.curr_stage s.is_practice es
                  else report_of items stages s.curr_stage b
                    ∷ reports_of items stages s.curr_stage s.is_practice es)
                s'
      by_practice true s' e = ap (behind_lines []) e
      by_practice false s' e = ap (behind_lines (report_of items stages s.curr_stage b ∷ [])) e

  -- Behind the first start of a battle whose tables load, no packet crashes the program, whatever
  -- the tables give later. Each battle that ends, is not for practice and has a scale that is not
  -- zero is reported to the proxy's log, with the code of its stage and the names and counts of the
  -- rewards of its four lists in order, without the gold and those whose count is not positive. No
  -- entry reaches the file, which is closed.
  pub run_start-IsReported :
      (b : BattleStart) (es : List Event)
      → IsReported
          (reports_of items stages b.stage_id b.practice es)
          (run (start_event (some stages) (some items) b ∷ es) new_state)
  unfolding run battle_start
  run_start-IsReported b es =
      let (s', e) = run-IsReported es _ (started-IsReady b new_state refl) in
      (s', ap (behind_lines []) e)

-- A run that a nil pointer ends.
abbrev pub IsCrashed : Ran → Type 0
IsCrashed r = (lines : List Line) × (r ≡ crashed lines)

write_drops-IsCrashed :
    (entry : LogEntry) (drops : Option (List (Bytes × ℤ)))
    → IsCrashed (write_drops new_state entry drops)
write_drops-IsCrashed entry none = ([], refl)
write_drops-IsCrashed entry (some drops) = (log_drops new_state entry, refl)

-- A battle that ends before the logger has seen one start brings the program down, whatever its
-- rewards are, if its scale is not zero.
pub run_finish-IsCrashed :
    (b : BattleFinish) (es : List Event)
    → is_zero b.exp_scale ≡ false
    → IsCrashed (run (finish_event b ∷ es) new_state)
unfolding run battle_finish
run_finish-IsCrashed b es z =
    let entry : LogEntry = record { rating = is_three_stars b.exp_scale; rewards = collect b } in
    let (entries, e) = write_drops-IsCrashed entry (names none (collect b)) in
    (
      entries,
      ap
            (λ c.
              then_run
                (if c
                  then done [] new_state
                  else write_drops new_state entry (names none (collect b)))
                (run es))
            z
          ∙ ap (λ q. then_run q (run es)) e,
    )
