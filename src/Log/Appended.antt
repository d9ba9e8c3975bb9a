-- ===== src/Log/Appended.antt =====
-- Lines that are appended to the two loggers of a log.
use mathlib.Core.Option
use rhine.Log.Output.{
  Logger, Log, write_to, Entry, full, short, with_file, with_std_out, output, output_std_out,
}
use rhine.Prelude.{List, [], ◌∷◌, ◌++◌, Bytes, true, Option, none, some, ◌≡◌, refl, ap, ◌∙◌}
use mathlib.Core.List.{append-nil, append_assoc}

-- Every line can be written.
abbrev pub TakesAll : Option Logger → Type 0
TakesAll none = Unit
TakesAll (some logger) = (line : Bytes) → logger.accepts line ≡ true

abbrev pub appended : List Bytes → Option Logger → Option Logger
appended lines none = none
appended lines (some logger) = some (record logger { lines = logger.lines ++ lines })

abbrev pub log_with : List Bytes → List Bytes → Log → Log
log_with file std_out log = record log {
  file_logger = appended file log.file_logger;
  std_out_logger = appended std_out log.std_out_logger;
}

write_to-appended :
    (line : Bytes) (logger : Option Logger)
    → TakesAll logger
    → write_to line logger ≡ some (appended (line ∷ []) logger)
write_to-appended line none t = refl
write_to-appended line (some logger) t = rw (t line) refl

appended-append :
    (xs ys : List Bytes) (logger : Option Logger)
    → appended ys (appended xs logger) ≡ appended (xs ++ ys) logger
appended-append xs ys none = refl
appended-append xs ys (some logger) =
    ap (λ lines. some (record logger { lines = lines })) (append_assoc logger.lines xs ys)

appended-nil : (logger : Option Logger) → appended [] logger ≡ logger
appended-nil none = refl
appended-nil (some logger) =
    ap (λ lines. some (record logger { lines = lines })) (append-nil logger.lines)

pub appended-TakesAll :
    (xs : List Bytes) (logger : Option Logger) → TakesAll logger → TakesAll (appended xs logger)
appended-TakesAll xs none t = tt
appended-TakesAll xs (some logger) t = t

pub output-writes :
    (e : Entry) (log : Log)
    → TakesAll log.file_logger
    → TakesAll log.std_out_logger
    → output e (some log) ≡ some (some (log_with (full e ∷ []) (short e ∷ []) log))
unfolding output
output-writes e log f s =
    ap (λ w. Option.map some (output_std_out e (with_file log w)))
      (write_to-appended (full e) log.file_logger f)
    ∙ ap
        (λ w.
          Option.map some
            (with_std_out (record log { file_logger = appended (full e ∷ []) log.file_logger }) w))
        (write_to-appended (short e) log.std_out_logger s)

pub log_with-nil : (log : Log) → log_with [] [] log ≡ log
log_with-nil log =
    ap (λ f. record log { file_logger = f; std_out_logger = appended [] log.std_out_logger })
      (appended-nil log.file_logger)
    ∙ ap (λ s. record log { std_out_logger = s }) (appended-nil log.std_out_logger)

pub log_with-append :
    (fs ss fs' ss' : List Bytes) (log : Log)
    → log_with fs' ss' (log_with fs ss log) ≡ log_with (fs ++ fs') (ss ++ ss') log
log_with-append fs ss fs' ss' log =
    ap
      (λ f. record log {
        file_logger = f;
        std_out_logger = appended ss' (appended ss log.std_out_logger);
      })
      (appended-append fs fs' log.file_logger)
    ∙ ap
        (λ s. record log { file_logger = appended (fs ++ fs') log.file_logger; std_out_logger = s })
        (appended-append ss ss' log.std_out_logger)
