-- ===== src/Log/Output.antt =====
-- `Log` and its methods (log/log.go), with fmt and the colours of aurora as parameters.
use mathlib.Core.Option
use rhine.Prelude.{
  List, [], ◌∷◌, ◌++◌, Bytes, Bool, true, false, Option, none, some, if◌then◌else◌, ltb, length,
  take, codes, bytes_eq, ◌==◌,
}

-- log.Logger of the standard library: the lines that it has written, and which it can write.
pub record Logger : Type 0 where
  pub lines : List Bytes
  pub accepts : Bytes → Bool

pub record Log : Type 0 where
  pub file_logger : Option Logger
  pub std_out_logger : Option Logger
  pub verbose : Bool

-- `Output`, whose error `utils.Check` turns into a panic, which is `none`.
abbrev pub write : Bytes → Logger → Option Logger
write line logger =
    if logger.accepts line then some (record logger { lines = logger.lines ++ line ∷ [] }) else none

-- A logger that is not set writes nothing.
abbrev pub write_to : Bytes → Option Logger → Option (Option Logger)
write_to line none = some none
write_to line (some logger) = Option.map some (write line logger)

-- What of a text is printed to stdout.
unfoldable pub truncate : Bytes → Bytes
truncate text = if ltb 403 (length text) then take 400 text ++ codes "..." else text

-- The colour, the prefix and the text of an entry; the text is formatted.
pub record Entry : Type 0 where
  pub color : Bytes → Bytes
  pub prefix : Bytes
  pub text : Bytes

abbrev pub full : Entry → Bytes
full e = e.prefix ++ e.text

unfoldable pub short : Entry → Bytes
unfolding truncate
short e = e.color e.prefix ++ truncate e.text

abbrev pub with_file : Log → Option (Option Logger) → Option Log
with_file log none = none
with_file log (some file) = some (record log { file_logger = file })

abbrev pub with_std_out : Log → Option (Option Logger) → Option Log
with_std_out log none = none
with_std_out log (some std_out) = some (record log { std_out_logger = std_out })

abbrev pub output_std_out : Entry → Option Log → Option Log
output_std_out e none = none
output_std_out e (some log) = with_std_out log (write_to (short e) log.std_out_logger)

-- `output` on a receiver that may be nil: the file first, then stdout.
unfoldable pub output : Entry → Option Log → Option (Option Log)
output e none = some none
output e (some log) =
    Option.map some (output_std_out e (with_file log (write_to (full e) log.file_logger)))

-- The calls of a logger, with their texts.
pub data Call : Type 0 where
  verboseln : Bytes → Call
  verbosef : Bytes → Call
  printf : Bytes → Call
  println : Bytes → Call
  warnf : Bytes → Call
  warnln : Bytes → Call

abbrev pub is_verbose : Call → Bool
is_verbose (verboseln _) = true
is_verbose (verbosef _) = true
is_verbose _ = false

abbrev pub then_calls :
    Option (Option Log) → (Option Log → Option (Option Log)) → Option (Option Log)
then_calls none rest = none
then_calls (some log) rest = rest log

module _ (blue green red : Bytes → Bytes) where
  abbrev pub entry_of : Call → Entry
  entry_of (verboseln text) = record { color = blue; prefix = codes "INFO "; text = text }
  entry_of (verbosef text) = record { color = blue; prefix = codes "VERB "; text = text }
  entry_of (printf text) = record { color = green; prefix = codes "INFO "; text = text }
  entry_of (println text) = record { color = green; prefix = codes "INFO "; text = text }
  entry_of (warnf text) = record { color = red; prefix = codes "WARN "; text = text }
  entry_of (warnln text) = record { color = red; prefix = codes "WARN "; text = text }

  -- The verbose methods read a field of the receiver before `output` tests it for nil.
  abbrev pub run_verbose : Entry → Option Log → Option (Option Log)
  run_verbose e none = none
  run_verbose e (some log) = if log.verbose then output e (some log) else some (some log)

  unfoldable pub run_call : Call → Option Log → Option (Option Log)
  unfolding output
  run_call call log =
      if is_verbose call then run_verbose (entry_of call) log else output (entry_of call) log

  unfoldable pub run_calls : List Call → Option Log → Option (Option Log)
  unfolding run_call
  run_calls [] log = some log
  run_calls (call ∷ calls) log = then_calls (run_call call log) (run_calls calls)

-- `New`: the file that it creates, and the log, whose writers take what they take.
abbrev pub is_abs : Bytes → Bool
is_abs [] = false
is_abs (c ∷ cs) = c == b'/'

unfoldable pub log_path : Bytes → Bytes → Option Bytes
log_path bin_dir path =
    if bytes_eq path (codes "/dev/null")
    then none
    else if bytes_eq path []
    then some (bin_dir ++ codes "/logs/proxy.log")
    else if is_abs path
    then some path
    else some (bin_dir ++ codes "/" ++ path)

abbrev pub new_logger : (Bytes → Bool) → Logger
new_logger accepts = record { lines = []; accepts = accepts }

unfoldable pub new_log : Bool → Bool → Option Bytes → (Bytes → Bytes → Bool) → (Bytes → Bool) → Log
new_log std_out verbose path file_accepts accepts = record {
  file_logger = Option.map (λ p. new_logger (file_accepts p)) path;
  std_out_logger = if std_out then some (new_logger accepts) else none;
  verbose = verbose;
}
