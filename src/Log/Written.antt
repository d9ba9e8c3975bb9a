-- ===== src/Log/Written.antt =====
-- What calls of a logger write.
use rhine.Log.Appended.{
  TakesAll, log_with, output-writes, appended-TakesAll, log_with-nil, log_with-append,
}
use rhine.Log.Output.{
  println, warnln, warnf, printf, verboseln, verbosef, Log, truncate, full, short, output, Call,
  is_verbose, entry_of, run_call, run_calls, then_calls,
}
use rhine.Prelude.{
  ◌<◌, List, [], ◌∷◌, ◌++◌, Bytes, Bool, true, false, some, if◌then◌else◌, ltb, length, take, codes,
  ◌≡◌, refl, ap, sym, ◌∙◌, map, not, ◌&&◌, ◌≤◌, Bool-cases, inl, inr, arith,
}
use mathlib.Core.Path.{subst}

-- The methods that write only if the log is verbose.
abbrev pub asks_verbose : Call → Bool
asks_verbose (verboseln text) = true
asks_verbose (verbosef text) = true
asks_verbose (printf text) = false
asks_verbose (println text) = false
asks_verbose (warnf text) = false
asks_verbose (warnln text) = false

is_verbose-asks : (call : Call) → is_verbose call ≡ asks_verbose call
is_verbose-asks (verboseln text) = refl
is_verbose-asks (verbosef text) = refl
is_verbose-asks (printf text) = refl
is_verbose-asks (println text) = refl
is_verbose-asks (warnf text) = refl
is_verbose-asks (warnln text) = refl

-- The calls that write.
abbrev pub shown : Bool → List Call → List Call
shown verbose [] = []
shown verbose (call ∷ calls) =
    if asks_verbose call && not verbose then shown verbose calls else call ∷ shown verbose calls

-- What a line of stdout has of a text: the whole text, if it has at most 403 bytes, or its first
-- 400 bytes and three dots.
pub data Printed (text : Bytes) : Bytes → Type 0 where
  whole : length text ≤ 403 → Printed text text
  cut : 403 < length text → Printed text (take 400 text ++ codes "...")

truncate-Printed : (text : Bytes) → Printed text (truncate text)
unfolding truncate
truncate-Printed text = elim (Bool-cases (ltb 403 (length text))) [
  | inl e ↦ let l : 403 < length text = ground (arith, e) in rw e (cut l)
  | inr e ↦ let n : length text ≤ 403 = ground (arith, e) in rw e (whole n)
]

map-shown :
    (line : Call → Bytes) (hidden : Bool) (call : Call) (calls : List Call)
    → map line (if hidden then [] else call ∷ []) ++ map line calls
      ≡ map line (if hidden then calls else call ∷ calls)
map-shown line true call calls = refl
map-shown line false call calls = refl

-- The prefix, by the method, and the text of a call.
abbrev pub prefix_of : Call → Bytes
prefix_of (verbosef text) = codes "VERB "
prefix_of (warnf text) = codes "WARN "
prefix_of (warnln text) = codes "WARN "
prefix_of _ = codes "INFO "

abbrev pub text_of : Call → Bytes
text_of (verboseln text) = text
text_of (verbosef text) = text
text_of (printf text) = text
text_of (println text) = text
text_of (warnf text) = text
text_of (warnln text) = text

module _ (blue green red : Bytes → Bytes) where
  -- The colour of a prefix, by the method.
  abbrev pub color_of : Call → Bytes → Bytes
  color_of (verboseln text) = blue
  color_of (verbosef text) = blue
  color_of (warnf text) = red
  color_of (warnln text) = red
  color_of _ = green

  -- A line of stdout for each call.
  pub data AreLines : List Call → List Bytes → Type 0 where
    no_lines : AreLines [] []
    line :
        {calls : List Call} {lines : List Bytes} {printed : Bytes} (call : Call)
        → Printed (text_of call) printed
        → AreLines calls lines
        → AreLines (call ∷ calls) ((color_of call (prefix_of call) ++ printed) ∷ lines)

  abbrev full_of : Call → Bytes
  full_of call = full (entry_of blue green red call)

  abbrev short_of : Call → Bytes
  short_of call = short (entry_of blue green red call)

  -- The log behind some calls.
  abbrev written : List Call → Log → Log
  written calls log =
      log_with (map full_of (shown log.verbose calls)) (map short_of (shown log.verbose calls)) log

  run_call-writes :
      (call : Call) (log : Log)
      → TakesAll log.file_logger
      → TakesAll log.std_out_logger
      → run_call blue green red call (some log) ≡ some (some (written (call ∷ []) log))
  unfolding run_call
  run_call-writes call log f s = rw (is_verbose-asks call) (by (asks_verbose call) log.verbose)
    where
      by :
          (b v : Bool)
          → (if b
              then (if v then output (entry_of blue green red call) (some log) else some (some log))
              else output (entry_of blue green red call) (some log))
            ≡ some (
                some (
                  log_with
                    (map full_of (if b && not v then [] else call ∷ []))
                    (map short_of (if b && not v then [] else call ∷ []))
                    log))
      by true true = output-writes (entry_of blue green red call) log f s
      by true false = ap (λ l. some (some l)) (sym (log_with-nil log))
      by false v = output-writes (entry_of blue green red call) log f s

  written-cons :
      (call : Call) (calls : List Call) (log : Log)
      → written calls (written (call ∷ []) log) ≡ written (call ∷ calls) log
  written-cons call calls log =
      let hidden = asks_verbose call && not log.verbose in
      let first = shown log.verbose (call ∷ []) in
      let rest = shown log.verbose calls in
      log_with-append (map full_of first) (map short_of first) (map full_of rest)
        (map short_of rest) log
      ∙ ap (λ fs. log_with fs (map short_of first ++ map short_of rest) log)
          (map-shown full_of hidden call rest)
      ∙ ap (λ ss. log_with (map full_of (shown log.verbose (call ∷ calls))) ss log)
          (map-shown short_of hidden call rest)

  calls-written :
      (calls : List Call) (log : Log)
      → TakesAll log.file_logger
      → TakesAll log.std_out_logger
      → run_calls blue green red calls (some log) ≡ some (some (written calls log))
  unfolding run_calls
  calls-written [] log f s = ap (λ l. some (some l)) (sym (log_with-nil log))
  calls-written (call ∷ calls) log f s =
      let first = shown log.verbose (call ∷ []) in
      ap (λ r. then_calls r (run_calls blue green red calls)) (run_call-writes call log f s)
      ∙ calls-written calls (written (call ∷ []) log)
          (appended-TakesAll (map full_of first) log.file_logger f)
          (appended-TakesAll (map short_of first) log.std_out_logger s)
      ∙ ap (λ l. some (some l)) (written-cons call calls log)

  full_of-prefix_of : (call : Call) → full_of call ≡ prefix_of call ++ text_of call
  full_of-prefix_of (verboseln text) = refl
  full_of-prefix_of (verbosef text) = refl
  full_of-prefix_of (printf text) = refl
  full_of-prefix_of (println text) = refl
  full_of-prefix_of (warnf text) = refl
  full_of-prefix_of (warnln text) = refl

  full_lines :
      (calls : List Call) → map full_of calls ≡ map (λ call. prefix_of call ++ text_of call) calls
  full_lines [] = refl
  full_lines (call ∷ calls) =
      ap (λ l. l ∷ map full_of calls) (full_of-prefix_of call)
      ∙ ap (λ ls. (prefix_of call ++ text_of call) ∷ ls) (full_lines calls)

  short_of-truncate :
      (call : Call) → short_of call ≡ color_of call (prefix_of call) ++ truncate (text_of call)
  unfolding short
  short_of-truncate (verboseln text) = refl
  short_of-truncate (verbosef text) = refl
  short_of-truncate (printf text) = refl
  short_of-truncate (println text) = refl
  short_of-truncate (warnf text) = refl
  short_of-truncate (warnln text) = refl

  short-AreLines : (calls : List Call) → AreLines calls (map short_of calls)
  short-AreLines [] = no_lines
  short-AreLines (call ∷ calls) =
      subst (λ l. AreLines (call ∷ calls) (l ∷ map short_of calls)) (sym (short_of-truncate call))
        (line call (truncate-Printed (text_of call)) (short-AreLines calls))

  -- If every line can be written, then calls of the log in a row do not panic. The file gets one
  -- line for each call, in order: the prefix of the method and the text. Stdout gets one too: the
  -- prefix in the colour of the method, and the text, of which no more than the first 400 bytes and
  -- three dots if it has more than 403. The verbose calls write neither unless the log is verbose.
  -- Nothing else of the log changes.
  pub run_calls-writes :
      (calls : List Call) (log : Log)
      → TakesAll log.file_logger
      → TakesAll log.std_out_logger
      → (std_out : List Bytes) × (AreLines (shown log.verbose calls) std_out)
        × (run_calls blue green red calls (some log)
            ≡ some (
                some (
                  log_with
                    (map (λ call. prefix_of call ++ text_of call) (shown log.verbose calls))
                    std_out
                    log)))
  run_calls-writes calls log f s = (
    map short_of (shown log.verbose calls),
    short-AreLines (shown log.verbose calls),
    calls-written calls log f s
        ∙ ap (λ fs. some (some (log_with fs (map short_of (shown log.verbose calls)) log)))
            (full_lines (shown log.verbose calls)),
  )
