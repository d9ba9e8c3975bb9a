-- ===== src/Packetlog/Logger.antt =====
-- The packet logger (mods/packetlogger/packetLogger.go) over a buffered writer.
use rhine.Prelude.{Option, none, some, List, [], ◌∷◌, ◌++◌, ◌≡◌, Bytes, codes}

-- bufio.Writer on the file of the log: what is written is in the file or in the buffer, in the
-- order of the writes, and `Flush` moves it all to the file.
pub record Buffered : Type 1 where
  pub Buffer : Type 0
  pub empty : Buffer
  pub write : Bytes → Buffer → Buffer
  pub flush : Buffer → Buffer
  pub file : Buffer → Bytes
  pub held : Buffer → Bytes
  pub file-empty : file empty ≡ []
  pub held-empty : held empty ≡ []
  pub write-keeps :
      (p : Bytes) (b : Buffer) → file (write p b) ++ held (write p b) ≡ file b ++ held b ++ p
  pub file-flush : (b : Buffer) → file (flush b) ≡ file b ++ held b
  pub held-flush : (b : Buffer) → held (flush b) ≡ []

-- `[op] data` and a line break.
abbrev pub line_of : Bytes → Bytes → Bytes
line_of op packet = codes "[" ++ op ++ codes "] " ++ packet ++ b'\n' ∷ []

-- `rawPacketLoggerState`, with the lines of the goroutines that have not begun to print, and the
-- time and the line of the one that prints, which holds the mutex of log.Logger.
pub record PacketLogger (B : Type 0) : Type 0 where
  pub buffer : B
  pub waiting : List Bytes
  pub printing : Option (Bytes × Bytes)

module _ (buf : Buffered) where
  -- `initFunc`.
  abbrev pub new_logger : PacketLogger buf.Buffer
  new_logger = record { buffer = buf.empty; waiting = []; printing = none }

  -- `handle`, which starts a goroutine and returns the packet as it is.
  unfoldable pub handle : Bytes → Bytes → PacketLogger buf.Buffer → PacketLogger buf.Buffer × Bytes
  handle op packet l = (record l { waiting = l.waiting ++ line_of op packet ∷ [] }, packet)

  -- The end of `Printf` of a goroutine, which writes the time and the line at once.
  unfoldable pub print : Bytes → Bytes → PacketLogger buf.Buffer → PacketLogger buf.Buffer
  print stamp line l = record l { buffer = buf.write (stamp ++ line) l.buffer; printing = none }

  -- `Shutdown`. `Flush` does not take the mutex: while a goroutine prints it is a data race on the
  -- writer, which is `none`.
  unfoldable pub shutdown : PacketLogger buf.Buffer → Option (PacketLogger buf.Buffer)
  shutdown l = elim l.printing [
    | none ↦ some (record l { buffer = buf.flush l.buffer })
    | some _ ↦ none
  ]

  -- The runs of a logger without a data race, by the lines of the packets that it was given and by
  -- the times and lines that the goroutines have printed. The goroutines print in any order, one at
  -- a time, and a shutdown does not wait for them.
  pub data Run : List Bytes → List (Bytes × Bytes) → PacketLogger buf.Buffer → Type 0 where
    start : Run [] [] new_logger
    packet_step :
        {given : List Bytes} {printed : List (Bytes × Bytes)} {l : PacketLogger buf.Buffer}
        (op packet : Bytes)
        → Run given printed l
        → Run (given ++ line_of op packet ∷ []) printed (handle op packet l).0
    begin_step :
        {given : List Bytes} {printed : List (Bytes × Bytes)} {l : PacketLogger buf.Buffer}
        (before behind : List Bytes) (stamp line : Bytes)
        → l.waiting ≡ before ++ line ∷ behind
        → l.printing ≡ none
        → Run given printed l
        → Run given printed (record l { waiting = before ++ behind; printing = some (stamp, line) })
    print_step :
        {given : List Bytes} {printed : List (Bytes × Bytes)} {l : PacketLogger buf.Buffer}
        (stamp line : Bytes)
        → l.printing ≡ some (stamp, line)
        → Run given printed l
        → Run given (printed ++ (stamp, line) ∷ []) (print stamp line l)
    shutdown_step :
        {given : List Bytes} {printed : List (Bytes × Bytes)} {l l' : PacketLogger buf.Buffer}
        → shutdown l ≡ some l'
        → Run given printed l
        → Run given printed l'
