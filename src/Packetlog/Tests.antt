-- ===== src/Packetlog/Tests.antt =====
-- The packet logger at two packets whose goroutines print in the other order.
use rhine.Packetlog.Logger.{
  Buffered, PacketLogger, Run, start, packet_step, begin_step, print_step, shutdown_step, line_of,
  handle, print, shutdown,
}
use rhine.Packetlog.Lines.{Run-IsLogged, IsLogged}
use rhine.Prelude.{none, [], ◌∷◌, ◌++◌, refl, sym, Bytes, codes}
use mathlib.Core.List.{append_assoc}

-- A buffer with no bound, behind the file.
abbrev buf : Buffered
buf = record {
  Buffer = Bytes × Bytes;
  empty = ([], []);
  write = λ p b. (b.0, b.1 ++ p);
  flush = λ b. (b.0 ++ b.1, []);
  file = λ b. b.0;
  held = λ b. b.1;
  file-empty = refl;
  held-empty = refl;
  write-keeps = λ p b. sym (append_assoc b.0 b.1 p);
  file-flush = λ b. refl;
  held-flush = λ b. refl;
}

abbrev first_line : Bytes
first_line = line_of (codes "S/a") (codes "{}")

abbrev second_line : Bytes
second_line = line_of (codes "S/b") (codes "1")

abbrev flushed : PacketLogger buf.Buffer
flushed = record {
  buffer = (codes "9 " ++ second_line, []);
  waiting = first_line ∷ [];
  printing = none;
}

flushed-Run : Run buf (first_line ∷ second_line ∷ []) ((codes "9 ", second_line) ∷ []) flushed
unfolding handle print shutdown
flushed-Run = shutdown_step refl (
    print_step (codes "9 ") second_line refl (
      begin_step (first_line ∷ []) [] (codes "9 ") second_line refl refl
        (packet_step (codes "S/b") (codes "1") (packet_step (codes "S/a") (codes "{}") start))))

Run-IsLogged_example :
    IsLogged buf (first_line ∷ second_line ∷ []) ((codes "9 ", second_line) ∷ []) flushed
Run-IsLogged_example =
    Run-IsLogged buf (first_line ∷ second_line ∷ []) ((codes "9 ", second_line) ∷ []) flushed
      flushed-Run
