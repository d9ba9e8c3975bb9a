-- ===== src/Packetlog/Lines.antt =====
-- What the packet logger's file has.
use rhine.Packetlog.Logger.{
  Buffered, PacketLogger, Run, start, packet_step, begin_step, print_step, new_logger,
  shutdown_step, handle, print, shutdown, line_of,
}
use rhine.Prelude.{Option, none, some, List, [], ◌∷◌, ◌++◌, ◌≡◌, refl, ap, sym, ◌∙◌, Bytes}
use mathlib.Core.List.{Perm, perm_middle, append_assoc, append-nil}
use mathlib.Core.Path.{subst}
use mathlib.Core.List.Perm

-- The text of the printed lines.
abbrev pub text_of : List (Bytes × Bytes) → Bytes
text_of [] = []
text_of ((stamp, line) ∷ printed) = stamp ++ line ++ text_of printed

abbrev pub lines_of : List (Bytes × Bytes) → List Bytes
lines_of [] = []
lines_of ((stamp, line) ∷ printed) = line ∷ lines_of printed

text_of-append : (xs ys : List (Bytes × Bytes)) → text_of (xs ++ ys) ≡ text_of xs ++ text_of ys
text_of-append [] ys = refl
text_of-append ((stamp, line) ∷ xs) ys =
    ap (λ r. stamp ++ line ++ r) (text_of-append xs ys)
    ∙ sym (append_assoc (stamp ++ line) (text_of xs) (text_of ys))

lines_of-append : (xs ys : List (Bytes × Bytes)) → lines_of (xs ++ ys) ≡ lines_of xs ++ lines_of ys
lines_of-append [] ys = refl
lines_of-append ((stamp, line) ∷ xs) ys = ap (λ r. line ∷ r) (lines_of-append xs ys)

-- The line that is being printed.
abbrev pub begun : Option (Bytes × Bytes) → List Bytes
begun none = []
begun (some (stamp, line)) = line ∷ []

module _ (buf : Buffered) where
  -- Behind a shutdown with no data race, the file has this text.
  abbrev pub Leaves : Bytes → Option (PacketLogger buf.Buffer) → Type 0
  Leaves text none = Unit
  Leaves text (some l) = buf.file l.buffer ≡ text

  -- The file and the buffer have what was printed; the printed lines, the one that is being printed
  -- and those that wait are the lines of the packets in some order; and a shutdown puts what was
  -- printed into the file, unless a goroutine prints.
  pub record IsLogged (given : List Bytes) (printed : List (Bytes × Bytes))
      (l : PacketLogger buf.Buffer) : Type 0 where
    pub is_written : buf.file l.buffer ++ buf.held l.buffer ≡ text_of printed
    pub are_lines : Perm (lines_of printed ++ (begun l.printing ++ l.waiting)) given
    pub is_flushed : Leaves (text_of printed) (shutdown buf l)

  logged :
      {given : List Bytes} {printed : List (Bytes × Bytes)} (l : PacketLogger buf.Buffer)
      → buf.file l.buffer ++ buf.held l.buffer ≡ text_of printed
      → Perm (lines_of printed ++ (begun l.printing ++ l.waiting)) given
      → IsLogged given printed l
  unfolding shutdown
  logged {printed = printed} l w p = record {
    is_written = w;
    are_lines = p;
    is_flushed = flushed l.printing;
  }
    where
      flushed :
          (printing : Option (Bytes × Bytes))
          → Leaves (text_of printed) (elim printing [
            | none ↦ some (record l { buffer = buf.flush l.buffer })
            | some _ ↦ none
          ])
      flushed none = buf.file-flush l.buffer ∙ w
      flushed (some _) = tt

  packet-IsLogged :
      (given : List Bytes) (printed : List (Bytes × Bytes)) (l : PacketLogger buf.Buffer)
      (op packet : Bytes)
      → IsLogged given printed l
      → IsLogged (given ++ line_of op packet ∷ []) printed (handle buf op packet l).0
  unfolding handle
  packet-IsLogged given printed l op packet h =
      let line = line_of op packet in
      let waits = begun l.printing ++ l.waiting in
      logged (record l { waiting = l.waiting ++ line ∷ [] }) h.is_written
        (subst (λ lines. Perm lines (given ++ line ∷ []))
          (append_assoc (lines_of printed) waits (line ∷ [])
            ∙ ap (λ ls. lines_of printed ++ ls)
                (append_assoc (begun l.printing) l.waiting (line ∷ [])))
          (Perm.append_right (line ∷ []) h.are_lines))

  begin-IsLogged :
      (given : List Bytes) (printed : List (Bytes × Bytes)) (l : PacketLogger buf.Buffer)
      (before behind : List Bytes) (stamp line : Bytes)
      → l.waiting ≡ before ++ line ∷ behind
      → l.printing ≡ none
      → IsLogged given printed l
      → IsLogged given printed
          (record l { waiting = before ++ behind; printing = some (stamp, line) })
  begin-IsLogged given printed l before behind stamp line e n h =
      logged (record l { waiting = before ++ behind; printing = some (stamp, line) }) h.is_written
        (Perm.trans (Perm.append_left (lines_of printed) (Perm.symm (perm_middle before behind))) (
          subst (λ lines. Perm (lines_of printed ++ lines) given)
            (ap (λ p. begun p ++ l.waiting) n ∙ e) h.are_lines))

  print-IsLogged :
      (given : List Bytes) (printed : List (Bytes × Bytes)) (l : PacketLogger buf.Buffer)
      (stamp line : Bytes)
      → l.printing ≡ some (stamp, line)
      → IsLogged given printed l
      → IsLogged given (printed ++ (stamp, line) ∷ []) (print buf stamp line l)
  unfolding print
  print-IsLogged given printed l stamp line e h =
      logged (record l { buffer = buf.write (stamp ++ line) l.buffer; printing = none })
        (buf.write-keeps (stamp ++ line) l.buffer
          ∙ ap (λ t. t ++ (stamp ++ line)) h.is_written
          ∙ ap (λ t. text_of printed ++ t) (sym (append-nil (stamp ++ line)))
          ∙ sym (text_of-append printed ((stamp, line) ∷ [])))
        (subst (λ lines. Perm lines given)
          (ap (λ p. lines_of printed ++ (begun p ++ l.waiting)) e
            ∙ sym (append_assoc (lines_of printed) (line ∷ []) l.waiting)
            ∙ ap (λ t. t ++ l.waiting) (sym (lines_of-append printed ((stamp, line) ∷ []))))
          h.are_lines)

  -- What a shutdown leaves is as before.
  abbrev Stays : List Bytes → List (Bytes × Bytes) → Option (PacketLogger buf.Buffer) → Type 0
  Stays given printed none = Unit
  Stays given printed (some l) = IsLogged given printed l

  shutdown-Stays :
      (given : List Bytes) (printed : List (Bytes × Bytes)) (l : PacketLogger buf.Buffer)
      → IsLogged given printed l
      → Stays given printed (shutdown buf l)
  unfolding shutdown
  shutdown-Stays given printed l h = stays l.printing
    where
      stays :
          (printing : Option (Bytes × Bytes))
          → Stays given printed (elim printing [
            | none ↦ some (record l { buffer = buf.flush l.buffer })
            | some _ ↦ none
          ])
      stays none =
          logged (record l { buffer = buf.flush l.buffer })
            (ap (λ t. buf.file (buf.flush l.buffer) ++ t) (buf.held-flush l.buffer)
              ∙ append-nil (buf.file (buf.flush l.buffer))
              ∙ buf.file-flush l.buffer
              ∙ h.is_written)
            h.are_lines
      stays (some _) = tt

  -- However the goroutines print, one at a time, and however many shutdowns come while none of them
  -- prints: the file and the buffer together have the text of the printed lines in the order in
  -- which they were printed; those lines, the one that is being printed and the ones that wait are
  -- the lines of the packets in some order; and a shutdown now would leave exactly the printed lines
  -- in the file, if no goroutine prints.
  pub Run-IsLogged :
      (given : List Bytes) (printed : List (Bytes × Bytes)) (l : PacketLogger buf.Buffer)
      → Run buf given printed l
      → IsLogged given printed l
  Run-IsLogged given printed l start =
      logged (new_logger buf) (ap (λ t. t ++ buf.held buf.empty) buf.file-empty ∙ buf.held-empty)
        (Perm.refl [])
  Run-IsLogged given printed l (packet_step {given = given'} {l = l'} op packet r) =
      packet-IsLogged given' printed l' op packet (Run-IsLogged given' printed l' r)
  Run-IsLogged given printed l (begin_step {l = l'} before behind stamp line e n r) =
      begin-IsLogged given printed l' before behind stamp line e n (Run-IsLogged given printed l' r)
  Run-IsLogged given printed l (print_step {printed = ls} {l = l'} stamp line e r) =
      print-IsLogged given ls l' stamp line e (Run-IsLogged given ls l' r)
  Run-IsLogged given printed l (shutdown_step {l = l'} e r) =
      subst (Stays given printed) e
        (shutdown-Stays given printed l' (Run-IsLogged given printed l' r))
