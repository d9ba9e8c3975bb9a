-- ===== src/Walk/Loop.antt =====
-- The outer loop of `WalkAndNotify`: the bytes, the path of keys, and the slices of the text.
pub mod Correct
pub mod Total
pub mod Steps
pub mod Key
pub mod Phrases
pub mod Ending
use rhine.Slices.{length-set}
use rhine.Scanner.Run.{eof, is_error, new_scanner}
use rhine.Scanner.Step.{scan_step}
use rhine.Walk.Notify.{StateHook, World, Looked, Notified, notified, lookup_error, notify_hooks}
use rhine.Prelude.{
  suc, zero, ◌≡◌, refl, ap, ◌∙◌, ◌||◌, drop, take, ◌==◌, ◌&&◌, [], leb, ltb, ◌++◌, length, ◌-◌, ◌+◌,
  if◌then◌else◌, set, ◌∷◌, Bytes, List,
}
use rhine.Scanner.State.{
  scan_object_key, panic, scan_begin_literal, ret, Outcome, count_byte, Opcode, Scanner,
  SyntaxError,
}
use Prim.Native.Nat.{ℕ}
use mathlib.Core.Option.{none, some, Option}
use mathlib.Core.Option

abbrev pub max_path_depth : ℕ
max_path_depth = 64

pub data WalkError (E : Type 0) : Type 0 where
  syntax_error : SyntaxError → WalkError E
  err_max_path : WalkError E
  lookup_failed : E → WalkError E

-- A path from the pool, whose `New` makes `max_path_depth` slices.
pub record KeyPath : Type 0 where
  pub items : List Bytes
  pub is_full : length items ≡ max_path_depth

-- `path[k] = key`, where `k` is in range.
abbrev pub write : KeyPath → ℕ → Bytes → KeyPath
write path k key = record {
  items = set path.items k key;
  is_full = length-set path.items k key ∙ path.is_full;
}

-- The variables of the loop.
pub record Walk (P : Type 0) : Type 0 where
  pub scan : Scanner
  pub path : KeyPath
  pub last_literal_pos : ℕ
  pub world : World P

-- One round: the loop goes on, it returns, or an index is out of range.
pub data Round (P E : Type 0) : Type 0 where
  go : Walk P → Round P E
  stop : Walk P → Option (WalkError E) → Round P E
  fault : Round P E

-- `data[lo:hi]`, with `none` for a panic.
unfoldable pub slice : Bytes → ℕ → ℕ → Option Bytes
slice text lo hi =
    if leb lo hi && leb hi (length text) then some (take (hi - lo) (drop lo text)) else none

-- `bytes.Join(parts, ".")`.
unfoldable pub join : List Bytes → Bytes
join [] = []
join (p ∷ []) = p
join (p ∷ q ∷ ps) = p ++ (b'.' ∷ join (q ∷ ps))

-- The next rounds, if there are any.
abbrev pub and_then : {P E : Type 0} → Round P E → (Walk P → Round P E) → Round P E
and_then (go w) rest = rest w
and_then (stop w e) rest = stop w e
and_then fault rest = fault

module _ {P E : Type 0} (lookup : Bytes → Looked P E) (hooks : Bytes → List StateHook)
    (text : Bytes) where
  after_notify : Walk P → Notified P E → Round P E
  after_notify w (notified world) = go (record w { world = world })
  after_notify w (lookup_error world e) = stop (record w { world = world }) (some (lookup_failed e))

  -- The path is written and joined, and its hooks are told. `path[depth-1]` is out of range at
  -- depth 0 and behind the last slice.
  pub notify_key : ℕ → Walk P → Bytes → Round P E
  unfolding after_notify
  notify_key depth w key =
      if depth == 0 || ltb (length w.path.items) depth
      then fault
      else let path = write w.path (depth - 1) key in
        let cur_path = join (take depth path.items) in
        after_notify (record w { path = path })
          (notify_hooks lookup cur_path none (hooks cur_path) w.world)

  -- `i-1` is out of range at byte 0.
  unfoldable pub object_key : ℕ → ℕ → Walk P → Round P E
  unfolding notify_key
  object_key i depth w =
      if ltb max_path_depth depth
      then stop w (some err_max_path)
      else if i == 0
      then fault
      else elim (slice text (w.last_literal_pos + 1) (i - 1)) [
        | none ↦ fault
        | some key ↦ notify_key depth w key
      ]

  -- The tests on the opcode, behind the one for `scanError`.
  pub on_opcode : ℕ → Opcode → Walk P → Round P E
  unfolding object_key
  on_opcode i scan_begin_literal w = go (record w { last_literal_pos = i })
  on_opcode i scan_object_key w = object_key i (length w.scan.parse_state) w
  on_opcode i _ w = go w

  pub after_scan : ℕ → Walk P → Outcome → Round P E
  unfolding on_opcode
  after_scan i w panic = fault
  after_scan i w (ret s op) =
      if is_error op
      then stop (record w { scan = s }) (Option.map syntax_error s.err)
      else on_opcode i op (record w { scan = s })

  unfoldable pub walk_byte : ℕ → ℕ → Walk P → Round P E
  unfolding after_scan
  walk_byte i c w = after_scan i w (scan_step (count_byte w.scan) c)

  pub after_eof : Walk P → Outcome → Round P E
  after_eof w panic = fault
  after_eof w (ret s op) =
      stop (record w { scan = s }) (if is_error op then Option.map syntax_error s.err else none)

  -- The bytes from position `i` on. The result is never `go`.
  unfoldable pub walk_bytes : ℕ → Bytes → Walk P → Round P E
  unfolding after_eof
  walk_bytes i [] w = after_eof w (eof w.scan)
  walk_bytes i (c ∷ cs) w = and_then (walk_byte i c w) (λ w'. walk_bytes (i + 1) cs w')

  -- `WalkAndNotify` with what the two pools give.
  unfoldable pub walk_and_notify : Scanner → KeyPath → World P → Round P E
  walk_and_notify pooled path world =
      walk_bytes 0 text
        (record { scan = new_scanner pooled; path = path; last_literal_pos = 0; world = world })
