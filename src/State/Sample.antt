-- ===== src/State/Sample.antt =====
-- A small codec.
use rhine.State.Store.{Codec}
use rhine.Walk.Notify.{World, found}
use rhine.Prelude.{
  refl, inr, inl, Bool-cases, arith, none, ltb, ◌+◌, ◌^◌, false, if◌then◌else◌, ◌<◌, length, some,
  [], replicate, true, ◌≡◌, Option, Bytes,
}
use Prim.Native.Nat.{ℕ}
use mathlib.Core.Path.{subst}
use rhine.Walk.Loop.{KeyPath}

-- Users are numbers of bytes; a delta is the packet itself, if it is short.
abbrev pub short : Bytes → Option Bytes
short packet = if ltb (length packet) 100 then some packet else none

abbrev IsShort : Option Bytes → Type 0
IsShort none = Unit
IsShort (some raw) = length raw < 2 ^ 64

short-IsShort : (packet : Bytes) → IsShort (short packet)
short-IsShort packet = elim (Bool-cases (ltb (length packet) 100)) [
  | inl l ↦ rw l (below (length packet) l)
  | inr l ↦ rw l tt
]
  where
    below : (n : ℕ) → ltb n 100 ≡ true → n < 2 ^ 64
    below n l = ground arith

pub short-length : (packet raw : Bytes) → short packet ≡ some raw → length raw < 2 ^ 64
short-length packet raw e = subst IsShort e (short-IsShort packet)

abbrev pub codec : Codec ℕ ℕ ℕ
codec = record {
  modified = short;
  unmarshal_sync = λ packet. (length packet, false);
  unmarshal_user = λ raw. (length raw, false);
  merge = λ old user. (old + user, false);
  lookup = λ user path. found (some user);
  modified-length = short-length;
}

abbrev pub world : World ℕ
world = record { channels = λ id. record { room = 9; sent = [] }; dropped = [] }

abbrev pub path : KeyPath
path = record { items = replicate 64 []; is_full = refl }
