-- ===== src/State/Race/Counts.antt =====
-- How many calls of `handle` have come how far.
use rhine.State.Race.{Call, called, wants_lock, syncs, sets_loaded, reads}
use rhine.Prelude.{
  inr, inl, codes, ◌∙◌, Bool-cases, ap, bytes_eq, refl, true, arith, false, ◌+◌, [], ◌++◌,
  if◌then◌else◌, ◌≡◌, ◌≤◌, Bool, List, Bytes, ◌∷◌, ℕ,
}

-- Whether an operation is the sync, as a number.
unfoldable pub sync_op : Bytes → ℕ
sync_op op = if bytes_eq op (codes "S/account/syncData") then 1 else 0

unfoldable pub count : (Call → ℕ) → List Call → ℕ
count f [] = 0
count f (c ∷ calls) = f c + count f calls

-- The calls that may still start a sync.
abbrev pub pending : Call → ℕ
pending (called op packet) = sync_op op
pending (wants_lock op packet) = 0
pending (syncs packet) = 1
pending sets_loaded = 0

abbrev pub spawning : Call → ℕ
spawning (syncs packet) = 1
spawning _ = 0

abbrev pub setting : Call → ℕ
setting sets_loaded = 1
setting _ = 0

abbrev pub waiting : Call → ℕ
waiting (wants_lock op packet) = 1
waiting _ = 0

pub count-append : (f : Call → ℕ) (xs ys : List Call) → count f (xs ++ ys) ≡ count f xs + count f ys
unfolding count
count-append f [] ys = omega arith
count-append f (x ∷ xs) ys = omega (arith, count-append f xs ys)

pub count-last :
    (f : Call → ℕ) (calls : List Call) (c : Call) → count f (calls ++ c ∷ []) ≡ count f calls + f c
unfolding count
count-last f calls c = omega (arith, count-append f calls (c ∷ []))

-- A call among others.
pub count-at :
    (f : Call → ℕ) (before behind : List Call) (c : Call)
    → count f (before ++ c ∷ behind) ≡ count f before + f c + count f behind
unfolding count
count-at f before behind c = omega (arith, count-append f before (c ∷ behind))

pub count-split :
    (f : Call → ℕ) (calls before behind : List Call) (c : Call)
    → calls ≡ before ++ c ∷ behind
    → count f calls ≡ count f before + f c + count f behind
count-split f calls before behind c e = ap (count f) e ∙ count-at f before behind c

pub count-middle :
    (f : Call → ℕ) (before middle behind : List Call)
    → count f (before ++ middle ++ behind) ≡ count f before + count f middle + count f behind
count-middle f before middle behind =
    omega (arith, count-append f (before ++ middle) behind, count-append f before middle)

-- What a call that reads becomes.
pub reads-pending : (op packet : Bytes) → count pending (reads false op packet) ≡ sync_op op
unfolding reads count sync_op
reads-pending op packet = elim (Bool-cases (bytes_eq op (codes "S/account/syncData"))) [
  | inl e ↦ rw e refl
  | inr e ↦ rw e refl
]

pub reads-waiting : (op packet : Bytes) → count waiting (reads false op packet) ≡ 0
unfolding reads count
reads-waiting op packet = elim (Bool-cases (bytes_eq op (codes "S/account/syncData"))) [
  | inl e ↦ rw e refl
  | inr e ↦ rw e refl
]

pub reads-setting : (loaded : Bool) (op packet : Bytes) → count setting (reads loaded op packet) ≡ 0
unfolding reads count
reads-setting true op packet = refl
reads-setting false op packet = elim (Bool-cases (bytes_eq op (codes "S/account/syncData"))) [
  | inl e ↦ rw e refl
  | inr e ↦ rw e refl
]

pub reads-spawning : (op packet : Bytes) → count spawning (reads true op packet) ≡ 0
unfolding reads count
reads-spawning op packet = refl

spawning-le-pending : (c : Call) → spawning c ≤ pending c
spawning-le-pending (called op packet) = omega arith
spawning-le-pending (wants_lock op packet) = omega arith
spawning-le-pending (syncs packet) = omega arith
spawning-le-pending sets_loaded = omega arith

pub count-spawning-le : (calls : List Call) → count spawning calls ≤ count pending calls
unfolding count
count-spawning-le [] = omega arith
count-spawning-le (c ∷ calls) = omega (arith, spawning-le-pending c, count-spawning-le calls)

pub read_fresh :
    (calls before behind : List Call) (op packet : Bytes)
    → calls ≡ before ++ called op packet ∷ behind
    → (count pending (before ++ reads false op packet ++ behind) ≡ count pending calls)
      × ((count setting (before ++ reads false op packet ++ behind) ≡ count setting calls)
          × (count waiting (before ++ reads false op packet ++ behind) ≡ count waiting calls))
read_fresh calls before behind op packet e = (
  omega (
    arith,
    count-middle pending before (reads false op packet) behind,
    count-split pending calls before behind (called op packet) e,
    reads-pending op packet,
  ),
  (
    omega (
      arith,
      count-middle setting before (reads false op packet) behind,
      count-split setting calls before behind (called op packet) e,
      reads-setting false op packet,
    ),
    omega (
      arith,
      count-middle waiting before (reads false op packet) behind,
      count-split waiting calls before behind (called op packet) e,
      reads-waiting op packet,
    ),
  ),
)

-- Some call stands there.
pub none_at :
    (f : Call → ℕ) (calls before behind : List Call) (c : Call)
    → calls ≡ before ++ c ∷ behind
    → f c ≡ 1
    → count f calls ≡ 0
    → ⊥
none_at f calls before behind c e one z =
    absurd (omega (arith, count-split f calls before behind c e, one, z))

-- A call is gone, and nothing of it was counted.
pub gone :
    (f : Call → ℕ) (calls before behind : List Call) (c : Call)
    → calls ≡ before ++ c ∷ behind
    → count f (before ++ behind) + f c ≡ count f calls
gone f calls before behind c e =
    omega (arith, count-split f calls before behind c e, count-append f before behind)
