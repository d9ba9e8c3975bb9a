-- ===== src/Proxy/Users.antt =====
-- The users of the proxy: `addUser`, `getUser` and `Shutdown` of proxy/proxy.go.
pub mod Sessions
pub mod Callbacks
use rhine.Proxy.Host.{user_key}
use rhine.Proxy.Modules.{Dispatch, RhineModule, InitFunc, init_mods}
use rhine.Prelude.{
  negsuc, ◌^◌, ltb, ◌+◌, ◌-◌, false, ◌&&◌, pos, true, ◌*◌, ◌==◌, bytes_eq, ◌++◌, some, leb, [], ◌∷◌,
  ℤ, none, if◌then◌else◌, Option, Bytes, Bool, List,
}
use rhine.Packet.Hook.{Sorter}
use Prim.Native.Nat.{zero, suc, ℕ}
use rhine.State.Store.{GameState}

-- `strconv.Atoi`: a sign and decimal digits, within 64 bits.
abbrev pub digit : ℕ → Option ℕ
digit c = if leb b'0' c && leb c b'9' then some (c - b'0') else none

abbrev pub and_digit : Option ℕ → Option ℕ → Option ℕ
and_digit (some n) (some k) = some (10 * n + k)
and_digit _ _ = none

unfoldable pub digits : Bytes → Option ℕ → Option ℕ
digits [] n = n
digits (c ∷ cs) n = digits cs (and_digit n (digit c))

abbrev pub number : Bytes → Option ℕ
number [] = none
number (c ∷ cs) = digits (c ∷ cs) (some 0)

abbrev pub in_range : Bool → Option ℕ → Option ℤ
in_range negative none = none
in_range true (some zero) = some (pos 0)
in_range true (some (suc n)) = if ltb n (2 ^ 63) then some (negsuc n) else none
in_range false (some n) = if ltb n (2 ^ 63) then some (pos n) else none

unfoldable pub atoi : Bytes → Option ℤ
unfolding digits
atoi [] = none
atoi (c ∷ cs) =
    if c == b'-'
    then in_range true (number cs)
    else if c == b'+'
    then in_range false (number cs)
    else in_range false (number (c ∷ cs))

-- The map `dispatches`, as its entries; a key has one entry.
abbrev pub Dispatches : Type 0 → Type 0
Dispatches D = List (Bytes × D)

module _ {D : Type 0} where
  unfoldable pub lookup : Bytes → Dispatches D → Option D
  lookup key [] = none
  lookup key ((k, d) ∷ m) = if bytes_eq k key then some d else lookup key m

  unfoldable pub insert : Bytes → D → Dispatches D → Dispatches D
  insert key d [] = (key, d) ∷ []
  insert key d ((k, e) ∷ m) = if bytes_eq k key then (k, d) ∷ m else (k, e) ∷ insert key d m

-- The callbacks that a shutdown calls: the callback and its argument, in order.
abbrev pub Calls : Type 0
Calls = List (ℕ × Bool)

-- The loop over the modules of one user.
unfoldable pub shutdown_modules : {H : Type 0} → List (RhineModule H) → Calls
shutdown_modules [] = []
shutdown_modules (m ∷ ms) = elim m.shutdown_cb [
  | none ↦ shutdown_modules ms
  | some cb ↦ (cb, true) ∷ shutdown_modules ms
]

-- A call of `addUser`: the callbacks that it made, and the new user and the map, or the panic of
-- `utils.Check`, which leaves the map as it was.
pub data Added (D : Type 0) : Type 0 where
  added : Calls → D → Dispatches D → Added D
  panicked : Calls → Added D

module _ {H U P E : Type 0} where
  -- `Shutdown`, in the order in which the range over the map gives the entries.
  unfoldable pub shutdown : Dispatches (Dispatch H U P E) → Calls
  unfolding shutdown_modules
  shutdown [] = []
  shutdown ((key, d) ∷ m) = shutdown_modules d.modules ++ shutdown m

  unfoldable pub get_user :
      Bytes → Bytes → Dispatches (Dispatch H U P E) → Option (Dispatch H U P E)
  unfolding lookup
  get_user uid region m = lookup (user_key region uid) m

  -- The first part: the modules of a user who reconnects.
  abbrev pub old_calls : Option (Dispatch H U P E) → Calls
  old_calls none = []
  old_calls (some d) = shutdown_modules d.modules

module _ {H U P E : Type 0} (sorter : Sorter H) (modules : List (InitFunc H))
    (gs : GameState U P E) where
  -- The `dispatch` that `addUser` makes, before and after its modules are loaded.
  abbrev pub empty_user : ℤ → Bytes → Dispatch H U P E
  empty_user uid region = record {
    uid = uid;
    region = region;
    hooks = λ target. none;
    modules = [];
    initialized = false;
    state = gs;
  }

  abbrev pub new_user : ℤ → Bytes → Dispatch H U P E
  new_user uid region = init_mods sorter modules gs (empty_user uid region)

  abbrev pub add_number :
      Calls → Bytes → Bytes → Option ℤ → Dispatches (Dispatch H U P E) → Added (Dispatch H U P E)
  add_number calls key region none m = panicked calls
  add_number calls key region (some uid) m =
      let d = new_user uid region in added calls d (insert key d m)

  -- `addUser`.
  unfoldable pub add_user : Bytes → Bytes → Dispatches (Dispatch H U P E) → Added (Dispatch H U P E)
  unfolding shutdown_modules insert lookup atoi
  add_user uid region m =
      let key = user_key region uid in add_number (old_calls (lookup key m)) key region (atoi uid) m
