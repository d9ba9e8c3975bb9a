-- ===== src/Proxy/Users/Sessions.antt =====
-- Who is in the map of users, and what a login changes.
use rhine.Proxy.Users.Callbacks.{told_true, old_calls-told_true}
use rhine.Proxy.Users.{
  get_user, new_user, empty_user, add_number, panicked, old_calls, lookup, insert, add_user, added,
  Dispatches, atoi, Added,
}
use rhine.Prelude.{
  none, ℤ, Option, bytes_eq, if◌then◌else◌, some, List, Bytes, false, true, Bool, bytes_eq_iff,
  arith, ◌∙◌, refl, [], ◌∷◌, ℕ,
}
use rhine.Proxy.Host.{user_key, IsRegion, gl, jp, kr}
use rhine.State.Store.{GameState}
use rhine.Proxy.Modules.{InitFunc, Dispatch}
use rhine.Packet.Hook.{Sorter}
use mathlib.Core.Path.{subst, sym, ap, ◌≡◌, ap₂}
use rhine.Proxy.Modules.Init.{init_mods-same}
use mathlib.Core.List.{head-eq_of_cons-eq, tail-eq_of_cons-eq}
use mathlib.Core.Option.{none-ne-some, some-injective}

module _ {D : Type 0} where
  lookup-insert :
      (key key' : Bytes) (d : D) (m : Dispatches D)
      → lookup key' (insert key d m) ≡ (if bytes_eq key key' then some d else lookup key' m)
  unfolding lookup insert
  lookup-insert key key' d [] = refl
  lookup-insert key key' d ((k, e) ∷ m) = ground (
    arith,
    bytes_eq_iff k key,
    bytes_eq_iff k key',
    bytes_eq_iff key key',
    lookup-insert key key' d m,
  )

-- What the call of `addUser` leaves.
abbrev pub AddsUser :
    {H U P E : Type 0}
    → Bytes
    → Bytes
    → Dispatches (Dispatch H U P E)
    → Added (Dispatch H U P E)
    → Type 0
AddsUser uid region m (added calls d m') =
    (atoi uid ≡ some d.uid)
    × (d.region ≡ region)
    × (calls ≡ told_true (lookup (user_key region uid) m))
    × ((key : Bytes)
        → lookup key m' ≡ (if bytes_eq (user_key region uid) key then some d else lookup key m))
AddsUser uid region m (panicked calls) =
    (atoi uid ≡ none) × (calls ≡ told_true (lookup (user_key region uid) m))

-- Every entry stands under the key of its user, whose UID is a number.
pub record IsSession {H U P E : Type 0} (key : Bytes) (d : Dispatch H U P E) : Type 0 where
  pub uid : Bytes
  pub region : Bytes
  pub is_key : key ≡ user_key region uid
  pub is_region : IsRegion region
  pub is_number : atoi uid ≡ some d.uid
  pub same_region : d.region ≡ region

abbrev pub AreSessions : {H U P E : Type 0} → Dispatches (Dispatch H U P E) → Type 0
AreSessions {H} {U} {P} {E} m =
    (key : Bytes) (d : Dispatch H U P E) → lookup key m ≡ some d → IsSession key d

two_bytes : (r : Bytes) → IsRegion r → (x : ℕ) × (y : ℕ) × (r ≡ x ∷ y ∷ [])
two_bytes r gl = (b'G', b'L', refl)
two_bytes r jp = (b'J', b'P', refl)
two_bytes r kr = (b'K', b'R', refl)

-- A region has two bytes, so a key has one region and one UID.
user_key-injective :
    (r r' u u' : Bytes)
    → IsRegion r
    → IsRegion r'
    → user_key r u ≡ user_key r' u'
    → (r ≡ r') × (u ≡ u')
user_key-injective r r' u u' a b e =
    let (x, y, p) = two_bytes r a in
    let (x', y', p') = two_bytes r' b in
    let q = sym (ap (λ s. user_key s u) p) ∙ e ∙ ap (λ s. user_key s u') p' in
    let q₁ = tail-eq_of_cons-eq q in
    let q₂ = tail-eq_of_cons-eq q₁ in
    (
      p ∙ ap₂ (λ s t. s ∷ t ∷ []) (head-eq_of_cons-eq q) (head-eq_of_cons-eq q₁) ∙ sym p',
      tail-eq_of_cons-eq q₂,
    )

module _ {H U P E : Type 0} (sorter : Sorter H) (modules : List (InitFunc H))
    (gs : GameState U P E) where
  add_number-AddsUser :
      (uid region : Bytes) (n : Option ℤ) (m : Dispatches (Dispatch H U P E))
      → atoi uid ≡ n
      → AddsUser uid region m (
          add_number sorter modules gs
            (old_calls (lookup (user_key region uid) m))
            (user_key region uid)
            region
            n
            m)
  add_number-AddsUser uid region none m e =
      (e, old_calls-told_true (lookup (user_key region uid) m))
  add_number-AddsUser uid region (some k) m e =
      let (same_uid, same_region) =
        init_mods-same sorter modules gs (empty_user sorter modules gs k region) in
      (
        e ∙ ap some (sym same_uid),
        same_region,
        old_calls-told_true (lookup (user_key region uid) m),
        λ key. lookup-insert (user_key region uid) key (new_user sorter modules gs k region) m,
      )

  -- `addUser` calls the callbacks of the old modules of a user who reconnects, in their order, each
  -- with true. If the UID is a number
  -- it then makes a user with that number and the region, which replaces the old one under its key
  -- and changes no other entry; if it is none, the call panics.
  pub add_user-AddsUser :
      (uid region : Bytes) (m : Dispatches (Dispatch H U P E))
      → AddsUser uid region m (add_user sorter modules gs uid region m)
  unfolding add_user
  add_user-AddsUser uid region m = add_number-AddsUser uid region (atoi uid) m refl

  -- What is left of the map, whether `addUser` returned or not.
  abbrev pub after :
      Dispatches (Dispatch H U P E) → Added (Dispatch H U P E) → Dispatches (Dispatch H U P E)
  after m (added calls d m') = m'
  after m (panicked calls) = m

  insert-IsSession :
      (key' : Bytes) (new old : Dispatch H U P E) (key : Bytes) (m : Dispatches (Dispatch H U P E))
      (b : Bool)
      → bytes_eq key key' ≡ b
      → IsSession key new
      → AreSessions m
      → (if b then some new else lookup key' m) ≡ some old
      → IsSession key' old
  insert-IsSession key' new old key m true same s all e =
      subst (λ k. IsSession k old) ((bytes_eq_iff key key').0 same)
        (subst (IsSession key) (some-injective new old e) s)
  insert-IsSession key' new old key m false same s all e = all key' old e

  added-AreSessions :
      (uid region : Bytes) (m : Dispatches (Dispatch H U P E)) (r : Added (Dispatch H U P E))
      → IsRegion region
      → AreSessions m
      → AddsUser uid region m r
      → (key : Bytes) (old : Dispatch H U P E) → lookup key (after m r) ≡ some old
      → IsSession key old
  added-AreSessions uid region m (panicked calls) is_region all a key old e = all key old e
  added-AreSessions uid region m (added calls d m') is_region all (number, same, _, looked) key old
        e =
      insert-IsSession key d old (user_key region uid) m (bytes_eq (user_key region uid) key) refl
        (record {
          uid = uid;
          region = region;
          is_key = refl;
          is_region = is_region;
          is_number = number;
          same_region = same;
        })
        all (sym (looked key) ∙ e)

  -- `addUser` for a region of the program keeps every user under the key of its region and UID,
  -- which is a number; also when it panics.
  pub add_user-AreSessions :
      (uid region : Bytes) (m : Dispatches (Dispatch H U P E))
      → IsRegion region
      → AreSessions m
      → AreSessions (after m (add_user sorter modules gs uid region m))
  add_user-AreSessions uid region m is_region all =
      added-AreSessions uid region m (add_user sorter modules gs uid region m) is_region all
        (add_user-AddsUser uid region m)

  -- A call that returns a user with a number.
  abbrev pub Returns : ℤ → Added (Dispatch H U P E) → Type 0
  Returns n (added calls d m') = d.uid ≡ n
  Returns n (panicked calls) = ⊥

  session-Returns :
      (uid region : Bytes) (n : ℤ) (m : Dispatches (Dispatch H U P E))
      (r : Added (Dispatch H U P E))
      → atoi uid ≡ some n
      → AddsUser uid region m r
      → Returns n r
  session-Returns uid region n m (added calls d m') e (number, _, _, _) =
      some-injective d.uid n (sym number ∙ e)
  session-Returns uid region n m (panicked calls) e (none_found, _) =
      none-ne-some n (sym none_found ∙ e)

  -- A user who reconnects is never refused: `addUser` of a UID and region that are in the map
  -- returns, and the new user has the number of the old one.
  add_user_reconnects :
      (uid region : Bytes) (old : Dispatch H U P E) (m : Dispatches (Dispatch H U P E))
      → IsRegion region
      → AreSessions m
      → get_user uid region m ≡ some old
      → Returns old.uid (add_user sorter modules gs uid region m)
  unfolding get_user
  add_user_reconnects uid region old m is_region all e =
      let s = all (user_key region uid) old e in
      let (_, same) = user_key-injective region s.region uid s.uid is_region s.is_region s.is_key in
      session-Returns uid region old.uid m (add_user sorter modules gs uid region m)
        (ap atoi same ∙ s.is_number) (add_user-AddsUser uid region m)
