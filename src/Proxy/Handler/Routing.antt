-- ===== src/Proxy/Handler/Routing.antt =====
-- Which requests are dispatched, and to whom.
use rhine.Proxy.Handler.{
  Packet, Response, with_body, panicked, logged_in, trim, known, is_filtered, handle_req,
  handle_game, returns, panics, Handled, Request,
}
use rhine.Packet.Hook.{Sorter}
use rhine.Prelude.{
  bytes_eq_iff, ◌∙◌, refl, none, bytes_eq, ap, ◌++◌, inr, some, codes, inl, [], true, ◌∷◌,
  Bool-cases, ◌≡◌, if◌then◌else◌, Bool, Bytes, Option, List,
}
use rhine.Proxy.Modules.{Dispatch, InitFunc}
use rhine.State.Store.{GameState}
use rhine.Proxy.Users.{added, add_user, Added, get_user, Dispatches}
use rhine.Gamedata.Pool.{is_empty}
use rhine.Proxy.Host.{user_key, region_of-IsRegion, region_of, is_game_host}
use rhine.Proxy.Users.Sessions.{add_user-AddsUser, AddsUser}
use mathlib.Core.Path.{subst}

module _ {H U P E : Type 0} (sorter : Sorter H) (modules : List (InitFunc H)) (gs : GameState U P E)
    (host_filter : Option (Bytes → Bool)) (body_uid : Bytes → Bytes)
    (replaced : Packet (Dispatch H U P E) → Option Response → Option Response) where
  -- The UID of a request: the header's, or at a login the body's.
  abbrev pub uid_of : Request → Bytes → Bytes
  uid_of req body = if is_empty req.uid then body_uid body else req.uid

  abbrev pub IsRouted :
      Request → Dispatches (Dispatch H U P E) → Handled (Dispatch H U P E) → Type 0
  IsRouted req m (returns ctx answer m' []) = m' ≡ m
  IsRouted req m (returns ctx answer m' (p ∷ ps)) =
      (ps ≡ [])
      × (req.body ≡ some p.body)
      × (p.op ≡ codes "C/" ++ trim req.path)
      × (is_game_host req.url_host ≡ true)
      × ((region : Bytes) × (region_of req.url_host ≡ some region)
          × (get_user (uid_of req p.body) region m' ≡ some p.user))
  IsRouted req m panics = Unit

  module _ (req : Request) (body region : Bytes) (game : is_game_host req.url_host ≡ true)
      (read : req.body ≡ some body) (found : region_of req.url_host ≡ some region) where
    known-IsRouted :
        (m : Dispatches (Dispatch H U P E)) (d : Option (Dispatch H U P E))
        → get_user (uid_of req body) region m ≡ d
        → IsRouted req m (known replaced (codes "C/" ++ trim req.path) body m d)
    known-IsRouted m none e = refl
    known-IsRouted m (some d) e = (refl, read, refl, game, (region, found, e))

    logged_in-IsRouted :
        (m : Dispatches (Dispatch H U P E)) (a : Added (Dispatch H U P E))
        → AddsUser (uid_of req body) region m a
        → IsRouted req m (logged_in replaced (codes "C/" ++ trim req.path) body a)
    unfolding get_user
    logged_in-IsRouted m (panicked calls) a = tt
    logged_in-IsRouted m (added calls d m') (_, _, _, looked) =
        let key = user_key region (uid_of req body) in
        (
          refl,
          read,
          refl,
          game,
          (region, found, looked key ∙ rw ((bytes_eq_iff key key).1 refl) refl),
        )

    handle_game-IsRouted :
        (m : Dispatches (Dispatch H U P E))
        → IsRouted req m
            (handle_game sorter modules gs host_filter body_uid replaced req body region m)
    unfolding handle_game
    handle_game-IsRouted m = elim (Bool-cases (is_empty req.uid)) [
      | inr e ↦
          rw e (
            known-IsRouted m (get_user req.uid region m)
              (ap (λ u. get_user u region m) (rw e refl)))
      | inl e ↦
          let a = add_user sorter modules gs (body_uid body) region m in
          elim (Bool-cases (bytes_eq (codes "C/" ++ trim req.path) (codes "C/account/login"))) [
            | inl l ↦
                rw (e, l)
                  (logged_in-IsRouted m a (
                    subst (λ u. AddsUser u region m a) (rw e refl)
                      (add_user-AddsUser sorter modules gs (body_uid body) region m)))
            | inr l ↦ rw (e, l) refl
          ]
    ]

  with_body-IsRouted :
      (req : Request) (m : Dispatches (Dispatch H U P E)) (body : Option Bytes)
      → is_game_host req.url_host ≡ true
      → req.body ≡ body
      → IsRouted req m (with_body sorter modules gs host_filter body_uid replaced req m body)
  with_body-IsRouted req m none g b = tt
  with_body-IsRouted req m (some body) g b =
      let (region, found, _) = region_of-IsRegion req.url_host g in
      rw found (handle_game-IsRouted req body region g b found m)

  -- A request dispatches at most one packet: its own body as the operation "C/...". Then its host is
  -- one of the game's, and the packet goes to the user whom the map has, behind the request, under
  -- the region of the host and the UID of the header or, at a login, of the body. A request that
  -- dispatches nothing leaves the map as it was.
  pub handle_req-IsRouted :
      (req : Request) (m : Dispatches (Dispatch H U P E))
      → IsRouted req m (handle_req sorter modules gs host_filter body_uid replaced req m)
  unfolding handle_req
  handle_req-IsRouted req m = elim (Bool-cases (is_filtered host_filter req.host)) [
    | inl e ↦ rw e refl
    | inr e ↦ elim (Bool-cases (is_game_host req.url_host)) [
      | inr g ↦ rw (e, g) refl
      | inl g ↦ rw (e, g) (with_body-IsRouted req m req.body g refl)
    ]
  ]
