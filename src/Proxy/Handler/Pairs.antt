-- ===== src/Proxy/Handler/Pairs.antt =====
-- What a request and its response do together.
use rhine.Proxy.Handler.{
  Responded, responds, fails, blank_response, with_response, with_body, dispatch_request,
  new_context, RequestContext, panicked, logged_in, is_filtered, known, trim, handle_req,
  handle_resp, handle_game, returns, panics, Handled, Packet, Request, Response,
}
use rhine.Prelude.{
  bytes_eq, inl, inr, refl, Bool-cases, true, false, none, ◌≡◌, some, Bool, [], Bytes, Option, ◌++◌,
  codes, ◌∷◌, List,
}
use rhine.Packet.Hook.{Sorter}
use rhine.Proxy.Modules.{Dispatch, InitFunc}
use rhine.State.Store.{GameState}
use rhine.Proxy.Users.{added, get_user, add_user, atoi, Added, Dispatches}
use rhine.Gamedata.Pool.{is_empty}
use rhine.Proxy.Host.{region_of-IsRegion, region_of, is_game_host}
use rhine.Proxy.Users.Sessions.{add_user-AddsUser, AddsUser}
use mathlib.Core.Bool.{false≢true}

-- The packet of the response to a request that was dispatched as another one.
abbrev pub reply : {D : Type 0} → Request → Bytes → Packet D → Packet D
reply req body p = record { user = p.user; op = codes "S/" ++ trim req.path; body = body }

-- What becomes of a response with such a body, or with one that cannot be read.
abbrev pub if_readable : {D : Type 0} → (Bytes → Responded D) → Option Bytes → Responded D
if_readable rest none = fails
if_readable rest (some body) = rest body

is_empty_nil : (b : Bytes) → is_empty b ≡ true → b ≡ []
is_empty_nil [] e = refl
is_empty_nil (c ∷ cs) e = absurd (false≢true e)

module _ {H U P E : Type 0} (sorter : Sorter H) (modules : List (InitFunc H)) (gs : GameState U P E)
    (host_filter : Option (Bytes → Bool)) (body_uid : Bytes → Bytes)
    (replaced : Packet (Dispatch H U P E) → Option Response → Option Response) where
  -- Why a request is no packet.
  pub data IsIgnored (req : Request) (m : Dispatches (Dispatch H U P E)) : Type 0 where
    foreign : is_game_host req.url_host ≡ false → IsIgnored req m
    no_login :
        req.uid ≡ []
        → bytes_eq (codes "C/" ++ trim req.path) (codes "C/account/login") ≡ false
        → IsIgnored req m
    unknown :
        (region : Bytes)
        → region_of req.url_host ≡ some region
        → get_user req.uid region m ≡ none
        → IsIgnored req m

  -- What becomes of a request and then of its response.
  pub data IsPaired (req : Request) (resp : Response) (m : Dispatches (Dispatch H U P E))
      : Handled (Dispatch H U P E) → Type 0 where
    blocked :
        (ctx : RequestContext (Dispatch H U P E))
        → is_filtered host_filter req.host ≡ true
        → ctx.request_is_blocked ≡ true
        → handle_resp replaced req (some ctx) (some resp) ≡ responds (some resp) []
        → IsPaired req resp m (returns ctx (some blank_response) m [])
    passed :
        (ctx : RequestContext (Dispatch H U P E))
        → is_filtered host_filter req.host ≡ false
        → ctx.request_is_blocked ≡ false
        → IsIgnored req m
        → handle_resp replaced req (some ctx) (some resp)
          ≡ if_readable (λ body. responds (some resp) []) resp.body
        → IsPaired req resp m (returns ctx none m [])
    dispatched :
        (ctx : RequestContext (Dispatch H U P E)) (m' : Dispatches (Dispatch H U P E))
        (p : Packet (Dispatch H U P E))
        → is_filtered host_filter req.host ≡ false
        → ctx.request_is_blocked ≡ false
        → handle_resp replaced req (some ctx) (some resp)
          ≡ if_readable
              (λ body. responds (replaced (reply req body p) (some resp)) (reply req body p ∷ []))
              resp.body
        → IsPaired req resp m (returns ctx (replaced p none) m' (p ∷ []))
    unreadable :
        is_filtered host_filter req.host ≡ false
        → is_game_host req.url_host ≡ true
        → req.body ≡ none
        → IsPaired req resp m panics
    no_number :
        (body : Bytes)
        → is_filtered host_filter req.host ≡ false
        → is_game_host req.url_host ≡ true
        → req.uid ≡ []
        → req.body ≡ some body
        → atoi (body_uid body) ≡ none
        → IsPaired req resp m panics

  with_response-nobody :
      (req : Request) (resp : Response) (body : Option Bytes)
      → with_response replaced req none resp body
        ≡ if_readable (λ body. responds (some resp) []) body
  with_response-nobody req resp none = refl
  with_response-nobody req resp (some body) = refl

  with_response-reply :
      (req : Request) (resp : Response) (p : Packet (Dispatch H U P E)) (body : Option Bytes)
      → with_response replaced req (some p.user) resp body
        ≡ if_readable
            (λ body. responds (replaced (reply req body p) (some resp)) (reply req body p ∷ []))
            body
  with_response-reply req resp p none = refl
  with_response-reply req resp p (some body) = refl

  module _ (req : Request) (resp : Response) (body : Bytes)
      (free : is_filtered host_filter req.host ≡ false) (game : is_game_host req.url_host ≡ true)
      (read : req.body ≡ some body) where
    dispatch_request-IsPaired :
        (op : Bytes) (d : Dispatch H U P E) (m m' : Dispatches (Dispatch H U P E))
        → IsPaired req resp m (dispatch_request replaced op body d m')
    unfolding handle_resp
    dispatch_request-IsPaired op d m m' =
        dispatched _ m' _ free refl
          (with_response-reply req resp (record { user = d; op = op; body = body }) resp.body)

    ignored-IsPaired :
        (m : Dispatches (Dispatch H U P E))
        → IsIgnored req m
        → IsPaired req resp m (returns new_context none m [])
    unfolding handle_resp
    ignored-IsPaired m i = passed _ free refl i (with_response-nobody req resp resp.body)

    known-IsPaired :
        (op region : Bytes) (m : Dispatches (Dispatch H U P E)) (d : Option (Dispatch H U P E))
        → region_of req.url_host ≡ some region
        → get_user req.uid region m ≡ d
        → IsPaired req resp m (known replaced op body m d)
    known-IsPaired op region m none r e = ignored-IsPaired m (unknown region r e)
    known-IsPaired op region m (some d) r e = dispatch_request-IsPaired op d m m

    logged_in-IsPaired :
        (op region : Bytes) (m : Dispatches (Dispatch H U P E)) (a : Added (Dispatch H U P E))
        → req.uid ≡ []
        → AddsUser (body_uid body) region m a
        → IsPaired req resp m (logged_in replaced op body a)
    logged_in-IsPaired op region m (added calls d m') u a = dispatch_request-IsPaired op d m m'
    logged_in-IsPaired op region m (panicked calls) u (n, _) = no_number body free game u read n

    handle_game-IsPaired :
        (region : Bytes) (m : Dispatches (Dispatch H U P E))
        → region_of req.url_host ≡ some region
        → IsPaired req resp m
            (handle_game sorter modules gs host_filter body_uid replaced req body region m)
    unfolding handle_game
    handle_game-IsPaired region m r = elim (Bool-cases (is_empty req.uid)) [
      | inr e ↦ rw e (known-IsPaired _ region m (get_user req.uid region m) r refl)
      | inl e ↦
          let u = is_empty_nil req.uid e in
          elim (Bool-cases (bytes_eq (codes "C/" ++ trim req.path) (codes "C/account/login"))) [
            | inl l ↦
                rw (e, l)
                  (logged_in-IsPaired _ region m
                    (add_user sorter modules gs (body_uid body) region m) u
                    (add_user-AddsUser sorter modules gs (body_uid body) region m))
            | inr l ↦ rw (e, l) (ignored-IsPaired m (no_login u l))
          ]
    ]

  with_body-IsPaired :
      (req : Request) (resp : Response) (m : Dispatches (Dispatch H U P E)) (body : Option Bytes)
      → is_filtered host_filter req.host ≡ false
      → is_game_host req.url_host ≡ true
      → req.body ≡ body
      → IsPaired req resp m (with_body sorter modules gs host_filter body_uid replaced req m body)
  with_body-IsPaired req resp m none f g b = unreadable f g b
  with_body-IsPaired req resp m (some body) f g b =
      let (region, found, _) = region_of-IsRegion req.url_host g in
      rw found (handle_game-IsPaired req resp body f g b region m found)

  pub handle_req-IsPaired :
      (req : Request) (resp : Response) (m : Dispatches (Dispatch H U P E))
      → IsPaired req resp m (handle_req sorter modules gs host_filter body_uid replaced req m)
  unfolding handle_req handle_resp
  handle_req-IsPaired req resp m = elim (Bool-cases (is_filtered host_filter req.host)) [
    | inl e ↦ rw e (blocked _ e refl refl)
    | inr e ↦ elim (Bool-cases (is_game_host req.url_host)) [
      | inr g ↦ rw (e, g) (passed _ e refl (foreign g) (with_response-nobody req resp resp.body))
      | inl g ↦ rw (e, g) (with_body-IsPaired req resp m req.body e g refl)
    ]
  ]
