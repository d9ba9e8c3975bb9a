-- ===== src/Proxy/Handler.antt =====
-- `HandleReq` and `HandleResp` (proxy/handler.go), with the context of a request.
pub mod Pairs
pub mod Routing
use rhine.Proxy.Host.{user_key, is_game_host, region_of}
use rhine.Proxy.Users.{panicked, Dispatches, Added, added, add_user, get_user}
use rhine.Prelude.{
  bytes_eq, ◌++◌, codes, not, some, if◌then◌else◌, none, ◌==◌, true, ℕ, [], ◌∷◌, List, Bool, Bytes,
  Option, false,
}
use rhine.Packet.Hook.{Sorter}
use rhine.Proxy.Modules.{Dispatch, InitFunc}
use rhine.State.Store.{GameState}
use rhine.Gamedata.Pool.{is_empty}

-- `strings.Trim(path, "/")`.
unfoldable pub trim_left : Bytes → Bytes
trim_left [] = []
trim_left (c ∷ cs) = if c == b'/' then trim_left cs else c ∷ cs

abbrev pub end_slash : Bool → ℕ → Bytes → Bytes
end_slash true c [] = []
end_slash _ c cs = c ∷ cs

unfoldable pub trim_right : Bytes → Bytes
trim_right [] = []
trim_right (c ∷ cs) = end_slash (c == b'/') c (trim_right cs)

abbrev pub trim : Bytes → Bytes
trim path = trim_right (trim_left path)

-- `http.Request`: its body is read and put back; `none` is one that cannot be read.
pub record Request : Type 0 where
  pub host : Bytes
  pub url_host : Bytes
  pub path : Bytes
  pub uid : Bytes
  pub body : Option Bytes

-- `RequestContext`, without its time. `D` is the type of dispatches.
pub record RequestContext (D : Type 0) : Type 0 where
  pub request_is_blocked : Bool
  pub request_op : Bytes
  pub request_body : Bytes
  pub dispatch : Option D

abbrev pub new_context : {D : Type 0} → RequestContext D
new_context = record {
  request_is_blocked = false;
  request_op = [];
  request_body = [];
  dispatch = none;
}

-- `http.Response`, by its body, which may be one that cannot be read.
pub record Response : Type 0 where
  pub body : Option Bytes

-- The answer to a blocked request.
abbrev pub blank_response : Response
blank_response = record { body = some [] }

-- A packet that was dispatched: to whom, the operation, and the body.
pub record Packet (D : Type 0) : Type 0 where
  pub user : D
  pub op : Bytes
  pub body : Bytes

-- The end of `HandleReq`: the context, the response if there is one, the users, and the packets that
-- it dispatched; or a panic.
pub data Handled (D : Type 0) : Type 0 where
  returns : RequestContext D → Option Response → Dispatches D → List (Packet D) → Handled D
  panics : Handled D

-- The end of `HandleResp`: the response, and the packets that it dispatched; or a panic.
pub data Responded (D : Type 0) : Type 0 where
  responds : Option Response → List (Packet D) → Responded D
  fails : Responded D

-- `proxy.hostFilter != nil && proxy.hostFilter.MatchString(host)`.
abbrev pub is_filtered : Option (Bytes → Bool) → Bytes → Bool
is_filtered none host = false
is_filtered (some matches) host = matches host

-- `replaced p resp` is what the hooks of a packet leave in `ctx.Resp`, which is `resp` before them
-- and which `dispatch` returns.
module _ {H U P E : Type 0}
    (replaced : Packet (Dispatch H U P E) → Option Response → Option Response) where
  -- The user is known: the context is filled, and the body is dispatched. A request has no response
  -- before the hooks.
  abbrev pub dispatch_request :
      Bytes → Bytes → Dispatch H U P E → Dispatches (Dispatch H U P E) → Handled (Dispatch H U P E)
  dispatch_request op body d m =
      let p : Packet (Dispatch H U P E) = record { user = d; op = op; body = body } in
      returns (record new_context { request_op = op; request_body = body; dispatch = some d })
        (replaced p none) m (p ∷ [])

  abbrev pub logged_in : Bytes → Bytes → Added (Dispatch H U P E) → Handled (Dispatch H U P E)
  logged_in op body (added calls d m) = dispatch_request op body d m
  logged_in op body (panicked calls) = panics

  abbrev pub known :
      Bytes
      → Bytes
      → Dispatches (Dispatch H U P E)
      → Option (Dispatch H U P E)
      → Handled (Dispatch H U P E)
  known op body m none = returns new_context none m []
  known op body m (some d) = dispatch_request op body d m

module _ {H U P E : Type 0} (sorter : Sorter H) (modules : List (InitFunc H)) (gs : GameState U P E)
    (host_filter : Option (Bytes → Bool)) (body_uid : Bytes → Bytes)
    (replaced : Packet (Dispatch H U P E) → Option Response → Option Response) where
  -- The branches on the header "uid"; `body_uid` is `gjson.GetBytes(body, "uid").String()`.
  unfoldable pub handle_game :
      Request → Bytes → Bytes → Dispatches (Dispatch H U P E) → Handled (Dispatch H U P E)
  handle_game req body region m =
      let op = codes "C/" ++ trim req.path in
      if is_empty req.uid
      then if bytes_eq op (codes "C/account/login")
        then logged_in replaced op body (add_user sorter modules gs (body_uid body) region m)
        else returns new_context none m []
      else known replaced op body m (get_user req.uid region m)

  -- The region of the host: `Hostname()[13:]`.
  abbrev pub in_region :
      Request → Bytes → Dispatches (Dispatch H U P E) → Option Bytes → Handled (Dispatch H U P E)
  in_region req body m none = panics
  in_region req body m (some region) = handle_game req body region m

  -- `ReadAll`, whose error `utils.Check` turns into a panic.
  abbrev pub with_body :
      Request → Dispatches (Dispatch H U P E) → Option Bytes → Handled (Dispatch H U P E)
  with_body req m none = panics
  with_body req m (some body) = in_region req body m (region_of req.url_host)

  -- `HandleReq`.
  unfoldable pub handle_req : Request → Dispatches (Dispatch H U P E) → Handled (Dispatch H U P E)
  unfolding handle_game
  handle_req req m =
      if is_filtered host_filter req.host
      then returns (record new_context { request_is_blocked = true }) (some blank_response) m []
      else if not (is_game_host req.url_host)
      then returns new_context none m []
      else with_body req m req.body

-- `HandleResp`, with `none` for a nil response; it panics without a context, in `GetRequestContext`.
module _ {D : Type 0} (replaced : Packet D → Option Response → Option Response) where
  -- The response of a user's request is dispatched.
  abbrev pub dispatch_response : Request → Option D → Response → Bytes → Responded D
  dispatch_response req none resp body = responds (some resp) []
  dispatch_response req (some d) resp body =
      let p : Packet D = record { user = d; op = codes "S/" ++ trim req.path; body = body } in
      responds (replaced p (some resp)) (p ∷ [])

  abbrev pub with_response : Request → Option D → Response → Option Bytes → Responded D
  with_response req d resp none = fails
  with_response req d resp (some body) = dispatch_response req d resp body

  unfoldable pub handle_resp : Request → Option (RequestContext D) → Option Response → Responded D
  handle_resp req none resp = fails
  handle_resp req (some ctx) none = responds none []
  handle_resp req (some ctx) (some resp) =
      if ctx.request_is_blocked
      then responds (some resp) []
      else with_response req ctx.dispatch resp resp.body
