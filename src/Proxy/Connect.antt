-- ===== src/Proxy/Connect.antt =====
-- The host filter of `NewProxy`, and `httpsHandler` (proxy/proxy.go).
use rhine.Prelude.{
  List, Bytes, Bool, Option, none, some, true, false, if◌then◌else◌, ◌≡◌, refl, sym, ◌∙◌,
  Bool-cases, inl, inr,
}
use rhine.Proxy.Handler.{
  is_filtered, handle_req, Request, Response, Packet, blank_response, Handled, returns, panics,
}
use rhine.Proxy.Handler.Pairs.{
  handle_req-IsPaired, IsPaired, blocked, passed, dispatched, unreadable, no_number,
}
use rhine.Proxy.Users.{Dispatches}
use rhine.Proxy.Modules.{Dispatch, InitFunc}
use rhine.Packet.Hook.{Sorter}
use rhine.State.Store.{GameState}

-- `Options`: the fields of the host filter. A regular expression is whether it matches.
pub record Options : Type 0 where
  pub enable_host_filter : Bool
  pub host_filter : Option (Bytes → Bool)

abbrev pub filter_or : (Bytes → Bool) → Option (Bytes → Bool) → Bytes → Bool
filter_or default none = default
filter_or default (some filter) = filter

-- `proxyFilter`, with the default of the package filters.
unfoldable pub proxy_filter : (Bytes → Bool) → Options → Option (Bytes → Bool)
proxy_filter default o =
    if o.enable_host_filter then some (filter_or default o.host_filter) else none

-- What goproxy does with a CONNECT.
pub data ConnectAction : Type 0 where
  reject_connect : ConnectAction
  mitm_connect : ConnectAction

-- `httpsHandler`: the action, and the host to which it goes.
unfoldable pub https_handler : Option (Bytes → Bool) → Bytes → ConnectAction × Bytes
https_handler host_filter host =
    if is_filtered host_filter host then (reject_connect, host) else (mitm_connect, host)

abbrev pub is_reject : ConnectAction → Bool
is_reject reject_connect = true
is_reject mitm_connect = false

-- A request that the proxy itself answers, so that nothing of its response is dispatched.
abbrev pub is_blocked : {D : Type 0} → Handled D → Bool
is_blocked (returns ctx answer m packets) = ctx.request_is_blocked
is_blocked panics = false

-- The hosts that are filtered: by whether the filter is enabled, the filter of the options and the
-- default.
abbrev pub filters_with : Bool → Option (Bytes → Bool) → (Bytes → Bool) → Bytes → Bool
filters_with false own default host = false
filters_with true none default host = default host
filters_with true (some own) default host = own host

abbrev pub filters : (Bytes → Bool) → Options → Bytes → Bool
filters default o host = filters_with o.enable_host_filter o.host_filter default host

pub is_filtered-filters :
    (default : Bytes → Bool) (o : Options) (host : Bytes)
    → is_filtered (proxy_filter default o) host ≡ filters default o host
unfolding proxy_filter
is_filtered-filters default o host = by o.enable_host_filter o.host_filter
  where
    by :
        (enabled : Bool) (own : Option (Bytes → Bool))
        → is_filtered (if enabled then some (filter_or default own) else none) host
          ≡ filters_with enabled own default host
    by false own = refl
    by true none = refl
    by true (some own) = refl

rejects-is_filtered :
    (host_filter : Option (Bytes → Bool)) (host : Bytes)
    → is_reject (https_handler host_filter host).0 ≡ is_filtered host_filter host
unfolding https_handler
rejects-is_filtered host_filter host = elim (Bool-cases (is_filtered host_filter host)) [
  | inl e ↦ rw e refl
  | inr e ↦ rw e refl
]

module _ {H U P E : Type 0} (sorter : Sorter H) (modules : List (InitFunc H)) (gs : GameState U P E)
    (body_uid : Bytes → Bytes)
    (replaced : Packet (Dispatch H U P E) → Option Response → Option Response) where
  blocked-is_filtered :
      (host_filter : Option (Bytes → Bool)) (req : Request) (m : Dispatches (Dispatch H U P E))
      (r : Handled (Dispatch H U P E))
      → IsPaired sorter modules gs host_filter body_uid replaced req blank_response m r
      → is_blocked r ≡ is_filtered host_filter req.host
  blocked-is_filtered host_filter req m _ (blocked ctx f b _) = b ∙ sym f
  blocked-is_filtered host_filter req m _ (passed ctx f b _ _) = b ∙ sym f
  blocked-is_filtered host_filter req m _ (dispatched ctx m' p f b _) = b ∙ sym f
  blocked-is_filtered host_filter req m _ (unreadable f _ _) = sym f
  blocked-is_filtered host_filter req m _ (no_number body f _ _ _ _) = sym f

  -- A CONNECT to a host is rejected, and a request to it is blocked, in the same cases: if the
  -- options enable the host filter and it matches the host, the filter of the options if there is
  -- one, and else the default.
  pub https_handler-filters :
      (default : Bytes → Bool) (o : Options) (req : Request) (m : Dispatches (Dispatch H U P E))
      → (is_reject (https_handler (proxy_filter default o) req.host).0 ≡ filters default o req.host)
        × (is_blocked
              (handle_req sorter modules gs (proxy_filter default o) body_uid replaced req m)
            ≡ filters default o req.host)
  https_handler-filters default o req m = (
    rejects-is_filtered (proxy_filter default o) req.host ∙ is_filtered-filters default o req.host,
    blocked-is_filtered (proxy_filter default o) req m
          (handle_req sorter modules gs (proxy_filter default o) body_uid replaced req m)
          (handle_req-IsPaired sorter modules gs (proxy_filter default o) body_uid replaced req
            blank_response m)
        ∙ is_filtered-filters default o req.host,
  )
