-- ===== src/Proxy/Tests.antt =====
-- The theorems on the proxy at small inputs.
use rhine.Packet.Sorting.{sorter}
use rhine.Proxy.Users.{insert, digits, empty_user, add_user, new_user, atoi, lookup, Dispatches}
use rhine.Proxy.Handler.Routing.{handle_req-IsRouted, IsRouted}
use rhine.Proxy.Users.Sessions.{
  add_user-AreSessions, add_user-AddsUser, after, AreSessions, AddsUser,
}
use rhine.Proxy.Modules.{on_shutdown_call, hook_call, InitFunc, Dispatch, init_mods}
use rhine.Prelude.{
  some, Option, false, refl, pos, [], ◌∷◌, bytes_eq, true, ℕ, codes, none, ◌≡◌, List, Bytes,
}
use rhine.Proxy.Host.{gl, jp}
use rhine.State.Store.{new_state, GameState}
use rhine.Proxy.Handler.{handle_req, Request, Packet, Response}
use rhine.Proxy.Connect.{
  Options, https_handler, proxy_filter, is_reject, is_blocked, https_handler-filters,
}
use rhine.Packet.Order.{IsOrdered}
use mathlib.Core.List.{Perm}
use mathlib.Core.Option.{none-ne-some}
use rhine.Packet.Hook.{hooks_at}
use rhine.Proxy.Modules.Init.{init_mods-IsOrdered, hooks_of_mods}

abbrev counting : List (InitFunc ℕ)
counting =
    record {
      name = codes "Packet Logger";
      fun =
          hook_call 1 (codes "*") (pos 0) 7
          ∷ on_shutdown_call 5
          ∷ hook_call 2 (codes "*") (pos 9) 8
          ∷ [];
    }
    ∷ []

abbrev state : GameState ℕ ℕ ℕ
state = new_state (record { channels = λ id. record { room = 9; sent = [] }; dropped = [] })

abbrev fresh : Dispatch ℕ ℕ ℕ ℕ
fresh = empty_user sorter counting state (pos 12) (codes "GL")

abbrev user : Dispatch ℕ ℕ ℕ ℕ
user = new_user sorter counting state (pos 12) (codes "GL")

abbrev users : Dispatches (Dispatch ℕ ℕ ℕ ℕ)
users = (codes "GL_12", user) ∷ []

abbrev request : Bytes → Bytes → Request
request path uid = record {
  host = codes "gs.arknights.global";
  url_host = codes "gs.arknights.global:8443";
  path = path;
  uid = uid;
  body = some (codes "{}");
}

-- Hooks that leave the response as it is.
abbrev keeps : Packet (Dispatch ℕ ℕ ℕ ℕ) → Option Response → Option Response
keeps p resp = resp

init_mods-IsOrdered_example :
    ((init_mods sorter counting state fresh).initialized ≡ true)
    × IsOrdered (init_mods sorter counting state fresh).hooks
    × ((t : Bytes)
        → Perm
            (hooks_at (init_mods sorter counting state fresh).hooks t)
            (hooks_of_mods t counting))
init_mods-IsOrdered_example = init_mods-IsOrdered sorter counting state fresh refl (λ t. refl)

add_user-AddsUser_example :
    AddsUser
      (codes "12")
      (codes "GL")
      users
      (add_user sorter counting state (codes "12") (codes "GL") users)
add_user-AddsUser_example = add_user-AddsUser sorter counting state (codes "12") (codes "GL") users

nobody-AreSessions : AreSessions {H = ℕ} {U = ℕ} {P = ℕ} {E = ℕ} []
unfolding lookup
nobody-AreSessions key d e = absurd (none-ne-some d e)

users-AreSessions : AreSessions users
unfolding add_user lookup insert atoi digits
users-AreSessions =
    add_user-AreSessions sorter counting state (codes "12") (codes "GL") [] gl nobody-AreSessions

add_user-AreSessions_example : AreSessions (
    after sorter counting state users
      (add_user sorter counting state (codes "7") (codes "JP") users))
add_user-AreSessions_example =
    add_user-AreSessions sorter counting state (codes "7") (codes "JP") users jp users-AreSessions

handle_req-IsRouted_example :
    IsRouted sorter counting state none
      (λ body. codes "12")
      keeps
      (request (codes "/quest") (codes "12"))
      users
      (handle_req sorter counting state none
        (λ body. codes "12")
        keeps
        (request (codes "/quest") (codes "12"))
        users)
handle_req-IsRouted_example =
    handle_req-IsRouted sorter counting state none (λ body. codes "12") keeps
      (request (codes "/quest") (codes "12")) users

abbrev filtering : Options
filtering = record { enable_host_filter = true; host_filter = none }

https_handler-filters_example :
    (is_reject
        (https_handler
          (proxy_filter (bytes_eq (codes "app.adjust.com")) filtering)
          (request (codes "/quest") (codes "12")).host).0
      ≡ false)
    × (is_blocked (
          handle_req sorter counting state
            (proxy_filter (bytes_eq (codes "app.adjust.com")) filtering)
            (λ body. codes "12")
            keeps
            (request (codes "/quest") (codes "12"))
            users)
        ≡ false)
unfolding bytes_eq
https_handler-filters_example =
    https_handler-filters sorter counting state (λ body. codes "12") keeps
      (bytes_eq (codes "app.adjust.com")) filtering (request (codes "/quest") (codes "12")) users
