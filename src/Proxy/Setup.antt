-- ===== src/Proxy/Setup.antt =====
-- `NewProxy` and `Start` (proxy/proxy.go): the options, the server, and what it listens on.
mod Tests
use rhine.Disk.{Disk}
use rhine.Authority.Generate.{Crypto, Draw}
use rhine.Authority.Load.{Tls, Globals, KeyPair, Action, globals_of, connect_reject, connect_mitm}
use rhine.Authority.Load.Whole.{whole, StartsWhole, start_ca-StartsWhole}
use rhine.Authority.Start.{StartLine, Started, starts, start_panics, start_ca}
use rhine.Proxy.Connect.{
  Options, proxy_filter, ConnectAction, reject_connect, mitm_connect, https_handler, filters,
  is_filtered-filters,
}
use rhine.Proxy.Handler.{is_filtered}
use rhine.Proxy.Users.{Dispatches}
use rhine.Log.Output.{Log, new_log, log_path}
use rhine.Prelude.{
  inr, ◌∙◌, inl, Bool-cases, sym, ap, ◌≡◌, Bytes, Bool, Option, none, some, List, [], not, codes,
  if◌then◌else◌, bytes_eq,
}

-- The fields of `Options` beside those of the host filter; the flags of the logger are left out.
pub record Settings : Type 0 where
  pub logger : Option Log
  pub log_path : Bytes
  pub log_disable_std_out : Bool
  pub filter : Options
  pub verbose : Bool
  pub verbose_go_proxy : Bool
  pub address : Bytes
  pub disable_cert_store : Bool
  pub no_unknown_json : Bool

-- `Proxy`, with what `NewProxy` sets of the server of goproxy.
pub record Proxy (D : Type 0) : Type 0 where
  pub logger : Log
  pub options : Settings
  pub host_filter : Option (Bytes → Bool)
  pub has_cert_store : Bool
  pub server_verbose : Bool
  pub dispatches : Dispatches D

-- `NewProxy` returns or panics.
pub data Created (W E G D : Type 0) : Type 0 where
  created : Proxy D → W → G → List (StartLine E) → Created W E G D
  create_panics : W → G → List (StartLine E) → Created W E G D

-- The logger of the options, or the default one, whose file and stdout take what they take.
abbrev pub logger_or : Bytes → (Bytes → Bytes → Bool) → (Bytes → Bool) → Settings → Log
logger_or bin_dir file_accepts accepts s = elim s.logger [
  | none ↦
      new_log (not s.log_disable_std_out) s.verbose (log_path bin_dir s.log_path) file_accepts
        accepts
  | some log ↦ log
]

-- The options are changed in place.
unfoldable pub with_address : Settings → Settings
with_address s = if bytes_eq s.address [] then record s { address = codes ":8080" } else s

-- The proxy, before its authority is there.
abbrev pub proxy_of :
    {D : Type 0}
    → Bytes
    → (Bytes → Bytes → Bool)
    → (Bytes → Bool)
    → (Bytes → Bool)
    → Settings
    → Proxy D
proxy_of bin_dir file_accepts accepts default s = record {
  logger = logger_or bin_dir file_accepts accepts s;
  options = with_address s;
  host_filter = proxy_filter default s.filter;
  has_cert_store = not s.disable_cert_store;
  server_verbose = s.verbose_go_proxy;
  dispatches = [];
}

-- The variable of goproxy to which an answer to a CONNECT points.
abbrev pub action_of : {K C T : Type 0} → Globals K C T → ConnectAction → Action T
action_of g reject_connect = g.reject_connect
action_of g mitm_connect = g.mitm_connect

module _ {Time K P C T E W : Type 0} (crypto : Crypto Time K P C E) (tls : Tls K C T E)
    (disk : Disk W E) (bin_dir : Bytes) (D : Type 0) where
  abbrev pub with_ca : Proxy D → Started W E (Globals K C T) → Created W E (Globals K C T) D
  with_ca proxy (starts w g lines) = created proxy w g lines
  with_ca proxy (start_panics w g lines) = create_panics w g lines

  unfoldable pub new_proxy :
      (Bytes → Bytes → Bool)
      → (Bytes → Bool)
      → (Bytes → Bool)
      → Draw Time K E
      → Settings
      → W
      → Globals K C T
      → Created W E (Globals K C T) D
  unfolding start_ca
  new_proxy file_accepts accepts default draw s w g =
      with_ca (proxy_of bin_dir file_accepts accepts default s)
        (start_ca crypto tls disk bin_dir draw w g)

  -- The new proxy answers every CONNECT with the one authority; a panic leaves goproxy alone.
  abbrev pub Serves :
      (Bytes → Bool) → Settings → Globals K C T → Created W E (Globals K C T) D → Type 0
  Serves default s g (create_panics w g' lines) = g' ≡ g
  Serves default s g (created proxy w g' lines) =
      (ca : KeyPair K C) × ((leaf : C) × ((ca.leaf ≡ some leaf)
          × ((g'.goproxy_ca ≡ ca)
              × ((host : Bytes)
                  → action_of g' (https_handler proxy.host_filter host).0 ≡ record {
                    action = if filters default s.filter host then connect_reject else connect_mitm;
                    tls_config = tls.tls_config_from_ca ca;
                  }))))

  acts :
      (default : Bytes → Bool) (o : Options) (g : Globals K C T) (ca : KeyPair K C) (host : Bytes)
      → g ≡ globals_of crypto.parse_certificate tls ca
      → action_of g (https_handler (proxy_filter default o) host).0 ≡ record {
        action = if filters default o host then connect_reject else connect_mitm;
        tls_config = tls.tls_config_from_ca ca;
      }
  unfolding https_handler
  acts default o g ca host e =
      let same = sym (is_filtered-filters default o host) in
      elim (Bool-cases (is_filtered (proxy_filter default o) host)) [
        | inl f ↦ rw (f, same ∙ f) (ap (λ (x : Globals K C T). x.reject_connect) e)
        | inr f ↦ rw (f, same ∙ f) (ap (λ (x : Globals K C T). x.mitm_connect) e)
      ]

  with_ca-Serves :
      (file_accepts : Bytes → Bytes → Bool) (accepts default : Bytes → Bool) (s : Settings)
      (g : Globals K C T) (r : Started W E (Globals K C T))
      → StartsWhole crypto tls disk bin_dir g r
      → Serves default s g (with_ca (proxy_of bin_dir file_accepts accepts default s) r)
  with_ca-Serves file_accepts accepts default s g (start_panics w g' lines) e = e
  with_ca-Serves file_accepts accepts default s g (starts w g' lines) (whole ca leaf l e) = (
    ca,
    (
      leaf,
      (l, (ap (λ (x : Globals K C T). x.goproxy_ca) e, λ host. acts default s.filter g' ca host e)),
    ),
  )

  -- A NewProxy that returns has given goproxy one authority, with its leaf: the answer to a CONNECT
  -- is to reject it if the options filter its host, and else to stand in the middle, with the TLS
  -- configuration of that authority in both cases. A NewProxy that panics over the authority has
  -- changed no variable of goproxy.
  pub new_proxy-Serves :
      (file_accepts : Bytes → Bytes → Bool) (accepts default : Bytes → Bool) (draw : Draw Time K E)
      (s : Settings) (w : W) (g : Globals K C T)
      → Serves default s g (new_proxy file_accepts accepts default draw s w g)
  unfolding new_proxy
  new_proxy-Serves file_accepts accepts default draw s w g =
      with_ca-Serves file_accepts accepts default s g (start_ca crypto tls disk bin_dir draw w g)
        (start_ca-StartsWhole crypto tls disk bin_dir g draw w)
