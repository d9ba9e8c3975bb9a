-- ===== src/Authority/Load.antt =====
-- `LoadCA` (utils/cert.go), and the globals of goproxy that it sets.
pub mod Whole
use rhine.Disk.{Disk}
use rhine.Prelude.{Bytes, Option, none, some, List, [], ◌∷◌, ◌++◌, ◌⊎◌, inl, inr}

-- `tls.Certificate`.
pub record KeyPair (K C : Type 0) : Type 0 where
  pub certificate : List Bytes
  pub private_key : K
  pub leaf : Option C

pub data ConnectActionLiteral : Type 0 where
  connect_accept : ConnectActionLiteral
  connect_mitm : ConnectActionLiteral
  connect_http_mitm : ConnectActionLiteral
  connect_reject : ConnectActionLiteral

-- `goproxy.ConnectAction`.
pub record Action (T : Type 0) : Type 0 where
  pub action : ConnectActionLiteral
  pub tls_config : T

-- The globals of goproxy.
pub record Globals (K C T : Type 0) : Type 0 where
  pub goproxy_ca : KeyPair K C
  pub ok_connect : Action T
  pub mitm_connect : Action T
  pub http_mitm_connect : Action T
  pub reject_connect : Action T

-- crypto/tls and goproxy.
pub record Tls (K C T E : Type 0) : Type 0 where
  pub x509_key_pair : Bytes → Bytes → E ⊎ KeyPair K C
  pub tls_config_from_ca : KeyPair K C → T

-- The globals and what is returned; `Certificate[0]` of a pair without one panics.
pub data Loaded (K C T E : Type 0) : Type 0 where
  loaded : Globals K C T → Loaded K C T E
  load_error : E → Globals K C T → Loaded K C T E
  no_certificate : Globals K C T → Loaded K C T E

module _ {K C T E : Type 0} (parse_certificate : Bytes → E ⊎ C) (tls : Tls K C T E) where
  abbrev pub globals_of : KeyPair K C → Globals K C T
  globals_of ca = record {
    goproxy_ca = ca;
    ok_connect = record { action = connect_accept; tls_config = tls.tls_config_from_ca ca };
    mitm_connect = record { action = connect_mitm; tls_config = tls.tls_config_from_ca ca };
    http_mitm_connect = record {
      action = connect_http_mitm;
      tls_config = tls.tls_config_from_ca ca;
    };
    reject_connect = record { action = connect_reject; tls_config = tls.tls_config_from_ca ca };
  }

  abbrev pub with_leaf : KeyPair K C → Globals K C T → E ⊎ C → Loaded K C T E
  with_leaf ca g (inl e) = load_error e g
  with_leaf ca g (inr leaf) = loaded (globals_of (record ca { leaf = some leaf }))

  abbrev pub first_of : KeyPair K C → Globals K C T → List Bytes → Loaded K C T E
  first_of ca g [] = no_certificate g
  first_of ca g (der ∷ ders) = with_leaf ca g (parse_certificate der)

  abbrev pub with_pair : Globals K C T → E ⊎ KeyPair K C → Loaded K C T E
  with_pair g (inl e) = load_error e g
  with_pair g (inr ca) = first_of ca g ca.certificate

  abbrev pub with_files : Globals K C T → E ⊎ Bytes → E ⊎ Bytes → Loaded K C T E
  with_files g (inl e) key = load_error e g
  with_files g (inr cert) (inl e) = load_error e g
  with_files g (inr cert) (inr key) = with_pair g (tls.x509_key_pair cert key)

  module _ {W : Type 0} (disk : Disk W E) where
    abbrev pub opened : Bytes → Bytes → W → Globals K C T → Option E → Option E → Loaded K C T E
    opened cert_path key_path w g (some e) _ = load_error e g
    opened cert_path key_path w g none (some e) = load_error e g
    opened cert_path key_path w g none none =
        with_files g (disk.read_all cert_path w) (disk.read_all key_path w)

    -- `LoadCA`, behind `BinDir`; it changes no file.
    unfoldable pub load_ca : Bytes → Bytes → Bytes → W → Globals K C T → Loaded K C T E
    load_ca bin_dir cert_path key_path w g =
        opened (bin_dir ++ cert_path) (bin_dir ++ key_path) w g
          (disk.open_file (bin_dir ++ cert_path) w) (disk.open_file (bin_dir ++ key_path) w)
