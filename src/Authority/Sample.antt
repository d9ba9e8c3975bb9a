-- ===== src/Authority/Sample.antt =====
-- Small certificates, keys and their calls.
use rhine.Prelude.{◌∷◌, ◌+◌, ◌⊎◌, codes, none, some, inr, inl, [], ℕ, Bytes}
use rhine.Disk.Sample.{Files}
use rhine.Authority.Generate.{Crypto, Draw}
use rhine.Authority.Load.{Tls, Globals, KeyPair, globals_of}

-- A certificate is its bytes, and a key a number; a pair is read whatever belongs together.
abbrev pub crypto : Crypto ℕ ℕ ℕ Bytes ℕ
crypto = record {
  public_key = λ key. key + 1;
  create_certificate = λ template parent public key. inr (public ∷ template.serial_number ∷ []);
  parse_certificate = λ der. inr der;
  marshal_pkcs1 = λ key. key ∷ [];
  pem_encode = λ block. block.bytes;
  parse_ip = λ text. text;
  add_date = λ time years months days. time + years;
}

abbrev pub pair : Bytes → Bytes → ℕ ⊎ KeyPair ℕ Bytes
pair cert (key ∷ []) = inr (record { certificate = cert ∷ []; private_key = key; leaf = none })
pair cert key = inl 7

abbrev pub tls : Tls ℕ Bytes ℕ ℕ
tls = record { x509_key_pair = pair; tls_config_from_ca = λ ca. ca.private_key }

abbrev pub draw : ℕ → Draw ℕ ℕ ℕ
draw n = record {
  generate_key = λ bits. inr n;
  random_int = λ limit. inr 7;
  now_after = 2020;
  now_before = 2020;
}

abbrev pub bin_dir : Bytes
bin_dir = codes "/opt/rhine"

abbrev pub empty : Files
empty = λ p. none

abbrev pub globals : ℕ → Globals ℕ Bytes ℕ
globals n = globals_of crypto.parse_certificate tls (record {
  certificate = ((n + 1) ∷ 7 ∷ []) ∷ [];
  private_key = n;
  leaf = some ((n + 1) ∷ 7 ∷ []);
})
