-- ===== src/Authority/Generate.antt =====
-- `GenerateCA` and its helpers (utils/cagen.go).
pub mod Files
use rhine.Disk.{Disk}
use rhine.Prelude.{
  ℕ, Bytes, Option, Bool, true, false, none, some, List, [], ◌∷◌, ◌++◌, ◌⊎◌, inl, inr, codes, ◌^◌,
}

-- `pkix.Name`.
pub record Name : Type 0 where
  pub common_name : Bytes
  pub organization : List Bytes
  pub organizational_unit : List Bytes

pub data KeyUsage : Type 0 where
  cert_sign : KeyUsage
  digital_signature : KeyUsage

pub data ExtKeyUsage : Type 0 where
  server_auth : ExtKeyUsage
  client_auth : ExtKeyUsage

pub data SignatureAlgorithm : Type 0 where
  unknown_signature_algorithm : SignatureAlgorithm
  sha256_with_rsa : SignatureAlgorithm

-- The fields of `x509.Certificate` that a template sets; a date is a `time.Time`.
pub record Template (Time : Type 0) : Type 0 where
  pub basic_constraints_valid : Bool
  pub issuer : Name
  pub not_after : Time
  pub not_before : Time
  pub serial_number : ℕ
  pub signature_algorithm : SignatureAlgorithm
  pub subject : Name
  pub is_ca : Bool
  pub key_usage : List KeyUsage
  pub ext_key_usage : List ExtKeyUsage
  pub ip_addresses : List Bytes

-- `pem.Block`.
pub record Block : Type 0 where
  pub kind : Bytes
  pub bytes : Bytes

-- What the random source and the clock give to one call of `GenerateCA`.
pub record Draw (Time K E : Type 0) : Type 0 where
  pub generate_key : ℕ → E ⊎ K
  pub random_int : ℕ → E ⊎ ℕ
  pub now_after : Time
  pub now_before : Time

-- crypto/rsa, crypto/x509, encoding/pem, net and time.
pub record Crypto (Time K P C E : Type 0) : Type 0 where
  pub public_key : K → P
  pub create_certificate : Template Time → Template Time → P → K → E ⊎ Bytes
  pub parse_certificate : Bytes → E ⊎ C
  pub marshal_pkcs1 : K → Bytes
  pub pem_encode : Block → Bytes
  pub parse_ip : Bytes → Bytes
  pub add_date : Time → ℕ → ℕ → ℕ → Time

-- The errors, each under the text that `GenerateCA` puts before it.
pub data GenerateError (E : Type 0) : Type 0 where
  key_error : E → GenerateError E
  template_error : E → GenerateError E
  cert_error : E → GenerateError E
  cert_file_error : E → GenerateError E
  key_file_error : E → GenerateError E

-- `GenerateCA` returns, or `check` panics at one of its two writes.
pub data Generated (W E : Type 0) : Type 0 where
  generated : W → Generated W E
  generate_error : GenerateError E → W → Generated W E
  panics_cert : E → W → Generated W E
  panics_key : E → W → Generated W E

abbrev pub issuer_name : Name
issuer_name = record {
  common_name = codes "github.com/kyoukaya/rhine";
  organization = codes "Rhine Labs" ∷ [];
  organizational_unit = codes "Rhine Labs" ∷ [];
}

module _ {Time K P C E : Type 0} (crypto : Crypto Time K P C E) where
  abbrev pub template_of : Draw Time K E → ℕ → Template Time
  template_of draw serial = record {
    basic_constraints_valid = true;
    issuer = issuer_name;
    not_after = crypto.add_date draw.now_after 5 0 0;
    not_before = draw.now_before;
    serial_number = serial;
    signature_algorithm = sha256_with_rsa;
    subject = issuer_name;
    is_ca = false;
    key_usage = [];
    ext_key_usage = [];
    ip_addresses = [];
  }

  -- `certTemplate`.
  unfoldable pub cert_template : Draw Time K E → E ⊎ Template Time
  cert_template draw = elim (draw.random_int (2 ^ 128)) [
    | inl e ↦ inl e
    | inr serial ↦ inr (template_of draw serial)
  ]

  -- What `GenerateCA` sets in the template.
  abbrev pub root_of : Template Time → Template Time
  root_of template = record template {
    is_ca = true;
    key_usage = cert_sign ∷ digital_signature ∷ [];
    ext_key_usage = server_auth ∷ client_auth ∷ [];
    ip_addresses = crypto.parse_ip (codes "127.0.0.1") ∷ [];
  }

  abbrev pub certificate_pem : Bytes → Bytes
  certificate_pem der = crypto.pem_encode (record { kind = codes "CERTIFICATE"; bytes = der })

  abbrev pub key_pem : K → Bytes
  key_pem key =
      crypto.pem_encode
        (record { kind = codes "RSA PRIVATE KEY"; bytes = crypto.marshal_pkcs1 key })

  abbrev pub parsed : Bytes → E ⊎ C → E ⊎ (C × Bytes)
  parsed der (inl e) = inl e
  parsed der (inr cert) = inr (cert, certificate_pem der)

  abbrev pub encoded : E ⊎ Bytes → E ⊎ (C × Bytes)
  encoded (inl e) = inl e
  encoded (inr der) = parsed der (crypto.parse_certificate der)

  -- `createCert`.
  unfoldable pub create_cert : Template Time → Template Time → P → K → E ⊎ (C × Bytes)
  create_cert template parent public private =
      encoded (crypto.create_certificate template parent public private)

  module _ {W : Type 0} (disk : Disk W E) where
    abbrev pub written_key : W × Option E → Generated W E
    written_key (w, none) = generated w
    written_key (w, some e) = panics_key e w

    abbrev pub write_key : Bytes → Bytes → W × Option E → Generated W E
    write_key path pem (w, none) = written_key (disk.write path pem w)
    write_key path pem (w, some e) = generate_error (key_file_error e) w

    abbrev pub written_cert : Bytes → Bytes → W × Option E → Generated W E
    written_cert path pem (w, none) = write_key path pem (disk.create path w)
    written_cert path pem (w, some e) = panics_cert e w

    abbrev pub write_cert : Bytes → Bytes → Bytes → Bytes → W × Option E → Generated W E
    write_cert cert_path cert key_path key (w, none) =
        written_cert key_path key (disk.write cert_path cert w)
    write_cert cert_path cert key_path key (w, some e) = generate_error (cert_file_error e) w

    abbrev pub save_cert : Bytes → Bytes → K → W → E ⊎ (C × Bytes) → Generated W E
    save_cert cert_path key_path key w (inl e) = generate_error (cert_error e) w
    save_cert cert_path key_path key w (inr (cert, pem)) =
        write_cert cert_path pem key_path (key_pem key) (disk.create cert_path w)

    abbrev pub sign : Bytes → Bytes → K → W → E ⊎ Template Time → Generated W E
    sign cert_path key_path key w (inl e) = generate_error (template_error e) w
    sign cert_path key_path key w (inr template) =
        save_cert cert_path key_path key w
          (create_cert (root_of template) (root_of template) (crypto.public_key key) key)

    abbrev pub with_key : Draw Time K E → Bytes → Bytes → W → E ⊎ K → Generated W E
    with_key draw cert_path key_path w (inl e) = generate_error (key_error e) w
    with_key draw cert_path key_path w (inr key) =
        sign cert_path key_path key w (cert_template draw)

    -- `GenerateCA`, behind `BinDir`.
    unfoldable pub generate_ca : Bytes → Draw Time K E → Bytes → Bytes → W → Generated W E
    unfolding cert_template create_cert
    generate_ca bin_dir draw cert_path key_path w =
        with_key draw (bin_dir ++ cert_path) (bin_dir ++ key_path) w (draw.generate_key 2048)
