-- ===== src/Authority/Start.antt =====
-- The part of `NewProxy` (proxy/proxy.go) that sees to the certificate authority.
use rhine.Disk.{Disk, Look, not_exist, present, stat_error}
use rhine.Authority.Generate.{
  Crypto, Draw, GenerateError, Generated, generated, generate_error, panics_cert, panics_key,
  generate_ca,
}
use rhine.Authority.Load.{Tls, Globals, Loaded, loaded, load_error, no_certificate, load_ca}
use rhine.Prelude.{Bytes, Bool, true, false, List, [], ◌∷◌, ◌++◌, ◌||◌, codes, if◌then◌else◌}

-- The lines for the logger of the proxy.
pub data StartLine (E : Type 0) : Type 0 where
  generating : StartLine E
  saved_in : Bytes → StartLine E
  register_hint : StartLine E
  generate_failed : GenerateError E → StartLine E
  load_failed : E → StartLine E

-- `NewProxy` goes on, or the program panics; both leave the disk, the globals and the lines.
pub data Started (W E G : Type 0) : Type 0 where
  starts : W → G → List (StartLine E) → Started W E G
  start_panics : W → G → List (StartLine E) → Started W E G

abbrev pub cert_name : Bytes
cert_name = codes "cert.pem"

abbrev pub key_name : Bytes
key_name = codes "key.pem"

-- `os.IsNotExist`.
abbrev pub is_not_exist : {E : Type 0} → Look E → Bool
is_not_exist present = false
is_not_exist not_exist = true
is_not_exist (stat_error e) = false

module _ {Time K P C T E W : Type 0} (crypto : Crypto Time K P C E) (tls : Tls K C T E)
    (disk : Disk W E) (bin_dir : Bytes) where
  abbrev pub after_load : W → List (StartLine E) → Loaded K C T E → Started W E (Globals K C T)
  after_load w lines (loaded g) = starts w g lines
  after_load w lines (load_error e g) = start_panics w g (lines ++ load_failed e ∷ [])
  after_load w lines (no_certificate g) = start_panics w g lines

  unfoldable pub load_or_panic :
      W → Globals K C T → List (StartLine E) → Started W E (Globals K C T)
  load_or_panic w g lines =
      after_load w lines (load_ca crypto.parse_certificate tls disk bin_dir cert_name key_name w g)

  abbrev pub after_generate : Globals K C T → Generated W E → Started W E (Globals K C T)
  after_generate g (generated w) =
      load_or_panic w g (generating ∷ saved_in bin_dir ∷ register_hint ∷ [])
  after_generate g (generate_error e w) = start_panics w g (generating ∷ generate_failed e ∷ [])
  after_generate g (panics_cert e w) = start_panics w g (generating ∷ [])
  after_generate g (panics_key e w) = start_panics w g (generating ∷ [])

  -- Whether a CA has to be made.
  unfoldable pub must_generate : W → Bool
  must_generate w =
      is_not_exist (disk.stat (bin_dir ++ cert_name) w)
      || is_not_exist (disk.stat (bin_dir ++ key_name) w)

  unfoldable pub start_ca : Draw Time K E → W → Globals K C T → Started W E (Globals K C T)
  unfolding must_generate load_or_panic
  start_ca draw w g =
      if must_generate w
      then after_generate g (generate_ca crypto disk bin_dir draw cert_name key_name w)
      else load_or_panic w g []
