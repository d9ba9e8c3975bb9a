-- ===== src/Disk.antt =====
-- What utils/cagen.go, utils/cert.go, proxy/proxy.go and utils/gamedata/load.go call of os and
-- io/ioutil, and what they rely on: a file holds what was written to it, and the others are left alone.
pub mod Sample
use rhine.Prelude.{Bytes, Option, none, some, [], ◌++◌, ◌≡◌, ◌≢◌, ◌⊎◌, inr}

-- `os.Stat`, with its error.
pub data Look (E : Type 0) : Type 0 where
  present : Look E
  not_exist : Look E
  stat_error : E → Look E

-- The calls on a state of the disk. An error leaves a state as well; a file is known by its path.
pub record Disk (W E : Type 0) : Type 0 where
  pub stat : Bytes → W → Look E
  pub create : Bytes → W → W × Option E
  pub write : Bytes → Bytes → W → W × Option E
  pub open_file : Bytes → W → Option E
  pub read_all : Bytes → W → E ⊎ Bytes

-- The documented behaviour, for a view of the files that can be read.
pub record IsLawful {W E : Type 0} (disk : Disk W E) (file : Bytes → W → Option Bytes)
    : Type 0 where
  pub stat-file : (p c : Bytes) (w : W) → file p w ≡ some c → disk.stat p w ≡ present
  pub open_file-file : (p c : Bytes) (w : W) → file p w ≡ some c → disk.open_file p w ≡ none
  pub read_all-file : (p c : Bytes) (w : W) → file p w ≡ some c → disk.read_all p w ≡ inr c
  pub create-file : (p : Bytes) (w w' : W) → disk.create p w ≡ (w', none) → file p w' ≡ some []
  pub write-file :
      (p c data_in : Bytes) (w w' : W)
      → file p w ≡ some c
      → disk.write p data_in w ≡ (w', none)
      → file p w' ≡ some (c ++ data_in)
  pub write-stat :
      (p c data_in : Bytes) (w : W)
      → file p w ≡ some c
      → disk.stat p (disk.write p data_in w).0 ≡ present
  pub create-other : (p q : Bytes) (w : W) → p ≢ q → file q (disk.create p w).0 ≡ file q w
  pub write-other :
      (p q data_in : Bytes) (w : W) → p ≢ q → file q (disk.write p data_in w).0 ≡ file q w
