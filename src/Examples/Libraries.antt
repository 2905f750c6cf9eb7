-- ===== src/Examples/Libraries.antt =====
-- Libraries and a block store for the blocks: sealing adds a tag of zeros, the hash is the first
-- 32 bytes, and the store keeps what it is given.
use private_data_objects.Prelude.{
  ◌≡◌, refl, ℕ, zero, suc, true, arith, List, [], ◌∷◌, ◌++◌, ByteArray, length, replicate,
  length-replicate, bytes_eq_refl,
}
use private_data_objects.Outcome.{ok}
use private_data_objects.Platform.{Platform, IsCryptoLawful, IsStoreHonest}
use private_data_objects.Ledger.Tables.{lookup, insert, lookup-insert}

-- The first `n` bytes, filled up by zeros.
abbrev first_bytes : ℕ → ByteArray → ByteArray
first_bytes zero m = []
first_bytes (suc n) [] = 0 ∷ first_bytes n []
first_bytes (suc n) (x ∷ m) = x ∷ first_bytes n m

length-first_bytes : (n : ℕ) (m : ByteArray) → length (first_bytes n m) ≡ n
length-first_bytes zero m = refl
length-first_bytes (suc n) [] = omega (arith, length-first_bytes n [])
length-first_bytes (suc n) (x ∷ m) = omega (arith, length-first_bytes n m)

abbrev pub libraries : Platform
libraries = record {
  World = List (ByteArray × ByteArray);
  sha256 = first_bytes 32;
  hmac = λ key m. first_bytes 32 (key ++ m);
  gcm_seal = λ key iv m. ok (replicate 16 0, m);
  gcm_open = λ key iv tag ct. ok ct;
  random_bits = λ n w. (replicate n 0, w);
  block_get = λ id w. ok (lookup id w);
  block_put = λ id block w. ok (true, insert id block w);
}

pub libraries-IsCryptoLawful : IsCryptoLawful libraries
libraries-IsCryptoLawful = record {
  open-seal = λ key iv plain tag ct e. ground (arith, e);
  length_tag = λ key iv plain tag ct e. ground (arith, e, length-replicate {A = ℕ} 16 0);
  length-sha256 = length-first_bytes 32;
}

pub libraries-IsStoreHonest : IsStoreHonest libraries
libraries-IsStoreHonest = record {
  get-put = λ id block w w' e. ground (arith, e, lookup-insert id id block w, bytes_eq_refl id);
}
