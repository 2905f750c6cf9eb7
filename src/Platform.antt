-- ===== src/Platform.antt =====
-- What the code calls outside the repository, as one parameter: OpenSSL (AES-GCM, SHA-256, HMAC,
-- random bytes) and the block store on the untrusted side of the enclave.
use private_data_objects.Prelude.{ℕ, ◌≡◌, Bool, true, Option, some, ByteArray, length}
use private_data_objects.Outcome.{Outcome, ok}

pub record Platform : Type 1 where
  -- Everything outside the enclave: the stored blocks and the source of randomness.
  pub World : Type 0
  -- SHA-256 of a message, and the HMAC of a message under a key.
  pub sha256 : ByteArray → ByteArray
  pub hmac : ByteArray → ByteArray → ByteArray
  -- AES-128-GCM under a key and an initialisation vector: the tag and the ciphertext.
  pub gcm_seal : ByteArray → ByteArray → ByteArray → Outcome (ByteArray × ByteArray)
  -- The same, from the tag and the ciphertext back to the plaintext.
  pub gcm_open : ByteArray → ByteArray → ByteArray → ByteArray → Outcome ByteArray
  -- `RandomBitString(n)`
  pub random_bits : ℕ → World → ByteArray × World
  -- `BlockStoreGet`: none is the status of a block that is not present.
  pub block_get : ByteArray → World → Outcome (Option ByteArray)
  -- `BlockStorePut`: whether the status is success.
  pub block_put : ByteArray → ByteArray → World → Outcome (Bool × World)

-- What the documentation of these libraries promises.
pub record IsCryptoLawful (p : Platform) : Type 0 where
  -- A sealed message opens to itself, and the tag has sixteen bytes.
  pub open-seal :
      (key iv plain tag ct : ByteArray)
      → p.gcm_seal key iv plain ≡ ok (tag, ct)
      → p.gcm_open key iv tag ct ≡ ok plain
  pub length_tag :
      (key iv plain tag ct : ByteArray) → p.gcm_seal key iv plain ≡ ok (tag, ct) → length tag ≡ 16
  pub length-sha256 : (m : ByteArray) → length (p.sha256 m) ≡ 32

-- A block store that gives back what was put into it, which the enclave does not rely on.
pub record IsStoreHonest (p : Platform) : Type 0 where
  pub get-put :
      (id block : ByteArray) (w w' : p.World)
      → p.block_put id block w ≡ ok (true, w')
      → p.block_get id w' ≡ ok (some block)
