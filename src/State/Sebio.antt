-- ===== src/State/Sebio.antt =====
-- common/state/sebio.cpp: secure block I/O. A block's identity is its hash.
use private_data_objects.Prelude.{
  [], ◌≡◌, inl, inr, Bool, true, false, arith, Option, some, none, ByteArray, bytes_eq, bytes_eq→eq,
  bytes_eq_refl, if◌then◌else◌,
}
use private_data_objects.Outcome.{Outcome, ok, runtime_error, ◌>>=◌, ◌>>◌, throw_if, Outcome-cases}
use private_data_objects.Platform.{Platform, IsStoreHonest}
use private_data_objects.Crypto.Skenc.{encrypt_message, decrypt_message}

-- `sebio_crypto_algo_e`
pub data CryptoAlgo : Type 0 where
  no_crypto aes_gcm : CryptoAlgo

-- `state_status_t`, as far as sebio returns it.
pub data Status : Type 0 where
  success err_unknown err_not_found err_block_authentication : Status

-- `sebio_ctx_t` with the default fetch and evict functions.
pub record Context : Type 0 where
  pub key : ByteArray
  pub algo : CryptoAlgo

-- `ret != STATE_SUCCESS`
abbrev pub is_failure : Status → Bool
is_failure success = false
is_failure _ = true

-- `sebio_ctx.crypto_algo != crypto_algo`
abbrev is_aes : CryptoAlgo → Bool
is_aes no_crypto = false
is_aes aes_gcm = true

module _ (p : Platform) where
  -- The switch on the algorithm, once the hash is checked.
  open_block : Context → CryptoAlgo → ByteArray → Outcome (Status × ByteArray)
  open_block ctx no_crypto block = ok (success, block)
  open_block ctx aes_gcm block = do
    throw_if (if is_aes ctx.algo then false else true) runtime_error
    plain ← decrypt_message p ctx.key block
    ok (success, plain)

  check_block : Context → ByteArray → CryptoAlgo → Option ByteArray → Outcome (Status × ByteArray)
  unfolding open_block
  check_block ctx id algo none = ok (err_not_found, [])
  check_block ctx id algo (some block) =
      if bytes_eq id (p.sha256 block)
      then open_block ctx algo block
      else ok (err_block_authentication, block)

  -- `sebio_fetch_from_block_store`
  unfoldable pub sebio_fetch :
      Context → ByteArray → CryptoAlgo → p.World → Outcome (Status × ByteArray)
  unfolding check_block
  sebio_fetch ctx id algo w = do found ← p.block_get id w; check_block ctx id algo found

  abbrev put_block : ByteArray → p.World → Outcome (Status × ByteArray × p.World)
  put_block block w = do
    let id = p.sha256 block
    (stored, w') ← p.block_put id block w
    ok (if stored then success else err_unknown, id, w')

  -- `sebio_evict_to_block_store`: the status and `idOnEviction`.
  unfoldable pub sebio_evict :
      Context → ByteArray → CryptoAlgo → p.World → Outcome (Status × ByteArray × p.World)
  sebio_evict ctx block no_crypto w = put_block block w
  sebio_evict ctx block aes_gcm w = do
    throw_if (if is_aes ctx.algo then false else true) runtime_error
    (sealed, w') ← encrypt_message p ctx.key block w
    put_block sealed w'

  -- Whatever the untrusted store answers, a block that is fetched with success and without
  -- encryption is the block that the identity names: its hash is the identity.
  pub sebio_fetch_authentic :
      (ctx : Context) (id block : ByteArray) (w : p.World)
      → sebio_fetch ctx id no_crypto w ≡ ok (success, block)
      → p.sha256 block ≡ id
  unfolding sebio_fetch
  sebio_fetch_authentic ctx id block w h = elim (Outcome-cases (p.block_get id w)) [
    | inl (none, e) ↦ ground (arith, e)
    | inl (some b, e) ↦ ground (arith, e, bytes_eq→eq id (p.sha256 b))
    | inr (x, e) ↦ ground (arith, e)
  ]

  -- From an honest store an evicted block is fetched again.
  pub sebio_fetch-sebio_evict :
      IsStoreHonest p
      → (ctx : Context) (block id : ByteArray) (w w' : p.World)
      → sebio_evict ctx block no_crypto w ≡ ok (success, id, w')
      → sebio_fetch ctx id no_crypto w' ≡ ok (success, block)
  unfolding sebio_fetch sebio_evict
  sebio_fetch-sebio_evict honest ctx block id w w' h =
      elim (Outcome-cases (p.block_put (p.sha256 block) block w)) [
        | inl ((stored, v), e) ↦
            ground
              (arith, e, honest.get-put (p.sha256 block) block w v, bytes_eq_refl (p.sha256 block))
        | inr (x, e) ↦ ground (arith, e)
      ]
