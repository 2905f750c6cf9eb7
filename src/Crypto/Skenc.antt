-- ===== src/Crypto/Skenc.antt =====
-- common/crypto/skenc.cpp: authenticated encryption. A message is sealed to its initialisation
-- vector, the tag and the ciphertext, one behind the other.
use private_data_objects.Prelude.{
  ℕ, ◌+◌, ◌-◌, ◌≡◌, not, arith, ◌++◌, ByteArray, ltb, ◌==◌, length, length-append, inl, inr, ◌∙◌,
}
use private_data_objects.Prelude.Slices.{slice, slice_rest, slice-append_left, slice-append_right}
use private_data_objects.Outcome.{Outcome, ok, value_error, throw_if, ◌>>=◌, ◌>>◌, Outcome-cases}
use private_data_objects.Platform.{Platform, IsCryptoLawful}

abbrev iv_len : ℕ
iv_len = 12

abbrev sym_key_len : ℕ
sym_key_len = 16

abbrev tag_len : ℕ
tag_len = 16

module _ (p : Platform) where
  -- `EncryptMessage(key, iv, message)`
  unfoldable pub encrypt_message_iv : ByteArray → ByteArray → ByteArray → Outcome ByteArray
  encrypt_message_iv key iv message = do
    throw_if (not (length key == sym_key_len)) value_error
    throw_if (not (length iv == iv_len)) value_error
    throw_if (length message == 0) value_error
    (tag, ct) ← p.gcm_seal key iv message
    ok (tag ++ ct)

  -- `EncryptMessage(key, message)`, with the vector that `GenerateIV` draws.
  unfoldable pub encrypt_message : ByteArray → ByteArray → p.World → Outcome (ByteArray × p.World)
  unfolding encrypt_message_iv
  encrypt_message key message w = do
    throw_if (length message == 0) value_error
    throw_if (not (length key == sym_key_len)) value_error
    let (iv, w') = p.random_bits iv_len w
    ct ← encrypt_message_iv key iv message
    ok (iv ++ ct, w')

  -- `DecryptMessage(key, iv, message)`
  unfoldable pub decrypt_message_iv : ByteArray → ByteArray → ByteArray → Outcome ByteArray
  decrypt_message_iv key iv message = do
    throw_if (not (length key == sym_key_len)) value_error
    throw_if (not (length iv == iv_len)) value_error
    throw_if (ltb (length message) tag_len) value_error
    p.gcm_open key iv (slice message 0 tag_len) (slice message tag_len (length message - tag_len))

  -- `DecryptMessage(key, message)`
  unfoldable pub decrypt_message : ByteArray → ByteArray → Outcome ByteArray
  decrypt_message key message = do
    throw_if (not (length key == sym_key_len)) value_error
    throw_if (ltb (length message) (iv_len + tag_len)) value_error
    p.gcm_open key (slice message 0 iv_len) (slice message iv_len tag_len)
        (slice message (iv_len + tag_len) (length message - iv_len - tag_len))

  module _ (lawful : IsCryptoLawful p) where
    encrypt_parts :
        (key message sealed : ByteArray) (w w' : p.World)
        → encrypt_message key message w ≡ ok (sealed, w')
        → (iv tag ct : ByteArray) × (length key ≡ sym_key_len)
          × (length iv ≡ iv_len)
          × (p.gcm_seal key iv message ≡ ok (tag, ct))
          × (sealed ≡ iv ++ (tag ++ ct))
          × (w' ≡ (p.random_bits iv_len w).1)
    unfolding encrypt_message
    encrypt_parts key message sealed w w' h =
        elim (Outcome-cases (p.gcm_seal key (p.random_bits iv_len w).0 message)) [
          | inl ((tag, ct), e) ↦ (
            (p.random_bits iv_len w).0,
            tag,
            ct,
            ground (arith, e),
            ground (arith, e),
            e,
            ground (arith, e),
            ground (arith, e),
          )
          | inr (x, e) ↦ absurd (ground (arith, e))
        ]

    -- With lawful libraries, a message that was encrypted decrypts to itself under the same key.
    pub decrypt-encrypt :
        (key message sealed : ByteArray) (w w' : p.World)
        → encrypt_message key message w ≡ ok (sealed, w')
        → decrypt_message key sealed ≡ ok message
    unfolding decrypt_message
    decrypt-encrypt key message sealed w w' h =
        let (iv, tag, ct, k, v, e, s, _) = encrypt_parts key message sealed w w' h in
        let t = lawful.length_tag key iv message tag ct e in
        let total = length-append tag ct in
        let whole = length-append iv (tag ++ ct) in
        let o = lawful.open-seal key iv message tag ct e in
        let a = slice-append_left iv (tag ++ ct) 12 v in
        let b =
          slice-append_right iv (tag ++ ct) 12 0 16 (omega arith) ∙ slice-append_left tag ct 16 t in
        let c =
          slice-append_right iv (tag ++ ct) 28 16 (length (iv ++ (tag ++ ct)) - 12 - 16)
            (omega arith)
          ∙ slice_rest tag ct 16 (length (iv ++ (tag ++ ct)) - 12 - 16) (omega arith)
              (omega arith) in
        rw s (ground (arith, k, v, t, total, whole, o, a, b, c))
