-- ===== src/Provisioning/Secret/Opened.antt =====
-- A secret that a provisioning service hands out opens in the contract enclave it is for.
use private_data_objects.Prelude.{
  ◌≡◌, refl, ap, sym, ◌∙◌, ℕ, ◌+◌, ◌*◌, false, [], ◌++◌, arith, ByteArray, length, replicate,
  length-replicate, ltb, if◌then◌else◌,
}
use private_data_objects.CString.{Text}
use private_data_objects.Outcome.{
  Error, ok, err, ok_injective, value_error, throw_if, ◌>>=◌, >>=-eq-ok,
}
use private_data_objects.Crypto.Keys.{Keys, IsKeysLawful}
use private_data_objects.HexString.{hex_digit, binary_to_hex_string}
use private_data_objects.HexString.RoundTrip.{AreBytes}
use private_data_objects.Enclave.Host.{EnclaveHost, IsHostLawful}
use private_data_objects.Enclave.Data.{EnclaveData, unseal_enclave_data, max_sig_size}
use private_data_objects.Enclave.Secrets.{secret_contents, into_buffer, open_secret}
use private_data_objects.Provisioning.Info.{Attestation, verify_enclave_info}
use private_data_objects.Provisioning.Secret.{
  unseal_secret, sign_secret, sign_and_encrypt_secret, generate_enclave_secret,
}
use private_data_objects.Provisioning.Secret.Signed.{
  IsMeeting, IsSignedSecret, sign_secret_lem, open_secret_lem,
}

zero_secret : binary_to_hex_string (replicate 16 0) ≡ replicate 32 b'0'
unfolding binary_to_hex_string hex_digit replicate
zero_secret = refl

module _ (k : Keys) (e : EnclaveHost) (t : Attestation) where
  unseal_secret_lem :
      (blob secret : ByteArray)
      → e.unseal blob ≡ ok ([], secret)
      → unseal_secret k e blob (replicate (e.sealed_length blob) 0) ≡ secret
  unfolding unseal_secret
  unseal_secret_lem blob secret h =
      let size = length-replicate {A = ℕ} (e.sealed_length blob) 0 in
      let buffer : ByteArray = replicate (e.sealed_length blob) 0 in
      let fits : ltb (length buffer) (e.sealed_length blob) ≡ false = ground arith in
      rw (fits, h) refl

  -- What a service did to hand out a secret.
  record IsSealed (pd : EnclaveData k) (hex : ByteArray) (enclave_id contract_id opk : Text)
      (encrypt_key : Text) (draw₁ draw₂ : ℕ) (esecret : ByteArray) : Type 0 where
    secretsig : ByteArray
    key : k.EncPublic
    signed : IsSignedSecret k e pd (secret_contents hex enclave_id contract_id opk) secretsig draw₁
    read : k.read_enc_public encrypt_key ≡ ok key
    encrypted : k.encrypt key (hex ++ secretsig) draw₂ ≡ ok esecret

  sign_and_encrypt_secret_lem :
      (hex sealed_data esecret : ByteArray) (contract_id opk info enclave_id encrypt_key : Text)
      (draw₁ draw₂ : ℕ) (pd : EnclaveData k)
      → unseal_enclave_data k e sealed_data ≡ ok pd
      → verify_enclave_info k e t info ≡ ok (enclave_id, encrypt_key)
      → sign_and_encrypt_secret k e t hex sealed_data contract_id opk info draw₁ draw₂ ≡ ok esecret
      → IsSealed pd hex enclave_id contract_id opk encrypt_key draw₁ draw₂ esecret
  unfolding sign_and_encrypt_secret max_sig_size
  sign_and_encrypt_secret_lem hex sealed_data esecret contract_id opk info enclave_id encrypt_key
        draw₁ draw₂ pd unsealed verified h =
      let (_, e₁, h₁) = >>=-eq-ok (throw_if (ltb (length hex) 32) value_error) _ h in
      let (_, e₂, h₂) = >>=-eq-ok (throw_if (ltb 32 (length hex)) value_error) _ h₁ in
      let ((enclave_id', encrypt_key'), e₃, h₃) = >>=-eq-ok (verify_enclave_info k e t info) _ h₂ in
      let (pd', e₄, h₄) = >>=-eq-ok (unseal_enclave_data k e sealed_data) _ h₃ in
      let (secretsig, e₅, h₅) =
        >>=-eq-ok (sign_secret k e pd' hex enclave_id' contract_id opk draw₁) _ h₄ in
      let max = k.max_sig_size pd'.private_signing_key in
      let (_, e₆, h₆) =
        >>=-eq-ok (throw_if (ltb (length (hex ++ secretsig)) (32 + max * 2)) value_error) _ h₅ in
      let (key, e₇, h₇) = >>=-eq-ok (k.read_enc_public encrypt_key') _ h₆ in
      let (_, e₈, h₈) =
        >>=-eq-ok
          (throw_if (ltb (length (hex ++ secretsig)) (length hex + length secretsig)) value_error) _
          h₇ in
      let same_pd : pd' ≡ pd = ok_injective (sym e₄ ∙ unsealed) in
      let same_id : enclave_id' ≡ enclave_id =
        ap (λ (r : Text × Text). r.0) (ok_injective (sym e₃ ∙ verified)) in
      let same_key : encrypt_key' ≡ encrypt_key =
        ap (λ (r : Text × Text). r.1) (ok_injective (sym e₃ ∙ verified)) in
      record {
        secretsig = secretsig;
        key = key;
        signed =
            sign_secret_lem k e pd hex secretsig enclave_id contract_id opk draw₁
              (rw (← same_pd, ← same_id) e₅);
        read = rw (← same_key) e₇;
        encrypted = h₈;
      }

  -- The encrypted secret, and the buffer that it is copied to.
  pub record IsHandedOut (d : EnclaveData k) (enclave_id contract_id opk pspk : Text) (size : ℕ)
      (secret out : ByteArray) : Type 0 where
    pub esecret : ByteArray
    pub copied :
        out ≡ (if ltb size (length esecret) then replicate size 0 else into_buffer size esecret)
    pub opens :
        open_secret k e d enclave_id contract_id opk pspk (e.base64_encode esecret) ≡ ok secret

  -- With lawful libraries and keys of one size: when a provisioning service hands out a sealed secret of
  -- sixteen bytes for an attested enclave, the enclave with these keys opens the encrypted secret, for
  -- the same contract and creator, to the secret. The buffer holds the encrypted secret and zeros behind it,
  -- or zeros only, if it is too short.
  pub open_secret-generate :
      IsKeysLawful k
      → IsHostLawful e
      → (secret sealed_data sealed_secret out : ByteArray)
        (contract_id opk info enclave_id encrypt_key pspk : Text) (size draw₁ draw₂ : ℕ)
        (d pd : EnclaveData k)
      → IsMeeting k e d pd encrypt_key pspk
      → AreBytes secret
      → length secret ≡ 16
      → e.unseal sealed_secret ≡ ok ([], secret)
      → unseal_enclave_data k e sealed_data ≡ ok pd
      → verify_enclave_info k e t info ≡ ok (enclave_id, encrypt_key)
      → generate_enclave_secret k e t sealed_data sealed_secret contract_id opk info size draw₁
          draw₂
        ≡ ok out
      → IsHandedOut d enclave_id contract_id opk pspk size secret out
  unfolding generate_enclave_secret
  open_secret-generate keys host secret sealed_data sealed_secret out contract_id opk info
        enclave_id encrypt_key pspk size draw₁ draw₂ d pd m bytes sixteen opened unsealed verified
        h =
      let plain = unseal_secret k e sealed_secret (replicate (e.sealed_length sealed_secret) 0) in
      let (esecret, e₁, h₁) =
        >>=-eq-ok
          (sign_and_encrypt_secret k e t (binary_to_hex_string plain) sealed_data contract_id opk
            info draw₁ draw₂)
          _ h in
      let q =
        sign_and_encrypt_secret_lem (binary_to_hex_string secret) sealed_data esecret contract_id
          opk info enclave_id encrypt_key draw₁ draw₂ pd unsealed verified
          (rw (unseal_secret_lem sealed_secret secret opened) at e₁) in
      let same_key : q.key ≡ m.enclave_key = ok_injective (sym q.read ∙ m.enclave_text) in
      record {
        esecret = esecret;
        copied = sym (ok_injective h₁);
        opens =
            open_secret_lem k e keys m secret esecret q.secretsig (e.base64_encode esecret)
              enclave_id contract_id opk draw₁ bytes sixteen q.signed (host.decode-encode esecret)
              (keys.decrypt-encrypt d.private_encryption_key m.enclave_key _ esecret draw₂
                m.enclave_pair (rw same_key at q.encrypted));
      }

  unseal_secret_failed :
      (blob buffer : ByteArray) (x : Error)
      → e.unseal blob ≡ err x
      → unseal_secret k e blob buffer ≡ buffer
  unfolding unseal_secret
  unseal_secret_failed blob buffer x failed = ground (arith, failed)

  -- A sealed secret that cannot be unsealed, but whose header claims sixteen bytes, is handed out as the
  -- secret of sixteen zeros would be: signed and encrypted, with no exception of its own.
  pub generate_enclave_secret_unsealed :
      (sealed_data sealed_secret : ByteArray) (contract_id opk info : Text) (size draw₁ draw₂ : ℕ)
      (x : Error)
      → e.unseal sealed_secret ≡ err x
      → e.sealed_length sealed_secret ≡ 16
      → generate_enclave_secret k e t sealed_data sealed_secret contract_id opk info size draw₁
          draw₂
        ≡ (sign_and_encrypt_secret k e t
              (replicate 32 b'0')
              sealed_data
              contract_id
              opk
              info
              draw₁
              draw₂
            >>= λ esecret.
                ok (
                  if ltb size (length esecret) then replicate size 0 else into_buffer size esecret))
  unfolding generate_enclave_secret
  generate_enclave_secret_unsealed sealed_data sealed_secret contract_id opk info size draw₁ draw₂ x
        failed header =
      let zeros : ByteArray = replicate (e.sealed_length sealed_secret) 0 in
      let hex : binary_to_hex_string (unseal_secret k e sealed_secret zeros) ≡ replicate 32 b'0' =
        ap binary_to_hex_string (unseal_secret_failed sealed_secret zeros x failed)
        ∙ ap (λ n. binary_to_hex_string (replicate n 0)) header
        ∙ zero_secret in
      rw hex refl
