-- ===== src/Provisioning/Secret/Signed.antt =====
-- The padded signature of a secret, and how the contract enclave reads it.
use private_data_objects.Prelude.{
  ◌≡◌, refl, ap, sym, ◌∙◌, ◌≤◌, ℕ, zero, suc, ◌+◌, ◌-◌, ◌*◌, ◌/◌, ◌%◌, false, [], ◌∷◌, ◌++◌, arith,
  ByteArray, length, replicate, length-append, length-replicate, ltb,
}
use private_data_objects.Prelude.Slices.{slice-append_left, slice_rest}
use private_data_objects.CString.{Text}
use private_data_objects.Outcome.{
  ok, ok_injective, value_error, standard_exception, throw_if, throw_if_passed, >>=-eq-ok,
}
use private_data_objects.Crypto.Keys.{Keys, IsKeysLawful}
use private_data_objects.HexString.{hex_digit, binary_to_hex_string}
use private_data_objects.HexString.RoundTrip.{
  AreBytes, length-binary, hex_string_to_binary-binary_to_hex_string,
}
use private_data_objects.Enclave.Host.{EnclaveHost}
use private_data_objects.Enclave.Data.{
  EnclaveData, enclave_decrypt_message, sign_message, max_sig_size,
}
use private_data_objects.Enclave.Secrets.{secret_contents, verify_secret_signature, open_secret}
use private_data_objects.Provisioning.Secret.{sign_secret}

-- Zeros in the string are zeros behind the bytes.
binary-append_zeros :
    (bytes : ByteArray) (n : ℕ)
    → binary_to_hex_string bytes ++ replicate (2 * n) b'0'
      ≡ binary_to_hex_string (bytes ++ replicate n 0)
unfolding binary_to_hex_string replicate hex_digit
binary-append_zeros [] zero = refl
binary-append_zeros [] (suc n) =
    let more = binary-append_zeros [] n in
    let double : 2 * suc n ≡ suc (suc (2 * n)) = omega arith in
    rw double (ap (λ t. b'0' ∷ b'0' ∷ t) more)
binary-append_zeros (x ∷ bytes) n =
    ap (λ t. hex_digit (x / 16) ∷ hex_digit (x % 16) ∷ t) (binary-append_zeros bytes n)

AreBytes-append_zeros :
    (bytes : ByteArray) (n : ℕ) → AreBytes bytes → AreBytes (bytes ++ replicate n 0)
unfolding replicate
AreBytes-append_zeros [] zero h = tt
AreBytes-append_zeros [] (suc n) h = (omega arith, AreBytes-append_zeros [] n tt)
AreBytes-append_zeros (x ∷ bytes) n h = (h.0, AreBytes-append_zeros bytes n h.1)

module _ (k : Keys) (e : EnclaveHost) where
  -- The contract enclave, the provisioning service and the names of their keys.
  pub record IsMeeting (d pd : EnclaveData k) (encrypt_key pspk : Text) : Type 0 where
    pub enclave_key : k.EncPublic
    pub service_key : k.SigPublic
    pub enclave_pair : k.enc_public_of d.private_encryption_key ≡ ok enclave_key
    pub enclave_text : k.read_enc_public encrypt_key ≡ ok enclave_key
    pub service_pair : k.sig_public_of pd.private_signing_key ≡ ok service_key
    pub service_text : k.read_sig_public pspk ≡ ok service_key
    pub same_size : k.max_sig_size d.private_signing_key ≡ k.max_sig_size pd.private_signing_key

  -- The signature that is handed out with a secret.
  pub record IsSignedSecret (pd : EnclaveData k) (contents secretsig : ByteArray) (draw : ℕ)
      : Type 0 where
    pub signature : ByteArray
    pub pad : ℕ
    pub signed : k.sign pd.private_signing_key contents draw ≡ ok signature
    pub whole : secretsig ≡ binary_to_hex_string (signature ++ replicate pad 0)
    pub size : length signature + pad ≡ k.max_sig_size pd.private_signing_key

  pub sign_secret_lem :
      (pd : EnclaveData k) (hex secretsig : ByteArray) (enclave_id contract_id opk : Text)
      (draw : ℕ)
      → sign_secret k e pd hex enclave_id contract_id opk draw ≡ ok secretsig
      → IsSignedSecret pd (secret_contents hex enclave_id contract_id opk) secretsig draw
  unfolding sign_secret sign_message max_sig_size
  sign_secret_lem pd hex secretsig enclave_id contract_id opk draw h =
      let max = k.max_sig_size pd.private_signing_key in
      let (s, e₁, h₁) =
        >>=-eq-ok
          (k.sign pd.private_signing_key (secret_contents hex enclave_id contract_id opk) draw) _
          h in
      let digits = binary_to_hex_string s in
      let padded = digits ++ replicate (2 * max - length digits) b'0' in
      let (_, e₂, h₂) =
        >>=-eq-ok (throw_if (ltb (2 * max) (length digits)) standard_exception) _ h₁ in
      let (_, e₃, h₃) = >>=-eq-ok (throw_if (ltb (length padded) (max * 2)) value_error) _ h₂ in
      let (_, e₄, h₄) = >>=-eq-ok (throw_if (ltb (max * 2) (length padded)) value_error) _ h₃ in
      let fits = throw_if_passed (ltb (2 * max) (length digits)) standard_exception e₂ in
      let len = length-binary s in
      let room : length s ≤ max = ground (arith, fits, len) in
      let pad : 2 * max - length digits ≡ 2 * (max - length s) = omega (arith, len) in
      record {
        signature = s;
        pad = max - length s;
        signed = e₁;
        whole =
            sym (ok_injective h₄)
            ∙ ap (λ n. digits ++ replicate n b'0') pad
            ∙ binary-append_zeros s (max - length s);
        size = omega arith;
      }

  module _ (keys : IsKeysLawful k) {d pd : EnclaveData k} {encrypt_key pspk : Text}
      (m : IsMeeting d pd encrypt_key pspk) where
    pub open_secret_lem :
        (secret cipher secretsig encoded : ByteArray) (enclave_id contract_id opk : Text) (draw : ℕ)
        → AreBytes secret
        → length secret ≡ 16
        → IsSignedSecret pd
            (secret_contents (binary_to_hex_string secret) enclave_id contract_id opk)
            secretsig
            draw
        → e.base64_decode encoded ≡ cipher
        → k.decrypt d.private_encryption_key cipher ≡ ok (binary_to_hex_string secret ++ secretsig)
        → open_secret k e d enclave_id contract_id opk pspk encoded ≡ ok secret
    unfolding open_secret enclave_decrypt_message max_sig_size verify_secret_signature
    open_secret_lem secret cipher secretsig encoded enclave_id contract_id opk draw bytes size q
          decoded opened =
        let hex = binary_to_hex_string secret in
        let sig = q.signature ++ replicate q.pad 0 in
        let digits = binary_to_hex_string sig in
        let hex_size : length hex ≡ 32 = omega (arith, length-binary secret) in
        let sig_size : length sig ≡ k.max_sig_size d.private_signing_key = omega (
          arith,
          length-append q.signature (replicate q.pad 0),
          length-replicate {A = ℕ} q.pad 0,
          q.size,
          m.same_size,
        ) in
        let whole_size : length (hex ++ digits) ≡ 32 + k.max_sig_size d.private_signing_key * 2 =
          omega (arith, length-append hex digits, length-binary sig) in
        let first = slice-append_left hex digits 32 hex_size in
        let rest =
          slice_rest hex digits 32 (length (hex ++ digits) - 32) (omega arith)
            (omega (arith, length-append hex digits)) in
        let read = hex_string_to_binary-binary_to_hex_string secret bytes in
        let read_sig = hex_string_to_binary-binary_to_hex_string sig (
          AreBytes-append_zeros q.signature q.pad
            (keys.sign-AreBytes pd.private_signing_key _ q.signature draw q.signed)) in
        let verified =
          keys.verify-sign pd.private_signing_key m.service_key _ q.signature (replicate q.pad 0)
            draw m.service_pair q.signed in
        let long : ltb (length (hex ++ digits)) (32 + k.max_sig_size d.private_signing_key * 2)
            ≡ false =
          ground arith in
        rw (decoded, opened)
          (rw q.whole (rw (long, first, rest, read, read_sig, m.service_text, verified) refl))
