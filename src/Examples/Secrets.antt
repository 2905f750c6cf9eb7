-- ===== src/Examples/Secrets.antt =====
-- A secret of a provisioning service for a contract: handed out, opened by the enclave, combined into the
-- key of the contract's state, and the addition of the enclave that the ledger accepts.
use private_data_objects.Prelude.{
  ◌≡◌, refl, arith, true, false, [], ◌∷◌, none, some, ByteArray, bytes_eq, length, length-append,
  replicate, ltb, if◌then◌else◌,
}
use private_data_objects.Prelude.Slices.{slice}
use private_data_objects.CString.{Text, c_str, string_at}
use private_data_objects.Outcome.{Outcome, ok, err, value_error, ◌>>=◌}
use private_data_objects.HexString.{
  hex_digit, hex_to_nibble, hex_to_byte, hex_loop, toupper, binary_to_hex_string,
  hex_string_to_binary,
}
use private_data_objects.HexString.RoundTrip.{AreBytes}
use private_data_objects.Ledger.Signatures.{
  concat_secrets, verify_enclave_signature_add_enclave, verify_sig,
}
use private_data_objects.Enclave.Data.{
  deserialize_sealed_data, serialize_private_data, serialize_public_data, unseal_enclave_data,
  enclave_decrypt_message, sign_message, max_sig_size, get_enclave_id,
}
use private_data_objects.Enclave.Secrets.{
  VerifiedSecrets, into_buffer, xor_bytes, is_in, verify_secret_signature, open_secret,
  secrets_loop, create_enclave_state_encryption_key, encrypt_state_encryption_key, verify_secrets,
}
use private_data_objects.Provisioning.Info.{Attestation, verify_enclave_info}
use private_data_objects.Provisioning.Secret.{
  unseal_secret, sign_secret, sign_and_encrypt_secret, generate_enclave_secret,
}
use private_data_objects.Provisioning.Secret.Signed.{IsMeeting}
use private_data_objects.Provisioning.Secret.Opened.{
  IsHandedOut, open_secret-generate, generate_enclave_secret_unsealed,
}
use private_data_objects.Protocol.{IsVerifierOf}
use private_data_objects.Protocol.Addition.{IsAddable, add_enclave-verify_secrets}
use private_data_objects.Examples.Service.{service}
use private_data_objects.Examples.Enclaves.{
  keys, keys-IsKeysLawful, enclave, signup, contract_id, secret, host, host-IsHostLawful,
}

program : Unit {0}
unfolding bytes_eq replicate slice c_str string_at hex_digit hex_to_nibble hex_to_byte hex_loop
    toupper binary_to_hex_string hex_string_to_binary concat_secrets verify_sig
    verify_enclave_signature_add_enclave deserialize_sealed_data serialize_private_data
    serialize_public_data unseal_enclave_data enclave_decrypt_message sign_message max_sig_size
    get_enclave_id xor_bytes is_in verify_secret_signature open_secret secrets_loop
    create_enclave_state_encryption_key encrypt_state_encryption_key verify_secrets
    verify_enclave_info unseal_secret sign_secret sign_and_encrypt_secret generate_enclave_secret
program = tt

abbrev creator : Text
creator = 6 ∷ []

-- A simulator, which attests nothing.
abbrev simulator : Attestation
simulator = record {
  parse_info = λ t. some (record {
    verifying_key = some (1 ∷ []);
    encryption_key = some (1 ∷ []);
    owner_id = some [];
    proof_data = none;
  });
  parse_proof = λ t. none;
  parse_report = λ t. none;
  is_quote_accepted = λ t. false;
  is_chain_valid = λ t. false;
  is_report_signed = λ c r s. false;
  sha256 = λ m. m;
  freed = λ m. m;
  quote_at = λ b. record { report_data = b; mr_enclave = b; mode_64_bit = true; debug = false };
  is_simulator = true;
  allowed_mr_enclave = [];
  is_debug_checked = false;
  debug_flag = false;
}

abbrev bytes_of : Outcome ByteArray → ByteArray
bytes_of (ok m) = m
bytes_of (err x) = []

-- The secret in hexadecimal and the signature, of one byte.
abbrev handed_out : ByteArray
handed_out =
    bytes_of (
      generate_enclave_secret keys host simulator signup (0 ∷ secret) contract_id creator [] 34 0 0)

meeting : IsMeeting keys host enclave enclave (1 ∷ []) (1 ∷ [])
meeting = record {
  enclave_key = 1 ∷ [];
  service_key = 1 ∷ [];
  enclave_pair = refl;
  enclave_text = refl;
  service_pair = refl;
  service_text = refl;
  same_size = refl;
}

secret-AreBytes : AreBytes secret
unfolding program
secret-AreBytes = ground arith

open_secret-generate_example :
    IsHandedOut keys host simulator enclave
      (1 ∷ [])
      contract_id
      creator
      (1 ∷ [])
      34
      secret
      handed_out
unfolding program
open_secret-generate_example =
    open_secret-generate keys host simulator keys-IsKeysLawful host-IsHostLawful secret signup
      (0 ∷ secret) handed_out contract_id creator [] (1 ∷ []) (1 ∷ []) (1 ∷ []) 34 0 0 enclave
      enclave meeting secret-AreBytes refl refl refl refl refl

-- Nothing was sealed, but a secret is handed out.
generate_enclave_secret_unsealed_example :
    generate_enclave_secret keys host simulator signup [] contract_id creator [] 34 0 0 ≡ (
      sign_and_encrypt_secret keys host simulator
        (replicate 32 b'0')
        signup
        contract_id
        creator
        []
        0
        0
      >>= λ esecret.
          ok (if ltb 34 (length esecret) then replicate 34 0 else into_buffer 34 esecret))
generate_enclave_secret_unsealed_example =
    generate_enclave_secret_unsealed keys host simulator signup [] contract_id creator [] 34 0 0
      value_error refl refl

abbrev or_nothing : Outcome VerifiedSecrets → VerifiedSecrets
or_nothing (ok v) = v
or_nothing (err x) = record { encrypted_contract_key = []; signature = []; signature_length = 0 }

-- The buffer has the size of a sealed key: the length of the contract's id, the id and the key.
abbrev verified : VerifiedSecrets
verified = or_nothing (verify_secrets keys host signup contract_id creator handed_out 49 80 0 0)

verifies : IsVerifierOf service keys (1 ∷ []) enclave
unfolding program
verifies m s draw e = ground (arith, e)

sealed_size :
    (m blob : ByteArray) → length m ≡ 16 → host.seal contract_id m 0 ≡ ok blob → 49 ≡ length blob
unfolding program
sealed_size m blob size e = ground (arith, e, size, length-append contract_id m)

add_enclave-verify_secrets_example :
    IsAddable keys host service enclave contract_id creator handed_out 49 80 0 0 verified
      (1 ∷ [])
      (1 ∷ [])
      verified.encrypted_contract_key
unfolding program
add_enclave-verify_secrets_example =
    add_enclave-verify_secrets keys host service signup contract_id creator handed_out 49 80 0 0
      enclave verified (1 ∷ []) (1 ∷ []) verified.encrypted_contract_key verifies sealed_size refl
      refl refl refl
