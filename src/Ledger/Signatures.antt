-- ===== src/Ledger/Signatures.antt =====
-- ledgers/ccf/transaction_processor/verify_signatures.cpp: the bytes that each signature is over.
use private_data_objects.Prelude.{Bool, List, [], ◌∷◌, ◌++◌, ByteArray}
use private_data_objects.Ledger.Records.{
  Text, EnclaveInfo, ProvisioningSecret, Dependency, StateUpdateInfo,
}
use private_data_objects.Ledger.Host.{Host}
use private_data_objects.Ledger.Reply.{Reply, success, or_fault, library_exception, ◌>>=◌}

-- `for (auto str: ids) message += str`
unfoldable pub concat_ids : List Text → Text
concat_ids [] = []
concat_ids (s ∷ ids) = s ++ concat_ids ids

unfoldable pub concat_secrets : List ProvisioningSecret → Text
concat_secrets [] = []
concat_secrets (prov ∷ rest) = prov.pspk ++ (prov.encrypted_secret ++ concat_secrets rest)

unfoldable pub concat_dependencies : List Dependency → Text
concat_dependencies [] = []
concat_dependencies (dep ∷ rest) =
    dep.contract_id ++ (dep.state_hash_for_sign ++ concat_dependencies rest)

-- What `initialize_contract_state` and `update_contract_state` have an enclave sign.
abbrev pub initialize_contents :
    ByteArray → Text → ByteArray → ByteArray → ByteArray → ByteArray → Text → ByteArray
initialize_contents nonce contract_id initial_state_hash code_hash message_hash metadata_hash
      creator =
    nonce
    ++ (contract_id
        ++ (code_hash ++ (message_hash ++ (creator ++ (metadata_hash ++ initial_state_hash)))))

abbrev pub update_contents : ByteArray → ByteArray → StateUpdateInfo → ByteArray
update_contents nonce code_hash info =
    nonce
    ++ (info.contract_id
        ++ (code_hash
            ++ (info.message_hash
                ++ (info.previous_state_hash
                    ++ (info.current_state_hash ++ concat_dependencies info.dependency_list)))))

module _ (h : Host) where
  unfoldable pub verify_sig_static : ByteArray → h.Verifier → ByteArray → Bool
  verify_sig_static signature pubk_verifier contents = h.verify pubk_verifier contents signature

  unfoldable pub verify_sig : ByteArray → Text → ByteArray → Reply Bool
  verify_sig signature verifying_key contents = do
    verifier ← or_fault (h.make_public_key verifying_key) library_exception
    success (h.verify verifier contents signature)

  unfoldable pub verify_rsa_sig : ByteArray → Text → ByteArray → Reply Bool
  verify_rsa_sig signature verifying_key contents =
      or_fault (h.verify_rsa verifying_key contents signature) library_exception

  unfoldable pub verify_ias_signature : Text → Text → Text → Reply Bool
  unfolding verify_rsa_sig
  verify_ias_signature signature ias_public_key report = do
    raw ← or_fault (h.raw_from_b64 signature) library_exception
    verify_rsa_sig raw ias_public_key report

  unfoldable pub verify_pdo_transaction_signature_register_enclave :
      ByteArray → Text → EnclaveInfo → Reply Bool
  unfolding verify_sig
  verify_pdo_transaction_signature_register_enclave signature verifying_key info =
      verify_sig signature verifying_key (
        verifying_key
        ++ (info.verifying_key
            ++ (info.encryption_key
                ++ (info.proof_data
                    ++ (info.enclave_persistent_id
                        ++ (info.registration_block_context ++ info.organizational_info))))))

  unfoldable pub verify_pdo_transaction_signature_register_contract :
      ByteArray → Text → ByteArray → Text → List Text → Reply Bool
  unfolding verify_sig concat_ids
  verify_pdo_transaction_signature_register_contract signature verifying_key code_hash nonce ids =
      verify_sig signature verifying_key (verifying_key ++ (code_hash ++ (concat_ids ids ++ nonce)))

  unfoldable pub verify_pdo_transaction_signature_add_enclave :
      ByteArray → Text → Text → Text → Reply Bool
  unfolding verify_sig
  verify_pdo_transaction_signature_add_enclave signature verifying_key contract_id enclave_info =
      verify_sig signature verifying_key (verifying_key ++ (contract_id ++ enclave_info))

  unfoldable pub verify_enclave_signature_add_enclave :
      Text → h.Verifier → Text → Text → List ProvisioningSecret → Text → Reply Bool
  unfolding verify_sig_static concat_secrets
  verify_enclave_signature_add_enclave signature verifier creator contract_id secrets
        encrypted_key =
      do
        temp ← or_fault (h.raw_from_b64 encrypted_key) library_exception
        raw ← or_fault (h.raw_from_b64 signature) library_exception
        success (
            verify_sig_static raw verifier
              (contract_id ++ (creator ++ (concat_secrets secrets ++ temp))))

  unfoldable pub verify_creator_signature_initialize_contract_state :
      ByteArray → ByteArray → Text → Reply Bool
  unfolding verify_sig
  verify_creator_signature_initialize_contract_state enclave_signature creator_signature creator =
      verify_sig creator_signature creator enclave_signature

  unfoldable pub verify_enclave_signature_initialize_contract_state :
      ByteArray
      → Text
      → ByteArray
      → ByteArray
      → ByteArray
      → ByteArray
      → Text
      → ByteArray
      → h.Verifier
      → Bool
  unfolding verify_sig_static
  verify_enclave_signature_initialize_contract_state nonce contract_id initial_state_hash code_hash
        message_hash metadata_hash creator signature verifier =
      verify_sig_static signature verifier (
        initialize_contents nonce contract_id initial_state_hash code_hash message_hash
          metadata_hash creator)

  unfoldable pub verify_enclave_signature_update_contract_state :
      ByteArray → ByteArray → StateUpdateInfo → ByteArray → h.Verifier → Bool
  unfolding verify_sig_static
  verify_enclave_signature_update_contract_state nonce code_hash info signature verifier =
      verify_sig_static signature verifier (update_contents nonce code_hash info)
