-- ===== src/Protocol/Initialization.antt =====
-- A first state that a contract enclave signs is accepted by the ledger.
use private_data_objects.Prelude.{
  ◌≡◌, sym, ◌∙◌, inl, inr, ℕ, true, [], some, ByteArray, arith, bytes_eq, bytes_eq_refl,
}
use private_data_objects.Outcome.{ok}
use private_data_objects.Platform.{Platform}
use private_data_objects.Crypto.Keys.{Keys}
use private_data_objects.State.KeyValue.{BasicKv}
use private_data_objects.Enclave.Host.{ResponseDocument, EnclaveHost, IsHostLawful}
use private_data_objects.Enclave.Request.{ContractRequest}
use private_data_objects.Enclave.Response.{response_document}
use private_data_objects.Enclave.Process.{Interpreter}
use private_data_objects.Enclave.Entry.{Session}
use private_data_objects.Enclave.Entry.Initial.{IsInitialAnswer, initial_signed_lem}
use private_data_objects.Ledger.Records.{ContractInfo, InitializeState}
use private_data_objects.Ledger.Host.{Host}
use private_data_objects.Ledger.Reply.{success}
use private_data_objects.Ledger.Signatures.{
  verify_creator_signature_initialize_contract_state,
  verify_enclave_signature_initialize_contract_state,
}
use private_data_objects.Ledger.Tables.{Ledger, get, lookup, new_ledger}
use private_data_objects.Ledger.Contracts.{is_enclave_in}
use private_data_objects.Ledger.Updates.{enclave_verifier, record_state, initialize_contract_state}
use private_data_objects.Ledger.Updates.Accepted.{IsInitialized}
use private_data_objects.Ledger.Steps.{Reach}
use private_data_objects.Protocol.{IsVerifierOf, registered-lem, encode_injective}

module _ (h : Host) where
  IsInitialized-accepted :
      (x : InitializeState) (l l' : Ledger h)
      → IsInitialized h x l l'
      → initialize_contract_state h x l ≡ success (true, l')
  unfolding initialize_contract_state enclave_verifier
      verify_creator_signature_initialize_contract_state
      verify_enclave_signature_initialize_contract_state
  IsInitialized-accepted x l l' u =
      let s = u.by_enclave in
      let fresh : bytes_eq u.info.current_state_hash [] ≡ true = rw u.fresh (bytes_eq_refl []) in
      ground (
        arith, u.contract, u.active, fresh, s.member, u.creator_key, u.by_creator, s.registered,
        s.cached, s.signed, u.written,
      )

  -- A contract without a state, of the request's code and creator, with the enclave as a member, and
  -- the creator's signature over the one of the enclave.
  pub record IsAwaiting (r : ContractRequest) (x : InitializeState) (l : Ledger h)
      (info : ContractInfo) (creator verifier : h.Verifier) : Type 0 where
    pub contract : get l.contracts r.contract_id ≡ some info
    pub code : info.contract_code_hash ≡ r.contract_code.code_hash
    pub creator_id : info.contract_creator_verifying_key ≡ r.creator_id
    pub fresh : info.current_state_hash ≡ []
    pub creator_key : h.make_public_key r.creator_id ≡ some creator
    pub by_creator : h.verify creator x.contract_enclave_signature x.creator_signature ≡ true
    pub member : is_enclave_in x.contract_enclave_id info.enclave_info ≡ true
    pub cached : lookup x.contract_enclave_id l.enclave_pubk_verifier ≡ some verifier

  module _ (k : Keys) (p : Platform) (kv : BasicKv p) (e : EnclaveHost) (i : Interpreter kv) where
    -- A transaction whose nonce is the channel's key, for the contract and the message of the request, with
    -- the signature, the state hash and the metadata hash of the enclave's document.
    pub record IsCarriedInitial (r : ContractRequest) (document : ResponseDocument)
        (x : InitializeState) : Type 0 where
      pub nonce : x.nonce ≡ r.contract_message.channel_verifying_key
      pub contract : x.contract_id ≡ r.contract_id
      pub message : x.message_hash ≡ r.contract_message.message_hash
      pub signature : document.signature ≡ some (e.base64_encode x.contract_enclave_signature)
      pub state : document.state_hash ≡ some (e.base64_encode x.initial_state_hash)
      pub metadata : document.metadata_hash ≡ some (e.base64_encode x.metadata_hash)

    -- Let an enclave answer a request for a first state by a document with a signature, and let a
    -- transaction carry it, with the contract and the message hash of the request, to a ledger that is
    -- reached from an empty service. The ledger accepts it, if it has the contract with the code hash and
    -- the creator of the request and without a state, a member under the transaction's enclave id, a
    -- verifier for that id that accepts what the answering enclave signs, and if the creator signed the
    -- enclave's signature. The contract has the state hash and the metadata hash of the document then,
    -- and the state is recorded with the message hash of the request.
    pub initialize_contract_state-signed :
        IsHostLawful e
        → {sealed_signup encrypted_key serialized : ByteArray} {draw₁ draw₂ draw₃ : ℕ}
          {o o' : Session p kv k e i}
          (a : IsInitialAnswer p kv k e i sealed_signup encrypted_key serialized draw₁ draw₂ draw₃ o
            o')
          (document : ResponseDocument) (x : InitializeState) (l : Ledger h) (info : ContractInfo)
          (creator verifier : h.Verifier)
        → response_document k e a.d a.response draw₃ ≡ ok document
        → IsCarriedInitial a.request document x
        → Reach h (new_ledger {h = h}) l
        → IsVerifierOf h k verifier a.d
        → IsAwaiting a.request x l info creator verifier
        → initialize_contract_state h x l
          ≡ success (
            true,
            record_state h a.request.contract_id x.initial_state_hash
                (record {
                  transaction_id = x.nonce;
                  previous_state_hash = [];
                  message_hash = a.request.contract_message.message_hash;
                  dependency_list = [];
                })
                (record info {
                  current_state_hash = x.initial_state_hash;
                  contract_metadata_hash = x.metadata_hash;
                })
                l,
          )
    initialize_contract_state-signed lawful {draw₃ = draw} a document x l info creator verifier
          answered carried reach verifies c =
        elim (initial_signed_lem p kv k e i a document answered) [
          | inl f ↦ absurd (ground (arith, f, carried.signature))
          | inr u ↦
              let signature =
                encode_injective e lawful u.signature x.contract_enclave_signature
                  (sym u.has_signature ∙ carried.signature) in
              let state =
                encode_injective e lawful u.state_hash x.initial_state_hash
                  (sym u.has_state ∙ carried.state) in
              let metadata =
                encode_injective e lawful a.c.metadata_hash x.metadata_hash
                  (sym u.has_metadata ∙ carried.metadata) in
              let (active, enclave, registered, named) =
                registered-lem h l a.request.contract_id x.contract_enclave_id info reach c.contract
                  c.member in
              IsInitialized-accepted x l _ (record {
                info = info;
                contract = rw carried.contract c.contract;
                active = active;
                fresh = c.fresh;
                creator = creator;
                creator_key = rw c.creator_id c.creator_key;
                by_creator = c.by_creator;
                by_enclave = record {
                  enclave = enclave;
                  verifier = verifier;
                  member = c.member;
                  registered = registered;
                  cached = rw named c.cached;
                  signed =
                      rw
                        (
                          carried.nonce,
                          carried.contract,
                          carried.message,
                          ← signature,
                          ← state,
                          ← metadata,
                          c.code,
                          c.creator_id,
                        )
                        (verifies _ u.signature draw u.signed);
                };
                written = rw (carried.contract, carried.message);
              })
        ]
