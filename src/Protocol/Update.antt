-- ===== src/Protocol/Update.antt =====
-- An update that a contract enclave signs is accepted by the ledger.
use private_data_objects.Prelude.{
  ◌≡◌, ◌≢◌, sym, ap, ◌∙◌, inl, inr, ℕ, true, List, map, some, ByteArray, arith,
}
use private_data_objects.CString.{Text}
use private_data_objects.Outcome.{ok}
use private_data_objects.Platform.{Platform}
use private_data_objects.Crypto.Keys.{Keys}
use private_data_objects.State.KeyValue.{BasicKv}
use private_data_objects.Enclave.Host.{ResponseDocument, EnclaveHost, IsHostLawful}
use private_data_objects.Enclave.Data.{EnclaveData}
use private_data_objects.Enclave.Request.{UpdateStateRequest}
use private_data_objects.Enclave.Process.{Interpreter}
use private_data_objects.Enclave.Response.{response_document}
use private_data_objects.Enclave.Entry.{Session}
use private_data_objects.Enclave.Entry.Answered.{IsUpdateAnswer}
use private_data_objects.Enclave.Entry.Signed.{dependency_of}
use private_data_objects.Enclave.Entry.Released.{IsSignedUpdate, signed_lem}
use private_data_objects.Ledger.Records.{ContractInfo, StateUpdateInfo, UpdateState}
use private_data_objects.Ledger.Host.{Host}
use private_data_objects.Ledger.Reply.{success}
use private_data_objects.Ledger.Tables.{Ledger, get, lookup, new_ledger}
use private_data_objects.Ledger.Contracts.{is_enclave_in}
use private_data_objects.Ledger.Updates.{record_state, are_met, update_contract_state}
use private_data_objects.Ledger.Updates.Accepted.{update_contract_state_iff}
use private_data_objects.Ledger.Steps.{Reach}
use private_data_objects.Protocol.{IsVerifierOf, registered-lem, encode_injective}

module _ (h : Host) (k : Keys) where
  -- The enclave that signs stands in the ledger under its key, and the contract at the state of a request.
  pub record IsCurrent (r : UpdateStateRequest) (x : UpdateState) (update : StateUpdateInfo)
      (l : Ledger h) (info : ContractInfo) (verifier : h.Verifier) : Type 0 where
    pub contract : get l.contracts r.common.contract_id ≡ some info
    pub code : info.contract_code_hash ≡ r.code_hash
    pub state : info.current_state_hash ≡ r.input_state_hash
    pub changed : update.current_state_hash ≢ r.input_state_hash
    pub met : are_met h update.dependency_list l ≡ true
    pub member : is_enclave_in x.contract_enclave_id info.enclave_info ≡ true
    pub cached : lookup x.contract_enclave_id l.enclave_pubk_verifier ≡ some verifier

  module _ (p : Platform) (kv : BasicKv p) (e : EnclaveHost) (i : Interpreter kv) where
    -- A transaction whose nonce is the channel's key, with the signature of the enclave's document, and
    -- an update of the contract of the request, from its state and with its message, to the state and
    -- with the dependencies of the document.
    pub record IsCarried (r : UpdateStateRequest) (document : ResponseDocument) (x : UpdateState)
        (update : StateUpdateInfo) : Type 0 where
      pub pairs : List (Text × Text)
      pub nonce : x.nonce ≡ r.common.contract_message.channel_verifying_key
      pub parsed : h.parse_state_update x.state_update_info ≡ some update
      pub contract : update.contract_id ≡ r.common.contract_id
      pub previous : update.previous_state_hash ≡ r.input_state_hash
      pub message : update.message_hash ≡ r.common.contract_message.message_hash
      pub signature : document.signature ≡ some (e.base64_encode x.contract_enclave_signature)
      pub state : document.state_hash ≡ some (e.base64_encode update.current_state_hash)
      pub has_dependencies : document.dependencies ≡ some pairs
      pub dependencies : update.dependency_list ≡ map (dependency_of e) pairs

    module _ (lawful : IsHostLawful e) where
      -- What the document carries is what was signed.
      contents_lem :
          {d : EnclaveData k} {r : UpdateStateRequest} {draw : ℕ} {document : ResponseDocument}
          {x : UpdateState} {update : StateUpdateInfo}
          (u : IsSignedUpdate p kv k e i d r draw document)
          → IsCarried r document x update
          → (u.update ≡ update) × (u.signature ≡ x.contract_enclave_signature)
      contents_lem {x = x} {update = update} u c =
          let state =
            encode_injective e lawful u.update.current_state_hash update.current_state_hash
              (sym u.has_state ∙ c.state) in
          let pairs : u.pairs ≡ c.pairs = ground (arith, u.has_dependencies, c.has_dependencies) in
          let dependencies : u.update.dependency_list ≡ update.dependency_list =
            u.dependencies ∙ ap (map (dependency_of e)) pairs ∙ sym c.dependencies in
          let contract = u.contract ∙ sym c.contract in
          let previous = u.previous ∙ sym c.previous in
          let message = u.message ∙ sym c.message in
          (
            ground (arith, state, dependencies, contract, previous, message),
            encode_injective e lawful u.signature x.contract_enclave_signature
                (sym u.has_signature ∙ c.signature),
          )

      -- Let an enclave answer a request by a document with a signature, and let a transaction carry it,
      -- with the contract, the state hash and the message hash of the request, to a ledger that is reached
      -- from an empty service. The ledger accepts it, if it has the contract with the code hash and the
      -- state hash of the request, a member under the transaction's enclave id, a verifier for that id
      -- that accepts what the answering enclave signs, and the dependencies, and if the state hash is
      -- a new one. The contract has the new state hash then, recorded with the message hash and the
      -- previous state hash of the request.
      pub update_contract_state-signed :
          {sealed_signup encrypted_key serialized : ByteArray} {draw : ℕ}
          {o o' : Session p kv k e i}
          (a : IsUpdateAnswer p kv k e i sealed_signup encrypted_key serialized draw o o')
          (document : ResponseDocument) (x : UpdateState) (update : StateUpdateInfo) (l : Ledger h)
          (info : ContractInfo) (verifier : h.Verifier)
          → response_document k e a.d a.response draw ≡ ok document
          → IsCarried a.request document x update
          → Reach h (new_ledger {h = h}) l
          → IsVerifierOf h k verifier a.d
          → IsCurrent a.request x update l info verifier
          → update_contract_state h x l
            ≡ success (
              true,
              record_state h a.request.common.contract_id update.current_state_hash
                  (record {
                    transaction_id = x.nonce;
                    previous_state_hash = a.request.input_state_hash;
                    message_hash = a.request.common.contract_message.message_hash;
                    dependency_list = update.dependency_list;
                  })
                  (record info { current_state_hash = update.current_state_hash })
                  l,
            )
      update_contract_state-signed {draw = draw} a document x update l info verifier answered
            carried reach verifies c =
          elim (signed_lem p kv k e i a document answered) [
            | inl f ↦ absurd (ground (arith, f, carried.signature))
            | inr u ↦
                let (same, signature) = contents_lem u carried in
                let (active, enclave, registered, named) =
                  registered-lem h l a.request.common.contract_id x.contract_enclave_id info reach
                    c.contract c.member in
                (update_contract_state_iff h x l _).1 (record {
                  update = update;
                  info = info;
                  parsed = carried.parsed;
                  contract = rw carried.contract c.contract;
                  active = active;
                  latest = carried.previous ∙ sym c.state;
                  met = c.met;
                  changed = λ f. c.changed (f ∙ c.state);
                  by_enclave = record {
                    enclave = enclave;
                    verifier = verifier;
                    member = c.member;
                    registered = registered;
                    cached = rw named c.cached;
                    signed =
                        rw (carried.nonce, ← signature, c.code, ← same)
                          (verifies _ u.signature draw u.signed);
                  };
                  written = rw (carried.contract, carried.previous, carried.message);
                })
          ]
