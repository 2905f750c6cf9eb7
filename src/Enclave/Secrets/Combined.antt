-- ===== src/Enclave/Secrets/Combined.antt =====
-- The key of a contract's state is the exclusive or of the secrets of distinct provisioning services.
use private_data_objects.Prelude.{
  ◌≡◌, refl, ◌∙◌, sym, ap, ◌<◌, map, append-nil, false, List, [], ◌∷◌, ◌++◌, append_assoc, Option,
  some, ByteArray, arith, length, ltb, replicate,
}
use private_data_objects.CString.{Text}
use private_data_objects.Outcome.{
  ok, value_error, throw_if, throw_if_passed, >>=-eq-ok, ok_injective,
}
use private_data_objects.Crypto.Keys.{Keys}
use private_data_objects.State.StateNode.{or_throw, or_throw-some}
use private_data_objects.Enclave.Host.{SecretDocument, EnclaveHost}
use private_data_objects.Enclave.Data.{EnclaveData, get_enclave_id}
use private_data_objects.Enclave.Secrets.{
  secret_size, xor_bytes, is_in, open_secret, secrets_loop, create_enclave_state_encryption_key,
}

-- One entry of the list, with the secret that it opens to.
pub record Contribution : Type 0 where
  pub pspk : Text
  pub encrypted : Text
  pub secret : ByteArray

abbrev pub element_of : Contribution → Option SecretDocument
element_of c = some (record { pspk = some c.pspk; encrypted_secret = some c.encrypted })

-- The exclusive or of the secrets with what is there.
abbrev pub combined : ByteArray → List Contribution → ByteArray
combined accumulator [] = accumulator
combined accumulator (c ∷ rest) = combined (xor_bytes accumulator c.secret) rest

length-xor_bytes :
    (accumulator secret : ByteArray) → length (xor_bytes accumulator secret) ≡ length accumulator
unfolding xor_bytes
length-xor_bytes [] secret = refl
length-xor_bytes (x ∷ accumulator) [] = refl
length-xor_bytes (x ∷ accumulator) (y ∷ secret) = omega (arith, length-xor_bytes accumulator secret)

pub length-combined :
    (accumulator : ByteArray) (list : List Contribution)
    → length (combined accumulator list) ≡ length accumulator
length-combined accumulator [] = refl
length-combined accumulator (c ∷ rest) =
    length-combined (xor_bytes accumulator c.secret) rest ∙ length-xor_bytes accumulator c.secret

-- What the enclave signs of the list.
abbrev pub contributions : List Contribution → ByteArray
contributions [] = []
contributions (c ∷ rest) = c.pspk ++ (c.encrypted ++ contributions rest)

-- No service occurs twice, nor among those seen before.
abbrev pub AreDistinct : List Text → List Contribution → Type 0
AreDistinct seen [] = Unit
AreDistinct seen (c ∷ rest) = (is_in c.pspk seen ≡ false) × AreDistinct (c.pspk ∷ seen) rest

module _ (k : Keys) (e : EnclaveHost) (d : EnclaveData k)
    (enclave_id contract_id creator_id : Text) where
  abbrev pub AreOpened : List Contribution → Type 0
  AreOpened [] = Unit
  AreOpened (c ∷ rest) =
      (open_secret k e d enclave_id contract_id creator_id c.pspk c.encrypted ≡ ok c.secret)
      × AreOpened rest

  -- What the list of documents stands for.
  pub record IsCombined (seen : List Text) (accumulator message : ByteArray)
      (documents : List (Option SecretDocument)) (key message' : ByteArray) : Type 0 where
    pub list : List Contribution
    pub documents_of : documents ≡ map element_of list
    pub distinct : AreDistinct seen list
    pub opened : AreOpened list
    pub key_of : key ≡ combined accumulator list
    pub message_of : message' ≡ message ++ contributions list

  secrets_loop_lem :
      (documents : List (Option SecretDocument)) (seen : List Text)
      (accumulator message key message' : ByteArray)
      → secrets_loop k e d enclave_id contract_id creator_id documents seen accumulator message
        ≡ ok (key, message')
      → IsCombined seen accumulator message documents key message'
  unfolding secrets_loop
  secrets_loop_lem [] seen accumulator message key message' h = record {
    list = [];
    documents_of = refl;
    distinct = tt;
    opened = tt;
    key_of = ground (arith, h);
    message_of = ground (arith, h) ∙ sym (append-nil message);
  }
  secrets_loop_lem (element ∷ documents) seen accumulator message key message' h =
      let (document, e₁, h₁) = >>=-eq-ok (or_throw element value_error) _ h in
      let (pspk, e₂, h₂) = >>=-eq-ok (or_throw document.pspk value_error) _ h₁ in
      let (_, e₃, h₃) = >>=-eq-ok (throw_if (is_in pspk seen) value_error) _ h₂ in
      let (encrypted, e₄, h₄) = >>=-eq-ok (or_throw document.encrypted_secret value_error) _ h₃ in
      let (secret, e₅, h₅) =
        >>=-eq-ok (open_secret k e d enclave_id contract_id creator_id pspk encrypted) _ h₄ in
      let q =
        secrets_loop_lem documents (pspk ∷ seen) (xor_bytes accumulator secret)
          (message ++ (pspk ++ encrypted)) key message' h₅ in
      let c : Contribution = record { pspk = pspk; encrypted = encrypted; secret = secret } in
      let is_element : element ≡ element_of c = ground (
        arith,
        or_throw-some element value_error e₁,
        or_throw-some document.pspk value_error e₂,
        or_throw-some document.encrypted_secret value_error e₄,
      ) in
      record {
        list = c ∷ q.list;
        documents_of =
            ap (λ x. x ∷ documents) is_element ∙ ap (λ l. element_of c ∷ l) q.documents_of;
        distinct = (throw_if_passed (is_in pspk seen) value_error e₃, q.distinct);
        opened = (e₅, q.opened);
        key_of = q.key_of;
        message_of = q.message_of ∙ simp append_assoc;
      }

  -- When the key of a state is created, each entry of the list was opened: it decrypts to a secret with a
  -- signature of its service over the secret, this enclave, the contract and the creator. There is at least
  -- one entry and no two are of one service. The key is the exclusive or of the secrets, and the message for
  -- the ledger names the contract, the creator, and each service with its encrypted secret, in order.
  pub create_enclave_state_encryption_key_lem :
      (list : Text) (key message : ByteArray)
      → get_enclave_id k d ≡ ok enclave_id
      → create_enclave_state_encryption_key k e d contract_id creator_id list ≡ ok (key, message)
      → (documents : List (Option SecretDocument)) × (e.parse_secrets list ≡ some documents)
        × (0 < length documents)
        × IsCombined [] (replicate secret_size 0) (contract_id ++ creator_id) documents key message
  unfolding create_enclave_state_encryption_key
  create_enclave_state_encryption_key_lem list key message is_id h =
      let (id, e₁, h₁) = >>=-eq-ok (get_enclave_id k d) _ h in
      let (documents, e₂, h₂) = >>=-eq-ok (or_throw (e.parse_secrets list) value_error) _ h₁ in
      let (_, e₃, h₃) = >>=-eq-ok (throw_if (ltb (length documents) 1) value_error) _ h₂ in
      let same : id ≡ enclave_id = ok_injective (sym e₁ ∙ is_id) in
      let some_document = throw_if_passed (ltb (length documents) 1) value_error e₃ in
      (
        documents,
        or_throw-some (e.parse_secrets list) value_error e₂,
        ground (arith, some_document),
        secrets_loop_lem documents [] (replicate secret_size 0) (contract_id ++ creator_id) key
            message (rw same at h₃),
      )
