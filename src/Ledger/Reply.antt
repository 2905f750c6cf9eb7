-- ===== src/Ledger/Reply.antt =====
-- What a handler answers: `make_success`, `make_error` with its message, or an exception that no
-- handler catches, which CCF turns into an error of its own. CCF applies the writes of a
-- transaction only if it is answered by success.
use private_data_objects.Prelude.{◌≡◌, refl, Bool, true, false, Option, none, some}

-- The messages of `make_error`.
pub data Failure : Type 0 where
  flag_already_set flag_not_set attestation_disabled : Failure
  key_creation_failed key_not_located key_pending key_not_created : Failure
  enclave_already_registered no_flag_value no_measurements no_proof_data : Failure
  proof_data_unparsed ias_signature_invalid report_unparsed : Failure
  wrong_pseudonym wrong_quote_status wrong_mrenclave wrong_nonce wrong_basename : Failure
  wrong_report_data not_64_bit wrong_debug_flag : Failure
  payload_signature_invalid enclave_signature_invalid : Failure
  contract_already_registered contract_not_registered : Failure
  enclave_infos_unparsed no_enclave_given wrong_contract_id : Failure
  enclave_not_registered enclave_already_added : Failure
  contract_inactive already_initialized enclave_not_in_contract : Failure
  update_unparsed not_latest_state unknown_dependency state_unchanged : Failure
  enclave_not_found contract_not_found no_ledger_authority : Failure
  not_initialized unknown_state : Failure

-- `bad_optional_access`, a null verifier (undefined behaviour), a quote that is too short
-- (undefined behaviour), and an exception of a library.
pub data Fault : Type 0 where
  no_value null_pointer short_quote library_exception : Fault

pub data Reply {ℓ} (A : Type ℓ) : Type ℓ where
  success : A → Reply A
  error : Failure → Reply A
  fault : Fault → Reply A

infixl 5 ◌>>=◌ ◌>>◌
abbrev pub ◌>>=◌ {ℓ κ} : {A : Type ℓ} {B : Type κ} → Reply A → (A → Reply B) → Reply B
success a >>= f = f a
error e >>= f = error e
fault x >>= f = fault x

abbrev pub ◌>>◌ {ℓ} : {B : Type ℓ} → Reply (Unit {0}) → Reply B → Reply B
m >> k = m >>= λ _. k

-- `if (!condition) return make_error(…)`
abbrev pub require : Bool → Failure → Reply (Unit {0})
require true e = success tt
require false e = error e

-- `if (!o.has_value()) return make_error(…)`, and then `o.value()`.
abbrev pub expect {ℓ} : {A : Type ℓ} → Option A → Failure → Reply A
expect none e = error e
expect (some a) e = success a

-- A call or a `value()` whose failure is an exception.
abbrev pub or_fault {ℓ} : {A : Type ℓ} → Option A → Fault → Reply A
or_fault none x = fault x
or_fault (some a) x = success a

-- Inversion of a chain that ends in success.
pub >>=-eq-success {ℓ κ} :
    {A : Type ℓ} {B : Type κ} (m : Reply A) (f : A → Reply B) {b : B}
    → (m >>= f) ≡ success b
    → (a : A) × (m ≡ success a) × (f a ≡ success b)
>>=-eq-success (success a) f h = (a, refl, h)
>>=-eq-success (error e) f h = cc
>>=-eq-success (fault x) f h = cc

pub require_passed : (b : Bool) (e : Failure) {u : Unit {0}} → require b e ≡ success u → b ≡ true
require_passed true e h = refl
require_passed false e h = cc

pub expect-some {ℓ} :
    {A : Type ℓ} (o : Option A) (e : Failure) {a : A} → expect o e ≡ success a → o ≡ some a
expect-some none e h = cc
expect-some (some a) e h = cc

pub or_fault-some {ℓ} :
    {A : Type ℓ} (o : Option A) (x : Fault) {a : A} → or_fault o x ≡ success a → o ≡ some a
or_fault-some none x h = cc
or_fault-some (some a) x h = cc
