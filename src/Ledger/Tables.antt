-- ===== src/Ledger/Tables.antt =====
-- The replicated tables (`kv::Map`) and the state of a node. A table has the state that a
-- transaction reads and writes, and the state that is globally committed.
use private_data_objects.Prelude.{
  ◌≡◌, refl, Bool, arith, List, [], ◌∷◌, Option, none, some, bytes_eq, bytes_eq→eq, bytes_eq_refl,
  if◌then◌else◌,
}
use private_data_objects.Ledger.Records.{
  Text, Measurements, EnclaveInfo, ContractInfo, ContractStateInfo, SignerKeys,
}
use private_data_objects.Ledger.Host.{Host}

module _ {ℓ} {V : Type ℓ} where
  unfoldable pub lookup : Text → List (Text × V) → Option V
  lookup key [] = none
  lookup key ((name, value) ∷ entries) =
      if bytes_eq name key then some value else lookup key entries

  unfoldable pub insert : Text → V → List (Text × V) → List (Text × V)
  insert key new [] = (key, new) ∷ []
  insert key new ((name, value) ∷ entries) =
      let rest = insert key new entries in
      if bytes_eq name key then (key, new) ∷ entries else (name, value) ∷ rest

  pub lookup-insert :
      (key other : Text) (new : V) (entries : List (Text × V))
      → lookup other (insert key new entries)
        ≡ (if bytes_eq key other then some new else lookup other entries)
  unfolding lookup insert
  lookup-insert key other new [] = refl
  lookup-insert key other new ((name, value) ∷ entries) = ground (
    arith,
    lookup-insert key other new entries,
    bytes_eq→eq name key,
    bytes_eq→eq name other,
    bytes_eq→eq key other,
    bytes_eq_refl key,
    bytes_eq_refl other,
  )

pub record Table {ℓ} (V : Type ℓ) : Type ℓ where
  pub current : List (Text × V)
  pub committed : List (Text × V)

-- A table that the code uses at one key only.
pub record Cell {ℓ} (V : Type ℓ) : Type ℓ where
  pub current : Option V
  pub committed : Option V

module _ {ℓ} {V : Type ℓ} where
  -- `view->get(k)`
  unfoldable pub get : Table V → Text → Option V
  get t k = lookup k t.current

  -- `view->get_globally_committed(k)`
  unfoldable pub get_globally_committed : Table V → Text → Option V
  get_globally_committed t k = lookup k t.committed

  -- `view->put(k, v)`
  unfoldable pub put : Table V → Text → V → Table V
  put t k v = record t { current = insert k v t.current }

  pub get-put :
      (t : Table V) (k j : Text) (v : V)
      → get (put t k v) j ≡ (if bytes_eq k j then some v else get t j)
  unfolding get put
  get-put t k j v = lookup-insert k j v t.current

  abbrev commit_table : Table V → Table V
  commit_table t = record t { committed = t.current }

  abbrev commit_cell : Cell V → Cell V
  commit_cell c = record c { committed = c.current }

-- The tables of `TPHandlerRegistry`, and the members that a node keeps outside them.
pub record Ledger (h : Host) : Type 0 where
  pub measurements : Cell Measurements
  pub check_attestation : Cell Bool
  pub enclaves : Table EnclaveInfo
  pub contracts : Table ContractInfo
  pub ccl : Table ContractStateInfo
  pub signer : Cell SignerKeys
  pub enclave_pubk_verifier : List (Text × h.Verifier)
  pub ledger_signer_local : Option h.Signer

module _ {h : Host} where
  -- Global commit of everything written so far, by the consensus protocol of CCF.
  abbrev pub commit : Ledger h → Ledger h
  commit l = record l {
    measurements = commit_cell l.measurements;
    check_attestation = commit_cell l.check_attestation;
    enclaves = commit_table l.enclaves;
    contracts = commit_table l.contracts;
    ccl = commit_table l.ccl;
    signer = commit_cell l.signer;
  }

  abbrev pub new_ledger : Ledger h
  new_ledger = record {
    measurements = record { current = none; committed = none };
    check_attestation = record { current = none; committed = none };
    enclaves = record { current = []; committed = [] };
    contracts = record { current = []; committed = [] };
    ccl = record { current = []; committed = [] };
    signer = record { current = none; committed = none };
    enclave_pubk_verifier = [];
    ledger_signer_local = none;
  }
