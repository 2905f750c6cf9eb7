-- ===== src/Ledger/Signing.antt =====
-- The ledger's own signing key: the handlers `gen_signing_key` and `get_ledger_key` of pdo_tp.cpp,
-- and the part that the read handlers share.
use private_data_objects.Prelude.{ℕ, Option, none, some}
use private_data_objects.Ledger.Records.{Text, SignerKeys}
use private_data_objects.Ledger.Host.{Host}
use private_data_objects.Ledger.Reply.{
  Reply, success, error, expect, or_fault, ◌>>=◌, key_creation_failed, key_not_located, key_pending,
  key_not_created, no_ledger_authority, library_exception,
}
use private_data_objects.Ledger.Tables.{Ledger}

-- The three texts that `gen_signing_key` answers with success.
pub data KeyStatus : Type 0 where
  committed scheduled created : KeyStatus

module _ (h : Host) where
  unfoldable pub gen_signing_key : ℕ → Ledger h → Reply (KeyStatus × Ledger h)
  gen_signing_key randomness l = elim l.signer.committed [
    | some _ ↦ success (committed, l)
    | none ↦ elim l.signer.current [
      | some _ ↦ success (scheduled, l)
      | none ↦ do
        keys ← expect (h.make_key_pair randomness) key_creation_failed
        success (created, record l { signer = record l.signer { current = some keys } })
    ]
  ]

  -- `if (ledger_signer_local == NULL) ledger_signer_local = make_key_pair(privk)`: none if the call
  -- throws.
  unfoldable pub load_signer : SignerKeys → Ledger h → Option (h.Signer × Ledger h)
  load_signer keys l = elim l.ledger_signer_local [
    | some signer ↦ some (signer, l)
    | none ↦ elim (h.signer_of_pem keys.privk) [
      | none ↦ none
      | some signer ↦ some (signer, record l { ledger_signer_local = some signer })
    ]
  ]

  -- The answer is the public key. An exception is caught, and answered by an error.
  unfoldable pub get_ledger_key : Ledger h → Reply (Text × Ledger h)
  unfolding load_signer
  get_ledger_key l = elim l.signer.committed [
    | some keys ↦ do (_, l') ← expect (load_signer keys l) key_not_located; success (keys.pubk, l')
    | none ↦ elim l.signer.current [ some _ ↦ error key_pending | none ↦ error key_not_created ]
  ]

  -- What every read handler does before it signs its answer.
  unfoldable pub ensure_signer : Ledger h → Reply (h.Signer × Ledger h)
  ensure_signer l = elim l.ledger_signer_local [
    | some signer ↦ success (signer, l)
    | none ↦ do
      keys ← expect l.signer.committed no_ledger_authority
      signer ← or_fault (h.signer_of_pem keys.privk) library_exception
      success (signer, record l { ledger_signer_local = some signer })
  ]

  unfoldable pub sign_document : h.Signer → Text → Text
  sign_document signer document = h.b64_from_raw (h.sign signer document)
