-- ===== src/Crypto/Keys.antt =====
-- The classes of common/crypto/sig*.cpp and pkenc*.cpp, which wrap OpenSSL, as one parameter. A text is
-- the PEM form of a key.
use private_data_objects.Prelude.{ℕ, ◌≡◌, Bool, true, ◌++◌, ByteArray}
use private_data_objects.CString.{Text}
use private_data_objects.HexString.RoundTrip.{AreBytes}
use private_data_objects.Outcome.{Outcome, ok}

-- `pdo::crypto::sig` and `pdo::crypto::pkenc`. A draw stands for the randomness of one call.
pub record Keys : Type 1 where
  pub SigPublic : Type 0
  pub SigPrivate : Type 0
  pub EncPublic : Type 0
  pub EncPrivate : Type 0
  pub read_sig_public : Text → Outcome SigPublic
  pub read_sig_private : Text → Outcome SigPrivate
  pub read_enc_public : Text → Outcome EncPublic
  pub read_enc_private : Text → Outcome EncPrivate
  pub write_sig_public : SigPublic → Outcome Text
  pub write_sig_private : SigPrivate → Outcome Text
  pub write_enc_public : EncPublic → Outcome Text
  pub write_enc_private : EncPrivate → Outcome Text
  pub make_sig : ℕ → Outcome SigPrivate
  pub make_enc : ℕ → Outcome EncPrivate
  pub sig_public_of : SigPrivate → Outcome SigPublic
  pub enc_public_of : EncPrivate → Outcome EncPublic
  pub sign : SigPrivate → ByteArray → ℕ → Outcome ByteArray
  -- Whether `VerifySignature` returns a positive number.
  pub verify : SigPublic → ByteArray → ByteArray → Bool
  pub max_sig_size : SigPrivate → ℕ
  pub encrypt : EncPublic → ByteArray → ℕ → Outcome ByteArray
  pub decrypt : EncPrivate → ByteArray → Outcome ByteArray

-- What OpenSSL documents of a key pair. A signature is read up to the end of its DER encoding, so that
-- what is appended to it does not matter.
pub record IsKeysLawful (k : Keys) : Type 0 where
  pub verify-sign :
      (sk : k.SigPrivate) (pk : k.SigPublic) (m s pad : ByteArray) (draw : ℕ)
      → k.sig_public_of sk ≡ ok pk
      → k.sign sk m draw ≡ ok s
      → k.verify pk m (s ++ pad) ≡ true
  pub sign-AreBytes :
      (sk : k.SigPrivate) (m s : ByteArray) (draw : ℕ) → k.sign sk m draw ≡ ok s → AreBytes s
  pub decrypt-encrypt :
      (sk : k.EncPrivate) (pk : k.EncPublic) (m c : ByteArray) (draw : ℕ)
      → k.enc_public_of sk ≡ ok pk
      → k.encrypt pk m draw ≡ ok c
      → k.decrypt sk c ≡ ok m
