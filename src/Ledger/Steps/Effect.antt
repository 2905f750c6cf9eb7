-- ===== src/Ledger/Steps/Effect.antt =====
-- What one transaction does to the state of a node.
use private_data_objects.Prelude.{
  ◌≡◌, refl, ap, ◌⊎◌, inl, inr, Bool, arith, Option, some, Option-cases,
}
use private_data_objects.Ledger.Records.{Text, SignerKeys}
use private_data_objects.Ledger.Host.{Host}
use private_data_objects.Ledger.Reply.{success}
use private_data_objects.Ledger.Tables.{Ledger, lookup}
use private_data_objects.Ledger.Signing.{ensure_signer}
use private_data_objects.Ledger.View.{View, IsSound, Extends, Extends-refl}

module _ {h : Host} where
  abbrev pub current_view : Ledger h → View
  current_view l = record {
    enclaves = l.enclaves.current;
    contracts = l.contracts.current;
    ccl = l.ccl.current;
  }

  abbrev pub committed_view : Ledger h → View
  committed_view l = record {
    enclaves = l.enclaves.committed;
    contracts = l.contracts.committed;
    ccl = l.ccl.committed;
  }

  -- The verifiers that the node keeps are of the keys they stand under.
  abbrev pub IsCacheSound : Ledger h → Type 0
  IsCacheSound l =
      (k : Text) (v : h.Verifier)
      → lookup k l.enclave_pubk_verifier ≡ some v
      → h.make_public_key k ≡ some v

  -- The signer that the node keeps is of the committed key.
  abbrev pub IsSignerSound : Ledger h → Type 0
  IsSignerSound l =
      (s : h.Signer)
      → l.ledger_signer_local ≡ some s
      → (keys : SignerKeys) × (l.signer.committed ≡ some keys)
        × (h.signer_of_pem keys.privk ≡ some s)

  pub record Effect (l l' : Ledger h) : Type 0 where
    pub sound : IsSound (current_view l) → IsSound (current_view l')
    pub extends : IsSound (current_view l) → Extends (current_view l) (current_view l')
    pub committed_same : committed_view l' ≡ committed_view l
    pub flag_same : l'.check_attestation.committed ≡ l.check_attestation.committed
    pub signer_same : l'.signer.committed ≡ l.signer.committed
    pub flag_kept :
        (b : Bool) → l.check_attestation.current ≡ some b → l'.check_attestation.current ≡ some b
    pub signer_kept : (k : SignerKeys) → l.signer.current ≡ some k → l'.signer.current ≡ some k
    pub cache_sound : IsCacheSound l → IsCacheSound l'
    pub local_sound : IsSignerSound l → IsSignerSound l'

  -- A transaction that writes at most the node's signer.
  pub Effect-signer :
      (l l' : Ledger h) (s : Option h.Signer)
      → l' ≡ record l { ledger_signer_local = s }
      → (IsSignerSound l → IsSignerSound l')
      → Effect l l'
  Effect-signer l l' s e ok = record {
    sound = λ v. rw e v;
    extends = λ _. rw e (Extends-refl (current_view l));
    committed_same = ap committed_view e;
    flag_same = ap (λ m. m.check_attestation.committed) e;
    signer_same = ap (λ m. m.signer.committed) e;
    flag_kept = λ b g. rw e g;
    signer_kept = λ k g. rw e g;
    cache_sound = λ c. rw e c;
    local_sound = ok;
  }

  -- A transaction that writes the tables of `View` only.
  pub Effect-view :
      (l : Ledger h) (v : View)
      → (IsSound (current_view l) → IsSound v)
      → (IsSound (current_view l) → Extends (current_view l) v)
      → Effect l (record l {
        enclaves = record l.enclaves { current = v.enclaves };
        contracts = record l.contracts { current = v.contracts };
        ccl = record l.ccl { current = v.ccl };
      })
  Effect-view l v s x = record {
    sound = s;
    extends = x;
    committed_same = refl;
    flag_same = refl;
    signer_same = refl;
    flag_kept = λ b g. g;
    signer_kept = λ k g. g;
    cache_sound = λ c. c;
    local_sound = λ c. c;
  }

  -- The signer that the node keeps already, or one made of the committed key.
  abbrev pub IsSignerOf : Ledger h → h.Signer → Ledger h → Type 0
  IsSignerOf l s l' =
      ((l.ledger_signer_local ≡ some s) × (l' ≡ l))
      ⊎ ((keys : SignerKeys) × (l.signer.committed ≡ some keys)
          × (h.signer_of_pem keys.privk ≡ some s)
          × (l' ≡ record l { ledger_signer_local = some s }))

  pub ensure_signer_success :
      (l : Ledger h) (r : h.Signer × Ledger h)
      → ensure_signer h l ≡ success r
      → IsSignerOf l r.0 r.1
  unfolding ensure_signer
  ensure_signer_success l r e = elim (Option-cases l.ledger_signer_local) [
    | inl n ↦ elim (Option-cases l.signer.committed) [
      | inl m ↦ ground (arith, e, n, m)
      | inr (keys, m) ↦ elim (Option-cases (h.signer_of_pem keys.privk)) [
        | inl p ↦ ground (arith, e, n, m, p)
        | inr (s, p) ↦ ground (arith, e, n, m, p)
      ]
    ]
    | inr (s, n) ↦ ground (arith, e, n)
  ]

  pub Effect-IsSignerOf : (l l' : Ledger h) (s : h.Signer) → IsSignerOf l s l' → Effect l l'
  Effect-IsSignerOf l l' s (inl (k, e)) = Effect-signer l l' l.ledger_signer_local e (λ ok. rw e ok)
  Effect-IsSignerOf l l' s (inr (keys, c, m, e)) =
      Effect-signer l l' (some s) e
        (λ _ s' g. (keys, (ground (arith, c, e)), (ground (arith, g, e, m))))
