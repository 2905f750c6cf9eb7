-- ===== src/Ledger/Steps/Kept.antt =====
-- What holds in every state that a node reaches, and what is never lost or changed.
use private_data_objects.Prelude.{◌≡◌, sym, ◌∙◌, Bool, arith, [], some}
use private_data_objects.Ledger.Records.{Text, SignerKeys}
use private_data_objects.Ledger.Host.{Host}
use private_data_objects.Ledger.Tables.{Ledger, lookup, new_ledger, commit}
use private_data_objects.Ledger.View.{IsSound, Extends, Extends-refl, Extends-trans}
use private_data_objects.Ledger.Steps.{
  Step, handled, committed, rolled_back, restarted, Reach, here, next, rollback, restart,
}
use private_data_objects.Ledger.Steps.Effect.{
  current_view, committed_view, IsCacheSound, IsSignerSound, Effect,
}
use private_data_objects.Ledger.Steps.Requests.{handle-Effect}

pub empty_lookup {ℓ} : {V : Type ℓ} (k : Text) (v : V) → ¬ (lookup k [] ≡ some v)
unfolding lookup
empty_lookup k v e = ground (arith, e)

module _ {h : Host} where
  pub record IsConsistent (l : Ledger h) : Type 0 where
    pub sound : IsSound (current_view l)
    pub committed_sound : IsSound (committed_view l)
    -- What is committed is in the current state.
    pub lags : Extends (committed_view l) (current_view l)
    pub flag_lags :
        (b : Bool) → l.check_attestation.committed ≡ some b → l.check_attestation.current ≡ some b
    pub signer_lags : (k : SignerKeys) → l.signer.committed ≡ some k → l.signer.current ≡ some k
    pub cache_sound : IsCacheSound l
    pub local_sound : IsSignerSound l

  new_ledger-IsConsistent : IsConsistent (new_ledger {h = h})
  unfolding lookup
  new_ledger-IsConsistent =
      let empty : IsSound (current_view (new_ledger {h = h})) = record {
        enclave_named = λ k e g. absurd (ground (arith, g));
        contract_sound = λ k e g. absurd (ground (arith, g));
      } in
      record {
        sound = empty;
        committed_sound = empty;
        lags = Extends-refl (committed_view (new_ledger {h = h}));
        flag_lags = λ b g. g;
        signer_lags = λ k g. g;
        cache_sound = λ k v g. absurd (ground (arith, g));
        local_sound = λ s g. absurd (ground (arith, g));
      }

  -- What is kept of the committed state.
  pub record IsKept (l l' : Ledger h) : Type 0 where
    pub tables : Extends (committed_view l) (committed_view l')
    pub flag :
        (b : Bool)
        → l.check_attestation.committed ≡ some b
        → l'.check_attestation.committed ≡ some b
    pub signer : (k : SignerKeys) → l.signer.committed ≡ some k → l'.signer.committed ≡ some k

  IsKept-refl : (l : Ledger h) → IsKept l l
  IsKept-refl l = record {
    tables = Extends-refl (committed_view l);
    flag = λ b g. g;
    signer = λ k g. g;
  }

  Effect-IsConsistent : (l l' : Ledger h) → Effect l l' → IsConsistent l → IsConsistent l'
  Effect-IsConsistent l l' x c = record {
    sound = x.sound c.sound;
    committed_sound = rw x.committed_same c.committed_sound;
    lags = rw x.committed_same (
        Extends-trans (committed_view l) (current_view l) (current_view l') c.lags
          (x.extends c.sound));
    flag_lags = λ b g. x.flag_kept b (c.flag_lags b (sym x.flag_same ∙ g));
    signer_lags = λ k g. x.signer_kept k (c.signer_lags k (sym x.signer_same ∙ g));
    cache_sound = x.cache_sound c.cache_sound;
    local_sound = x.local_sound c.local_sound;
  }

  Effect-IsKept : (l l' : Ledger h) → Effect l l' → IsKept l l'
  Effect-IsKept l l' x = record {
    tables = rw x.committed_same (Extends-refl (committed_view l));
    flag = λ b g. x.flag_same ∙ g;
    signer = λ k g. x.signer_same ∙ g;
  }

  Step-IsConsistent :
      (l l' : Ledger h) → Step h l l' → IsConsistent l → IsConsistent l' × IsKept l l'
  Step-IsConsistent l l' (handled q e) c =
      let x = handle-Effect h q l l' e in (Effect-IsConsistent l l' x c, Effect-IsKept l l' x)
  Step-IsConsistent l l' (committed e) c =
      let c' : IsConsistent (commit l) = record {
        sound = c.sound;
        committed_sound = c.sound;
        lags = Extends-refl (current_view l);
        flag_lags = λ b g. g;
        signer_lags = λ k g. g;
        cache_sound = c.cache_sound;
        local_sound = λ s g. let (k, p, q) = c.local_sound s g in (k, c.signer_lags k p, q);
      } in
      let k : IsKept l (commit l) = record {
        tables = c.lags;
        flag = c.flag_lags;
        signer = c.signer_lags;
      } in
      rw e (c', k)
  Step-IsConsistent l l' (rolled_back e) c =
      let c' : IsConsistent (rollback h l) = record {
        sound = c.committed_sound;
        committed_sound = c.committed_sound;
        lags = Extends-refl (committed_view l);
        flag_lags = λ b g. g;
        signer_lags = λ k g. g;
        cache_sound = c.cache_sound;
        local_sound = c.local_sound;
      } in
      let k : IsKept l (rollback h l) = record {
        tables = Extends-refl (committed_view l);
        flag = λ b g. g;
        signer = λ k g. g;
      } in
      rw e (c', k)
  Step-IsConsistent l l' (restarted e) c =
      let c' : IsConsistent (restart h l) = record {
        sound = c.sound;
        committed_sound = c.committed_sound;
        lags = c.lags;
        flag_lags = c.flag_lags;
        signer_lags = c.signer_lags;
        cache_sound = λ k v g. absurd (empty_lookup k v g);
        local_sound = λ s g. absurd (ground (arith, g));
      } in
      let k : IsKept l (restart h l) = record {
        tables = Extends-refl (committed_view l);
        flag = λ b g. g;
        signer = λ k g. g;
      } in
      rw e (c', k)

  Reach-both : (l l' : Ledger h) → Reach h l l' → IsConsistent l → IsConsistent l' × IsKept l l'
  Reach-both l l' here c = (c, IsKept-refl l)
  Reach-both l l'' (next {l' = l'} r s) c =
      let (c', k) = Reach-both l l' r c in
      let (c'', k') = Step-IsConsistent l' l'' s c' in
      (
        c'',
        record {
          tables =
              Extends-trans (committed_view l) (committed_view l') (committed_view l'') k.tables
                k'.tables;
          flag = λ b g. k'.flag b (k.flag b g);
          signer = λ s g. k'.signer s (k.signer s g);
        },
      )

  -- In every state that a node reaches from an empty service, by any transactions, commits, rollbacks
  -- and restarts, the tables are sound, current and committed: an enclave stands under its key; a
  -- contract stands under its id, is active, lists registered enclaves only and none twice, and its
  -- current state, if it has one, is recorded. What is committed is in the current state, and the
  -- verifiers and the signer that the node keeps are of the keys they stand for.
  pub Reach-IsConsistent : (l : Ledger h) → Reach h (new_ledger {h = h}) l → IsConsistent l
  Reach-IsConsistent l r = (Reach-both (new_ledger {h = h}) l r new_ledger-IsConsistent).0

  -- From a state that a node reaches from an empty service, no further run loses or changes what is
  -- committed: an enclave's registration, a contract's id, code hash, creator and provisioning
  -- services, the order of its enclaves, to which others may be added, the presence of a recorded state,
  -- the attestation flag and the ledger's key pair.
  pub Reach-IsKept : (l l' : Ledger h) → Reach h (new_ledger {h = h}) l → Reach h l l' → IsKept l l'
  Reach-IsKept l l' r s = (Reach-both l l' s (Reach-IsConsistent l r)).1
