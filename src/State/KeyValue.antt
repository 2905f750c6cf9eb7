-- ===== src/State/KeyValue.antt =====
-- common/state/basic_kv.h, the interface of a contract's store, and interpreter_kv.cpp, which keeps the
-- keys of the enclave apart from those of the contract by a byte in front.
use private_data_objects.Prelude.{◌∷◌, ByteArray}
use private_data_objects.Outcome.{Outcome}
use private_data_objects.Platform.{Platform}

-- `Basic_KV`, with its constructors, as an interface without laws. A handle is an open store: all that
-- the object refers to, the untrusted world included.
pub record BasicKv (p : Platform) : Type 1 where
  pub Handle : Type 0
  pub world : Handle → p.World
  -- The constructor that takes a key, and the one that takes an identity and a key.
  pub create : ByteArray → p.World → Outcome Handle
  pub open_at : ByteArray → ByteArray → p.World → Outcome Handle
  -- The store that an exception of `Finalize` leaves is finalized again by one of the callers, so that
  -- it is given back in any case. Of the others an exception gives none back: the enclave passes their
  -- exceptions on to the end of the request. A contract, whose exceptions are caught, works on the store
  -- through the interpreter, which gives back any store.
  pub finalize : Handle → Outcome ByteArray × Handle
  pub get : ByteArray → Handle → Outcome (ByteArray × Handle)
  pub put : ByteArray → ByteArray → Handle → Outcome Handle
  pub delete : ByteArray → Handle → Outcome Handle

unfoldable pub to_privileged_key : ByteArray → ByteArray
to_privileged_key key = b'P' ∷ key

unfoldable pub to_unprivileged_key : ByteArray → ByteArray
to_unprivileged_key key = b'p' ∷ key

module _ {p : Platform} (kv : BasicKv p) where
  unfoldable pub privileged_get : ByteArray → kv.Handle → Outcome (ByteArray × kv.Handle)
  unfolding to_privileged_key
  privileged_get key s = kv.get (to_privileged_key key) s

  unfoldable pub privileged_put : ByteArray → ByteArray → kv.Handle → Outcome kv.Handle
  unfolding to_privileged_key
  privileged_put key value s = kv.put (to_privileged_key key) value s

  unfoldable pub privileged_delete : ByteArray → kv.Handle → Outcome kv.Handle
  unfolding to_privileged_key
  privileged_delete key s = kv.delete (to_privileged_key key) s

  unfoldable pub unprivileged_get : ByteArray → kv.Handle → Outcome (ByteArray × kv.Handle)
  unfolding to_unprivileged_key
  unprivileged_get key s = kv.get (to_unprivileged_key key) s

  unfoldable pub unprivileged_put : ByteArray → ByteArray → kv.Handle → Outcome kv.Handle
  unfolding to_unprivileged_key
  unprivileged_put key value s = kv.put (to_unprivileged_key key) value s

  unfoldable pub unprivileged_delete : ByteArray → kv.Handle → Outcome kv.Handle
  unfolding to_unprivileged_key
  unprivileged_delete key s = kv.delete (to_unprivileged_key key) s
