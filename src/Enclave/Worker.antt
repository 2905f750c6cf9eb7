-- ===== src/Enclave/Worker.antt =====
-- contract_worker.cpp: the interpreter that one thread prepares and requests use in turn. Each operation runs
-- under the mutex, so that threads take turns by whole operations; one that has to wait gives none and is
-- tried again.
pub mod Exclusive
use private_data_objects.Prelude.{◌≡◌, ℕ, zero, suc, ◌+◌, Bool, true, false, Option, none, some}

-- `interpreter_state`
pub data InterpreterState : Type 0 where
  interpreter_ready interpreter_busy interpreter_done : InterpreterState

-- The interpreter: not created yet, initialized, or finalized.
pub data InterpreterObject : Type 0 where
  missing fresh used_up : InterpreterObject

-- `ContractWorker`
pub record ContractWorker : Type 0 where
  pub current_state : InterpreterState
  pub interpreter : InterpreterObject

abbrev pub new_contract_worker : ContractWorker
new_contract_worker = record { current_state = interpreter_done; interpreter = missing }

-- The interpreter is created or initialized again; what is created is initialized.
unfoldable pub initialize_interpreter : ContractWorker → ContractWorker
initialize_interpreter w = elim w.current_state [
  | interpreter_done ↦ record { current_state = interpreter_ready; interpreter = fresh }
  | interpreter_ready ↦ w
  | interpreter_busy ↦ w
]

abbrev pub after_finalize : InterpreterObject → InterpreterObject
after_finalize missing = missing
after_finalize _ = used_up

unfoldable pub wait_for_completion : ContractWorker → Option ContractWorker
wait_for_completion w = elim w.current_state [
  | interpreter_done ↦ some (record w { interpreter = after_finalize w.interpreter })
  | interpreter_ready ↦ none
  | interpreter_busy ↦ none
]

unfoldable pub get_initialized_interpreter : ContractWorker → Option ContractWorker
get_initialized_interpreter w = elim w.current_state [
  | interpreter_ready ↦ some (record w { current_state = interpreter_busy })
  | interpreter_busy ↦ none
  | interpreter_done ↦ none
]

unfoldable pub mark_interpreter_done : ContractWorker → ContractWorker
mark_interpreter_done w = record w { current_state = interpreter_done }

-- The worker, and how many requests hold an `InitializedInterpreter`.
pub record Workplace : Type 0 where
  pub worker : ContractWorker
  pub holders : ℕ

-- One operation of some thread: the loop of `ecall_CreateContractWorker`, a request, or the shutdown, where
-- it is allowed.
pub data Turn (can_shut_down : Bool) (s : Workplace) : Workplace → Type 0 where
  prepared : Turn can_shut_down s (record s { worker = initialize_interpreter s.worker })
  completed :
      (w : ContractWorker)
      → wait_for_completion s.worker ≡ some w
      → Turn can_shut_down s (record s { worker = w })
  acquired :
      (w : ContractWorker)
      → get_initialized_interpreter s.worker ≡ some w
      → Turn can_shut_down s (record { worker = w; holders = suc s.holders })
  released :
      (n : ℕ)
      → s.holders ≡ suc n
      → Turn can_shut_down s (record { worker = mark_interpreter_done s.worker; holders = n })
  shut_down :
      can_shut_down ≡ true
      → Turn can_shut_down s (record s { worker = mark_interpreter_done s.worker })

pub data Turns (can_shut_down : Bool) : Workplace → Type 0 where
  nobody : Turns can_shut_down (record { worker = new_contract_worker; holders = 0 })
  next :
      {s s' : Workplace} → Turns can_shut_down s → Turn can_shut_down s s' → Turns can_shut_down s'
