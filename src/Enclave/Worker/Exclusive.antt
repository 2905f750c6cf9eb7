-- ===== src/Enclave/Worker/Exclusive.antt =====
-- The exclusion between the requests and the thread that prepares the interpreter.
use private_data_objects.Prelude.{◌≡◌, refl, ◌⊎◌, inl, inr, ℕ, suc, ◌≤◌, false, none, some, arith}
use private_data_objects.Enclave.Worker.{
  InterpreterState, interpreter_ready, interpreter_busy, interpreter_done, InterpreterObject, fresh,
  ContractWorker, initialize_interpreter, wait_for_completion, get_initialized_interpreter,
  mark_interpreter_done, Workplace, Turn, prepared, completed, acquired, released, shut_down, Turns,
  nobody, next,
}

some_injective {ℓ} : {A : Type ℓ} {a b : A} → some a ≡ some b → a ≡ b
some_injective h = cc

-- The state of the worker says whether a request holds the interpreter.
abbrev holders_of : InterpreterState → ℕ
holders_of interpreter_busy = 1
holders_of _ = 0

abbrev IsUsable : InterpreterState → InterpreterObject → Type 0
IsUsable interpreter_done i = Unit
IsUsable interpreter_ready i = i ≡ fresh
IsUsable interpreter_busy i = i ≡ fresh

pub record IsExclusive (s : Workplace) : Type 0 where
  pub counted : s.holders ≡ holders_of s.worker.current_state
  pub usable : IsUsable s.worker.current_state s.worker.interpreter

initialize-IsExclusive :
    (state : InterpreterState) (i : InterpreterObject) (n : ℕ)
    → n ≡ holders_of state
    → IsUsable state i
    → IsExclusive (record {
      worker = initialize_interpreter (record { current_state = state; interpreter = i });
      holders = n;
    })
unfolding initialize_interpreter
initialize-IsExclusive interpreter_done i n e u = record { counted = e; usable = refl }
initialize-IsExclusive interpreter_ready i n e u = record { counted = e; usable = u }
initialize-IsExclusive interpreter_busy i n e u = record { counted = e; usable = u }

completed-IsExclusive :
    (state : InterpreterState) (i : InterpreterObject) (n : ℕ) (w : ContractWorker)
    → n ≡ holders_of state
    → wait_for_completion (record { current_state = state; interpreter = i }) ≡ some w
    → IsExclusive (record { worker = w; holders = n })
unfolding wait_for_completion
completed-IsExclusive interpreter_done i n w e h =
    let same = some_injective h in rw (← same) (record { counted = e; usable = tt })
completed-IsExclusive interpreter_ready i n w e h = absurd (ground (arith, h))
completed-IsExclusive interpreter_busy i n w e h = absurd (ground (arith, h))

acquired-IsExclusive :
    (state : InterpreterState) (i : InterpreterObject) (n : ℕ) (w : ContractWorker)
    → n ≡ holders_of state
    → IsUsable state i
    → get_initialized_interpreter (record { current_state = state; interpreter = i }) ≡ some w
    → IsExclusive (record { worker = w; holders = suc n })
unfolding get_initialized_interpreter
acquired-IsExclusive interpreter_ready i n w e u h =
    let same = some_injective h in rw (← same) (record { counted = omega (arith, e); usable = u })
acquired-IsExclusive interpreter_done i n w e u h = absurd (ground (arith, h))
acquired-IsExclusive interpreter_busy i n w e u h = absurd (ground (arith, h))

holders_of_small : (state : InterpreterState) → holders_of state ≤ 1
holders_of_small interpreter_ready = omega arith
holders_of_small interpreter_busy = omega arith
holders_of_small interpreter_done = omega arith

Turn-IsExclusive : {t u : Workplace} → IsExclusive t → Turn false t u → IsExclusive u
unfolding mark_interpreter_done
Turn-IsExclusive {t} v prepared = initialize-IsExclusive _ _ t.holders v.counted v.usable
Turn-IsExclusive {t} v (completed w h) = completed-IsExclusive _ _ t.holders w v.counted h
Turn-IsExclusive {t} v (acquired w h) = acquired-IsExclusive _ _ t.holders w v.counted v.usable h
Turn-IsExclusive {t} v (released n e) = record {
  counted = omega (arith, e, v.counted, holders_of_small t.worker.current_state);
  usable = tt;
}
Turn-IsExclusive v (shut_down allowed) = absurd (ground (arith, allowed))

Turns-IsExclusive : {s : Workplace} → Turns false s → IsExclusive s
Turns-IsExclusive nobody = record { counted = refl; usable = tt }
Turns-IsExclusive (next run turn) = Turn-IsExclusive (Turns-IsExclusive run) turn

-- No request holds the interpreter, and one gets an initialized one after it was prepared.
pub record IsFree (s : Workplace) : Type 0 where
  pub no_holder : s.holders ≡ 0
  pub w : ContractWorker
  pub available : get_initialized_interpreter (initialize_interpreter s.worker) ≡ some w
  pub initialized : w.interpreter ≡ fresh

-- One request holds the interpreter, and no operation of another thread changes it.
pub record IsHeld (s : Workplace) : Type 0 where
  pub one_holder : s.holders ≡ 1
  pub initialized : s.worker.interpreter ≡ fresh
  pub not_prepared : initialize_interpreter s.worker ≡ s.worker
  pub not_completed : wait_for_completion s.worker ≡ none
  pub not_acquired : get_initialized_interpreter s.worker ≡ none

IsFree-or_IsHeld :
    (state : InterpreterState) (i : InterpreterObject) (n : ℕ)
    → n ≡ holders_of state
    → IsUsable state i
    → IsFree (record { worker = record { current_state = state; interpreter = i }; holders = n })
      ⊎ IsHeld (record { worker = record { current_state = state; interpreter = i }; holders = n })
unfolding initialize_interpreter wait_for_completion get_initialized_interpreter
IsFree-or_IsHeld interpreter_ready i n e u = inl (record {
  no_holder = e;
  w = record { current_state = interpreter_busy; interpreter = i };
  available = refl;
  initialized = u;
})
IsFree-or_IsHeld interpreter_busy i n e u = inr (record {
  one_holder = e;
  initialized = u;
  not_prepared = refl;
  not_completed = refl;
  not_acquired = refl;
})
IsFree-or_IsHeld interpreter_done i n e u = inl (record {
  no_holder = e;
  w = record { current_state = interpreter_busy; interpreter = fresh };
  available = refl;
  initialized = refl;
})

-- In every order of the operations of any threads, as long as the worker is not shut down, either no request
-- holds the interpreter, and one gets an initialized one after it was prepared, or exactly one request holds
-- it: then it is initialized, no thread initializes or finalizes it, and no other request gets it.
pub Turns-IsFree : (s : Workplace) → Turns false s → IsFree s ⊎ IsHeld s
Turns-IsFree s run =
    let v = Turns-IsExclusive run in
    IsFree-or_IsHeld s.worker.current_state s.worker.interpreter s.holders v.counted v.usable
