-- ===== src/Examples/Workers.antt =====
-- Orders of the operations on the interpreter.
use private_data_objects.Prelude.{refl, ◌⊎◌, true, false}
use private_data_objects.Enclave.Worker.{
  interpreter_busy, interpreter_done, fresh, used_up, initialize_interpreter, wait_for_completion,
  get_initialized_interpreter, mark_interpreter_done, Workplace, prepared, completed, acquired,
  shut_down, Turns, nobody, next,
}
use private_data_objects.Enclave.Worker.Exclusive.{IsFree, IsHeld, Turns-IsFree}

-- A request holds the interpreter.
abbrev held : Workplace
held = record {
  worker = record { current_state = interpreter_busy; interpreter = fresh };
  holders = 1;
}

to_held : Turns false held
unfolding initialize_interpreter get_initialized_interpreter
to_held = next (next nobody prepared) (acquired held.worker refl)

Turns-IsFree_example : IsFree held ⊎ IsHeld held
Turns-IsFree_example = Turns-IsFree held to_held

-- The shutdown marks the interpreter as done while a request holds it, and the thread that prepares it
-- finalizes it then.
abbrev finalized_while_held : Workplace
finalized_while_held = record {
  worker = record { current_state = interpreter_done; interpreter = used_up };
  holders = 1;
}

to_finalized_while_held : Turns true finalized_while_held
unfolding initialize_interpreter get_initialized_interpreter mark_interpreter_done
    wait_for_completion
to_finalized_while_held =
    next (next (next (next nobody prepared) (acquired held.worker refl)) (shut_down refl))
      (completed finalized_while_held.worker refl)
