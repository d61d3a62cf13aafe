-- ===== src/Spsc/Tests.antt =====
-- Runs of the queue (core-engine/include/system/event_queue.hpp) on concrete inputs.
use network_simulator_platfo.Common.{
  ℕ, ◌^◌, ◌≤◌, ◌≡◌, refl, some, List, [], ◌∷◌, ◌++◌, map, arith, length,
}
use network_simulator_platfo.Spsc.{make}
use network_simulator_platfo.Spsc.Queue.{Op, pushes, pops, pushed, popped, run_refines, run_list}
use network_simulator_platfo.Spsc.Queue
use network_simulator_platfo.Spsc.Threads.{
  Event, offers, produces, takes, consumes, run, start, step, produce, consume,
}
use network_simulator_platfo.Spsc.Fifo.{run_fifo}

abbrev two_slots : List ℕ
two_slots = 0 ∷ 0 ∷ []

-- Two pushes, between whose accesses one pop runs.
abbrev hand_over : List (Event ℕ)
hand_over =
    offers 5
    ∷ produces
    ∷ takes
    ∷ produces
    ∷ produces
    ∷ offers 7
    ∷ takes
    ∷ consumes
    ∷ produces
    ∷ consumes
    ∷ produces
    ∷ consumes
    ∷ produces
    ∷ []

handed_over : (run 1 (start two_slots) hand_over).popped ≡ some 5 ∷ []
unfolding run step produce consume start
handed_over = refl

run_fifo_example :
    let m = run 1 (start two_slots) hand_over in
    (taken : List ℕ) × (items : List ℕ) × (m.popped ≡ map some taken)
    × (m.pushed ≡ taken ++ items)
    × (length items ≤ 2 ^ 1)
run_fifo_example = run_fifo 1 two_slots hand_over (omega arith) refl

abbrev calls : List (Op ℕ)
calls = pops ∷ pushes 1 ∷ pushes 2 ∷ pushes 3 ∷ pops ∷ pushes 4 ∷ pops ∷ pops ∷ []

run_refines_example : Queue.run 1 (make two_slots) calls ≡ run_list (2 ^ 1) [] calls
run_refines_example = run_refines 1 two_slots calls (omega arith) refl
