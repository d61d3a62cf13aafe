-- ===== src/EventLoop/Tests.antt =====
-- Runs of the event loop (core-engine/src/system/event_loop.cpp) on concrete inputs.
use network_simulator_platfo.Common.{ℕ, ◌≡◌, inr, refl, some, [], ◌∷◌}
use network_simulator_platfo.Common.Map.{find, assign, nat_key}
use network_simulator_platfo.EventLoop.{EventLoop, register_event, ctl_op}
use network_simulator_platfo.EventLoop.Registered.{IsInSync, register_event-IsInSync}
use network_simulator_platfo.EventLoop.Listed.{listed, listed-IsEpoll}

-- A callback is a number here.
abbrev idle : EventLoop listed ℕ
idle = record { callbacks = []; kernel = [] }

abbrev watching : EventLoop listed ℕ
watching = record { callbacks = (5, 1) ∷ []; kernel = 5 ∷ [] }

idle_registers : register_event listed idle 5 1 (some 1) ≡ some watching
unfolding register_event ctl_op find assign
idle_registers = refl

idle-IsInSync : IsInSync listed idle
unfolding find
idle-IsInSync fd = refl

register_event-IsInSync_example : IsInSync listed watching × (find 5 watching.callbacks ≡ some 1)
register_event-IsInSync_example =
    register_event-IsInSync listed listed-IsEpoll idle watching 5 1 (some 1) idle-IsInSync
      (inr refl) idle_registers
