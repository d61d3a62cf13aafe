-- ===== src/EventLoop.antt =====
-- The event loop: core-engine/include/system/event_loop.hpp and core-engine/src/system/event_loop.cpp,
-- as compiled on Linux. The kernel's epoll instance is a parameter.
pub mod Registered
pub mod Listed
mod Tests
use Prim.Native.Nat.{bit_or}
use network_simulator_platfo.Common.{
  ℕ, ◌%◌, ◌^◌, Bool, true, false, Option, none, some, List, [], ◌∷◌,
}
use network_simulator_platfo.Common.Map.{Map, find, assign, erase, nat_key}

-- `EPOLL_CTL_ADD`, `EPOLL_CTL_MOD` and `EPOLL_CTL_DEL`
pub data CtlOp : Type 0 where
  ctl_add ctl_mod ctl_del : CtlOp

-- An epoll instance: its state, which descriptors are registered, and `epoll_ctl` for an operation, a
-- descriptor and the events that are asked for, where none is an error.
pub record Epoll : Type 1 where
  pub State : Type 0
  pub interest : State → ℕ → Bool
  pub epoll_ctl : State → CtlOp → ℕ → ℕ → Option State

-- What `epoll_wait` answers: a signal has interrupted it, an error, or the descriptors that are ready
-- with their events.
pub data Waited : Type 0 where
  interrupted failed : Waited
  ready : List (ℕ × ℕ) → Waited

-- `callbacks_` and the instance behind `loop_fd_`.
pub record EventLoop (K : Epoll) (C : Type 0) : Type 0 where
  pub callbacks : Map ℕ C
  pub kernel : K.State

-- `EPOLLRDHUP`
abbrev pub epollrdhup : ℕ
epollrdhup = 8192

module _ (K : Epoll) {C : Type 0} where
  -- The operation for a descriptor, by its entry in `callbacks_` and the new callback.
  unfoldable pub ctl_op : Option C → Option C → CtlOp
  ctl_op none callback = CtlOp.ctl_add
  ctl_op (some old) none = CtlOp.ctl_del
  ctl_op (some old) (some callback) = CtlOp.ctl_mod

  abbrev pub with_callback : Map ℕ C → ℕ → Option C → Map ℕ C
  with_callback callbacks fd none = erase fd callbacks
  with_callback callbacks fd (some callback) = assign fd callback callbacks

  -- `register_event`; none is its exception, and an empty callback is none.
  unfoldable pub register_event : EventLoop K C → ℕ → ℕ → Option C → Option (EventLoop K C)
  register_event l fd filter callback =
      elim (K.epoll_ctl l.kernel (ctl_op (find fd l.callbacks) callback) fd
        (bit_or filter epollrdhup)) [
          | none ↦ none
          | some kernel ↦
              some (record { callbacks = with_callback l.callbacks fd callback; kernel = kernel })
        ]

  module _ {W : Type 0} (loop_of : W → EventLoop K C) (run : C → ℕ → ℕ → W → Option W) where
    -- The loop over the ready descriptors; a callback may register others, and none is its exception.
    unfoldable pub dispatch : List (ℕ × ℕ) → W → Option W
    dispatch [] w = some w
    dispatch ((fd, events) ∷ rest) w = elim (find fd (loop_of w).callbacks) [
      | none ↦ dispatch rest w
      | some callback ↦ elim (run callback fd (events % 2 ^ 16) w) [
        | none ↦ none
        | some w' ↦ dispatch rest w'
      ]
    ]

    unfoldable pub poll_once : Waited → W → Option W
    poll_once Waited.interrupted w = some w
    poll_once Waited.failed w = none
    poll_once (Waited.ready events) w = dispatch events w
