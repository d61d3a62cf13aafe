-- ===== src/EventLoop/Registered.antt =====
-- What `register_event` (core-engine/src/system/event_loop.cpp) keeps between `callbacks_` and the kernel's
-- list, and what a descriptor that was closed does to it.
use Prim.Native.Nat.{bit_or}
use network_simulator_platfo.Common.{
  ℕ, ◌≡◌, ◌⊎◌, inl, inr, refl, ◌∙◌, sym, ap, subst, Bool, true, false, Option, none, some, ◌==◌,
  if◌then◌else◌, Option-cases, Bool-cases, ==_iff,
}
use network_simulator_platfo.Common.Map.{Map, find, nat_key, find-assign, find-erase}
use network_simulator_platfo.EventLoop.{
  CtlOp, Epoll, EventLoop, epollrdhup, ctl_op, register_event, with_callback,
}

-- Whether a descriptor is registered behind an operation that has succeeded.
abbrev pub registers : CtlOp → Bool
registers CtlOp.ctl_add = true
registers CtlOp.ctl_mod = true
registers CtlOp.ctl_del = false

-- What the manual says of `epoll_ctl`: ADD fails with EEXIST on a descriptor that is registered, MOD
-- and DEL fail with ENOENT on one that is not; a call changes the entry of its descriptor alone.
pub record IsEpoll (K : Epoll) : Type 0 where
  pub exists :
      (s : K.State) (fd events : ℕ)
      → K.interest s fd ≡ true
      → K.epoll_ctl s CtlOp.ctl_add fd events ≡ none
  pub no_entry_mod :
      (s : K.State) (fd events : ℕ)
      → K.interest s fd ≡ false
      → K.epoll_ctl s CtlOp.ctl_mod fd events ≡ none
  pub no_entry_del :
      (s : K.State) (fd events : ℕ)
      → K.interest s fd ≡ false
      → K.epoll_ctl s CtlOp.ctl_del fd events ≡ none
  pub changes :
      (s t : K.State) (op : CtlOp) (fd events f : ℕ)
      → K.epoll_ctl s op fd events ≡ some t
      → K.interest t f ≡ (if fd == f then registers op else K.interest s f)

abbrev pub has : {C : Type 0} → Option C → Bool
has none = false
has (some c) = true

-- The kernel watches exactly the descriptors that have a callback.
abbrev pub IsInSync : (K : Epoll) {C : Type 0} → EventLoop K C → Type 0
IsInSync K l = (fd : ℕ) → K.interest l.kernel fd ≡ has (find fd l.callbacks)

module _ (K : Epoll) (docs : IsEpoll K) {C : Type 0} where
  find-with_callback :
      (callbacks : Map ℕ C) (fd f : ℕ) (callback : Option C)
      → find f (with_callback K callbacks fd callback)
        ≡ (if fd == f then callback else find f callbacks)
  find-with_callback callbacks fd f none = find-erase fd f callbacks
  find-with_callback callbacks fd f (some c) = find-assign fd f c callbacks

  registers-ctl_op :
      (old callback : Option C)
      → (has old ≡ true) ⊎ (has callback ≡ true)
      → registers (ctl_op K old callback) ≡ has callback
  unfolding ctl_op
  registers-ctl_op none none useful = elim useful [ inl e ↦ cc | inr e ↦ cc ]
  registers-ctl_op none (some c) useful = refl
  registers-ctl_op (some o) none useful = refl
  registers-ctl_op (some o) (some c) useful = refl

  -- Where `epoll_ctl` fails as its manual says (EEXIST, ENOENT) and changes the entry of its
  -- descriptor alone, `register_event` keeps the kernel's list and `callbacks_` in step wherever it
  -- returns, unless it is given an empty callback for a descriptor that has none; behind it the
  -- descriptor has the callback.
  pub register_event-IsInSync :
      (l l' : EventLoop K C) (fd filter : ℕ) (callback : Option C)
      → IsInSync K l
      → (has (find fd l.callbacks) ≡ true) ⊎ (has callback ≡ true)
      → register_event K l fd filter callback ≡ some l'
      → IsInSync K l' × (find fd l'.callbacks ≡ callback)
  unfolding register_event ctl_op
  register_event-IsInSync l l' fd filter callback sync useful e =
      elim (Option-cases (
        K.epoll_ctl l.kernel (ctl_op K (find fd l.callbacks) callback) fd
          (bit_or filter epollrdhup))) [
            | inl failed ↦ let stuck : none ≡ some l' = rw (failed, register_event) at e in cc
            | inr (kernel, done) ↦
                let new : EventLoop K C = record {
                  callbacks = with_callback K l.callbacks fd callback;
                  kernel = kernel;
                } in
                let is : some new ≡ some l' = rw (done, register_event) at e in
                let same : new ≡ l' = cc in
                subst (λ l'. IsInSync K l' × (find fd l'.callbacks ≡ callback)) same
                  (
                    λ f.
                        docs.changes l.kernel kernel _ fd (bit_or filter epollrdhup) f done
                        ∙ watched f,
                    (find-with_callback l.callbacks fd fd callback
                        ∙ rw ((==_iff fd fd).1 refl) refl),
                  )
          ]
    where
      watched :
          (f : ℕ)
          → (if fd == f
              then registers (ctl_op K (find fd l.callbacks) callback)
              else K.interest l.kernel f)
            ≡ has (find f (with_callback K l.callbacks fd callback))
      watched f = elim (Bool-cases (fd == f)) [
        | inl own ↦ rw own (
            registers-ctl_op (find fd l.callbacks) callback useful
            ∙ ap has (sym (find-with_callback l.callbacks fd f callback ∙ rw own refl)))
        | inr other ↦
            rw other
              (sync f ∙ ap has (sym (find-with_callback l.callbacks fd f callback ∙ rw other refl)))
      ]

  -- Where a descriptor has a callback that `callbacks_` keeps and the kernel no longer watches it, since
  -- it was closed, a registration of the same number throws.
  pub register_event_closed :
      (l : EventLoop K C) (fd filter : ℕ) (old : C) (callback : Option C)
      → find fd l.callbacks ≡ some old
      → K.interest l.kernel fd ≡ false
      → register_event K l fd filter callback ≡ none
  unfolding register_event ctl_op
  register_event_closed l fd filter old none known gone =
      rw (known, docs.no_entry_del l.kernel fd (bit_or filter epollrdhup) gone, register_event) refl
  register_event_closed l fd filter old (some c) known gone =
      rw (known, docs.no_entry_mod l.kernel fd (bit_or filter epollrdhup) gone, register_event) refl
