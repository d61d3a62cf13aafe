-- ===== src/EventLoop/Listed.antt =====
-- An epoll instance as the list of the descriptors that it watches, as the manual describes it: that the
-- hypotheses on the kernel of core-engine/src/system/event_loop.cpp can hold.
use network_simulator_platfo.Common.{
  ℕ, ◌≡◌, refl, ◌∙◌, sym, ap, Bool, false, ◌||◌, Option, none, some, List, [], ◌∷◌, arith, ◌==◌,
  if◌then◌else◌, Bool-cases, inl, inr, ==_iff,
}
use network_simulator_platfo.EventLoop.{CtlOp, Epoll}
use network_simulator_platfo.EventLoop.Registered.{IsEpoll, registers}

abbrev pub watched : List ℕ → ℕ → Bool
watched [] f = false
watched (g ∷ gs) f = (g == f) || watched gs f

abbrev pub unwatch : List ℕ → ℕ → List ℕ
unwatch [] fd = []
unwatch (g ∷ gs) fd = if g == fd then unwatch gs fd else g ∷ unwatch gs fd

abbrev pub ctl : List ℕ → CtlOp → ℕ → ℕ → Option (List ℕ)
ctl s CtlOp.ctl_add fd events = if watched s fd then none else some (fd ∷ s)
ctl s CtlOp.ctl_mod fd events = if watched s fd then some s else none
ctl s CtlOp.ctl_del fd events = if watched s fd then some (unwatch s fd) else none

abbrev pub listed : Epoll
listed = record { State = List ℕ; interest = watched; epoll_ctl = ctl }

watched-unwatch :
    (s : List ℕ) (fd f : ℕ) → watched (unwatch s fd) f ≡ (if fd == f then false else watched s f)
watched-unwatch [] fd f = ground arith
watched-unwatch (g ∷ gs) fd f =
    ground (arith, watched-unwatch gs fd f, ==_iff g fd, ==_iff fd f, ==_iff g f)

pub unwatch_closes : (s : List ℕ) (fd : ℕ) → watched (unwatch s fd) fd ≡ false
unwatch_closes s fd = ground (arith, watched-unwatch s fd fd, ==_iff fd fd)

ctl_changes :
    (s t : List ℕ) (op : CtlOp) (fd events f : ℕ)
    → ctl s op fd events ≡ some t
    → watched t f ≡ (if fd == f then registers op else watched s f)
ctl_changes s t CtlOp.ctl_add fd events f e = elim (Bool-cases (watched s fd)) [
  | inl h ↦ let stuck : none ≡ some t = rw h at e in cc
  | inr h ↦
      let is : some (fd ∷ s) ≡ some t = rw h at e in
      let same : fd ∷ s ≡ t = cc in ap (λ u. watched u f) (sym same) ∙ ground arith
]
ctl_changes s t CtlOp.ctl_mod fd events f e = elim (Bool-cases (watched s fd)) [
  | inr h ↦ let stuck : none ≡ some t = rw h at e in cc
  | inl h ↦
      let is : some s ≡ some t = rw h at e in
      let same : s ≡ t = cc in
      ap (λ u. watched u f) (sym same) ∙ elim (Bool-cases (fd == f)) [
        | inl k ↦ rw k (ap (watched s) (sym ((==_iff fd f).0 k)) ∙ h)
        | inr k ↦ rw k refl
      ]
]
ctl_changes s t CtlOp.ctl_del fd events f e = elim (Bool-cases (watched s fd)) [
  | inr h ↦ let stuck : none ≡ some t = rw h at e in cc
  | inl h ↦
      let is : some (unwatch s fd) ≡ some t = rw h at e in
      let same : unwatch s fd ≡ t = cc in ap (λ u. watched u f) (sym same) ∙ watched-unwatch s fd f
]

pub listed-IsEpoll : IsEpoll listed
listed-IsEpoll = record {
  exists = λ s fd events h. rw h refl;
  no_entry_mod = λ s fd events h. rw h refl;
  no_entry_del = λ s fd events h. rw h refl;
  changes = ctl_changes;
}
