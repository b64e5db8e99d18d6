-- ===== src/Reactor/Events/Interest.antt =====
-- The list `fds` against what epoll was told to watch.
use tirpc.Reactor.Events.{
  Op, ctl_add, ctl_change, ctl_del, EpollEvent, Call, Reactor, same_fd, has_fd, erase_fd, control,
  add_event_in_loop_thread, del_event_in_loop_thread,
}
use tirpc.Prelude.{
  Bool, true, false, List, [], ◌∷◌, ◌++◌, ==_iff, ℤ, pos, negsuc, ◌≡◌, ap, inl, inr, arith,
  Bool-cases, ◌↔◌,
}

pub same_fd_iff : (a b : ℤ) → (same_fd a b ≡ true) ↔ (a ≡ b)
same_fd_iff (pos a) (pos b) = ground (arith, ==_iff a b)
same_fd_iff (negsuc a) (negsuc b) = ground (arith, ==_iff a b)
same_fd_iff (pos a) (negsuc b) = ground arith
same_fd_iff (negsuc a) (pos b) = ground arith

-- What a call that was answered with `false` or `true` does to what epoll watches.
abbrev pub after : Op → ℤ → Bool → List ℤ → List ℤ
after op fd false xs = xs
after ctl_add fd true xs = xs ++ (fd ∷ [])
after ctl_change fd true xs = xs
after ctl_del fd true xs = erase_fd fd xs

-- The descriptors that epoll watches after the calls, the last call first.
abbrev pub watched : List Call → List ℤ
watched [] = []
watched (c ∷ cs) = after c.op c.on c.answer (watched cs)

-- A call is legal if it adds what is not watched, or changes or deletes what is.
abbrev pub IsLegal : Op → ℤ → List Call → Type 0
IsLegal ctl_add fd cs = has_fd fd (watched cs) ≡ false
IsLegal ctl_change fd cs = has_fd fd (watched cs) ≡ true
IsLegal ctl_del fd cs = has_fd fd (watched cs) ≡ true

-- epoll_ctl, as documented, deletes a watched descriptor without an error.
abbrev pub Deletes : (List Call → Op → ℤ → Bool) → Type 0
Deletes epoll_ctl =
    (cs : List Call) (fd : ℤ) → has_fd fd (watched cs) ≡ true → epoll_ctl cs ctl_del fd ≡ true

abbrev pub AllLegal : List Call → Type 0
AllLegal [] = Unit
AllLegal (c ∷ cs) = IsLegal c.op c.on cs × AllLegal cs

-- The reactor's list is what epoll watches, and no call was illegal.
pub record Mirrors {T : Type 0} (r : Reactor T) : Type 0 where
  pub same : r.fds ≡ watched r.calls
  pub legal : AllLegal r.calls

module _ {T : Type 0} (epoll_ctl : List Call → Op → ℤ → Bool) where
  -- AddEventInLoopThread keeps the reactor's list equal to what epoll watches, whether epoll_ctl
  -- succeeds or fails, and makes only a legal call.
  pub add_event_in_loop_thread-Mirrors :
      (fd : ℤ) (e : EpollEvent) (r : Reactor T)
      → Mirrors r
      → Mirrors (add_event_in_loop_thread epoll_ctl fd e r)
  unfolding add_event_in_loop_thread control
  add_event_in_loop_thread-Mirrors fd e r m = elim (Bool-cases (has_fd fd r.fds)) [
    | inl old ↦ elim (Bool-cases (epoll_ctl r.calls ctl_change fd)) [
      | inl y ↦ rw old (rw y (record { same = m.same; legal = (rw (← m.same) old, m.legal) }))
      | inr n ↦ rw old (rw n (record { same = m.same; legal = (rw (← m.same) old, m.legal) }))
    ]
    | inr new ↦ elim (Bool-cases (epoll_ctl r.calls ctl_add fd)) [
      | inl y ↦ rw new (
          rw y (record {
            same = ap (λ xs. xs ++ (fd ∷ [])) m.same;
            legal = (rw (← m.same) new, m.legal);
          }))
      | inr n ↦ rw new (rw n (record { same = m.same; legal = (rw (← m.same) new, m.legal) }))
    ]
  ]

  -- DelEventInLoopThread keeps it too, where epoll_ctl deletes what it watches.
  pub del_event_in_loop_thread-Mirrors :
      (fd : ℤ) (r : Reactor T)
      → Deletes epoll_ctl
      → Mirrors r
      → Mirrors (del_event_in_loop_thread epoll_ctl fd r)
  unfolding del_event_in_loop_thread control
  del_event_in_loop_thread-Mirrors fd r d m = elim (Bool-cases (has_fd fd r.fds)) [
    | inl old ↦
        let old' : has_fd fd (watched r.calls) ≡ true = rw (← m.same) old in
        rw (old) (
          rw (d r.calls fd old')
            (record { same = ap (erase_fd fd) m.same; legal = (old', m.legal) }))
    | inr new ↦ rw new m
  ]
