-- ===== src/Coroutine/Hook/Parking.antt =====
-- How a hook leaves its descriptor while its coroutine waits, and afterwards.
use tirpc.Coroutine.Hook.{
  Io, with_reactor, set_non_block, set_coroutine, clear_coroutine, prepare, to_epoll, leave_epoll,
  wait_for,
}
use tirpc.Reactor.Events.{
  IoEvent, read, write, edge, same_event, Op, Call, Reactor, FdEvent, same_fd, add_event,
  update_to_reactor, add_listen_events, del_listen_events,
}
use tirpc.Reactor.Events.Interest.{Mirrors, add_event_in_loop_thread-Mirrors}
use tirpc.Prelude.{
  ℕ, Bool, true, false, not, ◌&&◌, ◌||◌, List, none, some, if◌then◌else◌, ℤ, pos, negsuc, ltb_ℤ,
  ◌≡◌, inl, inr, refl, sym, subst, Bool-cases,
}

same_event_refl : (e : IoEvent) → same_event e e ≡ true
same_event_refl read = refl
same_event_refl write = refl
same_event_refl edge = refl

without :
    (events : IoEvent → Bool) (x event : IoEvent)
    → events event ≡ false
    → events x ≡ (not (same_event x event) && events x)
without events read read h = h
without events read write h = refl
without events read edge h = refl
without events write read h = refl
without events write write h = h
without events write edge h = refl
without events edge read h = refl
without events edge write h = refl
without events edge edge h = h

module _ {T : Type 0} (epoll_ctl : List Call → Op → ℤ → Bool) (in_loop : Bool) (this : ℕ) where
  -- The event behind AddListenEvents listens, for the same coroutine.
  add_listen_events_lem :
      (event : IoEvent) (e : FdEvent T) (r : Reactor T)
      → ((add_listen_events epoll_ctl in_loop this event e r).0.listen_events event ≡ true)
        × ((add_listen_events epoll_ctl in_loop this event e r).0.coroutine ≡ e.coroutine)
  unfolding add_listen_events update_to_reactor
  add_listen_events_lem event e r = elim (Bool-cases (e.listen_events event)) [
    | inl h ↦ rw h (h, refl)
    | inr h ↦ rw h (rw (same_event_refl event) refl, refl)
  ]

  -- The event behind DelListenEvents does not listen, and keeps what else it listened to.
  del_listen_events_lem :
      (event : IoEvent) (e : FdEvent T) (r : Reactor T)
      → ((x : IoEvent)
          → (del_listen_events epoll_ctl in_loop this event e r).0.listen_events x
            ≡ (not (same_event x event) && e.listen_events x))
  unfolding del_listen_events update_to_reactor
  del_listen_events_lem event e r x = elim (Bool-cases (e.listen_events event)) [
    | inl h ↦ rw h refl
    | inr h ↦ rw h (without e.listen_events x event h)
  ]

  -- What a hook hands to the loop, and what it leaves behind.
  abbrev pub Parks : IoEvent → ℕ → Bool → ℤ → (Io T → Io T) → Io T → ℤ × Io T → Type 0
  Parks event cur can_set second elsewhere io o =
      (parked : Io T) × (resumed : Io T) × (parked.event.listen_events event ≡ true)
      × (parked.event.coroutine ≡ some cur)
      × (resumed ≡ elsewhere parked)
      × (o.0 ≡ second)
      × (o.1.event.coroutine ≡ none)
      × ((x : IoEvent)
          → o.1.event.listen_events x ≡ (not (same_event x event) && resumed.event.listen_events x))

  -- A hook off the main coroutine whose first system call moves nothing: it yields on a descriptor that
  -- listens to its event for the current coroutine, and whatever happens until it is resumed, it answers
  -- with its second system call, and leaves a descriptor that has no coroutine and listens to what it
  -- listened to but for that event.
  pub wait_for-Parks :
      (event : IoEvent) (cur : ℕ) (can_set : Bool) (first second : ℤ) (elsewhere : Io T → Io T)
      (io : Io T)
      → ltb_ℤ (pos 0) first ≡ false
      → Parks event cur can_set second elsewhere io
          (wait_for epoll_ctl in_loop this event false cur can_set first second elsewhere io)
  unfolding wait_for to_epoll leave_epoll set_coroutine clear_coroutine
  wait_for-Parks event cur can_set first second elsewhere io h =
      let ready = prepare can_set io in
      let parked = to_epoll epoll_ctl in_loop this cur event ready in
      let (l, c) = add_listen_events_lem event (set_coroutine cur ready.event) ready.reactor in
      rw h (
        parked,
        elsewhere parked,
        l,
        c,
        refl,
        refl,
        refl,
        del_listen_events_lem event (elsewhere parked).event (elsewhere parked).reactor,
      )

module _ {T : Type 0} (epoll_ctl : List Call → Op → ℤ → Bool) (this : ℕ) where
  update_to_reactor-Mirrors :
      (e : FdEvent T) (r : Reactor T)
      → Mirrors r
      → Mirrors (update_to_reactor epoll_ctl true this e r).1
  unfolding update_to_reactor add_event
  update_to_reactor-Mirrors e r m = elim (Bool-cases (same_fd e.fd (negsuc 0))) [
    | inl h ↦ rw h m
    | inr h ↦ rw h (
        add_event_in_loop_thread-Mirrors epoll_ctl e.fd
          (record { events = e.listen_events; target = this }) r m)
  ]

  add_listen_events-Mirrors :
      (event : IoEvent) (e : FdEvent T) (r : Reactor T)
      → Mirrors r
      → Mirrors (add_listen_events epoll_ctl true this event e r).1
  unfolding add_listen_events
  add_listen_events-Mirrors event e r m = elim (Bool-cases (e.listen_events event)) [
    | inl h ↦ rw h m
    | inr h ↦ rw h (
        update_to_reactor-Mirrors
          (record e { listen_events = λ x. same_event x event || e.listen_events x }) r m)
  ]

  del_listen_events-Mirrors :
      (event : IoEvent) (e : FdEvent T) (r : Reactor T)
      → Mirrors r
      → Mirrors (del_listen_events epoll_ctl true this event e r).1
  unfolding del_listen_events
  del_listen_events-Mirrors event e r m = elim (Bool-cases (e.listen_events event)) [
    | inl h ↦ rw h (
        update_to_reactor-Mirrors
          (record e { listen_events = λ x. not (same_event x event) && e.listen_events x }) r m)
    | inr h ↦ rw h m
  ]

  -- The work before the system call leaves the reactor alone.
  prepare-reactor : (can_set : Bool) (io : Io T) → (prepare can_set io).reactor ≡ io.reactor
  unfolding prepare set_non_block
  prepare-reactor can_set io =
      elim (same_fd (with_reactor io.event).fd (negsuc 0) || io.non_block)
        as (λ b.
          (if b
            then record io { event = with_reactor io.event }
            else record io { event = with_reactor io.event; non_block = can_set }).reactor
          ≡ io.reactor) [ true ↦ refl | false ↦ refl ]

  -- A hook on the thread of the loop keeps the reactor's list equal to what epoll watches, and makes only
  -- legal calls of epoll_ctl, whichever of its branches it takes and whatever the system calls answer,
  -- where what happens until it is resumed keeps them so.
  pub wait_for-Mirrors :
      (event : IoEvent) (main : Bool) (cur : ℕ) (can_set : Bool) (first second : ℤ)
      (elsewhere : Io T → Io T) (io : Io T)
      → ((x : Io T) → Mirrors x.reactor → Mirrors (elsewhere x).reactor)
      → Mirrors io.reactor
      → Mirrors
          (wait_for epoll_ctl true this event main cur can_set first second elsewhere io).1.reactor
  unfolding wait_for to_epoll leave_epoll
  wait_for-Mirrors event true cur can_set first second elsewhere io h m = m
  wait_for-Mirrors event false cur can_set first second elsewhere io h m =
      let ready = prepare can_set io in
      let m1 : Mirrors ready.reactor = subst Mirrors (sym (prepare-reactor can_set io)) m in
      let parked = to_epoll epoll_ctl true this cur event ready in
      let m2 : Mirrors parked.reactor =
        add_listen_events-Mirrors event (set_coroutine cur ready.event) ready.reactor m1 in
      let m3 =
        del_listen_events-Mirrors event (elsewhere parked).event (elsewhere parked).reactor
          (h parked m2) in
      elim (Bool-cases (ltb_ℤ (pos 0) first)) [ inl g ↦ rw g m1 | inr g ↦ rw g m3 ]
