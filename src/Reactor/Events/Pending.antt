-- ===== src/Reactor/Events/Pending.antt =====
-- What other threads ask a reactor for, and the container of FdEvents.
use tirpc.Reactor.Events.{
  EpollEvent, Call, Op, Reactor, FdEvent, same_fd, insert_fd, wakeup, add_event, new_fd_event, fill,
  grown, at_index, get_fd_event, found_event,
}
use tirpc.Reactor.Events.Interest.{same_fd_iff}
use tirpc.Prelude.{
  ℕ, zero, suc, ◌+◌, ◌-◌, ◌*◌, ◌/◌, ◌≤◌, ◌<◌, Bool, true, false, List, [], ◌∷◌, ◌++◌, some,
  if◌then◌else◌, ltb, ltb→lt, ℤ, pos, negsuc, ltb_ℤ, ◌≡◌, refl, subst, sym, ap, ◌∙◌, ◌⊎◌, inl, inr,
  arith, Bool-cases, Outcome, ok, length, get_elem?, length-append, append-nil,
}

same_fd_refl : (fd : ℤ) → same_fd fd fd ≡ true
same_fd_refl fd = (same_fd_iff fd fd).1 refl

insert_fd_twice :
    (fd : ℤ) (e e' : EpollEvent) (m : List (ℤ × EpollEvent))
    → insert_fd fd e' (insert_fd fd e m) ≡ insert_fd fd e m
unfolding insert_fd
insert_fd_twice fd e e' [] = rw (same_fd_refl fd) refl
insert_fd_twice fd e e' ((k, v) ∷ m) = elim (Bool-cases (same_fd k fd)) [
  | inl s ↦ rw s (rw s refl)
  | inr d ↦ elim (Bool-cases (ltb_ℤ fd k)) [
    | inl l ↦ rw (d, l) (rw (same_fd_refl fd) refl)
    | inr g ↦ rw (d, g) (rw (d, g) (ap (λ r. (k, v) ∷ r) (insert_fd_twice fd e e' m)))
  ]
]

pending_wake :
    {T : Type 0} (b : Bool) (r : Reactor T)
    → (if b then wakeup r else r).pending_add_fds ≡ r.pending_add_fds
unfolding wakeup
pending_wake true r = ground arith
pending_wake false r = refl

pending_after :
    {T : Type 0} (epoll_ctl : List Call → Op → ℤ → Bool) (fd : ℤ) (e : EpollEvent) (wake : Bool)
    (r : Reactor T)
    → same_fd fd (negsuc 0) ≡ false
    → (add_event epoll_ctl false fd e wake r).pending_add_fds ≡ insert_fd fd e r.pending_add_fds
unfolding add_event wakeup
pending_after epoll_ctl fd e wake r h =
    rw h (pending_wake wake (record r { pending_add_fds = insert_fd fd e r.pending_add_fds }))

-- After a call of AddEvent from another thread for a descriptor other than -1, and until the loop
-- has picked it up, a second call for the same descriptor changes nothing of what is pending: its
-- events are lost.
add_event_lost :
    {T : Type 0} (epoll_ctl : List Call → Op → ℤ → Bool) (fd : ℤ) (e e' : EpollEvent)
    (wake wake' : Bool) (r : Reactor T)
    → same_fd fd (negsuc 0) ≡ false
    → (add_event epoll_ctl false fd e' wake'
        (add_event epoll_ctl false fd e wake r)).pending_add_fds
      ≡ (add_event epoll_ctl false fd e wake r).pending_add_fds
add_event_lost epoll_ctl fd e e' wake wake' r h =
    pending_after epoll_ctl fd e' wake' _ h
    ∙ ap (insert_fd fd e') (pending_after epoll_ctl fd e wake r h)
    ∙ insert_fd_twice fd e e' r.pending_add_fds
    ∙ sym (pending_after epoll_ctl fd e wake r h)

module _ {T : Type 0} where
  -- At each index stands the FdEvent of that descriptor.
  abbrev pub Numbered : ℕ → List (FdEvent T) → Type 0
  Numbered i [] = Unit
  Numbered i (e ∷ es) = (e.fd ≡ pos i) × Numbered (i + 1) es

fill-Numbered : (T : Type 0) (n i : ℕ) → Numbered {T = T} i (fill n i)
unfolding fill new_fd_event
fill-Numbered T zero i = tt
fill-Numbered T (suc n) i = (refl, fill-Numbered T n (i + 1))

length-fill : (T : Type 0) (n i : ℕ) → length (fill {T = T} n i) ≡ n
unfolding fill
length-fill T zero i = refl
length-fill T (suc n) i = ap suc (length-fill T n (i + 1))

module _ {T : Type 0} where
  Numbered-append :
      (i k : ℕ) (xs ys : List (FdEvent T))
      → k ≡ i + length xs
      → Numbered i xs
      → Numbered k ys
      → Numbered i (xs ++ ys)
  Numbered-append i k [] ys h n n' = let e : k ≡ i = omega arith in rw e at n'
  Numbered-append i k (x ∷ xs) ys h (f, n) n' =
      (f, Numbered-append (i + 1) k xs ys (omega arith) n n')

  -- What a call for `fd` gives: the FdEvent of that descriptor, in a vector still in order that
  -- starts with the old one.
  abbrev pub Finds : ℕ → List (FdEvent T) → Outcome (FdEvent T × List (FdEvent T)) → Type 0
  Finds fd fds (ok (e, fds')) =
      (e.fd ≡ pos fd) × Numbered 0 fds' × (more : List (FdEvent T)) × (fds' ≡ fds ++ more)
  Finds fd fds _ = ⊥

  at_index-found :
      (i fd : ℕ) (es : List (FdEvent T))
      → Numbered i es
      → fd < length es
      → (e : FdEvent T) × (get_elem? es fd ≡ some e) × (e.fd ≡ pos (i + fd))
  at_index-found i fd [] n l = elim l [ ]
  at_index-found i zero (e ∷ es) (f, n) l = let h : i + 0 ≡ i = omega arith in (e, refl, rw h f)
  at_index-found i (suc fd) (e ∷ es) (f, n) l =
      let (e', g, f') = at_index-found (i + 1) fd es n (omega arith) in
      let h : i + 1 + fd ≡ i + suc fd = omega arith in (e', g, rw h at f')

  at_index-Finds :
      (fd : ℕ) (fds fds' : List (FdEvent T))
      → Numbered 0 fds'
      → fd < length fds'
      → (more : List (FdEvent T)) × (fds' ≡ fds ++ more)
      → Finds fd fds (at_index fd fds')
  at_index-Finds fd fds fds' n l more =
      let (e, g, f) = at_index-found 0 fd fds' n l in
      let h : 0 + fd ≡ fd = omega arith in
      subst (λ o. Finds fd fds (found_event fds' o)) (sym g) (rw h at f, n, more.0, more.1)

room :
    (fd n k l m : ℕ)
    → k ≡ 3 * fd / 2 - n
    → ltb fd n ≡ false
    → (fd < n) ⊎ (2 ≤ fd)
    → l ≡ n + m
    → m ≡ k
    → fd < l
room fd n k l m e g h a b = ground arith

-- On a container in order, GetFdEvent of a descriptor that is in it or is at least 2 gives the FdEvent
-- of that descriptor, and leaves the container in order with all that it held.
get_fd_event-Finds :
    {T : Type 0} (fd : ℕ) (fds : List (FdEvent T))
    → Numbered 0 fds
    → (fd < length fds) ⊎ (2 ≤ fd)
    → Finds fd fds (get_fd_event (pos fd) fds)
unfolding get_fd_event
get_fd_event-Finds {T} fd fds n h = elim (Bool-cases (ltb fd (length fds))) [
  | inl l ↦ rw l (at_index-Finds fd fds fds n (ltb→lt fd _ l) ([], sym (append-nil fds)))
  | inr g ↦
      let k = grown fd - length fds in
      let all =
        Numbered-append 0 (length fds) fds (fill k (length fds)) (omega arith) n
          (fill-Numbered T k _) in
      rw g (
        at_index-Finds fd fds (fds ++ fill k (length fds)) all
          (room fd (length fds) k _ _ refl g h (length-append fds (fill {T = T} k (length fds)))
            (length-fill T k (length fds)))
          (fill k (length fds), refl))
]
