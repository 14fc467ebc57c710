-- ===== src/Lock/Main/Turns.antt =====
-- The turns of the main loop as runs of events.
use swaylock.Base.{
  ℕ, suc, ◌^◌, ◌<◌, ◌≡◌, refl, ap, ◌∙◌, ◌⊎◌, inl, inr, Bool, true, false, ◌||◌, List, [], ◌∷◌, ◌++◌,
  append_assoc, arith, if◌then◌else◌, Bool-cases, get_or, All,
}
use swaylock.Loop.{blank_fd, Walk, done, use_after_free, out_of_fuel}
use swaylock.Loop.Dispatch.{is_ready, dispatch_events, dispatch_fds}
use swaylock.Comm.{read_comm_reply}
use swaylock.State.{State, FdCallback, on_display, on_comm}
use swaylock.Lock.{poll_timers, display_in}
use swaylock.Lock.Run.{
  Event, key, modifiers, outputs, answer, display, tick, step, run, any_ends, ends, IsText,
}
use swaylock.Lock.Main.{
  Delivery, pressed, modified, surfaces, Turn, deliver, deliver_all, call_fd, loop_poll, Main,
  waits, leaves, crashes, stuck, main_loop,
}

abbrev pub IsTyped : Delivery → Type 0
IsTyped (pressed k) = k.codepoint < 2 ^ 21
IsTyped (modified m) = Unit
IsTyped (surfaces os) = Unit

-- What ends the lock in a turn: an answer of yes, or a failure of the display or of its flush.
abbrev pub is_reason : Turn → Bool
is_reason t = read_comm_reply t.reply || (t.display_failed || t.flush_failed)

abbrev pub any_reason : List Turn → Bool
any_reason [] = false
any_reason (t ∷ ts) = is_reason t || any_reason ts

-- `blamed` stands for any reason to leave the loop that a turn may bring.
module _ (blamed : Bool) where
  -- An event that ends the lock is a reason.
  abbrev pub IsEvent : Event → Type 0
  IsEvent e = IsText e × (ends e ≡ true → blamed ≡ true)

  -- A turn with code points, whose reasons are reasons.
  abbrev pub IsHandled : Turn → Type 0
  IsHandled t = All IsTyped t.delivered × (is_reason t ≡ true → blamed ≡ true)

  never : false ≡ true → blamed ≡ true
  never e = ground (arith, e)

  -- The events lead from one state to another, whatever comes after them.
  abbrev pub Leads : State → List Event → State → Type 0
  Leads s es s' = (rest : List Event) → run s (es ++ rest) ≡ run s' rest

  -- Events of keys with code points, that lead from a state to another.
  abbrev pub Reached : State → State → Type 0
  Reached s s' = (es : List Event) × All IsEvent es × Leads s es s'

  All-append : (xs ys : List Event) → All IsEvent xs → All IsEvent ys → All IsEvent (xs ++ ys)
  All-append [] ys h k = k
  All-append (x ∷ xs) ys (h, hs) k = (h, All-append xs ys hs k)

  -- One stretch of events after another.
  Reached-trans : (s s' s'' : State) → Reached s s' → Reached s' s'' → Reached s s''
  Reached-trans s s' s'' (es, h, l) (es', h', l') = (
    es ++ es',
    All-append es es' h h',
    λ rest. ap (λ t. run s t) (append_assoc es es' rest) ∙ (l (es' ++ rest) ∙ l' rest),
  )

  Reached-refl : (s : State) → Reached s s
  Reached-refl s = ([], tt, λ rest. refl)

  deliver-Reached : (d : Delivery) (s : State) → IsTyped d → Reached s (deliver d s)
  unfolding deliver run step
  deliver-Reached (pressed k) s h =
      (key k.env k.keysym k.codepoint ∷ [], ((h, never), tt), λ rest. refl)
  deliver-Reached (modified m) s h = (modifiers m ∷ [], ((tt, never), tt), λ rest. refl)
  deliver-Reached (surfaces os) s h = (outputs os ∷ [], ((tt, never), tt), λ rest. refl)

  deliver_all-Reached :
      (ds : List Delivery) (s : State) → All IsTyped ds → Reached s (deliver_all ds s)
  unfolding deliver_all
  deliver_all-Reached [] s h = Reached-refl s
  deliver_all-Reached (d ∷ ds) s (h, hs) =
      Reached-trans s (deliver d s) (deliver_all ds (deliver d s)) (deliver-Reached d s h)
        (deliver_all-Reached ds (deliver d s) hs)

  call_fd-Reached :
      (t : Turn) (f : FdCallback) (fd mask : ℕ) (s : State)
      → IsHandled t
      → Reached s (call_fd t f fd mask s)
  unfolding call_fd run step
  call_fd-Reached t on_display fd mask s h =
      let typed = deliver_all t.delivered s in
      Reached-trans s typed (display_in t.display_failed typed)
        (deliver_all-Reached t.delivered s (h.0))
        (display t.display_failed ∷ [], ((tt, λ e. h.1 (ground (arith, e))), tt), λ rest. refl)
  call_fd-Reached t on_comm fd mask s h =
      (answer t.comm_env t.reply ∷ [], ((tt, λ e. h.1 (ground (arith, e))), tt), λ rest. refl)

  if-Reached : (test : Bool) (s s' : State) → Reached s s' → Reached s (if test then s' else s)
  if-Reached true s s' h = h
  if-Reached false s s' h = Reached-refl s

  dispatch-Reached :
      (t : Turn) (events : List FdCallback) (i : ℕ) (s : State)
      → IsHandled t
      → Reached s (dispatch_events (λ s. s.eventloop) (call_fd t) t.revents events i s)
  unfolding dispatch_events
  dispatch-Reached t [] i s h = Reached-refl s
  dispatch-Reached t (f ∷ fs) i s h =
      let pfd = get_or s.eventloop.fds i blank_fd in
      let ready = is_ready pfd (t.revents i) in
      let called = call_fd t f pfd.fd (t.revents i) s in
      let next = if ready then called else s in
      Reached-trans s next
        (dispatch_events (λ s. s.eventloop) (call_fd t) t.revents fs (suc i) next)
        (if-Reached ready s called (call_fd-Reached t f pfd.fd (t.revents i) s h))
        (dispatch-Reached t fs (suc i) next h)

  -- Events that end a run in an end of the walk over the timers.
  abbrev pub Breaks : State → Walk State → Type 0
  Breaks s w = (es : List Event) × All IsEvent es × (run s es ≡ w)

  abbrev pub Reaches : State → Main → Type 0
  Reaches s (waits s') = Reached s s' × (s'.run_display ≡ true)
  Reaches s (leaves s') = Reached s s' × ((s'.run_display ≡ false) ⊎ (blamed ≡ true))
  Reaches s crashes = Breaks s use_after_free
  Reaches s stuck = Breaks s out_of_fuel

  Breaks-after : (s s' : State) (w : Walk State) → Reached s s' → Breaks s' w → Breaks s w
  Breaks-after s s' w (es, h, l) (es', h', e) = (es ++ es', All-append es es' h h', l es' ∙ e)

  Reaches-after : (s s' : State) (m : Main) → Reached s s' → Reaches s' m → Reaches s m
  Reaches-after s s' (waits s'') r (r', h) = (Reached-trans s s' s'' r r', h)
  Reaches-after s s' (leaves s'') r (r', h) = (Reached-trans s s' s'' r r', h)
  Reaches-after s s' crashes r b = Breaks-after s s' use_after_free r b
  Reaches-after s s' stuck r b = Breaks-after s s' out_of_fuel r b

  abbrev dispatched : Turn → State → State
  dispatched t s = dispatch_fds (λ s. s.eventloop) (call_fd t) t.revents s

  dispatched-Reached : (t : Turn) (s : State) → IsHandled t → Reached s (dispatched t s)
  unfolding dispatch_fds
  dispatched-Reached t s h = dispatch-Reached t s.eventloop.fd_events 0 s h

  -- The rest of the loop after a turn.
  abbrev after : List Turn → Walk State → Main
  after ts (done s') = main_loop ts s'
  after ts use_after_free = crashes
  after ts out_of_fuel = stuck

  -- The turn of the timers that ends a turn of the loop.
  abbrev tick_of : Turn → Event
  tick_of t = tick t.timer_env t.now

  abbrev then_run : List Event → Walk State → Walk State
  then_run rest (done s') = run s' rest
  then_run rest use_after_free = use_after_free
  then_run rest out_of_fuel = out_of_fuel

  run-tick :
      (t : Turn) (s : State) (w : Walk State) (rest : List Event)
      → poll_timers t.timer_env t.now s ≡ w
      → run s (tick_of t ∷ rest) ≡ then_run rest w
  unfolding run step
  run-tick t s w rest e = ap (then_run rest) e

  -- What follows a turn, by what the turn of the timers gives.
  after-Reaches :
      (t : Turn) (ts : List Turn) (s : State) (w : Walk State)
      → IsHandled t
      → ((s' : State) → Reaches s' (main_loop ts s'))
      → poll_timers t.timer_env t.now (dispatched t s) ≡ w
      → Reaches s (after ts w)
  unfolding run
  after-Reaches t ts s (done s') h ih e =
      Reaches-after s s' (main_loop ts s')
        (Reached-trans s (dispatched t s) s' (dispatched-Reached t s h)
          (tick_of t ∷ [], ((tt, never), tt), λ rest. run-tick t (dispatched t s) (done s') rest e))
        (ih s')
  after-Reaches t ts s use_after_free h ih e =
      Breaks-after s (dispatched t s) use_after_free (dispatched-Reached t s h)
        (tick_of t ∷ [], ((tt, never), tt), run-tick t (dispatched t s) use_after_free [] e)
  after-Reaches t ts s out_of_fuel h ih e =
      Breaks-after s (dispatched t s) out_of_fuel (dispatched-Reached t s h)
        (tick_of t ∷ [], ((tt, never), tt), run-tick t (dispatched t s) out_of_fuel [] e)

  untaken :
      (s : State) (shown : Bool)
      → s.run_display ≡ shown
      → Reaches s (if shown then waits s else leaves s)
  untaken s true e = (Reached-refl s, e)
  untaken s false e = (Reached-refl s, inl e)

  pub main_loop-Reaches :
      (ts : List Turn) (s : State) → All IsHandled ts → Reaches s (main_loop ts s)
  unfolding main_loop loop_poll
  main_loop-Reaches [] s h = untaken s s.run_display refl
  main_loop-Reaches (t ∷ ts) s (h, hs) = go s.run_display t.flush_failed refl refl (
      after-Reaches t ts s (poll_timers t.timer_env t.now (dispatched t s)) h
        (λ s'. main_loop-Reaches ts s' hs) refl)
    where
      go :
          (shown failed : Bool)
          → s.run_display ≡ shown
          → t.flush_failed ≡ failed
          → Reaches s (after ts (poll_timers t.timer_env t.now (dispatched t s)))
          → Reaches s (
              if shown
              then (if failed
                  then leaves s
                  else after ts (poll_timers t.timer_env t.now (dispatched t s)))
              else leaves s)
      go false failed e f r = (Reached-refl s, inl e)
      go true true e f r = (Reached-refl s, inr (h.1 (ground (arith, f))))
      go true false e f r = r

  pub any_ends-IsEvent : (es : List Event) → All IsEvent es → any_ends es ≡ true → blamed ≡ true
  any_ends-IsEvent [] h e = never e
  any_ends-IsEvent (x ∷ es) ((_, why), hs) e = elim (Bool-cases (ends x)) [
    | inl q ↦ why q
    | inr q ↦ any_ends-IsEvent es hs (ground (arith, q, e))
  ]

  pub IsText-IsEvent : (es : List Event) → All IsEvent es → All IsText es
  IsText-IsEvent [] h = tt
  IsText-IsEvent (x ∷ es) ((h, _), hs) = (h, IsText-IsEvent es hs)
