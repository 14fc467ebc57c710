-- ===== src/Lock/Timers.antt =====
-- The two timer pointers of the state against the timers of the event loop.
use swaylock.Base.{
  ℕ, ◌+◌, ◌<◌, ◌≡◌, ◌≢◌, ◌⊎◌, inl, inr, Option, none, some, List, [], ◌∷◌, arith, Bool-cases,
}
use swaylock.Loop.{Timer, Timespec, remove_timer, loop_remove_timer, loop_add_timer, expiry_after}
use swaylock.State.{State, TimerCallback, on_clear_indicator, on_clear_password}
use swaylock.Lock.{Env, EventLoop, cancel, reschedule}

abbrev IsIndicator : Timer TimerCallback → Type 0
IsIndicator t = t.callback ≡ on_clear_indicator

abbrev IsPassword : Timer TimerCallback → Type 0
IsPassword t = t.callback ≡ on_clear_password

-- The timers of the loop are those that the two pointers `i` and `p` name, each at most once, with
-- addresses of their own below `n`.
abbrev pub Shape : Option ℕ → Option ℕ → ℕ → List (Timer TimerCallback) → Type 0
Shape i p n [] = (i ≡ none) × (p ≡ none)
Shape i p n (t ∷ []) =
    (t.id < n)
    × (IsIndicator t × (i ≡ some t.id) × (p ≡ none) ⊎ IsPassword t × (i ≡ none) × (p ≡ some t.id))
Shape i p n (t ∷ u ∷ []) =
    (t.id < n)
    × (u.id < n)
    × (t.id ≢ u.id)
    × (IsIndicator t × IsPassword u × (i ≡ some t.id) × (p ≡ some u.id)
        ⊎ IsPassword t × IsIndicator u × (i ≡ some u.id) × (p ≡ some t.id))
Shape i p n (t ∷ u ∷ v ∷ ts) = ⊥

-- No timer pointer dangles, and no timer is left that no pointer names.
abbrev pub TimersMatch : State → Type 0
TimersMatch s =
    Shape s.clear_indicator_timer s.clear_password_timer s.eventloop.next_id s.eventloop.timers

pub indicator-remove :
    (i : ℕ) (p : Option ℕ) (n : ℕ) (ts : List (Timer TimerCallback))
    → Shape (some i) p n ts
    → Shape none p n (remove_timer i ts).0
unfolding remove_timer
indicator-remove i p n [] h = cc
indicator-remove i p n (t ∷ []) h = ground arith
indicator-remove i p n (t ∷ u ∷ []) h = ground arith
indicator-remove i p n (t ∷ u ∷ v ∷ ts) h = absurd h

pub password-remove :
    (i : Option ℕ) (p : ℕ) (n : ℕ) (ts : List (Timer TimerCallback))
    → Shape i (some p) n ts
    → Shape i none n (remove_timer p ts).0
unfolding remove_timer
password-remove i p n [] h = cc
password-remove i p n (t ∷ []) h = ground arith
password-remove i p n (t ∷ u ∷ []) h = ground arith
password-remove i p n (t ∷ u ∷ v ∷ ts) h = absurd h

indicator-add :
    (p : Option ℕ) (n : ℕ) (e : Timespec) (ts : List (Timer TimerCallback))
    → Shape none p n ts
    → Shape (some n) p (n + 1) (record { id = n; callback = on_clear_indicator; expiry = e } ∷ ts)
indicator-add p n e [] h = ground arith
indicator-add p n e (t ∷ []) h = ground arith
indicator-add p n e (t ∷ u ∷ []) h = ground arith
indicator-add p n e (t ∷ u ∷ v ∷ ts) h = absurd h

password-add :
    (i : Option ℕ) (n : ℕ) (e : Timespec) (ts : List (Timer TimerCallback))
    → Shape i none n ts
    → Shape i (some n) (n + 1) (record { id = n; callback = on_clear_password; expiry = e } ∷ ts)
password-add i n e [] h = ground arith
password-add i n e (t ∷ []) h = ground arith
password-add i n e (t ∷ u ∷ []) h = ground arith
password-add i n e (t ∷ u ∷ v ∷ ts) h = absurd h

Shape-later :
    (i p : Option ℕ) (n : ℕ) (ts : List (Timer TimerCallback))
    → Shape i p n ts
    → Shape i p (n + 1) ts
Shape-later i p n [] h = h
Shape-later i p n (t ∷ []) h = ground arith
Shape-later i p n (t ∷ u ∷ []) h = ground arith
Shape-later i p n (t ∷ u ∷ v ∷ ts) h = absurd h

cancel-indicator :
    (l : EventLoop) (i p : Option ℕ)
    → Shape i p l.next_id l.timers
    → Shape none p (cancel l i).next_id (cancel l i).timers
unfolding cancel loop_remove_timer
cancel-indicator l none p h = h
cancel-indicator l (some i) p h = indicator-remove i p l.next_id l.timers h

cancel-password :
    (l : EventLoop) (i p : Option ℕ)
    → Shape i p l.next_id l.timers
    → Shape i none (cancel l p).next_id (cancel l p).timers
unfolding cancel loop_remove_timer
cancel-password l i none h = h
cancel-password l i (some p) h = password-remove i p l.next_id l.timers h

-- After `reschedule` the pointer that it returns and the other pointer name the loop's timers.
pub reschedule-indicator :
    (env : Env) (l : EventLoop) (i p : Option ℕ) (ms : ℕ)
    → Shape i p l.next_id l.timers
    → let (l', i') = reschedule env l i ms on_clear_indicator in Shape i' p l'.next_id l'.timers
unfolding reschedule loop_add_timer
reschedule-indicator env l i p ms h =
    let c = cancel l i in
    let shape = cancel-indicator l i p h in
    elim (Bool-cases (env.sys.has_memory c.next_id)) [
      | inl e ↦ rw e (indicator-add p c.next_id (expiry_after env.sys.now ms) c.timers shape)
      | inr e ↦ rw e (Shape-later none p c.next_id c.timers shape)
    ]

pub reschedule-password :
    (env : Env) (l : EventLoop) (i p : Option ℕ) (ms : ℕ)
    → Shape i p l.next_id l.timers
    → let (l', p') = reschedule env l p ms on_clear_password in Shape i p' l'.next_id l'.timers
unfolding reschedule loop_add_timer
reschedule-password env l i p ms h =
    let c = cancel l p in
    let shape = cancel-password l i p h in
    elim (Bool-cases (env.sys.has_memory c.next_id)) [
      | inl e ↦ rw e (password-add i c.next_id (expiry_after env.sys.now ms) c.timers shape)
      | inr e ↦ rw e (Shape-later i none c.next_id c.timers shape)
    ]
