-- ===== src/Lock/Run/Ends.antt =====
-- Runs of events, from the steps.
use swaylock.Base.{
  ◌+◌, ◌^◌, ◌<◌, ◌≡◌, refl, ap, ◌∙◌, Bool, true, false, not, ◌&&◌, ◌||◌, List, [], ◌∷◌, arith, All,
}
use swaylock.Loop.{Walk, done, use_after_free, out_of_fuel}
use swaylock.State.{State}
use swaylock.Lock.Invariant.{IsSound}
use swaylock.Lock.Run.{
  Event, key, modifiers, outputs, answer, display, tick, step, run, ends, any_ends, refusals,
  IsText, Runs, late_now, late_after,
}
use swaylock.Lock.Run.Tally.{tally, Tallies, tally_after, quiet, step-tally}
use swaylock.Lock.Run.Steps.{Steps, step-Steps}

refusals-cons : (e : Event) (es : List Event) → refusals (e ∷ es) ≡ refusals (e ∷ []) + refusals es
refusals-cons (key env keysym codepoint) es = omega arith
refusals-cons (modifiers m) es = omega arith
refusals-cons (outputs os) es = omega arith
refusals-cons (answer env bytes) es = ground arith
refusals-cons (display failed) es = omega arith
refusals-cons (tick env now) es = omega arith

and_not_or : (a b c : Bool) → (a && not b) && not c ≡ a && not (b || c)
and_not_or true true c = refl
and_not_or true false c = refl
and_not_or false b c = refl

Runs-cons :
    (s s' : State) (e : Event) (es : List Event) (w : Walk State)
    → step s e ≡ done s'
    → tally s' ≡ tally_after s e
    → Runs s' es w
    → Runs s (e ∷ es) w
Runs-cons s s' e es (done s'') eq q (v, d, n) = (
  v,
  d ∙ (ap (λ t. t.0 && not (any_ends es)) q ∙ and_not_or s.run_display (ends e) (any_ends es)),
  omega (arith, ap (λ t. t.1) q, refusals-cons e es),
)
Runs-cons s s' e es use_after_free eq q h = late_after eq h
Runs-cons s s' e es out_of_fuel eq q h = h

pub run-Counts : (s : State) (es : List Event) → IsSound s → All IsText es → Runs s es (run s es)
unfolding run
run-Counts s [] v h = (v, ap (λ t. t.0) (quiet s), ap (λ t. t.1) (quiet s))
run-Counts s (e ∷ es) v (h, hs) =
    go (λ s' v'. run-Counts s' es v' hs) (step s e) refl (step-Steps s e v h) (step-tally s e v h)
  where
    rest : Walk State → Walk State
    rest (done s') = run s' es
    rest use_after_free = use_after_free
    rest out_of_fuel = out_of_fuel

    go :
        ((s' : State) → IsSound s' → Runs s' es (run s' es))
        → (w : Walk State) → step s e ≡ w
        → Steps s e w
        → Tallies (tally_after s e) w
        → Runs s (e ∷ es) (rest w)
    go ih (done s') eq v' q = Runs-cons s s' e es (run s' es) eq q (ih s' v')
    go ih use_after_free eq v' q = late_now v'
    go ih out_of_fuel eq v' q = v'

-- A run from a sound state by events with code points below 2^21, whose refused answers `failed_attempts`
-- can count as an `int`, ends with a state, unless it reaches a turn of the timers in which the password
-- timer is due and stands right before the indicator timer. The state that it ends with is sound, its
-- display flag is set exactly if it was set before and no answer of yes and no failure of the display
-- came, and `failed_attempts` has grown by the number of refused answers.
pub run-Runs :
    (s : State) (es : List Event)
    → IsSound s
    → All IsText es
    → s.failed_attempts + refusals es < 2 ^ 31
    → Runs s es (run s es)
run-Runs s es v h few = run-Counts s es v h
