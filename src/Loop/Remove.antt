-- ===== src/Loop/Remove.antt =====
-- Taking a descriptor out of the array and of the list of callbacks (loop.c, `loop_remove_fd`).
use swaylock.Base.{
  ℕ, zero, suc, ◌+◌, ◌-◌, ◌≤◌, ◌<◌, ◌≡◌, refl, sym, ap, ◌∙◌, ◌⊎◌, inl, inr, Bool, true, false,
  Option, none, some, List, [], ◌∷◌, ◌++◌, arith, ◌==◌, if◌then◌else◌, Bool-cases, length, get_or,
  take, drop, length-append, length-take, length-drop, drop-get_or,
}
use native.Mathlib.Nat.{suc-add}
use swaylock.Loop.{PollFd, Loop, blank_fd, find_fd, remove_at, move_down, loop_remove_fd}
use swaylock.Loop.Fds.{IsInStep, pairs, entries}

-- The list without the first entry for a descriptor.
unfoldable pub without : {F : Type 0} → ℕ → List (PollFd × F) → List (PollFd × F)
without fd [] = []
without fd ((p, event) ∷ rest) =
    let shorter = without fd rest in if p.fd == fd then rest else (p, event) ∷ shorter

length-move_down :
    (a : List PollFd) (i n : ℕ) → i + n + 1 ≤ length a → length (move_down a i n) ≡ length a
unfolding move_down
length-move_down a i n h = omega (
  arith,
  length-append {0} (take i a) (take n (drop (i + 1) a) ++ drop (i + n) a),
  length-append {0} (take n (drop (i + 1) a)) (drop (i + n) a),
  length-take {0} i a,
  length-take {0} n (drop (i + 1) a),
  length-drop {0} (i + 1) a,
  length-drop {0} (i + n) a,
)

pairs-take :
    {F : Type 0} (a ys : List PollFd) (events : List F) (n : ℕ)
    → length events ≤ n
    → length events ≤ length a
    → pairs (take n a ++ ys) events ≡ pairs a events
pairs-take a ys [] n h k = refl
pairs-take [] ys (x ∷ events) n h k = absurd (omega arith)
pairs-take (p ∷ a) ys (x ∷ events) zero h k = absurd (omega arith)
pairs-take (p ∷ a) ys (x ∷ events) (suc n) h k =
    ap (λ t. (p, x) ∷ t) (pairs-take a ys events n (omega arith) (omega arith))

-- Moving the entries after `i` down, and pairing with the events without the one at `i`, takes the
-- pair at `i` out.
pairs-move_down :
    {F : Type 0} (a : List PollFd) (events : List F) (i n : ℕ)
    → i + n + 1 ≡ length events
    → length events ≤ length a
    → pairs (move_down a i n) (remove_at i events) ≡ remove_at i (pairs a events)
unfolding move_down remove_at
pairs-move_down a [] i n e h = absurd (omega arith)
pairs-move_down [] (x ∷ events) i n e h = absurd (omega arith)
pairs-move_down (p ∷ a) (x ∷ events) zero n e h =
    pairs-take a (drop (0 + n) (p ∷ a)) events n (omega arith) (omega arith)
pairs-move_down (p ∷ a) (x ∷ events) (suc i) n e h =
    simp suc-add (ap (λ t. (p, x) ∷ t) (pairs-move_down a events i n (omega arith) (omega arith)))

-- What `find_fd` from index `i` on says of the pairs from there.
abbrev Finds : {F : Type 0} → Option ℕ → ℕ → ℕ → List (PollFd × F) → Type 0
Finds none i fd ps = without fd ps ≡ ps
Finds (some k) i fd ps = (i ≤ k) × (k < i + length ps) × (without fd ps ≡ remove_at (k - i) ps)

Finds-step :
    {F : Type 0} (r : Option ℕ) (i fd : ℕ) (p : PollFd) (x : F) (ps : List (PollFd × F))
    → (p.fd == fd) ≡ false
    → Finds r (suc i) fd ps
    → Finds r i fd ((p, x) ∷ ps)
unfolding without remove_at
Finds-step none i fd p x ps h f = rw h (ap (λ t. (p, x) ∷ t) f)
Finds-step (some k) i fd p x ps h f =
    let e : k - i ≡ suc (k - suc i) = omega arith in
    (omega arith, omega arith, rw (h, e) (ap (λ t. (p, x) ∷ t) f.2))

Finds-here :
    {F : Type 0} (i fd : ℕ) (p : PollFd) (x : F) (ps : List (PollFd × F))
    → (p.fd == fd) ≡ true
    → Finds (some i) i fd ((p, x) ∷ ps)
unfolding without remove_at
Finds-here i fd p x ps h =
    let e : i - i ≡ 0 = omega arith in (omega arith, omega arith, rw (h, e) refl)

find_fd-Finds :
    {F : Type 0} (events : List F) (a : List PollFd) (fd i : ℕ)
    → i + length events ≤ length a
    → Finds (find_fd events a fd i) i fd (pairs (drop i a) events)
unfolding find_fd without
find_fd-Finds [] a fd i h = refl
find_fd-Finds (x ∷ events) a fd i h =
    let p = get_or a i blank_fd in
    rw (drop-get_or a i blank_fd (omega arith)) (elim (Bool-cases (p.fd == fd)) [
      | inl e ↦ rw e (Finds-here i fd p x (pairs (drop (suc i) a) events) e)
      | inr e ↦ rw e (
          Finds-step (find_fd events a fd (suc i)) i fd p x (pairs (drop (suc i) a) events) e
            (find_fd-Finds events a fd (suc i) (omega arith)))
    ])

length-pairs :
    {F : Type 0} (a : List PollFd) (events : List F)
    → length events ≤ length a
    → length (pairs a events) ≡ length events
length-pairs a [] h = refl
length-pairs [] (x ∷ events) h = absurd (omega arith)
length-pairs (p ∷ a) (x ∷ events) h = ap suc (length-pairs a events (omega arith))

length-remove_at :
    {A : Type 0} (i : ℕ) (xs : List A) → i < length xs → length (remove_at i xs) + 1 ≡ length xs
unfolding remove_at
length-remove_at i [] h = absurd (omega arith)
length-remove_at zero (x ∷ xs) h = omega arith
length-remove_at (suc i) (x ∷ xs) h = omega (arith, length-remove_at i xs (omega arith))

-- What `loop_remove_fd` does, by what `find_fd` finds.
abbrev pub Removes : {F C : Type 0} → Loop F C → ℕ → Loop F C × Bool → Type 0
Removes l fd (l', found) =
    IsInStep l'
    × (entries l' ≡ without fd (entries l))
    × ((found ≡ true) × (length (entries l') + 1 ≡ length (entries l)) ⊎ (found ≡ false) × (l' ≡ l))

removed-Removes :
    {F C : Type 0} (l : Loop F C) (fd i : ℕ)
    → IsInStep l
    → Finds (some i) 0 fd (entries l)
    → Removes l fd (
      record l {
        fd_events = remove_at i l.fd_events;
        fd_length = l.fd_length - 1;
        fds = move_down l.fds i (l.fd_length - 1 - i);
      },
      true,
    )
removed-Removes l fd i v (_, below, found) =
    let e : without fd (entries l) ≡ remove_at i (entries l) =
      found ∙ ap (λ k. remove_at k (entries l)) (omega arith) in
    let n = l.fd_length - 1 - i in
    let same = length-pairs l.fds l.fd_events (omega (arith, v.paired, v.sized)) in
    let fewer = length-remove_at i l.fd_events (omega (arith, v.paired)) in
    let gone =
      pairs-move_down l.fds l.fd_events i n (omega (arith, v.paired))
        (omega (arith, v.paired, v.sized))
      ∙ sym e in
    (
      record {
        sized = length-move_down l.fds i n (omega (arith, v.paired, v.sized)) ∙ v.sized;
        room = omega arith;
        paired = omega arith;
      },
      gone,
      inl (refl, ap (λ t. length t + 1) (gone ∙ e) ∙ length-remove_at i (entries l) (omega arith)),
    )

-- `loop_remove_fd` keeps array and list in step and takes the first entry for the descriptor out;
-- it returns true where there was one, and otherwise returns false and changes nothing.
pub loop_remove_fd_lem :
    {F C : Type 0} (l : Loop F C) (fd : ℕ) → IsInStep l → Removes l fd (loop_remove_fd l fd)
unfolding loop_remove_fd
loop_remove_fd_lem {F} {C} l fd v =
    go (find_fd l.fd_events l.fds fd 0)
      (find_fd-Finds l.fd_events l.fds fd 0 (omega (arith, v.paired, v.sized)))
  where
    result : Option ℕ → Loop F C × Bool
    result none = (l, false)
    result (some i) = (
      record l {
        fd_events = remove_at i l.fd_events;
        fd_length = l.fd_length - 1;
        fds = move_down l.fds i (l.fd_length - 1 - i);
      },
      true,
    )

    go : (r : Option ℕ) → Finds r 0 fd (entries l) → Removes l fd (result r)
    go none f = (v, sym f, inr (refl, refl))
    go (some i) f = removed-Removes l fd i v f
