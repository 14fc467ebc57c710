-- ===== src/Descriptors/Daemon.antt =====
-- The descriptors of the process that `daemonize` leaves.
use swaylock.Base.{
  ℕ, ◌≡◌, refl, sym, ap, ◌∙◌, ◌≢◌, inl, inr, Bool, true, false, ◌&&◌, Option, none, some, arith,
  ◌==◌, if◌then◌else◌, ==_iff, Bool-cases, set, get_or-set_ne,
}
use swaylock.Descriptors.{
  File, other, read_end, write_end, Table, look_up, open_file, pipe, close, dup2, redirect,
  DaemonAnswers, Daemonized, exits, goes_on, daemonize,
}
use swaylock.Descriptors.Table.{
  TakesTwo, pipe_lem, open_file-free, look_up-open_file, look_up-close,
}

abbrev pub Same : Table → Table → Type 0
Same t t' = (j : ℕ) → look_up t' j ≡ look_up t j

dup2-elsewhere :
    (old new : ℕ) (t : Table) (j : ℕ) → new ≢ j → look_up (dup2 old new t) j ≡ look_up t j
unfolding dup2
dup2-elsewhere old new t j ne = go (look_up t old)
  where
    result : Option File → Table
    result none = t
    result (some f) = set t new (some f)

    go : (o : Option File) → look_up (result o) j ≡ look_up t j
    go none = refl
    go (some f) = get_or-set_ne t new j (some f) none ne

-- Both calls of `dup2` write to the descriptor that is closed after them.
redirect-Same : (opened : Bool) (null_file : ℕ) (t : Table) → Same t (redirect opened null_file t)
unfolding redirect
redirect-Same false null_file t j = refl
redirect-Same true null_file t j =
    let t' = (open_file (other null_file) t).0 in
    let devnull = (open_file (other null_file) t).1 in
    let after = look_up-open_file (other null_file) t j in
    look_up-close devnull (dup2 2 devnull (dup2 1 devnull t')) j
    ∙ elim (Bool-cases (devnull == j)) [
      | inl e ↦
          let at : devnull ≡ j = (==_iff devnull j).0 e in
          rw e (sym (open_file-free (other null_file) t) ∙ ap (λ i. look_up t i) at)
      | inr e ↦
          let ne : devnull ≢ j = ground arith in
          rw e (
            dup2-elsewhere 2 devnull (dup2 1 devnull t') j ne
            ∙ (dup2-elsewhere 1 devnull t' j ne ∙ (after ∙ ground arith)))
    ]

-- A pipe that is closed again leaves no trace.
unpiped :
    (n : ℕ) (t : Table) (r w j : ℕ)
    → look_up t r ≡ none
    → look_up t w ≡ none
    → (if w == j
        then none
        else if r == j
        then none
        else if w == j
        then some (write_end n)
        else if r == j
        then some (read_end n)
        else look_up t j)
      ≡ look_up t j
unpiped n t r w j free free' =
    let at_r : r ≡ j → look_up t j ≡ none = λ e. ap (λ i. look_up t i) (sym e) ∙ free in
    let at_w : w ≡ j → look_up t j ≡ none = λ e. ap (λ i. look_up t i) (sym e) ∙ free' in
    ground (arith, at_r, at_w)

-- How `daemonize` ends, where the flag says whether the calls succeed that it looks at.
pub data Ending (ok : Bool) (t : Table) : Daemonized → Type 0 where
  gives_up : ok ≡ false → Ending ok t exits
  lives_on : {t' : Table} → ok ≡ true → Same t t' → Ending ok t (goes_on t')

-- Where one of pipe, fork, chdir and write fails, both processes exit; otherwise the new process has
-- every descriptor as it was before, its standard output and error among them.
pub daemonize-Ending :
    (answers : DaemonAnswers) (n null_file : ℕ) (t : Table)
    → Ending
        (answers.pipe && (answers.fork && (answers.chdir && answers.write)))
        t
        (daemonize answers n null_file t)
unfolding daemonize
daemonize-Ending answers n null_file t = go answers.pipe answers.fork answers.chdir answers.write
  where
    t1 : Table
    t1 = (pipe n t).0

    takes : TakesTwo n t t1 (pipe n t).1
    takes = pipe_lem n t

    same :
        (j : ℕ)
        → look_up
            (close
              (pipe n t).1.writing
              (redirect answers.open_null null_file (close (pipe n t).1.reading t1)))
            j
          ≡ look_up t j
    same j =
        rw
          (
            look_up-close (pipe n t).1.writing
                (redirect answers.open_null null_file (close (pipe n t).1.reading t1)) j,
            redirect-Same answers.open_null null_file (close (pipe n t).1.reading t1) j,
            look_up-close (pipe n t).1.reading t1 j,
            takes.after j,
          )
          (unpiped n t (pipe n t).1.reading (pipe n t).1.writing j takes.reading_free
            takes.writing_free)

    go :
        (piped forked changed written : Bool)
        → Ending (piped && (forked && (changed && written))) t (
            daemonize
              (record {
                pipe = piped;
                fork = forked;
                open_null = answers.open_null;
                chdir = changed;
                write = written;
              })
              n
              null_file
              t)
    go false forked changed written = gives_up refl
    go true false changed written = gives_up refl
    go true true false written = gives_up refl
    go true true true false = gives_up refl
    go true true true true = lives_on refl same
