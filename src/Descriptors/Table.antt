-- ===== src/Descriptors/Table.antt =====
-- The table of descriptors as a function from numbers.
use swaylock.Base.{
  ℕ, zero, suc, ◌≡◌, refl, sym, ap, ◌∙◌, ◌≢◌, none, some, [], ◌∷◌, arith, ◌==◌, if◌then◌else◌,
}
use mathlib.Core.Option.{none-ne-some}
use swaylock.Descriptors.{File, read_end, write_end, Table, look_up, open_file, Fds, pipe, close}

-- A new descriptor was free, and is the only one that changes.
pub open_file-free : (f : File) (t : Table) → look_up t (open_file f t).1 ≡ none
unfolding open_file
open_file-free f [] = refl
open_file-free f (none ∷ t) = refl
open_file-free f (some g ∷ t) = open_file-free f t

pub look_up-open_file :
    (f : File) (t : Table) (j : ℕ)
    → look_up (open_file f t).0 j ≡ (if (open_file f t).1 == j then some f else look_up t j)
unfolding open_file
look_up-open_file f [] zero = refl
look_up-open_file f [] (suc j) = ground arith
look_up-open_file f (none ∷ t) zero = refl
look_up-open_file f (none ∷ t) (suc j) = ground arith
look_up-open_file f (some g ∷ t) zero = ground arith
look_up-open_file f (some g ∷ t) (suc j) = look_up-open_file f t j ∙ ground arith

pub look_up-close :
    (fd : ℕ) (t : Table) (j : ℕ) → look_up (close fd t) j ≡ (if fd == j then none else look_up t j)
look_up-close fd [] j = ground arith
look_up-close zero (x ∷ t) zero = refl
look_up-close zero (x ∷ t) (suc j) = ground arith
look_up-close (suc fd) (x ∷ t) zero = ground arith
look_up-close (suc fd) (x ∷ t) (suc j) = look_up-close fd t j ∙ ground arith

-- A pipe takes two descriptors that were free, and changes no other.
pub record TakesTwo (n : ℕ) (t t' : Table) (fds : Fds) : Type 0 where
  pub reading_free : look_up t fds.reading ≡ none
  pub writing_free : look_up t fds.writing ≡ none
  pub two : fds.reading ≢ fds.writing
  pub after :
      (j : ℕ)
      → look_up t' j ≡ (
          if fds.writing == j
          then some (write_end n)
          else if fds.reading == j
          then some (read_end n)
          else look_up t j)

pub pipe_lem : (n : ℕ) (t : Table) → TakesTwo n t (pipe n t).0 (pipe n t).1
unfolding pipe
pipe_lem n t =
    let t1 = (open_file (read_end n) t).0 in
    let r = (open_file (read_end n) t).1 in
    let w = (open_file (write_end n) t1).1 in
    let free : look_up t r ≡ none = open_file-free (read_end n) t in
    let free' : look_up t1 w ≡ none = open_file-free (write_end n) t1 in
    let at_w : look_up t1 w ≡ (if r == w then some (read_end n) else look_up t w) =
      look_up-open_file (read_end n) t w in
    record {
      reading_free = free;
      writing_free = ground (arith, free', at_w);
      two = λ e. ground (arith, e, free', at_w);
      after = λ j.
          look_up-open_file (write_end n) t1 j
          ∙ ap (λ o. if w == j then some (write_end n) else o) (look_up-open_file (read_end n) t j);
    }

-- What is open in a table is so in another.
abbrev pub Keeps : Table → Table → Type 0
Keeps t t' = (j : ℕ) (f : File) → look_up t j ≡ some f → look_up t' j ≡ some f

free-ne : (t : Table) (fd j : ℕ) (f : File) → look_up t fd ≡ none → look_up t j ≡ some f → fd ≢ j
free-ne t fd j f free h e = none-ne-some f (sym free ∙ (ap (λ i. look_up t i) e ∙ h))

pub pipe-Keeps : {n : ℕ} {t t' : Table} {fds : Fds} → TakesTwo n t t' fds → Keeps t t'
pipe-Keeps {n} {t} {t'} {fds} takes j f h =
    let r = free-ne t fds.reading j f takes.reading_free h in
    let w = free-ne t fds.writing j f takes.writing_free h in
    takes.after j ∙ ground (arith, r, w, h)

pub close-Keeps : (fd : ℕ) (t t' : Table) → look_up t fd ≡ none → Keeps t t' → Keeps t (close fd t')
close-Keeps fd t t' free keeps j f h =
    let ne = free-ne t fd j f free h in look_up-close fd t' j ∙ ground (arith, ne, keeps j f h)
