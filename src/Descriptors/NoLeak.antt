-- ===== src/Descriptors/NoLeak.antt =====
-- No path through the making of a buffer leaves a descriptor open.
use swaylock.Base.{
  ℕ, ◌*◌, ◌≡◌, refl, sym, ap, ◌∙◌, Bool, true, false, not, ◌&&◌, Option, none, some, arith,
  if◌then◌else◌,
}
use swaylock.Base.Words.{u32}
use swaylock.Descriptors.{Table, File, other, look_up, open_file, close}
use swaylock.Descriptors.Table.{open_file-free, look_up-open_file, look_up-close}
use swaylock.Descriptors.Daemon.{Same}
use swaylock.Descriptors.Shm.{ShmAnswers, create_shm_buffer, ShmBuffer}

-- Where there is a table, it is as before.
abbrev pub SameIf : Table → Option Table → Type 0
SameIf t none = Unit
SameIf t (some t') = Same t t'

-- A descriptor that is opened and closed leaves the table as it was.
closed-Same : (f : File) (t : Table) → Same t (close (open_file f t).1 (open_file f t).0)
closed-Same f t j =
    let free = open_file-free f t in
    let at : (open_file f t).1 ≡ j → look_up t j ≡ none =
      λ e. ap (λ i. look_up t i) (sym e) ∙ free in
    look_up-close (open_file f t).1 (open_file f t).0 j
    ∙ ground (arith, look_up-open_file f t j, at)

-- Only a success leaves the file open, under its new descriptor.
abbrev pub PoolFile : Table → ℕ → Table × Option ℕ → Type 0
PoolFile t file (t', none) = Same t t'
PoolFile t file (t', some fd) =
    (t' ≡ (open_file (other file) t).0) × (fd ≡ (open_file (other file) t).1)

-- Whether the three calls for a buffer of some bytes succeed.
abbrev pub succeed : ShmAnswers → ℕ → Bool
succeed answers size = answers.shm_open && (answers.ftruncate size && answers.mmap size)

-- The descriptors are as before; there is a buffer exactly if the calls succeed, and it has the shape and
-- the size given.
abbrev pub Made :
    Table → Bool → (format width height stride size : ℕ) → Table × Option ShmBuffer → Type 0
Made t ok format width height stride size (t', none) = Same t t' × (ok ≡ false)
Made t ok format width height stride size (t', some b) =
    Same t t'
    × (ok ≡ true)
    × (b ≡ record { format = format; width = width; height = height; stride = stride; size = size })

pub create_shm_buffer-Made :
    (answers : ShmAnswers) (file format width height stride : ℕ) (t : Table)
    → Made t
        (succeed answers (u32 (stride * height)))
        format
        width
        height
        stride
        (u32 (stride * height))
        (create_shm_buffer answers file format width height stride t)
unfolding create_shm_buffer
create_shm_buffer-Made answers file format width height stride t =
    go answers.shm_open (answers.ftruncate (u32 (stride * height)))
      (answers.mmap (u32 (stride * height)))
  where
    result : Bool → Bool → Bool → Table × Option ShmBuffer
    result opened truncated mapped =
        let (t1, fd) = open_file (other file) t in
        if not opened
        then (t, none)
        else if not truncated
        then (close fd t1, none)
        else if not mapped
        then (close fd t1, none)
        else (
          close fd t1,
          some (record {
            format = format;
            width = width;
            height = height;
            stride = stride;
            size = u32 (stride * height);
          }),
        )

    go :
        (opened truncated mapped : Bool)
        → Made t
            (opened && (truncated && mapped))
            format
            width
            height
            stride
            (u32 (stride * height))
            (result opened truncated mapped)
    go false truncated mapped = ((λ j. refl), refl)
    go true false mapped = (closed-Same (other file) t, refl)
    go true true false = (closed-Same (other file) t, refl)
    go true true true = (closed-Same (other file) t, refl, refl)
