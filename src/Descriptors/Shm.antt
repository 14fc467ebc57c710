-- ===== src/Descriptors/Shm.antt =====
-- The files behind the shared-memory buffers: `create_pool_file` and the first half of
-- `create_buffer` (pool-buffer.c), and `create_shm_buffer` (background-screenshot.c). Whether a call
-- succeeds is an argument, and so is the number that stands for the file.
use swaylock.Base.{ℕ, ◌*◌, Bool, false, not, Option, none, some, List, if◌then◌else◌}
use Prim.Native.Nat.{bit_or}
use swaylock.Base.Words.{u32}
use swaylock.Descriptors.{Table, other, open_file, close}

-- `fcntl(fd, F_GETFD)`, where `none` is -1, and whether `fcntl(fd, F_SETFD, …)` takes the flags.
pub record Fcntl : Type 0 where
  pub get_flags : Option ℕ
  pub set_flags : ℕ → Bool

-- FD_CLOEXEC is 1.
unfoldable pub set_cloexec : Fcntl → Bool
set_cloexec fcntl = elim fcntl.get_flags [
  | none ↦ false
  | some flags ↦ fcntl.set_flags (bit_or flags 1)
]

-- The answers to `getenv`, `malloc`, `mkstemp`, `fcntl` and `ftruncate`.
pub record PoolAnswers : Type 0 where
  pub xdg_runtime_dir : Option (List ℕ)
  pub malloc : Bool
  pub mkstemp : Bool
  pub fcntl : Fcntl
  pub ftruncate : ℕ → Bool

-- The table, and the descriptor; `none` is -1.
unfoldable pub create_pool_file : PoolAnswers → ℕ → ℕ → Table → Table × Option ℕ
unfolding set_cloexec open_file
create_pool_file answers file size t = elim answers.xdg_runtime_dir [
  | none ↦ (t, none)
  | some path ↦
      if not answers.malloc
      then (t, none)
      else if not answers.mkstemp
      then (t, none)
      else (let (t1, fd) = open_file (other file) t in
          if not (set_cloexec answers.fcntl)
          then (close fd t1, none)
          else if not (answers.ftruncate size)
          then (close fd t1, none)
          else (t1, some fd))
]

-- The file of `create_buffer`: the table afterwards, `none` where the assertion fails.
unfoldable pub buffer_file : PoolAnswers → ℕ → ℕ → Table → Option Table
unfolding create_pool_file
buffer_file answers file size t =
    let (t1, made) = create_pool_file answers file size t in
    elim made [ none ↦ none | some fd ↦ some (close fd t1) ]

-- The answers to `shm_open`, `ftruncate` and `mmap`.
pub record ShmAnswers : Type 0 where
  pub shm_open : Bool
  pub ftruncate : ℕ → Bool
  pub mmap : ℕ → Bool

-- A buffer by its size and shape.
pub record ShmBuffer : Type 0 where
  pub format : ℕ
  pub width : ℕ
  pub height : ℕ
  pub stride : ℕ
  pub size : ℕ

-- The size is an `int`: it is written with the wrap-around of 32 bits, though C leaves it undefined from
-- 2 ^ 31 on. `ftruncate` is called once: it returns 0 or -1, and never EINTR, which is positive.
unfoldable pub create_shm_buffer : ShmAnswers → ℕ → ℕ → ℕ → ℕ → ℕ → Table → Table × Option ShmBuffer
unfolding open_file
create_shm_buffer answers file fmt width height stride t =
    let size = u32 (stride * height) in
    if not answers.shm_open
    then (t, none)
    else (let (t1, fd) = open_file (other file) t in
        if not (answers.ftruncate size)
        then (close fd t1, none)
        else if not (answers.mmap size)
        then (close fd t1, none)
        else (
          close fd t1,
          some (record {
            format = fmt;
            width = width;
            height = height;
            stride = stride;
            size = size;
          }),
        ))
