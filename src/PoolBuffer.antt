-- ===== src/PoolBuffer.antt =====
-- pool-buffer.c: the two shared-memory buffers that a surface draws into. A pointer field is
-- modelled by whether it is set; what the Wayland, cairo and mmap calls do outside is not modelled.
pub mod Next
use swaylock.Base.{
  ℕ, suc, ◌*◌, Bool, true, false, ◌&&◌, Option, none, some, List, [], ◌∷◌, ◌==◌, if◌then◌else◌,
  get_or, set,
}
use swaylock.Base.Words.{u32}

pub record PoolBuffer : Type 0 where
  pub buffer : Bool
  pub surface : Bool
  pub cairo : Bool
  pub width : ℕ
  pub height : ℕ
  pub mapped : Bool
  pub size : ℕ
  pub busy : Bool

-- `memset(buffer, 0, sizeof(struct pool_buffer))`
abbrev pub zeroed : PoolBuffer
zeroed = record {
  buffer = false;
  surface = false;
  cairo = false;
  width = 0;
  height = 0;
  mapped = false;
  size = 0;
  busy = false;
}

-- The listener of the compositor's `release` event.
unfoldable pub buffer_release : PoolBuffer → PoolBuffer
buffer_release b = record b { busy = false }

-- `stride * height` is computed in `uint32_t`.
unfoldable pub buffer_bytes : ℕ → ℕ → ℕ
buffer_bytes width height = u32 (u32 (width * 4) * height)

-- `create_buffer` where its pool file could be made.
unfoldable pub create_buffer : PoolBuffer → ℕ → ℕ → PoolBuffer
unfolding buffer_bytes
create_buffer b width height = record {
  buffer = true;
  surface = true;
  cairo = true;
  width = width;
  height = height;
  mapped = true;
  size = buffer_bytes width height;
  busy = b.busy;
}

unfoldable pub destroy_buffer : PoolBuffer → PoolBuffer
destroy_buffer b = zeroed

-- The loop of `get_next_buffer`: the index of the last buffer that is not busy.
unfoldable pub pick_free : List PoolBuffer → ℕ → Option ℕ → Option ℕ
pick_free [] i chosen = chosen
pick_free (b ∷ pool) i chosen = pick_free pool (suc i) (if b.busy then chosen else some i)

-- The chosen buffer, destroyed if it has another size, created if it is not there, and taken.
unfoldable pub prepare : PoolBuffer → ℕ → ℕ → PoolBuffer
unfolding destroy_buffer create_buffer
prepare b width height =
    let fit = if b.width == width && b.height == height then b else destroy_buffer b in
    let made = if fit.buffer then fit else create_buffer fit width height in
    record made { busy = true }

-- What `get_next_buffer` does with its choice.
unfoldable pub hand_out : List PoolBuffer → ℕ → ℕ → Option ℕ → List PoolBuffer × Option ℕ
hand_out pool width height none = (pool, none)
hand_out pool width height (some i) =
    (set pool i (prepare (get_or pool i zeroed) width height), some i)

-- The pool after the call, and the index of the buffer returned; `none` is NULL.
unfoldable pub get_next_buffer : List PoolBuffer → ℕ → ℕ → List PoolBuffer × Option ℕ
unfolding hand_out
get_next_buffer pool width height = hand_out pool width height (pick_free pool 0 none)
