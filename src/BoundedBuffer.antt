-- ===== src/BoundedBuffer.antt =====
-- bounded_buffer.go: a buffer that takes all that is written and keeps the first `limit` bytes.
-- A negative limit, which Go allows, acts as 0.
pub mod Contents
pub mod Examples
use reglet_hostlib.Base.{
  ℕ, ◌-◌, Bool, true, false, List, [], ◌∷◌, ◌++◌, length, take, ltb, leb, if◌then◌else◌,
}

pub record BoundedBuffer : Type 0 where
  pub buffer : List ℕ
  pub limit : ℕ
  pub truncated : Bool

unfoldable pub new_bounded_buffer : ℕ → BoundedBuffer
new_bounded_buffer limit = record { buffer = []; limit = limit; truncated = false }

-- The new state and the count that is returned; the error of a bytes.Buffer is always nil.
unfoldable pub write : BoundedBuffer → List ℕ → BoundedBuffer × ℕ
write b p =
    let remaining = b.limit - length b.buffer in
    if leb b.limit (length b.buffer)
    then (record b { truncated = true }, length p)
    else if ltb remaining (length p)
    then (record b { buffer = b.buffer ++ take remaining p; truncated = true }, length p)
    else (record b { buffer = b.buffer ++ p }, length p)

unfoldable pub bytes : BoundedBuffer → List ℕ
bytes b = b.buffer

unfoldable pub len : BoundedBuffer → ℕ
len b = length b.buffer

unfoldable pub reset : BoundedBuffer → BoundedBuffer
reset b = record b { buffer = []; truncated = false }

-- Writes in a row, as exec.Cmd makes them.
unfoldable pub write_all : BoundedBuffer → List (List ℕ) → BoundedBuffer
unfolding write
write_all b [] = b
write_all b (p ∷ ps) = write_all (write b p).0 ps
