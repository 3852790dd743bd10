-- ===== src/BoundedBuffer/Examples.antt =====
-- Tests of the bounded buffer, and its theorems at concrete inputs.
use mathlib.Core.List.{flatten}
use reglet_hostlib.Base.{◌≡◌, refl, true, [], ◌∷◌, take}
use reglet_hostlib.Base.Text.{codes}
use reglet_hostlib.BoundedBuffer.{BoundedBuffer, new_bounded_buffer, write, write_all}
use reglet_hostlib.BoundedBuffer.Contents.{buffer-write_all}

writes :
    ((write_all (new_bounded_buffer 10) (codes "hello world" ∷ [])).buffer ≡ codes "hello worl")
    × ((write (new_bounded_buffer 10) (codes "hello world")).1 ≡ 11)
unfolding write_all new_bounded_buffer
writes = (refl, refl)

buffer-write_all_example :
    (write_all (new_bounded_buffer 3) (codes "ab" ∷ codes "cd" ∷ [])).buffer
    ≡ take 3 (flatten (codes "ab" ∷ codes "cd" ∷ []))
buffer-write_all_example = buffer-write_all 3 (codes "ab" ∷ codes "cd" ∷ [])

abbrev full : BoundedBuffer
full = record { buffer = codes "ab"; limit = 2; truncated = true }
