-- ===== src/BoundedBuffer/Contents.antt =====
-- What a bounded buffer holds after any writes.
use mathlib.Core.List.{flatten}
use reglet_hostlib.Base.{
  ℕ, zero, suc, ◌-◌, ◌≤◌, ◌<◌, ◌≡◌, refl, sym, ◌∙◌, ap, ◌≢◌, true, List, [], ◌∷◌, ◌++◌, arith,
  length, length-append, length-take, take, take-all, ltb, leb, append_assoc, append-nil, All, inl,
  inr, min, Bool-cases,
}
use reglet_hostlib.BoundedBuffer.{BoundedBuffer, new_bounded_buffer, write, write_all, reset}

-- Past its end, `take` keeps the list and goes on with what follows.
module _ {ℓ} {A : Type ℓ} where
  take-append_short :
      (n : ℕ) (xs ys : List A) → length xs ≤ n → take n (xs ++ ys) ≡ xs ++ take (n - length xs) ys
  take-append_short n [] ys h = ap (λ k. take k ys) (omega arith)
  take-append_short zero (x ∷ xs) ys h = absurd (omega arith)
  take-append_short (suc n) (x ∷ xs) ys h =
      ap (λ r. x ∷ r)
        (take-append_short n xs ys (omega arith) ∙ ap (λ k. xs ++ take k ys) (omega arith))

  take-append_long : (n : ℕ) (xs ys : List A) → n ≤ length xs → take n (xs ++ ys) ≡ take n xs
  take-append_long zero xs ys h = refl
  take-append_long (suc n) [] ys h = absurd (omega arith)
  take-append_long (suc n) (x ∷ xs) ys h = ap (λ r. x ∷ r) (take-append_long n xs ys (omega arith))

-- The buffer keeps the first `limit` bytes of what was written.
abbrev Keeps : BoundedBuffer → List ℕ → Type 0
Keeps b written = b.buffer ≡ take b.limit written

limit-write : (b : BoundedBuffer) (p : List ℕ) → (write b p).0.limit ≡ b.limit
unfolding write
limit-write b p = ground arith

-- How much the buffer holds; while it has room, that is all that was written.
length-Keeps :
    (b : BoundedBuffer) (written : List ℕ)
    → Keeps b written
    → length b.buffer ≡ min b.limit (length written)
length-Keeps b written h = ap length h ∙ length-take b.limit written

room-Keeps :
    (b : BoundedBuffer) (written : List ℕ)
    → Keeps b written
    → length b.buffer < b.limit
    → b.buffer ≡ written
room-Keeps b written h room = h ∙ take-all b.limit written (omega (arith, length-Keeps b written h))

write-Keeps :
    (b : BoundedBuffer) (written p : List ℕ) → Keeps b written → Keeps (write b p).0 (written ++ p)
unfolding write
write-Keeps b written p h = elim (Bool-cases (leb b.limit (length b.buffer))) [
  | inl full ↦
      rw full
        (h ∙ sym (take-append_long b.limit written p (ground (arith, length-Keeps b written h))))
  | inr room ↦
      let same : b.buffer ≡ written = room-Keeps b written h (ground arith) in
      let long : length written ≤ b.limit = ground (arith, length-Keeps b written h) in
      let appended = take-append_short b.limit written p long in
      elim (Bool-cases (ltb (b.limit - length b.buffer) (length p))) [
        | inl over ↦
            rw (room, over) (ap (λ s. s ++ take (b.limit - length s) p) same ∙ sym appended)
        | inr fits ↦
            let all : take (b.limit - length written) p ≡ p =
              take-all (b.limit - length written) p (ground (arith, ap length same)) in
            rw (room, fits) (ap (λ s. s ++ p) same ∙ sym (appended ∙ ap (λ s. written ++ s) all))
      ]
]

write_all-Keeps :
    (b : BoundedBuffer) (written : List ℕ) (ps : List (List ℕ))
    → Keeps b written
    → Keeps (write_all b ps) (written ++ flatten ps)
unfolding write_all flatten
write_all-Keeps b written [] h = rw append-nil h
write_all-Keeps b written (p ∷ ps) h =
    rw (← append_assoc)
      (write_all-Keeps (write b p).0 (written ++ p) ps (write-Keeps b written p h))

limit-write_all : (b : BoundedBuffer) (ps : List (List ℕ)) → (write_all b ps).limit ≡ b.limit
unfolding write_all
limit-write_all b [] = refl
limit-write_all b (p ∷ ps) = limit-write_all (write b p).0 ps ∙ limit-write b p

new-Keeps : (limit : ℕ) → Keeps (new_bounded_buffer limit) []
unfolding new_bounded_buffer
new-Keeps zero = refl
new-Keeps (suc n) = refl

limit-new : (limit : ℕ) → (new_bounded_buffer limit).limit ≡ limit
unfolding new_bounded_buffer
limit-new limit = refl

-- A new bounded buffer holds, after any writes in a row, the first `limit` bytes of all that was
-- written.
pub buffer-write_all :
    (limit : ℕ) (ps : List (List ℕ))
    → (write_all (new_bounded_buffer limit) ps).buffer ≡ take limit (flatten ps)
buffer-write_all limit ps =
    write_all-Keeps (new_bounded_buffer limit) [] ps (new-Keeps limit)
    ∙ ap (λ n. take n (flatten ps))
        (limit-write_all (new_bounded_buffer limit) ps ∙ limit-new limit)

-- Every write reports that it took all its bytes.
pub write_count : (b : BoundedBuffer) (p : List ℕ) → (write b p).1 ≡ length p
unfolding write
write_count b p = ground arith

-- The flag tells whether a byte was lost, if no write is empty.
abbrev Flags : BoundedBuffer → List ℕ → Type 0
Flags b written = b.truncated ≡ ltb b.limit (length written)

write-Flags :
    (b : BoundedBuffer) (written p : List ℕ)
    → Keeps b written
    → p ≢ []
    → Flags b written
    → Flags (write b p).0 (written ++ p)
unfolding write
write-Flags b written [] h n f = absurd (n refl)
write-Flags b written (c ∷ p) h n f =
    ground (arith, length-Keeps b written h, length-append written (c ∷ p))

write_all-Flags :
    (b : BoundedBuffer) (written : List ℕ) (ps : List (List ℕ))
    → Keeps b written
    → All (λ p. p ≢ []) ps
    → Flags b written
    → Flags (write_all b ps) (written ++ flatten ps)
unfolding write_all flatten
write_all-Flags b written [] h n f = rw append-nil f
write_all-Flags b written (p ∷ ps) h n f = rw (← append_assoc) (
    write_all-Flags (write b p).0 (written ++ p) ps (write-Keeps b written p h) n.1
      (write-Flags b written p h n.0 f))

new-Flags : (limit : ℕ) → Flags (new_bounded_buffer limit) []
unfolding new_bounded_buffer
new-Flags limit = ground arith

-- After writes none of which is empty, the flag of a bounded buffer is set exactly if a byte was
-- dropped.
pub truncated-write_all :
    (limit : ℕ) (ps : List (List ℕ))
    → All (λ p. p ≢ []) ps
    → (write_all (new_bounded_buffer limit) ps).truncated ≡ ltb limit (length (flatten ps))
truncated-write_all limit ps n =
    write_all-Flags (new_bounded_buffer limit) [] ps (new-Keeps limit) n (new-Flags limit)
    ∙ ap (λ k. ltb k (length (flatten ps)))
        (limit-write_all (new_bounded_buffer limit) ps ∙ limit-new limit)

-- An empty write to a full bounded buffer sets the flag, though no byte is dropped.
pub empty_write_flags :
    (b : BoundedBuffer)
    → b.limit ≤ length b.buffer
    → ((write b []).0.truncated ≡ true) × ((write b []).0.buffer ≡ b.buffer)
unfolding write
empty_write_flags b full = ground arith

-- A buffer that was reset is a new one with its limit.
pub reset_lem : (b : BoundedBuffer) → reset b ≡ new_bounded_buffer b.limit
unfolding reset new_bounded_buffer
reset_lem b = refl
