-- ===== src/Netutil/LimitedReader/Bounds.antt =====
-- How much a limited reader lets through.
use reglet_hostlib.Base.{
  ℕ, ◌+◌, ◌≤◌, ◌≡◌, refl, none, some, List, [], ◌∷◌, arith, length, length-append, ltb, ◌==◌,
  if◌then◌else◌, inl, inr, Bool-cases,
}
use reglet_hostlib.Netutil.LimitedReader.{
  eof, io_error, size_limit_exceeded, ReadResult, Reader, IsBounded, LimitedReader,
  new_limited_reader, probe_answer, after_read, read_limited, read_each,
}

module _ {ℓ} {S : Type ℓ} (r : Reader S) (bounded : IsBounded r) where
  -- What was read and what may be read make up the limit.
  abbrev Balances : LimitedReader S → Type 0
  Balances l = l.read + l.remaining ≡ l.limit

  -- A read keeps the balance and the limit, and counts the bytes that it delivers.
  pub record Counts (l : LimitedReader S) (out : ReadResult × LimitedReader S) : Type 0 where
    pub balances : Balances out.1
    pub same_limit : out.1.limit ≡ l.limit
    pub counted : out.1.read ≡ l.read + length out.0.0

  bytes-probe_answer :
      (l : LimitedReader S) (bytes : List ℕ) (a : ReadResult) → (probe_answer l bytes a).0 ≡ bytes
  bytes-probe_answer l bytes (x ∷ extra, e) = refl
  bytes-probe_answer l bytes ([], none) = refl
  bytes-probe_answer l bytes ([], some eof) = refl
  bytes-probe_answer l bytes ([], some (io_error n)) = refl
  bytes-probe_answer l bytes ([], some (size_limit_exceeded n m)) = refl

  after_read-Counts :
      (l l' : LimitedReader S) (result : ReadResult)
      → Balances l'
      → l'.limit ≡ l.limit
      → l'.read ≡ l.read + length result.0
      → Counts l (after_read r l' result)
  after_read-Counts l l' (bytes, some e) b s c = record {
    balances = b;
    same_limit = s;
    counted = c;
  }
  after_read-Counts l l' (bytes, none) b s c = elim (Bool-cases (l'.remaining == 0)) [
    | inl e ↦ simp e (record {
      balances = b;
      same_limit = s;
      counted = rw (bytes-probe_answer l' bytes (r l'.inner 1).0) c;
    })
    | inr e ↦ simp e (record { balances = b; same_limit = s; counted = c })
  ]

  read_limited-Counts :
      (l : LimitedReader S) (room : ℕ) → Balances l → Counts l (read_limited r l room)
  unfolding read_limited
  read_limited-Counts l room b = elim (Bool-cases (l.remaining == 0)) [
    | inl e ↦ simp e (record { balances = b; same_limit = refl; counted = omega arith })
    | inr e ↦
        let fits = bounded l.inner (if ltb l.remaining room then l.remaining else room) in
        simp e (
          after_read-Counts l _ (r l.inner (if ltb l.remaining room then l.remaining else room)).0
            (ground arith) refl refl)
  ]

  read_each-le :
      (l : LimitedReader S) (rooms : List ℕ)
      → Balances l
      → l.read + length (read_each r l rooms).0 ≤ l.limit
  unfolding read_each
  read_each-le l [] b = omega arith
  read_each-le l (room ∷ rooms) b =
      let c = read_limited-Counts l room b in
      omega (
        arith,
        length-append (read_limited r l room).0.0 (read_each r (read_limited r l room).1 rooms).0,
        read_each-le (read_limited r l room).1 rooms c.balances,
        c.same_limit,
        c.counted,
      )

-- However a caller reads from a `LimitedReader`, and whatever the reader below does, if it gives no
-- more than it is asked for, no more than `limit` bytes come through.
pub delivered-le-limit {ℓ} :
    {S : Type ℓ} (r : Reader S) (bounded : IsBounded r) (s : S) (limit : ℕ) (rooms : List ℕ)
    → length (read_each r (new_limited_reader s limit) rooms).0 ≤ limit
unfolding new_limited_reader
delivered-le-limit r bounded s limit rooms =
    omega (arith, read_each-le r bounded (new_limited_reader s limit) rooms (omega arith))
