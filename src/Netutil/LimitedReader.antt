-- ===== src/Netutil/LimitedReader.antt =====
-- netutil/limitreader.go: a reader that stops at a size limit. The reader below it is a function
-- of its state and of the room in the caller's buffer. A negative limit, which Go allows, acts as 0.
pub mod Bounds
pub mod Streams
pub mod Probing
pub mod ReadAll
pub mod Examples
use reglet_hostlib.Base.{
  ℕ, zero, suc, ◌+◌, ◌-◌, ◌≡◌, Bool, true, false, Option, none, some, List, [], ◌∷◌, ◌++◌, length,
  take, drop, ltb, ◌==◌, ◌≤◌, if◌then◌else◌,
}

pub data IoError : Type 0 where
  eof : IoError
  io_error : ℕ → IoError
  -- SizeLimitExceededError{Limit, Read}
  size_limit_exceeded : ℕ → ℕ → IoError

abbrev pub ReadResult : Type 0
ReadResult = List ℕ × Option IoError

-- An io.Reader, by what Read does with room for so many bytes.
abbrev pub Reader {ℓ} : Type ℓ → Type ℓ
Reader S = S → ℕ → ReadResult × S

-- io.Reader: "Read reads up to len(p) bytes into p".
abbrev pub IsBounded {ℓ} : {S : Type ℓ} → Reader S → Type ℓ
IsBounded {S} r = (s : S) (room : ℕ) → length (r s room).0.0 ≤ room

pub record LimitedReader {ℓ} (S : Type ℓ) : Type ℓ where
  pub inner : S
  -- the bytes that may still be read
  pub remaining : ℕ
  pub limit : ℕ
  pub read : ℕ

module _ {ℓ} {S : Type ℓ} where
  unfoldable pub new_limited_reader : S → ℕ → LimitedReader S
  new_limited_reader s limit = record { inner = s; remaining = limit; limit = limit; read = 0 }

  -- The answer to the extra byte that is asked for at the limit.
  abbrev pub probe_answer : LimitedReader S → List ℕ → ReadResult → ReadResult
  probe_answer l bytes (x ∷ extra, e) = (bytes, some (size_limit_exceeded l.limit (l.read + 1)))
  probe_answer l bytes ([], none) = (bytes, none)
  probe_answer l bytes ([], some eof) = (bytes, none)
  probe_answer l bytes ([], some e) = (bytes, some e)

  module _ (r : Reader S) where
    abbrev pub probe : LimitedReader S → List ℕ → ReadResult × LimitedReader S
    probe l bytes =
        let (answer, s) = r l.inner 1 in (probe_answer l bytes answer, record l { inner = s })

    abbrev pub after_read : LimitedReader S → ReadResult → ReadResult × LimitedReader S
    after_read l (bytes, some e) = ((bytes, some e), l)
    after_read l (bytes, none) = if l.remaining == 0 then probe l bytes else ((bytes, none), l)

    -- Read(p), for room of len(p) bytes
    unfoldable pub read_limited : LimitedReader S → ℕ → ReadResult × LimitedReader S
    read_limited l room =
        let (result, s) = r l.inner (if ltb l.remaining room then l.remaining else room) in
        let l' = record l {
          inner = s;
          remaining = l.remaining - length result.0;
          read = l.read + length result.0;
        } in
        if l.remaining == 0
        then (([], some (size_limit_exceeded l.limit l.read)), l)
        else after_read l' result

    -- Reads in a row, as a caller makes them, whatever their errors; the bytes that they deliver.
    unfoldable pub read_each : LimitedReader S → List ℕ → List ℕ × LimitedReader S
    unfolding read_limited
    read_each l [] = ([], l)
    read_each l (room ∷ rooms) =
        let (result, l') = read_limited l room in
        let (bytes, l'') = read_each l' rooms in (result.0 ++ bytes, l'')

-- io.ReadAll, by what a read gave and what the later reads give: EOF is no error.
abbrev pub finish : ReadResult → Option ReadResult → Option ReadResult
finish (bytes, some eof) rest = some (bytes, none)
finish (bytes, some e) rest = some (bytes, some e)
finish (bytes, none) none = none
finish (bytes, none) (some (more, e)) = some (bytes ++ more, e)

-- io.ReadAll over a limited reader with buffers of `room` bytes; `none` if the fuel runs out.
unfoldable pub read_all {ℓ} : {S : Type ℓ} → Reader S → ℕ → ℕ → LimitedReader S → Option ReadResult
unfolding read_limited
read_all r zero room l = none
read_all r (suc fuel) room l =
    let (result, l') = read_limited r l room in
    let rest = read_all r fuel room l' in finish result rest

-- strings.Reader and bytes.Reader: the bytes that are left, and EOF once there are none.
unfoldable pub text_reader : Reader (List ℕ)
text_reader [] room = (([], some eof), [])
text_reader (x ∷ s) room = ((take room (x ∷ s), none), drop room (x ∷ s))
