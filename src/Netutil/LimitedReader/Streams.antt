-- ===== src/Netutil/LimitedReader/Streams.antt =====
-- Readers that give a text in pieces, as package io allows them.
use mathlib.Core.Path.{subst}
use reglet_hostlib.Base.{
  ℕ, suc, ◌+◌, ◌≤◌, ◌<◌, ◌≡◌, ◌≢◌, ap, sym, ◌∙◌, Bool, true, false, none, some, List, [], ◌∷◌, ◌++◌,
  arith, length, length-append, take,
}
use reglet_hostlib.Netutil.LimitedReader.{eof, size_limit_exceeded, ReadResult, Reader}

-- When the end of a text is reported: by a read of its own, which gives nothing, or by the read that
-- gives the last bytes, or by either.
pub data Ending : Type 0 where
  alone with_last either : Ending

module _ {S : Type 0} (ending : Ending) (left : S → List ℕ) where
  -- A read, of a state with some text left, with some room: it gives some of the text, or all of it
  -- with its end.
  pub data Gives (s : S) (room : ℕ) (out : ReadResult × S) : Type 0 where
    more :
        (bytes : List ℕ)
        → 0 < length bytes
        → length bytes ≤ room
        → left s ≡ bytes ++ left out.1
        → (left out.1 ≡ [] → ending ≢ with_last)
        → out.0 ≡ (bytes, none)
        → Gives s room out
    ends :
        length (left s) ≤ room
        → (left s ≢ [] → ending ≢ alone)
        → out.0 ≡ (left s, some eof)
        → Gives s room out

  -- A reader of a text without errors: no read with room gives nothing, but at the end.
  abbrev pub IsStream : Reader S → Type 0
  IsStream r = (s : S) (room : ℕ) → 0 < room → Gives s room (r s room)

-- Whether a text of a length is reported to exceed a limit: a text of just that length is, if its
-- end comes in a read of its own, and is not, if it comes with the last bytes.
pub data Flagged (ending : Ending) (limit len : ℕ) : Bool → Type 0 where
  longer : limit < len → Flagged ending limit len true
  no_room : limit ≡ 0 → Flagged ending limit len true
  at_limit : len ≡ limit → ending ≢ with_last → Flagged ending limit len true
  shorter : len < limit → Flagged ending limit len false
  fits : len ≡ limit → 0 < limit → ending ≢ alone → Flagged ending limit len false

-- What io.ReadAll should give of a text, of which `remaining` bytes may be read.
pub data Outcome (ending : Ending) (remaining : ℕ) (text : List ℕ) : ReadResult → Type 0 where
  whole : Flagged ending remaining (length text) false → Outcome ending remaining text (text, none)
  cut :
      (limit count : ℕ)
      → Flagged ending remaining (length text) true
      → Outcome ending remaining text (take remaining text, some (size_limit_exceeded limit count))

Flagged-shift :
    (ending : Ending) (k remaining len : ℕ) (b : Bool)
    → 0 < remaining
    → Flagged ending remaining len b
    → Flagged ending (k + remaining) (k + len) b
Flagged-shift ending k remaining len _ p (longer h) = longer (omega arith)
Flagged-shift ending k remaining len _ p (no_room h) = absurd (omega arith)
Flagged-shift ending k remaining len _ p (at_limit h e) = at_limit (omega arith) e
Flagged-shift ending k remaining len _ p (shorter h) = shorter (omega arith)
Flagged-shift ending k remaining len _ p (fits h q e) = fits (omega arith) (omega arith) e

pub take-append {ℓ} :
    {A : Type ℓ} (xs ys : List A) (n : ℕ) → take (length xs + n) (xs ++ ys) ≡ xs ++ take n ys
take-append [] ys n = let e : 0 + n ≡ n = omega arith in ap (λ m. take m ys) e
take-append (x ∷ xs) ys n =
    let e : length (x ∷ xs) + n ≡ suc (length xs + n) = omega arith in
    ap (λ m. take m (x ∷ xs ++ ys)) e ∙ ap (λ r. x ∷ r) (take-append xs ys n)

abbrev pub prepended : List ℕ → ReadResult → ReadResult
prepended bytes (more_, e) = (bytes ++ more_, e)

-- A read before: its bytes stand before what the later reads give.
pub Outcome-prepend :
    (ending : Ending) (bytes text : List ℕ) (remaining : ℕ) (out : ReadResult)
    → 0 < remaining
    → Outcome ending remaining text out
    → Outcome ending (length bytes + remaining) (bytes ++ text) (prepended bytes out)
Outcome-prepend ending bytes text remaining _ p (whole f) = whole (
    subst (λ n. Flagged ending (length bytes + remaining) n false) (sym (length-append bytes text))
      (Flagged-shift ending (length bytes) remaining (length text) false p f))
Outcome-prepend ending bytes text remaining _ p (cut limit count f) =
    subst
      (λ t.
        Outcome ending (length bytes + remaining) (bytes ++ text)
          (t, some (size_limit_exceeded limit count)))
      (take-append bytes text remaining)
      (cut limit count (
        subst (λ n. Flagged ending (length bytes + remaining) n true)
          (sym (length-append bytes text))
          (Flagged-shift ending (length bytes) remaining (length text) true p f)))
