-- ===== src/Netutil/LimitedReader/Probing.antt =====
-- What one read, and the probe at the limit, make of the outcome.
use mathlib.Core.Path.{subst}
use native.Mathlib.Decide.{dec_lt}
use reglet_hostlib.Base.{
  ℕ, ◌+◌, ◌≤◌, ◌≡◌, ◌≢◌, refl, sym, ◌∙◌, ap, true, none, some, List, [], ◌∷◌, ◌++◌, arith, length,
  length-append, take, append-nil,
}
use reglet_hostlib.Netutil.LimitedReader.{
  eof, size_limit_exceeded, ReadResult, LimitedReader, probe_answer,
}
use reglet_hostlib.Netutil.LimitedReader.Streams.{
  Ending, alone, Gives, more, ends, Flagged, shorter, fits, Outcome, whole, cut, take-append,
}

-- The probe, where something is left, and where nothing is.
pub probe_answer-more :
    {S : Type 0} (l : LimitedReader S) (bytes : List ℕ) (a : ReadResult)
    → a.0 ≢ []
    → probe_answer l bytes a ≡ (bytes, some (size_limit_exceeded l.limit (l.read + 1)))
probe_answer-more l bytes ([], e) n = absurd (n refl)
probe_answer-more l bytes (x ∷ extra, e) n = refl

pub probed_more :
    {S : Type 0} (ending : Ending) (left : S → List ℕ) (s : S) (room : ℕ) (o : ReadResult × S)
    → Gives ending left s room o
    → left s ≢ []
    → o.0.0 ≢ []
probed_more ending left s room o (more bytes p q split last e) n h =
    let empty : bytes ≡ [] = ap (λ a. a.0) (sym e) ∙ h in absurd (omega (arith, ap length empty, p))
probed_more ending left s room o (ends q own e) n h = n (ap (λ a. a.0) (sym e) ∙ h)

pub probed_end :
    {S : Type 0} (ending : Ending) (left : S → List ℕ) (s : S) (room : ℕ) (o : ReadResult × S)
    → Gives ending left s room o
    → left s ≡ []
    → o.0 ≡ ([], some eof)
probed_end ending left s room o (more bytes p q split last e) h =
    let none_left : length (bytes ++ left o.1) ≡ 0 = ap length (sym split ∙ h) in
    absurd (omega (arith, none_left, length-append bytes (left o.1), p))
probed_end ending left s room o (ends q own e) h = e ∙ ap (λ t. (t, some eof)) h

pub ends_outcome :
    (ending : Ending) (remaining : ℕ) (text : List ℕ)
    → remaining ≢ 0
    → length text ≤ remaining
    → (text ≢ [] → ending ≢ alone)
    → Outcome ending remaining text (text, none)
ends_outcome ending remaining text n h own = elim (dec_lt (length text) remaining) [
  | yes p ↦ whole (shorter p)
  | no p ↦
      let same : length text ≡ remaining = omega arith in
      whole (fits same (omega arith) (own (λ e. n (sym same ∙ ap length e))))
]

-- The bytes of a read that reaches the limit, and the error of the probe or of the next read.
pub cut_outcome :
    (ending : Ending) (remaining limit count : ℕ) (text bytes rest : List ℕ)
    → text ≡ bytes ++ rest
    → length bytes ≡ remaining
    → Flagged ending remaining (length text) true
    → Outcome ending remaining text (bytes, some (size_limit_exceeded limit count))
cut_outcome ending remaining limit count text bytes rest split full f =
    let start : take remaining text ≡ bytes =
      ap (λ n. take n text) (sym full ∙ zero_right)
      ∙ ap (take (length bytes + 0)) split
      ∙ take-append bytes rest 0
      ∙ append-nil bytes in
    subst (λ b. Outcome ending remaining text (b, some (size_limit_exceeded limit count))) start
      (cut limit count f)
  where
    zero_right : length bytes ≡ length bytes + 0
    zero_right = omega arith
