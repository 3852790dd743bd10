-- ===== src/Netutil/LimitedReader/ReadAll.antt =====
-- io.ReadAll over a limited reader of a text.
use mathlib.Core.Path.{subst}
use reglet_hostlib.Base.{
  ℕ, zero, suc, ◌+◌, ◌-◌, ◌≤◌, ◌<◌, ◌≡◌, ◌≢◌, refl, sym, ◌∙◌, ap, Option, none, some, List, [],
  ◌++◌, arith, length, length-append, take, append-nil, ltb, ◌==◌, if◌then◌else◌, inl, inr,
  Bool-cases,
}
use reglet_hostlib.Base.Text.{List-cases}
use reglet_hostlib.Netutil.LimitedReader.{
  size_limit_exceeded, ReadResult, Reader, LimitedReader, new_limited_reader, probe_answer,
  after_read, finish, read_limited, read_all,
}
use reglet_hostlib.Netutil.LimitedReader.Streams.{
  Ending, with_last, Gives, more, ends, IsStream, longer, no_room, at_limit, Outcome, cut,
  prepended, Outcome-prepend,
}
use reglet_hostlib.Netutil.LimitedReader.Probing.{
  probe_answer-more, probed_more, probed_end, ends_outcome, cut_outcome,
}

-- A complete read of what is left.
pub record Completes (ending : Ending) (remaining : ℕ) (text : List ℕ) (read : Option ReadResult)
    : Type 0 where
  pub out : ReadResult
  pub reads : read ≡ some out
  pub outcome : Outcome ending remaining text out

module _ {S : Type 0} (ending : Ending) (left : S → List ℕ) (r : Reader S)
    (stream : IsStream ending left r) where
  read_all-suc :
      (f room : ℕ) (l : LimitedReader S)
      → read_all r (suc f) room l
        ≡ finish (read_limited r l room).0 (read_all r f room (read_limited r l room).1)
  unfolding read_all
  read_all-suc f room l = refl

  -- Nothing more may be read.
  spent :
      (f room : ℕ) (l : LimitedReader S)
      → l.remaining ≡ 0
      → read_all r (suc f) room l ≡ some ([], some (size_limit_exceeded l.limit l.read))
  unfolding read_all read_limited
  spent f room l e = rw e refl

  abbrev asked : LimitedReader S → ℕ → ℕ
  asked l room = if ltb l.remaining room then l.remaining else room

  -- The reader after a read of some bytes.
  abbrev advanced : LimitedReader S → ReadResult × S → LimitedReader S
  advanced l o = record l {
    inner = o.1;
    remaining = l.remaining - length o.0.0;
    read = l.read + length o.0.0;
  }

  reads :
      (l : LimitedReader S) (room : ℕ)
      → l.remaining ≢ 0
      → read_limited r l room
        ≡ after_read r (advanced l (r l.inner (asked l room))) (r l.inner (asked l room)).0
  unfolding read_limited
  reads l room n = elim (Bool-cases (l.remaining == 0)) [
    | inl e ↦ absurd (n (ground arith))
    | inr e ↦ rw e refl
  ]

  asked_bounds :
      (l : LimitedReader S) (room : ℕ)
      → l.remaining ≢ 0
      → 0 < room
      → (0 < asked l room) × (asked l room ≤ l.remaining)
  asked_bounds l room n p = ground arith

  -- What io.ReadAll makes of a read, with the reads after it.
  abbrev after : ℕ → ℕ → LimitedReader S → ReadResult → Option ReadResult
  after f room l result =
      finish (after_read r l result).0 (read_all r f room (after_read r l result).1)

  after_probe :
      (f room : ℕ) (l : LimitedReader S) (bytes : List ℕ)
      → l.remaining ≡ 0
      → after f room l (bytes, none)
        ≡ finish
            (probe_answer l bytes (r l.inner 1).0)
            (read_all r f room (record l { inner = (r l.inner 1).1 }))
  after_probe f room l bytes e = rw e refl

  -- The read reached the limit.
  at_the_limit :
      (f room remaining : ℕ) (text : List ℕ) (l : LimitedReader S) (bytes : List ℕ)
      → l.remaining ≡ 0
      → 0 < f
      → text ≡ bytes ++ left l.inner
      → length bytes ≡ remaining
      → (left l.inner ≡ [] → ending ≢ with_last)
      → Completes ending remaining text (after f room l (bytes, none))
  at_the_limit zero room remaining text l bytes z p split full last = absurd (omega arith)
  at_the_limit (suc f) room remaining text l bytes z p split full last =
      let sum : length text ≡ length bytes + length (left l.inner) =
        ap length split ∙ length-append bytes (left l.inner) in
      let g = stream l.inner 1 (omega arith) in
      elim (List-cases (left l.inner)) [
        | inl nothing ↦ record {
          out = (bytes, some (size_limit_exceeded l.limit l.read));
          reads =
              after_probe (suc f) room l bytes z
              ∙ rw
                  (
                    probed_end ending left l.inner 1 (r l.inner 1) g nothing,
                    spent f room (record l { inner = (r l.inner 1).1 }) z,
                    append-nil bytes,
                  )
                  refl;
          outcome =
              cut_outcome ending remaining l.limit l.read text bytes (left l.inner) split full
                (at_limit (omega (arith, sum, full, ap length nothing)) (last nothing));
        }
        | inr (x, xs, some_left) ↦
            let n : left l.inner ≢ [] = λ e. cc (e, some_left) in
            record {
              out = (bytes, some (size_limit_exceeded l.limit (l.read + 1)));
              reads =
                  after_probe (suc f) room l bytes z
                  ∙ rw
                      (probe_answer-more l bytes (r l.inner 1).0
                        (probed_more ending left l.inner 1 (r l.inner 1) g n))
                      refl;
              outcome =
                  cut_outcome ending remaining l.limit (l.read + 1) text bytes (left l.inner) split
                    full (longer (omega (arith, sum, full, ap length some_left)));
            }
      ]

  abbrev CompletesAll : ℕ → ℕ → Type 0
  CompletesAll f room =
      (l : LimitedReader S)
      → length (left l.inner) < f
      → Completes ending l.remaining (left l.inner) (read_all r f room l)

  -- The read did not reach the limit.
  below_the_limit :
      (f room remaining : ℕ) (text : List ℕ) (l : LimitedReader S) (bytes : List ℕ)
      → CompletesAll f room
      → l.remaining ≢ 0
      → 0 < length bytes
      → length text < suc f
      → text ≡ bytes ++ left l.inner
      → length bytes + l.remaining ≡ remaining
      → Completes ending remaining text (after f room l (bytes, none))
  below_the_limit f room remaining text l bytes rest n p fuel split full =
      let sum : length text ≡ length bytes + length (left l.inner) =
        ap length split ∙ length-append bytes (left l.inner) in
      let c = rest l (omega (arith, sum)) in
      record {
        out = prepended bytes c.out;
        reads = elim (Bool-cases (l.remaining == 0)) [
          | inl e ↦ absurd (n (ground arith))
          | inr e ↦ rw (e, c.reads) refl
        ];
        outcome =
            subst (λ t. Outcome ending remaining t (prepended bytes c.out)) (sym split)
              (subst (λ m. Outcome ending m (bytes ++ left l.inner) (prepended bytes c.out)) full
                (Outcome-prepend ending bytes (left l.inner) l.remaining c.out (omega arith)
                  c.outcome));
      }

  continued :
      (f room : ℕ) (l : LimitedReader S) (o : ReadResult × S)
      → Gives ending left l.inner (asked l room) o
      → CompletesAll f room
      → l.remaining ≢ 0
      → 0 < room
      → length (left l.inner) < suc f
      → Completes ending l.remaining (left l.inner) (after f room (advanced l o) o.0)
  continued f room l o (ends q own e) rest n p fuel = record {
    out = (left l.inner, none);
    reads = rw e refl;
    outcome =
        ends_outcome ending l.remaining (left l.inner) n
          (omega (arith, q, (asked_bounds l room n p).1)) own;
  }
  continued f room l o (more bytes p q split last e) rest n positive fuel =
      let next = advanced l o in
      let given : length o.0.0 ≡ length bytes = ap (λ a. length a.0) e in
      let bound = (asked_bounds l room n positive).1 in
      subst (λ a. Completes ending l.remaining (left l.inner) (after f room next a)) (sym e)
        (elim (Bool-cases (next.remaining == 0)) [
          | inl z ↦
              let sum : length (left l.inner) ≡ length bytes + length (left o.1) =
                ap length split ∙ length-append bytes (left o.1) in
              let spent_ : next.remaining ≡ 0 = ground arith in
              at_the_limit f room l.remaining (left l.inner) next bytes spent_ (omega (arith, sum))
                split (omega (arith, spent_, given, bound)) last
          | inr z ↦
              let unspent : next.remaining ≢ 0 = λ h. ground arith in
              below_the_limit f room l.remaining (left l.inner) next bytes rest unspent p fuel split
                (omega (arith, unspent, given, bound))
        ])

  -- Any fuel above the length of the text is enough.
  read_all_fuel :
      (fuel room : ℕ) (l : LimitedReader S)
      → 0 < room
      → length (left l.inner) < fuel
      → Completes ending l.remaining (left l.inner) (read_all r fuel room l)
  read_all_fuel zero room l p h = absurd (omega arith)
  read_all_fuel (suc f) room l p h = elim (Bool-cases (l.remaining == 0)) [
    | inl e ↦
        let z : l.remaining ≡ 0 = ground arith in
        record {
          out = ([], some (size_limit_exceeded l.limit l.read));
          reads = spent f room l z;
          outcome =
              subst
                (λ m.
                  Outcome ending l.remaining (left l.inner)
                    (take m (left l.inner), some (size_limit_exceeded l.limit l.read)))
                z (cut l.limit l.read (no_room z));
        }
    | inr e ↦
        let n : l.remaining ≢ 0 = λ z. ground arith in
        let o = r l.inner (asked l room) in
        let c =
          continued f room l o (stream l.inner (asked l room) (asked_bounds l room n p).0)
            (λ next q. read_all_fuel f room next p q) n p h in
        record {
          out = c.out;
          reads = read_all-suc f room l ∙ (rw (reads l room n) refl) ∙ c.reads;
          outcome = c.outcome;
        }
  ]

-- `io.ReadAll` of a text through a `LimitedReader` ends, however the reader below divides the text:
-- it gives the whole text without an error, or the first `limit` bytes with the error. A text that
-- is shorter than the limit is given whole, and a longer one is cut; one of just the limit's length
-- is cut if its end comes in a read of its own, and whole if it comes with the last bytes.
pub read_all-Completes :
    {S : Type 0} (ending : Ending) (left : S → List ℕ) (r : Reader S) (fuel room : ℕ) (s : S)
    (limit : ℕ)
    → IsStream ending left r
    → 0 < room
    → length (left s) < fuel
    → Completes ending limit (left s) (read_all r fuel room (new_limited_reader s limit))
unfolding new_limited_reader
read_all-Completes ending left r fuel room s limit stream p h =
    read_all_fuel ending left r stream fuel room (new_limited_reader s limit) p h
