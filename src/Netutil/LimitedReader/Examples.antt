-- ===== src/Netutil/LimitedReader/Examples.antt =====
-- Tests of the limited reader, and its theorems at concrete inputs.
use reglet_hostlib.Base.{
  ℕ, zero, suc, ◌-◌, ◌≤◌, ◌≡◌, refl, ap, sym, inl, inr, none, some, List, [], ◌∷◌, ◌++◌, arith,
  length, length-take, take, drop, leb, Bool-cases, if◌then◌else◌,
}
use reglet_hostlib.Base.Text.{codes}
use reglet_hostlib.Netutil.LimitedReader.{
  eof, size_limit_exceeded, Reader, IsBounded, new_limited_reader, read_each, read_all, text_reader,
}
use reglet_hostlib.Netutil.LimitedReader.Bounds.{delivered-le-limit}
use reglet_hostlib.Netutil.LimitedReader.Streams.{alone, with_last, more, ends, IsStream}

-- A text keeps the contract of io.Reader.
text_reader-IsBounded : IsBounded text_reader
unfolding text_reader
text_reader-IsBounded [] room = omega arith
text_reader-IsBounded (x ∷ s) room = omega (arith, length-take room (x ∷ s))

-- A body of a length that is known: the end comes with the last bytes.
unfoldable pub known_reader : Reader (List ℕ)
known_reader s room =
    if leb (length s) room then ((s, some eof), []) else ((take room s, none), drop room s)

take-drop : (k : ℕ) (s : List ℕ) → take k s ++ drop k s ≡ s
take-drop zero s = refl
take-drop (suc k) [] = refl
take-drop (suc k) (x ∷ s) = ap (λ r. x ∷ r) (take-drop k s)

length-drop : (k : ℕ) (s : List ℕ) → length (drop k s) ≡ length s - k
length-drop zero s = omega arith
length-drop (suc k) [] = omega arith
length-drop (suc k) (x ∷ s) = omega (arith, length-drop k s)

text_reader-IsStream : IsStream alone (λ s. s) text_reader
unfolding text_reader
text_reader-IsStream [] room p = ends (omega arith) (λ n. absurd (n refl)) refl
text_reader-IsStream (x ∷ s) room p =
    more (take room (x ∷ s)) (omega (arith, length-take room (x ∷ s)))
      (omega (arith, length-take room (x ∷ s))) (sym (take-drop room (x ∷ s))) (λ h e. cc e) refl

pub known_reader-IsStream : IsStream with_last (λ s. s) known_reader
unfolding known_reader
known_reader-IsStream s room p = elim (Bool-cases (leb (length s) room)) [
  | inl e ↦ rw e (ends (ground arith) (λ n h. cc h) refl)
  | inr e ↦ rw e (
      more (take room s) (ground (arith, length-take room s)) (omega (arith, length-take room s))
        (sym (take-drop room s)) (λ h w. absurd (ground (arith, ap length h, length-drop room s)))
        refl)
]

reads :
    (read_all text_reader 9 4 (new_limited_reader (codes "hello") 10) ≡ some (codes "hello", none))
    × (read_all text_reader 9 4 (new_limited_reader (codes "hello") 5)
        ≡ some (codes "hello", some (size_limit_exceeded 5 5)))
    × (read_all known_reader 9 4 (new_limited_reader (codes "hello") 5)
        ≡ some (codes "hello", none))
    × (read_all known_reader 9 4 (new_limited_reader (codes "hello!") 5)
        ≡ some (codes "hello", some (size_limit_exceeded 5 6)))
unfolding read_all text_reader known_reader new_limited_reader
reads = (refl, refl, refl, refl)

delivered-le-limit_example :
    length (read_each text_reader (new_limited_reader (codes "hello") 3) (2 ∷ 2 ∷ 2 ∷ [])).0 ≤ 3
delivered-le-limit_example =
    delivered-le-limit text_reader text_reader-IsBounded (codes "hello") 3 (2 ∷ 2 ∷ 2 ∷ [])
