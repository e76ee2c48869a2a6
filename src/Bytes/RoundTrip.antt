-- ===== src/Bytes/RoundTrip.antt =====
-- The big-endian encoding of a u64 loses nothing and is ordered as the numbers are.
use pelican_q.Base.{ℕ, ◌+◌, ◌*◌, ◌<◌, ◌≡◌, refl, ◌∙◌, ap₂, sym, [], ◌∷◌, arith, ltb, length, All}
use pelican_q.Bytes.{Bytes, precedes, to_be_bytes, from_be_bytes}

abbrev pub u64_mod : ℕ
u64_mod = 18446744073709551616

-- A byte string: every entry is below 256.
abbrev pub IsBytes : Bytes → Type 0
IsBytes = All (λ b. b < 256)

pub to_be_bytes-IsBytes : (n : ℕ) → IsBytes (to_be_bytes n)
unfolding to_be_bytes
to_be_bytes-IsBytes n = omega arith

pub length-to_be_bytes : (n : ℕ) → length (to_be_bytes n) ≡ 8
unfolding to_be_bytes
length-to_be_bytes n = refl

pub from_be_bytes-to_be_bytes : (n : ℕ) → n < u64_mod → from_be_bytes 0 (to_be_bytes n) ≡ n
unfolding from_be_bytes to_be_bytes
from_be_bytes-to_be_bytes n h = omega arith

from_be_bytes_mono :
    (a b : Bytes) (m n : ℕ)
    → length a ≡ length b
    → IsBytes a
    → m < n
    → from_be_bytes m a < from_be_bytes n b
unfolding from_be_bytes
from_be_bytes_mono [] [] m n e h lt = lt
from_be_bytes_mono [] (y ∷ ys) m n e h lt = absurd (omega arith)
from_be_bytes_mono (x ∷ xs) [] m n e h lt = absurd (omega arith)
from_be_bytes_mono (x ∷ xs) (y ∷ ys) m n e h lt =
    from_be_bytes_mono xs ys (m * 256 + x) (n * 256 + y) (omega arith) h.1 (omega (arith, h.0))

precedes-from_be_bytes :
    (a b : Bytes) (n : ℕ)
    → length a ≡ length b
    → IsBytes a
    → IsBytes b
    → precedes a b ≡ ltb (from_be_bytes n a) (from_be_bytes n b)
unfolding precedes from_be_bytes
precedes-from_be_bytes [] [] n e h k = ground arith
precedes-from_be_bytes [] (y ∷ ys) n e h k = absurd (omega arith)
precedes-from_be_bytes (x ∷ xs) [] n e h k = absurd (omega arith)
precedes-from_be_bytes (x ∷ xs) (y ∷ ys) n e h k = ground (
  arith,
  precedes-from_be_bytes xs ys (n * 256 + x) (omega arith) h.1 k.1,
  from_be_bytes_mono xs ys (n * 256 + x) (n * 256 + y) (omega arith) h.1,
  from_be_bytes_mono ys xs (n * 256 + y) (n * 256 + x) (omega arith) k.1,
)

pub precedes-to_be_bytes :
    (m n : ℕ) → m < u64_mod → n < u64_mod → precedes (to_be_bytes m) (to_be_bytes n) ≡ ltb m n
precedes-to_be_bytes m n h k =
    precedes-from_be_bytes (to_be_bytes m) (to_be_bytes n) 0
      (length-to_be_bytes m ∙ sym (length-to_be_bytes n)) (to_be_bytes-IsBytes m)
      (to_be_bytes-IsBytes n)
    ∙ ap₂ ltb (from_be_bytes-to_be_bytes m h) (from_be_bytes-to_be_bytes n k)

-- Eight bytes are the encoding of the number that they are read as.
pub to_be_bytes-from_be_bytes :
    (a b c d e f g h : ℕ)
    → let bs = a ∷ b ∷ c ∷ d ∷ e ∷ f ∷ g ∷ h ∷ [] in
      IsBytes bs → to_be_bytes (from_be_bytes 0 bs) ≡ bs
unfolding from_be_bytes to_be_bytes
to_be_bytes-from_be_bytes a b c d e f g h v = ground arith
