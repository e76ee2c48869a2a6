-- ===== src/Bytes.antt =====
-- Byte strings: their equality, their lexicographic order and the big-endian encoding of a u64,
-- as pelicanq-core/src/queue.rs uses them for keys and tree names.
pub mod Order
pub mod RoundTrip
use Prim.Native.Char.{code}
use Prim.Native.String.{String}
use pelican_q.Base.{
  ℕ, ◌+◌, ◌*◌, ◌/◌, ◌%◌, Bool, true, false, ◌&&◌, List, [], ◌∷◌, ◌==◌, ltb, if◌then◌else◌,
}

abbrev pub Bytes : Type 0
Bytes = List ℕ

-- The bytes of an ASCII text.
abbrev pub codes : String → Bytes
codes String.[] = []
codes (String.◌∷◌ c s) = code c ∷ codes s

unfoldable pub same : Bytes → Bytes → Bool
same [] [] = true
same [] (y ∷ ys) = false
same (x ∷ xs) [] = false
same (x ∷ xs) (y ∷ ys) = (x == y) && same xs ys

-- The order of keys: lexicographic, a proper prefix first.
unfoldable pub precedes : Bytes → Bytes → Bool
precedes xs [] = false
precedes [] (y ∷ ys) = true
precedes (x ∷ xs) (y ∷ ys) = let rest = precedes xs ys in if x == y then rest else ltb x y

-- `u64::to_be_bytes`.
unfoldable pub to_be_bytes : ℕ → Bytes
to_be_bytes n =
    (n / 72057594037927936 % 256)
    ∷ (n / 281474976710656 % 256)
    ∷ (n / 1099511627776 % 256)
    ∷ (n / 4294967296 % 256)
    ∷ (n / 16777216 % 256)
    ∷ (n / 65536 % 256)
    ∷ (n / 256 % 256)
    ∷ (n % 256)
    ∷ []

-- `u64::from_be_bytes`, of the bytes read so far.
unfoldable pub from_be_bytes : ℕ → Bytes → ℕ
from_be_bytes acc [] = acc
from_be_bytes acc (b ∷ bs) = from_be_bytes (acc * 256 + b) bs
