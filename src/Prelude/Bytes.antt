-- ===== src/Prelude/Bytes.antt =====
-- `bytes` as lists of numbers below 256, and Python's big-endian `int.to_bytes` and
-- `int.from_bytes`. `to_bytes` is called only on numbers that fit.
use Prim.Native.Nat.{ℕ, zero, suc, ◌+◌, ◌*◌, ◌/◌, ◌%◌, ◌^◌, ◌<◌}
use mathlib.Core.Path.{◌≡◌}
use mathlib.Core.List.{List, [], ◌∷◌}
use native.Mathlib.Omega.{arith}

abbrev pub Bytes : Type 0
Bytes = List ℕ

abbrev pub IsByte : ℕ → Type 0
IsByte b = b < 256

abbrev pub to_bytes : ℕ → ℕ → Bytes
to_bytes zero n = []
to_bytes (suc k) n = (n / 256 ^ k % 256) ∷ to_bytes k n

abbrev pub from_bytes_onto : ℕ → Bytes → ℕ
from_bytes_onto acc [] = acc
from_bytes_onto acc (b ∷ bs) = from_bytes_onto (acc * 256 + b) bs

abbrev pub from_bytes : Bytes → ℕ
from_bytes = from_bytes_onto 0

pub from_bytes-to_bytes_two : (n : ℕ) → n < 65_536 → from_bytes (to_bytes 2 n) ≡ n
from_bytes-to_bytes_two n h = omega arith

pub from_bytes-to_bytes_four : (n : ℕ) → n < 4_294_967_296 → from_bytes (to_bytes 4 n) ≡ n
from_bytes-to_bytes_four n h = omega arith
