-- ===== src/Go/Decimal.antt =====
-- `strconv.Itoa`, and the value that a decimal numeral stands for.
pub mod Laws
use hive_worker.Base.{
  ℕ, zero, suc, ◌+◌, ◌*◌, ◌-◌, ◌/◌, ◌%◌, Text, [], ◌∷◌, ◌++◌, ltb, if◌then◌else◌,
}
use hive_worker.Go.Int.{ℤ, pos, negsuc}

-- The digits of `n`, most significant first; each round divides `n` by ten, so `n + 1` rounds
-- are enough.
digits : ℕ → ℕ → Text
digits zero n = []
digits (suc fuel) n =
    let rest = digits fuel (n / 10) in
    if ltb n 10 then (b'0' + n) ∷ [] else rest ++ ((b'0' + n % 10) ∷ [])

unfoldable pub format_uint : ℕ → Text
unfolding digits
format_uint n = digits (suc n) n

unfoldable pub itoa : ℤ → Text
unfolding format_uint
itoa (pos n) = format_uint n
itoa (negsuc n) = b'-' ∷ format_uint (suc n)
