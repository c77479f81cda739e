-- ===== src/Go/Decimal/Laws.antt =====
-- A numeral determines its number.
use mathlib.Core.List.{foldl, foldl-append}
use hive_worker.Base.{
  ℕ, zero, suc, ◌+◌, ◌*◌, ◌-◌, ◌/◌, ◌≤◌, ◌<◌, ◌≡◌, ◌≢◌, refl, sym, ap, ◌∙◌, false, Text, [], ◌∷◌,
  arith, All, All-append, contains, nat_eq, Bool-cases, ltb, inl, inr,
}
use hive_worker.Go.Int.{ℤ, pos, negsuc}
use hive_worker.Go.Decimal.{digits, format_uint, itoa}

abbrev value : ℕ → ℕ → ℕ
value n c = n * 10 + (c - b'0')

parse_uint : Text → ℕ
parse_uint = foldl value 0

abbrev IsDigit : ℕ → Type 0
IsDigit c = (b'0' ≤ c) × (c ≤ b'9')

digits-IsDigit : (fuel n : ℕ) → All IsDigit (digits fuel n)
unfolding digits
digits-IsDigit zero n = tt
digits-IsDigit (suc fuel) n = elim (Bool-cases (ltb n 10)) [
  | inl small ↦ rw small (ground arith, tt)
  | inr large ↦
      rw large (
        All-append IsDigit (digits fuel (n / 10)) _ (digits-IsDigit fuel (n / 10))
          (omega arith, tt))
]

parse_uint-digits : (fuel n : ℕ) → n < fuel → parse_uint (digits fuel n) ≡ n
unfolding digits parse_uint
parse_uint-digits zero n h = absurd (omega arith)
parse_uint-digits (suc fuel) n h = elim (Bool-cases (ltb n 10)) [
  | inl small ↦ rw small (omega arith)
  | inr large ↦
      rw (large, foldl-append) (rw (parse_uint-digits fuel (n / 10) (ground arith)) (omega arith))
]

format_uint-IsDigit : (n : ℕ) → All IsDigit (format_uint n)
unfolding format_uint
format_uint-IsDigit n = digits-IsDigit (suc n) n

format_uint_injective : (m n : ℕ) → format_uint m ≡ format_uint n → m ≡ n
unfolding format_uint
format_uint_injective m n e =
    sym (parse_uint-digits (suc m) m (omega arith))
    ∙ ap parse_uint e
    ∙ parse_uint-digits (suc n) n (omega arith)

no_sign : (t s : Text) → All IsDigit t → t ≢ b'-' ∷ s
no_sign [] s d e = cc
no_sign (c ∷ t) s d e = ground arith

-- Two integers with one numeral are equal.
pub itoa_injective : (a b : ℤ) → itoa a ≡ itoa b → a ≡ b
unfolding itoa
itoa_injective (pos m) (pos n) e = ap pos (format_uint_injective m n e)
itoa_injective (pos m) (negsuc n) e = absurd (no_sign _ _ (format_uint-IsDigit m) e)
itoa_injective (negsuc m) (pos n) e = absurd (no_sign _ _ (format_uint-IsDigit n) (sym e))
itoa_injective (negsuc m) (negsuc n) e =
    ap negsuc (omega (arith, format_uint_injective (suc m) (suc n) (cc)))

digits-lack : (c : ℕ) (s : Text) → b'9' < c → All IsDigit s → contains c s ≡ false
digits-lack c [] h d = refl
digits-lack c (x ∷ s) h d = ground (arith, digits-lack c s)

-- No numeral holds a colon.
pub itoa-Lacks_colon : (a : ℤ) → contains b':' (itoa a) ≡ false
unfolding itoa
itoa-Lacks_colon (pos n) = digits-lack b':' _ (omega arith) (format_uint-IsDigit n)
itoa-Lacks_colon (negsuc n) =
    ground
      (arith, digits-lack b':' (format_uint (suc n)) (omega arith) (format_uint-IsDigit (suc n)))
