-- ===== src/Go/Strconv/Decimal.antt =====
-- Decimal numerals of `strconv`, written and read back.
use native.Mathlib.Nat.{pow-suc}
use bpf_ninja.Base.{
  ℕ, zero, suc, ◌+◌, ◌*◌, ◌/◌, ◌%◌, ◌^◌, ◌<◌, ◌≤◌, ◌≡◌, ◌≢◌, refl, arith, Bool, true, false, some,
  [], ◌∷◌, ltb, ◌==◌, Bytes, length, all, any, inl, inr, Bool-cases, ap, ◌∙◌, sym, lt→ltb,
}
use bpf_ninja.Go.Strconv.{
  u64_mod, base_prefix, within, parse_digits, parse_number, parse_uint_any, fit, decimal_digits,
  format_uint,
}

abbrev pub is_decimal : ℕ → Bool
is_decimal c = within b'0' b'9' c

-- One digit in front.
parse_digits-digit :
    (marks : Bool) (base acc d r : ℕ) (s : Bytes)
    → d < 10
    → d < base
    → acc * base + d ≡ r
    → parse_digits marks base acc ((b'0' + d) ∷ s) ≡ parse_digits marks base r s
unfolding parse_digits
parse_digits-digit marks base acc d r s h k e = ground arith

-- The digits of a number read back as that number.
parse-decimal_digits :
    (marks : Bool) (f n : ℕ) (s : Bytes)
    → n < 10 ^ suc f
    → parse_digits marks 10 0 (decimal_digits (suc f) n s) ≡ parse_digits marks 10 n s
unfolding decimal_digits
parse-decimal_digits marks zero n s h =
    rw (lt→ltb n 10 small) (parse_digits-digit marks 10 0 n n s small small (omega arith))
  where
    small : n < 10
    small = omega arith
parse-decimal_digits marks (suc f) n s h = elim (Bool-cases (ltb n 10)) [
  | inl e ↦ rw e (parse_digits-digit marks 10 0 n n s (ground arith) (ground arith) (omega arith))
  | inr e ↦ rw e (parse-decimal_digits marks f (n / 10) ((b'0' + n % 10) ∷ s) fewer ∙ last)
]
  where
    fewer : n / 10 < 10 ^ suc f
    fewer = omega (arith, pow-suc 10 (suc f))

    last : parse_digits marks 10 (n / 10) ((b'0' + n % 10) ∷ s) ≡ parse_digits marks 10 n s
    last =
        parse_digits-digit marks 10 (n / 10) (n % 10) n s (omega arith) (omega arith) (omega arith)

all-decimal_digits :
    (f n : ℕ) (s : Bytes) → all is_decimal s ≡ true → all is_decimal (decimal_digits f n s) ≡ true
unfolding decimal_digits
all-decimal_digits zero n s h = h
all-decimal_digits (suc f) n s h =
    ground (arith, all-decimal_digits f (n / 10) ((b'0' + n % 10) ∷ s))

-- The first digit of a number other than 0 is not `0`.
decimal_digits-cons :
    (f n : ℕ) (s : Bytes)
    → 0 < n
    → n < 10 ^ suc f
    → (c : ℕ) × (cs : Bytes) × (decimal_digits (suc f) n s ≡ c ∷ cs) × (c ≢ b'0')
unfolding decimal_digits
decimal_digits-cons zero n s p h = (b'0' + n, s, rw (lt→ltb n 10 small) refl, omega arith)
  where
    small : n < 10
    small = omega arith
decimal_digits-cons (suc f) n s p h = elim (Bool-cases (ltb n 10)) [
  | inl e ↦ (b'0' + n, s, rw e refl, omega arith)
  | inr e ↦
      let (c, cs, x, y) =
        decimal_digits-cons f (n / 10) ((b'0' + n % 10) ∷ s) (ground arith)
          (omega (arith, pow-suc 10 (suc f))) in
      (c, cs, rw e x, y)
]

pub no_underscore : (s : Bytes) → all is_decimal s ≡ true → any (λ d. d == b'_') s ≡ false
no_underscore [] h = refl
no_underscore (c ∷ s) h = ground (arith, no_underscore s)

base_prefix-decimal : (c : ℕ) (s : Bytes) → c ≢ b'0' → base_prefix (c ∷ s) ≡ (10, c ∷ s)
base_prefix-decimal c [] h = ground arith
base_prefix-decimal c (d ∷ []) h = ground arith
base_prefix-decimal c (d ∷ e ∷ s) h = ground arith

-- A text of decimal digits with no leading zero is read in base 10.
parse_number-decimal :
    (c : ℕ) (s : Bytes)
    → c ≢ b'0'
    → all is_decimal (c ∷ s) ≡ true
    → parse_number (c ∷ s) ≡ parse_digits true 10 0 (c ∷ s)
unfolding parse_number
parse_number-decimal c s h k = rw (no_underscore (c ∷ s) k, base_prefix-decimal c s h)

-- A 64-bit number written in decimal is read back under base 0.
pub parse_uint_any-format_uint : (n : ℕ) → n < u64_mod → parse_uint_any (format_uint n) ≡ some n
unfolding parse_uint_any format_uint
parse_uint_any-format_uint zero h = unfold parse_number decimal_digits fit in refl
parse_uint_any-format_uint (suc n) h =
    let (c, cs, e, ne) = decimal_digits-cons 19 (suc n) [] (omega arith) (omega arith) in
    let digits = all-decimal_digits 20 (suc n) [] refl in
    ap (λ s. fit u64_mod (parse_number s)) e
    ∙ ap (fit u64_mod) (
        parse_number-decimal c cs ne (rw e at digits)
        ∙ ap (parse_digits true 10 0) (sym e)
        ∙ parse-decimal_digits true 19 (suc n) [] (omega arith)
        ∙ unfold parse_digits in refl)
    ∙ unfold fit in rw (lt→ltb (suc n) u64_mod h)

-- A number is written in decimal digits only, and at least one.
pub all-format_uint : (n : ℕ) → all is_decimal (format_uint n) ≡ true
unfolding format_uint
all-format_uint n = all-decimal_digits 20 n [] refl

length-decimal_digits :
    (k f n : ℕ) (s : Bytes) → n < 10 ^ suc k → length (decimal_digits f n s) ≤ suc k + length s
unfolding decimal_digits
length-decimal_digits k zero n s h = omega arith
length-decimal_digits k (suc f) n s h = elim (Bool-cases (ltb n 10)) [
  | inl e ↦ rw e (omega arith)
  | inr e ↦
      rw e
        (shorter k h (ground arith) (λ j. length-decimal_digits j f (n / 10) ((b'0' + n % 10) ∷ s)))
]
  where
    shorter :
        (k : ℕ)
        → n < 10 ^ suc k
        → 10 ≤ n
        → ((j : ℕ)
            → n / 10 < 10 ^ suc j
            → length (decimal_digits f (n / 10) ((b'0' + n % 10) ∷ s))
              ≤ suc j + length ((b'0' + n % 10) ∷ s))
        → length (decimal_digits f (n / 10) ((b'0' + n % 10) ∷ s)) ≤ suc k + length s
    shorter zero h big ih = absurd (omega arith)
    shorter (suc j) h big ih = omega (arith, ih j (omega (arith, pow-suc 10 (suc j))))

length-decimal_digits_fuel : (f n : ℕ) (s : Bytes) → length (decimal_digits f n s) ≤ f + length s
unfolding decimal_digits
length-decimal_digits_fuel zero n s = omega arith
length-decimal_digits_fuel (suc f) n s =
    ground (arith, length-decimal_digits_fuel f (n / 10) ((b'0' + n % 10) ∷ s))

-- A decimal text has at most twenty digits, and at most nineteen up to 2^63.
pub length-format_uint : (n : ℕ) → length (format_uint n) ≤ 20
unfolding format_uint
length-format_uint n = omega (arith, length-decimal_digits_fuel 20 n [])

pub length-format_uint_half : (n : ℕ) → n ≤ 2 ^ 63 → length (format_uint n) ≤ 19
unfolding format_uint
length-format_uint_half n h = omega (arith, length-decimal_digits 18 20 n [] (omega arith))
