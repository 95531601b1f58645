-- ===== src/Output/Fields.antt =====
-- Little-endian fields and padding, as encoding/binary and the slices of internal/output give them.
use bpf_ninja.Base.{
  ℕ, zero, suc, ◌+◌, ◌*◌, ◌/◌, ◌%◌, ◌<◌, ◌≤◌, ◌≡◌, refl, ap, arith, List, [], ◌∷◌, ◌++◌, Bytes,
  take, drop, length,
}
use bpf_ninja.Record.Sink.{le_value}

-- `binary.LittleEndian.PutUint`, of a number of `w` bytes
abbrev pub le_bytes : ℕ → ℕ → Bytes
le_bytes zero n = []
le_bytes (suc w) n = n % 256 ∷ le_bytes w (n / 256)

-- `(n + 3) &^ 3`
abbrev pub pad4 : ℕ → ℕ
pad4 n = (n + 3) / 4 * 4

-- `epbZeroPad[:n]`
abbrev pub zero_pad : ℕ → Bytes
zero_pad n = take n (0 ∷ 0 ∷ 0 ∷ [])

pub le_value-le_bytes2 : (n : ℕ) → n < 65536 → le_value (le_bytes 2 n) ≡ n
le_value-le_bytes2 n h = omega arith

pub le_value-le_bytes4 : (n : ℕ) → n < 4294967296 → le_value (le_bytes 4 n) ≡ n
le_value-le_bytes4 n h = omega arith

pub le_value-le_bytes8 : (n : ℕ) → n < 18446744073709551616 → le_value (le_bytes 8 n) ≡ n
le_value-le_bytes8 n h = omega arith

pub length-zero_pad : (n : ℕ) → n ≤ 3 → length (zero_pad n) ≡ n
length-zero_pad zero h = refl
length-zero_pad (suc zero) h = refl
length-zero_pad (suc (suc zero)) h = refl
length-zero_pad (suc (suc (suc zero))) h = refl
length-zero_pad (suc (suc (suc (suc n)))) h = absurd (omega arith)

module _ {ℓ} {A : Type ℓ} where
  pub drop-append : (xs ys : List A) (n : ℕ) → length xs ≡ n → drop n (xs ++ ys) ≡ ys
  drop-append [] ys zero e = refl
  drop-append [] ys (suc n) e = absurd (omega arith)
  drop-append (x ∷ xs) ys zero e = absurd (omega arith)
  drop-append (x ∷ xs) ys (suc n) e = drop-append xs ys n (omega arith)

  pub take-append : (xs ys : List A) (n : ℕ) → length xs ≡ n → take n (xs ++ ys) ≡ xs
  take-append [] ys zero e = refl
  take-append [] ys (suc n) e = absurd (omega arith)
  take-append (x ∷ xs) ys zero e = absurd (omega arith)
  take-append (x ∷ xs) ys (suc n) e = ap (◌∷◌ x) (take-append xs ys n (omega arith))
