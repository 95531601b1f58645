-- ===== src/Record/Comment/Lengths.antt =====
-- How long the pieces of a comment of internal/record/decode.go are.
use native.Mathlib.Nat.{pow-le-pow_right, pow-suc}
use bpf_ninja.Base.{
  ℕ, zero, suc, ◌+◌, ◌-◌, ◌*◌, ◌%◌, ◌^◌, ◌≤◌, ◌≡◌, refl, ap, [], ◌∷◌, ◌++◌, leb, ◌==◌,
  if◌then◌else◌, Bytes, codes, length, length-append, arith, Bool-cases, inl, inr,
}
use bpf_ninja.Go.Strconv.{format_uint}
use bpf_ninja.Go.Strconv.Decimal.{length-format_uint, length-format_uint_half}
use bpf_ninja.Record.Comment.{
  sep, raw, uint, signed_text, int, hex_digits, word, hex_encode, hex, bytes_marker,
}

-- The length of a buffer with a separator behind it, if it is not empty.
abbrev pub opened : Bytes → ℕ
opened c = length c + (if length c == 0 then 0 else 1)

length-sep : (c : Bytes) → length (sep c) ≡ opened c
unfolding sep
length-sep [] = refl
length-sep (b ∷ c) = ground (arith, length-append (b ∷ c) (b' ' ∷ []))

pub length-raw :
    (c name rest : Bytes) → length (raw c name rest) ≡ opened c + length name + length rest
unfolding raw
length-raw c name rest =
    omega (arith, length-append (sep c) (name ++ rest), length-append name rest, length-sep c)

pub length-uint :
    (c name : Bytes) (v : ℕ) → length (uint c name v) ≤ opened c + length name + 1 + 20
unfolding uint
length-uint c name v = omega (arith, length-raw c name (b'=' ∷ format_uint v), length-format_uint v)

half : (k : ℕ) → k ≤ 63 → 2 ^ k ≤ 2 ^ 63
half k h = pow-le-pow_right (omega arith) h

-- The sign and the digits of a number of up to 64 bits.
pub length-signed_text : (width v : ℕ) → width ≤ 64 → length (signed_text width v) ≤ 20
unfolding signed_text
length-signed_text zero v h = ground (arith, length-format_uint (v % 2 ^ 0))
length-signed_text (suc k) v h = elim (Bool-cases (leb (2 ^ (suc k - 1)) (v % 2 ^ suc k))) [
  | inl e ↦
      rw e
        (omega (arith, length-format_uint_half (2 ^ suc k - v % 2 ^ suc k) (small (ground arith))))
  | inr e ↦ rw e (length-format_uint (v % 2 ^ suc k))
]
  where
    same : 2 ^ (suc k - 1) ≡ 2 ^ k
    same = ap (λ j. 2 ^ j) (omega arith)

    small : 2 ^ (suc k - 1) ≤ v % 2 ^ suc k → 2 ^ suc k - v % 2 ^ suc k ≤ 2 ^ 63
    small big = omega (arith, same, pow-suc 2 k, half k (omega arith))

pub length-int : (c name : Bytes) (v : ℕ) → length (int c name v) ≤ opened c + length name + 1 + 20
unfolding int
length-int c name v =
    omega
      (arith, length-raw c name (b'=' ∷ signed_text 64 v), length-signed_text 64 v (omega arith))

length-hex_digits : (n v : ℕ) → length (hex_digits n v) ≡ n
unfolding hex_digits
length-hex_digits zero v = refl
length-hex_digits (suc n) v = ap suc (length-hex_digits n v)

pub length-word : (c name : Bytes) (v : ℕ) → length (word c name v) ≡ opened c + length name + 19
unfolding word
length-word c name v =
    omega (arith, length-raw c name (codes "=0x" ++ hex_digits 16 v), length-hex_digits 16 v)

length-hex_encode : (s : Bytes) → length (hex_encode s) ≡ 2 * length s
unfolding hex_encode
length-hex_encode [] = refl
length-hex_encode (b ∷ s) = omega (arith, length-hex_encode s)

pub length-hex :
    (c name bytes : Bytes)
    → length (hex c name bytes) ≡ opened c + length name + 1 + 2 * length bytes
unfolding hex
length-hex c name bytes =
    omega (arith, length-raw c name (b'=' ∷ hex_encode bytes), length-hex_encode bytes)

pub length-bytes_marker :
    (c name : Bytes) (len size : ℕ)
    → length (bytes_marker c name len size) ≤ opened c + length name + 7 + 2 * 20 + 1
unfolding bytes_marker
length-bytes_marker c name len size = omega (
  arith,
  length-raw c name (codes "_bytes=" ++ (format_uint len ++ b'/' ∷ format_uint size)),
  length-append (format_uint len) (b'/' ∷ format_uint size),
  length-format_uint len,
  length-format_uint size,
)
