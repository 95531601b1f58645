-- ===== src/Go/Strconv.antt =====
-- The functions of Go's `strconv` that the program calls, on texts given as bytes.
pub mod Decimal
use bpf_ninja.Base.{
  ℕ, zero, suc, ◌+◌, ◌-◌, ◌*◌, ◌/◌, ◌%◌, ◌^◌, ◌<◌, Bool, true, false, not, ◌&&◌, ◌||◌, Option, none,
  some, [], ◌∷◌, ◌≡◌, arith, ltb, leb, ◌==◌, if◌then◌else◌, Bytes, any,
}

abbrev pub u64_mod : ℕ
u64_mod = 2 ^ 64

abbrev pub within : ℕ → ℕ → ℕ → Bool
within lo hi c = leb lo c && leb c hi

-- `c | ('x' - 'X')`
abbrev pub lower : ℕ → ℕ
lower c = if within b'A' b'Z' c then c + 32 else c

-- The value of a digit or letter, as `ParseUint` reads it.
unfoldable pub digit_value : ℕ → Option ℕ
digit_value c =
    if within b'0' b'9' c
    then some (c - b'0')
    else if within b'a' b'z' (lower c)
    then some (lower c - b'a' + 10)
    else none

-- The digits of a numeral in a base, after `acc`; `_` is passed over if `marks` is set.
unfoldable pub parse_digits : Bool → ℕ → ℕ → Bytes → Option ℕ
unfolding digit_value
parse_digits marks base acc [] = some acc
parse_digits marks base acc (c ∷ cs) =
    if marks && c == b'_' then parse_digits marks base acc cs else elim (digit_value c) [
      | none ↦ none
      | some d ↦ elim (ltb d base) [
        | true ↦ parse_digits marks base (acc * base + d) cs
        | false ↦ none
      ]
    ]

-- The base that a prefix names under base 0, and the text behind it.
abbrev pub base_prefix : Bytes → ℕ × Bytes
base_prefix (z ∷ p ∷ d ∷ s) =
    if z == b'0'
    then (if lower p == b'b'
        then (2, d ∷ s)
        else if lower p == b'o'
        then (8, d ∷ s)
        else if lower p == b'x'
        then (16, d ∷ s)
        else (8, p ∷ d ∷ s))
    else (10, z ∷ p ∷ d ∷ s)
base_prefix (z ∷ s) = if z == b'0' then (8, s) else (10, z ∷ s)
base_prefix [] = (10, [])

-- The last character that `underscoreOK` has seen.
pub data Seen : Type 0 where
  start digit underscore other : Seen

underscores : Bool → Seen → Bytes → Bool
underscores hex underscore [] = false
underscores hex _ [] = true
underscores hex seen (c ∷ cs) =
    if within b'0' b'9' c || hex && within b'a' b'f' (lower c)
    then underscores hex digit cs
    else if c == b'_'
    then elim seen [ digit ↦ underscores hex underscore cs | _ ↦ false ]
    else elim seen [ underscore ↦ false | _ ↦ underscores hex other cs ]

-- `underscoreOK`, on a text with no sign
underscore_ok : Bytes → Bool
unfolding underscores
underscore_ok (z ∷ p ∷ s) =
    if z == b'0' && (lower p == b'b' || (lower p == b'o' || lower p == b'x'))
    then underscores (lower p == b'x') digit s
    else underscores false start (z ∷ p ∷ s)
underscore_ok s = underscores false start s

-- The number that a text stands for under base 0, however large.
unfoldable pub parse_number : Bytes → Option ℕ
unfolding parse_digits underscore_ok
parse_number [] = none
parse_number (c ∷ cs) =
    let (base, s) = base_prefix (c ∷ cs) in
    let number = parse_digits true base 0 s in
    if any (λ d. d == b'_') (c ∷ cs) && not (underscore_ok (c ∷ cs)) then none else number

-- What does not fit a word is a range error.
unfoldable pub fit : ℕ → Option ℕ → Option ℕ
fit bound none = none
fit bound (some n) = if ltb n bound then some n else none

-- `strconv.ParseUint(s, 0, 64)`
unfoldable pub parse_uint_any : Bytes → Option ℕ
unfolding parse_number fit
parse_uint_any s = fit u64_mod (parse_number s)

-- `strconv.ParseUint(s, base, bits)` for a base other than 0
unfoldable pub parse_uint : ℕ → ℕ → Bytes → Option ℕ
unfolding parse_digits fit
parse_uint base bits [] = none
parse_uint base bits (c ∷ cs) = fit (2 ^ bits) (parse_digits false base 0 (c ∷ cs))

-- The 64-bit pattern of a negative number, down to -2^63.
unfoldable pub negated : Option ℕ → Option ℕ
negated none = none
negated (some n) = if leb n (2 ^ 63) then some ((u64_mod - n) % u64_mod) else none

-- A result of `fit` lies below its bound.
pub fit-lt : (bound : ℕ) (o : Option ℕ) {n : ℕ} → fit bound o ≡ some n → n < bound
unfolding fit
fit-lt bound none e = ground arith
fit-lt bound (some m) e = ground arith

pub fit-some : (bound : ℕ) (o : Option ℕ) {n : ℕ} → fit bound o ≡ some n → o ≡ some n
unfolding fit
fit-some bound none e = ground arith
fit-some bound (some m) e = ground arith

pub negated-lt : (o : Option ℕ) {n : ℕ} → negated o ≡ some n → n < u64_mod
unfolding negated
negated-lt none e = ground arith
negated-lt (some m) e = ground arith

-- The decimal text of a number, in the order that it is written; `fuel` bounds its digits.
unfoldable pub decimal_digits : ℕ → ℕ → Bytes → Bytes
decimal_digits zero n acc = acc
decimal_digits (suc f) n acc =
    let rest = decimal_digits f (n / 10) ((b'0' + n % 10) ∷ acc) in
    if ltb n 10 then (b'0' + n) ∷ acc else rest

pub parse_uint-lt :
    (base bits : ℕ) (s : Bytes) {n : ℕ} → parse_uint base bits s ≡ some n → n < 2 ^ bits
unfolding parse_uint
parse_uint-lt base bits [] e = ground arith
parse_uint-lt base bits (c ∷ cs) e = fit-lt (2 ^ bits) (parse_digits false base 0 (c ∷ cs)) e

-- `strconv.FormatUint(n, 10)`: twenty digits hold any 64-bit number.
unfoldable pub format_uint : ℕ → Bytes
unfolding decimal_digits
format_uint n = decimal_digits 20 n []
