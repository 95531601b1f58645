-- ===== src/Record/Comment.antt =====
-- internal/record/decode.go: `commentBuf`, the pieces of a comment. A buffer is its bytes.
pub mod Lengths
use bpf_ninja.Base.{
  ℕ, zero, suc, ◌+◌, ◌-◌, ◌*◌, ◌/◌, ◌%◌, ◌^◌, Bool, true, false, [], ◌∷◌, ◌++◌, ltb, leb, ◌==◌,
  if◌then◌else◌, Bytes, codes,
}
use bpf_ninja.Go.Strconv.{format_uint}

-- `sep`: a space, unless the buffer is empty.
unfoldable pub sep : Bytes → Bytes
sep [] = []
sep (b ∷ c) = (b ∷ c) ++ b' ' ∷ []

-- `raw`
unfoldable pub raw : Bytes → Bytes → Bytes → Bytes
unfolding sep
raw c name rest = sep c ++ (name ++ rest)

-- `uint`
unfoldable pub uint : Bytes → Bytes → ℕ → Bytes
unfolding raw format_uint
uint c name v = raw c name (b'=' ∷ format_uint v)

-- A two's-complement number of `width` bits in decimal.
unfoldable pub signed_text : ℕ → ℕ → Bytes
unfolding format_uint
signed_text width v =
    if leb (2 ^ (width - 1)) (v % 2 ^ width)
    then b'-' ∷ format_uint (2 ^ width - v % 2 ^ width)
    else format_uint (v % 2 ^ width)

-- `int`, on the 64-bit pattern
unfoldable pub int : Bytes → Bytes → ℕ → Bytes
unfolding raw signed_text
int c name v = raw c name (b'=' ∷ signed_text 64 v)

abbrev pub hex_digit : ℕ → ℕ
hex_digit d = if ltb d 10 then b'0' + d else b'a' + (d - 10)

-- The last `n` hexadecimal digits of a number, in the order that they are written.
unfoldable pub hex_digits : ℕ → ℕ → Bytes
hex_digits zero v = []
hex_digits (suc n) v = hex_digit (v / 16 ^ n % 16) ∷ hex_digits n v

-- `word`
unfoldable pub word : Bytes → Bytes → ℕ → Bytes
unfolding raw hex_digits
word c name v = raw c name (codes "=0x" ++ hex_digits 16 v)

-- `hex.AppendEncode`
unfoldable pub hex_encode : Bytes → Bytes
hex_encode [] = []
hex_encode (b ∷ s) = hex_digit (b / 16 % 16) ∷ hex_digit (b % 16) ∷ hex_encode s

-- `hex`
unfoldable pub hex : Bytes → Bytes → Bytes → Bytes
unfolding raw hex_encode
hex c name bytes = raw c name (b'=' ∷ hex_encode bytes)

-- `bytesMarker`
unfoldable pub bytes_marker : Bytes → Bytes → ℕ → ℕ → Bytes
unfolding raw format_uint
bytes_marker c name len size =
    raw c name (codes "_bytes=" ++ (format_uint len ++ b'/' ∷ format_uint size))
