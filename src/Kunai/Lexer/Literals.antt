-- ===== src/Kunai/Lexer/Literals.antt =====
-- pkg/kunai/lexer/scanvalue.go: the classification of a run of value bytes.
pub mod Valid
use bpf_ninja.Base.{
  ℕ, ◌+◌, ◌%◌, Bool, true, false, not, ◌&&◌, ◌||◌, Option, none, some, List, [], ◌∷◌, ltb, ◌==◌,
  ◌++◌, if◌then◌else◌, Bytes, length, all, same_bytes, codes, drop,
}
use bpf_ninja.Go.Strconv.{parse_uint_any, parse_uint, parse_number, negated}
use bpf_ninja.Go.Strings.{has_prefix, contains, count, split, cut_dots}
use bpf_ninja.Go.Net.{Addr, v4, v6, parse_ip, parse_cidr, mask}
use bpf_ninja.Kunai.Ast.{Literal}
use bpf_ninja.Kunai.Lexer.Token.{ValueError}
use bpf_ninja.Kunai.Lexer.State.{is_ident_start, is_ident_cont, is_digit, is_hex_char}

-- A literal, or why there is none.
pub data Classified : Type 0 where
  accepted : Literal → Classified
  refused : ValueError → Classified

-- `isMACShape`: 17 bytes, every third a colon and the others hexadecimal digits; `i` is the index.
mac_bytes : ℕ → Bytes → Bool
unfolding is_hex_char
mac_bytes i [] = true
mac_bytes i (b ∷ s) =
    let later = mac_bytes (i + 1) s in
    if (i + 1) % 3 == 0 then b == b':' && later else is_hex_char b && later

unfoldable pub is_mac_shape : Bytes → Bool
unfolding mac_bytes
is_mac_shape s = length s == 17 && mac_bytes 0 s

unsigned_literal : Bytes → Bool
unfolding has_prefix is_hex_char is_digit
unsigned_literal s =
    if has_prefix s (codes "0x") || has_prefix s (codes "0X")
    then not (length s == 2) && all is_hex_char (drop 2 s)
    else all is_digit s

-- `isIntegerLiteral`
unfoldable pub is_integer_literal : Bytes → Bool
unfolding unsigned_literal
is_integer_literal [] = false
is_integer_literal (b ∷ s) =
    if b == b'-' then not (length s == 0) && unsigned_literal s else unsigned_literal (b ∷ s)

-- `isIdentLiteral`
unfoldable pub is_ident_literal : Bytes → Bool
unfolding is_ident_start is_ident_cont
is_ident_literal [] = false
is_ident_literal (b ∷ s) = is_ident_start b && all is_ident_cont s

ordered_range : ℕ → ℕ → Classified
ordered_range lo hi =
    if ltb hi lo then refused ValueError.range_reversed else accepted (Literal.range lo hi)

-- `buildRange`
unfoldable pub build_range : Bytes → Bytes → Classified
unfolding parse_uint_any ordered_range
build_range [] _ = refused ValueError.range_empty_side
build_range _ [] = refused ValueError.range_empty_side
build_range lo hi = elim (parse_uint_any lo) [
  | none ↦ refused ValueError.range_lower
  | some a ↦ elim (parse_uint_any hi) [
    | none ↦ refused ValueError.range_upper
    | some b ↦ ordered_range a b
  ]
]

-- The prefix, if no bit of the host part is set.
network : Addr → ℕ → Classified
unfolding mask same_bytes
network (v4 ip) n =
    if same_bytes ip (mask n ip)
    then accepted (Literal.cidr4 (mask n ip) n)
    else refused ValueError.host_bits_set
network (v6 ip) n =
    if same_bytes ip (mask n ip)
    then accepted (Literal.cidr6 (mask n ip) n)
    else refused ValueError.host_bits_set

cidr_or_error : Option (Addr × ℕ) → Classified
unfolding network
cidr_or_error none = refused ValueError.cidr_invalid
cidr_or_error (some (a, n)) = network a n

-- `buildCIDR`
unfoldable pub build_cidr : Bytes → Classified
unfolding parse_cidr cidr_or_error
build_cidr raw = cidr_or_error (parse_cidr raw)

-- `To4` and `To16` of a parsed address.
mapped_prefix : Bytes
mapped_prefix = 0 ∷ 0 ∷ 0 ∷ 0 ∷ 0 ∷ 0 ∷ 0 ∷ 0 ∷ 0 ∷ 0 ∷ 255 ∷ 255 ∷ []

to4 : Addr → Option Bytes
unfolding has_prefix mapped_prefix
to4 (v4 ip) = some ip
to4 (v6 ip) = if has_prefix ip mapped_prefix then some (drop 12 ip) else none

to16 : Addr → Bytes
unfolding mapped_prefix
to16 (v4 ip) = mapped_prefix ++ ip
to16 (v6 ip) = ip

quad : Option Addr → Classified
unfolding to4
quad none = refused ValueError.ipv4_invalid
quad (some a) = elim (to4 a) [
  | none ↦ refused ValueError.ipv4_invalid
  | some ip ↦ accepted (Literal.ipv4 ip)
]

-- `buildIPv4`
unfoldable pub build_ipv4 : Bytes → Classified
unfolding parse_ip quad
build_ipv4 raw = quad (parse_ip raw)

hextets : Option Addr → Classified
unfolding to16
hextets none = refused ValueError.ipv6_invalid
hextets (some a) = accepted (Literal.ipv6 (to16 a))

-- `buildIPv6`
unfoldable pub build_ipv6 : Bytes → Classified
unfolding parse_ip hextets
build_ipv6 raw = hextets (parse_ip raw)

octets : List Bytes → Option Bytes
unfolding parse_uint
octets [] = some []
octets (part ∷ parts) = elim (parse_uint 16 8 part) [
  | none ↦ none
  | some n ↦ elim (octets parts) [ none ↦ none | some ns ↦ some (n ∷ ns) ]
]

-- `buildMAC`
unfoldable pub build_mac : Bytes → Classified
unfolding octets split
build_mac raw = elim (octets (split b':' raw)) [
  | none ↦ refused ValueError.mac_octet
  | some mac ↦ accepted (Literal.mac mac)
]

int_or_error : Bool → Option ℕ → Classified
int_or_error negative none = refused ValueError.int_invalid
int_or_error negative (some n) = accepted (Literal.int n negative)

-- `buildInt`
unfoldable pub build_int : Bytes → Classified
unfolding int_or_error parse_uint_any parse_number negated
build_int [] = refused ValueError.int_invalid
build_int (b ∷ s) =
    if b == b'-'
    then int_or_error true (negated (parse_number s))
    else int_or_error false (parse_uint_any (b ∷ s))

-- `classifyValue` on a text with no `..`
classify_single : Bytes → Classified
unfolding build_cidr build_ipv4 build_mac build_ipv6 build_int is_mac_shape is_integer_literal
    is_ident_literal
classify_single raw =
    if contains raw b'/'
    then build_cidr raw
    else if count b'.' raw == 3 && not (contains raw b':')
    then build_ipv4 raw
    else if contains raw b':'
    then (if is_mac_shape raw then build_mac raw else build_ipv6 raw)
    else if is_integer_literal raw
    then build_int raw
    else if is_ident_literal raw
    then accepted (Literal.ident raw)
    else refused ValueError.unrecognized

-- `classifyValue`
unfoldable pub classify_value : Bytes → Classified
unfolding classify_single build_range cut_dots
classify_value [] = refused ValueError.empty_value
classify_value (b ∷ s) = elim (cut_dots (b ∷ s)) [
  | some (lo, hi) ↦ build_range lo hi
  | none ↦ classify_single (b ∷ s)
]
