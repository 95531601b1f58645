-- ===== src/Kunai/Lexer/Literals/Valid.antt =====
-- What the literals that pkg/kunai/lexer/scanvalue.go accepts hold.
use mathlib.Core.Path.{subst}
use bpf_ninja.Base.{
  ℕ, suc, ◌+◌, ◌/◌, ◌<◌, ◌≤◌, ◌≡◌, refl, arith, Bool, true, false, ◌&&◌, not, Option, none, some,
  List, [], ◌∷◌, ltb, ◌==◌, Bytes, length, length-append, inl, inr, Bool-cases, Option-cases, ap,
  sym, same_bytes, same_bytes_iff, length-drop,
}
use bpf_ninja.Go.Strconv.{
  u64_mod, parse_uint_any, parse_uint, parse_uint-lt, parse_number, fit-lt, negated, negated-lt,
}
use bpf_ninja.Go.Strings.{contains, count, split, length-split, cut_dots}
use bpf_ninja.Go.Net.{Addr, v4, v6, parse_ip, parse_cidr, mask, bits}
use bpf_ninja.Go.Net.Widths.{AllBytes, HasWidth, parse_ip-HasWidth, parse_cidr-HasWidth}
use bpf_ninja.Kunai.Ast.{Literal}
use bpf_ninja.Kunai.Lexer.State.{is_hex_char}
use bpf_ninja.Kunai.Lexer.Literals.{
  Classified, accepted, refused, ordered_range, build_range, network, cidr_or_error, build_cidr,
  to4, to16, quad, build_ipv4, hextets, build_ipv6, octets, build_mac, int_or_error, build_int,
  classify_single, classify_value, is_mac_shape, is_integer_literal, is_ident_literal,
  mapped_prefix, mac_bytes,
}

-- What each kind of literal promises to the resolver: numbers of 64 bits, a range that is not
-- empty, addresses of their width, and prefixes with no host bit set. The MAC of a run without the
-- shape of one never comes up.
abbrev pub IsValidLiteral : Literal → Type 0
IsValidLiteral (Literal.int n negative) = n < u64_mod
IsValidLiteral (Literal.ipv4 ip) = length ip ≡ 4
IsValidLiteral (Literal.ipv6 ip) = length ip ≡ 16
IsValidLiteral (Literal.mac mac) = (length mac ≡ 6) × AllBytes mac
IsValidLiteral (Literal.cidr4 ip n) = (length ip ≡ 4) × (n ≤ 32) × (mask n ip ≡ ip)
IsValidLiteral (Literal.cidr6 ip n) = (length ip ≡ 16) × (n ≤ 128) × (mask n ip ≡ ip)
IsValidLiteral (Literal.range lo hi) = (lo ≤ hi) × (hi < u64_mod)
IsValidLiteral (Literal.ident text) = is_ident_literal text ≡ true

abbrev pub IsValid : Classified → Type 0
IsValid (refused why) = Unit {0}
IsValid (accepted v) = IsValidLiteral v

ordered_range-IsValid : (lo hi : ℕ) → hi < u64_mod → IsValid (ordered_range lo hi)
unfolding ordered_range
ordered_range-IsValid lo hi h = elim (Bool-cases (ltb hi lo)) [
  | inl e ↦ rw e tt
  | inr e ↦ rw e (ground arith, h)
]

pub parse_uint_any-lt : (s : Bytes) {n : ℕ} → parse_uint_any s ≡ some n → n < u64_mod
unfolding parse_uint_any
parse_uint_any-lt s e = fit-lt u64_mod (parse_number s) e

build_range-IsValid : (lo hi : Bytes) → IsValid (build_range lo hi)
unfolding build_range
build_range-IsValid [] hi = tt
build_range-IsValid (b ∷ lo) [] = tt
build_range-IsValid (b ∷ lo) (c ∷ hi) = elim (Option-cases (parse_uint_any (b ∷ lo))) [
  | inl e ↦ rw (e, build_range) tt
  | inr (x, e) ↦ elim (Option-cases (parse_uint_any (c ∷ hi))) [
    | inl f ↦ rw (e, f, build_range) tt
    | inr (y, f) ↦ rw (e, f, build_range) (ordered_range-IsValid x y (parse_uint_any-lt (c ∷ hi) f))
  ]
]

network-IsValid : (a : Addr) (n : ℕ) → HasWidth a → n ≤ bits a → IsValid (network a n)
unfolding network
network-IsValid (v4 ip) n w h = elim (Bool-cases (same_bytes ip (mask n ip))) [
  | inl e ↦
      rw (e, sym ((same_bytes_iff ip (mask n ip)).0 e))
        (w.0, h, sym ((same_bytes_iff ip (mask n ip)).0 e))
  | inr e ↦ rw e tt
]
network-IsValid (v6 ip) n w h = elim (Bool-cases (same_bytes ip (mask n ip))) [
  | inl e ↦
      rw (e, sym ((same_bytes_iff ip (mask n ip)).0 e))
        (w, h, sym ((same_bytes_iff ip (mask n ip)).0 e))
  | inr e ↦ rw e tt
]

cidr_or_error-IsValid :
    (o : Option (Addr × ℕ))
    → ((a : Addr) (n : ℕ) → o ≡ some (a, n) → HasWidth a × (n ≤ bits a))
    → IsValid (cidr_or_error o)
unfolding cidr_or_error
cidr_or_error-IsValid none h = tt
cidr_or_error-IsValid (some (a, n)) h = network-IsValid a n (h a n refl).0 (h a n refl).1

build_cidr-IsValid : (raw : Bytes) → IsValid (build_cidr raw)
unfolding build_cidr
build_cidr-IsValid raw = cidr_or_error-IsValid (parse_cidr raw) (λ a n e. parse_cidr-HasWidth raw e)

to4-width : (a : Addr) {ip : Bytes} → HasWidth a → to4 a ≡ some ip → length ip ≡ 4
unfolding to4
to4-width (v4 q) w e = ground arith
to4-width (v6 q) w e = ground (arith, length-drop 12 q)

quad-IsValid : (o : Option Addr) → ((a : Addr) → o ≡ some a → HasWidth a) → IsValid (quad o)
unfolding quad
quad-IsValid none h = tt
quad-IsValid (some a) h = elim (Option-cases (to4 a)) [
  | inl e ↦ rw (e, quad) tt
  | inr (ip, e) ↦ rw (e, quad) (to4-width a (h a refl) e)
]

to16-width : (a : Addr) → HasWidth a → length (to16 a) ≡ 16
unfolding to16
to16-width (v4 q) w = ground (arith, length-append mapped_prefix q)
to16-width (v6 q) w = w

hextets-IsValid : (o : Option Addr) → ((a : Addr) → o ≡ some a → HasWidth a) → IsValid (hextets o)
unfolding hextets
hextets-IsValid none h = tt
hextets-IsValid (some a) h = to16-width a (h a refl)

int_or_error-IsValid :
    (negative : Bool) (o : Option ℕ)
    → ((n : ℕ) → o ≡ some n → n < u64_mod)
    → IsValid (int_or_error negative o)
unfolding int_or_error
int_or_error-IsValid negative none h = tt
int_or_error-IsValid negative (some n) h = h n refl

build_int-IsValid : (raw : Bytes) → IsValid (build_int raw)
unfolding build_int
build_int-IsValid [] = tt
build_int-IsValid (b ∷ s) = elim (Bool-cases (b == b'-')) [
  | inl e ↦
      rw e (int_or_error-IsValid true (negated (parse_number s)) (λ n. negated-lt (parse_number s)))
  | inr e ↦
      rw e (int_or_error-IsValid false (parse_uint_any (b ∷ s)) (λ n. parse_uint_any-lt (b ∷ s)))
]

-- A MAC's octets.
octets-width :
    (parts : List Bytes) {mac : Bytes}
    → octets parts ≡ some mac
    → (length mac ≡ length parts) × AllBytes mac
unfolding octets
octets-width [] e = ground arith
octets-width (p ∷ parts) {mac} e = elim (Option-cases (parse_uint 16 8 p)) [
  | inl f ↦ cc (rw (f, octets) at e)
  | inr (n, f) ↦ elim (Option-cases (octets parts)) [
    | inl g ↦ cc (rw (f, g, octets) at e)
    | inr (ns, g) ↦
        let whole : n ∷ ns ≡ mac = cc (rw (f, g, octets) at e) in
        let (w, b) = octets-width parts g in
        subst (λ m. (length m ≡ suc (length parts)) × AllBytes m) whole
          (ap suc w, (parse_uint-lt 16 8 p f, b))
  ]
]

colon-hex : (b : ℕ) → is_hex_char b ≡ true → (b == b':') ≡ false
unfolding is_hex_char
colon-hex b h = ground arith

-- The colons of a MAC's shape: one in three bytes.
count-mac_bytes :
    (i : ℕ) (s : Bytes) → mac_bytes i s ≡ true → count b':' s + i / 3 ≡ (i + length s) / 3
unfolding mac_bytes
count-mac_bytes i [] h = omega arith
count-mac_bytes i (b ∷ s) h = ground (arith, count-mac_bytes (i + 1) s, colon-hex b)

build_mac-IsValid : (raw : Bytes) → is_mac_shape raw ≡ true → IsValid (build_mac raw)
unfolding build_mac is_mac_shape
build_mac-IsValid raw h = elim (Option-cases (octets (split b':' raw))) [
  | inl e ↦ rw (e, build_mac) tt
  | inr (mac, e) ↦
      let (w, b) = octets-width (split b':' raw) e in
      rw (e, build_mac)
        (omega (arith, w, length-split b':' raw, count-mac_bytes 0 raw (ground arith), size), b)
]
  where
    size : length raw ≡ 17
    size = ground arith

build_ipv4-IsValid : (raw : Bytes) → IsValid (build_ipv4 raw)
unfolding build_ipv4
build_ipv4-IsValid raw = quad-IsValid (parse_ip raw) (λ a. parse_ip-HasWidth raw)

build_ipv6-IsValid : (raw : Bytes) → IsValid (build_ipv6 raw)
unfolding build_ipv6
build_ipv6-IsValid raw = hextets-IsValid (parse_ip raw) (λ a. parse_ip-HasWidth raw)

classify_single-IsValid : (raw : Bytes) → IsValid (classify_single raw)
unfolding classify_single
classify_single-IsValid raw = elim (Bool-cases (contains raw b'/')) [
  | inl a ↦ rw a (build_cidr-IsValid raw)
  | inr a ↦ elim (Bool-cases (count b'.' raw == 3 && not (contains raw b':'))) [
    | inl b ↦ rw (a, b) (build_ipv4-IsValid raw)
    | inr b ↦ elim (Bool-cases (contains raw b':')) [
      | inl c ↦ elim (Bool-cases (is_mac_shape raw)) [
        | inl d ↦ rw (a, b, c, d) (build_mac-IsValid raw d)
        | inr d ↦ rw (a, b, c, d) (build_ipv6-IsValid raw)
      ]
      | inr c ↦ elim (Bool-cases (is_integer_literal raw)) [
        | inl d ↦ rw (a, b, c, d) (build_int-IsValid raw)
        | inr d ↦ elim (Bool-cases (is_ident_literal raw)) [
          | inl e ↦ rw (a, b, c, d, e) e
          | inr e ↦ rw (a, b, c, d, e) tt
        ]
      ]
    ]
  ]
]

-- Every literal that `classifyValue` accepts is well formed: an integer and a range fit 64 bits, a
-- range is in order, addresses and MACs have their number of bytes, a prefix is no longer than its
-- address and has no host bit set, and an identifier has an identifier's shape.
pub classify_value-IsValid : (raw : Bytes) → IsValid (classify_value raw)
unfolding classify_value
classify_value-IsValid [] = tt
classify_value-IsValid (b ∷ s) = elim (Option-cases (cut_dots (b ∷ s))) [
  | inl e ↦ rw (e, classify_value) (classify_single-IsValid (b ∷ s))
  | inr ((lo, hi), e) ↦ rw (e, classify_value) (build_range-IsValid lo hi)
]
