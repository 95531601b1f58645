-- ===== src/Go/Net.antt =====
-- IP addresses and prefixes in text form: `net.ParseIP` and `net.ParseCIDR` of Go's `net`, on
-- addresses with no zone (both refuse a zone).
pub mod Widths
use bpf_ninja.Base.{
  ℕ, zero, suc, ◌+◌, ◌-◌, ◌*◌, ◌/◌, ◌%◌, ◌^◌, ◌≤◌, ◌≡◌, refl, arith, Bool, true, false, ◌&&◌, ◌||◌,
  Option, none, some, [], ◌∷◌, ◌++◌, ltb, leb, ◌==◌, if◌then◌else◌, Bytes, length, take, drop,
  codes,
}
use bpf_ninja.Go.Strconv.{digit_value, within, lower}

-- `netip.Addr` with its 4 or 16 bytes.
pub data Addr : Type 0 where
  v4 v6 : Bytes → Addr

is_digit : ℕ → Bool
is_digit c = within b'0' b'9' c

is_hex : ℕ → Bool
is_hex c = within b'0' b'9' c || within b'a' b'f' (lower c)

-- `parseIPv4Fields`: the value of the field at hand, its digits, and the fields behind it.
ipv4_fields : ℕ → ℕ → Bytes → Bytes → Option Bytes
unfolding is_digit
ipv4_fields val digits fields [] =
    if digits == 0 then none else if length fields == 3 then some (fields ++ val ∷ []) else none
ipv4_fields val digits fields (c ∷ s) =
    if is_digit c
    then (if digits == 1 && val == 0 then none else elim (ltb 255 (val * 10 + (c - b'0'))) [
      | true ↦ none
      | false ↦ ipv4_fields (val * 10 + (c - b'0')) (digits + 1) fields s
    ])
    else if c == b'.'
    then (if digits == 0 || length fields == 3 then none else elim (length fields == 3) [
      | true ↦ none
      | false ↦ ipv4_fields 0 0 (fields ++ val ∷ []) s
    ])
    else none

parse_ipv4 : Bytes → Option Bytes
unfolding ipv4_fields
parse_ipv4 s = ipv4_fields 0 0 [] s

-- The hexadecimal digits that a text begins with.
hex_run : Bytes → ℕ
unfolding is_hex
hex_run [] = 0
hex_run (c ∷ s) = if is_hex c then suc (hex_run s) else 0

hex_value : ℕ → Bytes → ℕ
unfolding digit_value
hex_value acc [] = acc
hex_value acc (c ∷ s) = hex_value (elim (digit_value c) [ some d ↦ acc * 16 + d | none ↦ acc ]) s

zeros : ℕ → Bytes
zeros zero = []
zeros (suc n) = 0 ∷ zeros n

-- The bytes read, with the place of `::` among them filled up.
expand : Option ℕ → Bytes → Bytes → Option Bytes
unfolding zeros
expand gap ip (_ ∷ _) = none
expand none ip [] = if length ip == 16 then some ip else none
expand (some e) ip [] =
    if ltb (length ip) 16 then some (take e ip ++ (zeros (16 - length ip) ++ drop e ip)) else none

-- The closing four bytes in dotted form replace the last two groups.
dotted_tail : Option ℕ → Bytes → Option Bytes → Option Bytes
unfolding expand
dotted_tail gap ip none = none
dotted_tail none ip (some quad) = if length ip == 12 then expand none (ip ++ quad) [] else none
dotted_tail (some e) ip (some quad) =
    if leb (length ip) 12 then expand (some e) (ip ++ quad) [] else none

-- Behind `::`: the text may end, or go on with a group.
compressed : (Option ℕ → Bytes → Option Bytes) → Bytes → Bytes → Option Bytes
unfolding expand
compressed go_on ip [] = expand (some (length ip)) ip []
compressed go_on ip (x ∷ w) = go_on (some (length ip)) (x ∷ w)

-- Behind a colon that follows a group; a second `::` is refused.
behind_colon : (Option ℕ → Bytes → Option Bytes) → Option ℕ → Bytes → Bytes → Option Bytes
unfolding compressed
behind_colon go_on gap ip [] = none
behind_colon go_on none ip (d ∷ u) = if d == b':' then compressed go_on ip u else go_on none (d ∷ u)
behind_colon go_on (some e) ip (d ∷ u) = if d == b':' then none else go_on (some e) (d ∷ u)

-- Behind the hexadecimal digits of a group, which stand at the front of `s`; `ip'` has the group.
behind_group :
    (Option ℕ → Bytes → Option Bytes) → Option ℕ → Bytes → Bytes → Bytes → Bytes → Option Bytes
unfolding expand dotted_tail parse_ipv4 behind_colon
behind_group go_on gap ip ip' s [] = expand gap ip' []
behind_group go_on gap ip ip' s (c ∷ t) =
    if c == b'.'
    then dotted_tail gap ip (parse_ipv4 s)
    else if c == b':'
    then behind_colon go_on gap ip' t
    else none

-- The loop of `parseIPv6`; each round reads two bytes or the closing four, so eight rounds are all.
ipv6_groups : ℕ → Option ℕ → Bytes → Bytes → Option Bytes
unfolding hex_run hex_value expand behind_group
ipv6_groups zero gap ip s = expand gap ip s
ipv6_groups (suc f) gap ip s =
    let n = hex_run s in
    let group = hex_value 0 (take n s) in
    let ip' = ip ++ (group / 256) ∷ (group % 256) ∷ [] in
    if n == 0 || ltb 4 n
    then none
    else behind_group (λ g t. ipv6_groups f g ip' t) gap ip ip' s (drop n s)

parse_ipv6 : Bytes → Option Bytes
unfolding ipv6_groups
parse_ipv6 (c ∷ d ∷ s) =
    if c == b':' && d == b':'
    then elim s [ [] ↦ expand (some 0) [] [] | x ∷ t ↦ ipv6_groups 8 (some 0) [] (x ∷ t) ]
    else ipv6_groups 8 none [] (c ∷ d ∷ s)
parse_ipv6 s = ipv6_groups 8 none [] s

as_v4 : Option Bytes → Option Addr
as_v4 none = none
as_v4 (some b) = some (v4 b)

as_v6 : Option Bytes → Option Addr
as_v6 none = none
as_v6 (some b) = some (v6 b)

-- `netip.ParseAddr`: the first `.`, `:` or `%` decides the form.
addr_form : Bytes → Bytes → Option Addr
unfolding parse_ipv4 parse_ipv6 as_v4 as_v6
addr_form whole [] = none
addr_form whole (c ∷ s) =
    if c == b'.'
    then as_v4 (parse_ipv4 whole)
    else if c == b':'
    then as_v6 (parse_ipv6 whole)
    else if c == b'%'
    then none
    else addr_form whole s

-- `net.ParseIP`
unfoldable pub parse_ip : Bytes → Option Addr
unfolding addr_form
parse_ip s = addr_form s s

-- `dtoi` on the text behind the slash, which must be digits throughout.
prefix_length : ℕ → Bytes → Option ℕ
unfolding is_digit
prefix_length n [] = some n
prefix_length n (c ∷ s) =
    if is_digit c
    then elim (ltb (n * 10 + (c - b'0')) 0xffffff) [
      | true ↦ prefix_length (n * 10 + (c - b'0')) s
      | false ↦ none
    ]
    else none

-- What stands before and behind the first slash.
cut_slash : Bytes → Option (Bytes × Bytes)
cut_slash [] = none
cut_slash (c ∷ s) =
    let later : Option (Bytes × Bytes) = elim (cut_slash s) [
      | some (a, b) ↦ some (c ∷ a, b)
      | none ↦ none
    ] in
    if c == b'/' then some ([], s) else later

-- The first `n` bits of an address, the others cleared: `ip & CIDRMask(n)`.
unfoldable pub mask : ℕ → Bytes → Bytes
mask n [] = []
mask n (b ∷ ip) = (if leb 8 n then b else b / 2 ^ (8 - n) * 2 ^ (8 - n)) ∷ mask (n - 8) ip

bounded : ℕ → Addr → Option ℕ → Option (Addr × ℕ)
bounded bits a none = none
bounded bits a (some n) = if leb n bits then some (a, n) else none

-- The prefix length with its address, if it is within the address's bits.
with_prefix : Bytes → Option Addr → Option (Addr × ℕ)
unfolding bounded prefix_length
with_prefix [] a = none
with_prefix m none = none
with_prefix m (some (v4 ip)) = bounded 32 (v4 ip) (prefix_length 0 m)
with_prefix m (some (v6 ip)) = bounded 128 (v6 ip) (prefix_length 0 m)

cidr_parts : Option (Bytes × Bytes) → Option (Addr × ℕ)
unfolding parse_ip with_prefix
cidr_parts none = none
cidr_parts (some (a, m)) = with_prefix m (parse_ip a)

-- `net.ParseCIDR`: the address as written, and its prefix length.
unfoldable pub parse_cidr : Bytes → Option (Addr × ℕ)
unfolding cut_slash cidr_parts
parse_cidr s = cidr_parts (cut_slash s)

abbrev pub bits : Addr → ℕ
bits (v4 _) = 32
bits (v6 _) = 128

with_prefix_bound :
    (m : Bytes) (o : Option Addr) {a : Addr} {n : ℕ} → with_prefix m o ≡ some (a, n) → n ≤ bits a
unfolding with_prefix
with_prefix_bound [] o e = ground arith
with_prefix_bound (c ∷ m) none e = ground arith
with_prefix_bound (c ∷ m) (some (v4 ip)) e = ground arith
with_prefix_bound (c ∷ m) (some (v6 ip)) e = ground arith

cidr_parts_bound :
    (o : Option (Bytes × Bytes)) {a : Addr} {n : ℕ} → cidr_parts o ≡ some (a, n) → n ≤ bits a
unfolding cidr_parts
cidr_parts_bound none e = ground arith
cidr_parts_bound (some (a, m)) e = with_prefix_bound m (parse_ip a) e

-- An accepted prefix length is within the address's bits.
pub parse_cidr_bound : (s : Bytes) {a : Addr} {n : ℕ} → parse_cidr s ≡ some (a, n) → n ≤ bits a
unfolding parse_cidr
parse_cidr_bound s e = cidr_parts_bound (cut_slash s) e
