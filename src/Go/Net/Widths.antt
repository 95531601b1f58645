-- ===== src/Go/Net/Widths.antt =====
-- The widths of the addresses that `net.ParseIP` and `net.ParseCIDR` return.
use bpf_ninja.Base.{
  ℕ, zero, suc, ◌+◌, ◌-◌, ◌*◌, ◌/◌, ◌%◌, ◌<◌, ◌≤◌, ◌≡◌, refl, arith, ◌||◌, Option, none, some, [],
  ◌∷◌, ◌++◌, ltb, ◌==◌, Bytes, length, take, drop, length-append, inl, inr, Bool-cases, ap, sym,
}
use mathlib.Core.Path.{subst}
use bpf_ninja.Go.Net.{
  Addr, v4, v6, ipv4_fields, parse_ipv4, zeros, expand, dotted_tail, hex_run, hex_value, compressed,
  behind_colon, behind_group, ipv6_groups, parse_ipv6, as_v4, as_v6, addr_form, parse_ip, mask,
  bounded, with_prefix, cidr_parts, parse_cidr, prefix_length, cut_slash, bits,
}

-- Each number is a byte.
abbrev pub AllBytes : Bytes → Type 0
AllBytes [] = Unit {0}
AllBytes (b ∷ s) = (b < 256) × AllBytes s

-- An address has the bytes of its family.
abbrev pub HasWidth : Addr → Type 0
HasWidth (v4 ip) = (length ip ≡ 4) × AllBytes ip
HasWidth (v6 ip) = length ip ≡ 16

AllBytes-append : (s t : Bytes) → AllBytes s → AllBytes t → AllBytes (s ++ t)
AllBytes-append [] t h k = k
AllBytes-append (b ∷ s) t h k = (h.0, AllBytes-append s t h.1 k)

ipv4_fields-width :
    (s : Bytes) (val digits : ℕ) (fields : Bytes) {q : Bytes}
    → val < 256
    → AllBytes fields
    → ipv4_fields val digits fields s ≡ some q
    → (length q ≡ 4) × AllBytes q
unfolding ipv4_fields
ipv4_fields-width [] val digits fields {q} h a e =
    ground (arith, length-append fields (val ∷ []), AllBytes-append fields (val ∷ []) a (h, tt))
ipv4_fields-width (c ∷ s) val digits fields {q} h a e = ground (
  arith,
  ipv4_fields-width s (val * 10 + (c - b'0')) (digits + 1) fields {q = q},
  ipv4_fields-width s 0 0 (fields ++ val ∷ []) {q = q},
  AllBytes-append fields (val ∷ []) a (h, tt),
)

length-zeros : (n : ℕ) → length (zeros n) ≡ n
unfolding zeros
length-zeros zero = refl
length-zeros (suc n) = ap suc (length-zeros n)

length-take-drop : (n : ℕ) (s : Bytes) → length (take n s) + length (drop n s) ≡ length s
length-take-drop zero s = omega arith
length-take-drop (suc n) [] = omega arith
length-take-drop (suc n) (b ∷ s) = omega (arith, length-take-drop n s)

expand-width :
    (gap : Option ℕ) (ip s : Bytes) {q : Bytes} → expand gap ip s ≡ some q → length q ≡ 16
unfolding expand
expand-width none ip [] e = ground arith
expand-width (some g) ip [] e = ground (
  arith,
  length-append (take g ip) (zeros (16 - length ip) ++ drop g ip),
  length-append (zeros (16 - length ip)) (drop g ip),
  length-zeros (16 - length ip),
  length-take-drop g ip,
)
expand-width none ip (c ∷ s) e = cc
expand-width (some g) ip (c ∷ s) e = cc

dotted_tail-width :
    (gap : Option ℕ) (ip : Bytes) (o : Option Bytes) {q : Bytes}
    → dotted_tail gap ip o ≡ some q
    → length q ≡ 16
unfolding dotted_tail
dotted_tail-width none ip none e = cc
dotted_tail-width (some g) ip none e = cc
dotted_tail-width none ip (some quad) {q} e =
    ground (arith, expand-width none (ip ++ quad) [] {q = q})
dotted_tail-width (some g) ip (some quad) {q} e =
    ground (arith, expand-width (some g) (ip ++ quad) [] {q = q})

module _ (go_on : Option ℕ → Bytes → Option Bytes)
    (wide : (g : Option ℕ) (t q : Bytes) → go_on g t ≡ some q → length q ≡ 16) where
  compressed-width : (ip u : Bytes) {q : Bytes} → compressed go_on ip u ≡ some q → length q ≡ 16
  unfolding compressed
  compressed-width ip [] e = expand-width (some (length ip)) ip [] e
  compressed-width ip (x ∷ w) {q} e = wide (some (length ip)) (x ∷ w) q e

  behind_colon-width :
      (gap : Option ℕ) (ip t : Bytes) {q : Bytes}
      → behind_colon go_on gap ip t ≡ some q
      → length q ≡ 16
  unfolding behind_colon
  behind_colon-width none ip [] e = cc
  behind_colon-width (some g) ip [] e = cc
  behind_colon-width none ip (d ∷ u) {q} e =
      ground (arith, compressed-width ip u {q = q}, wide none (d ∷ u) q)
  behind_colon-width (some g) ip (d ∷ u) {q} e = ground (arith, wide (some g) (d ∷ u) q)

  behind_group-width :
      (gap : Option ℕ) (ip ip' s r : Bytes) {q : Bytes}
      → behind_group go_on gap ip ip' s r ≡ some q
      → length q ≡ 16
  unfolding behind_group
  behind_group-width gap ip ip' s [] e = expand-width gap ip' [] e
  behind_group-width gap ip ip' s (c ∷ t) {q} e =
      ground (
        arith,
        dotted_tail-width gap ip (parse_ipv4 s) {q = q},
        behind_colon-width gap ip' t {q = q},
      )

ipv6_groups-width :
    (f : ℕ) (gap : Option ℕ) (ip s : Bytes) {q : Bytes}
    → ipv6_groups f gap ip s ≡ some q
    → length q ≡ 16
unfolding ipv6_groups
ipv6_groups-width zero gap ip s e = expand-width gap ip s e
ipv6_groups-width (suc f) gap ip s {q} e = elim (Bool-cases (hex_run s == 0 || ltb 4 (hex_run s))) [
  | inl h ↦ cc (rw h at e)
  | inr h ↦
      behind_group-width (λ g t. ipv6_groups f g (ip ++ pair) t)
        (λ g t r k. ipv6_groups-width f g (ip ++ pair) t k) gap ip (ip ++ pair) s
        (drop (hex_run s) s) (rw h at e)
]
  where
    pair : Bytes
    pair = (hex_value 0 (take (hex_run s) s) / 256) ∷ (hex_value 0 (take (hex_run s) s) % 256) ∷ []

parse_ipv6-width : (s : Bytes) {q : Bytes} → parse_ipv6 s ≡ some q → length q ≡ 16
unfolding parse_ipv6
parse_ipv6-width [] e = ipv6_groups-width 8 none [] [] e
parse_ipv6-width (c ∷ []) e = ipv6_groups-width 8 none [] (c ∷ []) e
parse_ipv6-width (c ∷ d ∷ []) {q} e =
    ground
      (arith, expand-width (some 0) [] [] {q = q}, ipv6_groups-width 8 none [] (c ∷ d ∷ []) {q = q})
parse_ipv6-width (c ∷ d ∷ x ∷ s) {q} e = ground (
  arith,
  ipv6_groups-width 8 (some 0) [] (x ∷ s) {q = q},
  ipv6_groups-width 8 none [] (c ∷ d ∷ x ∷ s) {q = q},
)

as_v4-HasWidth :
    (o : Option Bytes) {a : Addr}
    → ((q : Bytes) → o ≡ some q → (length q ≡ 4) × AllBytes q)
    → as_v4 o ≡ some a
    → HasWidth a
unfolding as_v4
as_v4-HasWidth none h e = cc
as_v4-HasWidth (some q) {a} h e = let p : v4 q ≡ a = cc in subst HasWidth p (h q refl)

as_v6-HasWidth :
    (o : Option Bytes) {a : Addr}
    → ((q : Bytes) → o ≡ some q → length q ≡ 16)
    → as_v6 o ≡ some a
    → HasWidth a
unfolding as_v6
as_v6-HasWidth none h e = cc
as_v6-HasWidth (some q) {a} h e = let p : v6 q ≡ a = cc in subst HasWidth p (h q refl)

parse_ipv4-width : (s q : Bytes) → parse_ipv4 s ≡ some q → (length q ≡ 4) × AllBytes q
unfolding parse_ipv4
parse_ipv4-width s q e = ipv4_fields-width s 0 0 [] (omega arith) tt e

addr_form-HasWidth : (whole s : Bytes) {a : Addr} → addr_form whole s ≡ some a → HasWidth a
unfolding addr_form
addr_form-HasWidth whole [] e = cc
addr_form-HasWidth whole (c ∷ s) {a} e = elim (Bool-cases (c == b'.')) [
  | inl h ↦ as_v4-HasWidth (parse_ipv4 whole) (parse_ipv4-width whole) (rw h at e)
  | inr h ↦ elim (Bool-cases (c == b':')) [
    | inl k ↦ as_v6-HasWidth (parse_ipv6 whole) (λ q. parse_ipv6-width whole) (rw (h, k) at e)
    | inr k ↦ elim (Bool-cases (c == b'%')) [
      | inl j ↦ cc (rw (h, k, j) at e)
      | inr j ↦ addr_form-HasWidth whole s (rw (h, k, j) at e)
    ]
  ]
]

-- An address that `net.ParseIP` accepts has 4 or 16 bytes.
pub parse_ip-HasWidth : (s : Bytes) {a : Addr} → parse_ip s ≡ some a → HasWidth a
unfolding parse_ip
parse_ip-HasWidth s e = addr_form-HasWidth s s e

bounded-some :
    (bits : ℕ) (b : Addr) (o : Option ℕ) {a : Addr} {n : ℕ}
    → bounded bits b o ≡ some (a, n)
    → (a ≡ b) × (n ≤ bits)
unfolding bounded
bounded-some bits b none e = cc
bounded-some bits b (some k) e = ground arith

with_prefix-some :
    (m : Bytes) (o : Option Addr) {a : Addr} {n : ℕ}
    → with_prefix m o ≡ some (a, n)
    → (o ≡ some a) × (n ≤ bits a)
unfolding with_prefix
with_prefix-some [] o e = cc
with_prefix-some (c ∷ m) none e = cc
with_prefix-some (c ∷ m) (some (v4 ip)) e =
    let (h, k) = bounded-some 32 (v4 ip) (prefix_length 0 (c ∷ m)) e in (ap some (sym h), rw h k)
with_prefix-some (c ∷ m) (some (v6 ip)) e =
    let (h, k) = bounded-some 128 (v6 ip) (prefix_length 0 (c ∷ m)) e in (ap some (sym h), rw h k)

cidr_parts-some :
    (o : Option (Bytes × Bytes)) {a : Addr} {n : ℕ}
    → cidr_parts o ≡ some (a, n)
    → HasWidth a × (n ≤ bits a)
unfolding cidr_parts
cidr_parts-some none e = cc
cidr_parts-some (some (t, m)) e =
    let (h, k) = with_prefix-some m (parse_ip t) e in (parse_ip-HasWidth t h, k)

-- A prefix that `net.ParseCIDR` accepts has an address of 4 or 16 bytes, and is no longer than it.
pub parse_cidr-HasWidth :
    (s : Bytes) {a : Addr} {n : ℕ} → parse_cidr s ≡ some (a, n) → HasWidth a × (n ≤ bits a)
unfolding parse_cidr
parse_cidr-HasWidth s e = cidr_parts-some (cut_slash s) e

pub length-mask : (n : ℕ) (ip : Bytes) → length (mask n ip) ≡ length ip
unfolding mask
length-mask n [] = refl
length-mask n (b ∷ ip) = ap suc (length-mask (n - 8) ip)
