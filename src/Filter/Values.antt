-- ===== src/Filter/Values.antt =====
-- internal/filter/argfilter.go: the values of `--arg-filter`, and their check against a parameter.
-- The two regular expressions are Go's regexp on a pattern: `networkValuePattern` is written out, and
-- the three groups of `filterPattern` are given.
pub mod Parsed
use bpf_ninja.Base.{
  ℕ, zero, suc, ◌+◌, ◌-◌, ◌*◌, ◌/◌, ◌%◌, ◌^◌, Bool, true, false, not, ◌&&◌, ◌||◌, Option, none,
  some, [], ◌∷◌, ltb, leb, ◌==◌, if◌then◌else◌, Bytes, codes, same_bytes, drop,
}
use bpf_ninja.Go.Strings.{has_prefix, cut_prefix, trim_space, cut_dots}
use bpf_ninja.Go.Strconv.{parse_uint, negated, u64_mod}
use bpf_ninja.Filter.Types.{ArgFilterOp}

-- Why an expression is refused.
pub data FilterError : Type 0 where
  invalid_expression null_order invalid_range invalid_value network_order reversed : FilterError
  width_mismatch out_of_range : FilterError

pub data Checked {ℓ} (A : Type ℓ) : Type ℓ where
  ok : A → Checked A
  fail : FilterError → Checked A

-- `ParsedFilter`
pub record ParsedFilter : Type 0 where
  pub param_name : Bytes
  pub null : Bool
  pub big_endian : ℕ
  pub op : ArgFilterOp
  pub value : ℕ
  pub max_value : ℕ

parse_trimmed : Bytes → Option ℕ
unfolding parse_uint negated has_prefix
parse_trimmed s =
    if has_prefix s (codes "0x") || has_prefix s (codes "0X")
    then parse_uint 16 64 (drop 2 s)
    else if has_prefix s (codes "-")
    then negated (parse_uint 10 64 (drop 1 s))
    else parse_uint 10 64 s

-- `parseValue`: a 64-bit pattern.
unfoldable pub parse_value : Bytes → Option ℕ
unfolding parse_trimmed trim_space
parse_value s = parse_trimmed (trim_space s)

-- Whether `validateValueRange` finds no fault.
unfoldable pub in_range : ℕ → ℕ → Bool → Bool
in_range value size signed =
    if leb 8 size
    then true
    else if signed
    then not (size == 0)
      && (ltb value (2 ^ (8 * size - 1)) || leb (u64_mod - 2 ^ (8 * size - 1)) value)
    else ltb value (2 ^ (8 * size))

-- The number of `n` bytes with their order turned round.
unfoldable pub swap_bytes : ℕ → ℕ → ℕ
swap_bytes zero v = 0
swap_bytes (suc n) v = v % 256 * 256 ^ n + swap_bytes n (v / 256)

-- The text in front of a closing bracket at the end, if it is not empty and has no newline.
bracketed : Bytes → Option Bytes
bracketed [] = none
bracketed (b ∷ []) = none
bracketed (b ∷ c ∷ []) = if c == b')' && not (b == b'\n') then some (b ∷ []) else none
bracketed (b ∷ c ∷ s) =
    if b == b'\n' then none else elim (bracketed (c ∷ s)) [ none ↦ none | some t ↦ some (b ∷ t) ]

literal_of : ℕ → Option Bytes → Option (ℕ × Bytes)
unfolding bracketed
literal_of width none = none
literal_of width (some s) = elim (bracketed s) [ none ↦ none | some t ↦ some (width, t) ]

-- `networkValuePattern`: the width in bytes and the literal.
network_value : Bytes → Option (ℕ × Bytes)
unfolding literal_of cut_prefix
network_value s = elim (literal_of 2 (cut_prefix s (codes "be16("))) [
  | some m ↦ some m
  | none ↦ elim (literal_of 4 (cut_prefix s (codes "be32("))) [
    | some m ↦ some m
    | none ↦ literal_of 8 (cut_prefix s (codes "be64("))
  ]
]

swapped : ℕ → Option ℕ → Checked (ℕ × ℕ)
unfolding in_range swap_bytes
swapped width none = fail invalid_value
swapped width (some v) =
    if in_range v width false then ok (swap_bytes width v, width) else fail invalid_value

plain_value : Option ℕ → Checked (ℕ × ℕ)
plain_value none = fail invalid_value
plain_value (some v) = ok (v, 0)

value_of : Bytes → Option (ℕ × Bytes) → Checked (ℕ × ℕ)
unfolding swapped plain_value parse_value trim_space has_prefix
value_of s none = plain_value (parse_value s)
value_of s (some (width, t)) =
    if has_prefix (trim_space t) (codes "-")
    then fail invalid_value
    else swapped width (parse_value (trim_space t))

-- `parseFilterValue`: the value and its network-order width, or 0.
unfoldable pub parse_filter_value : Bytes → Checked (ℕ × ℕ)
unfolding value_of network_value
parse_filter_value s = value_of s (network_value s)

-- A 64-bit pattern as a number that keeps the order of the signed numbers.
abbrev pub signed_rank : ℕ → ℕ
signed_rank v = (v + 2 ^ 63) % u64_mod

is_equality : ArgFilterOp → Bool
is_equality ArgFilterOp.equal = true
is_equality ArgFilterOp.not_equal = true
is_equality _ = false

-- The comparison that stands between the two sides.
operator : Bytes → ArgFilterOp
unfolding same_bytes
operator s =
    if same_bytes s (codes "!=")
    then ArgFilterOp.not_equal
    else if same_bytes s (codes ">=")
    then ArgFilterOp.greater_equal
    else if same_bytes s (codes "<=")
    then ArgFilterOp.less_equal
    else ArgFilterOp.equal

parsed : Bytes → Bool → ℕ → ArgFilterOp → ℕ → ℕ → ParsedFilter
parsed name null width op value max_value = record {
  param_name = name;
  null = null;
  big_endian = width;
  op = op;
  value = value;
  max_value = max_value;
}

one_value : Bytes → ArgFilterOp → Checked (ℕ × ℕ) → Checked ParsedFilter
unfolding parsed is_equality
one_value name op (fail why) = fail why
one_value name op (ok (v, width)) =
    if not (width == 0) && not (is_equality op)
    then fail network_order
    else ok (parsed name false width op v 0)

upper_value : Bytes → ℕ → ℕ → Checked (ℕ × ℕ) → Checked ParsedFilter
unfolding parsed
upper_value name lo big_endian (fail why) = fail why
upper_value name lo big_endian (ok (hi, width)) =
    if not (width == 0)
    then fail network_order
    else if ltb hi lo && ltb (signed_rank hi) (signed_rank lo)
    then fail reversed
    else ok (parsed name false big_endian ArgFilterOp.range lo hi)

lower_value : Bytes → Checked (ℕ × ℕ) → Bytes → Checked ParsedFilter
unfolding upper_value parse_filter_value trim_space
lower_value name (fail why) hi = fail why
lower_value name (ok (lo, width)) hi =
    if not (width == 0)
    then fail network_order
    else upper_value name lo width (parse_filter_value (trim_space hi))

two_values : Bytes → ArgFilterOp → Bytes → Bytes → Option (Bytes × Bytes) → Checked ParsedFilter
unfolding lower_value parse_filter_value trim_space
two_values name ArgFilterOp.equal lo hi none =
    lower_value name (parse_filter_value (trim_space lo)) hi
two_values name op lo hi more = fail invalid_range

values : Bytes → ArgFilterOp → Bytes → Option (Bytes × Bytes) → Checked ParsedFilter
unfolding one_value two_values parse_filter_value trim_space cut_dots
values name op rhs none = one_value name op (parse_filter_value (trim_space rhs))
values name op rhs (some (lo, hi)) = two_values name op lo hi (cut_dots hi)

right_side : Bytes → ArgFilterOp → Bytes → Checked ParsedFilter
unfolding values is_equality parsed cut_dots same_bytes
right_side name op rhs =
    if same_bytes rhs (codes "null")
    then (if is_equality op then ok (parsed name true 0 op 0 0) else fail null_order)
    else values name op rhs (cut_dots rhs)

-- `ParseArgFilter`, on the three groups of `filterPattern`, if it matches.
unfoldable pub parse_arg_filter : Option (Bytes × Bytes × Bytes) → Checked ParsedFilter
unfolding right_side operator trim_space
parse_arg_filter none = fail invalid_expression
parse_arg_filter (some (name, op, rhs)) = right_side name (operator op) (trim_space rhs)
