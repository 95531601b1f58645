-- ===== src/Filter/Check.antt =====
-- internal/filter/argfilter.go: `ParseAndValidateFilters` for one expression, once its argument is
-- resolved.
pub mod Sound
pub mod Typed
use bpf_ninja.Base.{
  ℕ, ◌+◌, ◌-◌, ◌*◌, ◌%◌, ◌^◌, Bool, true, false, not, ◌&&◌, ltb, leb, ◌==◌, if◌then◌else◌,
}
use bpf_ninja.Go.Strconv.{u64_mod}
use bpf_ninja.Filter.Types.{ArgFilterOp, ArgFilter, FuncParamInfo}
use bpf_ninja.Filter.Values.{
  Checked, ok, fail, FilterError, width_mismatch, out_of_range, reversed, ParsedFilter, in_range,
  signed_rank,
}

-- `uint64(int64(v<<shift) >> shift)`, for a shift that leaves `size` bytes.
unfoldable pub sign_extend : ℕ → ℕ → ℕ
sign_extend size v =
    let low = v % 2 ^ (8 * size) in
    if leb (2 ^ (8 * size - 1)) low then u64_mod - 2 ^ (8 * size) + low else low

is_range : ArgFilterOp → Bool
is_range ArgFilterOp.range = true
is_range _ = false

-- The value that is compared: a network-order literal of a signed leaf is sign-extended.
compared : ParsedFilter → FuncParamInfo → ℕ
unfolding sign_extend
compared pf p =
    if not (pf.big_endian == 0) && (p.signed && ltb p.size 8)
    then sign_extend p.size pf.value
    else pf.value

arg_filter : ParsedFilter → FuncParamInfo → ArgFilter
unfolding compared
arg_filter pf p = record {
  param_name = pf.param_name;
  param_index = p.index;
  param_size = p.size;
  signed = p.signed;
  pointer = pf.null;
  deref = p.deref;
  offset = p.offset;
  op = pf.op;
  value = compared pf p;
  max_value = pf.max_value;
  through_opaque = p.through_opaque;
}

-- Whether the lower end of a range is above the upper one, as the parameter's numbers.
is_reversed : Bool → ℕ → ℕ → Bool
is_reversed signed lo hi = if signed then ltb (signed_rank hi) (signed_rank lo) else ltb hi lo

-- One round of `ParseAndValidateFilters`, behind the resolution of the argument.
unfoldable pub check_filter : ParsedFilter → FuncParamInfo → Checked ArgFilter
unfolding compared arg_filter is_range is_reversed in_range
check_filter pf p =
    if not (pf.big_endian == 0) && not (pf.big_endian == p.size)
    then fail width_mismatch
    else if not (in_range (compared pf p) p.size p.signed)
    then fail out_of_range
    else if is_range pf.op && not (in_range pf.max_value p.size p.signed)
    then fail out_of_range
    else if is_range pf.op && is_reversed p.signed (compared pf p) pf.max_value
    then fail reversed
    else ok (arg_filter pf p)
