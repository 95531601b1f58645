-- ===== src/Tests/Filter.antt =====
-- internal/filter on a range and on a network-order literal.
use bpf_ninja.Base.{◌%◌, ◌^◌, ◌*◌, ◌≡◌, refl, true, false, none, some, [], codes, arith}
use bpf_ninja.Filter.Types.{ArgFilter, ArgFilterOp, FuncParamInfo}
use bpf_ninja.Filter.Values.{
  ok, fail, reversed, null_order, ParsedFilter, in_range, parse_arg_filter,
}
use bpf_ninja.Filter.Check.{check_filter}
use bpf_ninja.Filter.Check.Sound.{check_filter-network}
use bpf_ninja.Filter.Check.Typed.{IsTyped, check_filter-IsTyped}

abbrev len_range : ParsedFilter
len_range = record {
  param_name = codes "len";
  null = false;
  big_endian = 0;
  op = ArgFilterOp.range;
  value = 1;
  max_value = 64;
}

abbrev port : ParsedFilter
port = record {
  param_name = codes "port";
  null = false;
  big_endian = 2;
  op = ArgFilterOp.equal;
  value = 47873;
  max_value = 0;
}

-- "port=be16(443)": 0x01bb is stored as 0xbb01.
test_network : parse_arg_filter (some (codes "port", codes "=", codes "be16(443)")) ≡ ok port
unfolding parse_arg_filter
test_network = refl

test_refused :
    (parse_arg_filter (some (codes "len", codes "=", codes "2..1")) ≡ fail reversed)
    × (parse_arg_filter (some (codes "p", codes ">=", codes "null")) ≡ fail null_order)
unfolding parse_arg_filter
test_refused = (refl, refl)

abbrev narrow : FuncParamInfo
narrow = record {
  name = codes "len";
  index = 2;
  size = 2;
  signed = true;
  kind = [];
  type_name = [];
  pointee = none;
  deref = false;
  offset = 0;
  through_opaque = false;
  void_size = 0;
  status_word = false;
}

abbrev len_filter : ArgFilter
len_filter = record {
  param_name = codes "len";
  param_index = 2;
  param_size = 2;
  signed = true;
  pointer = false;
  deref = false;
  offset = 0;
  op = ArgFilterOp.range;
  value = 1;
  max_value = 64;
  through_opaque = false;
}

test_check : check_filter len_range narrow ≡ ok len_filter
unfolding check_filter
test_check = refl

check_filter-IsTyped_example : IsTyped len_range narrow len_filter
check_filter-IsTyped_example =
    check_filter-IsTyped len_range narrow (omega arith) (omega arith) (omega arith) len_filter
      test_check

check_filter-network_example :
    (f : ArgFilter) × ((check_filter port narrow ≡ ok f)
      × (f.value % 2 ^ (8 * 2) ≡ 47873 % 2 ^ (8 * 2)))
unfolding in_range
check_filter-network_example = check_filter-network port narrow (omega arith) refl refl (λ e. cc)
