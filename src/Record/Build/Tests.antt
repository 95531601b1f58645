-- ===== src/Record/Build/Tests.antt =====
-- internal/recordbuild on three conditions, two of them on one argument.
use bpf_ninja.Base.{
  ℕ, ◌≤◌, ◌<◌, ◌≡◌, refl, false, true, none, some, [], ◌∷◌, codes, Bytes, length, get_elem?,
}
use bpf_ninja.Record.Layout.{Mode, Field, Layout, same_place, field_index, max_fields}
use bpf_ninja.Record.Build.{
  built, build_filter, omitted_keys, add_keys, key_field, omitted_error, omitted_fields,
  omitted_args, omitted_sets, filter_fields, add_sets, add_args, add_field, seen_place, arg_field,
  checked_fields, a_layout,
}
use bpf_ninja.Record.Build.Slots.{build_filter-field_index}
use bpf_ninja.Record.Build.Snapshots.{IsRecorded, build_filter-snap_off, build_filter-snap_off_key}
use bpf_ninja.Filter.Types.{ArgFilter, ArgFilterOp, SetKeyField, SetFilter, TargetFilters}

-- Two conditions on one argument, and one on another.
abbrev condition : Bytes → ℕ → ArgFilterOp → ArgFilter
condition name index op = record {
  param_name = name;
  param_index = index;
  param_size = 4;
  signed = false;
  pointer = false;
  deref = false;
  offset = 0;
  op = op;
  value = 1;
  max_value = 0;
  through_opaque = false;
}

-- A set with one key, the second argument.
abbrev port_key : SetKeyField
port_key = record {
  field_name = codes "port";
  field_off = 0;
  field_size = 4;
  param_name = codes "port";
  param_idx = 1;
  param_size = 4;
  param_signed = false;
  deref = false;
  offset = 0;
  through_opaque = false;
}

abbrev port_set : SetFilter
port_set = record {
  set_name = codes "ports";
  key_size = 4;
  fields = port_key ∷ [];
  tag_width = 4;
  state_off = none;
}

abbrev filters : TargetFilters
filters = record {
  args =
      condition (codes "len") 0 ArgFilterOp.greater_equal
      ∷ condition (codes "len") 0 ArgFilterOp.less_equal
      ∷ condition (codes "port") 1 ArgFilterOp.equal
      ∷ [];
  sets = port_set ∷ [];
}

abbrev recorded : Bytes → ℕ → Field
recorded name index = record {
  name = name;
  param_index = index;
  size = 4;
  signed = false;
  deref = false;
  pointer = false;
  offset = 0;
}

abbrev filter_layout : Layout
filter_layout = record {
  mode = Mode.filter;
  fields = recorded (codes "len") 0 ∷ recorded (codes "port") 1 ∷ [];
  site = record { name = []; param_index = some 0; size = 0 };
  status = record { name = []; param_index = some 0; size = 0 };
  key = record { name = []; param_index = some 0; pointer = false; size = 0; len = 0; type = none };
  value = record {
    name = [];
    param_index = some 0;
    pointer = false;
    size = 0;
    len = 0;
    type = none;
  };
}

test_filters : build_filter filters true ≡ built filter_layout
unfolding build_filter omitted_error omitted_fields omitted_args omitted_sets omitted_keys
    filter_fields add_sets add_args add_keys add_field seen_place arg_field key_field checked_fields
    a_layout same_place
test_filters = refl

build_filter-field_index_example :
    ((0 < length filter_layout.fields) × (length filter_layout.fields ≤ max_fields))
    × ((i : ℕ) (f : Field)
        → get_elem? filter_layout.fields i ≡ some f
        → field_index f filter_layout.fields ≡ some i)
build_filter-field_index_example = build_filter-field_index filters true filter_layout test_filters

build_filter-snap_off_example : IsRecorded filter_layout 1 false false 0 4 false
build_filter-snap_off_example =
    build_filter-snap_off filters true filter_layout 2
      (condition (codes "port") 1 ArgFilterOp.equal) test_filters refl refl

-- A set whose key is a member of the second argument, for which nothing else is compared.
abbrev member_key : SetKeyField
member_key = record port_key { param_name = codes "port->id"; deref = true; offset = 12 }

abbrev member_filters : TargetFilters
member_filters = record filters { sets = record port_set { fields = member_key ∷ [] } ∷ [] }

abbrev member_layout : Layout
member_layout = record filter_layout {
  fields =
      recorded (codes "len") 0
      ∷ recorded (codes "port") 1
      ∷ record (recorded (codes "port->id") 1) { deref = true; offset = 12 }
      ∷ [];
}

test_member : build_filter member_filters true ≡ built member_layout
unfolding build_filter omitted_error omitted_fields omitted_args omitted_sets omitted_keys
    filter_fields add_sets add_args add_keys add_field seen_place arg_field key_field checked_fields
    a_layout same_place
test_member = refl

build_filter-snap_off_key_example : IsRecorded member_layout 1 true false 12 4 false
build_filter-snap_off_key_example =
    build_filter-snap_off_key member_filters true member_layout 0 0
      (record port_set { fields = member_key ∷ [] }) member_key test_member refl refl refl
