-- ===== src/Tests/Record.antt =====
-- internal/record and internal/recordbuild on a hook with a site and a key.
use bpf_ninja.Base.{
  ℕ, ◌+◌, ◌≤◌, ◌≡◌, ◌≢◌, refl, true, false, Option, none, some, List, [], ◌∷◌, codes, Bytes, length,
  ◌++◌, arith,
}
use bpf_ninja.Record.Types.{Ty}
use bpf_ninja.Record.Layout.{Mode, Blob, Layout, max_comment_bytes}
use bpf_ninja.Record.Sink.{rendering, counting, show}
use bpf_ninja.Record.Sink.Lengths.{Fits, show-Fits}
use bpf_ninja.Record.Decode.{comment, append_comment, max_comment_len}
use bpf_ninja.Record.Decode.Bound.{append_comment-max_comment_len}
use bpf_ninja.Record.Build.{Options, built, build, return_prefix_len}
use bpf_ninja.Record.Build.Fits.{build-append_comment}
use bpf_ninja.Output.Record.{
  HookConfig, HookRecord, WriteError, wrote, failed_batch, write_hook_record,
}
use bpf_ninja.Output.Record.Fits.{
  nothing_recorded, by_build, write_hook_record-fits, write_hook_record-counts,
}
use bpf_ninja.Filter.Types.{TargetFilters, FuncParamInfo}

-- A size for every type.
abbrev sizeof : Ty → Option ℕ
sizeof t = some 4

abbrev param : Bytes → ℕ → FuncParamInfo
param name index = record {
  name = name;
  index = index;
  size = 4;
  signed = false;
  kind = [];
  type_name = [];
  pointee = none;
  deref = false;
  offset = 0;
  through_opaque = false;
  void_size = 0;
  status_word = false;
}

abbrev params : List FuncParamInfo
params = param (codes "site") 0 ∷ param (codes "key") 1 ∷ []

abbrev options : Options
options = record { mode = Mode.entry; explicit = true; max_bytes = some 256 }

abbrev the_key : Blob
the_key = record {
  name = codes "key";
  param_index = some 1;
  pointer = false;
  size = 4;
  len = 4;
  type = none;
}

abbrev layout : Layout
layout = record {
  mode = Mode.entry;
  fields = [];
  site = record { name = codes "site"; param_index = some 0; size = 4 };
  status = record { name = []; param_index = none; size = 0 };
  key = the_key;
  value = record {
    name = codes "value";
    param_index = none;
    pointer = false;
    size = 0;
    len = 0;
    type = none;
  };
}

-- Site 7 and key 42, both of them read.
abbrev block : Bytes
block =
    28 ∷ 0 ∷ 1 ∷ 2 ∷ 5 ∷ 0 ∷ 0 ∷ 0 ∷ 7 ∷ 0 ∷ 0 ∷ 0 ∷ 4 ∷ 0 ∷ 0 ∷ 0 ∷ 0 ∷ 0 ∷ 0 ∷ 0 ∷ 0 ∷ 0 ∷ 0 ∷ 0
    ∷ 42 ∷ 0 ∷ 0 ∷ 0 ∷ []

abbrev no_filters : TargetFilters
no_filters = record { args = []; sets = [] }

test_build : build sizeof true params no_filters options ≡ built layout
unfolding build max_comment_len
test_build = refl

test_comment : append_comment sizeof layout [] block ≡ comment (codes "site=7 key=42")
unfolding append_comment
test_comment = refl

test_appended : append_comment sizeof layout (codes "x") block ≡ comment (codes "x site=7 key=42")
unfolding append_comment
test_appended = refl

build-append_comment_example :
    length (codes "site=7 key=42") + return_prefix_len ≤ max_comment_bytes
build-append_comment_example =
    build-append_comment sizeof true params no_filters options layout block (codes "site=7 key=42")
      test_build test_comment

append_comment-max_comment_len_example :
    length (codes "x site=7 key=42") ≤ length (codes "x") + 1 + max_comment_len sizeof layout
append_comment-max_comment_len_example =
    append_comment-max_comment_len sizeof layout (codes "x") block (codes "x site=7 key=42")
      (omega arith) test_appended

show-Fits_example :
    Fits 0
      (show sizeof (rendering [] (42 ∷ 0 ∷ 0 ∷ 0 ∷ [])) the_key 4)
      (show sizeof (counting 0) the_key 4)
show-Fits_example =
    show-Fits sizeof 0 (rendering [] (42 ∷ 0 ∷ 0 ∷ 0 ∷ [])) (counting 0) the_key 4 (omega arith)

-- A capture of two sites, the first of which records its site and key, and the return value.
abbrev capture : HookConfig
capture = record {
  hooks = 2;
  layouts = some layout ∷ none ∷ [];
  record_return = true;
  no_run_ids = true;
}

abbrev packet : HookRecord
packet = record {
  ts = 1;
  bytes = 170 ∷ [];
  orig_len = 60;
  action = 2;
  site_id = 1;
  packet_id = 0;
  block = some block;
}

write_hook_record-fits_example :
    write_hook_record sizeof capture packet ≢ failed_batch WriteError.comment_too_long
write_hook_record-fits_example =
    write_hook_record-fits sizeof capture packet
      (by_build true params no_filters options layout test_build, (nothing_recorded, tt))

-- The block that is written, with `return=0x00000002 site=7 key=42` as its comment.
abbrev written : Bytes
written =
    6
    ∷ 0
    ∷ 0
    ∷ 0
    ∷ 76
    ∷ 0
    ∷ 0
    ∷ 0
    ∷ 0
    ∷ 0
    ∷ 0
    ∷ 0
    ∷ 0
    ∷ 0
    ∷ 0
    ∷ 0
    ∷ 1
    ∷ 0
    ∷ 0
    ∷ 0
    ∷ 1
    ∷ 0
    ∷ 0
    ∷ 0
    ∷ 60
    ∷ 0
    ∷ 0
    ∷ 0
    ∷ 170
    ∷ 0
    ∷ 0
    ∷ 0
    ∷ 1
    ∷ 0
    ∷ 31
    ∷ 0
    ∷ (codes "return=0x00000002 site=7 key=42" ++ (0 ∷ 0 ∷ 0 ∷ 0 ∷ 0 ∷ 76 ∷ 0 ∷ 0 ∷ 0 ∷ []))

test_written : write_hook_record sizeof capture packet ≡ wrote written 76
unfolding write_hook_record
test_written = refl

write_hook_record-counts_example : length written ≡ 76
write_hook_record-counts_example =
    write_hook_record-counts sizeof capture packet written 76
      (by_build true params no_filters options layout test_build, (nothing_recorded, tt))
      test_written
