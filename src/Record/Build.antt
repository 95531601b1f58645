-- ===== src/Record/Build.antt =====
-- internal/recordbuild/recordbuild.go: the layout that a capture at a target records.
pub mod Slots
pub mod Found
pub mod Snapshots
pub mod Fits
mod Tests
use bpf_ninja.Base.{
  ℕ, suc, ◌+◌, ◌%◌, ◌^◌, Bool, true, false, not, ◌&&◌, ◌||◌, Option, none, some, List, [], ◌∷◌,
  ◌++◌, ltb, leb, ◌==◌, if◌then◌else◌, Bytes, codes, length, same_bytes, min,
}
use bpf_ninja.Record.Types.{Ty, void}
use bpf_ninja.Record.Layout.{
  Mode, Field, Scalar, Blob, Layout, is_present, same_place, max_fields, max_bytes_limit,
  max_comment_bytes,
}
use bpf_ninja.Record.Decode.{max_comment_len}
use bpf_ninja.Filter.Types.{ArgFilter, SetKeyField, SetFilter, TargetFilters, FuncParamInfo}

-- Why a layout is refused.
pub data BuildError : Type 0 where
  inside_opaque : Bytes → BuildError
  too_many_fields max_bytes_range invalid_mode comment_too_long : BuildError

-- A layout, nothing to record, or an error.
pub data Built : Type 0 where
  nothing : Built
  built : Layout → Built
  refused : BuildError → Built

-- `Options`; a negative `MaxBytes` is `none`.
pub record Options : Type 0 where
  pub mode : Mode
  pub explicit : Bool
  pub max_bytes : Option ℕ

omitted_args : List ArgFilter → List Bytes
omitted_args [] = []
omitted_args (a ∷ args) =
    let rest = omitted_args args in if a.through_opaque then a.param_name ∷ rest else rest

omitted_keys : List SetKeyField → List Bytes
omitted_keys [] = []
omitted_keys (k ∷ keys) =
    let rest = omitted_keys keys in if k.through_opaque then k.param_name ∷ rest else rest

omitted_sets : List SetFilter → List Bytes
unfolding omitted_keys
omitted_sets [] = []
omitted_sets (s ∷ sets) = omitted_keys s.fields ++ omitted_sets sets

-- `OmittedFields`
omitted_fields : TargetFilters → List Bytes
unfolding omitted_args omitted_sets
omitted_fields tf = omitted_args tf.args ++ omitted_sets tf.sets

-- Whether `seen` holds the field, whose name does not count.
pub seen_place : Field → List Field → Bool
seen_place f [] = false
seen_place f (g ∷ fields) = same_place g f || seen_place f fields

-- The closure `add` of `buildFilter`
add_field : List Field → Field → Bool → List Field
add_field fields f opaque = if opaque || seen_place f fields then fields else fields ++ f ∷ []

pub arg_field : ArgFilter → Field
arg_field a = record {
  name = a.param_name;
  param_index = a.param_index;
  size = a.param_size;
  signed = a.signed;
  deref = a.deref;
  pointer = a.pointer;
  offset = a.offset;
}

pub key_field : SetKeyField → Field
key_field k = record {
  name = k.param_name;
  param_index = k.param_idx;
  size = k.param_size;
  signed = k.param_signed;
  deref = k.deref;
  pointer = false;
  offset = k.offset;
}

add_args : List Field → List ArgFilter → List Field
add_args fields [] = fields
add_args fields (a ∷ args) = add_args (add_field fields (arg_field a) a.through_opaque) args

add_keys : List Field → List SetKeyField → List Field
add_keys fields [] = fields
add_keys fields (k ∷ keys) = add_keys (add_field fields (key_field k) k.through_opaque) keys

add_sets : List Field → List SetFilter → List Field
add_sets fields [] = fields
add_sets fields (s ∷ sets) = add_sets (add_keys fields s.fields) sets

-- The fields that a filter block records.
filter_fields : TargetFilters → List Field
filter_fields tf = add_sets (add_args [] tf.args) tf.sets

a_scalar : Bytes → Option ℕ → ℕ → Scalar
a_scalar name param_index size = record { name = name; param_index = param_index; size = size }

a_blob : Bytes → Option ℕ → Bool → ℕ → ℕ → Option Ty → Blob
a_blob name param_index pointer size len type = record {
  name = name;
  param_index = param_index;
  pointer = pointer;
  size = size;
  len = len;
  type = type;
}

a_layout : Mode → List Field → Scalar → Scalar → Blob → Blob → Layout
a_layout mode fields site status key value = record {
  mode = mode;
  fields = fields;
  site = site;
  status = status;
  key = key;
  value = value;
}

checked_fields : Bool → List Field → Built
unfolding a_scalar a_blob a_layout
checked_fields explicit [] = nothing
checked_fields explicit (f ∷ fields) =
    if ltb max_fields (length (f ∷ fields))
    then (if explicit then refused too_many_fields else nothing)
    else built (
        a_layout Mode.filter (f ∷ fields) (a_scalar [] (some 0) 0) (a_scalar [] (some 0) 0)
          (a_blob [] (some 0) false 0 0 none) (a_blob [] (some 0) false 0 0 none))

omitted_error : Bool → List Bytes → Option BuildError
omitted_error true (name ∷ names) = some (inside_opaque name)
omitted_error _ _ = none

-- `buildFilter`
pub build_filter : TargetFilters → Bool → Built
build_filter tf explicit = elim (omitted_error explicit (omitted_fields tf)) [
  | some why ↦ refused why
  | none ↦ checked_fields explicit (filter_fields tf)
]

-- The size of a pointee: that of the size tag if it is void, and else the one that BTF gives.
pointee_size : Option ℕ → ℕ → Ty → ℕ
pointee_size size void_size void = void_size
pointee_size none void_size t = 0
pointee_size (some n) void_size t = n % 2 ^ 32

pointee_bytes : (Ty → Option ℕ) → FuncParamInfo → ℕ → Option Ty → Blob
unfolding a_blob pointee_size
pointee_bytes sizeof p max_bytes none = a_blob p.name (some p.index) true 0 0 none
pointee_bytes sizeof p max_bytes (some t) =
    let size = pointee_size (sizeof t) p.void_size t in
    a_blob p.name (some p.index) true size (min size max_bytes) (some t)

-- `entryBytes`
entry_bytes : (Ty → Option ℕ) → FuncParamInfo → ℕ → Blob
unfolding pointee_bytes a_blob
entry_bytes sizeof p max_bytes =
    if same_bytes p.kind []
    then a_blob p.name (some p.index) false p.size (if leb p.size max_bytes then p.size else 0) none
    else pointee_bytes sizeof p max_bytes p.pointee

-- The layout of an entry block before any parameter is looked at.
no_entry : Layout
unfolding a_layout a_scalar a_blob
no_entry =
    a_layout Mode.entry [] (a_scalar [] none 0) (a_scalar [] none 0)
      (a_blob (codes "key") none false 0 0 none) (a_blob (codes "value") none false 0 0 none)

-- The "info" argument: its low half is the site, and all of it the status, where neither is there.
info_site : Layout → ℕ → Layout
unfolding a_scalar
info_site l i =
    if not (is_present l.site.param_index)
    then record l { site = a_scalar (codes "info") (some i) 4 }
    else l

info_status : Layout → ℕ → Layout
unfolding a_scalar
info_status l i =
    if not (is_present l.status.param_index)
    then record l { status = a_scalar (codes "info") (some i) 8 }
    else l

take_info : Layout → ℕ → Layout
take_info l i = info_status (info_site l i) i

-- One parameter of `buildEntry`
take_param : (Ty → Option ℕ) → ℕ → Layout → FuncParamInfo → Layout
take_param sizeof max_bytes l p =
    if same_bytes p.name (codes "site")
    then (if same_bytes p.kind [] && p.size == 4
        then record l { site = a_scalar (codes "site") (some p.index) 4 }
        else l)
    else if same_bytes p.name (codes "info")
    then (if same_bytes p.kind [] && p.size == 8 then take_info l p.index else l)
    else if same_bytes p.name (codes "status")
    then (if same_bytes p.kind [] && p.size == 8
        then record l { status = a_scalar (codes "status") (some p.index) 8 }
        else l)
    else if same_bytes p.name (codes "key")
    then record l { key = entry_bytes sizeof p max_bytes }
    else if same_bytes p.name (codes "value")
    then record l { value = entry_bytes sizeof p max_bytes }
    else l

take_params : (Ty → Option ℕ) → ℕ → Layout → List FuncParamInfo → Layout
take_params sizeof max_bytes l [] = l
take_params sizeof max_bytes l (p ∷ params) =
    take_params sizeof max_bytes (take_param sizeof max_bytes l p) params

-- An entry layout, unless nothing of it is there.
some_entry : Layout → Built
some_entry l =
    if not (is_present l.site.param_index)
      && (not (is_present l.status.param_index)
          && (not (is_present l.key.param_index) && not (is_present l.value.param_index)))
    then nothing
    else built l

-- `buildEntry`
build_entry : (Ty → Option ℕ) → List FuncParamInfo → Option ℕ → Built
build_entry sizeof params none = refused max_bytes_range
build_entry sizeof params (some max_bytes) =
    if ltb max_bytes_limit max_bytes
    then refused max_bytes_range
    else some_entry (take_params sizeof max_bytes no_entry params)

abbrev pub return_prefix_len : ℕ
return_prefix_len = 18

-- A layout whose longest comment may not fit is refused, or left out by default.
fitting : (Ty → Option ℕ) → Bool → Built → Built
fitting sizeof explicit nothing = nothing
fitting sizeof explicit (refused why) = refused why
fitting sizeof explicit (built l) =
    if ltb max_comment_bytes (max_comment_len sizeof l + return_prefix_len)
    then (if explicit then refused comment_too_long else nothing)
    else built l

build_mode : (Ty → Option ℕ) → List FuncParamInfo → TargetFilters → Options → Mode → Built
build_mode sizeof params tf opt Mode.filter =
    fitting sizeof opt.explicit (build_filter tf opt.explicit)
build_mode sizeof params tf opt Mode.entry =
    fitting sizeof opt.explicit (build_entry sizeof params opt.max_bytes)
build_mode sizeof params tf opt (Mode.unknown s) = refused invalid_mode
build_mode sizeof params tf opt Mode.unset = nothing
build_mode sizeof params tf opt Mode.nothing = nothing

-- `Build`, of a target that is `generated` or not and has the parameters `params`.
unfoldable pub build : (Ty → Option ℕ) → Bool → List FuncParamInfo → TargetFilters → Options → Built
unfolding build_mode fitting build_filter build_entry omitted_error omitted_fields checked_fields
    filter_fields add_sets add_args add_keys add_field seen_place arg_field key_field take_params
    take_param some_entry no_entry take_info info_site info_status entry_bytes
build sizeof generated params tf opt =
    if not opt.explicit && not generated then nothing else build_mode sizeof params tf opt opt.mode
