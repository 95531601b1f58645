-- ===== src/Filter/Types.antt =====
-- internal/filter/argfilter.go and internal/filter/setfilter.go: what `--arg-filter` gives for a
-- target, and internal/attach/attach.go's parameters of a target.
use bpf_ninja.Base.{ℕ, Bool, Option, List, Bytes}
use bpf_ninja.Record.Types.{Ty}

-- `ArgFilterOp`
pub data ArgFilterOp : Type 0 where
  equal greater_equal less_equal range not_equal : ArgFilterOp

-- `ArgFilter`
pub record ArgFilter : Type 0 where
  pub param_name : Bytes
  pub param_index : ℕ
  pub param_size : ℕ
  pub signed : Bool
  pub pointer : Bool
  pub deref : Bool
  pub offset : ℕ
  pub op : ArgFilterOp
  pub value : ℕ
  pub max_value : ℕ
  pub through_opaque : Bool

-- `SetKeyField`
pub record SetKeyField : Type 0 where
  pub field_name : Bytes
  pub field_off : ℕ
  pub field_size : ℕ
  pub param_name : Bytes
  pub param_idx : ℕ
  pub param_size : ℕ
  pub param_signed : Bool
  pub deref : Bool
  pub offset : ℕ
  pub through_opaque : Bool

-- `SetFilter`, without the handle of its map; a `StateOff` of -1 is `none`.
pub record SetFilter : Type 0 where
  pub set_name : Bytes
  pub key_size : ℕ
  pub fields : List SetKeyField
  pub tag_width : ℕ
  pub state_off : Option ℕ

-- `TargetFilters`
pub record TargetFilters : Type 0 where
  pub args : List ArgFilter
  pub sets : List SetFilter

-- `FuncParamInfo`. Of its `Type` there is what the program looks at: the pointer's target, if it is
-- a pointer.
pub record FuncParamInfo : Type 0 where
  pub name : Bytes
  pub index : ℕ
  pub size : ℕ
  pub signed : Bool
  pub kind : Bytes
  pub type_name : Bytes
  pub pointee : Option Ty
  pub deref : Bool
  pub offset : ℕ
  pub through_opaque : Bool
  pub void_size : ℕ
  pub status_word : Bool
