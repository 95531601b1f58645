-- ===== src/Record/Layout.antt =====
-- internal/record/record.go: the layout of the block.
use bpf_ninja.Base.{
  ℕ, suc, ◌+◌, ◌*◌, Bool, true, false, ◌&&◌, Option, none, some, List, [], ◌∷◌, ◌==◌, if◌then◌else◌,
  Bytes, length, codes, same_bytes,
}
use bpf_ninja.Record.Types.{Ty}

-- `Mode`: `unset` is the empty string, `nothing` is `ModeNone`, and `unknown` any other string that
-- names none.
pub data Mode : Type 0 where
  unset nothing filter entry : Mode
  unknown : Bytes → Mode

-- `ParseMode`
unfoldable pub parse_mode : Bytes → Option Mode
unfolding same_bytes
parse_mode s =
    if same_bytes s (codes "none")
    then some Mode.nothing
    else if same_bytes s (codes "filter")
    then some Mode.filter
    else if same_bytes s (codes "entry")
    then some Mode.entry
    else none

abbrev pub header_size : ℕ
header_size = 8

abbrev pub entry_off_bytes : ℕ
entry_off_bytes = 24

abbrev pub max_fields : ℕ
max_fields = 32

abbrev pub max_bytes_limit : ℕ
max_bytes_limit = 4096

abbrev pub max_comment_bytes : ℕ
max_comment_bytes = 65535

-- `Field`
pub record Field : Type 0 where
  pub name : Bytes
  pub param_index : ℕ
  pub size : ℕ
  pub signed : Bool
  pub deref : Bool
  pub pointer : Bool
  pub offset : ℕ

-- `Scalar`; a `ParamIndex` of -1 is `none`.
pub record Scalar : Type 0 where
  pub name : Bytes
  pub param_index : Option ℕ
  pub size : ℕ

-- `Bytes`: the key or the value.
pub record Blob : Type 0 where
  pub name : Bytes
  pub param_index : Option ℕ
  pub pointer : Bool
  pub size : ℕ
  pub len : ℕ
  pub type : Option Ty

-- `Layout`
pub record Layout : Type 0 where
  pub mode : Mode
  pub fields : List Field
  pub site : Scalar
  pub status : Scalar
  pub key : Blob
  pub value : Blob

-- `Present`
abbrev pub is_present : Option ℕ → Bool
is_present none = false
is_present (some _) = true

abbrev pub is_filter : Mode → Bool
is_filter Mode.filter = true
is_filter _ = false

abbrev pub is_entry : Mode → Bool
is_entry Mode.entry = true
is_entry _ = false

unfoldable pub bool_eq : Bool → Bool → Bool
bool_eq true b = b
bool_eq false true = false
bool_eq false false = true

-- Whether two fields agree in all but their names.
unfoldable pub same_place : Field → Field → Bool
unfolding bool_eq
same_place f g =
    f.param_index == g.param_index
    && (bool_eq f.deref g.deref
        && (bool_eq f.pointer g.pointer
            && (f.offset == g.offset && (f.size == g.size && bool_eq f.signed g.signed))))

-- `FieldIndex`, with the field looked for given whole; `none` stands for -1.
unfoldable pub field_index : Field → List Field → Option ℕ
unfolding same_place
field_index key [] = none
field_index key (f ∷ fields) =
    let later : Option ℕ = elim (field_index key fields) [ none ↦ none | some i ↦ some (suc i) ] in
    if same_place f key then some 0 else later

-- `Size`
unfoldable pub size : Layout → ℕ
size l =
    if is_filter l.mode
    then header_size + 8 * length l.fields
    else entry_off_bytes + l.key.len + l.value.len

-- `Kind`
unfoldable pub kind : Layout → ℕ
kind l = if is_filter l.mode then 1 else 2
