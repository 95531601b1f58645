-- ===== src/Program.antt =====
-- internal/program/record.go: where a gate leaves the values that a filter block records.
use bpf_ninja.Base.{ℕ, ◌*◌, ◌%◌, ◌^◌, Bool, Option, none, some, []}
use bpf_ninja.Record.Layout.{Field, Layout, field_index}

-- What `FieldIndex` is given, as the field that it looks for.
place : ℕ → Bool → Bool → ℕ → ℕ → Bool → Field
place index deref pointer offset size signed = record {
  name = [];
  param_index = index;
  size = size;
  signed = signed;
  deref = deref;
  pointer = pointer;
  offset = offset;
}

-- The offset of a slot, in 16 bits; `none` stands for -1.
slot_off : Option ℕ → Option ℕ
slot_off none = none
slot_off (some i) = some (8 * i % 2 ^ 16)

-- `fieldSnap.off`; no layout is a nil `fieldSnap`.
unfoldable pub snap_off : Option Layout → ℕ → Bool → Bool → ℕ → ℕ → Bool → Option ℕ
unfolding place slot_off field_index
snap_off none index deref pointer offset size signed = none
snap_off (some l) index deref pointer offset size signed =
    slot_off (field_index (place index deref pointer offset size signed) l.fields)
