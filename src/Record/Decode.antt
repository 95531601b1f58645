-- ===== src/Record/Decode.antt =====
-- internal/record/decode.go: validation and rendering of a block, and the bound on a comment.
pub mod Growth
pub mod Bound
use bpf_ninja.Base.{
  ℕ, zero, suc, ◌+◌, ◌-◌, ◌*◌, ◌/◌, ◌%◌, ◌^◌, Bool, true, false, not, ◌&&◌, ◌||◌, Option, none,
  some, List, [], ◌∷◌, ◌++◌, ltb, leb, ◌==◌, if◌then◌else◌, Bytes, codes, length, take, drop,
  same_bytes, max,
}
use bpf_ninja.Go.Strconv.{format_uint}
use bpf_ninja.Record.Types.{
  Ty, Members, Encoding, int, enum, struct, union, array, void, other, last, member, is_opaque,
  is_plain,
}
use bpf_ninja.Record.Sink.{le_at, Sink, rendering, counting, max_uint_digits, show}
use bpf_ninja.Record.Layout.{
  Mode, Field, Scalar, Blob, Layout, is_present, is_filter, is_entry, size, kind, header_size,
  entry_off_bytes,
}
use bpf_ninja.Record.Comment
use bpf_ninja.Record.Comment.{sep, raw, uint, word, hex, signed_text, bytes_marker}

-- Why a block does not fit its layout.
pub data BlockError : Type 0 where
  too_short length_mismatch header_mismatch lengths_mismatch : BlockError

-- `CheckBlock`: the error, if there is one.
unfoldable pub check_block : Layout → Bytes → Option BlockError
check_block l b =
    let n = le_at 0 2 b in
    if ltb (length b) header_size
    then some too_short
    else if not (n == length b) || not (n == size l)
    then some length_mismatch
    else if not (le_at 2 1 b == 1) || not (le_at 3 1 b == kind l)
    then some header_mismatch
    else if is_entry l.mode
        && (not (le_at 12 2 b == l.key.len) || not (le_at 14 2 b == l.value.len))
    then some lengths_mismatch
    else none

-- `valid&(1<<i)`
abbrev pub has_bit : ℕ → ℕ → Bool
has_bit valid i = valid / 2 ^ i % 2 == 1

-- One field of a filter block.
render_field : Bytes → Field → ℕ → ℕ → ℕ → Bytes
render_field c f valid i v =
    if not (has_bit valid i)
    then raw c f.name (codes "=?")
    else if f.pointer && v == 0
    then raw c f.name (codes "=null")
    else if f.pointer
    then raw c f.name (codes "!=null")
    else if f.signed
    then Comment.int c f.name v
    else uint c f.name v

-- The fields of a filter block from the `i`-th on.
pub render_fields : Bytes → ℕ → Bytes → ℕ → List Field → Bytes
render_fields b valid c i [] = c
render_fields b valid c i (f ∷ fields) =
    render_fields b valid (render_field c f valid i (le_at (header_size + 8 * i) 8 b)) (suc i)
      fields

-- The closure `scalar` of `AppendComment`; the name comes apart.
pub scalar_name : Scalar → Bytes
unfolding same_bytes
scalar_name s = if same_bytes s.name (codes "info") && s.size == 4 then codes "site" else s.name

pub render_scalar : Bytes → Scalar → Bool → ℕ → Bool → Bytes
render_scalar c s valid v as_word =
    if not (is_present s.param_index)
    then c
    else if not valid
    then raw c (scalar_name s) (codes "=?")
    else if as_word
    then word c (scalar_name s) v
    else uint c (scalar_name s) v

rendered : Sink → Bytes
rendered (rendering c bytes) = c
rendered (counting n) = []

-- `renderBytes`
render_bytes : (Ty → Option ℕ) → Bytes → Blob → Bytes → Bytes
unfolding show rendered
render_bytes sizeof c v bytes = rendered (show sizeof (rendering c bytes) v (length bytes))

-- One of the key and the value; `bytes` are its recorded bytes.
pub render_blob : (Ty → Option ℕ) → Bytes → Blob → Bool → Bytes → Bytes
render_blob sizeof c v valid bytes =
    if not (is_present v.param_index)
    then c
    else if v.len == 0
    then (if ltb 0 v.size then bytes_marker c v.name 0 v.size else c)
    else if not valid
    then raw c v.name (codes "=?")
    else if ltb v.len v.size
    then bytes_marker (render_bytes sizeof c v bytes) v.name v.len v.size
    else render_bytes sizeof c v bytes

-- The body of an entry block.
render_entry : (Ty → Option ℕ) → Layout → Bytes → Bytes → ℕ → Bytes
render_entry sizeof l c b valid =
    let site = render_scalar c l.site (has_bit valid 0) (le_at 8 4 b) false in
    let status = render_scalar site l.status (has_bit valid 1) (le_at 16 8 b) true in
    let key =
      render_blob sizeof status l.key (has_bit valid 2) (take l.key.len (drop entry_off_bytes b)) in
    render_blob sizeof key l.value (has_bit valid 3)
      (take l.value.len (drop (entry_off_bytes + l.key.len) b))

-- A comment, or why there is none.
pub data Rendered : Type 0 where
  comment : Bytes → Rendered
  failed : BlockError → Rendered

render_checked : (Ty → Option ℕ) → Layout → Bytes → Bytes → Option BlockError → Rendered
render_checked sizeof l dst b (some why) = failed why
render_checked sizeof l dst b none =
    if is_filter l.mode
    then comment (render_fields b (le_at 4 4 b) dst 0 l.fields)
    else comment (render_entry sizeof l dst b (le_at 4 4 b))

-- `AppendComment`
unfoldable pub append_comment : (Ty → Option ℕ) → Layout → Bytes → Bytes → Rendered
unfolding check_block size kind render_checked render_fields render_entry render_field render_scalar
    render_blob render_bytes raw word uint Comment.int scalar_name bytes_marker show rendered
append_comment sizeof l dst b = render_checked sizeof l dst b (check_block l b)

-- The `add` of `MaxCommentLen`: one more for a separator.
abbrev pub add : ℕ → ℕ → ℕ
add n extra = n + (if n == 0 then 0 else 1) + extra

counted : Sink → ℕ
counted (counting n) = n
counted (rendering c bytes) = 0

pub max_fields_len : ℕ → List Field → ℕ
max_fields_len n [] = n
max_fields_len n (f ∷ fields) = max_fields_len (add n (length f.name + 1 + max_uint_digits)) fields

-- The most that is shown of a key or a value, and its name with the mark of a failed read.
blob_item : (Ty → Option ℕ) → Blob → ℕ
unfolding show counted
blob_item sizeof v = max (counted (show sizeof (counting 0) v v.len)) (length v.name + 2)

marker_item : Blob → ℕ
marker_item v = length v.name + 7 + 2 * max_uint_digits + 1

pub max_blob_len : (Ty → Option ℕ) → ℕ → Blob → ℕ
max_blob_len sizeof n v =
    let shown = add n (blob_item sizeof v) in
    if not (is_present v.param_index)
    then n
    else if ltb v.len v.size
    then add shown (marker_item v)
    else shown

site_len : Scalar → ℕ
site_len s = if is_present s.param_index then add 0 (4 + 1 + max_uint_digits) else 0

status_len : ℕ → Scalar → ℕ
status_len n s = if is_present s.param_index then add n (length s.name + 3 + 16) else n

-- `MaxCommentLen`
unfoldable pub max_comment_len : (Ty → Option ℕ) → Layout → ℕ
unfolding max_fields_len max_blob_len blob_item marker_item site_len status_len
max_comment_len sizeof l =
    if is_filter l.mode
    then max_fields_len 0 l.fields
    else max_blob_len sizeof (max_blob_len sizeof (status_len (site_len l.site) l.status) l.key)
        l.value
