-- ===== src/Record/Sink.antt =====
-- internal/record/decode.go: `memberSink`, which renders the members of a key or value, or only
-- adds up the lengths of what it would render. The host is little-endian.
pub mod Lengths
use bpf_ninja.Base.{
  ℕ, zero, suc, ◌+◌, ◌-◌, ◌*◌, ◌/◌, ◌%◌, ◌^◌, Bool, true, false, not, ◌&&◌, ◌||◌, Option, none,
  some, List, [], ◌∷◌, ◌++◌, ltb, leb, ◌==◌, if◌then◌else◌, Bytes, codes, length, take, drop,
  same_bytes, max,
}
use bpf_ninja.Go.Strconv.{format_uint}
use bpf_ninja.Record.Types.{
  Ty, Members, Encoding, int, enum, struct, union, array, void, other, last, member, is_opaque,
  is_plain,
}
use bpf_ninja.Record.Layout.{
  Mode, Field, Scalar, Blob, Layout, is_present, is_filter, is_entry, size, kind, header_size,
  entry_off_bytes,
}
use bpf_ninja.Record.Comment
use bpf_ninja.Record.Comment.{sep, raw, uint, word, hex, signed_text, bytes_marker}

-- The little-endian number of a few bytes.
abbrev pub le_value : Bytes → ℕ
le_value [] = 0
le_value (b ∷ s) = b + 256 * le_value s

-- `b[off : off+n]` as a number
abbrev pub le_at : ℕ → ℕ → Bytes → ℕ
le_at off n b = le_value (take n (drop off b))

-- `readUint`: up to eight bytes.
abbrev pub read_uint : Bytes → ℕ
read_uint b = le_value (take 8 b)

-- The size of an integer or enum type, and 0 for any other.
abbrev scalar_size : Ty → ℕ
scalar_size (int size encoding) = size
scalar_size (enum size negative) = size
scalar_size _ = 0

-- `isScalar`; `none` is a nil type.
abbrev pub is_scalar : Option Ty → Bool
is_scalar (some (int size encoding)) = true
is_scalar (some (enum size negative)) = true
is_scalar _ = false

-- `scalarSpan`: the bytes that are spanned, if they are 1 to 8.
unfoldable pub scalar_span : Ty → ℕ → ℕ → Option ℕ
scalar_span t bit bits =
    let size = if ltb 0 bits then (bit + bits + 7) % 2 ^ 32 / 8 else scalar_size t in
    if is_scalar (some t) && (ltb 0 size && leb size 8) then some size else none

bool_text : ℕ → Bytes
bool_text v = if v == 0 then codes "false" else codes "true"

number_text : Ty → ℕ → ℕ → Bytes
unfolding bool_text signed_text format_uint
number_text (int size Encoding.bool) width v = bool_text v
number_text (int size Encoding.signed) width v = signed_text (if ltb width 64 then width else 64) v
number_text (enum size true) width v = signed_text (if ltb width 64 then width else 64) v
number_text _ width v = format_uint v

-- The value's bits: all of them, or those of a bit field.
abbrev field_bits : ℕ → ℕ → ℕ → ℕ
field_bits v bit bits = if ltb 0 bits then v / 2 ^ bit % 2 ^ bits else v

-- `appendScalar`, for the bytes that `scalarSpan` gave: the text, or `none` where it lies past the
-- recorded bytes.
scalar_text : Ty → Bytes → ℕ → ℕ → ℕ → Option ℕ → Option Bytes
unfolding number_text
scalar_text t bytes off bit bits none = none
scalar_text t bytes off bit bits (some size) =
    if ltb (length bytes) (off + size)
    then none
    else some (
        number_text t (if ltb 0 bits then bits else scalar_size t * 8)
          (field_bits (read_uint (take size (drop off bytes))) bit bits))

named : Bytes → Bytes → Option Bytes → Bytes
unfolding raw
named c name none = c
named c name (some text) = raw c name (b'=' ∷ text)

-- `commentBuf.scalar`
unfoldable pub scalar : Bytes → Bytes → Ty → Bytes → ℕ → ℕ → ℕ → Bytes
unfolding named scalar_text scalar_span
scalar c name t bytes off bit bits =
    named c name (scalar_text t bytes off bit bits (scalar_span t bit bits))

abbrev pub max_uint_digits : ℕ
max_uint_digits = 20

-- `memberSink`: it renders into a comment from the recorded bytes, or only adds up lengths.
pub data Sink : Type 0 where
  rendering : Bytes → Bytes → Sink
  counting : ℕ → Sink

-- `visit`, of a scalar type
visit_scalar : Sink → Bytes → Ty → ℕ → ℕ → Sink
unfolding scalar
visit_scalar (rendering c bytes) name t off bits =
    rendering (scalar c name t bytes (off / 8) (off % 8) bits) bytes
visit_scalar (counting n) name t off bits = counting (n + (1 + length name + 1 + max_uint_digits))

-- `visit`, of anything else
visit_bytes : Sink → Bytes → ℕ → ℕ → Sink
unfolding hex
visit_bytes (rendering c bytes) name off size =
    rendering (hex c name (take size (drop (off / 8) bytes))) bytes
visit_bytes (counting n) name off size = counting (n + (1 + length name + 1 + 2 * size))

-- A scalar that lies in the first `n` recorded bytes.
span_visit : Sink → Bytes → Ty → ℕ → ℕ → ℕ → Option ℕ → Sink
unfolding visit_scalar
span_visit s name t off bits n none = s
span_visit s name t off bits n (some size) =
    if leb ((off / 8 + size) % 2 ^ 32) n then visit_scalar s name t off bits else s

-- An array or union with bytes that lie in the first `n` recorded bytes.
sized_visit : Sink → Bytes → ℕ → ℕ → Option ℕ → Sink
unfolding visit_bytes
sized_visit s name off n none = s
sized_visit s name off n (some size) =
    if ltb 0 size && (off % 8 == 0 && leb (off / 8 + size) n)
    then visit_bytes s name off size
    else s

-- `walk`, with `btf.Sizeof` as a parameter, whose `none` is an error.
mutual
  walk_member : (Ty → Option ℕ) → Sink → Bytes → Bytes → ℕ → ℕ → ℕ → Ty → Sink
  walk_member sizeof s prefix name off bits n (struct tag size members) =
      let inner =
        walk sizeof s (if same_bytes name [] then prefix else prefix ++ (name ++ b'.' ∷ [])) members
          off n in
      if is_opaque tag then s else inner
  walk_member sizeof s prefix name off bits n (int size encoding) =
      span_visit s (prefix ++ name) (int size encoding) off bits n
        (scalar_span (int size encoding) (off % 8) bits)
  walk_member sizeof s prefix name off bits n (enum size negative) =
      span_visit s (prefix ++ name) (enum size negative) off bits n
        (scalar_span (enum size negative) (off % 8) bits)
  walk_member sizeof s prefix name off bits n (union size members) =
      let inner = walk sizeof s prefix members off n in
      if not (is_plain (union size members))
      then s
      else if same_bytes name []
      then inner
      else sized_visit s (prefix ++ name) off n (sizeof (union size members))
  walk_member sizeof s prefix name off bits n (array elem count) =
      if not (is_plain (array elem count))
      then s
      else sized_visit s (prefix ++ name) off n (sizeof (array elem count))
  walk_member sizeof s prefix name off bits n void = s
  walk_member sizeof s prefix name off bits n (other id) = s

  walk : (Ty → Option ℕ) → Sink → Bytes → Members → ℕ → ℕ → Sink
  walk sizeof s prefix last base n = s
  walk sizeof s prefix (member name offset bits t rest) base n =
      walk sizeof (walk_member sizeof s prefix name ((base + offset) % 2 ^ 32) bits n t) prefix rest
        base n

is_byte : Ty → Bool
is_byte (int size encoding) = size == 1
is_byte _ = false

byte_array : Ty → Bool
unfolding is_byte
byte_array (array elem count) = is_byte elem
byte_array _ = false

-- `rawBytes`
unfoldable pub raw_bytes : Bytes → Members → Bool
unfolding byte_array same_bytes
raw_bytes tag (member name offset bits t last) =
    same_bytes tag [] && (same_bytes name (codes "bytes") && byte_array t)
raw_bytes tag _ = false

-- An integer argument, passed by value.
show_integer : Sink → Bytes → ℕ → Sink
unfolding uint
show_integer (rendering c bytes) name n = rendering (uint c name (read_uint (take n bytes))) bytes
show_integer (counting k) name n = counting (k + (1 + length name + 1 + max_uint_digits))

-- The pointee of a key or value pointer.
show_type : (Ty → Option ℕ) → Sink → Bytes → ℕ → Option Ty → Sink
unfolding walk raw_bytes span_visit visit_bytes is_plain is_opaque scalar_span
show_type sizeof s name n none = visit_bytes s name 0 n
show_type sizeof s name n (some void) = visit_bytes s name 0 n
show_type sizeof s name n (some (struct tag size members)) =
    if raw_bytes tag members
    then visit_bytes s name 0 n
    else if not (is_opaque tag)
    then walk sizeof s (name ++ codes "->") members 0 n
    else s
show_type sizeof s name n (some (int size encoding)) =
    span_visit s (name ++ codes "[0]") (int size encoding) 0 0 n
      (scalar_span (int size encoding) 0 0)
show_type sizeof s name n (some (enum size negative)) =
    span_visit s (name ++ codes "[0]") (enum size negative) 0 0 n
      (scalar_span (enum size negative) 0 0)
show_type sizeof s name n (some (array elem count)) =
    if is_plain (array elem count) then visit_bytes s name 0 n else s
show_type sizeof s name n (some (union size members)) =
    if is_plain (union size members) then visit_bytes s name 0 n else s
show_type sizeof s name n (some (other id)) = s

-- `show`
unfoldable pub show : (Ty → Option ℕ) → Sink → Blob → ℕ → Sink
unfolding show_type show_integer sized_visit
show sizeof s v n =
    if n == 0
    then s
    else if not v.pointer
    then show_integer s v.name n
    else show_type sizeof s v.name n v.type
