-- ===== src/Record/Decode/Bound.antt =====
-- internal/record/decode.go: `AppendComment` and `MaxCommentLen`, for a whole block.
use mathlib.Core.Path.{subst}
use bpf_ninja.Base.{
  ℕ, ◌+◌, ◌≤◌, ◌≡◌, refl, ap, Bool, true, false, ◌&&◌, Option, none, ◌==◌, if◌then◌else◌, Bytes,
  codes, length, take, drop, same_bytes, same_bytes_iff, max, length-take, length-drop, arith,
  Bool-cases, Option-cases, inl, inr,
}
use bpf_ninja.Record.Types.{Ty}
use bpf_ninja.Record.Layout.{Scalar, Layout, is_present, is_filter, size, entry_off_bytes}
use bpf_ninja.Record.Sink.{le_at}
use bpf_ninja.Record.Decode.{
  check_block, has_bit, scalar_name, render_scalar, render_entry, comment, render_checked,
  append_comment, max_fields_len, max_blob_len, site_len, status_len, max_comment_len,
}
use bpf_ninja.Record.Decode.Growth.{
  Grows, Grows-add, render_fields-Grows, length-render_scalar, render_blob-Grows,
}

check_block-size : (l : Layout) (b : Bytes) → check_block l b ≡ none → length b ≡ size l
unfolding check_block
check_block-size l b e = ground arith

length-scalar_name : (s : Scalar) → length (scalar_name s) ≤ max 4 (length s.name)
unfolding scalar_name
length-scalar_name s = elim (Bool-cases (same_bytes s.name (codes "info") && s.size == 4)) [
  | inl e ↦ rw e (ground arith)
  | inr e ↦ rw e (ground arith)
]

length-scalar_name_status : (s : Scalar) → length (scalar_name s) ≤ length s.name
unfolding scalar_name
length-scalar_name_status s = elim (Bool-cases (same_bytes s.name (codes "info"))) [
  | inl e ↦ ground (arith, ap length ((same_bytes_iff s.name (codes "info")).0 e))
  | inr e ↦ rw e (omega arith)
]

skipped_scalar :
    (c : Bytes) (s : Scalar) (valid : Bool) (v : ℕ) (as_word : Bool)
    → is_present s.param_index ≡ false
    → render_scalar c s valid v as_word ≡ c
unfolding render_scalar
skipped_scalar c s valid v as_word e = rw e refl

site-Grows :
    (c : Bytes) (s : Scalar) (valid : Bool) (v : ℕ)
    → length s.name ≤ 4
    → Grows (length c) (render_scalar c s valid v false) (site_len s)
unfolding site_len
site-Grows c s valid v h = elim (Bool-cases (is_present s.param_index)) [
  | inl e ↦ rw e (
      Grows-add (length c) c (render_scalar c s valid v false) 0 25 (omega arith) (omega arith)
        (ground (arith, length-render_scalar c s valid v false, length-scalar_name s)))
  | inr e ↦ rw (e, skipped_scalar c s valid v false e) (omega arith)
]

status-Grows :
    (d n : ℕ) (c : Bytes) (s : Scalar) (valid : Bool) (v : ℕ)
    → Grows d c n
    → Grows d (render_scalar c s valid v true) (status_len n s)
unfolding status_len
status-Grows d n c s valid v g = elim (Bool-cases (is_present s.param_index)) [
  | inl e ↦ rw e (
      Grows-add d c (render_scalar c s valid v true) n (length s.name + 3 + 16) g (omega arith)
        (omega (arith, length-render_scalar c s valid v true, length-scalar_name_status s)))
  | inr e ↦ rw (e, skipped_scalar c s valid v true e) g
]

entry_size :
    (l : Layout) → is_filter l.mode ≡ false → size l ≡ entry_off_bytes + l.key.len + l.value.len
unfolding size
entry_size l m = rw m refl

-- The two parts of the recorded bytes have the lengths that the layout gives.
key_bytes :
    (l : Layout) (b : Bytes)
    → check_block l b ≡ none
    → is_filter l.mode ≡ false
    → length (take l.key.len (drop entry_off_bytes b)) ≡ l.key.len
key_bytes l b e m =
    length-take l.key.len (drop 24 b)
      (omega (arith, length-drop 24 b, check_block-size l b e, entry_size l m))

value_bytes :
    (l : Layout) (b : Bytes)
    → check_block l b ≡ none
    → is_filter l.mode ≡ false
    → length (take l.value.len (drop (entry_off_bytes + l.key.len) b)) ≡ l.value.len
value_bytes l b e m =
    length-take l.value.len (drop (24 + l.key.len) b)
      (omega (arith, length-drop (24 + l.key.len) b, check_block-size l b e, entry_size l m))

render_entry-Grows :
    (sizeof : Ty → Option ℕ) (l : Layout) (dst b : Bytes) (valid : ℕ)
    → check_block l b ≡ none
    → is_filter l.mode ≡ false
    → length l.site.name ≤ 4
    → Grows (length dst) (render_entry sizeof l dst b valid) (
        max_blob_len sizeof
          (max_blob_len sizeof (status_len (site_len l.site) l.status) l.key)
          l.value)
unfolding render_entry
render_entry-Grows sizeof l dst b valid e m h =
    render_blob-Grows sizeof (length dst) _ _ _ l.value (has_bit valid 3) (value_bytes l b e m) (
      render_blob-Grows sizeof (length dst) _ _ _ l.key (has_bit valid 2) (key_bytes l b e m) (
        status-Grows (length dst) _ _ l.status (has_bit valid 1) (le_at 16 8 b)
          (site-Grows dst l.site (has_bit valid 0) (le_at 8 4 b) h)))

comment-injective : (a b : Bytes) → comment a ≡ comment b → a ≡ b
comment-injective a b e = cc

Grows-bound : (d n : ℕ) (c : Bytes) → Grows d c n → length c ≤ d + (if d == 0 then 0 else 1) + n
Grows-bound d n c g = ground arith

checked :
    (sizeof : Ty → Option ℕ) (l : Layout) (dst b c : Bytes)
    → length l.site.name ≤ 4
    → check_block l b ≡ none
    → render_checked sizeof l dst b none ≡ comment c
    → Grows (length dst) c (max_comment_len sizeof l)
unfolding render_checked max_comment_len
checked sizeof l dst b c h e r = elim (Bool-cases (is_filter l.mode)) [
  | inl m ↦ rw m (
      subst (λ x. Grows (length dst) x (max_fields_len 0 l.fields))
        (comment-injective _ _ (rw m at r))
        (render_fields-Grows b (le_at 4 4 b) (length dst) l.fields dst 0 0 (omega arith)))
  | inr m ↦ rw m (
      subst
        (λ x. Grows (length dst) x (
          max_blob_len sizeof (max_blob_len sizeof (status_len (site_len l.site) l.status) l.key)
            l.value))
        (comment-injective _ _ (rw m at r)) (render_entry-Grows sizeof l dst b (le_at 4 4 b) e m h))
]

-- A comment that is appended to a buffer `dst` makes it longer by at most `max_comment_len`, and by
-- one separator more if `dst` is not empty, for every layout with a site name of at most four bytes
-- and every block.
pub append_comment-max_comment_len :
    (sizeof : Ty → Option ℕ) (l : Layout) (dst b c : Bytes)
    → length l.site.name ≤ 4
    → append_comment sizeof l dst b ≡ comment c
    → length c ≤ length dst + (if length dst == 0 then 0 else 1) + max_comment_len sizeof l
unfolding append_comment
append_comment-max_comment_len sizeof l dst b c h e = elim (Option-cases (check_block l b)) [
  | inl n ↦
      Grows-bound (length dst) (max_comment_len sizeof l) c
        (checked sizeof l dst b c h n (rw n at e))
  | inr (why, s) ↦ cc (rw s at e)
]
