-- ===== src/Record/Decode/Growth.antt =====
-- internal/record/decode.go: how much each item of a comment adds to a buffer.

use bpf_ninja.Base.{
  ℕ, suc, ◌+◌, ◌*◌, ◌≤◌, ◌<◌, ◌≡◌, Bool, true, not, ◌&&◌, ◌||◌, Option, List, [], ◌∷◌, ltb, ◌==◌,
  if◌then◌else◌, Bytes, codes, length, arith, Bool-cases, inl, inr,
}
use bpf_ninja.Record.Types.{Ty}
use bpf_ninja.Record.Layout.{Field, Scalar, Blob, is_present, header_size}
use bpf_ninja.Record.Comment.{raw, bytes_marker}
use bpf_ninja.Record.Comment.Lengths.{
  opened, length-raw, length-uint, length-int, length-word, length-bytes_marker,
}
use bpf_ninja.Record.Sink.{le_at, Sink, rendering, counting, show, max_uint_digits}
use bpf_ninja.Record.Sink.Lengths.{Fits, show-Fits}
use bpf_ninja.Record.Decode.{
  has_bit, render_field, render_fields, scalar_name, render_scalar, rendered, render_blob,
  render_bytes, add, counted, max_fields_len, blob_item, marker_item, max_blob_len,
}

-- A buffer has grown from the length `d` by no more than `n`, and by a separator more if there was
-- something in front.
abbrev pub Grows : ℕ → Bytes → ℕ → Type 0
Grows d c n = length c ≤ d + (if d == 0 || n == 0 then 0 else 1) + n

-- One item that adds a separator and up to `extra` bytes.
pub Grows-add :
    (d : ℕ) (c c' : Bytes) (n extra : ℕ)
    → Grows d c n
    → 0 < extra
    → length c' ≤ opened c + extra
    → Grows d c' (add n extra)
Grows-add d c c' n extra g p hi = ground arith

Grows-le : (d : ℕ) (c : Bytes) (n m : ℕ) → Grows d c n → n ≤ m → Grows d c m
Grows-le d c n m g le = ground arith

length-render_field :
    (c : Bytes) (f : Field) (valid i v : ℕ)
    → length (render_field c f valid i v) ≤ opened c + (length f.name + 1 + max_uint_digits)
unfolding render_field
length-render_field c f valid i v = elim (Bool-cases (not (has_bit valid i))) [
  | inl e ↦ rw e (omega (arith, length-raw c f.name (codes "=?")))
  | inr e ↦ rw e (elim (Bool-cases (f.pointer && v == 0)) [
    | inl p ↦ rw p (omega (arith, length-raw c f.name (codes "=null")))
    | inr p ↦ rw p (elim (Bool-cases f.pointer) [
      | inl q ↦ rw q (omega (arith, length-raw c f.name (codes "!=null")))
      | inr q ↦ rw q (elim (Bool-cases f.signed) [
        | inl r ↦ rw r (omega (arith, length-int c f.name v))
        | inr r ↦ rw r (omega (arith, length-uint c f.name v))
      ])
    ])
  ])
]

pub render_fields-Grows :
    (b : Bytes) (valid d : ℕ) (fields : List Field) (c : Bytes) (i n : ℕ)
    → Grows d c n
    → Grows d (render_fields b valid c i fields) (max_fields_len n fields)
unfolding render_fields max_fields_len
render_fields-Grows b valid d [] c i n g = g
render_fields-Grows b valid d (f ∷ fields) c i n g =
    let v = le_at (header_size + 8 * i) 8 b in
    render_fields-Grows b valid d fields (render_field c f valid i v) (suc i)
      (add n (length f.name + 1 + max_uint_digits))
      (Grows-add d c (render_field c f valid i v) n (length f.name + 1 + max_uint_digits) g
        (omega arith) (length-render_field c f valid i v))

-- A scalar adds at most the length of its name and `m` bytes, whichever way it is shown.
pub length-render_scalar :
    (c : Bytes) (s : Scalar) (valid : Bool) (v : ℕ) (as_word : Bool)
    → length (render_scalar c s valid v as_word)
      ≤ opened c + (length (scalar_name s) + (if as_word then 19 else 21))
unfolding render_scalar
length-render_scalar c s valid v as_word = elim (Bool-cases (not (is_present s.param_index))) [
  | inl e ↦ rw e (ground arith)
  | inr e ↦ rw e (elim (Bool-cases (not valid)) [
    | inl p ↦ rw p (ground (arith, length-raw c (scalar_name s) (codes "=?")))
    | inr p ↦ rw p (elim (Bool-cases as_word) [
      | inl q ↦ rw q (omega (arith, length-word c (scalar_name s) v))
      | inr q ↦ rw q (omega (arith, length-uint c (scalar_name s) v))
    ])
  ])
]

Fits-counted : (k : ℕ) (s r : Sink) → Fits k s r → length (rendered s) ≤ k + counted r
unfolding rendered counted
Fits-counted k (rendering c bytes) (counting n) f = f
Fits-counted k (rendering c bytes) (rendering d bytes') f = absurd f
Fits-counted k (counting n) r f = absurd f

-- What `show` renders onto a buffer is no longer than what it adds up.
length-shown :
    (sizeof : Ty → Option ℕ) (c bytes : Bytes) (v : Blob) (n : ℕ)
    → length (rendered (show sizeof (rendering c bytes) v n))
      ≤ length c + counted (show sizeof (counting 0) v n)
length-shown sizeof c bytes v n =
    Fits-counted (length c) (show sizeof (rendering c bytes) v n) (show sizeof (counting 0) v n)
      (show-Fits sizeof (length c) (rendering c bytes) (counting 0) v n (omega arith))

blob_item-lower :
    (sizeof : Ty → Option ℕ) (v : Blob)
    → (counted (show sizeof (counting 0) v v.len) ≤ blob_item sizeof v)
      × (length v.name + 2 ≤ blob_item sizeof v)
unfolding blob_item
blob_item-lower sizeof v = (ground arith, ground arith)

-- A marker of cut bytes, behind what is shown of them.
marker-Grows :
    (d n len : ℕ) (c : Bytes) (v : Blob)
    → Grows d c n
    → Grows d (bytes_marker c v.name len v.size) (add n (marker_item v))
unfolding marker_item
marker-Grows d n len c v g =
    Grows-add d c (bytes_marker c v.name len v.size) n (marker_item v) g (omega arith)
      (omega (arith, length-bytes_marker c v.name len v.size))

shown-Grows :
    (sizeof : Ty → Option ℕ) (d n : ℕ) (c bytes : Bytes) (v : Blob)
    → length bytes ≡ v.len
    → Grows d c n
    → Grows d (render_bytes sizeof c v bytes) (add n (blob_item sizeof v))
unfolding render_bytes
shown-Grows sizeof d n c bytes v e g =
    rw e (ground (arith, length-shown sizeof c bytes v v.len, (blob_item-lower sizeof v).0))

-- A name and two bytes more fit the item.
failed-Grows :
    (sizeof : Ty → Option ℕ) (d n : ℕ) (c : Bytes) (v : Blob)
    → Grows d c n
    → Grows d (raw c v.name (codes "=?")) (add n (blob_item sizeof v))
failed-Grows sizeof d n c v g =
    Grows-add d c (raw c v.name (codes "=?")) n (blob_item sizeof v) g
      (omega (arith, (blob_item-lower sizeof v).1))
      (omega (arith, length-raw c v.name (codes "=?"), (blob_item-lower sizeof v).1))

pub render_blob-Grows :
    (sizeof : Ty → Option ℕ) (d n : ℕ) (c bytes : Bytes) (v : Blob) (valid : Bool)
    → length bytes ≡ v.len
    → Grows d c n
    → Grows d (render_blob sizeof c v valid bytes) (max_blob_len sizeof n v)
unfolding render_blob max_blob_len
render_blob-Grows sizeof d n c bytes v valid e g =
    elim (Bool-cases (not (is_present v.param_index))) [
      | inl p ↦ rw p g
      | inr p ↦ rw p (elim (Bool-cases (v.len == 0)) [
        | inl z ↦ rw z (empty z)
        | inr z ↦ rw z (elim (Bool-cases (not valid)) [
          | inl q ↦ rw q (capped (raw c v.name (codes "=?")) (failed-Grows sizeof d n c v g))
          | inr q ↦ rw q (cut (shown-Grows sizeof d n c bytes v e g))
        ])
      ])
    ]
  where
    small : v.len == 0 ≡ true → ltb 0 v.size ≡ true → ltb v.len v.size ≡ true
    small z q = ground arith

    item : ℕ
    item = blob_item sizeof v

    capped :
        (c' : Bytes)
        → Grows d c' (add n item)
        → Grows d c' (if ltb v.len v.size then add (add n item) (marker_item v) else add n item)
    capped c' h = elim (Bool-cases (ltb v.len v.size)) [
      | inl q ↦ rw q (Grows-le d c' (add n item) (add (add n item) (marker_item v)) h (omega arith))
      | inr q ↦ rw q h
    ]

    cut :
        Grows d (render_bytes sizeof c v bytes) (add n item)
        → Grows d
            (if ltb v.len v.size
              then bytes_marker (render_bytes sizeof c v bytes) v.name v.len v.size
              else render_bytes sizeof c v bytes)
            (if ltb v.len v.size then add (add n item) (marker_item v) else add n item)
    cut h = elim (Bool-cases (ltb v.len v.size)) [
      | inl q ↦ rw q (marker-Grows d (add n item) v.len (render_bytes sizeof c v bytes) v h)
      | inr q ↦ rw q h
    ]

    empty :
        v.len == 0 ≡ true
        → Grows d
            (if ltb 0 v.size then bytes_marker c v.name 0 v.size else c)
            (if ltb v.len v.size then add (add n item) (marker_item v) else add n item)
    empty z = elim (Bool-cases (ltb 0 v.size)) [
      | inl q ↦
          rw (q, small z q)
            (marker-Grows d (add n item) 0 c v (Grows-le d c n (add n item) g (omega arith)))
      | inr q ↦ rw q (capped c (Grows-le d c n (add n item) g (omega arith)))
    ]
