-- ===== src/Record/Sink/Lengths.antt =====
-- internal/record/decode.go: the two uses of `memberSink`, one against the other.
use mathlib.Core.Path.{subst}
use mathlib.Core.Option.{some-injective}
use bpf_ninja.Base.{
  ℕ, zero, suc, ◌+◌, ◌/◌, ◌%◌, ◌^◌, ◌≤◌, ◌≡◌, refl, Bool, true, false, not, ◌&&◌, Option, none,
  some, [], ◌∷◌, ◌++◌, ltb, leb, ◌==◌, if◌then◌else◌, Bytes, codes, length, take, drop, same_bytes,
  arith, Bool-cases, inl, inr,
}
use bpf_ninja.Go.Strconv.Decimal.{length-format_uint}
use bpf_ninja.Record.Types.{
  Ty, Members, Encoding, int, enum, struct, union, array, void, other, last, member, is_opaque,
  is_plain,
}
use bpf_ninja.Record.Layout.{Blob}
use bpf_ninja.Record.Comment.{signed_text}
use bpf_ninja.Record.Comment.Lengths.{length-raw, length-uint, length-hex, length-signed_text}
use bpf_ninja.Record.Sink.{
  Sink, rendering, counting, bool_text, number_text, scalar_span, scalar_text, named, scalar,
  read_uint, visit_scalar, visit_bytes, span_visit, sized_visit, walk_member, walk, raw_bytes,
  show_integer, show_type, show,
}

-- A rendering has grown from the length `k` by no more than the count.
abbrev pub Fits : ℕ → Sink → Sink → Type 0
Fits k (rendering c bytes) (counting n) = length c ≤ k + n
Fits k _ _ = ⊥

length-take-le : (n : ℕ) (s : Bytes) → length (take n s) ≤ n
length-take-le zero s = omega arith
length-take-le (suc n) [] = omega arith
length-take-le (suc n) (b ∷ s) = omega (arith, length-take-le n s)

length-bool_text : (v : ℕ) → length (bool_text v) ≤ 20
unfolding bool_text
length-bool_text v = ground arith

signed_width : (width v : ℕ) → length (signed_text (if ltb width 64 then width else 64) v) ≤ 20
signed_width width v = elim (Bool-cases (ltb width 64)) [
  | inl e ↦ rw e (length-signed_text width v (ground arith))
  | inr e ↦ rw e (length-signed_text 64 v (omega arith))
]

length-number_text : (t : Ty) (width v : ℕ) → length (number_text t width v) ≤ 20
unfolding number_text
length-number_text (int size Encoding.bool) width v = length-bool_text v
length-number_text (int size Encoding.signed) width v = signed_width width v
length-number_text (int size Encoding.unsigned) width v = length-format_uint v
length-number_text (enum size true) width v = signed_width width v
length-number_text (enum size false) width v = length-format_uint v
length-number_text (struct name size members) width v = length-format_uint v
length-number_text (union size members) width v = length-format_uint v
length-number_text (array elem count) width v = length-format_uint v
length-number_text void width v = length-format_uint v
length-number_text (other id) width v = length-format_uint v

length-named :
    (c name : Bytes) (o : Option Bytes)
    → ((t : Bytes) → o ≡ some t → length t ≤ 20)
    → length (named c name o) ≤ length c + (1 + length name + 1 + 20)
unfolding named
length-named c name none h = omega arith
length-named c name (some t) h = ground (arith, length-raw c name (b'=' ∷ t), h t refl)

length-scalar_text :
    (t : Ty) (bytes : Bytes) (off bit bits : ℕ) (o : Option ℕ) (text : Bytes)
    → scalar_text t bytes off bit bits o ≡ some text
    → length text ≤ 20
unfolding scalar_text
length-scalar_text t bytes off bit bits none text e = cc
length-scalar_text t bytes off bit bits (some size) text e =
    elim (Bool-cases (ltb (length bytes) (off + size))) [
      | inl x ↦ cc (rw x at e)
      | inr x ↦
          subst (λ s. length s ≤ 20) (some-injective _ _ (rw x at e)) (length-number_text t _ _)
    ]

visit_scalar-Fits :
    (k : ℕ) (s r : Sink) (name : Bytes) (t : Ty) (off bits : ℕ)
    → Fits k s r
    → Fits k (visit_scalar s name t off bits) (visit_scalar r name t off bits)
unfolding visit_scalar scalar
visit_scalar-Fits k (rendering c bytes) (counting n) name t off bits f = omega (
  arith,
  length-named c name (scalar_text t bytes (off / 8) (off % 8) bits (scalar_span t (off % 8) bits))
      (length-scalar_text t bytes (off / 8) (off % 8) bits (scalar_span t (off % 8) bits)),
)
visit_scalar-Fits k (rendering c bytes) (rendering d bytes') name t off bits f = absurd f
visit_scalar-Fits k (counting n) r name t off bits f = absurd f

visit_bytes-Fits :
    (k : ℕ) (s r : Sink) (name : Bytes) (off size : ℕ)
    → Fits k s r
    → Fits k (visit_bytes s name off size) (visit_bytes r name off size)
unfolding visit_bytes
visit_bytes-Fits k (rendering c bytes) (counting n) name off size f = ground (
  arith,
  length-hex c name (take size (drop (off / 8) bytes)),
  length-take-le size (drop (off / 8) bytes),
)
visit_bytes-Fits k (rendering c bytes) (rendering d bytes') name off size f = absurd f
visit_bytes-Fits k (counting n) r name off size f = absurd f

span_visit-Fits :
    (k : ℕ) (s r : Sink) (name : Bytes) (t : Ty) (off bits n : ℕ) (o : Option ℕ)
    → Fits k s r
    → Fits k (span_visit s name t off bits n o) (span_visit r name t off bits n o)
unfolding span_visit
span_visit-Fits k s r name t off bits n none f = f
span_visit-Fits k s r name t off bits n (some size) f =
    elim (Bool-cases (leb ((off / 8 + size) % 2 ^ 32) n)) [
      | inl e ↦ rw e (visit_scalar-Fits k s r name t off bits f)
      | inr e ↦ rw e f
    ]

sized_visit-Fits :
    (k : ℕ) (s r : Sink) (name : Bytes) (off n : ℕ) (o : Option ℕ)
    → Fits k s r
    → Fits k (sized_visit s name off n o) (sized_visit r name off n o)
unfolding sized_visit
sized_visit-Fits k s r name off n none f = f
sized_visit-Fits k s r name off n (some size) f =
    elim (Bool-cases (ltb 0 size && (off % 8 == 0 && leb (off / 8 + size) n))) [
      | inl e ↦ rw e (visit_bytes-Fits k s r name off size f)
      | inr e ↦ rw e f
    ]

Fits-if :
    (k : ℕ) (b : Bool) (s s' r r' : Sink)
    → Fits k s r
    → Fits k s' r'
    → Fits k (if b then s else s') (if b then r else r')
Fits-if k true s s' r r' f g = f
Fits-if k false s s' r r' f g = g

module _ (sizeof : Ty → Option ℕ) (k : ℕ) where
  mutual
    unfolding walk_member walk

    walk_member-Fits :
        (t : Ty) (s r : Sink) (prefix name : Bytes) (off bits n : ℕ)
        → Fits k s r
        → Fits k
            (walk_member sizeof s prefix name off bits n t)
            (walk_member sizeof r prefix name off bits n t)
    walk_member-Fits (struct tag size members) s r prefix name off bits n f =
        Fits-if k (is_opaque tag) _ _ _ _ f (
          walk-Fits members s r
            (if same_bytes name [] then prefix else prefix ++ (name ++ b'.' ∷ [])) off n f)
    walk_member-Fits (int size encoding) s r prefix name off bits n f =
        span_visit-Fits k s r (prefix ++ name) (int size encoding) off bits n
          (scalar_span (int size encoding) (off % 8) bits) f
    walk_member-Fits (enum size negative) s r prefix name off bits n f =
        span_visit-Fits k s r (prefix ++ name) (enum size negative) off bits n
          (scalar_span (enum size negative) (off % 8) bits) f
    walk_member-Fits (union size members) s r prefix name off bits n f =
        Fits-if k (not (is_plain (union size members))) _ _ _ _ f (
          Fits-if k (same_bytes name []) _ _ _ _ (walk-Fits members s r prefix off n f)
            (sized_visit-Fits k s r (prefix ++ name) off n (sizeof (union size members)) f))
    walk_member-Fits (array elem count) s r prefix name off bits n f =
        Fits-if k (not (is_plain (array elem count))) _ _ _ _ f
          (sized_visit-Fits k s r (prefix ++ name) off n (sizeof (array elem count)) f)
    walk_member-Fits void s r prefix name off bits n f = f
    walk_member-Fits (other id) s r prefix name off bits n f = f

    walk-Fits :
        (members : Members) (s r : Sink) (prefix : Bytes) (base n : ℕ)
        → Fits k s r
        → Fits k (walk sizeof s prefix members base n) (walk sizeof r prefix members base n)
    walk-Fits last s r prefix base n f = f
    walk-Fits (member name offset bits t rest) s r prefix base n f =
        walk-Fits rest (walk_member sizeof s prefix name ((base + offset) % 2 ^ 32) bits n t)
          (walk_member sizeof r prefix name ((base + offset) % 2 ^ 32) bits n t) prefix base n
          (walk_member-Fits t s r prefix name ((base + offset) % 2 ^ 32) bits n f)

  show_type-Fits :
      (s r : Sink) (name : Bytes) (n : ℕ) (t : Option Ty)
      → Fits k s r
      → Fits k (show_type sizeof s name n t) (show_type sizeof r name n t)
  unfolding show_type
  show_type-Fits s r name n none f = visit_bytes-Fits k s r name 0 n f
  show_type-Fits s r name n (some void) f = visit_bytes-Fits k s r name 0 n f
  show_type-Fits s r name n (some (struct tag size members)) f =
      Fits-if k (raw_bytes tag members) _ _ _ _ (visit_bytes-Fits k s r name 0 n f) (
        Fits-if k (not (is_opaque tag)) _ _ _ _ (walk-Fits members s r (name ++ codes "->") 0 n f)
          f)
  show_type-Fits s r name n (some (int size encoding)) f =
      span_visit-Fits k s r (name ++ codes "[0]") (int size encoding) 0 0 n
        (scalar_span (int size encoding) 0 0) f
  show_type-Fits s r name n (some (enum size negative)) f =
      span_visit-Fits k s r (name ++ codes "[0]") (enum size negative) 0 0 n
        (scalar_span (enum size negative) 0 0) f
  show_type-Fits s r name n (some (array elem count)) f =
      Fits-if k (is_plain (array elem count)) _ _ _ _ (visit_bytes-Fits k s r name 0 n f) f
  show_type-Fits s r name n (some (union size members)) f =
      Fits-if k (is_plain (union size members)) _ _ _ _ (visit_bytes-Fits k s r name 0 n f) f
  show_type-Fits s r name n (some (other id)) f = f

  show_integer-Fits :
      (s r : Sink) (name : Bytes) (n : ℕ)
      → Fits k s r
      → Fits k (show_integer s name n) (show_integer r name n)
  unfolding show_integer
  show_integer-Fits (rendering c bytes) (counting m) name n f =
      ground (arith, length-uint c name (read_uint (take n bytes)))
  show_integer-Fits (rendering c bytes) (rendering d bytes') name n f = absurd f
  show_integer-Fits (counting m) r name n f = absurd f

  -- What `show` renders of a key or a value is no longer than what it adds up for it.
  pub show-Fits :
      (s r : Sink) (v : Blob) (n : ℕ) → Fits k s r → Fits k (show sizeof s v n) (show sizeof r v n)
  unfolding show
  show-Fits s r v n f = Fits-if k (n == 0) _ _ _ _ f (
      Fits-if k (not v.pointer) _ _ _ _ (show_integer-Fits s r v.name n f)
        (show_type-Fits s r v.name n v.type f))
