-- ===== src/Record/Types.antt =====
-- The BTF types that internal/record looks at, and internal/hookabi/hookabi.go's rule for what may
-- be shown. A type stands as `btf.UnderlyingType` gives it, with no typedef or qualifier on it, at
-- every place where the program asks for that.
use bpf_ninja.Base.{
  ℕ, ◌+◌, Bool, true, false, not, ◌&&◌, ◌||◌, ltb, if◌then◌else◌, Bytes, codes, same_bytes,
}
use bpf_ninja.Go.Strings.{has_prefix}

-- `btf.IntEncoding`
pub data Encoding : Type 0 where
  signed bool unsigned : Encoding

mutual
  -- The kinds of type that the program tells apart: an integer and an enum with their sizes, a struct
  -- and a union with their sizes and members, an array with its elements' type and their
  -- number, and any other type with the number by which BTF has it.
  pub data Ty : Type 0 where
    int : ℕ → Encoding → Ty
    enum : ℕ → Bool → Ty
    struct : Bytes → ℕ → Members → Ty
    union : ℕ → Members → Ty
    array : Ty → ℕ → Ty
    void : Ty
    other : ℕ → Ty

  -- The members of a struct or a union: name, offset in bits, width of a bit field or 0, and type.
  pub data Members : Type 0 where
    last : Members
    member : Bytes → ℕ → ℕ → Ty → Members → Members

-- `Opaque`, on a struct's name
unfoldable pub is_opaque : Bytes → Bool
unfolding same_bytes has_prefix
is_opaque name =
    if same_bytes name (codes "bpf_lpm_trie_key")
      || (same_bytes name (codes "bpf_lpm_trie_key_hdr")
          || same_bytes name (codes "bpf_lpm_trie_key_u8"))
    then false
    else has_prefix name (codes "bpf_")

-- `plain`, at a depth
unfoldable mutual
  pub plain_at : ℕ → Ty → Bool
  plain_at depth (int size encoding) = not (ltb 32 depth)
  plain_at depth (enum size negative) = not (ltb 32 depth)
  plain_at depth (array elem count) = not (ltb 32 depth) && plain_at (depth + 1) elem
  plain_at depth (struct name size members) =
      not (ltb 32 depth) && (not (is_opaque name) && plain_members (depth + 1) members)
  plain_at depth (union size members) = not (ltb 32 depth) && plain_members (depth + 1) members
  plain_at depth void = false
  plain_at depth (other id) = false

  pub plain_members : ℕ → Members → Bool
  plain_members depth last = true
  plain_members depth (member name offset bits t rest) =
      plain_at depth t && plain_members depth rest

-- `Plain`
unfoldable pub is_plain : Ty → Bool
unfolding plain_at is_opaque
is_plain t = plain_at 0 t
