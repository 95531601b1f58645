-- ===== src/Filter/Check/Typed.antt =====
-- The numbers that a filter which `ParseAndValidateFilters` of internal/filter/argfilter.go accepts
-- compares with.
use mathlib.Core.Path.{subst}
use bpf_ninja.Base.{
  ℕ, zero, suc, ◌-◌, ◌*◌, ◌^◌, ◌<◌, ◌≤◌, ◌≡◌, ◌≢◌, refl, ◌⊎◌, inl, inr, Bool, true, false, not,
  ◌&&◌, ◌||◌, ltb, leb, ◌==◌, if◌then◌else◌, arith, Bool-cases,
}
use bpf_ninja.Go.Strconv.{u64_mod}
use bpf_ninja.Filter.Types.{ArgFilterOp, ArgFilter, FuncParamInfo}
use bpf_ninja.Filter.Values.{ok, ParsedFilter, in_range}
use bpf_ninja.Filter.Check.{check_filter, compared, arg_filter, is_range, is_reversed, sign_extend}
use bpf_ninja.Filter.Check.Sound.{by_width}

-- The integers: `negsuc n` is -1 - n.
pub data ℤ : Type 0 where
  pos negsuc : ℕ → ℤ

infix 20 ◌≤ℤ◌
abbrev pub ◌≤ℤ◌ : ℤ → ℤ → Type 0
pos m ≤ℤ pos n = m ≤ n
pos m ≤ℤ negsuc n = ⊥
negsuc m ≤ℤ pos n = Unit {0}
negsuc m ≤ℤ negsuc n = n ≤ m

-- The number that a 64-bit pattern is, as a signed or an unsigned one.
abbrev pub number : Bool → ℕ → ℤ
number false v = pos v
number true v = if ltb v (2 ^ 63) then pos v else negsuc (2 ^ 64 - 1 - v)

-- The numbers from -b to b - 1.
abbrev pub WithinSigned : ℕ → ℤ → Type 0
WithinSigned b (pos n) = n < b
WithinSigned b (negsuc n) = n < b

-- The numbers from 0 to b - 1.
abbrev pub WithinUnsigned : ℕ → ℤ → Type 0
WithinUnsigned b (pos n) = n < b
WithinUnsigned b (negsuc n) = ⊥

-- The numbers of a type of `size` bytes.
abbrev pub InType : Bool → ℕ → ℤ → Type 0
InType true size = WithinSigned (2 ^ (8 * size - 1))
InType false size = WithinUnsigned (2 ^ (8 * size))

-- The filter has the argument's type and the operator and ends that were parsed, where only a
-- network-order literal may be compared as another pattern. Its value is a number of that type, and, if it compares with a
-- range, so is its other end, which is not below the first.
pub record IsTyped (pf : ParsedFilter) (p : FuncParamInfo) (f : ArgFilter) : Type 0 where
  pub same_size : f.param_size ≡ p.size
  pub same_sign : f.signed ≡ p.signed
  pub same_op : f.op ≡ pf.op
  pub same_max : f.max_value ≡ pf.max_value
  pub kept : (f.value ≡ pf.value) ⊎ (pf.big_endian ≢ 0)
  pub lower : InType p.signed p.size (number p.signed f.value)
  pub upper :
      (f.op ≢ ArgFilterOp.range)
      ⊎ (InType p.signed p.size (number p.signed f.max_value)
          × (number p.signed f.value ≤ℤ number p.signed f.max_value))

and_right : (a b : Bool) → (a && b) ≡ true → b ≡ true
and_right true b e = e
and_right false b e = cc

number-WithinSigned :
    (v b : ℕ)
    → v < 2 ^ 64
    → b ≤ 2 ^ 63
    → (ltb v b || leb (u64_mod - b) v) ≡ true
    → WithinSigned b (number true v)
number-WithinSigned v b w h e = elim (Bool-cases (ltb v (2 ^ 63))) [
  | inl a ↦ rw a (ground (arith, e, a))
  | inr a ↦ rw a (ground (arith, e, a))
]

bound_le : (size : ℕ) → size ≤ 8 → 2 ^ (8 * size - 1) ≤ 2 ^ 63
bound_le zero h = omega arith
bound_le (suc size) h = elim (Bool-cases (ltb (suc size) 8)) [
  | inl a ↦
      by_width (λ n. 2 ^ (8 * n - 1) ≤ 2 ^ 63) (suc size) (omega arith) (ground (arith, a))
        (omega arith, omega arith, omega arith, omega arith, omega arith, omega arith, omega arith)
  | inr a ↦ let e : suc size ≡ 8 = ground (arith, a) in rw e (omega arith)
]

in_range-InType :
    (v size : ℕ) (signed : Bool)
    → v < 2 ^ 64
    → size ≤ 8
    → in_range v size signed ≡ true
    → InType signed size (number signed v)
unfolding in_range
in_range-InType v size signed w h e = elim (Bool-cases (leb 8 size)) [
  | inl a ↦ let n : size ≡ 8 = ground (arith, a) in rw n (whole signed)
  | inr a ↦ narrow signed (rw a at e)
]
  where
    whole : (s : Bool) → InType s 8 (number s v)
    whole true = number-WithinSigned v (2 ^ 63) w (omega arith) (ground arith)
    whole false = w

    narrow :
        (s : Bool)
        → (if s
            then not (size == 0)
              && (ltb v (2 ^ (8 * size - 1)) || leb (u64_mod - 2 ^ (8 * size - 1)) v)
            else ltb v (2 ^ (8 * size)))
          ≡ true
        → InType s size (number s v)
    narrow true r = number-WithinSigned v (2 ^ (8 * size - 1)) w (bound_le size h) (and_right _ _ r)
    narrow false r = ground (arith, r)

in_order :
    (signed : Bool) (lo hi : ℕ)
    → lo < 2 ^ 64
    → hi < 2 ^ 64
    → is_reversed signed lo hi ≡ false
    → number signed lo ≤ℤ number signed hi
unfolding is_reversed
in_order false lo hi l h e = ground (arith, e)
in_order true lo hi l h e = elim (Bool-cases (ltb lo (2 ^ 63))) [
  | inl a ↦ elim (Bool-cases (ltb hi (2 ^ 63))) [
    | inl b ↦ rw (a, b) (ground (arith, e, a, b))
    | inr b ↦ rw (a, b) (ground (arith, e, a, b))
  ]
  | inr a ↦ elim (Bool-cases (ltb hi (2 ^ 63))) [
    | inl b ↦ rw (a, b) tt
    | inr b ↦ rw (a, b) (ground (arith, e, a, b))
  ]
]

-- A number that is sign-extended has 64 bits.
sign_extend-fits : (size v : ℕ) → size < 8 → sign_extend size v < 2 ^ 64
unfolding sign_extend
sign_extend-fits zero v h = ground arith
sign_extend-fits (suc size) v h =
    by_width (λ n. sign_extend n v < 2 ^ 64) (suc size) (omega arith) h
      (
        ground arith,
        ground arith,
        ground arith,
        ground arith,
        ground arith,
        ground arith,
        ground arith,
      )

compared-fits : (pf : ParsedFilter) (p : FuncParamInfo) → pf.value < 2 ^ 64 → compared pf p < 2 ^ 64
unfolding compared
compared-fits pf p h = elim (Bool-cases (not (pf.big_endian == 0) && (p.signed && ltb p.size 8))) [
  | inl a ↦
      rw a (sign_extend-fits p.size pf.value (ltb-below p.size (and_right _ _ (and_right _ _ a))))
  | inr a ↦ rw a h
]
  where
    ltb-below : (n : ℕ) → ltb n 8 ≡ true → n < 8
    ltb-below n e = ground (arith, e)

-- Only a network-order literal is compared as another pattern.
compared-kept :
    (pf : ParsedFilter) (p : FuncParamInfo) → (compared pf p ≡ pf.value) ⊎ (pf.big_endian ≢ 0)
unfolding compared
compared-kept pf p = elim (Bool-cases (not (pf.big_endian == 0))) [
  | inl a ↦ inr (λ z. cc (rw z at a))
  | inr a ↦ inl (rw a refl)
]

not_range_or : (op : ArgFilterOp) → (op ≢ ArgFilterOp.range) ⊎ (is_range op ≡ true)
unfolding is_range
not_range_or ArgFilterOp.equal = inl (λ e. cc)
not_range_or ArgFilterOp.greater_equal = inl (λ e. cc)
not_range_or ArgFilterOp.less_equal = inl (λ e. cc)
not_range_or ArgFilterOp.range = inr refl
not_range_or ArgFilterOp.not_equal = inl (λ e. cc)

both : (a b : Bool) → a ≡ true → (a && b) ≡ false → b ≡ false
both a b p e = cc (rw p at e)

not-false : (b : Bool) → not b ≡ false → b ≡ true
not-false true e = refl
not-false false e = cc

ok-injective : (f g : ArgFilter) → ok f ≡ ok g → f ≡ g
ok-injective f g e = cc

module _ (pf : ParsedFilter) (p : FuncParamInfo) (value_fits : pf.value < 2 ^ 64)
    (max_fits : pf.max_value < 2 ^ 64) (small : p.size ≤ 8) where
  arg_filter-IsTyped :
      in_range (compared pf p) p.size p.signed ≡ true
      → (is_range pf.op && not (in_range pf.max_value p.size p.signed)) ≡ false
      → (is_range pf.op && is_reversed p.signed (compared pf p) pf.max_value) ≡ false
      → IsTyped pf p (arg_filter pf p)
  unfolding arg_filter
  arg_filter-IsTyped a b c = record {
    same_size = refl;
    same_sign = refl;
    same_op = refl;
    same_max = refl;
    kept = compared-kept pf p;
    lower = in_range-InType (compared pf p) p.size p.signed (compared-fits pf p value_fits) small a;
    upper = elim (not_range_or pf.op) [
      | inl n ↦ inl n
      | inr r ↦ inr (
        in_range-InType pf.max_value p.size p.signed max_fits small (not-false _ (both _ _ r b)),
        in_order p.signed (compared pf p) pf.max_value (compared-fits pf p value_fits) max_fits
            (both _ _ r c),
      )
    ];
  }

  -- A filter that `check_filter` accepts has the argument's type and the parsed operator, and compares
  -- with a number of that type, or with a range whose two ends are numbers of that type and in their
  -- order: the parsed ones, but for the pattern of a network-order literal. The argument has at most
  -- eight bytes, and the two parsed values have 64 bits.
  pub check_filter-IsTyped : (f : ArgFilter) → check_filter pf p ≡ ok f → IsTyped pf p f
  unfolding check_filter
  check_filter-IsTyped f e =
      elim (Bool-cases (not (pf.big_endian == 0) && not (pf.big_endian == p.size))) [
        | inl a ↦ cc (rw (a, check_filter) at e)
        | inr a ↦ elim (Bool-cases (not (in_range (compared pf p) p.size p.signed))) [
          | inl b ↦ cc (rw (a, b, check_filter) at e)
          | inr b ↦
              elim (Bool-cases (is_range pf.op && not (in_range pf.max_value p.size p.signed))) [
                | inl c ↦ cc (rw (a, b, c, check_filter) at e)
                | inr c ↦
                    elim (Bool-cases
                      (is_range pf.op && is_reversed p.signed (compared pf p) pf.max_value)) [
                        | inl d ↦ cc (rw (a, b, c, d, check_filter) at e)
                        | inr d ↦
                            subst (IsTyped pf p)
                              (ok-injective (arg_filter pf p) f
                                (rw (a, b, c, d, check_filter) at e))
                              (arg_filter-IsTyped (not-false _ b) c d)
                      ]
              ]
        ]
      ]
