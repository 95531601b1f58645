-- ===== src/Filter/Check/Sound.antt =====
-- Network-order literals in `ParseAndValidateFilters` of internal/filter/argfilter.go.
use bpf_ninja.Base.{
  ℕ, zero, suc, ◌*◌, ◌%◌, ◌^◌, ◌<◌, ◌≡◌, ◌≢◌, refl, Bool, true, false, not, ◌&&◌, ltb, ◌==◌, arith,
  Bool-cases, inl, inr,
}
use bpf_ninja.Filter.Types.{ArgFilterOp, ArgFilter, FuncParamInfo}
use bpf_ninja.Filter.Values.{ok, ParsedFilter, in_range}
use bpf_ninja.Filter.Check.{check_filter, compared, arg_filter, is_range, sign_extend}

-- The widths of less than eight bytes.
pub by_width :
    (q : ℕ → Type 0) (n : ℕ) → 0 < n → n < 8 → q 1 × q 2 × q 3 × q 4 × q 5 × q 6 × q 7 → q n
by_width q zero p h all = absurd (omega arith)
by_width q (suc zero) p h all = all.0
by_width q (suc (suc zero)) p h all = all.1
by_width q (suc (suc (suc zero))) p h all = all.2
by_width q (suc (suc (suc (suc zero)))) p h all = all.3
by_width q (suc (suc (suc (suc (suc zero))))) p h all = all.4
by_width q (suc (suc (suc (suc (suc (suc zero)))))) p h all = all.5
by_width q (suc (suc (suc (suc (suc (suc (suc zero))))))) p h all = all.6
by_width q (suc (suc (suc (suc (suc (suc (suc (suc n)))))))) p h all = absurd (omega arith)

-- A sign-extended number of `size` bytes is a number of that type, and its low bytes are the
-- number's.
Extends : ℕ → ℕ → Type 0
Extends v size =
    (in_range (sign_extend size v) size true ≡ true)
    × (sign_extend size v % 2 ^ (8 * size) ≡ v % 2 ^ (8 * size))

sign_extend-Extends : (size v : ℕ) → 0 < size → size < 8 → Extends v size
unfolding sign_extend in_range Extends
sign_extend-Extends size v p h = by_width (Extends v) size p h (
  (ground arith, ground arith),
  (ground arith, ground arith),
  (ground arith, ground arith),
  (ground arith, ground arith),
  (ground arith, ground arith),
  (ground arith, ground arith),
  (ground arith, ground arith),
)

and-both : (a b : Bool) → (a && b) ≡ true → (a ≡ true) × (b ≡ true)
and-both true b e = (refl, e)
and-both false b e = cc

-- A number of an unsigned type is one of the signed type too, if that has 64 bits.
kept :
    (size : ℕ) (signed : Bool) (v : ℕ)
    → in_range v size false ≡ true
    → (signed && ltb size 8) ≡ false
    → in_range v size signed ≡ true
unfolding in_range
kept size false v r e = r
kept size true v r e = ground arith

not_range : (op : ArgFilterOp) → op ≢ ArgFilterOp.range → is_range op ≡ false
unfolding is_range
not_range ArgFilterOp.equal n = refl
not_range ArgFilterOp.greater_equal n = refl
not_range ArgFilterOp.less_equal n = refl
not_range ArgFilterOp.range n = absurd (n refl)
not_range ArgFilterOp.not_equal n = refl

compared-pattern :
    (pf : ParsedFilter) (p : FuncParamInfo)
    → 0 < p.size
    → in_range pf.value p.size false ≡ true
    → pf.big_endian ≡ p.size
    → (in_range (compared pf p) p.size p.signed ≡ true)
      × (compared pf p % 2 ^ (8 * p.size) ≡ pf.value % 2 ^ (8 * p.size))
unfolding compared
compared-pattern pf p z r e = elim (Bool-cases (p.signed && ltb p.size 8)) [
  | inl a ↦ rw (network, a) (extended (and-both p.signed (ltb p.size 8) a))
  | inr a ↦ rw (network, a) (kept p.size p.signed pf.value r a, refl)
]
  where
    network : not (pf.big_endian == 0) ≡ true
    network = ground arith

    extended :
        (p.signed ≡ true) × (ltb p.size 8 ≡ true)
        → (in_range (sign_extend p.size pf.value) p.size p.signed ≡ true)
          × (sign_extend p.size pf.value % 2 ^ (8 * p.size) ≡ pf.value % 2 ^ (8 * p.size))
    extended (a, b) = rw a (unfold Extends in sign_extend-Extends p.size pf.value z (ground arith))

-- A network-order literal that fits its width, in a filter other than a range, is accepted for every
-- argument of that width, signed or not, and the filter compares with a value whose low bytes are the
-- literal's.
pub check_filter-network :
    (pf : ParsedFilter) (p : FuncParamInfo)
    → 0 < p.size
    → in_range pf.value p.size false ≡ true
    → pf.big_endian ≡ p.size
    → pf.op ≢ ArgFilterOp.range
    → (f : ArgFilter) × ((check_filter pf p ≡ ok f)
        × (f.value % 2 ^ (8 * p.size) ≡ pf.value % 2 ^ (8 * p.size)))
unfolding check_filter arg_filter
check_filter-network pf p z r e ne = (
  arg_filter pf p,
  (
    rw (same_width, not_range pf.op ne, (compared-pattern pf p z r e).0) refl,
    (compared-pattern pf p z r e).1,
  ),
)
  where
    same_width : (not (pf.big_endian == 0) && not (pf.big_endian == p.size)) ≡ false
    same_width = ground arith
