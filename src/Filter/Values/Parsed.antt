-- ===== src/Filter/Values/Parsed.antt =====
-- What an expression that `ParseArgFilter` of internal/filter/argfilter.go accepts promises.
use bpf_ninja.Base.{◌≤◌, ◌≡◌, ◌≢◌, ◌⊎◌, true, false, some, Bytes, codes}
use bpf_ninja.Go.Strings.{trim_space, cut_dots}
use bpf_ninja.Filter.Types.{ArgFilterOp}
use bpf_ninja.Filter.Values.{Checked, ok, fail, ParsedFilter, signed_rank, parse_filter_value}

abbrev pub IsEquality : ArgFilterOp → Type 0
IsEquality op = (op ≡ ArgFilterOp.equal) ⊎ (op ≡ ArgFilterOp.not_equal)

-- The two ends that stand on the right, each with its value and the width of a network-order
-- literal, or 0.
pub record Ends (rhs lo hi : Bytes) (pf : ParsedFilter) : Type 0 where
  pub splits : cut_dots rhs ≡ some (lo, hi)
  pub lower : parse_filter_value (trim_space lo) ≡ ok (pf.value, 0)
  pub upper : parse_filter_value (trim_space hi) ≡ ok (pf.max_value, 0)

-- The filter of a right-hand side: a test for null by an equality; one value, by an equality if it is
-- a network-order literal; or a range of two values of which none is a network-order literal, the
-- lower one not above the upper one as an unsigned or as a signed number.
pub data IsCoherent (rhs : Bytes) (pf : ParsedFilter) : Type 0 where
  null_test :
      rhs ≡ codes "null" → pf.null ≡ true → pf.big_endian ≡ 0 → IsEquality pf.op → IsCoherent rhs pf
  one :
      pf.null ≡ false
      → parse_filter_value (trim_space rhs) ≡ ok (pf.value, pf.big_endian)
      → pf.op ≢ ArgFilterOp.range
      → (pf.big_endian ≡ 0) ⊎ IsEquality pf.op
      → IsCoherent rhs pf
  two :
      (lo hi : Bytes)
      → pf.null ≡ false
      → pf.op ≡ ArgFilterOp.range
      → pf.big_endian ≡ 0
      → Ends rhs lo hi pf
      → (pf.value ≤ pf.max_value) ⊎ (signed_rank pf.value ≤ signed_rank pf.max_value)
      → IsCoherent rhs pf

Coherent : Bytes → Checked ParsedFilter → Type 0
Coherent rhs (ok pf) = IsCoherent rhs pf
Coherent rhs (fail why) = Unit {0}
