-- ===== src/Kunai/Parser/WellFormed.antt =====
-- What a syntax tree of pkg/kunai/ast promises to the resolver.
use bpf_ninja.Base.{
  Every, ℕ, suc, ◌<◌, ◌≤◌, ◌^◌, ◌≡◌, ◌≢◌, ◌⊎◌, Bool, true, false, Option, none, some, [], Bytes,
}
use bpf_ninja.Go.Strconv.{u64_mod}
use bpf_ninja.Kunai.Ast.{
  FieldPath, path, Segments, segment, end, Index, unindexed, at, slice, by_field, Test, Predicate,
  ArithExpr, WhereExpr, Quant, Layer, proto, group, Layers, nil, cons, CaptureSpec, CaptureClause,
  Filter,
}
use bpf_ninja.Kunai.Lexer.Literals.Valid.{IsValidLiteral}
use bpf_ninja.Kunai.Lexer.Scan.Payload.{IsGiven}
use bpf_ninja.Kunai.Parser.Paths.{any_index, has_any_index}
use bpf_ninja.Kunai.Parser.Where.{equality_op}
use bpf_ninja.Kunai.Parser.Literal.{is_network}
use bpf_ninja.Kunai.Parser.Layers.{max_alt_depth}

unfoldable mutual
  -- Every part of a path has a name, and its index is well formed.
  pub IsSegments : Segments → Type 0
  IsSegments end = Unit {0}
  IsSegments (segment name i rest) = (name ≢ []) × IsIndex i × IsSegments rest

  -- A slice is not empty, and the field of an index has no index of its own.
  pub IsIndex : Index → Type 0
  IsIndex unindexed = Unit {0}
  IsIndex (at n pos) = n < u64_mod
  IsIndex (slice lo hi pos) = (lo < hi) × (hi < u64_mod)
  IsIndex (by_field f pos) = IsPath f × (has_any_index f ≡ false)

  pub IsPath : FieldPath → Type 0
  IsPath (path s pos) = (s ≢ end) × IsSegments s

unfoldable pub parts : Segments → ℕ
parts end = 0
parts (segment name i rest) = suc (parts rest)

-- Values are there and well formed, lists of them and names are not empty, and the test of
-- validity stands on one part with no index.
abbrev pub IsTestOf : FieldPath → Test → Type 0
IsTestOf f (Test.cmp op v) = IsGiven v
IsTestOf f (Test.in_list vs) = (vs ≢ []) × Every IsGiven vs
IsTestOf f (Test.has name) = name ≢ []
IsTestOf f (Test.in_set name) = name ≢ []
IsTestOf (path s pos) Test.valid = (parts s ≡ 1) × (any_index s ≡ false)

abbrev pub IsPredicate : Predicate → Type 0
IsPredicate p = IsPath p.field × IsTestOf p.field p.test

-- A constant fits 64 bits, or 128 if it is marked wide; a negative one is the pattern of a signed
-- 64-bit number.
unfoldable pub IsArith : ArithExpr → Type 0
unfolding IsPath
IsArith (ArithExpr.const lo hi negative wide pos) =
    (lo < u64_mod)
    × (hi < u64_mod)
    × (wide ≡ false → hi ≡ 0)
    × (negative ≡ true → (lo ≡ 0) ⊎ (2 ^ 63 ≤ lo))
IsArith (ArithExpr.field f pos) = IsPath f
IsArith (ArithExpr.binop op l r pos) = IsArith l × IsArith r

abbrev pub IsOptionPath : FieldPath → Type 0
IsOptionPath (path s pos) = IsSegments s × (parts s ≡ 2) × (any_index s ≡ false)

abbrev pub IsAuxPath : FieldPath → Type 0
IsAuxPath (path s pos) = IsSegments s

-- A network literal and a Boolean are compared by `==` and `!=` only.
unfoldable pub IsWhere : WhereExpr → Type 0
unfolding IsPath IsArith equality_op is_network
IsWhere (WhereExpr.or l r pos) = IsWhere l × IsWhere r
IsWhere (WhereExpr.and l r pos) = IsWhere l × IsWhere r
IsWhere (WhereExpr.not e pos) = IsWhere e
IsWhere (WhereExpr.any e pos) = IsWhere e
IsWhere (WhereExpr.all e pos) = IsWhere e
IsWhere (WhereExpr.arith a op b pos) = IsArith a × IsArith b
IsWhere (WhereExpr.literal f op v pos) =
    IsPath f × (equality_op op ≡ true) × (is_network v.literal ≡ true) × IsValidLiteral v.literal
IsWhere (WhereExpr.action name pos) = name ≢ []
IsWhere (WhereExpr.bool_lit b pos) = Unit {0}
IsWhere (WhereExpr.exists f pos) = IsAuxPath f
IsWhere (WhereExpr.valid f pos) = IsOptionPath f
IsWhere (WhereExpr.bool_eq l op r pos) = IsWhere l × (equality_op op ≡ true) × IsWhere r

abbrev pub IsOptional : {A : Type 0} → (A → Type 0) → Option A → Type 0
IsOptional W none = Unit {0}
IsOptional W (some a) = W a

-- The bounds of a range are in order.
abbrev pub IsQuant : Quant → Type 0
IsQuant (Quant.range lo hi) = (lo < 2 ^ 63) × IsOptional (λ h. (lo ≤ h) × (h < 2 ^ 63)) hi
IsQuant _ = Unit {0}

abbrev pub HasTwo : Layers → Type 0
HasTwo (cons a (cons b ls)) = Unit {0}
HasTwo _ = ⊥

unfoldable mutual
  unfolding IsPath IsSegments IsIndex

  -- A layer inside `d` alternations: its label is not reserved, alternations have two branches or
  -- more and stand in fewer than 16 others.
  pub IsLayer : (Bytes → Bool) → ℕ → Layer → Type 0
  IsLayer reserved d (proto name label preds q pos) =
      (name ≢ []) × ((label ≡ []) ⊎ (reserved label ≡ false)) × Every IsPredicate preds × IsQuant q
  IsLayer reserved d (group branches q pos) =
      (d < max_alt_depth) × HasTwo branches × IsLayers reserved (suc d) branches × IsQuant q

  pub IsLayers : (Bytes → Bool) → ℕ → Layers → Type 0
  IsLayers reserved d nil = Unit {0}
  IsLayers reserved d (cons l ls) = IsLayer reserved d l × IsLayers reserved d ls

abbrev pub IsSpec : CaptureSpec → Type 0
IsSpec CaptureSpec.all = Unit {0}
IsSpec CaptureSpec.headers = Unit {0}
IsSpec (CaptureSpec.headers_plus n) = n < u64_mod
IsSpec (CaptureSpec.absolute n) = n < u64_mod
IsSpec (CaptureSpec.fields fs) = (fs ≢ []) × Every IsPath fs
IsSpec (CaptureSpec.to_layer name n) = (name ≢ []) × (n < u64_mod)

abbrev pub IsCapture : CaptureClause → Type 0
IsCapture c = IsSpec c.spec × IsOptional IsWhere c.where_expr

abbrev pub IsFilter : (Bytes → Bool) → Filter → Type 0
IsFilter reserved f =
    (f.layers ≢ nil)
    × IsLayers reserved 0 f.layers
    × IsOptional IsWhere f.where_expr
    × Every IsCapture f.captures
