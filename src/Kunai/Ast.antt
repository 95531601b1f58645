-- ===== src/Kunai/Ast.antt =====
-- pkg/kunai/ast: positions, literal values, and the syntax tree of a filter. What a Go node keeps in
-- one struct with a kind is a data type with the fields of each kind.
use bpf_ninja.Base.{ℕ, Bool, Option, List, Bytes}

-- `Position`, both counted from 1.
pub record Position : Type 0 where
  pub line : ℕ
  pub col : ℕ

-- What a `Value` holds for each `ValueKind`; an integer is its 64-bit pattern.
pub data Literal : Type 0 where
  int : ℕ → Bool → Literal
  ipv4 ipv6 mac : Bytes → Literal
  cidr4 cidr6 : Bytes → ℕ → Literal
  range : ℕ → ℕ → Literal
  ident : Bytes → Literal

-- `Value`
pub record Value : Type 0 where
  pub raw : Bytes
  pub literal : Literal
  pub pos : Position

-- `CmpOp`
pub data CmpOp : Type 0 where
  eq neq lt le gt ge : CmpOp

-- `ArithOp`
pub data ArithOp : Type 0 where
  add sub mul div rem and or xor shl shr : ArithOp

mutual
  -- `FieldPath`
  pub data FieldPath : Type 0 where
    path : Segments → Position → FieldPath

  -- `Parts` with `Indices`: each part with the index behind it.
  pub data Segments : Type 0 where
    end : Segments
    segment : Bytes → Index → Segments → Segments

  -- `IndexExpr`; `unindexed` is a nil one.
  pub data Index : Type 0 where
    unindexed : Index
    at : ℕ → Position → Index
    slice : ℕ → ℕ → Position → Index
    by_field : FieldPath → Position → Index

-- What a `Predicate` tests; a `Value` is a pointer, and `none` a nil one.
pub data Test : Type 0 where
  cmp : CmpOp → Option Value → Test
  in_list : List (Option Value) → Test
  has in_set : Bytes → Test
  valid : Test

-- `Predicate`
pub record Predicate : Type 0 where
  pub field : FieldPath
  pub test : Test
  pub pos : Position

-- `ArithExpr`: a constant has its low and high 64 bits, its sign and its width mark.
pub data ArithExpr : Type 0 where
  const : ℕ → ℕ → Bool → Bool → Position → ArithExpr
  field : FieldPath → Position → ArithExpr
  binop : ArithOp → ArithExpr → ArithExpr → Position → ArithExpr

-- `WhereExpr`
pub data WhereExpr : Type 0 where
  or and : WhereExpr → WhereExpr → Position → WhereExpr
  not any all : WhereExpr → Position → WhereExpr
  arith : ArithExpr → CmpOp → ArithExpr → Position → WhereExpr
  literal : FieldPath → CmpOp → Value → Position → WhereExpr
  action : Bytes → Position → WhereExpr
  bool_lit : Bool → Position → WhereExpr
  exists valid : FieldPath → Position → WhereExpr
  bool_eq : WhereExpr → CmpOp → WhereExpr → Position → WhereExpr

-- `QuantKind` with the bounds of a range; `none` is an open upper bound.
pub data Quant : Type 0 where
  one opt plus star : Quant
  range : ℕ → Option ℕ → Quant

mutual
  -- `Layer`
  pub data Layer : Type 0 where
    proto : Bytes → Bytes → List Predicate → Quant → Position → Layer
    group : Layers → Quant → Position → Layer

  -- A list of layers.
  pub data Layers : Type 0 where
    nil : Layers
    cons : Layer → Layers → Layers

-- `CaptureKind` with what each kind holds; a count is a 64-bit pattern.
pub data CaptureSpec : Type 0 where
  all headers : CaptureSpec
  headers_plus absolute : ℕ → CaptureSpec
  fields : List FieldPath → CaptureSpec
  to_layer : Bytes → ℕ → CaptureSpec

-- `CaptureClause`; it is unsupported if it captures fields.
pub record CaptureClause : Type 0 where
  pub spec : CaptureSpec
  pub where_expr : Option WhereExpr
  pub pos : Position

-- `Filter`
pub record Filter : Type 0 where
  pub layers : Layers
  pub where_expr : Option WhereExpr
  pub captures : List CaptureClause
  pub pos : Position
