-- ===== src/Kunai/Parser/Where.antt =====
-- pkg/kunai/parser/where.go: the operands of a where clause and how operators combine them.
pub mod Sound
use bpf_ninja.Base.{
  ℕ, Bool, true, false, ◌&&◌, Option, none, some, if◌then◌else◌, codes, same_bytes,
}
use bpf_ninja.Kunai.Ast.{
  Position, FieldPath, path, Segments, segment, end, CmpOp, ArithOp, ArithExpr, WhereExpr, Value,
}
use bpf_ninja.Kunai.Lexer.Token.{TokenKind, Token}
use bpf_ninja.Kunai.Parser.State.{P, ◌>>=◌, pure, complain, Complaint, is_kind}
use bpf_ninja.Kunai.Parser.Paths.{any_index}
use bpf_ninja.Kunai.Parser.Predicates.{cmp_op_for}

-- The pointer of a `whereValue` that is not nil.
pub data Operand : Type 0 where
  of_arith : ArithExpr → Operand
  of_bool : WhereExpr → Operand
  of_literal : Value → Operand

-- `whereValue`
pub record WhereValue : Type 0 where
  pub operand : Operand
  pub pos : Position

abbrev pub valued : Operand → Position → WhereValue
valued o pos = record { operand = o; pos = pos }

abbrev pub max_paren_depth : ℕ
max_paren_depth = 32

abbrev pub prec_or : ℕ
prec_or = 1

abbrev pub prec_not : ℕ
prec_not = 3

abbrev pub prec_cmp : ℕ
prec_cmp = 4

-- `wherePrecedence`
unfoldable pub where_precedence : TokenKind → ℕ
where_precedence TokenKind.kw_or = prec_or
where_precedence TokenKind.kw_and = 2
where_precedence TokenKind.eq_eq = prec_cmp
where_precedence TokenKind.neq = prec_cmp
where_precedence TokenKind.lt = prec_cmp
where_precedence TokenKind.le = prec_cmp
where_precedence TokenKind.gt = prec_cmp
where_precedence TokenKind.ge = prec_cmp
where_precedence TokenKind.plus = 5
where_precedence TokenKind.minus = 5
where_precedence TokenKind.pipe = 5
where_precedence TokenKind.caret = 5
where_precedence TokenKind.star = 6
where_precedence TokenKind.slash = 6
where_precedence TokenKind.percent = 6
where_precedence TokenKind.amp = 6
where_precedence TokenKind.shl = 6
where_precedence TokenKind.shr = 6
where_precedence _ = 0

-- The operator of an arithmetic token; `ArithAdd` is the zero value of the type.
arith_op_for : TokenKind → ArithOp
arith_op_for TokenKind.minus = ArithOp.sub
arith_op_for TokenKind.pipe = ArithOp.or
arith_op_for TokenKind.caret = ArithOp.xor
arith_op_for TokenKind.star = ArithOp.mul
arith_op_for TokenKind.slash = ArithOp.div
arith_op_for TokenKind.percent = ArithOp.rem
arith_op_for TokenKind.amp = ArithOp.and
arith_op_for TokenKind.shl = ArithOp.shl
arith_op_for TokenKind.shr = ArithOp.shr
arith_op_for _ = ArithOp.add

operand_bool : Position → Operand → P WhereExpr
operand_bool pos (of_bool w) = pure w
operand_bool pos (of_arith a) =
    pure (WhereExpr.arith a CmpOp.neq (ArithExpr.const 0 0 false false pos) pos)
operand_bool pos (of_literal v) = complain pos Complaint.literal_alone

-- `whereBool`
unfoldable pub where_bool : WhereValue → P WhereExpr
unfolding operand_bool
where_bool v = operand_bool v.pos v.operand

unfoldable pub is_bool : Operand → Bool
is_bool (of_bool w) = true
is_bool _ = false

unfoldable pub equality_op : CmpOp → Bool
equality_op CmpOp.eq = true
equality_op CmpOp.neq = true
equality_op _ = false

-- A network literal against the other operand, which has to be a field.
literal_cmp : WhereValue → Position → CmpOp → Operand → Value → P WhereValue
literal_cmp left pos op (of_arith (ArithExpr.field f at)) v =
    pure (valued (of_bool (WhereExpr.literal f op v left.pos)) left.pos)
literal_cmp left pos op _ v = complain pos Complaint.literal_needs_field

-- A comparison with a Boolean operand.
bool_cmp : WhereValue → Position → CmpOp → WhereValue → P WhereValue
unfolding where_bool equality_op
bool_cmp left pos op right =
    if equality_op op
    then (do
      l ← where_bool left
      r ← where_bool right
      pure (valued (of_bool (WhereExpr.bool_eq l op r left.pos)) left.pos))
    else complain pos Complaint.ordered_bool

combine_cmp : WhereValue → Position → CmpOp → WhereValue → Operand → Operand → P WhereValue
unfolding literal_cmp bool_cmp equality_op
combine_cmp left pos op right (of_literal v) o =
    if equality_op op then literal_cmp left pos op o v else complain pos Complaint.ordered_literal
combine_cmp left pos op right o (of_literal v) =
    if equality_op op then literal_cmp left pos op o v else complain pos Complaint.ordered_literal
combine_cmp left pos op right (of_arith a) (of_arith b) =
    pure (valued (of_bool (WhereExpr.arith a op b left.pos)) left.pos)
combine_cmp left pos op right _ _ = bool_cmp left pos op right

combine_arith : WhereValue → Token → Operand → Operand → P WhereValue
unfolding arith_op_for
combine_arith left t (of_arith a) (of_arith b) =
    pure (valued (of_arith (ArithExpr.binop (arith_op_for t.kind) a b t.pos)) left.pos)
combine_arith left t _ _ = complain t.pos Complaint.arith_needs_integers

combine_logic :
    (WhereExpr → WhereExpr → Position → WhereExpr)
    → WhereValue
    → Position
    → WhereValue
    → P WhereValue
unfolding where_bool
combine_logic node left pos right = do
  l ← where_bool left
  r ← where_bool right
  pure (valued (of_bool (node l r pos)) left.pos)

combine_other : WhereValue → Token → WhereValue → Option CmpOp → P WhereValue
unfolding combine_cmp combine_arith
combine_other left t right (some op) = combine_cmp left t.pos op right left.operand right.operand
combine_other left t right none = combine_arith left t left.operand right.operand

-- `combineWhere`
unfoldable pub combine_where : WhereValue → Token → WhereValue → P WhereValue
unfolding combine_logic combine_other cmp_op_for
combine_where left t right =
    if is_kind TokenKind.kw_and t.kind
    then combine_logic WhereExpr.and left t.pos right
    else if is_kind TokenKind.kw_or t.kind
    then combine_logic WhereExpr.or left t.pos right
    else combine_other left t right (cmp_op_for t.kind)

-- `fieldPathIsValid`
field_path_is_valid : FieldPath → Bool
unfolding any_index same_bytes
field_path_is_valid (path (segment a i (segment b j (segment c k end))) pos) =
    same_bytes c (codes "valid")
    && (if any_index (segment a i (segment b j (segment c k end))) then false else true)
field_path_is_valid _ = false

ends_with_exists : Segments → Bool
unfolding same_bytes
ends_with_exists end = false
ends_with_exists (segment name i end) = same_bytes name (codes "exists")
ends_with_exists (segment name i rest) = ends_with_exists rest

strip_last : Segments → Segments
strip_last end = end
strip_last (segment name i end) = end
strip_last (segment name i rest) = segment name i (strip_last rest)

-- A field path as an operand: its last part may make it Boolean.
unfoldable pub field_operand : FieldPath → Position → Operand
unfolding field_path_is_valid ends_with_exists strip_last
field_operand (path segments at) pos =
    if ends_with_exists segments
    then of_bool (WhereExpr.exists (path (strip_last segments) at) pos)
    else if field_path_is_valid (path segments at)
    then of_bool (WhereExpr.valid (path (strip_last segments) at) pos)
    else of_arith (ArithExpr.field (path segments at) pos)
