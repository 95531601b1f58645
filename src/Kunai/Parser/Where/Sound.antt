-- ===== src/Kunai/Parser/Where/Sound.antt =====
-- The operands of a where clause of pkg/kunai/parser/where.go, and what operators make of them.
use bpf_ninja.Base.{inl, inr, suc, ◌≡◌, refl, arith, true, false, Option, none, some, Bool-cases}
use bpf_ninja.Kunai.Ast.{
  Position, FieldPath, path, Segments, segment, end, unindexed, CmpOp, ArithExpr, WhereExpr, Value,
}
use bpf_ninja.Kunai.Lexer.Token.{TokenKind, Token}
use bpf_ninja.Kunai.Parser.State.{Parser, is_kind}
use bpf_ninja.Kunai.Parser.State.Reach.{Context, left, IsGood, Reaches, Reaches-pure, Reaches-after}
use bpf_ninja.Kunai.Parser.WellFormed.{IsPath, IsSegments, parts, IsArith, IsWhere}
use bpf_ninja.Kunai.Parser.Paths.{any_index}
use bpf_ninja.Kunai.Parser.Predicates.{cmp_op_for}
use bpf_ninja.Kunai.Parser.Literal.Sound.{IsNetwork}
use bpf_ninja.Kunai.Parser.Where.{
  Operand, of_arith, of_bool, of_literal, WhereValue, valued, operand_bool, where_bool, equality_op,
  literal_cmp, bool_cmp, combine_cmp, arith_op_for, combine_arith, combine_logic, combine_other,
  combine_where, field_path_is_valid, ends_with_exists, strip_last, field_operand,
}

abbrev IsOperand : Operand → Type 0
IsOperand (of_arith a) = IsArith a
IsOperand (of_bool w) = IsWhere w
IsOperand (of_literal v) = IsNetwork v

-- What a subexpression has built so far is well formed.
abbrev pub IsWhereValue : WhereValue → Type 0
IsWhereValue v = IsOperand v.operand

strip_last-IsSegments : (s : Segments) → IsSegments s → IsSegments (strip_last s)
unfolding strip_last IsSegments
strip_last-IsSegments end v = tt
strip_last-IsSegments (segment name i end) v = tt
strip_last-IsSegments (segment name i (segment m j rest)) v =
    (v.0, v.1, strip_last-IsSegments (segment m j rest) v.2)

any_index-strip_last : (s : Segments) → any_index s ≡ false → any_index (strip_last s) ≡ false
unfolding strip_last any_index
any_index-strip_last end e = refl
any_index-strip_last (segment name i end) e = refl
any_index-strip_last (segment name unindexed (segment m j rest)) e =
    any_index-strip_last (segment m j rest) e
any_index-strip_last (segment name _ (segment m j rest)) e = absurd (cc)

field_path_is_valid-parts :
    (s : Segments) (pos : Position)
    → field_path_is_valid (path s pos) ≡ true
    → (parts (strip_last s) ≡ 2) × (any_index s ≡ false)
unfolding field_path_is_valid strip_last parts
field_path_is_valid-parts (segment a i (segment b j (segment c k end))) pos e = (refl, ground arith)
field_path_is_valid-parts _ pos e = absurd (ground arith)

-- A path that may be an operand, by its last part.
pub field_operand-IsOperand :
    (f : FieldPath) (pos : Position) → IsPath f → IsOperand (field_operand f pos)
unfolding field_operand IsPath IsArith IsWhere
field_operand-IsOperand (path s start) pos v = elim (Bool-cases (ends_with_exists s)) [
  | inl e ↦ rw e (strip_last-IsSegments s v.1)
  | inr e ↦ elim (Bool-cases (field_path_is_valid (path s start))) [
    | inl f ↦
        let (n, i) = field_path_is_valid-parts s start f in
        rw (e, f) (strip_last-IsSegments s v.1, n, any_index-strip_last s i)
    | inr f ↦ rw (e, f) v
  ]
]

module _ (c : Context) where
  operand_bool-Reaches :
      (pos : Position) (o : Operand) (p : Parser)
      → IsOperand o
      → IsGood c p
      → Reaches c (suc (left p)) IsWhere (operand_bool pos o p)
  unfolding operand_bool IsWhere IsArith
  operand_bool-Reaches pos (of_bool w) p v g = Reaches-pure w p v g
  operand_bool-Reaches pos (of_literal w) p v g = record { holds = λ e. cc }
  operand_bool-Reaches pos (of_arith a) p v g =
      Reaches-pure (WhereExpr.arith a CmpOp.neq (ArithExpr.const 0 0 false false pos) pos) p
        (v, (ground arith)) g

  pub where_bool-Reaches :
      (v : WhereValue) (p : Parser)
      → IsWhereValue v
      → IsGood c p
      → Reaches c (suc (left p)) IsWhere (where_bool v p)
  unfolding where_bool
  where_bool-Reaches v p h g = operand_bool-Reaches v.pos v.operand p h g

  literal_cmp-Reaches :
      (left_value : WhereValue) (pos : Position) (op : CmpOp) (o : Operand) (v : Value) (p : Parser)
      → equality_op op ≡ true
      → IsOperand o
      → IsNetwork v
      → IsGood c p
      → Reaches c (suc (left p)) IsWhereValue (literal_cmp left_value pos op o v p)
  unfolding literal_cmp IsWhere IsArith
  literal_cmp-Reaches l pos op (of_arith (ArithExpr.field f q)) v p e vo vv g =
      Reaches-pure (valued (of_bool (WhereExpr.literal f op v l.pos)) l.pos) p (vo, e, vv.0, vv.1) g
  literal_cmp-Reaches l pos op _ v p e vo vv g = record { holds = λ e. cc }

  bool_cmp-Reaches :
      (l : WhereValue) (pos : Position) (op : CmpOp) (r : WhereValue) (p : Parser)
      → IsWhereValue l
      → IsWhereValue r
      → IsGood c p
      → Reaches c (suc (left p)) IsWhereValue (bool_cmp l pos op r p)
  unfolding bool_cmp IsWhere
  bool_cmp-Reaches l pos op r p vl vr g = elim (Bool-cases (equality_op op)) [
    | inl e ↦ rw e (
        Reaches-after (where_bool-Reaches l p vl g) (λ a q va gq lq.
          Reaches-after (where_bool-Reaches r q vr gq) (λ b s vb gs ls.
            Reaches-pure (valued (of_bool (WhereExpr.bool_eq a op b l.pos)) l.pos) s (va, e, vb)
              gs)))
    | inr e ↦ rw e (record { holds = λ e. cc })
  ]

  combine_cmp-Reaches :
      (l : WhereValue) (pos : Position) (op : CmpOp) (r : WhereValue) (a b : Operand) (p : Parser)
      → IsWhereValue l
      → IsWhereValue r
      → IsOperand a
      → IsOperand b
      → IsGood c p
      → Reaches c (suc (left p)) IsWhereValue (combine_cmp l pos op r a b p)
  unfolding combine_cmp IsWhere
  combine_cmp-Reaches l pos op r (of_literal v) b p vl vr va vb g =
      elim (Bool-cases (equality_op op)) [
        | inl e ↦ rw e (literal_cmp-Reaches l pos op b v p e vb va g)
        | inr e ↦ rw e (record { holds = λ e. cc })
      ]
  combine_cmp-Reaches l pos op r (of_arith a) (of_literal v) p vl vr va vb g =
      elim (Bool-cases (equality_op op)) [
        | inl e ↦ rw e (literal_cmp-Reaches l pos op (of_arith a) v p e va vb g)
        | inr e ↦ rw e (record { holds = λ e. cc })
      ]
  combine_cmp-Reaches l pos op r (of_bool a) (of_literal v) p vl vr va vb g =
      elim (Bool-cases (equality_op op)) [
        | inl e ↦ rw e (literal_cmp-Reaches l pos op (of_bool a) v p e va vb g)
        | inr e ↦ rw e (record { holds = λ e. cc })
      ]
  combine_cmp-Reaches l pos op r (of_arith a) (of_arith b) p vl vr va vb g =
      Reaches-pure (valued (of_bool (WhereExpr.arith a op b l.pos)) l.pos) p (va, vb) g
  combine_cmp-Reaches l pos op r _ _ p vl vr va vb g = bool_cmp-Reaches l pos op r p vl vr g

  combine_arith-Reaches :
      (l : WhereValue) (t : Token) (a b : Operand) (p : Parser)
      → IsOperand a
      → IsOperand b
      → IsGood c p
      → Reaches c (suc (left p)) IsWhereValue (combine_arith l t a b p)
  unfolding combine_arith IsArith
  combine_arith-Reaches l t (of_arith a) (of_arith b) p va vb g =
      Reaches-pure (valued (of_arith (ArithExpr.binop (arith_op_for t.kind) a b t.pos)) l.pos) p
        (va, vb) g
  combine_arith-Reaches l t _ _ p va vb g = record { holds = λ e. cc }

  combine_logic-Reaches :
      (node : WhereExpr → WhereExpr → Position → WhereExpr) (l : WhereValue) (pos : Position)
      (r : WhereValue) (p : Parser)
      → ((a b : WhereExpr) → IsWhere a → IsWhere b → IsWhere (node a b pos))
      → IsWhereValue l
      → IsWhereValue r
      → IsGood c p
      → Reaches c (suc (left p)) IsWhereValue (combine_logic node l pos r p)
  unfolding combine_logic
  combine_logic-Reaches node l pos r p h vl vr g =
      Reaches-after (where_bool-Reaches l p vl g) (λ a q va gq lq.
        Reaches-after (where_bool-Reaches r q vr gq)
          (λ b s vb gs ls. Reaches-pure (valued (of_bool (node a b pos)) l.pos) s (h a b va vb) gs))

  combine_other-Reaches :
      (l : WhereValue) (t : Token) (r : WhereValue) (o : Option CmpOp) (p : Parser)
      → IsWhereValue l
      → IsWhereValue r
      → IsGood c p
      → Reaches c (suc (left p)) IsWhereValue (combine_other l t r o p)
  unfolding combine_other
  combine_other-Reaches l t r (some op) p vl vr g =
      combine_cmp-Reaches l t.pos op r l.operand r.operand p vl vr vl vr g
  combine_other-Reaches l t r none p vl vr g =
      combine_arith-Reaches l t l.operand r.operand p vl vr g

  -- An operator makes a well formed expression of two, or complains.
  pub combine_where-Reaches :
      (l : WhereValue) (t : Token) (r : WhereValue) (p : Parser)
      → IsWhereValue l
      → IsWhereValue r
      → IsGood c p
      → Reaches c (suc (left p)) IsWhereValue (combine_where l t r p)
  unfolding combine_where IsWhere
  combine_where-Reaches l t r p vl vr g = elim (Bool-cases (is_kind TokenKind.kw_and t.kind)) [
    | inl e ↦ rw e (combine_logic-Reaches WhereExpr.and l t.pos r p (λ a b va vb. (va, vb)) vl vr g)
    | inr e ↦ elim (Bool-cases (is_kind TokenKind.kw_or t.kind)) [
      | inl f ↦
          rw (e, f) (combine_logic-Reaches WhereExpr.or l t.pos r p (λ a b va vb. (va, vb)) vl vr g)
      | inr f ↦ rw (e, f) (combine_other-Reaches l t r (cmp_op_for t.kind) p vl vr g)
    ]
  ]
