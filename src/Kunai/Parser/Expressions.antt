-- ===== src/Kunai/Parser/Expressions.antt =====
-- pkg/kunai/parser/where.go: expressions, by precedence climbing.
pub mod Atoms
pub mod Sound
use bpf_ninja.Base.{
  ℕ, zero, suc, ◌+◌, ◌-◌, ◌*◌, ◌%◌, ◌^◌, Bool, true, false, not, ◌&&◌, Option, none, some, ltb, leb,
  ◌==◌, if◌then◌else◌,
}
use bpf_ninja.Go.Strconv.{u64_mod}
use bpf_ninja.Kunai.Ast.{Position, CmpOp, ArithExpr, WhereExpr, Value}
use bpf_ninja.Kunai.Lexer.Token.{TokenKind}
use bpf_ninja.Kunai.Parser.State.{
  P, parsed, ◌>>=◌, pure, peek, complain, complain_here, refuse_if, starve, Complaint, take_token,
  expect, when,
}
use bpf_ninja.Kunai.Parser.Paths.{field_path}
use bpf_ninja.Kunai.Parser.Predicates.{cmp_op_for}
use bpf_ninja.Kunai.Parser.Where.{
  of_arith, of_bool, of_literal, WhereValue, valued, max_paren_depth, prec_or, prec_not, prec_cmp,
  where_precedence, where_bool, combine_where, field_operand, is_bool,
}
use bpf_ninja.Kunai.Parser.Literal.{try_network_literal}

-- The guard at the head of `parseWhereExpr`, and its `p.exprDepth++`.
pub enter_expr : P (Unit {0})
enter_expr p =
    if leb (max_paren_depth * 4) p.expr_depth
    then complain_here Complaint.expression_too_deep p
    else parsed tt (record p { expr_depth = p.expr_depth + 1 })

pub leave_expr : P (Unit {0})
leave_expr p = parsed tt (record p { expr_depth = p.expr_depth - 1 })

pub enter_group : P (Unit {0})
enter_group p =
    if leb max_paren_depth p.paren_depth
    then complain_here Complaint.expression_too_deep p
    else parsed tt (record p { paren_depth = p.paren_depth + 1 })

pub leave_group : P (Unit {0})
leave_group p = parsed tt (record p { paren_depth = p.paren_depth - 1 })

-- `parseWhereGroup`
where_group : (ℕ → P WhereValue) → P WhereValue
unfolding enter_group leave_group expect
where_group rec = do
  _ ← enter_group
  _ ← expect TokenKind.lparen
  inner ← rec prec_or
  _ ← expect TokenKind.rparen
  _ ← leave_group
  pure inner

not_expr : (ℕ → P WhereValue) → P WhereValue
unfolding take_token where_bool
not_expr rec = do
  t ← take_token
  inner ← rec prec_not
  b ← where_bool inner
  pure (valued (of_bool (WhereExpr.not b t.pos)) t.pos)

pub bool_literal : Bool → P WhereValue
unfolding take_token
bool_literal b = do t ← take_token; pure (valued (of_bool (WhereExpr.bool_lit b t.pos)) t.pos)

-- `parseActionAtom`
pub action_atom : P WhereValue
unfolding take_token expect
action_atom = do
  t ← take_token
  _ ← when TokenKind.eq_eq take_token (complain_here Complaint.expected_action)
  ident ← expect TokenKind.ident
  pure (valued (of_bool (WhereExpr.action ident.text t.pos)) t.pos)

-- `any(...)` and `all(...)`
quantified : (WhereExpr → Position → WhereExpr) → (ℕ → P WhereValue) → P WhereValue
unfolding take_token where_group where_bool
quantified node rec = do
  t ← take_token
  inner ← when TokenKind.lparen (where_group rec) (complain_here Complaint.expected_open)
  b ← where_bool inner
  pure (valued (of_bool (node b t.pos)) t.pos)

-- A negative number: its 64-bit pattern.
pub negative : P WhereValue
unfolding take_token
negative = do
  minus ← take_token
  n ← when TokenKind.int peek (complain_here Complaint.negative_literal)
  _ ← refuse_if (ltb (2 ^ 63) n.int) minus.pos Complaint.negative_range
  _ ← take_token
  pure (
      valued (of_arith (ArithExpr.const ((u64_mod - n.int) % u64_mod) 0 true false minus.pos))
        minus.pos)

int_const : P WhereValue
unfolding take_token
int_const = do
  t ← take_token
  pure (valued (of_arith (ArithExpr.const t.int 0 false false t.pos)) t.pos)

wide_const : P WhereValue
unfolding take_token
wide_const = do
  t ← take_token
  pure (valued (of_arith (ArithExpr.const t.int t.int_hi false true t.pos)) t.pos)

field_value : ℕ → P WhereValue
unfolding field_path field_operand
field_value f = do t ← peek; field ← field_path f; pure (valued (field_operand field t.pos) t.pos)

-- An integer, a 128-bit integer or a field.
plain_operand : ℕ → Position → P WhereValue
unfolding int_const wide_const field_value
plain_operand f pos = when TokenKind.int int_const (
    when TokenKind.wide wide_const
      (when TokenKind.ident (field_value f) (complain pos Complaint.expected_operand)))

literal_or_plain : ℕ → Position → Option Value → P WhereValue
unfolding plain_operand
literal_or_plain f pos (some v) p = parsed (valued (of_literal v) pos) p
literal_or_plain f pos none p = plain_operand f pos p

pub literal_or : ℕ → P WhereValue
unfolding try_network_literal literal_or_plain
literal_or f = do t ← peek; v ← try_network_literal; literal_or_plain f t.pos v

-- `parseWherePrimary`
where_primary : ℕ → (ℕ → P WhereValue) → P WhereValue
unfolding where_group not_expr bool_literal action_atom quantified negative literal_or
where_primary f rec = when TokenKind.lparen (where_group rec) (
    when TokenKind.kw_not (not_expr rec) (
      when TokenKind.kw_true (bool_literal true) (
        when TokenKind.kw_false (bool_literal false) (
          when TokenKind.kw_action action_atom (
            when TokenKind.kw_any (quantified WhereExpr.any rec) (
              when TokenKind.kw_all (quantified WhereExpr.all rec)
                (when TokenKind.minus negative (literal_or f))))))))

-- Whether a comparison of integers has just been made.
is_int_comparison : WhereValue → ℕ → Bool
unfolding is_bool
is_int_comparison left prec = prec == prec_cmp && not (is_bool left.operand)

is_some : Option CmpOp → Bool
is_some none = false
is_some (some op) = true

-- `a < b < c` is refused.
unchained : Bool → P (Unit {0})
unfolding is_some cmp_op_for
unchained compared p =
    if compared && is_some (cmp_op_for p.cur.kind)
    then complain_here Complaint.chained_comparison p
    else parsed tt p

next_prec : WhereValue → ℕ → ℕ
unfolding is_bool
next_prec left prec = if prec == prec_cmp && is_bool left.operand then prec else prec + 1

-- The loop of `parseWhereExpr`
where_loop : (ℕ → P WhereValue) → ℕ → ℕ → WhereValue → P WhereValue
unfolding take_token combine_where unchained next_prec is_int_comparison where_precedence
where_loop rec zero min left = starve
where_loop rec (suc f) min left = when TokenKind.kw_in (complain_here Complaint.in_misplaced) (λ p.
    let prec = where_precedence p.cur.kind in
    let more : P WhereValue = (do
      t ← take_token
      right ← rec (next_prec left prec)
      both ← combine_where left t right
      _ ← unchained (is_int_comparison left prec)
      where_loop rec f min both) in
    if ltb prec min then parsed left p else more p)

-- `parseWhereExpr`
unfoldable pub where_expr : ℕ → ℕ → P WhereValue
unfolding enter_expr leave_expr where_primary where_loop
where_expr zero min = starve
where_expr (suc f) min = do
  _ ← enter_expr
  left ← where_primary (suc f) (where_expr f)
  v ← where_loop (where_expr f) (suc f) min left
  _ ← leave_expr
  pure v

-- `parseWhereClause` with `parseOrExpr`
unfoldable pub where_clause : ℕ → P WhereExpr
unfolding expect where_expr where_bool
where_clause f = do _ ← expect TokenKind.kw_where; v ← where_expr f prec_or; where_bool v
