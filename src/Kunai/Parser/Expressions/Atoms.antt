-- ===== src/Kunai/Parser/Expressions/Atoms.antt =====
-- The operands of an expression that pkg/kunai/parser/where.go reads without a recursive call.
use bpf_ninja.Base.{
  ℕ, inl, inr, zero, suc, ◌+◌, ◌-◌, ◌*◌, ◌%◌, ◌^◌, ◌<◌, ◌≤◌, ◌≡◌, ◌⊎◌, refl, arith, Bool, true,
  false, Option, none, some, ltb, leb, Bool-cases,
}
use bpf_ninja.Go.Strconv.{u64_mod}
use bpf_ninja.Kunai.Ast.{Position, ArithExpr, WhereExpr, Value}
use bpf_ninja.Kunai.Lexer.Token.{TokenKind}
use bpf_ninja.Kunai.Parser.State.{Parser, complain, Complaint, when, at_kind, kind_code}
use bpf_ninja.Kunai.Parser.State.Reach.{
  Context, left, IsGood, Reaches, Reaches-loose, Reaches-pure, Reaches-after, Reaches-when,
  complaint-Reaches,
}
use bpf_ninja.Kunai.Parser.State.Progress.{take-Reaches, take_or-Reaches, expect-Reaches}
use bpf_ninja.Kunai.Parser.WellFormed.{IsArith, IsWhere, IsOptional}
use bpf_ninja.Kunai.Parser.Paths.Sound.{field_path-Parses}
use bpf_ninja.Kunai.Parser.Where.{
  of_arith, of_bool, of_literal, valued, field_operand, max_paren_depth,
}
use bpf_ninja.Kunai.Parser.Where.Sound.{IsWhereValue, field_operand-IsOperand}
use bpf_ninja.Kunai.Parser.Literal.Sound.{IsNetwork, try_network_literal-Reaches}
use bpf_ninja.Kunai.Parser.Expressions.{
  enter_expr, leave_expr, enter_group, leave_group, bool_literal, action_atom, negative, int_const,
  wide_const, field_value, plain_operand, literal_or_plain, literal_or,
}

depths-IsGood :
    (c : Context) (p : Parser) (n m : ℕ)
    → IsGood c p
    → IsGood c (record p { expr_depth = n; paren_depth = m })
depths-IsGood c p n m g = record {
  solid = g.solid;
  room = g.room;
  loaded = g.loaded;
  at_depth = g.at_depth;
  same_reserved = g.same_reserved;
  same_src = g.same_src;
}

signed-low :
    (n : ℕ) → n ≤ 2 ^ 63 → ((u64_mod - n) % u64_mod ≡ 0) ⊎ (2 ^ 63 ≤ (u64_mod - n) % u64_mod)
signed-low zero h = inl refl
signed-low (suc n) h = inr (omega arith)

module _ (c : Context) where
  pub enter_expr-Reaches :
      (p : Parser) → IsGood c p → Reaches c (suc (left p)) (λ _. Unit {0}) (enter_expr p)
  unfolding enter_expr
  enter_expr-Reaches p g = elim (Bool-cases (leb (max_paren_depth * 4) p.expr_depth)) [
    | inl e ↦ rw e (complaint-Reaches Complaint.expression_too_deep p)
    | inr e ↦ rw e (
        Reaches-pure tt (record p { expr_depth = p.expr_depth + 1 }) tt
          (depths-IsGood c p (p.expr_depth + 1) p.paren_depth g))
  ]

  pub leave_expr-Reaches :
      (p : Parser) → IsGood c p → Reaches c (suc (left p)) (λ _. Unit {0}) (leave_expr p)
  unfolding leave_expr
  leave_expr-Reaches p g =
      Reaches-pure tt (record p { expr_depth = p.expr_depth - 1 }) tt
        (depths-IsGood c p (p.expr_depth - 1) p.paren_depth g)

  pub enter_group-Reaches :
      (p : Parser) → IsGood c p → Reaches c (suc (left p)) (λ _. Unit {0}) (enter_group p)
  unfolding enter_group
  enter_group-Reaches p g = elim (Bool-cases (leb max_paren_depth p.paren_depth)) [
    | inl e ↦ rw e (complaint-Reaches Complaint.expression_too_deep p)
    | inr e ↦ rw e (
        Reaches-pure tt (record p { paren_depth = p.paren_depth + 1 }) tt
          (depths-IsGood c p p.expr_depth (p.paren_depth + 1) g))
  ]

  pub leave_group-Reaches :
      (p : Parser) → IsGood c p → Reaches c (suc (left p)) (λ _. Unit {0}) (leave_group p)
  unfolding leave_group
  leave_group-Reaches p g =
      Reaches-pure tt (record p { paren_depth = p.paren_depth - 1 }) tt
        (depths-IsGood c p p.expr_depth (p.paren_depth - 1) g)

  -- Operands that need no recursive call.
  pub bool_literal-Reaches :
      (b : Bool) (k : TokenKind)
      → ltb 0 (kind_code k) ≡ true
      → (p : Parser) → IsGood c p
      → at_kind k p ≡ true
      → Reaches c (suc (left p)) IsWhereValue (bool_literal b p)
  unfolding bool_literal IsWhere
  bool_literal-Reaches b k h p g e = Reaches-loose (
      Reaches-after (take-Reaches c p g k h e) (λ t q vt gq lq.
        Reaches-pure (valued (of_bool (WhereExpr.bool_lit b t.pos)) t.pos) q tt gq))

  pub action_atom-Reaches :
      (p : Parser)
      → IsGood c p
      → at_kind TokenKind.kw_action p ≡ true
      → Reaches c (suc (left p)) IsWhereValue (action_atom p)
  unfolding action_atom IsWhere
  action_atom-Reaches p g e = Reaches-loose (
      Reaches-after (take-Reaches c p g TokenKind.kw_action refl e) (λ t q vt gq lq. Reaches-loose (
        Reaches-after (take_or-Reaches c q gq TokenKind.eq_eq refl Complaint.expected_action)
          (λ _ r _ gr lr. Reaches-loose (
            Reaches-after (expect-Reaches c r gr TokenKind.ident refl) (λ name s vn gs ls.
              Reaches-pure (valued (of_bool (WhereExpr.action name.text t.pos)) t.pos) s vn.2
                gs))))))

  int_const-Reaches :
      (p : Parser)
      → IsGood c p
      → at_kind TokenKind.int p ≡ true
      → Reaches c (suc (left p)) IsWhereValue (int_const p)
  unfolding int_const IsArith
  int_const-Reaches p g e = Reaches-loose (
      Reaches-after (take-Reaches c p g TokenKind.int refl e) (λ t q vt gq lq.
        Reaches-pure (valued (of_arith (ArithExpr.const t.int 0 false false t.pos)) t.pos) q
          (vt.0.low, ground arith, (λ e. refl), (λ e. absurd (cc))) gq))

  wide_const-Reaches :
      (p : Parser)
      → IsGood c p
      → at_kind TokenKind.wide p ≡ true
      → Reaches c (suc (left p)) IsWhereValue (wide_const p)
  unfolding wide_const IsArith
  wide_const-Reaches p g e = Reaches-loose (
      Reaches-after (take-Reaches c p g TokenKind.wide refl e) (λ t q vt gq lq.
        Reaches-pure (valued (of_arith (ArithExpr.const t.int t.int_hi false true t.pos)) t.pos) q
          (vt.0.low, vt.0.high, (λ e. absurd (cc)), (λ e. absurd (cc))) gq))

  pub negative-Reaches :
      (p : Parser)
      → IsGood c p
      → at_kind TokenKind.minus p ≡ true
      → Reaches c (suc (left p)) IsWhereValue (negative p)
  unfolding negative IsArith
  negative-Reaches p g e = Reaches-loose (
      Reaches-after (take-Reaches c p g TokenKind.minus refl e) (λ minus q vt gq lq.
        elim (Bool-cases (at_kind TokenKind.int q)) [
          | inl f ↦ rw f (elim (Bool-cases (ltb (2 ^ 63) q.cur.int)) [
            | inl h ↦ rw h (record { holds = λ e. cc })
            | inr h ↦ rw h (
                Reaches-loose (
                  Reaches-after (take-Reaches c q gq TokenKind.int refl f) (λ _ r _ gr lr.
                    Reaches-pure
                      (valued
                        (of_arith (
                          ArithExpr.const ((u64_mod - q.cur.int) % u64_mod) 0 true false minus.pos))
                        minus.pos)
                      r
                      (
                        omega arith,
                        ground arith,
                        (λ e. refl),
                        (λ e. signed-low q.cur.int (ground (arith, h))),
                      )
                      gr)))
          ])
          | inr f ↦ rw f (record { holds = λ e. cc })
        ]))

  field_value-Reaches :
      (f : ℕ) (p : Parser)
      → IsGood c p
      → left p < f
      → Reaches c (left p) IsWhereValue (field_value f p)
  unfolding field_value
  field_value-Reaches f p g l =
      Reaches-after (field_path-Parses c f p g (omega arith)) (λ fp q v gq lq.
        Reaches-pure (valued (field_operand fp p.cur.pos) p.cur.pos) q
          (field_operand-IsOperand fp p.cur.pos v) gq)

  plain_operand-Reaches :
      (f : ℕ) (pos : Position) (p : Parser)
      → IsGood c p
      → left p < f
      → Reaches c (suc (left p)) IsWhereValue (plain_operand f pos p)
  unfolding plain_operand
  plain_operand-Reaches f pos p g l =
      Reaches-when TokenKind.int int_const
        (when TokenKind.wide wide_const
          (when TokenKind.ident (field_value f) (complain pos Complaint.expected_operand)))
        p (int_const-Reaches p g)
        (Reaches-when TokenKind.wide wide_const
          (when TokenKind.ident (field_value f) (complain pos Complaint.expected_operand)) p
          (wide_const-Reaches p g)
          (Reaches-when TokenKind.ident (field_value f) (complain pos Complaint.expected_operand) p
            (λ e. Reaches-loose (field_value-Reaches f p g l)) (record { holds = λ e. cc })))

  literal_or_plain-Reaches :
      (f : ℕ) (pos : Position) (o : Option Value) (p : Parser)
      → IsOptional IsNetwork o
      → IsGood c p
      → left p < f
      → Reaches c (suc (left p)) IsWhereValue (literal_or_plain f pos o p)
  unfolding literal_or_plain
  literal_or_plain-Reaches f pos none p v g l = plain_operand-Reaches f pos p g l
  literal_or_plain-Reaches f pos (some w) p v g l = Reaches-pure (valued (of_literal w) pos) p v g

  pub literal_or-Reaches :
      (f : ℕ) (p : Parser)
      → IsGood c p
      → left p < f
      → Reaches c (suc (left p)) IsWhereValue (literal_or f p)
  unfolding literal_or
  literal_or-Reaches f p g l =
      Reaches-after (try_network_literal-Reaches c p g)
        (λ o q v gq lq. literal_or_plain-Reaches f p.cur.pos o q v gq (omega arith))
