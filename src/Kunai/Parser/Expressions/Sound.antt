-- ===== src/Kunai/Parser/Expressions/Sound.antt =====
-- The expressions that pkg/kunai/parser/where.go reads.
use bpf_ninja.Base.{
  ℕ, inl, inr, zero, suc, ◌<◌, ◌≤◌, ◌≡◌, refl, arith, Bool, true, false, ◌&&◌, ltb, Bool-cases,
}
use bpf_ninja.Kunai.Ast.{Position, WhereExpr}
use bpf_ninja.Kunai.Lexer.Token.{TokenKind}
use bpf_ninja.Kunai.Parser.State.{Parser, P, complain_here, Complaint, at_kind, kind_code}
use bpf_ninja.Kunai.Parser.State.Reach.{
  Context, left, IsGood, Reaches, Reaches-loose, Reaches-pure, Reaches-after, Reaches-when,
  Reaches-if, complaint-Reaches, Parses,
}
use bpf_ninja.Kunai.Parser.State.Progress.{take_token-Reaches, take-Reaches, expect-Reaches}
use bpf_ninja.Kunai.Parser.WellFormed.{IsWhere}
use bpf_ninja.Kunai.Parser.Predicates.{cmp_op_for}
use bpf_ninja.Kunai.Parser.Where.{of_bool, WhereValue, valued, where_precedence, prec_or, prec_not}
use bpf_ninja.Kunai.Parser.Where.Sound.{IsWhereValue, where_bool-Reaches, combine_where-Reaches}
use bpf_ninja.Kunai.Parser.Expressions.Atoms.{
  enter_expr-Reaches, leave_expr-Reaches, enter_group-Reaches, leave_group-Reaches,
  bool_literal-Reaches, action_atom-Reaches, negative-Reaches, literal_or-Reaches,
}
use bpf_ninja.Kunai.Parser.Expressions.{
  where_group, not_expr, quantified, where_primary, is_int_comparison, is_some, unchained,
  next_prec, where_loop, where_expr, where_clause,
}

-- What is asked of the recursive call: a subexpression, of operators that bind.
abbrev ReadsWhere : Context → ℕ → (ℕ → P WhereValue) → Type 0
ReadsWhere c n rec =
    (min : ℕ)
    → 1 ≤ min
    → (p : Parser) → IsGood c p
    → left p < n
    → Reaches c (suc (left p)) IsWhereValue (rec min p)

where_precedence-code : (k : TokenKind) → 1 ≤ where_precedence k → ltb 0 (kind_code k) ≡ true
unfolding where_precedence
where_precedence-code TokenKind.eof h = absurd (omega arith)
where_precedence-code _ h = refl

next_prec-le : (v : WhereValue) (prec : ℕ) → prec ≤ next_prec v prec
unfolding next_prec
next_prec-le v prec = ground arith

binds_le :
    (k : TokenKind) (min : ℕ) → ltb (where_precedence k) min ≡ false → min ≤ where_precedence k
binds_le k min h = ground arith

module _ (c : Context) (rec : ℕ → P WhereValue) (n : ℕ) (reads : ReadsWhere c n rec) where
  -- A subexpression behind a token that has been taken.
  where_group-Reaches :
      (p : Parser)
      → IsGood c p
      → left p ≤ n
      → Reaches c (suc (left p)) IsWhereValue (where_group rec p)
  unfolding where_group
  where_group-Reaches p g l = Reaches-after (enter_group-Reaches c p g) (λ _ q _ gq lq.
      Reaches-loose (
        Reaches-after (expect-Reaches c q gq TokenKind.lparen refl) (λ _ r _ gr lr.
          Reaches-after (reads prec_or (omega arith) r gr (omega arith)) (λ v s vv gs ls.
            Reaches-loose (
              Reaches-after (expect-Reaches c s gs TokenKind.rparen refl) (λ _ t _ gt lt.
                Reaches-after (leave_group-Reaches c t gt)
                  (λ _ u _ gu lu. Reaches-pure v u vv gu)))))))

  not_expr-Reaches :
      (p : Parser)
      → IsGood c p
      → at_kind TokenKind.kw_not p ≡ true
      → left p ≤ n
      → Reaches c (suc (left p)) IsWhereValue (not_expr rec p)
  unfolding not_expr IsWhere
  not_expr-Reaches p g e l = Reaches-loose (
      Reaches-after (take-Reaches c p g TokenKind.kw_not refl e) (λ t q vt gq lq.
        Reaches-after (reads prec_not (omega arith) q gq (omega arith)) (λ v r vv gr lr.
          Reaches-after (where_bool-Reaches c v r vv gr) (λ b s vb gs ls.
            Reaches-pure (valued (of_bool (WhereExpr.not b t.pos)) t.pos) s vb gs))))

  quantified-Reaches :
      (node : WhereExpr → Position → WhereExpr) (k : TokenKind)
      → ltb 0 (kind_code k) ≡ true
      → ((e : WhereExpr) (pos : Position) → IsWhere e → IsWhere (node e pos))
      → (p : Parser) → IsGood c p
      → at_kind k p ≡ true
      → left p ≤ n
      → Reaches c (suc (left p)) IsWhereValue (quantified node rec p)
  unfolding quantified
  quantified-Reaches node k h w p g e l = Reaches-loose (
      Reaches-after (take-Reaches c p g k h e) (λ t q vt gq lq.
        Reaches-after
          (Reaches-when TokenKind.lparen (where_group rec) (complain_here Complaint.expected_open) q
            (λ _. where_group-Reaches q gq (omega arith))
            (complaint-Reaches Complaint.expected_open q))
          (λ v r vv gr lr. Reaches-after (where_bool-Reaches c v r vv gr) (λ b s vb gs ls.
            Reaches-pure (valued (of_bool (node b t.pos)) t.pos) s (w b t.pos vb) gs))))

  where_primary-Reaches :
      (p : Parser)
      → IsGood c p
      → left p ≤ n
      → Reaches c (suc (left p)) IsWhereValue (where_primary (suc n) rec p)
  unfolding where_primary IsWhere
  where_primary-Reaches p g l =
      Reaches-if (at_kind TokenKind.lparen p) (λ _. where_group-Reaches p g l)
        (λ _.
          Reaches-if (at_kind TokenKind.kw_not p) (λ e. not_expr-Reaches p g e l)
            (λ _.
              Reaches-if (at_kind TokenKind.kw_true p)
                (bool_literal-Reaches c true TokenKind.kw_true refl p g)
                (λ _.
                  Reaches-if (at_kind TokenKind.kw_false p)
                    (bool_literal-Reaches c false TokenKind.kw_false refl p g)
                    (λ _.
                      Reaches-if (at_kind TokenKind.kw_action p) (action_atom-Reaches c p g) (λ _.
                        Reaches-if (at_kind TokenKind.kw_any p)
                          (λ e.
                            quantified-Reaches WhereExpr.any TokenKind.kw_any refl (λ b pos v. v) p
                              g e l)
                          (λ _.
                            Reaches-if (at_kind TokenKind.kw_all p)
                              (λ e.
                                quantified-Reaches WhereExpr.all TokenKind.kw_all refl
                                  (λ b pos v. v) p g e l)
                              (λ _.
                                Reaches-if (at_kind TokenKind.minus p) (negative-Reaches c p g)
                                  (λ _. literal_or-Reaches c (suc n) p g (omega arith)))))))))

  unchained-Reaches :
      (b : Bool) (p : Parser)
      → IsGood c p
      → Reaches c (suc (left p)) (λ _. Unit {0}) (unchained b p)
  unfolding unchained
  unchained-Reaches b p g = elim (Bool-cases (b && is_some (cmp_op_for p.cur.kind))) [
    | inl e ↦ rw e (complaint-Reaches Complaint.chained_comparison p)
    | inr e ↦ rw e (Reaches-pure tt p tt g)
  ]

  where_loop-Reaches :
      (f min : ℕ)
      → 1 ≤ min
      → (v : WhereValue) → IsWhereValue v
      → (p : Parser) → IsGood c p
      → left p ≤ n
      → left p < f
      → Reaches c (suc (left p)) IsWhereValue (where_loop rec f min v p)
  unfolding where_loop next_prec
  where_loop-Reaches zero min h v w p g l k = absurd (omega arith)
  where_loop-Reaches (suc f) min h v w p g l k = elim (Bool-cases (at_kind TokenKind.kw_in p)) [
    | inl e ↦ rw e (complaint-Reaches Complaint.in_misplaced p)
    | inr e ↦ elim (Bool-cases (ltb (where_precedence p.cur.kind) min)) [
      | inl x ↦ rw (e, x) (Reaches-pure v p w g)
      | inr x ↦
          rw (e, x)
            (Reaches-loose (
              Reaches-after
                (take_token-Reaches c p g (where_precedence-code p.cur.kind (ground (arith, x))))
                (λ t q vt gq lq.
                  Reaches-after
                    (reads (next_prec v (where_precedence p.cur.kind))
                      (omega (
                        arith,
                        next_prec-le v (where_precedence p.cur.kind),
                        binds_le p.cur.kind min x,
                      ))
                      q gq (omega arith))
                    (λ r s vr gs ls.
                      Reaches-after (combine_where-Reaches c v t r s w vr gs) (λ both u vb gu lu.
                        Reaches-after
                          (unchained-Reaches (is_int_comparison v (where_precedence p.cur.kind)) u
                            gu)
                          (λ _ y _ gy ly.
                            where_loop-Reaches f min h both vb y gy (omega arith)
                              (omega arith)))))))
    ]
  ]

-- An expression, on fuel that is more than the bytes that are left.
where_expr-Reads : (c : Context) (f : ℕ) → ReadsWhere c f (where_expr f)
unfolding where_expr
where_expr-Reads c zero min h p g l = absurd (omega arith)
where_expr-Reads c (suc f) min h p g l = Reaches-after (enter_expr-Reaches c p g) (λ _ q _ gq lq.
    Reaches-after
      (where_primary-Reaches c (where_expr f) f (where_expr-Reads c f) q gq (omega arith))
      (λ v r vv gr lr.
        Reaches-after
          (where_loop-Reaches c (where_expr f) f (where_expr-Reads c f) (suc f) min h v vv r gr
            (omega arith) (omega arith))
          (λ w s vw gs ls.
            Reaches-after (leave_expr-Reaches c s gs) (λ _ t _ gt lt. Reaches-pure w t vw gt))))

-- A where clause.
pub where_clause-Parses : (c : Context) (f : ℕ) → Parses c f IsWhere (where_clause f)
unfolding where_clause
where_clause-Parses c f p g l =
    Reaches-after (expect-Reaches c p g TokenKind.kw_where refl) (λ _ q _ gq lq.
      Reaches-after (where_expr-Reads c f prec_or (omega arith) q gq (omega arith))
        (λ v r vv gr lr. where_bool-Reaches c v r vv gr))
