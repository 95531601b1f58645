-- ===== src/Kunai/Parser/Literal/Sound.antt =====
-- The network literals that pkg/kunai/parser/where.go reads again.
use bpf_ninja.Base.{
  inl, inr, suc, ◌≤◌, ◌≡◌, refl, ap, sym, ◌∙◌, arith, true, Option, none, some, ◌++◌, drop, length,
  length-append, Bool-cases,
}
use bpf_ninja.Kunai.Ast.{Value}
use bpf_ninja.Kunai.Lexer.Token.{TokenKind, Token, ok, err}
use bpf_ninja.Kunai.Lexer.State.{Lexer, rest, restore}
use bpf_ninja.Kunai.Lexer.Literals.Valid.{IsValidLiteral}
use bpf_ninja.Kunai.Lexer.Scan.{Outcome, next, next_value}
use bpf_ninja.Kunai.Lexer.Scan.Source.{Reads, next-Reads, next_value-Reads}
use bpf_ninja.Kunai.Lexer.Scan.Payload.{IsGiven, IsLoaded, next-IsLoaded, next_value-IsLoaded}
use bpf_ninja.Kunai.Parser.State.{Parser, is_kind}
use bpf_ninja.Kunai.Parser.State.Reach.{
  Context, left, IsGood, Reaches, Reaches-within, Reaches-pure, Reaches-after,
}
use bpf_ninja.Kunai.Parser.State.Progress.{Reads-IsGood, advance-Reaches}
use bpf_ninja.Kunai.Parser.WellFormed.{IsOptional}
use bpf_ninja.Kunai.Parser.Predicates.Sound.{kind-value}
use bpf_ninja.Kunai.Parser.Literal.{
  is_network, present_network, network_of, reread, literal_token, literal_outcome,
  try_network_literal,
}

abbrev pub IsNetwork : Value → Type 0
IsNetwork v = (is_network v.literal ≡ true) × IsValidLiteral v.literal

present_network-IsNetwork :
    (o : Option Value) → IsGiven o → IsOptional IsNetwork (present_network o)
unfolding present_network
present_network-IsNetwork none h = elim h [ ]
present_network-IsNetwork (some v) h = elim (Bool-cases (is_network v.literal)) [
  | inl e ↦ rw e (e, h)
  | inr e ↦ rw e tt
]

network_of-IsNetwork : (t : Token) → IsLoaded t → IsOptional IsNetwork (network_of t)
unfolding network_of
network_of-IsNetwork t h = elim (Bool-cases (is_kind TokenKind.value t.kind)) [
  | inl e ↦ rw e (present_network-IsNetwork t.value (h.given (kind-value t.kind e)))
  | inr e ↦ rw e tt
]

module _ (c : Context) (p : Parser) (g : IsGood c p) where
  reread-Reaches :
      (o : Outcome)
      → o ≡ next (restore p.pre_cur p.lex)
      → Reaches c (suc (left p)) (IsOptional IsNetwork) (reread p o)
  unfolding reread restore
  reread-Reaches (err x, m) e = record { holds = λ h. cc }
  reread-Reaches (ok t, m) e = record {
    holds = (
      tt,
      Reads-IsGood c p (g.at_depth, g.same_reserved, g.same_src) p.pre_cur (restore p.pre_cur p.lex)
          x (next-IsLoaded _ (sym e)) refl refl,
      omega (arith, ap (λ q. length (drop p.pre_cur.pos q)) x.same_src),
    );
  }
    where
      x : Reads (restore p.pre_cur p.lex) t m
      x = next-Reads (restore p.pre_cur p.lex) (sym e)

  literal_token-Reaches :
      (m : Lexer) (o : Option Value)
      → m.src ≡ p.lex.src
      → length (rest m) ≤ left p
      → IsOptional IsNetwork o
      → Reaches c (suc (left p)) (IsOptional IsNetwork) (literal_token p m o)
  unfolding literal_token
  literal_token-Reaches m none e l h = reread-Reaches (next (restore p.pre_cur p.lex)) refl
  literal_token-Reaches m (some v) e l h =
      Reaches-within
        (Reaches-after
          (advance-Reaches c (record p { lex = m }) (g.at_depth, g.same_reserved, e ∙ g.same_src))
          (λ _ q _ gq lq. Reaches-pure (some v) q h gq))
        (omega arith)

  literal_outcome-Reaches :
      (o : Outcome)
      → o ≡ next_value (restore p.pre_cur p.lex)
      → Reaches c (suc (left p)) (IsOptional IsNetwork) (literal_outcome p o)
  unfolding literal_outcome restore
  literal_outcome-Reaches (err x, m) e = reread-Reaches (next (restore p.pre_cur p.lex)) refl
  literal_outcome-Reaches (ok t, m) e =
      literal_token-Reaches m (network_of t) x.same_src
        (omega (
          arith,
          ap length x.ahead,
          length-append x.trivia (t.text ++ rest m),
          length-append t.text (rest m),
        ))
        (network_of-IsNetwork t (next_value-IsLoaded _ (sym e)))
    where
      x : Reads (restore p.pre_cur p.lex) t m
      x = next_value-Reads (restore p.pre_cur p.lex) (sym e)

  -- A literal of a network address, or none and no byte consumed.
  pub try_network_literal-Reaches :
      Reaches c (suc (left p)) (IsOptional IsNetwork) (try_network_literal p)
  unfolding try_network_literal
  try_network_literal-Reaches = literal_outcome-Reaches (next_value (restore p.pre_cur p.lex)) refl
