-- ===== src/Kunai/Parser/Filters/Sound.antt =====
-- What `Parse` of pkg/kunai/parser/parser.go returns.
use bpf_ninja.Base.{
  Every, ℕ, zero, suc, inl, inr, ◌<◌, ◌≡◌, ◌≢◌, refl, arith, Bool, true, [], ◌∷◌, Bytes, length,
  Bool-cases,
}
use bpf_ninja.Kunai.Ast.{Filter}
use bpf_ninja.Kunai.Lexer.Token.{TokenKind}
use bpf_ninja.Kunai.Lexer.State.{new, rest}
use bpf_ninja.Kunai.Parser.State.{
  Parser, P, Parsed, parsed, failed, out_of_fuel, after, is_kind, at_kind,
}
use bpf_ninja.Kunai.Parser.State.Reach.{
  Context, left, IsGood, Reaches, Reaches-loose, Reaches-pure, Reaches-after, Reaches-if,
}
use bpf_ninja.Kunai.Parser.State.Progress.{advance-Reaches}
use bpf_ninja.Kunai.Parser.WellFormed.{IsCapture, IsFilter}
use bpf_ninja.Kunai.Parser.Layers.Sound.{layer_chain-Parses}
use bpf_ninja.Kunai.Parser.Captures.Sound.{maybe_where-Reaches, capture_clause-Parses}
use bpf_ninja.Kunai.Parser.Filters.{captures, filter_body, parse_filter, fresh, parse}

module _ (c : Context) (f : ℕ) where
  captures-Reaches :
      (n : ℕ) (p : Parser)
      → IsGood c p
      → left p < f
      → left p < n
      → Reaches c (suc (left p)) (Every IsCapture) (captures f n p)
  unfolding captures
  captures-Reaches zero p g l k = absurd (omega arith)
  captures-Reaches (suc n) p g l k =
      Reaches-if (at_kind TokenKind.kw_capture p)
        (λ e. Reaches-loose (
          Reaches-after (capture_clause-Parses c f p g l) (λ cl q vc gq lq.
            Reaches-after (captures-Reaches n q gq (omega arith) (omega arith))
              (λ rest r vr gr lr. Reaches-pure (cl ∷ rest) r (vc, vr) gr))))
        (λ _. Reaches-pure [] p tt g)

-- An outcome of `Parse`: a well formed tree at the end of the source, or an error of the program.
abbrev Ends : Bytes → (Bytes → Bool) → Parsed Filter → Type 0
Ends src reserved (parsed t p) = IsFilter reserved t × (p.lex.src ≡ src) × (rest p.lex ≡ [])
Ends src reserved (failed e) = e ≢ out_of_fuel

record IsEnd (src : Bytes) (reserved : Bytes → Bool) (r : Parsed Filter) : Type 0 where
  ends : Ends src reserved r

IsEnd-after :
    {A : Type 0} {c : Context} {n : ℕ} {V : A → Type 0} {src : Bytes} {reserved : Bytes → Bool}
    {f : A → P Filter} {r : Parsed A}
    → Reaches c n V r
    → ((a : A) (q : Parser) → V a → IsGood c q → left q < n → IsEnd src reserved (f a q))
    → IsEnd src reserved (after r f)
IsEnd-after {r = failed e} h g = record { ends = h.holds }
IsEnd-after {r = parsed a q} h g = g a q h.holds.0 h.holds.1 h.holds.2

kind-eof : (k : TokenKind) → is_kind TokenKind.eof k ≡ true → k ≡ TokenKind.eof
kind-eof TokenKind.eof e = refl
kind-eof _ e = ground arith

-- At the token for it the source is at its end.
rest-eof :
    {c : Context} {p : Parser} → IsGood c p → at_kind TokenKind.eof p ≡ true → rest p.lex ≡ []
rest-eof {p = p} g e = elim (g.solid) [
  | inl x ↦ x.1
  | inr x ↦ absurd (x (g.loaded.blank (kind-eof p.cur.kind e)))
]

module _ (c : Context) (top : c.depth ≡ 0) (f : ℕ) where
  filter_body-IsEnd :
      (p : Parser) → IsGood c p → left p < f → IsEnd c.src c.reserved (filter_body f p)
  unfolding filter_body
  filter_body-IsEnd p g l = IsEnd-after (layer_chain-Parses c f p g l) (λ layers q vl gq lq.
      IsEnd-after (maybe_where-Reaches c f q gq (omega arith)) (λ cond r vc gr lr.
        IsEnd-after (captures-Reaches c f f r gr (omega arith) (omega arith)) (λ cs s vs gs ls.
          elim (Bool-cases (at_kind TokenKind.eof s)) [
            | inl e ↦
                rw e
                  (record { ends = ((vl.0, rw (← top) vl.1, vc, vs), gs.same_src, rest-eof gs e) })
            | inr e ↦ rw e (record { ends = λ e. cc })
          ])))

  parse_filter-IsEnd :
      (p : Parser) → IsGood c p → left p < f → IsEnd c.src c.reserved (parse_filter f p)
  unfolding parse_filter
  parse_filter-IsEnd p g l = elim (Bool-cases (at_kind TokenKind.eof p)) [
    | inl e ↦ rw e (record { ends = λ e. cc })
    | inr e ↦ rw e (filter_body-IsEnd p g l)
  ]

parse-IsEnd :
    (expr file : Bytes) (reserved : Bytes → Bool) → IsEnd expr reserved (parse expr file reserved)
unfolding parse
parse-IsEnd expr file reserved =
    IsEnd-after
      (advance-Reaches c (fresh (new expr file) reserved)
        (unfold fresh in (refl, refl, unfold new in refl)))
      (λ _ q _ gq lq.
        parse_filter-IsEnd c refl (suc (length expr)) q gq (unfold fresh in unfold new in lq))
  where
    c : Context
    c = record { src = expr; reserved = reserved; depth = 0 }

-- The fuel of the model is enough for every source: `Parse` always returns, a filter or an error
-- of the program.
pub parse-terminates :
    (expr file : Bytes) (reserved : Bytes → Bool) → parse expr file reserved ≢ failed out_of_fuel
parse-terminates expr file reserved e = (rw e at (parse-IsEnd expr file reserved)).ends refl

-- Every filter that `Parse` accepts is well formed, whatever labels are reserved.
pub parse-IsFilter :
    (expr file : Bytes) (reserved : Bytes → Bool) {t : Filter} {p : Parser}
    → parse expr file reserved ≡ parsed t p
    → IsFilter reserved t
parse-IsFilter expr file reserved e = (rw e at (parse-IsEnd expr file reserved)).ends.0

-- What `Parse` accepts it has read as a whole: the scanner stands at the end of the source.
pub parse-rest :
    (expr file : Bytes) (reserved : Bytes → Bool) {t : Filter} {p : Parser}
    → parse expr file reserved ≡ parsed t p
    → (p.lex.src ≡ expr) × (rest p.lex ≡ [])
parse-rest expr file reserved e =
    let x = (rw e at (parse-IsEnd expr file reserved)).ends in (x.1, x.2)
