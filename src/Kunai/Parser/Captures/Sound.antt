-- ===== src/Kunai/Parser/Captures/Sound.antt =====
-- The capture clauses that pkg/kunai/parser/capture.go reads.
use bpf_ninja.Base.{
  ℕ, suc, ◌<◌, ◌≡◌, ◌≢◌, refl, arith, true, ◌&&◌, [], Option, none, some, ◌∷◌, codes, same_bytes,
}
use bpf_ninja.Go.Strconv.{u64_mod}
use bpf_ninja.Kunai.Ast.{CaptureSpec}
use bpf_ninja.Kunai.Lexer.Token.{TokenKind, Token}
use bpf_ninja.Kunai.Parser.State.{Parser, Complaint, at_kind}
use bpf_ninja.Kunai.Parser.State.Reach.{
  Context, left, IsGood, Reaches, Reaches-loose, Reaches-pure, Reaches-after, Reaches-if,
  complaint-Reaches, Parses,
}
use bpf_ninja.Kunai.Parser.State.Progress.{take-Reaches, expect-Reaches, separated-Reaches}
use bpf_ninja.Kunai.Parser.WellFormed.{IsOptional, IsSpec, IsCapture, IsWhere}
use bpf_ninja.Kunai.Parser.Paths.Sound.{path_from_head-Reaches, field_path-Parses}
use bpf_ninja.Kunai.Parser.Expressions.Sound.{where_clause-Parses}
use bpf_ninja.Kunai.Parser.Captures.{
  optional_plus_int, headers_spec, extra_or_zero, capture_all, capture_headers, capture_absolute,
  capture_fields, capture_layer, capture_named, capture_from, capture_ident, capture_spec,
  maybe_where, capture_clause,
}

module _ (c : Context) where
  optional_plus_int-Reaches :
      (p : Parser)
      → IsGood c p
      → Reaches c (suc (left p)) (IsOptional (λ n. n < u64_mod)) (optional_plus_int p)
  unfolding optional_plus_int
  optional_plus_int-Reaches p g =
      Reaches-if (at_kind TokenKind.plus p)
        (λ e. Reaches-loose (
          Reaches-after (take-Reaches c p g TokenKind.plus refl e) (λ _ q _ gq lq. Reaches-loose (
            Reaches-after (expect-Reaches c q gq TokenKind.int refl)
              (λ n r vn gr lr. Reaches-pure (some n.int) r vn.0.low gr)))))
        (λ _. Reaches-pure none p tt g)

  headers_spec-IsSpec : (o : Option ℕ) → IsOptional (λ n. n < u64_mod) o → IsSpec (headers_spec o)
  unfolding headers_spec
  headers_spec-IsSpec none v = tt
  headers_spec-IsSpec (some n) v = v

  extra_or_zero-lt : (o : Option ℕ) → IsOptional (λ n. n < u64_mod) o → extra_or_zero o < u64_mod
  unfolding extra_or_zero
  extra_or_zero-lt none v = ground arith
  extra_or_zero-lt (some n) v = v

  capture_all-Reaches :
      (p : Parser)
      → IsGood c p
      → at_kind TokenKind.kw_all p ≡ true
      → Reaches c (left p) IsSpec (capture_all p)
  unfolding capture_all
  capture_all-Reaches p g e =
      Reaches-after (take-Reaches c p g TokenKind.kw_all refl e)
        (λ _ q _ gq lq. Reaches-pure CaptureSpec.all q tt gq)

  capture_headers-Reaches :
      (p : Parser)
      → IsGood c p
      → at_kind TokenKind.kw_headers p ≡ true
      → Reaches c (left p) IsSpec (capture_headers p)
  unfolding capture_headers
  capture_headers-Reaches p g e =
      Reaches-after (take-Reaches c p g TokenKind.kw_headers refl e) (λ _ q _ gq lq.
        Reaches-after (optional_plus_int-Reaches q gq)
          (λ o r vo gr lr. Reaches-pure (headers_spec o) r (headers_spec-IsSpec o vo) gr))

  capture_fields-Reaches :
      (f : ℕ) (ident : Token)
      → ident.text ≢ []
      → (p : Parser) → IsGood c p
      → left p < f
      → Reaches c (suc (left p)) IsSpec (capture_fields f ident p)
  unfolding capture_fields
  capture_fields-Reaches f ident h p g l =
      Reaches-after (path_from_head-Reaches c f ident h p g l) (λ first q vf gq lq.
        Reaches-after
          (separated-Reaches TokenKind.comma refl (field_path-Parses c f) f q gq (omega arith)
            (omega arith))
          (λ rest r vr gr lr.
            Reaches-pure (CaptureSpec.fields (first ∷ rest)) r ((λ x. cc), (vf, vr)) gr))

  capture_layer-Reaches :
      (ident : Token)
      → ident.text ≢ []
      → (p : Parser) → IsGood c p
      → Reaches c (suc (left p)) IsSpec (capture_layer ident p)
  unfolding capture_layer
  capture_layer-Reaches ident h p g = Reaches-after (optional_plus_int-Reaches p g) (λ o q vo gq lq.
      Reaches-pure (CaptureSpec.to_layer ident.text (extra_or_zero o)) q (h, extra_or_zero-lt o vo)
        gq)

  -- What follows the name of a capture.
  capture_from-Reaches :
      (f : ℕ) (ident : Token)
      → ident.text ≢ []
      → (p : Parser) → IsGood c p
      → left p < f
      → Reaches c (suc (left p)) IsSpec (capture_from f ident p)
  unfolding capture_from capture_named capture_absolute
  capture_from-Reaches f ident h p g l =
      Reaches-if (same_bytes ident.text (codes "absolute") && at_kind TokenKind.int p)
        (λ e. Reaches-loose (
          Reaches-after (take-Reaches c p g TokenKind.int refl (ground (arith, e)))
            (λ n q vn gq lq. Reaches-pure (CaptureSpec.absolute n.int) q vn.0.low gq)))
        (λ _.
          Reaches-if (at_kind TokenKind.dot p) (λ _. capture_fields-Reaches f ident h p g l)
            (λ _. capture_layer-Reaches ident h p g))

  capture_spec-Reaches :
      (f : ℕ) (p : Parser) → IsGood c p → left p < f → Reaches c (left p) IsSpec (capture_spec f p)
  unfolding capture_spec capture_ident
  capture_spec-Reaches f p g l =
      Reaches-if (at_kind TokenKind.kw_all p) (capture_all-Reaches p g) (λ _.
        Reaches-if (at_kind TokenKind.kw_headers p) (capture_headers-Reaches p g) (λ _.
          Reaches-if (at_kind TokenKind.ident p)
            (λ e.
              Reaches-after (take-Reaches c p g TokenKind.ident refl e)
                (λ ident q vi gq lq. capture_from-Reaches f ident vi.2 q gq (omega arith)))
            (λ _. complaint-Reaches Complaint.expected_capture p)))

  -- A where clause, if there is one.
  pub maybe_where-Reaches :
      (f : ℕ) (p : Parser)
      → IsGood c p
      → left p < f
      → Reaches c (suc (left p)) (IsOptional IsWhere) (maybe_where f p)
  unfolding maybe_where
  maybe_where-Reaches f p g l =
      Reaches-if (at_kind TokenKind.kw_where p)
        (λ _. Reaches-loose (
          Reaches-after (where_clause-Parses c f p g l)
            (λ w q vw gq lq. Reaches-pure (some w) q vw gq)))
        (λ _. Reaches-pure none p tt g)

  -- A capture clause.
  pub capture_clause-Parses : (f : ℕ) → Parses c f IsCapture (capture_clause f)
  unfolding capture_clause
  capture_clause-Parses f p g l =
      Reaches-after (expect-Reaches c p g TokenKind.kw_capture refl) (λ _ q _ gq lq. Reaches-loose (
        Reaches-after (capture_spec-Reaches f q gq (omega arith)) (λ spec r vs gr lr.
          Reaches-after (maybe_where-Reaches f r gr (omega arith)) (λ cond s vc gs ls.
            Reaches-pure (record { spec = spec; where_expr = cond; pos = p.cur.pos }) s (vs, vc)
              gs))))
