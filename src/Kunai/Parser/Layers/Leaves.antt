-- ===== src/Kunai/Parser/Layers/Leaves.antt =====
-- The labels, predicates and quantifiers of a layer that pkg/kunai/parser/layer.go reads.
use bpf_ninja.Base.{
  Every, ℕ, inl, inr, suc, ◌^◌, ◌<◌, ◌≡◌, ◌⊎◌, refl, arith, Bool, true, false, Option, none, some,
  [], Bytes, ltb, leb,
}
use bpf_ninja.Go.Strconv.{u64_mod}
use bpf_ninja.Kunai.Ast.{Quant, Layer, proto, group}
use bpf_ninja.Kunai.Lexer.Token.{TokenKind}
use bpf_ninja.Kunai.Parser.State.{
  Parser, ◌>>=◌, pure, Complaint, take_token, when, at_kind, kind_code,
}
use bpf_ninja.Kunai.Parser.State.Reach.{
  Context, left, IsGood, Reaches, Reaches-loose, Reaches-pure, Reaches-after, Reaches-if,
  complaint-Reaches,
}
use bpf_ninja.Kunai.Parser.State.Progress.{take-Reaches, expect-Reaches, refuse_if-Reaches}
use bpf_ninja.Kunai.Parser.WellFormed.{IsPredicate, IsQuant, IsLayer}
use bpf_ninja.Kunai.Parser.Predicates.Sound.{predicate_list-Parses}
use bpf_ninja.Kunai.Parser.Layers.{
  with_quant, at_quant, signed_less, upper_bound, quant_range, simple_quant, quantifier,
  maybe_quant, no_quant, layer_label, bracketed_predicates, proto_leaf,
}

with_quant-IsLayer :
    (r : Bytes → Bool) (d : ℕ) (q : Quant) (l : Layer)
    → IsLayer r d l
    → IsQuant q
    → IsLayer r d (with_quant q l)
unfolding with_quant IsLayer
with_quant-IsLayer r d q (proto name tag preds q' pos) v w = (v.0, v.1, v.2, w)
with_quant-IsLayer r d q (group alts q' pos) v w = (v.0, v.1, v.2, w)

-- The upper bound of a range against the lower one, as signed numbers.
abbrev IsUpper : ℕ → Option ℕ → Type 0
IsUpper lo none = Unit {0}
IsUpper lo (some hi) = (hi < u64_mod) × (signed_less hi lo ≡ false)

IsUpper-range : (lo : ℕ) (hi : Option ℕ) → IsUpper lo hi → lo < 2 ^ 63 → IsQuant (Quant.range lo hi)
unfolding signed_less
IsUpper-range lo none v h = (h, tt)
IsUpper-range lo (some hi) v h = (h, (ground (arith, v.0, v.1), ground (arith, v.0, v.1)))

module _ (c : Context) where
  upper_bound-Reaches :
      (lo : ℕ) (p : Parser) → IsGood c p → Reaches c (suc (left p)) (IsUpper lo) (upper_bound lo p)
  unfolding upper_bound
  upper_bound-Reaches lo p g =
      Reaches-if (at_kind TokenKind.int p)
        (λ e. Reaches-loose (
          Reaches-after (take-Reaches c p g TokenKind.int refl e) (λ t q vt gq lq.
            Reaches-after
              (refuse_if-Reaches c q gq (signed_less t.int lo) t.pos Complaint.range_reversed)
              (λ _ r x gr lr. Reaches-pure (some t.int) r (vt.0.low, x) gr))))
        (λ _. Reaches-pure none p tt g)

  quant_range-Reaches : (p : Parser) → IsGood c p → Reaches c (left p) IsQuant (quant_range p)
  unfolding quant_range
  quant_range-Reaches p g =
      Reaches-after (expect-Reaches c p g TokenKind.lbrace refl) (λ open_tok q _ gq lq.
        Reaches-loose (
          Reaches-after (expect-Reaches c q gq TokenKind.int refl) (λ lo r vl gr lr.
            Reaches-after (bound lo.int vl.0.low r gr) (λ hi s vh gs ls. Reaches-loose (
              Reaches-after (expect-Reaches c s gs TokenKind.rbrace refl) (λ _ t _ gt lt.
                Reaches-after
                  (refuse_if-Reaches c t gt (leb (2 ^ 63) lo.int) open_tok.pos
                    Complaint.range_negative)
                  (λ _ u x gu lu.
                    Reaches-pure (Quant.range lo.int hi) u
                      (IsUpper-range lo.int hi vh (ground (arith, x))) gu)))))))
    where
      bound :
          (lo : ℕ)
          → lo < u64_mod
          → (r : Parser) → IsGood c r
          → Reaches c
              (suc (left r))
              (IsUpper lo)
              (when TokenKind.comma (do _ ← take_token; upper_bound lo) (pure (some lo)) r)
      bound lo l r gr =
          Reaches-if (at_kind TokenKind.comma r)
            (λ e. Reaches-loose (
              Reaches-after (take-Reaches c r gr TokenKind.comma refl e)
                (λ _ s _ gs ls. upper_bound-Reaches lo s gs)))
            (λ _. Reaches-pure (some lo) r (l, unfold signed_less in ground arith) gr)

  simple_quant-Reaches :
      (q : Quant) (k : TokenKind)
      → ltb 0 (kind_code k) ≡ true
      → IsQuant q
      → (p : Parser) → IsGood c p
      → at_kind k p ≡ true
      → Reaches c (left p) IsQuant (simple_quant q p)
  unfolding simple_quant
  simple_quant-Reaches q k h v p g e =
      Reaches-after (take-Reaches c p g k h e) (λ _ r _ gr lr. Reaches-pure q r v gr)

  quantifier-Reaches : (p : Parser) → IsGood c p → Reaches c (left p) IsQuant (quantifier p)
  unfolding quantifier
  quantifier-Reaches p g =
      Reaches-if (at_kind TokenKind.question p)
        (simple_quant-Reaches Quant.opt TokenKind.question refl tt p g)
        (λ _.
          Reaches-if (at_kind TokenKind.plus p)
            (simple_quant-Reaches Quant.plus TokenKind.plus refl tt p g)
            (λ _.
              Reaches-if (at_kind TokenKind.star p)
                (simple_quant-Reaches Quant.star TokenKind.star refl tt p g)
                (λ _. quant_range-Reaches p g)))

  pub maybe_quant-Reaches :
      (l : Layer) (p : Parser)
      → IsLayer c.reserved c.depth l
      → IsGood c p
      → Reaches c (suc (left p)) (IsLayer c.reserved c.depth) (maybe_quant l p)
  unfolding maybe_quant
  maybe_quant-Reaches l p v g =
      Reaches-if (at_quant p)
        (λ e. Reaches-loose (
          Reaches-after (quantifier-Reaches p g) (λ q r vq gr lr.
            Reaches-pure (with_quant q l) r (with_quant-IsLayer c.reserved c.depth q l v vq) gr)))
        (λ _. Reaches-pure l p v g)

  pub no_quant-Reaches :
      (p : Parser) → IsGood c p → Reaches c (suc (left p)) (λ _. Unit {0}) (no_quant p)
  unfolding no_quant
  no_quant-Reaches p g =
      Reaches-if (at_quant p) (λ _. complaint-Reaches Complaint.chained_quantifiers p)
        (λ _. Reaches-pure tt p tt g)

  layer_label-Reaches :
      (p : Parser)
      → IsGood c p
      → Reaches c (suc (left p)) (λ b. (b ≡ []) ⊎ (c.reserved b ≡ false)) (layer_label p)
  unfolding layer_label
  layer_label-Reaches p g =
      Reaches-if (at_kind TokenKind.at p)
        (λ e. Reaches-loose (
          Reaches-after (take-Reaches c p g TokenKind.at refl e) (λ _ q _ gq lq. Reaches-loose (
            Reaches-after (expect-Reaches c q gq TokenKind.ident refl) (λ t r vt gr lr.
              Reaches-after
                (refuse_if-Reaches c r gr (r.reserved t.text) t.pos Complaint.label_reserved)
                (λ _ s x gs ls. Reaches-pure t.text s (inr (rw (← gr.same_reserved) x)) gs))))))
        (λ _. Reaches-pure [] p (inl refl) g)

  bracketed_predicates-Reaches :
      (f : ℕ) (p : Parser)
      → IsGood c p
      → left p < f
      → Reaches c (suc (left p)) (Every IsPredicate) (bracketed_predicates f p)
  unfolding bracketed_predicates
  bracketed_predicates-Reaches f p g l =
      Reaches-if (at_kind TokenKind.lbracket p)
        (λ e. Reaches-loose (
          Reaches-after (take-Reaches c p g TokenKind.lbracket refl e) (λ _ q _ gq lq.
            Reaches-loose (
              Reaches-after (predicate_list-Parses c f q gq (omega arith)) (λ preds r vp gr lr.
                Reaches-loose (
                  Reaches-after (expect-Reaches c r gr TokenKind.rbracket refl)
                    (λ _ s _ gs ls. Reaches-pure preds s vp gs)))))))
        (λ _. Reaches-pure [] p tt g)

  pub proto_leaf-Reaches :
      (f : ℕ) (p : Parser)
      → IsGood c p
      → left p < f
      → Reaches c (left p) (IsLayer c.reserved c.depth) (proto_leaf f p)
  unfolding proto_leaf IsLayer
  proto_leaf-Reaches f p g l =
      Reaches-after (expect-Reaches c p g TokenKind.ident refl) (λ name q vn gq lq.
        Reaches-after (layer_label-Reaches q gq) (λ tag r vt gr lr.
          Reaches-after (bracketed_predicates-Reaches f r gr (omega arith)) (λ preds s vp gs ls.
            Reaches-pure (proto name.text tag preds Quant.one name.pos) s (vn.2, vt, vp, tt) gs)))
