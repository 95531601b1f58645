-- ===== src/Kunai/Parser/Predicates/Sound.antt =====
-- The predicates that pkg/kunai/parser/predicate.go reads.
use bpf_ninja.Base.{
  Every, ℕ, inl, inr, zero, suc, ◌<◌, ◌≡◌, ◌≢◌, refl, arith, true, false, ◌||◌, Option, none, some,
  [], ◌∷◌, codes, same_bytes, Bool-cases,
}
use bpf_ninja.Kunai.Ast.{Position, FieldPath, path, segment, end, unindexed, CmpOp, Test}
use bpf_ninja.Kunai.Lexer.Token.{TokenKind}
use bpf_ninja.Kunai.Lexer.Scan.Payload.{IsGiven}
use bpf_ninja.Kunai.Parser.State.{
  Parser, ◌>>=◌, pure, complain_here, Complaint, take_token, expect, when, is_kind, at_kind,
  advance_value,
}
use bpf_ninja.Kunai.Parser.State.Reach.{
  Context, left, IsGood, Reaches, Reaches-loose, Reaches-pure, Reaches-after, Reaches-strict,
  Reaches-when, complaint-Reaches, Parses,
}
use bpf_ninja.Kunai.Parser.State.Progress.{
  take-Reaches, expect-Reaches, advance_value-Reaches, separated-Reaches,
}
use bpf_ninja.Kunai.Parser.WellFormed.{IsPath, IsSegments, parts, IsTestOf, IsPredicate, IsOptional}
use bpf_ninja.Kunai.Parser.Paths.{any_index}
use bpf_ninja.Kunai.Parser.Paths.Sound.{field_path-Parses}
use bpf_ninja.Kunai.Parser.Predicates.{
  cmp_op_for, take_value, value_tail, value_list, in_test, has_test, cmp_test, test, valid_field,
  predicate_of, valid_or, predicate, predicate_list,
}

pub kind-value : (k : TokenKind) → is_kind TokenKind.value k ≡ true → k ≡ TokenKind.value
kind-value TokenKind.value e = refl
kind-value _ e = ground arith

module _ (c : Context) where
  take_value-Reaches : (p : Parser) → IsGood c p → Reaches c (left p) IsGiven (take_value p)
  unfolding take_value
  take_value-Reaches p g =
      Reaches-when TokenKind.value (do t ← take_token; pure t.value)
        (complain_here Complaint.expected_value) p
        (λ e.
          Reaches-after (take-Reaches c p g TokenKind.value refl e)
            (λ t q vt gq lq. Reaches-pure t.value q (vt.0.given (kind-value t.kind vt.1)) gq))
        (complaint-Reaches Complaint.expected_value p)

  value_tail-Reaches :
      (f : ℕ) (p : Parser)
      → IsGood c p
      → left p < f
      → Reaches c (suc (left p)) (Every IsGiven) (value_tail f p)
  unfolding value_tail
  value_tail-Reaches zero p g l = absurd (omega arith)
  value_tail-Reaches (suc f) p g l =
      Reaches-when TokenKind.comma
        (do _ ← advance_value; v ← take_value; rest ← value_tail f; pure (v ∷ rest)) (pure []) p
        (λ e. Reaches-after (advance_value-Reaches c p g) (λ _ q _ gq lq. Reaches-loose (
          Reaches-after (take_value-Reaches q gq) (λ v r vv gr lr.
            Reaches-after (value_tail-Reaches f r gr (omega arith))
              (λ rest s vs gs ls. Reaches-pure (v ∷ rest) s (vv, vs) gs)))))
        (Reaches-pure [] p tt g)

  value_list-Reaches :
      (f : ℕ) (p : Parser)
      → IsGood c p
      → left p < f
      → Reaches c (left p) (λ vs. (vs ≢ []) × Every IsGiven vs) (value_list f p)
  unfolding value_list
  value_list-Reaches f p g l =
      Reaches-when TokenKind.lbracket
        (do
          _ ← advance_value
          first ← take_value
          rest ← value_tail f
          _ ← expect TokenKind.rbracket
          pure (first ∷ rest))
        (complain_here Complaint.expected_list) p
        (λ e. Reaches-strict (advance_value-Reaches c p g) (λ _ q _ gq lq.
          Reaches-after (take_value-Reaches q gq) (λ first r vf gr lr.
            Reaches-after (value_tail-Reaches f r gr (omega arith)) (λ rest s vr gs ls.
              Reaches-loose (
                Reaches-after (expect-Reaches c s gs TokenKind.rbracket refl)
                  (λ _ t _ gt lt. Reaches-pure (first ∷ rest) t ((λ x. cc), (vf, vr)) gt))))))
        (complaint-Reaches Complaint.expected_list p)

  in_test-Reaches :
      (fp : FieldPath) (f : ℕ) (p : Parser)
      → IsGood c p
      → is_kind TokenKind.kw_in p.cur.kind ≡ true
      → left p < f
      → Reaches c (left p) (IsTestOf fp) (in_test f p)
  unfolding in_test
  in_test-Reaches fp f p g h l =
      Reaches-after (take-Reaches c p g TokenKind.kw_in refl h) (λ _ q _ gq lq. Reaches-loose (
        Reaches-when TokenKind.at
          (do _ ← take_token; name ← expect TokenKind.ident; pure (Test.in_set name.text))
          (do list ← value_list f; pure (Test.in_list list)) q
          (λ e. Reaches-after (take-Reaches c q gq TokenKind.at refl e) (λ _ r _ gr lr.
            Reaches-loose (
              Reaches-after (expect-Reaches c r gr TokenKind.ident refl)
                (λ name s vn gs ls. Reaches-pure (Test.in_set name.text) s vn.2 gs))))
          (Reaches-after (value_list-Reaches f q gq (omega arith))
            (λ list r vl gr lr. Reaches-pure (Test.in_list list) r vl gr))))

  has_test-Reaches :
      (fp : FieldPath) (p : Parser)
      → IsGood c p
      → is_kind TokenKind.kw_has p.cur.kind ≡ true
      → Reaches c (left p) (IsTestOf fp) (has_test p)
  unfolding has_test
  has_test-Reaches fp p g h =
      Reaches-after (take-Reaches c p g TokenKind.kw_has refl h) (λ _ q _ gq lq. Reaches-loose (
        Reaches-after (expect-Reaches c q gq TokenKind.ident refl)
          (λ flag r vf gr lr. Reaches-pure (Test.has flag.text) r vf.2 gr)))

  cmp_test-Reaches :
      (fp : FieldPath) (o : Option CmpOp) (p : Parser)
      → IsGood c p
      → Reaches c (left p) (IsTestOf fp) (cmp_test o p)
  unfolding cmp_test
  cmp_test-Reaches fp none p g = complaint-Reaches Complaint.expected_test p
  cmp_test-Reaches fp (some op) p g = Reaches-strict (advance_value-Reaches c p g) (λ _ q _ gq lq.
      Reaches-after (take_value-Reaches q gq)
        (λ v r vv gr lr. Reaches-pure (Test.cmp op v) r vv gr))

  test-Reaches :
      (fp : FieldPath) (f : ℕ) (p : Parser)
      → IsGood c p
      → left p < f
      → Reaches c (left p) (IsTestOf fp) (test f p)
  unfolding test
  test-Reaches fp f p g l =
      Reaches-when TokenKind.kw_in (in_test f)
        (when TokenKind.kw_has has_test (λ p. cmp_test (cmp_op_for p.cur.kind) p)) p
        (λ e. in_test-Reaches fp f p g e l)
        (Reaches-when TokenKind.kw_has has_test (λ p. cmp_test (cmp_op_for p.cur.kind) p) p
          (has_test-Reaches fp p g) (cmp_test-Reaches fp (cmp_op_for p.cur.kind) p g))

  predicate_of-Reaches :
      (f : ℕ) (pos : Position) (fp : FieldPath) (p : Parser)
      → IsPath fp
      → IsGood c p
      → left p < f
      → Reaches c (left p) IsPredicate (predicate_of f pos fp p)
  unfolding predicate_of
  predicate_of-Reaches f pos fp p v g l =
      Reaches-after (test-Reaches fp f p g l)
        (λ t q vt gq lq. Reaches-pure (record { field = fp; test = t; pos = pos }) q (v, vt) gq)

-- A path without its tail `valid`: one part with no index.
abbrev IsBare : FieldPath → Type 0
IsBare (path s pos) = IsPath (path s pos) × (parts s ≡ 1) × (any_index s ≡ false)

valid_field-IsBare : (fp : FieldPath) → IsPath fp → IsOptional IsBare (valid_field fp)
unfolding valid_field IsPath IsSegments parts any_index
valid_field-IsBare (path (segment name unindexed (segment tail unindexed end)) pos) v =
    elim (Bool-cases (same_bytes tail (codes "valid"))) [
      | inl x ↦ rw x (((λ e. cc), (v.1.0, tt, tt)), refl, refl)
      | inr x ↦ rw x tt
    ]
valid_field-IsBare _ v = tt

module _ (c : Context) where
  valid_or-Reaches :
      (f : ℕ) (pos : Position) (fp : FieldPath) (o : Option FieldPath) (p : Parser)
      → IsPath fp
      → IsOptional IsBare o
      → IsGood c p
      → left p < f
      → Reaches c (suc (left p)) IsPredicate (valid_or f pos fp o p)
  unfolding valid_or IsPath parts any_index
  valid_or-Reaches f pos fp none p v w g l = Reaches-loose (predicate_of-Reaches c f pos fp p v g l)
  valid_or-Reaches f pos fp (some (path s q)) p v w g l =
      elim (Bool-cases (at_kind TokenKind.comma p || at_kind TokenKind.rbracket p)) [
        | inl e ↦ rw e (
            Reaches-pure (record { field = path s q; test = Test.valid; pos = pos }) p
              (w.0, (w.1, w.2)) g)
        | inr e ↦ rw e (Reaches-loose (predicate_of-Reaches c f pos fp p v g l))
      ]

  predicate-Parses : (f : ℕ) → Parses c f IsPredicate (predicate f)
  unfolding predicate
  predicate-Parses f p g l =
      Reaches-after (field_path-Parses c f p g (omega arith)) (λ fp q v gq lq.
        valid_or-Reaches f p.cur.pos fp (valid_field fp) q v (valid_field-IsBare fp v) gq
          (omega arith))

  -- The predicates of a layer, in a list that is not empty.
  pub predicate_list-Parses : (f : ℕ) → Parses c f (Every IsPredicate) (predicate_list f)
  unfolding predicate_list
  predicate_list-Parses f p g l = Reaches-after (predicate-Parses f p g l) (λ first q v gq lq.
      Reaches-after
        (separated-Reaches TokenKind.comma refl (predicate-Parses f) f q gq (omega arith)
          (omega arith))
        (λ rest r w gr lr. Reaches-pure (first ∷ rest) r (v, w) gr))
