-- ===== src/Kunai/Parser/Paths/Sound.antt =====
-- The field paths that pkg/kunai/parser/predicate.go reads.
use bpf_ninja.Base.{ℕ, zero, suc, ◌<◌, ◌≤◌, ◌≡◌, ◌≢◌, leb, refl, arith, true, []}
use bpf_ninja.Kunai.Ast.{Position, FieldPath, path, segment, end, unindexed, at, slice, by_field}
use bpf_ninja.Kunai.Lexer.Token.{TokenKind, Token}
use bpf_ninja.Kunai.Parser.State.{
  Parser, P, ◌>>=◌, pure, complain_here, Complaint, take_token, expect, when, is_kind,
}
use bpf_ninja.Kunai.Parser.State.Reach.{
  Context, left, IsGood, Reaches, Reaches-loose, Reaches-pure, Reaches-after, Reaches-when,
  complaint-Reaches, Parses,
}
use bpf_ninja.Kunai.Parser.State.Progress.{
  take-Reaches, take_or-Reaches, expect-Reaches, refuse_if-Reaches,
}
use bpf_ninja.Kunai.Parser.WellFormed.{IsSegments, IsIndex, IsPath}
use bpf_ninja.Kunai.Parser.Paths.{
  has_any_index, slice_end, int_index, path_index, index_body, try_index, path_tail, path_from_head,
  field_path,
}

-- What is asked of the recursive call: a path behind its first name.
abbrev pub ReadsPath : Context → ℕ → (Token → P FieldPath) → Type 0
ReadsPath c n rec =
    (head : Token)
    → head.text ≢ []
    → (p : Parser) → IsGood c p
    → left p < n
    → Reaches c (suc (left p)) IsPath (rec head p)

module _ (c : Context) where
  slice_end-Reaches :
      (pos : Position) (lo : ℕ) (p : Parser)
      → IsGood c p
      → is_kind TokenKind.colon p.cur.kind ≡ true
      → Reaches c (left p) IsIndex (slice_end pos lo p)
  unfolding slice_end IsIndex
  slice_end-Reaches pos lo p g h =
      Reaches-after (take-Reaches c p g TokenKind.colon refl h) (λ _ q _ gq lq. Reaches-loose (
        Reaches-after (take_or-Reaches c q gq TokenKind.int refl Complaint.slice_end)
          (λ hi r vr gr lr. Reaches-loose (
            Reaches-after (expect-Reaches c r gr TokenKind.rbracket refl) (λ _ s _ gs ls.
              Reaches-after (refuse_if-Reaches c s gs (leb hi.int lo) pos Complaint.slice_empty)
                (λ _ t e gt lt.
                  Reaches-pure (slice lo hi.int pos) t (ground (arith, e), vr.0.low) gt))))))

  int_index-Reaches :
      (pos : Position) (p : Parser)
      → IsGood c p
      → is_kind TokenKind.int p.cur.kind ≡ true
      → Reaches c (left p) IsIndex (int_index pos p)
  unfolding int_index IsIndex
  int_index-Reaches pos p g h =
      Reaches-after (take-Reaches c p g TokenKind.int refl h) (λ n q vn gq lq. Reaches-loose (
        Reaches-when TokenKind.colon (slice_end pos n.int)
          (do _ ← expect TokenKind.rbracket; pure (at n.int pos)) q
          (slice_end-Reaches pos n.int q gq)
          (Reaches-after (expect-Reaches c q gq TokenKind.rbracket refl)
            (λ _ r _ gr lr. Reaches-pure (at n.int pos) r vn.0.low gr))))

  path_index-Reaches :
      (rec : Token → P FieldPath) (n : ℕ)
      → ReadsPath c n rec
      → (pos : Position) (p : Parser) → IsGood c p
      → left p ≤ n
      → Reaches c (left p) IsIndex (path_index rec pos p)
  unfolding path_index IsIndex
  path_index-Reaches rec n h pos p g l =
      Reaches-after (expect-Reaches c p g TokenKind.ident refl) (λ head q vh gq lq.
        Reaches-after (h head vh.2 q gq (omega arith)) (λ fp r vr gr lr.
          Reaches-after (refuse_if-Reaches c r gr (has_any_index fp) pos Complaint.nested_index)
            (λ _ s e gs ls. Reaches-loose (
              Reaches-after (expect-Reaches c s gs TokenKind.rbracket refl)
                (λ _ t _ gt lt. Reaches-pure (by_field fp pos) t (vr, e) gt)))))

  index_body-Reaches :
      (rec : Token → P FieldPath) (n : ℕ)
      → ReadsPath c n rec
      → (pos : Position) (p : Parser) → IsGood c p
      → left p ≤ n
      → Reaches c (left p) IsIndex (index_body rec pos p)
  unfolding index_body
  index_body-Reaches rec n h pos p g l =
      Reaches-when TokenKind.int (int_index pos)
        (when TokenKind.ident (path_index rec pos) (complain_here Complaint.expected_index)) p
        (int_index-Reaches pos p g)
        (Reaches-when TokenKind.ident (path_index rec pos) (complain_here Complaint.expected_index)
          p (λ e. path_index-Reaches rec n h pos p g l)
          (complaint-Reaches Complaint.expected_index p))

  try_index-Reaches :
      (rec : Token → P FieldPath) (n : ℕ)
      → ReadsPath c n rec
      → (p : Parser) → IsGood c p
      → left p ≤ suc n
      → Reaches c (suc (left p)) IsIndex (try_index rec p)
  unfolding try_index IsIndex
  try_index-Reaches rec n h p g l =
      Reaches-when TokenKind.lbracket (do open_tok ← take_token; index_body rec open_tok.pos)
        (pure unindexed) p
        (λ e. Reaches-loose (
          Reaches-after (take-Reaches c p g TokenKind.lbracket refl e)
            (λ t q _ gq lq. Reaches-loose (index_body-Reaches rec n h t.pos q gq (omega arith)))))
        (Reaches-pure unindexed p tt g)

  path_tail-Reaches :
      (rec : Token → P FieldPath) (n : ℕ)
      → ReadsPath c n rec
      → (f : ℕ) (p : Parser) → IsGood c p
      → left p ≤ suc n
      → left p < f
      → Reaches c (suc (left p)) IsSegments (path_tail rec f p)
  unfolding path_tail IsSegments
  path_tail-Reaches rec n h zero p g l k = absurd (omega arith)
  path_tail-Reaches rec n h (suc f) p g l k =
      Reaches-when TokenKind.dot
        (do
          _ ← take_token
          name ← expect TokenKind.ident
          idx ← try_index rec
          rest ← path_tail rec f
          pure (segment name.text idx rest))
        (pure end) p
        (λ e. Reaches-loose (
          Reaches-after (take-Reaches c p g TokenKind.dot refl e) (λ _ q _ gq lq. Reaches-loose (
            Reaches-after (expect-Reaches c q gq TokenKind.ident refl) (λ name r vn gr lr.
              Reaches-after (try_index-Reaches rec n h r gr (omega arith)) (λ idx s vi gs ls.
                Reaches-after (path_tail-Reaches rec n h f s gs (omega arith) (omega arith))
                  (λ rest t vt gt lt.
                    Reaches-pure (segment name.text idx rest) t (vn.2, vi, vt) gt)))))))
        (Reaches-pure end p tt g)

  -- A path behind its first name, which may read no more than that.
  pub path_from_head-Reaches : (f : ℕ) → ReadsPath c f (path_from_head f)
  unfolding path_from_head IsPath IsSegments
  path_from_head-Reaches zero head e p g l = absurd (omega arith)
  path_from_head-Reaches (suc f) head e p g l =
      Reaches-after
        (try_index-Reaches (path_from_head f) f (path_from_head-Reaches f) p g (omega arith))
        (λ idx q vi gq lq.
          Reaches-after
            (path_tail-Reaches (path_from_head f) f (path_from_head-Reaches f) (suc f) q gq
              (omega arith) (omega arith))
            (λ rest r vr gr lr.
              Reaches-pure (path (segment head.text idx rest) head.pos) r ((λ x. cc), (e, vi, vr))
                gr))

  pub field_path-Parses : (f : ℕ) → Parses c (suc f) IsPath (field_path f)
  unfolding field_path
  field_path-Parses f p g l =
      Reaches-after (expect-Reaches c p g TokenKind.ident refl)
        (λ head q vh gq lq. path_from_head-Reaches f head vh.2 q gq (omega arith))
