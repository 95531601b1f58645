-- ===== src/Kunai/Parser/State/Progress.antt =====
-- How the parser of pkg/kunai/parser moves over the source: what it keeps, and the bytes that are
-- left.

use bpf_ninja.Base.{
  Every, ℕ, suc, ◌<◌, ◌≡◌, ◌≢◌, inl, inr, refl, sym, ap, ◌∙◌, arith, Bool, true, false, [], ◌∷◌,
  ◌++◌, Bytes, ltb, drop, length, length-append, zero,
}
use bpf_ninja.Kunai.Ast.{Position}
use bpf_ninja.Kunai.Lexer.Token.{TokenKind, Token, ok, err}
use bpf_ninja.Kunai.Lexer.State.{Lexer, Snapshot, rest, save}
use bpf_ninja.Kunai.Lexer.Scan.{Outcome, next, next_value}
use bpf_ninja.Kunai.Lexer.Scan.Source.{Reads, next-Reads, next_value-Reads}
use bpf_ninja.Kunai.Lexer.Scan.Payload.{IsLoaded, next-IsLoaded, next_value-IsLoaded}
use bpf_ninja.Kunai.Parser.State.Reach.{
  Context, left, IsGood, Reaches, Reaches-within, Reaches-map, Reaches-loose, Reaches-pure,
  Reaches-after, Reaches-when, complaint-Reaches, Parses,
}
use bpf_ninja.Kunai.Parser.State.{
  Parser, ◌>>=◌, pure, P, Complaint, complain_here, refuse_if, advanced, advance, advanced_value,
  advance_value, kind_code, is_kind, at_kind, when, take_token, expect, separated,
}

ne_nil-length : (s : Bytes) → s ≢ [] → 0 < length s
ne_nil-length [] n = absurd (n refl)
ne_nil-length (b ∷ s) n = ground arith

eof-code : (k : TokenKind) → k ≡ TokenKind.eof → ltb 0 (kind_code k) ≡ false
eof-code k e = rw e refl

true-ne-false : true ≡ false → ⊥
true-ne-false e = cc

-- A token that is not at the end leaves fewer bytes behind it.
rest-lt :
    {c : Context} {p : Parser}
    → IsGood c p
    → ltb 0 (kind_code p.cur.kind) ≡ true
    → length (rest p.lex) < left p
rest-lt {c} {p} g h = elim (g.solid) [
  | inl x ↦ absurd (true-ne-false (sym h ∙ eof-code p.cur.kind x.0))
  | inr x ↦ omega (arith, g.room, ne_nil-length p.cur.text x)
]

-- A token of a kind, with its text.
abbrev pub IsTaken : TokenKind → Token → Type 0
IsTaken k t = IsLoaded t × (is_kind k t.kind ≡ true) × (t.text ≢ [])

-- The same context, whatever the current token.
abbrev pub Fits : Context → Parser → Type 0
Fits c p = (p.depth ≡ c.depth) × (p.reserved ≡ c.reserved) × (p.lex.src ≡ c.src)

module _ (c : Context) (p : Parser) (fits : Fits c p) where
  pub Reads-IsGood :
      {t : Token} {m : Lexer} (s : Snapshot) (l : Lexer)
      → Reads l t m
      → IsLoaded t
      → l.src ≡ p.lex.src
      → s.pos ≡ l.pos
      → IsGood c (record p { lex = m; cur = t; pre_cur = s })
  Reads-IsGood {t} {m} s l x y e f = record {
    solid = elim (x.ended) [ inl z ↦ inl (z.0, z.2) | inr z ↦ inr z ];
    room = omega (
      arith,
      ap length x.ahead,
      ap (λ q. length (drop s.pos q)) x.same_src,
      ap (λ n. length (drop n l.src)) f,
      length-append x.trivia (t.text ++ rest m),
      length-append t.text (rest m),
    );
    loaded = y;
    at_depth = fits.0;
    same_reserved = fits.1;
    same_src = x.same_src ∙ e ∙ fits.2;
  }

  advanced-Reaches :
      (o : Outcome)
      → o ≡ next p.lex
      → Reaches c (suc (length (rest p.lex))) (λ _. Unit {0}) (advanced p o)
  unfolding advanced
  advanced-Reaches (ok t, m) e = record {
    holds = (
      tt,
      Reads-IsGood (save p.lex) p.lex (next-Reads p.lex (sym e)) (next-IsLoaded p.lex (sym e)) refl
          (unfold save in refl),
      unfold save in
          omega (arith, ap (λ q. length (drop p.lex.pos q)) (next-Reads p.lex (sym e)).same_src),
    );
  }
  advanced-Reaches (err x, m) e = record { holds = λ h. cc }

  -- The bytes that the scanner has not read hold the next token.
  pub advance-Reaches : Reaches c (suc (length (rest p.lex))) (λ _. Unit {0}) (advance p)
  advance-Reaches = unfold advance in advanced-Reaches (next p.lex) refl

module _ (c : Context) (p : Parser) (g : IsGood c p) where
  -- A token that is not at the end, as it was, and the parser behind it.
  pub take_token-Reaches :
      ltb 0 (kind_code p.cur.kind) ≡ true → Reaches c (left p) (λ t. t ≡ p.cur) (take_token p)
  take_token-Reaches h =
      unfold take_token in
      Reaches-within
        (Reaches-after (advance-Reaches c p (g.at_depth, g.same_reserved, g.same_src))
          (λ a q u v w. Reaches-pure p.cur q refl v))
        (omega (arith, rest-lt g h))

  advanced_value-Reaches :
      (o : Outcome)
      → o ≡ next_value p.lex
      → Reaches c (suc (left p)) (λ _. Unit {0}) (advanced_value p o)
  unfolding advanced_value
  advanced_value-Reaches (ok t, m) e = record {
    holds = (
      tt,
      record {
        solid = elim (x.ended) [ inl z ↦ inl (z.0, z.2) | inr z ↦ inr z ];
        room = omega (
          arith,
          g.room,
          ap length x.ahead,
          same,
          length-append x.trivia (t.text ++ rest m),
          length-append t.text (rest m),
        );
        loaded = next_value-IsLoaded p.lex (sym e);
        at_depth = g.at_depth;
        same_reserved = g.same_reserved;
        same_src = x.same_src ∙ g.same_src;
      },
      omega (arith, same),
    );
  }
    where
      x : Reads p.lex t m
      x = next_value-Reads p.lex (sym e)

      same : length (drop p.pre_cur.pos m.src) ≡ left p
      same = ap (λ q. length (drop p.pre_cur.pos q)) x.same_src
  advanced_value-Reaches (err x, m) e = record { holds = λ h. cc }

  pub advance_value-Reaches : Reaches c (suc (left p)) (λ _. Unit {0}) (advance_value p)
  advance_value-Reaches = unfold advance_value in advanced_value-Reaches (next_value p.lex) refl

  has_text : ltb 0 (kind_code p.cur.kind) ≡ true → p.cur.text ≢ []
  has_text h = elim (g.solid) [
    | inl x ↦ absurd (true-ne-false (sym h ∙ eof-code p.cur.kind x.0))
    | inr x ↦ x
  ]

  -- A token of a kind that is not the end.
  pub take-Reaches :
      (k : TokenKind)
      → ltb 0 (kind_code k) ≡ true
      → at_kind k p ≡ true
      → Reaches c (left p) (IsTaken k) (take_token p)
  take-Reaches k h e =
      Reaches-map (take_token-Reaches (ground (arith, e)))
        (λ t x. rw x (g.loaded, e, has_text (ground (arith, e))))

  pub take_or-Reaches :
      (k : TokenKind)
      → ltb 0 (kind_code k) ≡ true
      → (what : Complaint)
      → Reaches c (left p) (IsTaken k) (when k take_token (complain_here what) p)
  take_or-Reaches k h what =
      Reaches-when k take_token (complain_here what) p (take-Reaches k h) (complaint-Reaches what p)

  pub expect-Reaches :
      (k : TokenKind) → ltb 0 (kind_code k) ≡ true → Reaches c (left p) (IsTaken k) (expect k p)
  expect-Reaches k h = unfold expect in take_or-Reaches k h (Complaint.expected k)

  pub refuse_if-Reaches :
      (b : Bool) (pos : Position) (what : Complaint)
      → Reaches c (suc (left p)) (λ _. b ≡ false) (refuse_if b pos what p)
  refuse_if-Reaches true pos what = record { holds = λ e. cc }
  refuse_if-Reaches false pos what = Reaches-pure tt p refl g

pub separated-Reaches :
    {A : Type 0} {c : Context} {n : ℕ} {W : A → Type 0} {item : P A} (sep : TokenKind)
    → ltb 0 (kind_code sep) ≡ true
    → Parses c n W item
    → (f : ℕ) (p : Parser) → IsGood c p
    → left p < n
    → left p < f
    → Reaches c (suc (left p)) (Every W) (separated sep item f p)
unfolding separated
separated-Reaches sep s h zero p g ln k = absurd (omega arith)
separated-Reaches {c} {item = item} sep s h (suc f) p g ln k =
    Reaches-when sep (do _ ← take_token; a ← item; rest ← separated sep item f; pure (a ∷ rest))
      (pure []) p
      (λ e. Reaches-loose (
        Reaches-after (take_token-Reaches c p g (ground (arith, e))) (λ t q v gq lq. Reaches-loose (
          Reaches-after (h q gq (omega arith)) (λ a r va gr lr.
            Reaches-after (separated-Reaches sep s h f r gr (omega arith) (omega arith))
              (λ l u vas gu lu. Reaches-pure (a ∷ l) u (va, vas) gu))))))
      (Reaches-pure [] p tt g)

-- At a separator there is one more.
pub separated_some-Reaches :
    {A : Type 0} {c : Context} {n : ℕ} {W : A → Type 0} {item : P A} (sep : TokenKind)
    → ltb 0 (kind_code sep) ≡ true
    → Parses c n W item
    → (f : ℕ) (p : Parser) → IsGood c p
    → left p < n
    → left p < f
    → at_kind sep p ≡ true
    → Reaches c (left p) (λ l. Every W l × (l ≢ [])) (separated sep item f p)
separated_some-Reaches sep s h zero p g ln k e = absurd (omega arith)
separated_some-Reaches {c} {item = item} sep s h (suc f) p g ln k e =
    unfold separated in
    rw e (
      Reaches-after (take-Reaches c p g sep s e) (λ t q v gq lq. Reaches-loose (
        Reaches-after (h q gq (omega arith)) (λ a r va gr lr.
          Reaches-after (separated-Reaches sep s h f r gr (omega arith) (omega arith))
            (λ l u vas gu lu. Reaches-pure (a ∷ l) u ((va, vas), (λ x. cc)) gu)))))
