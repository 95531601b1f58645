-- ===== src/Kunai/Lexer/Scan/Source.antt =====
-- `Next` and `NextValue` of pkg/kunai/lexer/lexer.go against the source text: nothing is lost,
-- nothing is read twice, and every position is the right one.
use bpf_ninja.Base.{
  ℕ, ◌+◌, ◌≡◌, ◌≢◌, refl, ap, ◌∙◌, ◌⊎◌, inl, inr, true, false, [], ◌∷◌, ◌++◌, Bytes, take, length,
  all, arith,
}
use bpf_ninja.Kunai.Ast.{Position}
use bpf_ninja.Kunai.Lexer.Token.{TokenKind, Token, ok, err, SyntaxError}
use bpf_ninja.Kunai.Lexer.State.{Lexer, rest, current_pos, is_trivia, skip_trivia}
use bpf_ninja.Kunai.Lexer.Moves.{Passes, run, all-run, run-stops, Passes-src, Passes-pos}
use bpf_ninja.Kunai.Lexer.Location.{Locates, IsLocated, Passes-IsLocated}
use bpf_ninja.Kunai.Lexer.Scan.Tiling.{Lexeme, read-Lexeme, read_value-Lexeme, scan-Passes}
use bpf_ninja.Kunai.Lexer.Scan.{read, next, read_value, next_value}

-- From `l` to `m` the source holds white space, then the token's text. The text is empty only at
-- the end of the source. The token's position is the place where its text begins, and `m`'s own
-- line and column are right, if those of `l` were.
pub record Reads (l : Lexer) (t : Token) (m : Lexer) : Type 0 where
  pub trivia : Bytes
  pub blank : all is_trivia trivia ≡ true
  pub ahead : rest l ≡ trivia ++ (t.text ++ rest m)
  pub moved : m.pos ≡ l.pos + length trivia + length t.text
  pub same_src : m.src ≡ l.src
  pub ended : ((t.kind ≡ TokenKind.eof) × (t.text ≡ []) × (rest m ≡ [])) ⊎ (t.text ≢ [])
  pub placed : IsLocated l → Locates (take (l.pos + length trivia) l.src) t.pos.line t.pos.col
  pub located : IsLocated l → IsLocated m

-- The place at which an error is reported is that of the first byte that is not white space.
pub record FailsAt (l : Lexer) (e : SyntaxError) : Type 0 where
  pub trivia : Bytes
  pub blank : all is_trivia trivia ≡ true
  pub first : ℕ
  pub solid : is_trivia first ≡ false
  pub unread : Bytes
  pub ahead : rest l ≡ trivia ++ first ∷ unread
  pub placed : IsLocated l → Locates (take (l.pos + length trivia) l.src) e.pos.line e.pos.col

-- A token that marks the end.
record Ends (s : Lexer) (t : Token) (m : Lexer) : Type 0 where
  kind_is : t.kind ≡ TokenKind.eof
  text_is : t.text ≡ []
  pos_is : t.pos ≡ current_pos s
  stays : m ≡ s
  at_end : rest s ≡ []

module _ (l s : Lexer) (trivia : Bytes) (p : Passes l trivia s)
    (b : all is_trivia trivia ≡ true) where
  position-Locates :
      {pos : Position}
      → pos ≡ current_pos s
      → IsLocated l
      → Locates (take (l.pos + length trivia) l.src) pos.line pos.col
  position-Locates e v = rw (e, ← Passes-pos p, ← Passes-src p) (Passes-IsLocated p v)

  Lexeme-Reads : {t : Token} {m : Lexer} → Lexeme s t m → Reads l t m
  Lexeme-Reads {t} {m} x = record {
    trivia = trivia;
    blank = b;
    ahead = p.ahead ∙ ap (λ r. trivia ++ r) x.passed.ahead;
    moved = omega (arith, Passes-pos p, Passes-pos x.passed);
    same_src = Passes-src x.passed ∙ Passes-src p;
    ended = inr x.solid;
    placed = position-Locates x.placed;
    located = λ v. Passes-IsLocated x.passed (Passes-IsLocated p v);
  }

  Ends-Reads : {t : Token} {m : Lexer} → Ends s t m → Reads l t m
  Ends-Reads {t} {m} x = record {
    trivia = trivia;
    blank = b;
    ahead = rw (x.text_is, x.stays) p.ahead;
    moved = rw (x.text_is, x.stays) (omega (arith, Passes-pos p));
    same_src = rw x.stays (Passes-src p);
    ended = inl (x.kind_is, x.text_is, rw x.stays x.at_end);
    placed = position-Locates x.pos_is;
    located = λ v. rw x.stays (Passes-IsLocated p v);
  }

  position-FailsAt :
      {e : SyntaxError} {c : ℕ} {bs : Bytes}
      → rest s ≡ c ∷ bs
      → is_trivia c ≡ false
      → e.pos ≡ current_pos s
      → FailsAt l e
  position-FailsAt {c = c} {bs = bs} r n h = record {
    trivia = trivia;
    blank = b;
    first = c;
    solid = n;
    unread = bs;
    ahead = p.ahead ∙ ap (λ x. trivia ++ x) r;
    placed = position-Locates h;
  }

  read-Reads :
      (bs : Bytes) {t : Token} {m : Lexer} → rest s ≡ bs → read bs s ≡ (ok t, m) → Reads l t m
  unfolding read
  read-Reads [] h e = Ends-Reads (record {
    kind_is = ground arith;
    text_is = ground arith;
    pos_is = ground arith;
    stays = ground arith;
    at_end = h;
  })
  read-Reads (c ∷ bs) h e = Lexeme-Reads (rw e at (read-Lexeme s c bs h))

  read-FailsAt :
      (bs : Bytes) {x : SyntaxError} {m : Lexer}
      → rest s ≡ bs
      → ((c : ℕ) (cs : Bytes) → rest s ≡ c ∷ cs → is_trivia c ≡ false)
      → read bs s ≡ (err x, m)
      → FailsAt l x
  read-FailsAt [] h n e = absurd (unfold read in ground arith)
  read-FailsAt (c ∷ bs) h n e = position-FailsAt h (n c bs h) (rw e at (read-Lexeme s c bs h))

  read_value-Reads :
      (bs : Bytes) {t : Token} {m : Lexer} → rest s ≡ bs → read_value bs s ≡ (ok t, m) → Reads l t m
  unfolding read_value
  read_value-Reads [] h e = Ends-Reads (record {
    kind_is = ground arith;
    text_is = ground arith;
    pos_is = ground arith;
    stays = ground arith;
    at_end = h;
  })
  read_value-Reads (c ∷ bs) h e = Lexeme-Reads (rw e at (read_value-Lexeme s c bs h))

  read_value-FailsAt :
      (bs : Bytes) {x : SyntaxError} {m : Lexer}
      → rest s ≡ bs
      → ((c : ℕ) (cs : Bytes) → rest s ≡ c ∷ cs → is_trivia c ≡ false)
      → read_value bs s ≡ (err x, m)
      → FailsAt l x
  read_value-FailsAt [] h n e = absurd (unfold read_value in ground arith)
  read_value-FailsAt (c ∷ bs) h n e =
      position-FailsAt h (n c bs h) (rw e at (read_value-Lexeme s c bs h))

skip_trivia-Passes : (l : Lexer) → Passes l (run is_trivia (rest l)) (skip_trivia l)
unfolding skip_trivia
skip_trivia-Passes l = scan-Passes is_trivia l

skip_trivia-stops :
    (l : Lexer) (c : ℕ) (cs : Bytes) → rest (skip_trivia l) ≡ c ∷ cs → is_trivia c ≡ false
skip_trivia-stops l c cs h =
    run-stops is_trivia (rest l) c cs
      ((skip_trivia-Passes l).ahead ∙ ap (λ x. run is_trivia (rest l) ++ x) h)

-- A token that `Next` returns tiles the source: from the state before to the state after stand
-- white space and then the token's text, which is empty only for the token at the end of the
-- source; and if line and column were right before, the token's position is where its text begins
-- and line and column are right after.
pub next-Reads : (l : Lexer) {t : Token} {m : Lexer} → next l ≡ (ok t, m) → Reads l t m
unfolding next
next-Reads l e =
    read-Reads l (skip_trivia l) (run is_trivia (rest l)) (skip_trivia-Passes l)
      (all-run is_trivia (rest l)) (rest (skip_trivia l)) refl e

-- A value token that `NextValue` returns tiles the source in the same way.
pub next_value-Reads : (l : Lexer) {t : Token} {m : Lexer} → next_value l ≡ (ok t, m) → Reads l t m
unfolding next_value
next_value-Reads l e =
    read_value-Reads l (skip_trivia l) (run is_trivia (rest l)) (skip_trivia-Passes l)
      (all-run is_trivia (rest l)) (rest (skip_trivia l)) refl e

-- An error of `Next` is reported behind all the white space ahead, where the first byte that is not
-- white space stands: at the line and column of that byte if those of the scanner were right.
pub next-FailsAt : (l : Lexer) {x : SyntaxError} {m : Lexer} → next l ≡ (err x, m) → FailsAt l x
unfolding next
next-FailsAt l e =
    read-FailsAt l (skip_trivia l) (run is_trivia (rest l)) (skip_trivia-Passes l)
      (all-run is_trivia (rest l)) (rest (skip_trivia l)) refl (skip_trivia-stops l) e

-- An error of `NextValue` is reported in the same way.
pub next_value-FailsAt :
    (l : Lexer) {x : SyntaxError} {m : Lexer} → next_value l ≡ (err x, m) → FailsAt l x
unfolding next_value
next_value-FailsAt l e =
    read_value-FailsAt l (skip_trivia l) (run is_trivia (rest l)) (skip_trivia-Passes l)
      (all-run is_trivia (rest l)) (rest (skip_trivia l)) refl (skip_trivia-stops l) e
