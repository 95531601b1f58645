-- ===== src/Kunai/Lexer/Moves.antt =====
-- How the scanner of pkg/kunai/lexer/lexer.go moves over the source: what lies between two states.
use bpf_ninja.Base.{
  ℕ, zero, suc, ◌+◌, ◌-◌, ◌≡◌, refl, sym, ap, ◌∙◌, Bool, true, false, inl, inr, [], ◌∷◌, ◌++◌,
  append_assoc, if◌then◌else◌, Bytes, take, length, drop-suc, get_elem?-drop, Bool-cases, arith,
  all,
}
use bpf_ninja.Go.Strings.{has_prefix}
use bpf_ninja.Kunai.Lexer.State.{Lexer, rest, advance, advance_n, scan_while, slice, consume}

-- From `l` the scanner has gone over the bytes of `text`, and is at `m`.
pub record Passes (l : Lexer) (text : Bytes) (m : Lexer) : Type 0 where
  pub ahead : rest l ≡ text ++ rest m
  pub steps : m ≡ advance_n (length text) l

advance-src : (l : Lexer) → (advance l).src ≡ l.src
unfolding advance
advance-src l = ground arith

advance-pos : (l : Lexer) {b : ℕ} {bs : Bytes} → rest l ≡ b ∷ bs → (advance l).pos ≡ suc l.pos
unfolding advance
advance-pos l h = rw (get_elem?-drop l.pos l.src) (rw h (ground arith))

pub rest-advance : (l : Lexer) {b : ℕ} {bs : Bytes} → rest l ≡ b ∷ bs → rest (advance l) ≡ bs
rest-advance l h = rw (advance-src l) (rw (advance-pos l h) (rw (drop-suc l.pos l.src) (rw h refl)))

pub Passes-nil : (l : Lexer) → Passes l [] l
unfolding advance_n
Passes-nil l = record { ahead = refl; steps = refl }

-- One byte, and then what the scanner goes over from there.
pub Passes-cons :
    (l : Lexer) {b : ℕ} {bs text : Bytes} {m : Lexer}
    → rest l ≡ b ∷ bs
    → Passes (advance l) text m
    → Passes l (b ∷ text) m
unfolding advance_n
Passes-cons l {b} h p = record {
  ahead = h ∙ ap (◌∷◌ b) (sym (rest-advance l h) ∙ p.ahead);
  steps = p.steps;
}

pub advance-Passes :
    (l : Lexer) {b : ℕ} {bs : Bytes} → rest l ≡ b ∷ bs → Passes l (b ∷ []) (advance l)
advance-Passes l h = Passes-cons l h (Passes-nil (advance l))

advance_n-add :
    (s t : Bytes) (l : Lexer)
    → advance_n (length (s ++ t)) l ≡ advance_n (length t) (advance_n (length s) l)
unfolding advance_n
advance_n-add [] t l = refl
advance_n-add (b ∷ s) t l = advance_n-add s t (advance l)

pub Passes-trans : {l m n : Lexer} {s t : Bytes} → Passes l s m → Passes m t n → Passes l (s ++ t) n
Passes-trans {l} {s = s} {t = t} p q = record {
  ahead = p.ahead ∙ ap (λ r. s ++ r) q.ahead ∙ sym (append_assoc s t _);
  steps = q.steps ∙ ap (advance_n (length t)) p.steps ∙ sym (advance_n-add s t l);
}

-- The longest run of bytes that pass a test.
abbrev pub run : (ℕ → Bool) → Bytes → Bytes
run p [] = []
run p (b ∷ bs) = if p b then b ∷ run p bs else []

pub all-run : (p : ℕ → Bool) (bs : Bytes) → all p (run p bs) ≡ true
all-run p [] = refl
all-run p (b ∷ bs) = ground (arith, all-run p bs)

-- The byte behind the run does not pass.
pub run-stops :
    (p : ℕ → Bool) (bs : Bytes) (c : ℕ) (cs : Bytes) → bs ≡ run p bs ++ c ∷ cs → p c ≡ false
run-stops p [] c cs h = cc
run-stops p (b ∷ bs) c cs h = elim (Bool-cases (p b)) [
  | inl e ↦ run-stops p bs c cs (ground (arith, rw e at h))
  | inr e ↦ ground (arith, rw e at h)
]

pub scan_while-Passes :
    (p : ℕ → Bool) (bs : Bytes) (l : Lexer) → rest l ≡ bs → Passes l (run p bs) (scan_while p bs l)
unfolding scan_while
scan_while-Passes p [] l h = Passes-nil l
scan_while-Passes p (b ∷ bs) l h = elim (Bool-cases (p b)) [
  | inl e ↦ rw e (Passes-cons l h (scan_while-Passes p bs (advance l) (rest-advance l h)))
  | inr e ↦ rw e (Passes-nil l)
]

pub has_prefix-Passes :
    (s bs : Bytes) (l : Lexer)
    → rest l ≡ bs
    → has_prefix bs s ≡ true
    → Passes l s (advance_n (length s) l)
unfolding has_prefix advance_n
has_prefix-Passes [] bs l h e = Passes-nil l
has_prefix-Passes (c ∷ s) [] l h e = cc
has_prefix-Passes (c ∷ s) (b ∷ bs) l h e =
    rw (← (both.0)) (Passes-cons l h (has_prefix-Passes s bs (advance l) (rest-advance l h) both.1))
  where
    both : (b ≡ c) × (has_prefix bs s ≡ true)
    both = ground arith

pub consume-Passes : (s : Bytes) (l : Lexer) → (consume s l).0 ≡ true → Passes l s (consume s l).1
unfolding consume
consume-Passes s l e = elim (Bool-cases (has_prefix (rest l) s)) [
  | inl h ↦ rw h (has_prefix-Passes s (rest l) l refl h)
  | inr h ↦ absurd (ground arith)
]

advance_n-src : (n : ℕ) (l : Lexer) → (advance_n n l).src ≡ l.src
unfolding advance_n
advance_n-src zero l = refl
advance_n-src (suc n) l = advance_n-src n (advance l) ∙ advance-src l

advance_n-pos :
    (t r : Bytes) (l : Lexer) → rest l ≡ t ++ r → (advance_n (length t) l).pos ≡ l.pos + length t
unfolding advance_n
advance_n-pos [] r l h = omega arith
advance_n-pos (b ∷ t) r l h =
    omega (arith, advance_n-pos t r (advance l) (rest-advance l h), advance-pos l h)

pub Passes-src : {l m : Lexer} {t : Bytes} → Passes l t m → m.src ≡ l.src
Passes-src {l} {t = t} p = rw p.steps (advance_n-src (length t) l)

pub Passes-pos : {l m : Lexer} {t : Bytes} → Passes l t m → m.pos ≡ l.pos + length t
Passes-pos {l} {m} {t} p = ap (λ (x : Lexer). x.pos) p.steps ∙ advance_n-pos t (rest m) l p.ahead

take-append : (s t : Bytes) → take (length s) (s ++ t) ≡ s
take-append [] t = refl
take-append (b ∷ s) t = ap (◌∷◌ b) (take-append s t)

-- What is cut out between two states is what was passed.
pub slice-Passes : {l m : Lexer} {t : Bytes} → Passes l t m → slice l m ≡ t
unfolding slice
slice-Passes {l} {m} {t} p =
    ap (λ n. take n (rest l)) size ∙ ap (take (length t)) p.ahead ∙ take-append t (rest m)
  where
    size : m.pos - l.pos ≡ length t
    size = omega (arith, Passes-pos p)
