-- ===== src/CtxFlow/Reads/Walks.antt =====
-- The loop of `ArgReads` finds what a path reads first.

use bpf_ninja.Base.{
  ℕ, zero, suc, ◌≡◌, refl, ap, true, false, some, List, [], ◌∷◌, get_elem?, Option-cases, ◌⊎◌, inl,
  inr,
}
use bpf_ninja.CtxFlow.Insns.{Instruction, RegSet, has, union, minus, operands}
use bpf_ninja.CtxFlow.Reads.{
  ok, lookup, Memo, Callee, uses_of, successors, Walk, arrive_all, written_at, visit, flow,
}
use bpf_ninja.CtxFlow.Reads.Sets.{
  Within, has-minus, Within-union, Within-union_left, Within-union_right, Within-not,
}
use bpf_ninja.CtxFlow.Reads.Paths.{Edge, Run, here, next, reads_first, Uses}
use bpf_ninja.CtxFlow.Reads.Arrive.{In, Keeps, Reached, arrive_all-Keeps}
use bpf_ninja.CtxFlow.Reads.Uses.{
  >>=-eq-ok, ok_same, Sound, IsSoundMemo, IsSoundCallee, same_ins, uses_of_sound, successors-In,
}

module _ (insns : List Instruction) where
  -- What stands at a visited instruction is settled: what it reads is found, or written before, and
  -- where control goes no more is written than here and before.
  abbrev pub Done : List (ℕ × RegSet) → RegSet → ℕ → RegSet → Type 0
  Done m out i w =
      (ins : Instruction) × (get_elem? insns i ≡ some ins)
      × ((r : ℕ) → Uses insns i r → has w r ≡ false → has out r ≡ true)
      × ((j : ℕ)
          → Edge insns i j
          → (w' : RegSet) × (lookup j m ≡ some w') × Within w' (union w (operands ins).1))

  -- The loop between two rounds.
  pub record IsWalking (start : ℕ) (m : List (ℕ × RegSet)) (work : List ℕ) (out : RegSet)
      (memo : Memo) : Type 0 where
    pub sound : IsSoundMemo insns memo
    pub begun : (w : RegSet) × (lookup start m ≡ some w) × ((r : ℕ) → has w r ≡ true → ⊥)
    pub settled : (i : ℕ) (w : RegSet) → lookup i m ≡ some w → In i work ⊎ Done m out i w

  -- What was settled stays so when more is found and sets shrink.
  Done-Keeps :
      (k k' : Walk) (out more : RegSet) (j : ℕ) (x : RegSet)
      → Keeps k k'
      → Done k.written out j x
      → Done k'.written (union out more) j x
  Done-Keeps k k' out more j x keeps (ins, e, us, ed) = (
    ins,
    e,
    λ r u n. Within-union_left out more r (us r u n),
    λ t d.
        let (y, a, b) = ed t d in
        let (y', a', b') = keeps.shrinks t y a in (y', a', λ r h. b r (b' r h)),
  )

  -- An instruction that is visited is settled.
  visited-Done :
      (i : ℕ) (ins : Instruction) (s w out : RegSet) (l : List ℕ) (k : Walk)
      → get_elem? insns i ≡ some ins
      → ((r : ℕ) → Uses insns i r → has s r ≡ true)
      → ((j : ℕ) → Edge insns i j → In j l)
      → ((t : ℕ) → In t l → Reached (union w (operands ins).1) t k)
      → Done k.written (union out (minus s w)) i w
  visited-Done i ins s w out l k e us ed all = (
    ins,
    e,
    λ r u n. Within-union_right out (minus s w) r (rw (has-minus s w r, us r u, n) refl),
    λ t d. all t (ed t d),
  )

  -- A round.
  visit_round :
      (start i : ℕ) (m : List (ℕ × RegSet)) (work : List ℕ) (out : RegSet) (memo memo' : Memo)
      (ins : Instruction) (s : RegSet) (l : List ℕ) (w : RegSet)
      → IsSoundMemo insns memo'
      → ((r : ℕ) → Uses insns i r → has s r ≡ true)
      → ((j : ℕ) → Edge insns i j → In j l)
      → get_elem? insns i ≡ some ins
      → ((x : RegSet) → lookup i m ≡ some x → w ≡ x)
      → IsWalking start m (i ∷ work) out memo
      → let k : Walk =
          arrive_all (union w (operands ins).1) l (record { written = m; work = work }) in
        IsWalking start k.written k.work (union out (minus s w)) memo'
  visit_round start i m work out memo memo' ins s l w sm us ed e only v =
      let k0 : Walk = record { written = m; work = work } in
      let k : Walk = arrive_all (union w (operands ins).1) l k0 in
      let (keeps, all) = arrive_all-Keeps (union w (operands ins).1) l k0 in
      record {
        sound = sm;
        begun =
            let (w0, q, none_there) = v.begun in
            let (w1, q', small) = keeps.shrinks start w0 q in
            (w1, q', λ r h. none_there r (small r h));
        settled = λ j x q. elim (keeps.fresh j x q) [
          | inl h ↦ inl h
          | inr h ↦ elim (v.settled j x h) [
            | inl (inl t) ↦
                let is_w : w ≡ x = only x (rw (← t) at h) in
                inr (rw (← t, ← is_w) (visited-Done i ins s w out l k e us ed all))
            | inl (inr h') ↦ inl (keeps.queued j h')
            | inr d ↦ inr (Done-Keeps k0 k out (minus s w) j x keeps d)
          ]
        ];
      }

  -- Where the stack is empty, a path has written at least what stands at its end.
  Run-Within :
      (start i : ℕ) (d : RegSet) (m : List (ℕ × RegSet)) (out : RegSet) (memo : Memo)
      → IsWalking start m [] out memo
      → Run insns start i d
      → (w : RegSet) × (lookup i m ≡ some w) × Within w d
  Run-Within start i d m out memo v here =
      let (w, q, none_there) = v.begun in (w, q, λ r h. absurd (none_there r h))
  Run-Within start j d m out memo v (next {i} {d = d'} ins run e edge) =
      let (w, q, small) = Run-Within start i d' m out memo v run in
      elim (v.settled i w q) [
        | inl h ↦ absurd h
        | inr (ins', e', us, ed) ↦
            let same = same_ins insns i ins ins' e e' in
            let (w', q', small') = ed j edge in
            (w', q', λ r h. Within-union w d' (operands ins).1 small r (rw same at (small' r h)))
      ]

  flow_end :
      (start : ℕ) (m : List (ℕ × RegSet)) (out : RegSet) (memo : Memo)
      → IsWalking start m [] out memo
      → Sound insns start out
  flow_end start m out memo v r (reads_first {i = i} {d = d} run uses n) =
      let (w, q, small) = Run-Within start i d m out memo v run in
      elim (v.settled i w q) [
        | inl h ↦ absurd h
        | inr (ins, e, us, ed) ↦ us r uses (Within-not w d r small n)
      ]

  written_lem : (i : ℕ) (k : Walk) (x : RegSet) → lookup i k.written ≡ some x → written_at i k ≡ x
  unfolding written_at
  written_lem i k x h = rw (written_at, h) refl

  pub flow-Sound :
      (callee : Callee) (start f : ℕ) (m : List (ℕ × RegSet)) (work : List ℕ) (out s : RegSet)
      (memo memo' : Memo)
      → IsSoundCallee insns callee
      → IsWalking start m work out memo
      → flow insns callee f m work out memo ≡ ok (s, memo')
      → Sound insns start s × IsSoundMemo insns memo'
  unfolding flow visit
  flow-Sound callee start f m [] out s memo memo' c v u =
      let p : (out, memo) ≡ (s, memo') = ok_same (out, memo) (s, memo') u in
      let is_out : out ≡ s = ap (λ (q : RegSet × Memo). q.0) p in
      let is_memo : memo ≡ memo' = ap (λ (q : RegSet × Memo). q.1) p in
      (rw is_out at (flow_end start m out memo v), rw is_memo at (v.sound))
  flow-Sound callee start zero m (i ∷ work) out s memo memo' c v u = cc
  flow-Sound callee start (suc f) m (i ∷ work) out s memo memo' c v u =
      elim (Option-cases (get_elem? insns i)) [
        | inl e ↦ let bad = rw e at u in cc
        | inr (ins, e) ↦
            let k : Walk = record { written = m; work = work } in
            let w : RegSet = written_at i k in
            let ((read, memo1), p, rest) =
              >>=-eq-ok (uses_of insns callee memo i ins) _ (s, memo') (rw e at u) in
            let (l, p', rest') = >>=-eq-ok (successors insns i ins) _ (s, memo') rest in
            let (kept, right) = uses_of_sound insns callee memo memo1 i ins read c v.sound e p in
            let k' : Walk = arrive_all (union w (operands ins).1) l k in
            flow-Sound callee start f k'.written k'.work (union out (minus read w)) s memo1 memo' c
              (visit_round start i m work out memo memo1 ins read l w kept right
                (λ j d. successors-In insns i j ins l e p' d) e (λ x h. written_lem i k x h) v)
              rest'
      ]
