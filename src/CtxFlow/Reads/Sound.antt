-- ===== src/CtxFlow/Reads/Sound.antt =====
-- `ArgReads` finds every register that some path reads before it writes it.
use mathlib.Core.Path.{subst}
use bpf_ninja.Base.{
  ℕ, zero, suc, ◌+◌, ◌≡◌, ◌≢◌, refl, ap, arith, Bool, true, false, Option, none, some, List, [],
  ◌∷◌, ◌==◌, length, Bool-cases, inl, inr,
}
use bpf_ninja.CtxFlow.Insns.{Instruction, RegSet, has, minus, no_regs, bit}
use bpf_ninja.CtxFlow.Reads.{
  Found, ok, fail, lookup, Memo, Callee, flow, in_progress, known, remember, unless_busy, outcome,
  rounds, reads, ReadsError, arg_reads,
}
use bpf_ninja.CtxFlow.Reads.Sets.{has-minus, has-no_regs, has-bit}
use bpf_ninja.CtxFlow.Reads.Paths.{ReadsFirst}
use bpf_ninja.CtxFlow.Reads.Uses.{
  >>=-eq-ok, ok_same, some_same, clash, Sound, IsSoundMemo, IsSoundCallee,
}
use bpf_ninja.CtxFlow.Reads.Walks.{IsWalking, flow-Sound}

module _ (insns : List Instruction) where
  begin-IsWalking :
      (start : ℕ) (memo : Memo)
      → IsSoundMemo insns memo
      → IsWalking insns start ((start, no_regs) ∷ []) (start ∷ []) no_regs memo
  begin-IsWalking start memo v = record {
    sound = v;
    begun = (no_regs, ground arith, λ r h. clash (has no_regs r) h (has-no_regs r));
    settled = λ i w h. elim (Bool-cases (start == i)) [
      | inl e ↦ inl (inl (ground (arith, e)))
      | inr e ↦ let bad = rw e at h in cc
    ];
  }

  remember-IsSoundMemo :
      (start : ℕ) (out : RegSet) (memo : Memo)
      → Sound insns start out
      → IsSoundMemo insns memo
      → IsSoundMemo insns ((start, out) ∷ memo)
  remember-IsSoundMemo start out memo h v t s e = elim (Bool-cases (start == t)) [
    | inl k ↦
        let same : start ≡ t = ground (arith, k) in
        let is_out : out ≡ s = some_same out s (rw k at e) in rw (← same, ← is_out) h
    | inr k ↦ v t s (rw k at e)
  ]

  known-Sound :
      (o : Option RegSet) (start : ℕ) (memo memo' : Memo) (s : RegSet)
      (rest : Found (RegSet × Memo))
      → IsSoundMemo insns memo
      → lookup start memo ≡ o
      → (rest ≡ ok (s, memo') → Sound insns start s × IsSoundMemo insns memo')
      → known o memo rest ≡ ok (s, memo')
      → Sound insns start s × IsSoundMemo insns memo'
  unfolding known
  known-Sound none start memo memo' s rest v e k u = k u
  known-Sound (some r) start memo memo' s rest v e k u =
      let p : (r, memo) ≡ (s, memo') = ok_same (r, memo) (s, memo') u in
      let is_s : r ≡ s = ap (λ (q : RegSet × Memo). q.0) p in
      let is_memo : memo ≡ memo' = ap (λ (q : RegSet × Memo). q.1) p in
      (rw is_s at (v start r e), rw is_memo at v)

  remember-Sound :
      (start : ℕ) (out : RegSet) (memo memo' : Memo) (s : RegSet)
      → Sound insns start out
      → IsSoundMemo insns memo
      → remember start (out, memo) ≡ ok (s, memo')
      → Sound insns start s × IsSoundMemo insns memo'
  unfolding remember
  remember-Sound start out memo memo' s h v u =
      let p : (out, (start, out) ∷ memo) ≡ (s, memo') =
        ok_same (out, (start, out) ∷ memo) (s, memo') u in
      let is_s : out ≡ s = ap (λ (q : RegSet × Memo). q.0) p in
      let is_memo : (start, out) ∷ memo ≡ memo' = ap (λ (q : RegSet × Memo). q.1) p in
      (
        rw is_s at h,
        subst (λ (q : Memo). IsSoundMemo insns q) is_memo (remember-IsSoundMemo start out memo h v),
      )

  outcome-Sound :
      (callee : Callee) (memo memo' : Memo) (start : ℕ) (s : RegSet)
      → IsSoundCallee insns callee
      → IsSoundMemo insns memo
      → outcome insns callee memo start ≡ ok (s, memo')
      → Sound insns start s × IsSoundMemo insns memo'
  outcome-Sound callee memo memo' start s c v u =
      let ((out, memo1), p, q) =
        >>=-eq-ok
          (flow insns callee (rounds insns) ((start, no_regs) ∷ []) (start ∷ []) no_regs memo)
          (remember start) (s, memo') (unfold outcome in u) in
      let (right, kept) =
        flow-Sound insns callee start (rounds insns) ((start, no_regs) ∷ []) (start ∷ []) no_regs
          out memo memo1 c (begin-IsWalking start memo v) p in
      remember-Sound start out memo1 memo' s right kept q

  unless_busy_sound :
      (b : Bool) (rest : Found (RegSet × Memo)) (a : RegSet × Memo)
      → unless_busy b rest ≡ ok a
      → rest ≡ ok a
  unfolding unless_busy
  unless_busy_sound true rest a u = cc
  unless_busy_sound false rest a u = u

  -- What `reads` returns is right, and so is its memo.
  reads-Sound :
      (f : ℕ) (busy : List ℕ) (memo memo' : Memo) (start : ℕ) (s : RegSet)
      → IsSoundMemo insns memo
      → reads insns f busy memo start ≡ ok (s, memo')
      → Sound insns start s × IsSoundMemo insns memo'
  unfolding reads
  reads-Sound zero busy memo memo' start s v u =
      known-Sound (lookup start memo) start memo memo' s
        (unless_busy (in_progress start busy) (fail ReadsError.out_of_fuel)) v refl
        (λ k.
          let bad =
            unless_busy_sound (in_progress start busy) (fail ReadsError.out_of_fuel) (s, memo') k in
          cc)
        u
  reads-Sound (suc f) busy memo memo' start s v u =
      let callee : Callee = λ m t. reads insns f (start ∷ busy) m t in
      known-Sound (lookup start memo) start memo memo' s
        (unless_busy (in_progress start busy) (outcome insns callee memo start)) v refl
        (λ k.
          outcome-Sound callee memo memo' start s
            (λ m m' t r w e. reads-Sound f (start ∷ busy) m m' t r w e) v
            (unless_busy_sound (in_progress start busy) (outcome insns callee memo start) (s, memo')
              k))
        u

-- Every register that some path of the function reads before it writes it, R0 aside, is in what
-- `ArgReads` returns; what the functions that it calls read counts as read by the call.
pub arg_reads_sound :
    (insns : List Instruction) (start r : ℕ) (s : RegSet)
    → arg_reads insns start ≡ ok s
    → ReadsFirst insns start r
    → r ≢ 0
    → has s r ≡ true
unfolding arg_reads
arg_reads_sound insns start r s u h n =
    let ((out, memo), p, q) =
      >>=-eq-ok (reads insns (suc (length insns + 1)) [] [] start) (λ x. ok (minus x.0 (bit 0))) s
        u in
    let is_s : minus out (bit 0) ≡ s = ok_same (minus out (bit 0)) s q in
    let (right, kept) =
      reads-Sound insns (suc (length insns + 1)) [] [] memo start out (λ t x e. cc) p in
    rw (← is_s) (rw (has-minus out (bit 0) r, right r h, has-bit r n) refl)
