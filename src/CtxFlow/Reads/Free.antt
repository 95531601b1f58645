-- ===== src/CtxFlow/Reads/Free.antt =====
-- The register that internal/ctxflow/pass.go passes a context in.
use bpf_ninja.Base.{ℕ, ◌≤◌, ◌≡◌, ◌≢◌, refl, arith, Bool, true, false, not, List, if◌then◌else◌}
use bpf_ninja.CtxFlow.Insns.{Instruction, RegSet, has, free_arg}
use bpf_ninja.CtxFlow.Reads.{ok, arg_reads}
use bpf_ninja.CtxFlow.Reads.Paths.{ReadsFirst}
use bpf_ninja.CtxFlow.Reads.Uses.{clash}
use bpf_ninja.CtxFlow.Reads.Sound.{arg_reads_sound}

-- A register that is chosen is an argument register that is not in the set.
abbrev IsFree : RegSet → ℕ → Type 0
IsFree s r = r ≢ 0 → (1 ≤ r) × (r ≤ 5) × (has s r ≡ false)

chosen-IsFree :
    (s : RegSet) (b : Bool) (r rest : ℕ)
    → (b ≡ false → IsFree s r)
    → IsFree s rest
    → IsFree s (if not b then r else rest)
chosen-IsFree s true r rest h k = k
chosen-IsFree s false r rest h k = h refl

free_arg-IsFree : (s : RegSet) → IsFree s (free_arg s)
unfolding free_arg
free_arg-IsFree s =
    chosen-IsFree s s.r5 5 _ (λ e n. (omega arith, omega arith, e))
      (chosen-IsFree s s.r4 4 _ (λ e n. (omega arith, omega arith, e))
        (chosen-IsFree s s.r3 3 _ (λ e n. (omega arith, omega arith, e))
          (chosen-IsFree s s.r2 2 _ (λ e n. (omega arith, omega arith, e))
            (chosen-IsFree s s.r1 1 0 (λ e n. (omega arith, omega arith, e))
              (λ n. absurd (n refl))))))

-- The register that `FreeArg` chooses from what `ArgReads` returns is an argument register that no
-- path of the function reads before it writes it.
pub free_arg-unread :
    (insns : List Instruction) (start : ℕ) (s : RegSet)
    → arg_reads insns start ≡ ok s
    → free_arg s ≢ 0
    → (1 ≤ free_arg s) × (free_arg s ≤ 5) × ¬ ReadsFirst insns start (free_arg s)
free_arg-unread insns start s e n =
    let (low, high, absent) = free_arg-IsFree s n in
    (
      low,
      high,
      λ h. clash (has s (free_arg s)) (arg_reads_sound insns start (free_arg s) s e h n) absent,
    )
