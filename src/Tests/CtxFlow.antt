-- ===== src/Tests/CtxFlow.antt =====
-- internal/ctxflow on a small program: a function that calls one which reads R3.
use bpf_ninja.Base.{ℕ, ◌-◌, ◌^◌, ◌≤◌, ◌≡◌, ◌≢◌, refl, arith, true, false, none, some, List, [], ◌∷◌}
use bpf_ninja.CtxFlow.Insns.{
  Class, AluOp, JumpOp, Linkage, Instruction, RegSet, has, operands, is_exit, branches, free_arg,
}
use bpf_ninja.CtxFlow.Reads.{ReadsError, ok, fail, target, is_exported, arg_reads}
use bpf_ninja.CtxFlow.Reads.Paths.{falls, here, next, ReadsFirst, reads_first, operand, in_callee}
use bpf_ninja.CtxFlow.Reads.Sound.{arg_reads_sound}
use bpf_ninja.CtxFlow.Reads.Ends.{arg_reads-total}
use bpf_ninja.CtxFlow.Reads.Free.{free_arg-unread}

-- dst = src
abbrev mov : ℕ → ℕ → Instruction
mov dst src = record {
  class = Class.alu64;
  alu_op = AluOp.mov;
  jump_op = JumpOp.other;
  reg_source = true;
  mem_mode = false;
  load_imm_dword = false;
  dst = dst;
  src = src;
  offset = 0;
  constant = 0;
  size = 1;
  symbol = [];
  reference = [];
  is_function_call = false;
  is_builtin_call = false;
  linkage = none;
}

-- A call of the function `n` instructions behind the next one.
abbrev call : ℕ → Instruction
call n = record (mov 0 1) {
  class = Class.jump;
  jump_op = JumpOp.call;
  constant = n;
  is_function_call = true;
}

abbrev exit : Instruction
exit = record (mov 0 0) { class = Class.jump; jump_op = JumpOp.exit }

abbrev program : List Instruction
program =
    mov 2 1 ∷ call 1 ∷ exit ∷ record (mov 0 3) { linkage = some Linkage.static_func } ∷ exit ∷ []

-- R1 and R3.
abbrev r1_r3 : RegSet
r1_r3 = record { r0 = false; r1 = true; r2 = false; r3 = true; r4 = false; r5 = false }

program-reads : arg_reads program 0 ≡ ok r1_r3
unfolding arg_reads
program-reads = refl

callee-reads : ReadsFirst program 3 3
unfolding has operands
callee-reads =
    reads_first here
      (operand (record (mov 0 3) { linkage = some Linkage.static_func }) refl refl refl) refl

-- The call reads R3, behind an instruction that writes R2.
program-reads_r3 : ReadsFirst program 0 3
unfolding has operands is_exit branches target is_exported
program-reads_r3 =
    reads_first (next (mov 2 1) here refl (falls (mov 2 1) refl refl refl refl))
      (in_callee (call 1) refl refl refl refl callee-reads) refl

arg_reads_sound_example : has r1_r3 3 ≡ true
arg_reads_sound_example =
    arg_reads_sound program 0 3 r1_r3 program-reads program-reads_r3 (omega arith)

arg_reads-total_example : arg_reads program 0 ≢ fail ReadsError.out_of_fuel
arg_reads-total_example = arg_reads-total program 0

free_arg-r1_r3 : free_arg r1_r3 ≡ 5
unfolding free_arg
free_arg-r1_r3 = refl

free_arg_some : free_arg r1_r3 ≢ 0
free_arg_some = rw free_arg-r1_r3 (omega arith)

free_arg-unread_example :
    (1 ≤ free_arg r1_r3) × (free_arg r1_r3 ≤ 5) × ¬ ReadsFirst program 0 (free_arg r1_r3)
free_arg-unread_example = free_arg-unread program 0 r1_r3 program-reads free_arg_some

-- A function that calls itself is refused.
recursion : arg_reads (call (2 ^ 64 - 1) ∷ exit ∷ []) 0 ≡ fail ReadsError.recursive_call
unfolding arg_reads
recursion = refl

-- Control that runs out of the program is refused.
falls_off : arg_reads (mov 0 1 ∷ []) 0 ≡ fail ReadsError.leaves_program
unfolding arg_reads
falls_off = refl
