-- ===== src/Tests/Batch.antt =====
-- internal/output's batches of hook records, on two records of which the second is refused.
use native.Mathlib.Omega.{arith}
use bpf_ninja.Base.{ℕ, ◌≡◌, refl, true, false, Option, none, some, List, [], ◌∷◌, length}
use bpf_ninja.Record.Types.{Ty}
use bpf_ninja.Output.Record.{HookConfig, HookRecord, WriteError}
use bpf_ninja.Output.Record.Batch.{BatchError, HookWriter, write_batch}
use bpf_ninja.Output.Record.Batch.Shard.{IsHookRecord, Continues, is_none, write_batch-Continues}
use bpf_ninja.Output.Record.Batch.Terminal.{write_batch-terminal}

abbrev no_size : Ty → Option ℕ
no_size t = none

-- A capture of one site that records nothing but packets.
abbrev capture : HookConfig
capture = record { hooks = 1; layouts = none ∷ []; record_return = true; no_run_ids = false }

abbrev at_site : ℕ → HookRecord
at_site site = record {
  ts = 5;
  bytes = 170 ∷ 187 ∷ [];
  orig_len = 60;
  action = 2;
  site_id = site;
  packet_id = 9;
  block = none;
}

abbrev writer : HookWriter
writer = record { out = 1 ∷ []; last_batch_bytes = 3; failure = none; closed = false }

abbrev batch : List HookRecord
batch = at_site 1 ∷ at_site 2 ∷ []

at_site-IsHookRecord : (site : ℕ) → IsHookRecord capture (at_site site)
at_site-IsHookRecord site = record {
  short = omega arith;
  timed = omega arith;
  numbered = omega arith;
  unnumbered = λ e. ground (arith, e);
}

abbrev refusal : BatchError
refusal = BatchError.bad_record WriteError.invalid_record

-- The first record is written, the second refused, and the count of the last batch stays.
stopped :
    ((write_batch no_size capture writer batch).1 ≡ some refusal)
    × ((write_batch no_size capture writer batch).0.last_batch_bytes ≡ 3)
    × (length (write_batch no_size capture writer batch).0.out ≡ 77)
unfolding write_batch
stopped = (refl, refl, refl)

write_batch-Continues_example :
    Continues no_size capture
      (1 ∷ [])
      batch
      (write_batch no_size capture writer batch).0.out
      (is_none (write_batch no_size capture writer batch).1)
write_batch-Continues_example =
    write_batch-Continues no_size capture writer batch
      (at_site-IsHookRecord 1, (at_site-IsHookRecord 2, tt))

refused_batch : (write_batch no_size capture writer batch).1 ≡ some refusal
unfolding write_batch
refused_batch = refl

write_batch-terminal_example :
    write_batch no_size capture (write_batch no_size capture writer batch).0 (at_site 1 ∷ [])
    ≡ ((write_batch no_size capture writer batch).0, some refusal)
write_batch-terminal_example =
    write_batch-terminal no_size capture writer batch refusal (at_site 1) [] refused_batch
