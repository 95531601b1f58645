-- ===== src/Output/Record/Batch.antt =====
-- internal/output/output.go: `WriteBatch` of a hook capture.
pub mod Terminal
pub mod Shard
use bpf_ninja.Base.{
  ℕ, ◌+◌, ◌%◌, ◌^◌, Bool, true, false, Option, none, some, List, [], ◌∷◌, ◌++◌, Bytes,
}
use bpf_ninja.Record.Types.{Ty}
use bpf_ninja.Output.Record.{
  HookConfig, HookRecord, WriteError, Wrote, wrote, failed_batch, write_hook_record,
}

pub data BatchError : Type 0 where
  already_closed : BatchError
  bad_record : WriteError → BatchError

-- The part of `Writer` that a batch reads and changes; `out` is what is written so far.
pub record HookWriter : Type 0 where
  pub out : Bytes
  pub last_batch_bytes : ℕ
  pub failure : Option BatchError
  pub closed : Bool

-- What the loop has written and counted, and why it stopped early.
pub record Written : Type 0 where
  pub bytes : Bytes
  pub count : ℕ
  pub stopped : Option WriteError

after : Wrote → Bytes → ℕ → (Bytes → ℕ → Written) → Written
after (wrote b n) out count next = next (out ++ b) ((count + n) % 2 ^ 64)
after (failed_batch e) out count next = record { bytes = out; count = count; stopped = some e }

-- The loop over the records.
write_records : (Ty → Option ℕ) → HookConfig → List HookRecord → Bytes → ℕ → Written
unfolding after write_hook_record
write_records sizeof cfg [] out count = record { bytes = out; count = count; stopped = none }
write_records sizeof cfg (p ∷ ps) out count =
    after (write_hook_record sizeof cfg p) out count (λ o n. write_records sizeof cfg ps o n)

-- The writer behind the loop, with what `failBatch` and `remember` keep.
concluded : HookWriter → Bytes → ℕ → Option WriteError → HookWriter × Option BatchError
concluded w out count none = (record w { out = out; last_batch_bytes = count }, none)
concluded w out count (some e) =
    (record w { out = out; failure = some (bad_record e) }, some (bad_record e))

batch_of :
    (Ty → Option ℕ)
    → HookConfig
    → HookWriter
    → List HookRecord
    → Option BatchError
    → Bool
    → HookWriter × Option BatchError
unfolding write_records concluded
batch_of sizeof cfg w ps (some e) closed = (w, some e)
batch_of sizeof cfg w ps none true =
    (record w { failure = some already_closed }, some already_closed)
batch_of sizeof cfg w ps none false =
    let r = write_records sizeof cfg ps w.out 0 in concluded w r.bytes r.count r.stopped

-- `WriteBatch`: the writer behind it, and the error if there is one
unfoldable pub write_batch :
    (Ty → Option ℕ) → HookConfig → HookWriter → List HookRecord → HookWriter × Option BatchError
unfolding batch_of
write_batch sizeof cfg w [] = (w, none)
write_batch sizeof cfg w (p ∷ ps) = batch_of sizeof cfg w (p ∷ ps) w.failure w.closed
