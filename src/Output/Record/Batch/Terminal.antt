-- ===== src/Output/Record/Batch/Terminal.antt =====
-- A writer of a hook capture behind a failed `WriteBatch`.
use bpf_ninja.Base.{ℕ, ◌≡◌, refl, ap, Bool, true, false, Option, none, some, List, [], ◌∷◌, Bytes}
use bpf_ninja.Record.Types.{Ty}
use bpf_ninja.Output.Record.{HookConfig, HookRecord, WriteError}
use bpf_ninja.Output.Record.Batch.{
  BatchError, HookWriter, write_records, concluded, batch_of, write_batch,
}

-- The writer of a batch that fails keeps its error.
concluded-failure :
    (w : HookWriter) (out : Bytes) (count : ℕ) (stopped : Option WriteError) (e : BatchError)
    → (concluded w out count stopped).1 ≡ some e
    → (concluded w out count stopped).0.failure ≡ some e
unfolding concluded
concluded-failure w out count none e h = cc
concluded-failure w out count (some x) e h = h

batch_of-failure :
    (sizeof : Ty → Option ℕ) (cfg : HookConfig) (w : HookWriter) (ps : List HookRecord)
    (failure : Option BatchError) (closed : Bool) (e : BatchError)
    → w.failure ≡ failure
    → (batch_of sizeof cfg w ps failure closed).1 ≡ some e
    → (batch_of sizeof cfg w ps failure closed).0.failure ≡ some e
unfolding batch_of
batch_of-failure sizeof cfg w ps (some x) closed e f h = cc
batch_of-failure sizeof cfg w ps none true e f h = h
batch_of-failure sizeof cfg w ps none false e f h =
    let r = write_records sizeof cfg ps w.out 0 in concluded-failure w r.bytes r.count r.stopped e h

write_batch-failure :
    (sizeof : Ty → Option ℕ) (cfg : HookConfig) (w : HookWriter) (ps : List HookRecord)
    (e : BatchError)
    → (write_batch sizeof cfg w ps).1 ≡ some e
    → (write_batch sizeof cfg w ps).0.failure ≡ some e
unfolding write_batch
write_batch-failure sizeof cfg w [] e h = cc
write_batch-failure sizeof cfg w (p ∷ ps) e h =
    batch_of-failure sizeof cfg w (p ∷ ps) w.failure w.closed e refl h

write_batch-refused :
    (sizeof : Ty → Option ℕ) (cfg : HookConfig) (w : HookWriter) (p : HookRecord)
    (ps : List HookRecord) (e : BatchError)
    → w.failure ≡ some e
    → write_batch sizeof cfg w (p ∷ ps) ≡ (w, some e)
unfolding write_batch batch_of
write_batch-refused sizeof cfg w p ps e h = ap (λ f. batch_of sizeof cfg w (p ∷ ps) f w.closed) h

-- Behind a batch that fails, every batch that has a record fails with the same error, and neither
-- writes nor changes the writer.
pub write_batch-terminal :
    (sizeof : Ty → Option ℕ) (cfg : HookConfig) (w : HookWriter) (ps : List HookRecord)
    (e : BatchError) (q : HookRecord) (qs : List HookRecord)
    → (write_batch sizeof cfg w ps).1 ≡ some e
    → write_batch sizeof cfg (write_batch sizeof cfg w ps).0 (q ∷ qs)
      ≡ ((write_batch sizeof cfg w ps).0, some e)
write_batch-terminal sizeof cfg w ps e q qs h =
    write_batch-refused sizeof cfg (write_batch sizeof cfg w ps).0 q qs e
      (write_batch-failure sizeof cfg w ps e h)
