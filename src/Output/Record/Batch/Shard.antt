-- ===== src/Output/Record/Batch/Shard.antt =====
-- What `WriteBatch` of a hook capture leaves in its file, as the merge reads it.
use bpf_ninja.Base.{
  ℕ, zero, suc, ◌-◌, ◌^◌, ◌<◌, ◌≤◌, ◌≡◌, refl, sym, ap, ◌∙◌, arith, Bool, true, false, not, ◌&&◌,
  ◌||◌, Option, none, some, List, [], ◌∷◌, ◌++◌, map, append_assoc, append-nil, Bytes, length, ltb,
  ◌==◌, Bool-cases, inl, inr, Every,
}
use bpf_ninja.Record.Types.{Ty}
use bpf_ninja.Output.Epb.{Packet, write_hook_packet}
use bpf_ninja.Output.Record.{
  HookConfig, HookRecord, Commented, with_comment, no_comment, Wrote, wrote, failed_batch,
  packet_of, record_comment, written_block, write_commented, write_hook_record, WriteError,
}
use bpf_ninja.Output.Record.Batch.{
  HookWriter, BatchError, Written, after, write_records, concluded, batch_of, write_batch,
}
use bpf_ninja.Output.Merge.Sorted.{HookPacket, IsHookPacket, bytes_of, block_bytes, shard_bytes}

-- A record as the kernel side hands it over: its bytes fit, its numbers have 64 bits, and it has no
-- id where the capture numbers nothing.
pub record IsHookRecord (cfg : HookConfig) (p : HookRecord) : Type 0 where
  pub short : length p.bytes ≤ 65535
  pub timed : p.ts < 2 ^ 64
  pub numbered : p.packet_id < 2 ^ 64
  pub unnumbered : cfg.no_run_ids ≡ true → p.packet_id ≡ 0

-- A comment that is written fits its option.
written_comment :
    (q : Packet) (id : ℕ) (c b : Bytes) → write_hook_packet q id c ≡ some b → length c ≤ 65535
unfolding write_hook_packet
written_comment q id c b e = ground (arith, e)

written_block-wrote :
    (p : HookRecord) (c : Bytes) (o : Option Bytes) (b : Bytes) (n : ℕ)
    → written_block p c o ≡ wrote b n
    → o ≡ some b
unfolding written_block
written_block-wrote p c none b n e = cc
written_block-wrote p c (some d) b n e = ground (arith, e)

write_commented-wrote :
    (p : HookRecord) (c : Commented) (b : Bytes) (n : ℕ)
    → write_commented p c ≡ wrote b n
    → (text : Bytes) × (c ≡ with_comment text)
      × (write_hook_packet (packet_of p) p.packet_id text ≡ some b)
unfolding write_commented
write_commented-wrote p (no_comment x) b n e = cc
write_commented-wrote p (with_comment text) b n e = (
  text,
  refl,
  written_block-wrote p text (write_hook_packet (packet_of p) p.packet_id text) b n e,
)

-- What a record is written from, and what a packet is.
abbrev handed : (Ty → Option ℕ) → HookConfig → HookRecord → Packet × ℕ × Commented
handed sizeof cfg p = (packet_of p, p.packet_id, record_comment sizeof cfg p)

abbrev sent : HookPacket → Packet × ℕ × Commented
sent q = (q.packet, q.id, with_comment q.comment)

-- A record is what the merge takes for a packet of this capture.
abbrev Fits : (Ty → Option ℕ) → HookConfig → HookRecord → Bytes → Type 0
Fits sizeof cfg p b =
    (q : HookPacket) × IsHookPacket cfg.hooks (not cfg.no_run_ids) q
    × (sent q ≡ handed sizeof cfg p)
    × (block_bytes q ≡ b)

latched_lem :
    (id : ℕ) (n : Bool) → (n ≡ true → id ≡ 0) → (id == 0 && not n) ≡ false → not (id == 0) ≡ not n
latched_lem zero true h e = refl
latched_lem zero false h e = cc
latched_lem (suc id) true h e = ground (arith, h refl)
latched_lem (suc id) false h e = ground (arith)

passed_guard :
    (site hooks : ℕ) (c : Bool)
    → (site == 0 || (ltb hooks site || c)) ≡ false
    → (site - 1 < hooks) × (c ≡ false)
passed_guard site hooks true e = ground (arith, e)
passed_guard site hooks false e = (ground (arith, e), refl)

write_hook_record-Fits :
    (sizeof : Ty → Option ℕ) (cfg : HookConfig) (p : HookRecord) (b : Bytes) (n : ℕ)
    → IsHookRecord cfg p
    → write_hook_record sizeof cfg p ≡ wrote b n
    → Fits sizeof cfg p b
unfolding write_hook_record packet_of block_bytes
write_hook_record-Fits sizeof cfg p b n h e =
    elim (Bool-cases
      (p.site_id == 0 || (ltb cfg.hooks p.site_id || (p.packet_id == 0 && not cfg.no_run_ids)))) [
        | inl g ↦ let r : failed_batch WriteError.invalid_record ≡ wrote b n = rw g at e in cc
        | inr g ↦
            let (placed, latched) =
              passed_guard p.site_id cfg.hooks (p.packet_id == 0 && not cfg.no_run_ids) g in
            let (text, c, w) =
              write_commented-wrote p (record_comment sizeof cfg p) b n (rw g at e) in
            (
              record { packet = packet_of p; id = p.packet_id; comment = text },
              record {
                short = h.short;
                placed = placed;
                timed = h.timed;
                numbered = h.numbered;
                commented = written_comment (packet_of p) p.packet_id text b w;
                latched = latched_lem p.packet_id cfg.no_run_ids h.unnumbered latched;
              },
              ap (λ x. (packet_of p, p.packet_id, x)) (sym c),
              ap bytes_of w,
            )
      ]

abbrev is_empty {ℓ} : {A : Type ℓ} → List A → Bool
is_empty [] = true
is_empty (x ∷ xs) = false

abbrev pub is_none {ℓ} : {A : Type ℓ} → Option A → Bool
is_none none = true
is_none (some x) = false

-- A batch of a capture of hooks puts blocks behind what is written, one for each record of a prefix
-- of the batch, and for each record of it if no error comes back.
abbrev pub Continues :
    (Ty → Option ℕ) → HookConfig → Bytes → List HookRecord → Bytes → Bool → Type 0
Continues sizeof cfg out ps out' complete =
    (qs : List HookPacket) × (rest : List HookRecord) × Every
      (IsHookPacket cfg.hooks (not cfg.no_run_ids)) qs
    × (out' ≡ out ++ shard_bytes qs)
    × (map (handed sizeof cfg) ps ≡ map sent qs ++ map (handed sizeof cfg) rest)
    × (complete ≡ is_empty rest)

-- A record more in front.
Continues-cons :
    (sizeof : Ty → Option ℕ) (cfg : HookConfig) (out b : Bytes) (p : HookRecord)
    (ps : List HookRecord) (out' : Bytes) (complete : Bool)
    → Fits sizeof cfg p b
    → Continues sizeof cfg (out ++ b) ps out' complete
    → Continues sizeof cfg out (p ∷ ps) out' complete
Continues-cons sizeof cfg out b p ps out' complete (q, i, f, g)
      (qs, rest, every, bytes, packets, all) =
    (
      q ∷ qs,
      rest,
      (i, every),
      bytes ∙ append_assoc out b (shard_bytes qs) ∙ ap (λ x. out ++ (x ++ shard_bytes qs)) (sym g),
      (λ k. sym f k ∷ packets k),
      all,
    )

after-Continues :
    (sizeof : Ty → Option ℕ) (cfg : HookConfig) (out : Bytes) (count : ℕ) (p : HookRecord)
    (ps : List HookRecord) (r : Wrote) (next : Bytes → ℕ → Written)
    → ((b : Bytes) (n : ℕ) → r ≡ wrote b n → Fits sizeof cfg p b)
    → ((o : Bytes) (n : ℕ)
        → Continues sizeof cfg o ps (next o n).bytes (is_none (next o n).stopped))
    → Continues sizeof cfg out
        (p ∷ ps)
        (after r out count next).bytes
        (is_none (after r out count next).stopped)
unfolding after
after-Continues sizeof cfg out count p ps (wrote b n) next f s =
    Continues-cons sizeof cfg out b p ps _ _ (f b n refl) (s (out ++ b) _)
after-Continues sizeof cfg out count p ps (failed_batch x) next f s =
    ([], p ∷ ps, tt, sym (append-nil out), refl, refl)

write_records-Continues :
    (sizeof : Ty → Option ℕ) (cfg : HookConfig) (ps : List HookRecord) (out : Bytes) (count : ℕ)
    → Every (IsHookRecord cfg) ps
    → Continues sizeof cfg out ps
        (write_records sizeof cfg ps out count).bytes
        (is_none (write_records sizeof cfg ps out count).stopped)
unfolding write_records
write_records-Continues sizeof cfg [] out count h = ([], [], tt, sym (append-nil out), refl, refl)
write_records-Continues sizeof cfg (p ∷ ps) out count (h, hs) =
    after-Continues sizeof cfg out count p ps (write_hook_record sizeof cfg p) _
      (λ b n. write_hook_record-Fits sizeof cfg p b n h)
      (λ o n. write_records-Continues sizeof cfg ps o n hs)

concluded-Continues :
    (sizeof : Ty → Option ℕ) (cfg : HookConfig) (w : HookWriter) (ps : List HookRecord)
    (out : Bytes) (count : ℕ) (stopped : Option WriteError)
    → Continues sizeof cfg w.out ps out (is_none stopped)
    → Continues sizeof cfg w.out ps
        (concluded w out count stopped).0.out
        (is_none (concluded w out count stopped).1)
unfolding concluded
concluded-Continues sizeof cfg w ps out count none s = s
concluded-Continues sizeof cfg w ps out count (some e) s = s

batch_of-Continues :
    (sizeof : Ty → Option ℕ) (cfg : HookConfig) (w : HookWriter) (p : HookRecord)
    (ps : List HookRecord) (failure : Option BatchError) (closed : Bool)
    → Every (IsHookRecord cfg) (p ∷ ps)
    → Continues sizeof cfg w.out
        (p ∷ ps)
        (batch_of sizeof cfg w (p ∷ ps) failure closed).0.out
        (is_none (batch_of sizeof cfg w (p ∷ ps) failure closed).1)
unfolding batch_of
batch_of-Continues sizeof cfg w p ps (some e) closed h =
    ([], p ∷ ps, tt, sym (append-nil w.out), refl, refl)
batch_of-Continues sizeof cfg w p ps none true h =
    ([], p ∷ ps, tt, sym (append-nil w.out), refl, refl)
batch_of-Continues sizeof cfg w p ps none false h =
    let r = write_records sizeof cfg (p ∷ ps) w.out 0 in
    concluded-Continues sizeof cfg w (p ∷ ps) r.bytes r.count r.stopped
      (write_records-Continues sizeof cfg (p ∷ ps) w.out 0 h)

-- Of records whose bytes and numbers fit, and which have no id where the capture numbers nothing,
-- a batch puts behind what is written the blocks of a prefix, each as it is written of the record
-- and its comment and of the form that the merge takes; there is no error exactly where the prefix
-- is the whole batch.
pub write_batch-Continues :
    (sizeof : Ty → Option ℕ) (cfg : HookConfig) (w : HookWriter) (ps : List HookRecord)
    → Every (IsHookRecord cfg) ps
    → Continues sizeof cfg w.out ps
        (write_batch sizeof cfg w ps).0.out
        (is_none (write_batch sizeof cfg w ps).1)
unfolding write_batch
write_batch-Continues sizeof cfg w [] h = ([], [], tt, sym (append-nil w.out), refl, refl)
write_batch-Continues sizeof cfg w (p ∷ ps) h =
    batch_of-Continues sizeof cfg w p ps w.failure w.closed h
