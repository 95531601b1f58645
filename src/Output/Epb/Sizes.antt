-- ===== src/Output/Epb/Sizes.antt =====
-- The lengths of the blocks that internal/output/fastpcapng.go and record.go write.
use bpf_ninja.Base.{
  ℕ, zero, suc, ◌+◌, ◌-◌, ◌%◌, ◌≤◌, ◌≡◌, refl, ap, ◌∙◌, sym, append_assoc, arith, false, not, some,
  [], ◌∷◌, ◌++◌, Bytes, ltb, ◌==◌, if◌then◌else◌, length, length-append,
}
use bpf_ninja.Output.Fields.{le_bytes, pad4, zero_pad, length-zero_pad}
use bpf_ninja.Output.Epb.{
  Packet, id_opt_size, packet_id_code, epb_size, epb_size_id, hook_epb_size, header, padded,
  padded_by, write_packet, write_packet_id, id_option, comment_option, hook_block,
  write_hook_packet,
}

pub length-padded : (s : Bytes) → length (padded s) ≡ pad4 (length s)
unfolding padded
length-padded s = omega (
  arith,
  length-append s (zero_pad ((4 - length s % 4) % 4)),
  length-zero_pad ((4 - length s % 4) % 4) (omega arith),
)

pub length-padded_by :
    (pad : ℕ) (s : Bytes)
    → pad4 (length s) ≡ length s + pad
    → length (padded_by pad s) ≡ pad4 (length s)
unfolding padded_by
length-padded_by pad [] h = refl
length-padded_by pad (b ∷ s) h =
    omega (arith, length-append (b ∷ s) (zero_pad pad), length-zero_pad pad (omega arith))

pub length-header : (total : ℕ) (p : Packet) → length (header total p) ≡ 28
unfolding header
length-header total p = refl

length-id_option : (id : ℕ) → length (id_option id) ≡ (if not (id == 0) then 12 else 0)
unfolding id_option
length-id_option zero = refl
length-id_option (suc n) = ground arith

length-comment_option :
    (comment : Bytes)
    → length (comment_option comment)
      ≡ (if ltb 0 (length comment) then 8 + pad4 (length comment) else 0)
unfolding comment_option
length-comment_option [] = refl
length-comment_option (b ∷ s) =
    ground (arith, length-append (padded (b ∷ s)) (le_bytes 4 0), length-padded (b ∷ s))

-- A block: the header, the packet's bytes, options and the length once more.
abbrev pub block : ℕ → Packet → Bytes → Bytes
block total p opts = header total p ++ (padded p.bytes ++ (opts ++ le_bytes 4 total))

pub length-block :
    (total : ℕ) (p : Packet) (opts : Bytes)
    → length (block total p opts) ≡ 32 + pad4 (length p.bytes) + length opts
length-block total p opts = omega (
  arith,
  length-append (header total p) (padded p.bytes ++ (opts ++ le_bytes 4 total)),
  length-append (padded p.bytes) (opts ++ le_bytes 4 total),
  length-append opts (le_bytes 4 total),
  length-header total p,
  length-padded p.bytes,
)

-- The options of `WriteHookPacket` and of `WritePacketID`.
abbrev pub hook_options : ℕ → Bytes → Bytes
hook_options id comment = id_option id ++ comment_option comment

abbrev pub id_options : ℕ → Bytes
id_options id =
    le_bytes 2 packet_id_code ++ (le_bytes 2 8 ++ (le_bytes 8 id ++ (le_bytes 2 0 ++ le_bytes 2 0)))

pub hook_block-block :
    (p : Packet) (id : ℕ) (comment : Bytes)
    → hook_block p id comment
      ≡ block
          (hook_epb_size (length p.bytes) (not (id == 0)) (length comment))
          p
          (hook_options id comment)
hook_block-block p id comment =
    let total = hook_epb_size (length p.bytes) (not (id == 0)) (length comment) in
    unfold hook_block in
    ap (λ t. header total p ++ (padded p.bytes ++ t))
      (sym (append_assoc (id_option id) (comment_option comment) (le_bytes 4 total)))

padded_by-padded : (pad : ℕ) (s : Bytes) → pad ≡ (4 - length s % 4) % 4 → padded_by pad s ≡ padded s
unfolding padded_by padded
padded_by-padded pad [] e = refl
padded_by-padded pad (b ∷ s) e = rw e refl

-- Both writers pad to the same length.
pub write_packet_id-block :
    (p : Packet) (id : ℕ)
    → write_packet_id p id ≡ block (epb_size_id (length p.bytes)) p (id_options id)
write_packet_id-block p id =
    unfold write_packet_id in
    ap
      (λ t.
        header (epb_size_id (length p.bytes)) p
        ++ (t ++ (id_options id ++ le_bytes 4 (epb_size_id (length p.bytes)))))
      (padded_by-padded (epb_size_id (length p.bytes) - 32 - id_opt_size - length p.bytes) p.bytes
        (unfold epb_size_id epb_size in omega arith))

pub write_packet-block :
    (p : Packet) → write_packet p ≡ block (epb_size (length p.bytes)) (record p { iface = 0 }) []
write_packet-block p =
    unfold write_packet in
    ap
      (λ t.
        header (epb_size (length p.bytes)) (record p { iface = 0 })
        ++ (t ++ le_bytes 4 (epb_size (length p.bytes))))
      (padded_by-padded (epb_size (length p.bytes) - 32 - length p.bytes) p.bytes
        (unfold epb_size in omega arith))

general : (n : ℕ) → suc n ≤ 65535 → ltb 65535 (suc n) ≡ false
general n h = ground arith

sizes-agree :
    (n id k : ℕ)
    → (k ≡ 0 → id ≡ 0)
    → 32 + pad4 n + (if not (id == 0) then 12 else 0) + (if ltb 0 k then 8 + pad4 k else 0)
      ≡ hook_epb_size n (not (id == 0)) k
unfolding hook_epb_size epb_size
sizes-agree n zero zero h = ground arith
sizes-agree n (suc id) zero h = absurd (omega (arith, h refl))
sizes-agree n zero (suc k) h = ground arith
sizes-agree n (suc id) (suc k) h = ground arith

length-hook_options :
    (n id : ℕ) (comment : Bytes)
    → (length comment ≡ 0 → id ≡ 0)
    → 32 + pad4 n + length (hook_options id comment)
      ≡ hook_epb_size n (not (id == 0)) (length comment)
length-hook_options n id comment h = omega (
  arith,
  length-append (id_option id) (comment_option comment),
  length-id_option id,
  length-comment_option comment,
  sizes-agree n id (length comment) h,
)

-- The options that `WriteHookPacket` writes, by either of its ways.
abbrev pub written_options : ℕ → Bytes → Bytes
written_options zero [] = []
written_options (suc id) [] = id_options (suc id)
written_options id (b ∷ s) = hook_options id (b ∷ s)

pub length-written_options :
    (n id : ℕ) (comment : Bytes)
    → 32 + pad4 n + length (written_options id comment)
      ≡ hook_epb_size n (not (id == 0)) (length comment)
length-written_options n zero [] = unfold hook_epb_size epb_size in ground arith
length-written_options n (suc id) [] = unfold hook_epb_size epb_size in ground arith
length-written_options n zero (b ∷ s) = length-hook_options n zero (b ∷ s) (λ e. refl)
length-written_options n (suc id) (b ∷ s) =
    length-hook_options n (suc id) (b ∷ s) (λ e. absurd (omega (arith, e)))

pub nonzero : (n : ℕ) → (suc n == 0) ≡ false
nonzero n = ground arith

with_comment :
    (p : Packet) (id b : ℕ) (s : Bytes)
    → length (b ∷ s) ≤ 65535
    → write_hook_packet p id (b ∷ s) ≡ some (hook_block p id (b ∷ s))
with_comment p id b s h =
    unfold write_hook_packet in rw (nonzero (length s), general (length s) h) refl

with_id :
    (p : Packet) (id : ℕ) → write_hook_packet p (suc id) [] ≡ some (write_packet_id p (suc id))
with_id p id = unfold write_hook_packet in rw (nonzero id) refl

id_size : (n id : ℕ) → epb_size_id n ≡ hook_epb_size n (not (suc id == 0)) 0
id_size n id = unfold hook_epb_size epb_size_id epb_size in ground arith

-- One shape for all that `WriteHookPacket` writes.
pub write_hook_packet-block :
    (p : Packet) (id : ℕ) (comment : Bytes)
    → length comment ≤ 65535
    → write_hook_packet p id comment
      ≡ some (
          block
            (hook_epb_size (length p.bytes) (not (id == 0)) (length comment))
            p
            (written_options id comment))
write_hook_packet-block p zero [] h =
    unfold write_hook_packet in ap some (hook_block-block p zero [])
write_hook_packet-block p (suc id) [] h =
    with_id p id
    ∙ ap some (write_packet_id-block p (suc id))
    ∙ ap (λ n. some (block n p (id_options (suc id)))) (id_size (length p.bytes) id)
write_hook_packet-block p zero (b ∷ s) h =
    with_comment p zero b s h ∙ ap some (hook_block-block p zero (b ∷ s))
write_hook_packet-block p (suc id) (b ∷ s) h =
    with_comment p (suc id) b s h ∙ ap some (hook_block-block p (suc id) (b ∷ s))

-- A packet with a comment of at most 65535 bytes is never refused, and what `WriteHookPacket` writes
-- of it is as long as `HookEPBSize` says.
pub length-write_hook_packet :
    (p : Packet) (id : ℕ) (comment : Bytes)
    → length comment ≤ 65535
    → (b : Bytes) × (write_hook_packet p id comment ≡ some b)
      × (length b ≡ hook_epb_size (length p.bytes) (not (id == 0)) (length comment))
length-write_hook_packet p id comment h =
    let total = hook_epb_size (length p.bytes) (not (id == 0)) (length comment) in
    (
      block total p (written_options id comment),
      write_hook_packet-block p id comment h,
      length-block total p (written_options id comment)
          ∙ length-written_options (length p.bytes) id comment,
    )
