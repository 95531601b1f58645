-- ===== src/Capture/Ring.antt =====
-- internal/capture/fastrb/reader.go: `ReadBatch` over the memory-mapped ring. The ring is the list of
-- bytes of the data pages, which the kernel maps twice in a row; the positions are 64-bit words that
-- the producer and the consumer only move forward. What the kernel writes during a batch is not
-- seen: each length word is as it stands when it is loaded.
pub mod Circular
pub mod Deliver
use bpf_ninja.Base.{
  ℕ, zero, suc, ◌+◌, ◌-◌, ◌*◌, ◌/◌, ◌%◌, ◌^◌, Bool, true, false, List, [], ◌∷◌, ◌++◌, ltb, leb,
  ◌==◌, if◌then◌else◌, Bytes, length, take, drop,
}

-- The parts of `Reader` that `ReadBatch` uses; `ring` is twice `ring_size` long.
pub record Reader : Type 0 where
  pub ring : Bytes
  pub ring_size : ℕ
  pub cons_pos : ℕ
  pub prod_pos : ℕ

-- How a batch ends: the delivered records with the consumer position to publish, or a slice
-- outside the mapping. `out_of_fuel` has no counterpart in the program.
pub data Batch : Type 0 where
  done : List Bytes → ℕ → Batch
  panic out_of_fuel : Batch

abbrev pub get_or : Bytes → ℕ → ℕ
get_or [] i = 0
get_or (b ∷ bs) zero = b
get_or (b ∷ bs) (suc i) = get_or bs i

-- The little-endian 32-bit word at an offset.
abbrev pub word_of : (ℕ → ℕ) → ℕ
word_of byte = byte 0 + 2 ^ 8 * byte 1 + 2 ^ 16 * byte 2 + 2 ^ 24 * byte 3

unfoldable pub load_u32 : Bytes → ℕ → ℕ
load_u32 ring off = word_of (λ i. get_or ring (off + i))

-- `hdrBusyBit`, `hdrDiscardBit`, `hdrLenMask` and `hdrSize`
abbrev pub is_busy : ℕ → Bool
is_busy word = word / 2 ^ 31 % 2 == 1

abbrev pub is_discard : ℕ → Bool
is_discard word = word / 2 ^ 30 % 2 == 1

abbrev pub data_len : ℕ → ℕ
data_len word = word % 2 ^ 30

abbrev pub hdr_size : ℕ
hdr_size = 8

abbrev pub u64 : ℕ
u64 = 2 ^ 64

-- `(n + 7) &^ 7`
abbrev pub align : ℕ → ℕ
align n = (n + 7) / 8 * 8

-- `ring[off : off+len]`, in front of the records that follow.
slice_onto : Bytes → ℕ → ℕ → Batch → Batch
slice_onto ring off len (done records pos) =
    if leb (off + len) (length ring) then done (take len (drop off ring) ∷ records) pos else panic
slice_onto ring off len panic = panic
slice_onto ring off len out_of_fuel = out_of_fuel

-- The loop of `ReadBatch`, from the consumer position `cons`.
read_loop : ℕ → Reader → ℕ → Batch
read_loop zero r cons = if ltb cons r.prod_pos then out_of_fuel else done [] cons
read_loop (suc fuel) r cons =
    let word = load_u32 r.ring (cons % r.ring_size) in
    let data_start = (cons + hdr_size) % u64 in
    let later = read_loop fuel r ((data_start + align (data_len word)) % u64) in
    if ltb cons r.prod_pos
    then (if is_busy word
        then done [] cons
        else if is_discard word
        then later
        else slice_onto r.ring (data_start % r.ring_size) (data_len word) later)
    else done [] cons

-- `ReadBatch`: the records that it delivers in order, and the position that it publishes. A round
-- moves by eight bytes or more.
unfoldable pub read_batch : Reader → Batch
unfolding read_loop slice_onto load_u32
read_batch r = read_loop (r.prod_pos - r.cons_pos) r r.cons_pos

publish : Reader → Batch → Reader
publish r (done records pos) = record r { cons_pos = pos }
publish r panic = r
publish r out_of_fuel = r

-- The reader after the batch.
unfoldable pub after_batch : Reader → Reader
unfolding publish read_batch
after_batch r = publish r (read_batch r)
