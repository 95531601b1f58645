-- ===== src/Output/Hooks/RoundTrip.antt =====
-- What record.go writes, as hookmerge.go reads it.
use bpf_ninja.Base.{
  ℕ, zero, suc, ◌%◌, ◌^◌, ◌<◌, ◌≤◌, ◌≡◌, ◌∙◌, arith, Bool, true, false, not, none, some, ◌++◌,
  Bytes, ◌==◌, length,
}
use bpf_ninja.Output.Epb.{Packet, epb_size, hook_epb_size, write_hook_packet}
use bpf_ninja.Output.Epb.Sizes.{
  block, length-block, written_options, length-written_options, write_hook_packet-block,
}
use bpf_ninja.Output.Hooks.{ok, read_hook_block, hook_item}
use bpf_ninja.Output.Hooks.Options.{check_hook_options-written_options}
use bpf_ninja.Output.Hooks.Blocks.{read_hook_block-block, hook_item-block, positive}

-- The sizes that `readHookBlock` takes.
pub hook_epb_size-framed :
    (n k : ℕ) (has_id : Bool)
    → n ≤ 65535
    → k ≤ 65535
    → (12 ≤ hook_epb_size n has_id k)
      × (hook_epb_size n has_id k ≤ 1048576)
      × (hook_epb_size n has_id k % 4 ≡ 0)
unfolding hook_epb_size epb_size
hook_epb_size-framed n zero true h l = (omega arith, omega arith, omega arith)
hook_epb_size-framed n zero false h l = (omega arith, omega arith, omega arith)
hook_epb_size-framed n (suc k) true h l = rw (positive k) (omega arith, omega arith, omega arith)
hook_epb_size-framed n (suc k) false h l = rw (positive k) (omega arith, omega arith, omega arith)

-- What `WriteHookPacket` writes is read back: for a packet of at most 65535 bytes on an interface of
-- the file, with a time and an id of 64 bits and a comment that an option holds, `readHookBlock`
-- returns the block and leaves what stands behind it, and the merge takes it as an item with the
-- packet's time, the same bytes, and an id if one was written.
pub read_hook_block-write_hook_packet :
    (p : Packet) (id : ℕ) (comment rest : Bytes) (hooks : ℕ)
    → length p.bytes ≤ 65535
    → p.iface < hooks
    → hooks ≤ 2 ^ 32
    → p.ts < 2 ^ 64
    → id < 2 ^ 64
    → length comment ≤ 65535
    → (b : Bytes) × (write_hook_packet p id comment ≡ some b)
      × (read_hook_block (b ++ rest) ≡ ok (b, rest))
      × (hook_item hooks none b ≡ ok (record { ts = p.ts; block = b }, not (id == 0)))
read_hook_block-write_hook_packet p id comment rest hooks l i k t d c = (
  block total p opts,
  write_hook_packet-block p id comment c,
  read_hook_block-block total p opts size bounds.0 bounds.1 bounds.2 rest,
  hook_item-block total p opts hooks size i k l t
      (check_hook_options-written_options id comment d c),
)
  where
    total : ℕ
    total = hook_epb_size (length p.bytes) (not (id == 0)) (length comment)

    opts : Bytes
    opts = written_options id comment

    size : length (block total p opts) ≡ total
    size = length-block total p opts ∙ length-written_options (length p.bytes) id comment

    bounds : (12 ≤ total) × (total ≤ 1048576) × (total % 4 ≡ 0)
    bounds = hook_epb_size-framed (length p.bytes) (length comment) (not (id == 0)) l c
