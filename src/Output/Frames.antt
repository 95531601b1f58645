-- ===== src/Output/Frames.antt =====
-- internal/output/pcap_blocks.go: the check of a file's blocks before a merge.
pub mod Accepts
pub mod Written
pub mod Total
use bpf_ninja.Base.{
  ℕ, zero, suc, ◌+◌, ◌-◌, ◌*◌, ◌%◌, Bool, true, false, not, ◌||◌, Option, none, some, [], ◌∷◌,
  Bytes, ltb, ◌==◌, if◌then◌else◌, take, drop, length,
}
use bpf_ninja.Record.Sink.{le_at}
use bpf_ninja.Output.Header.{shb_type, byte_order_magic}

pub data FrameError : Type 0 where
  eof unexpected_eof invalid_magic no_section invalid_length truncated_block truncated_trailer :
      FrameError
  lengths_disagree out_of_fuel : FrameError

-- A byte order of the file.
pub data Order : Type 0 where
  little big : Order

-- What the check says of the blocks.
pub data Verdict : Type 0 where
  accepted : Verdict
  refused : FrameError → Verdict

abbrev be_value : ℕ → Bytes → ℕ
be_value acc [] = acc
be_value acc (b ∷ s) = be_value (acc * 256 + b) s

-- `order.Uint32`
u32_at : Order → ℕ → Bytes → ℕ
u32_at little off s = le_at off 4 s
u32_at big off s = be_value 0 (take 4 (drop off s))

-- The byte order that a section header sets.
section_order : Bytes → Option Order
section_order s =
    if le_at 8 4 s == byte_order_magic
    then some little
    else if le_at 8 4 s == 1295788826
    then some big
    else none

-- A block of `n` bytes, `used` of which are read: the bytes behind it, or an error.
block_end : Order → ℕ → ℕ → Bytes → Option FrameError
unfolding u32_at
block_end order used n s =
    if ltb n (used + 4) || not (n % 4 == 0)
    then some FrameError.invalid_length
    else if ltb (length s) (n - 4)
    then some FrameError.truncated_block
    else if ltb (length s) n
    then some FrameError.truncated_trailer
    else if u32_at order (n - 4) s == n
    then none
    else some FrameError.lengths_disagree

go_on : Option FrameError → Verdict → Verdict
go_on none v = v
go_on (some e) v = refused e

-- A round of the loop, in a byte order, with the rest of the loop.
framed : Option Order → ℕ → Bytes → (Order → Bytes → Verdict) → Verdict
unfolding block_end u32_at go_on
framed none used s next = refused FrameError.no_section
framed (some order) used s next =
    go_on (block_end order used (u32_at order 4 s) s) (next order (drop (u32_at order 4 s) s))

-- A section header, with what it sets.
section : Option Order → Bytes → (Order → Bytes → Verdict) → Verdict
unfolding framed
section none s next = refused FrameError.invalid_magic
section (some order) s next = framed (some order) 12 s next

-- The loop of `validatePcapBlocks`
blocks : ℕ → Option Order → Bytes → Verdict
unfolding section framed section_order
blocks f order [] = accepted
blocks zero order s = refused FrameError.out_of_fuel
blocks (suc f) order s =
    let next : Order → Bytes → Verdict = λ o r. blocks f (some o) r in
    if ltb (length s) 8
    then refused FrameError.unexpected_eof
    else if le_at 0 4 s == shb_type
    then (if length s == 8
        then refused FrameError.eof
        else if ltb (length s) 12
        then refused FrameError.unexpected_eof
        else section (section_order s) s next)
    else framed order 8 s next

-- `validatePcapBlocks`, of a file's bytes
unfoldable pub validate_pcap_blocks : Bytes → Verdict
unfolding blocks
validate_pcap_blocks s = blocks (length s) none s
