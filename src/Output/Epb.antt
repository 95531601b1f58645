-- ===== src/Output/Epb.antt =====
-- internal/output/fastpcapng.go and record.go: enhanced packet blocks.
pub mod Sizes
use bpf_ninja.Base.{
  ℕ, zero, suc, ◌+◌, ◌-◌, ◌*◌, ◌/◌, ◌%◌, ◌^◌, max, Bool, true, false, not, ◌&&◌, ◌||◌, Option, none,
  some, [], ◌∷◌, ◌++◌, Bytes, ltb, leb, ◌==◌, if◌then◌else◌, length,
}
use bpf_ninja.Output.Fields.{le_bytes, pad4, zero_pad}

abbrev pub epb_type : ℕ
epb_type = 6

abbrev pub packet_id_code : ℕ
packet_id_code = 5

abbrev pub comment_code : ℕ
comment_code = 1

-- `epbIDOptSize`
abbrev id_opt_size : ℕ
id_opt_size = 16

-- What is written of one packet; the time is the 64-bit pattern of its nanoseconds.
pub record Packet : Type 0 where
  pub ts : ℕ
  pub bytes : Bytes
  pub orig_len : ℕ
  pub iface : ℕ

-- `EPBSize`
unfoldable pub epb_size : ℕ → ℕ
epb_size caplen = 32 + pad4 caplen

-- `EPBSizeID`
unfoldable pub epb_size_id : ℕ → ℕ
unfolding epb_size
epb_size_id caplen = epb_size caplen + id_opt_size

-- `HookEPBSize`
unfoldable pub hook_epb_size : ℕ → Bool → ℕ → ℕ
unfolding epb_size
hook_epb_size caplen has_id comment =
    epb_size caplen
    + (if has_id then 12 else 0)
    + (if ltb 0 comment then 4 + pad4 comment else 0)
    + (if has_id || ltb 0 comment then 4 else 0)

-- `origLength`, of a 32-bit length
abbrev orig_length : Bytes → ℕ → ℕ
orig_length s orig_len = max orig_len (length s % 2 ^ 32)

-- The header of a block, of 28 bytes.
unfoldable pub header : ℕ → Packet → Bytes
header total p =
    le_bytes 4 epb_type
    ++ (le_bytes 4 total
        ++ (le_bytes 4 p.iface
            ++ (le_bytes 4 (p.ts / 2 ^ 32)
                ++ (le_bytes 4 p.ts
                    ++ (le_bytes 4 (length p.bytes)
                        ++ le_bytes 4 (orig_length p.bytes p.orig_len))))))

-- The packet's bytes, padded.
unfoldable pub padded : Bytes → Bytes
padded s = s ++ zero_pad ((4 - length s % 4) % 4)

-- The packet's bytes with a padding of `pad` bytes, as the writer of a plain packet has it.
pub padded_by : ℕ → Bytes → Bytes
padded_by pad [] = []
padded_by pad s = s ++ zero_pad pad

-- `WritePacket`, on a writer that takes every byte
unfoldable pub write_packet : Packet → Bytes
unfolding epb_size header padded_by
write_packet p =
    let total = epb_size (length p.bytes) in
    header total (record p { iface = 0 })
    ++ (padded_by (total - 32 - length p.bytes) p.bytes ++ le_bytes 4 total)

-- `WritePacketID`
unfoldable pub write_packet_id : Packet → ℕ → Bytes
unfolding epb_size_id header padded_by
write_packet_id p id =
    let total = epb_size_id (length p.bytes) in
    header total p
    ++ (padded_by (total - 32 - id_opt_size - length p.bytes) p.bytes
        ++ (le_bytes 2 packet_id_code
            ++ (le_bytes 2 8
                ++ (le_bytes 8 id ++ (le_bytes 2 0 ++ (le_bytes 2 0 ++ le_bytes 4 total))))))

-- The `epb_packetid` option, if there is one.
unfoldable pub id_option : ℕ → Bytes
id_option zero = []
id_option id = le_bytes 4 (packet_id_code + 8 * 2 ^ 16) ++ le_bytes 8 id

-- The `opt_comment` option with the end of the options, if there is a comment.
unfoldable pub comment_option : Bytes → Bytes
unfolding padded
comment_option [] = []
comment_option comment =
    le_bytes 4 (comment_code + length comment * 2 ^ 16) ++ (padded comment ++ le_bytes 4 0)

-- The block that the last part of `WriteHookPacket` writes.
pub hook_block : Packet → ℕ → Bytes → Bytes
unfolding hook_epb_size header padded id_option comment_option
hook_block p id comment =
    let total = hook_epb_size (length p.bytes) (not (id == 0)) (length comment) in
    header total p
    ++ (padded p.bytes ++ (id_option id ++ (comment_option comment ++ le_bytes 4 total)))

-- `WriteHookPacket`; `none` is a comment that no option holds.
unfoldable pub write_hook_packet : Packet → ℕ → Bytes → Option Bytes
unfolding write_packet_id hook_block
write_hook_packet p id comment =
    if length comment == 0 && not (id == 0)
    then some (write_packet_id p id)
    else if ltb 65535 (length comment)
    then none
    else some (hook_block p id comment)
