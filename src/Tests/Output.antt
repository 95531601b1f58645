-- ===== src/Tests/Output.antt =====
-- internal/output on small packets.
use bpf_ninja.Base.{◌≡◌, ◌≢◌, refl, arith, true, none, some, [], ◌∷◌, ◌++◌, Bytes, codes, length}
use bpf_ninja.Output.Epb.{Packet, write_packet, write_hook_packet, hook_epb_size}
use bpf_ninja.Output.Epb.Sizes.{length-write_hook_packet}
use bpf_ninja.Output.Hooks.{HookError, ok, fail, read_hook_block, check_hook_options, hook_item}
use bpf_ninja.Output.Hooks.RoundTrip.{read_hook_block-write_hook_packet}
use bpf_ninja.Output.Header.{write_shb, write_idb_description}
use bpf_ninja.Output.Frames.{accepted, refused, FrameError, out_of_fuel, validate_pcap_blocks}
use bpf_ninja.Output.Frames.Accepts.{joined}
use bpf_ninja.Output.Frames.Written.{interface, plain, validate_pcap_blocks-Written}
use bpf_ninja.Output.Frames.Total.{validate_pcap_blocks-total}

abbrev ping : Packet
ping = record { ts = 5000000000; bytes = 1 ∷ 2 ∷ 3 ∷ 4 ∷ 5 ∷ []; orig_len = 90; iface = 1 }

length-write_hook_packet_example :
    (b : Bytes) × (write_hook_packet ping 7 (codes "a=1") ≡ some b) × (length b ≡ 64)
unfolding hook_epb_size
length-write_hook_packet_example = length-write_hook_packet ping 7 (codes "a=1") (omega arith)

read_hook_block-write_hook_packet_example :
    (b : Bytes) × (write_hook_packet ping 7 (codes "a=1") ≡ some b)
    × (read_hook_block (b ++ (9 ∷ [])) ≡ ok (b, 9 ∷ []))
    × (hook_item 2 none b ≡ ok (record { ts = 5000000000; block = b }, true))
read_hook_block-write_hook_packet_example =
    read_hook_block-write_hook_packet ping 7 (codes "a=1") (9 ∷ []) 2 (omega arith) (omega arith)
      (omega arith) (omega arith) (omega arith) (omega arith)

-- The bytes of an interface of the name `x`.
abbrev named_x : Bytes
named_x =
    1 ∷ 0 ∷ 0 ∷ 0 ∷ 40 ∷ 0 ∷ 0 ∷ 0 ∷ 1 ∷ 0 ∷ 0 ∷ 0 ∷ 0 ∷ 0 ∷ 0 ∷ 0 ∷ 2 ∷ 0 ∷ 1 ∷ 0 ∷ 120 ∷ 0 ∷ 0 ∷ 0
    ∷ 9 ∷ 0 ∷ 1 ∷ 0 ∷ 9 ∷ 0 ∷ 0 ∷ 0 ∷ 0 ∷ 0 ∷ 0 ∷ 0 ∷ 40 ∷ 0 ∷ 0 ∷ 0 ∷ []

named_x-written : write_idb_description 1 (codes "x") [] ≡ some named_x
unfolding write_idb_description
named_x-written = refl

validate_pcap_blocks-Written_example :
    validate_pcap_blocks (write_shb ++ joined (named_x ∷ write_packet ping ∷ [])) ≡ accepted
validate_pcap_blocks-Written_example =
    validate_pcap_blocks-Written (named_x ∷ write_packet ping ∷ [])
      (interface 1 (codes "x") [] named_x-written, (plain ping (omega arith), tt))

-- A file that is cut inside a block.
cut :
    validate_pcap_blocks (write_shb ++ (6 ∷ 0 ∷ 0 ∷ 0 ∷ 32 ∷ 0 ∷ 0 ∷ 0 ∷ 1 ∷ []))
    ≡ refused FrameError.truncated_block
unfolding validate_pcap_blocks write_shb
cut = refl

-- A comment in front of an id.
comment_first :
    check_hook_options (
      1 ∷ 0 ∷ 1 ∷ 0 ∷ 65 ∷ 0 ∷ 0 ∷ 0 ∷ 5 ∷ 0 ∷ 8 ∷ 0 ∷ 1 ∷ 0 ∷ 0 ∷ 0 ∷ 0 ∷ 0 ∷ 0 ∷ 0 ∷ 0 ∷ 0 ∷ 0 ∷ 0
      ∷ [])
    ≡ fail HookError.id_after_comment
unfolding check_hook_options
comment_first = refl

validate_pcap_blocks-total_example : validate_pcap_blocks (codes "abc") ≢ refused out_of_fuel
validate_pcap_blocks-total_example = validate_pcap_blocks-total (codes "abc")
