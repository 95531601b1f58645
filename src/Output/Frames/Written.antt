-- ===== src/Output/Frames/Written.antt =====
-- Every file of the writers of internal/output, as pcap_blocks.go checks it.
use bpf_ninja.Base.{
  Every, ℕ, ◌+◌, ◌-◌, ◌%◌, ◌<◌, ◌≤◌, ◌≡◌, take, refl, ap, sym, ◌∙◌, arith, true, false, not, ◌||◌,
  none, some, List, [], ◌∷◌, ◌++◌, Bytes, ltb, ◌==◌, length, length-append, append_assoc,
  Bool-cases, inl, inr,
}
use mathlib.Core.Path.{subst}
use bpf_ninja.Record.Sink.{le_at, le_value}
use bpf_ninja.Output.Fields.{le_bytes, le_value-le_bytes4, drop-append}
use bpf_ninja.Output.Epb.{
  Packet, epb_size, epb_size_id, hook_epb_size, header, write_packet, write_packet_id,
  write_hook_packet,
}
use bpf_ninja.Output.Epb.Sizes.{
  length-padded, id_options, block, length-block, nonzero, written_options, length-written_options,
  write_packet_id-block, write_packet-block, write_hook_packet-block,
}
use bpf_ninja.Output.Header.{
  write_shb, text_option, text_option_size, idb_of, write_idb_description,
}
use bpf_ninja.Output.Hooks.Blocks.{trailer}
use bpf_ninja.Output.Hooks.RoundTrip.{hook_epb_size-framed}
use bpf_ninja.Output.Frames.{accepted, validate_pcap_blocks}
use bpf_ninja.Output.Frames.Accepts.{IsFrame, joined, validate-joined}

block-IsFrame :
    (total : ℕ) (p : Packet) (opts : Bytes)
    → length (block total p opts) ≡ total
    → 12 ≤ total
    → total < 4294967296
    → total % 4 ≡ 0
    → IsFrame (block total p opts)
block-IsFrame total p opts e l h m = record {
  least = omega (arith, e, l);
  even = omega (arith, e, m);
  first = total_at ∙ sym e;
  last = rw e (trailer total p opts e (omega arith) h);
  other = unfold header in refl;
}
  where
    total_at : le_at 4 4 (block total p opts) ≡ total
    total_at = unfold header in le_value-le_bytes4 total h

-- What the writers write, a block at a time, of packets of at most 65535 bytes.
pub data Written : Bytes → Type 0 where
  interface :
      (link_type : ℕ) (name description : Bytes) {b : Bytes}
      → write_idb_description link_type name description ≡ some b
      → Written b
  plain : (p : Packet) → length p.bytes ≤ 65535 → Written (write_packet p)
  with_id : (p : Packet) (id : ℕ) → length p.bytes ≤ 65535 → Written (write_packet_id p id)
  of_hook :
      (p : Packet) (id : ℕ) (comment : Bytes) {b : Bytes}
      → length p.bytes ≤ 65535
      → write_hook_packet p id comment ≡ some b
      → Written b

length-text_option :
    (code : ℕ) (text : Bytes) → length (text_option code text) ≡ text_option_size text
unfolding text_option text_option_size
length-text_option code [] = refl
length-text_option code (b ∷ s) = omega (arith, length-padded (b ∷ s))

text_option_size-framed :
    (text : Bytes)
    → length text ≤ 65535
    → (text_option_size text ≤ 65540) × (text_option_size text % 4 ≡ 0)
unfolding text_option_size
text_option_size-framed [] h = (omega arith, refl)
text_option_size-framed (b ∷ s) h = (omega arith, omega arith)

plain-IsFrame : (p : Packet) → length p.bytes ≤ 65535 → IsFrame (write_packet p)
plain-IsFrame p h = rw (write_packet-block p) (
    block-IsFrame (epb_size (length p.bytes)) (record p { iface = 0 }) []
      (length-block (epb_size (length p.bytes)) (record p { iface = 0 }) []
        ∙ (unfold epb_size in omega arith))
      (unfold epb_size in omega arith) (unfold epb_size in omega arith)
      (unfold epb_size in omega arith))

with_id-IsFrame : (p : Packet) (id : ℕ) → length p.bytes ≤ 65535 → IsFrame (write_packet_id p id)
with_id-IsFrame p id h = rw (write_packet_id-block p id) (
    block-IsFrame (epb_size_id (length p.bytes)) p (id_options id)
      (length-block (epb_size_id (length p.bytes)) p (id_options id)
        ∙ (unfold epb_size_id epb_size in omega arith))
      (unfold epb_size_id epb_size in omega arith) (unfold epb_size_id epb_size in omega arith)
      (unfold epb_size_id epb_size in omega arith))

none-ne-some : {b : Bytes} → none ≡ some b → ⊥
none-ne-some e = cc

some_same : {a b : Bytes} → some a ≡ some b → a ≡ b
some_same e = cc

refuses_long :
    (p : Packet) (id : ℕ) (comment : Bytes)
    → ltb 65535 (length comment) ≡ true
    → write_hook_packet p id comment ≡ none
unfolding write_hook_packet
refuses_long p id [] h = absurd (ground (arith, h))
refuses_long p id (b ∷ s) h = rw (nonzero (length s), h) refl

of_hook-IsFrame :
    (p : Packet) (id : ℕ) (comment : Bytes) {b : Bytes}
    → length p.bytes ≤ 65535
    → write_hook_packet p id comment ≡ some b
    → IsFrame b
of_hook-IsFrame p id comment {b} h e = elim (Bool-cases (ltb 65535 (length comment))) [
  | inl x ↦ absurd (none-ne-some (sym (refuses_long p id comment x) ∙ e))
  | inr x ↦
      let k : length comment ≤ 65535 = ground (arith, x) in
      let (least, most, even) =
        hook_epb_size-framed (length p.bytes) (length comment) (not (id == 0)) h k in
      subst IsFrame (some_same (sym (write_hook_packet-block p id comment k) ∙ e)) (
        block-IsFrame (hook_epb_size (length p.bytes) (not (id == 0)) (length comment)) p
          (written_options id comment)
          (length-block (hook_epb_size (length p.bytes) (not (id == 0)) (length comment)) p
              (written_options id comment)
            ∙ length-written_options (length p.bytes) id comment)
          least (omega (arith, most)) even)
]

module _ (link_type : ℕ) (name description : Bytes) where
  size : ℕ
  size = 32 + text_option_size name + text_option_size description

  opening : Bytes
  opening =
      le_bytes 4 1 ++ (le_bytes 4 size ++ (le_bytes 2 link_type ++ (le_bytes 2 0 ++ le_bytes 4 0)))

  closing : Bytes
  closing =
      le_bytes 2 9 ++ (le_bytes 2 1 ++ ((9 ∷ 0 ∷ 0 ∷ 0 ∷ []) ++ (le_bytes 2 0 ++ le_bytes 2 0)))

  -- The block without its last length.
  front : Bytes
  front = opening ++ (text_option 2 name ++ (text_option 3 description ++ closing))

  idb_of-front : idb_of link_type name description size ≡ front ++ le_bytes 4 size
  unfolding idb_of front opening closing
  idb_of-front =
      ap (λ t. opening ++ t)
        (sym (
          append_assoc (text_option 2 name) (text_option 3 description ++ closing) (le_bytes 4 size)
          ∙ ap (λ t. text_option 2 name ++ t)
              (append_assoc (text_option 3 description) closing (le_bytes 4 size))))

  length-front : length front ≡ size - 4
  unfolding front opening closing size
  length-front = omega (
    arith,
    length-append (text_option 2 name) (text_option 3 description ++ closing),
    length-append (text_option 3 description) closing,
    length-text_option 2 name,
    length-text_option 3 description,
  )

  idb_of-IsFrame :
      length name ≤ 65535
      → length description ≤ 65535
      → IsFrame (idb_of link_type name description size)
  idb_of-IsFrame h k = record {
    least = omega (arith, whole, bounds.0);
    even = omega (arith, whole, bounds.2);
    first = total_at ∙ sym whole;
    last = rw whole (last_at ∙ le_value-le_bytes4 size (omega (arith, bounds.1)));
    other = unfold idb_of in refl;
  }
    where
      bounds : (12 ≤ size) × (size ≤ 200000) × (size % 4 ≡ 0)
      bounds =
          let (n, e) = text_option_size-framed name h in
          let (m, f) = text_option_size-framed description k in
          unfold size in (omega arith, omega (arith, n, m), omega (arith, e, f))

      whole : length (idb_of link_type name description size) ≡ size
      whole =
          ap length idb_of-front
          ∙ omega (arith, length-append front (le_bytes 4 size), length-front, bounds.0)

      total_at : le_at 4 4 (idb_of link_type name description size) ≡ size
      total_at = unfold idb_of in le_value-le_bytes4 size (omega (arith, bounds.1))

      last_at :
          le_at (size - 4) 4 (idb_of link_type name description size) ≡ le_value (le_bytes 4 size)
      last_at =
          ap (le_at (size - 4) 4) idb_of-front
          ∙ ap (λ t. le_value (take 4 t))
              (drop-append front (le_bytes 4 size) (size - 4) length-front)

  interface-IsFrame :
      {b : Bytes} → write_idb_description link_type name description ≡ some b → IsFrame b
  interface-IsFrame {b} e =
      elim (Bool-cases (ltb 65535 (length name) || ltb 65535 (length description))) [
        | inl x ↦ absurd (none-ne-some (sym (long x) ∙ e))
        | inr x ↦
            subst IsFrame (some_same (sym (short x) ∙ e))
              (idb_of-IsFrame (ground (arith, x)) (ground (arith, x)))
      ]
    where
      long :
          (ltb 65535 (length name) || ltb 65535 (length description)) ≡ true
          → write_idb_description link_type name description ≡ none
      long x = unfold write_idb_description in rw x refl

      short :
          (ltb 65535 (length name) || ltb 65535 (length description)) ≡ false
          → write_idb_description link_type name description
            ≡ some (idb_of link_type name description size)
      short x = unfold write_idb_description size in rw x refl

pub Written-IsFrame : (b : Bytes) → Written b → IsFrame b
Written-IsFrame b (interface link_type name description e) =
    interface-IsFrame link_type name description e
Written-IsFrame b (plain p h) = plain-IsFrame p h
Written-IsFrame b (with_id p id h) = with_id-IsFrame p id h
Written-IsFrame b (of_hook p id comment h e) = of_hook-IsFrame p id comment h e

frames : (bs : List Bytes) → Every Written bs → Every IsFrame bs
frames [] v = tt
frames (b ∷ bs) v = (Written-IsFrame b v.0, frames bs v.1)

-- A file that the writers wrote, a section header and then interfaces and packets of at most 65535
-- bytes in any order, passes the check of its blocks.
pub validate_pcap_blocks-Written :
    (bs : List Bytes) → Every Written bs → validate_pcap_blocks (write_shb ++ joined bs) ≡ accepted
validate_pcap_blocks-Written bs v = validate-joined bs (frames bs v)
