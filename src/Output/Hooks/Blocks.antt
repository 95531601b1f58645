-- ===== src/Output/Hooks/Blocks.antt =====
-- A block of record.go, as hookmerge.go reads it.
use bpf_ninja.Base.{
  ℕ, suc, ◌+◌, ◌-◌, ◌*◌, ◌/◌, ◌%◌, ◌<◌, ◌≤◌, ◌≡◌, refl, ap, sym, ◌∙◌, arith, Bool, true, false, not,
  ◌||◌, none, [], ◌∷◌, ◌++◌, Bytes, ltb, leb, ◌==◌, drop, length, length-append, append_assoc,
}
use bpf_ninja.Record.Sink.{le_value, le_at}
use bpf_ninja.Output.Fields.{le_bytes, pad4, le_value-le_bytes4, drop-append, take-append}
use bpf_ninja.Output.Epb.{Packet, epb_type, epb_size, header, padded}
use bpf_ninja.Output.Epb.Sizes.{length-padded, length-header, block, length-block}
use bpf_ninja.Output.Hooks.{
  ok, options_of, check_hook_options, block_of, read_hook_block, hook_item,
}

pub low32 : (n : ℕ) → le_value (le_bytes 4 n) ≡ n % 4294967296
low32 n = omega arith

pub not_short : (n m : ℕ) → m ≤ n → ltb n m ≡ false
not_short n m h = ground arith

pub positive : (k : ℕ) → ltb 0 (suc k) ≡ true
positive k = ground arith

pub same : (n : ℕ) → (n == n) ≡ true
same n = ground arith

framed :
    (n : ℕ)
    → 12 ≤ n
    → n ≤ 1048576
    → n % 4 ≡ 0
    → (ltb n 12 || (not (n % 4 == 0) || ltb 1048576 n)) ≡ false
framed n l h m = ground arith

-- A run of bytes with its length at offset 4 and at its end.
block_of-append :
    (b rest : Bytes) (n : ℕ)
    → length b ≡ n
    → le_at (n - 4) 4 b ≡ n
    → 12 ≤ n
    → n ≤ 1048576
    → n % 4 ≡ 0
    → block_of n (b ++ rest) ≡ ok (b, rest)
unfolding block_of
block_of-append b rest n e t l h m =
    rw
      (
        framed n l h m,
        not_short (length (b ++ rest)) n (omega (arith, length-append b rest)),
        take-append b rest n e,
        drop-append b rest n e,
        t,
        same n,
      )
      refl

read_hook_block-append :
    (b rest : Bytes) (n : ℕ)
    → length b ≡ n
    → le_at 4 4 (b ++ rest) ≡ n
    → le_at (n - 4) 4 b ≡ n
    → 12 ≤ n
    → n ≤ 1048576
    → n % 4 ≡ 0
    → read_hook_block (b ++ rest) ≡ ok (b, rest)
unfolding read_hook_block
read_hook_block-append [] rest n e k t l h m = absurd (omega arith)
read_hook_block-append (x ∷ b) rest n e k t l h m =
    rw (not_short (length (x ∷ (b ++ rest))) 8 (omega (arith, length-append b rest)), k)
      (block_of-append (x ∷ b) rest n e t l h m)

long_enough :
    (n k caplen : ℕ)
    → 32 + pad4 caplen ≤ n
    → caplen ≤ 65535
    → k ≡ 0
    → (ltb 65535 caplen || ltb n (32 + pad4 caplen)) ≡ false
long_enough n k caplen h l e = ground arith

below : (hooks iface : ℕ) → iface < hooks → leb hooks iface ≡ false
below hooks iface h = ground arith

-- A block by its fields.
hook_item-fields :
    {has_id : Bool} (b : Bytes) (hooks caplen iface high low : ℕ)
    → le_at 0 4 b ≡ epb_type
    → le_at 8 4 b ≡ iface
    → le_at 12 4 b ≡ high
    → le_at 16 4 b ≡ low
    → le_at 20 4 b ≡ caplen
    → 32 + pad4 caplen ≤ length b
    → iface < hooks
    → caplen ≤ 65535
    → check_hook_options (options_of b caplen) ≡ ok has_id
    → hook_item hooks none b ≡ ok (record { ts = high * 4294967296 + low; block = b }, has_id)
unfolding hook_item epb_size
hook_item-fields b hooks caplen iface high low e0 e8 e12 e16 e20 l i c o =
    rw
      (
        e0,
        e20,
        e8,
        not_short (length b) 32 (omega arith),
        below hooks iface i,
        long_enough (length b) 0 caplen l c refl,
        o,
        e12,
        e16,
      )
      refl

module _ (total : ℕ) (p : Packet) (opts : Bytes) where
  -- The last length of a block.
  pub trailer :
      length (block total p opts) ≡ total
      → 4 ≤ total
      → total < 4294967296
      → le_at (total - 4) 4 (block total p opts) ≡ total
  trailer e l h =
      rw
        (
          shape,
          drop-append (header total p ++ (padded p.bytes ++ opts)) (le_bytes 4 total) (total - 4)
              front,
        )
        (le_value-le_bytes4 total h)
    where
      shape : block total p opts ≡ (header total p ++ (padded p.bytes ++ opts)) ++ le_bytes 4 total
      shape = sym (
          append_assoc (header total p) (padded p.bytes ++ opts) (le_bytes 4 total)
          ∙ ap (λ t. header total p ++ t) (append_assoc (padded p.bytes) opts (le_bytes 4 total)))

      front : length (header total p ++ (padded p.bytes ++ opts)) ≡ total - 4
      front = omega (
        arith,
        e,
        length-block total p opts,
        length-append (header total p) (padded p.bytes ++ opts),
        length-append (padded p.bytes) opts,
        length-header total p,
        length-padded p.bytes,
      )

  -- A block is read as it stands.
  pub read_hook_block-block :
      length (block total p opts) ≡ total
      → 12 ≤ total
      → total ≤ 1048576
      → total % 4 ≡ 0
      → (rest : Bytes)
      → read_hook_block (block total p opts ++ rest) ≡ ok (block total p opts, rest)
  read_hook_block-block e l h m rest =
      unfold header in
      read_hook_block-append (block total p opts) rest total e
        (le_value-le_bytes4 total (omega arith)) (trailer e (omega arith) (omega arith)) l h m

  options_of-block :
      length (block total p opts) ≡ total → options_of (block total p opts) (length p.bytes) ≡ opts
  options_of-block e =
      rw
        (
          drop_shape,
          take-append opts (le_bytes 4 total)
              (length (block total p opts) - 4 - (28 + pad4 (length p.bytes)))
              (omega (arith, length-block total p opts)),
        )
        refl
    where
      drop_shape : drop (28 + pad4 (length p.bytes)) (block total p opts) ≡ opts ++ le_bytes 4 total
      drop_shape =
          rw (sym (append_assoc (header total p) (padded p.bytes) (opts ++ le_bytes 4 total))) (
            drop-append (header total p ++ padded p.bytes) (opts ++ le_bytes 4 total)
              (28 + pad4 (length p.bytes))
              (omega (
                arith,
                length-append (header total p) (padded p.bytes),
                length-header total p,
                length-padded p.bytes,
              )))

  type_at : le_at 0 4 (block total p opts) ≡ epb_type
  type_at = unfold header in refl

  iface_at : le_at 8 4 (block total p opts) ≡ p.iface % 4294967296
  iface_at = unfold header in low32 p.iface

  high_at : le_at 12 4 (block total p opts) ≡ p.ts / 4294967296 % 4294967296
  high_at = unfold header in low32 (p.ts / 4294967296)

  low_at : le_at 16 4 (block total p opts) ≡ p.ts % 4294967296
  low_at = unfold header in low32 p.ts

  caplen_at : le_at 20 4 (block total p opts) ≡ length p.bytes % 4294967296
  caplen_at = unfold header in low32 (length p.bytes)

  -- A block with options that are in order is the item of its packet.
  pub hook_item-block :
      {has_id : Bool} (hooks : ℕ)
      → length (block total p opts) ≡ total
      → p.iface < hooks
      → hooks ≤ 4294967296
      → length p.bytes ≤ 65535
      → p.ts < 18446744073709551616
      → check_hook_options opts ≡ ok has_id
      → hook_item hooks none (block total p opts)
        ≡ ok (record { ts = p.ts; block = block total p opts }, has_id)
  hook_item-block {has_id} hooks e i k l t o =
      hook_item-fields (block total p opts) hooks (length p.bytes) p.iface (p.ts / 4294967296)
        (p.ts % 4294967296) type_at (iface_at ∙ omega (arith, i, k)) (high_at ∙ omega (arith, t))
        low_at (caplen_at ∙ omega (arith, l)) (omega (arith, length-block total p opts)) i l
        (ap check_hook_options (options_of-block e) ∙ o)
      ∙ ap (λ n. ok (record { ts = n; block = block total p opts }, has_id)) (omega arith)
