-- ===== src/Output/Frames/Accepts.antt =====
-- The blocks that internal/output/fastpcapng.go and record.go write, as pcap_blocks.go checks them.
use bpf_ninja.Base.{
  Every, ℕ, zero, suc, ◌+◌, ◌-◌, ◌%◌, ◌≤◌, ◌≡◌, refl, ap, ◌∙◌, arith, false, not, ◌||◌, none, some,
  List, [], ◌∷◌, ◌++◌, Bytes, ltb, ◌==◌, take, drop, length, length-append, length-drop,
}
use bpf_ninja.Record.Sink.{le_value, le_at}
use bpf_ninja.Output.Fields.{drop-append}
use bpf_ninja.Output.Header.{shb_type, write_shb}
use bpf_ninja.Output.Hooks.Blocks.{not_short, same}
use bpf_ninja.Output.Frames.{little, accepted, block_end, blocks, validate_pcap_blocks}

-- A block whose two lengths are its own, and that is no section header.
pub record IsFrame (b : Bytes) : Type 0 where
  pub least : 12 ≤ length b
  pub even : length b % 4 ≡ 0
  pub first : le_at 4 4 b ≡ length b
  pub last : le_at (length b - 4) 4 b ≡ length b
  pub other : (le_at 0 4 b == shb_type) ≡ false

take-within : (n : ℕ) (s t : Bytes) → n ≤ length s → take n (s ++ t) ≡ take n s
take-within zero s t h = refl
take-within (suc n) [] t h = absurd (omega arith)
take-within (suc n) (b ∷ s) t h = ap (◌∷◌ b) (take-within n s t (omega arith))

drop-within : (n : ℕ) (s t : Bytes) → n ≤ length s → drop n (s ++ t) ≡ drop n s ++ t
drop-within zero s t h = refl
drop-within (suc n) [] t h = absurd (omega arith)
drop-within (suc n) (b ∷ s) t h = drop-within n s t (omega arith)

-- A field of a block does not change with what stands behind the block.
le_at-append : (off n : ℕ) (s t : Bytes) → off + n ≤ length s → le_at off n (s ++ t) ≡ le_at off n s
le_at-append off n s t h =
    ap (λ r. le_value (take n r)) (drop-within off s t (omega arith))
    ∙ ap le_value (take-within n (drop off s) t (omega (arith, h, length-drop off s)))

abbrev pub joined : List Bytes → Bytes
joined [] = []
joined (b ∷ bs) = b ++ joined bs

sound_length : (n : ℕ) → 12 ≤ n → n % 4 ≡ 0 → (ltb n 12 || not (n % 4 == 0)) ≡ false
sound_length n h m = ground arith

block_end-frame : (b rest : Bytes) → IsFrame b → block_end little 8 (length b) (b ++ rest) ≡ none
unfolding block_end
block_end-frame b rest v =
    rw
      (
        sound_length (length b) v.least v.even,
        not_short (length (b ++ rest)) (length b - 4) (omega (arith, length-append b rest)),
        not_short (length (b ++ rest)) (length b) (omega (arith, length-append b rest)),
        le_at-append (length b - 4) 4 b rest (omega (arith, v.least)),
        v.last,
        same (length b),
      )
      refl

-- A round at a block goes on behind it.
blocks-frame :
    (f : ℕ) (b rest : Bytes)
    → IsFrame b
    → blocks (suc f) (some little) (b ++ rest) ≡ blocks f (some little) rest
unfolding blocks
blocks-frame f [] rest v = absurd (omega (arith, v.least))
blocks-frame f (x ∷ b) rest v =
    rw
      (
        not_short (suc (length (b ++ rest))) 8 (omega (arith, v.least, length-append b rest)),
        ap (λ n. n == shb_type) (le_at-append 0 4 (x ∷ b) rest (omega (arith, v.least))) ∙ v.other,
        le_at-append 4 4 (x ∷ b) rest (omega (arith, v.least)) ∙ v.first,
        block_end-frame (x ∷ b) rest v,
        drop-append b rest (length b) refl,
      )
      refl

blocks-joined :
    (f : ℕ) (bs : List Bytes)
    → Every IsFrame bs
    → length (joined bs) ≤ f
    → blocks f (some little) (joined bs) ≡ accepted
blocks-joined f [] v h = unfold blocks in refl
blocks-joined zero (b ∷ bs) v h = absurd (omega (arith, v.0.least, length-append b (joined bs)))
blocks-joined (suc f) (b ∷ bs) v h =
    blocks-frame f b (joined bs) v.0
    ∙ blocks-joined f bs v.1 (omega (arith, v.0.least, length-append b (joined bs)))

not_eight : (n : ℕ) → 9 ≤ n → (n == 8) ≡ false
not_eight n h = ground arith

-- A section header puts the check into its byte order.
blocks-write_shb :
    (f : ℕ) (rest : Bytes) → blocks (suc f) none (write_shb ++ rest) ≡ blocks f (some little) rest
unfolding blocks write_shb
blocks-write_shb f rest =
    let n = length (write_shb ++ rest) in
    rw
      (
        not_short n 8 (omega arith),
        not_eight n (omega arith),
        not_short n 12 (omega arith),
        not_short n 24 (omega arith),
        not_short n 28 (omega arith),
      )
      refl

pub validate-joined :
    (bs : List Bytes) → Every IsFrame bs → validate_pcap_blocks (write_shb ++ joined bs) ≡ accepted
unfolding validate_pcap_blocks
validate-joined bs v =
    ap (λ n. blocks n none (write_shb ++ joined bs)) whole
    ∙ blocks-write_shb (27 + length (joined bs)) (joined bs)
    ∙ blocks-joined (27 + length (joined bs)) bs v (omega arith)
  where
    whole : length (write_shb ++ joined bs) ≡ suc (27 + length (joined bs))
    whole = unfold write_shb in omega arith
