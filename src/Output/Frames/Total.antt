-- ===== src/Output/Frames/Total.antt =====
-- pcap_blocks.go always comes to a verdict.
use bpf_ninja.Base.{
  ℕ, zero, suc, inl, inr, ◌+◌, ◌≤◌, ◌≡◌, ◌≢◌, ap, ◌∙◌, arith, Option, none, some, [], ◌∷◌, Bytes,
  ltb, ◌==◌, drop, length, length-drop, Bool-cases, Option-cases,
}
use bpf_ninja.Record.Sink.{le_at}
use bpf_ninja.Output.Header.{shb_type}
use bpf_ninja.Output.Frames.{
  FrameError, out_of_fuel, Order, Verdict, refused, u32_at, section_order, block_end, go_on, framed,
  section, blocks, validate_pcap_blocks,
}

-- A block that passes has a length, and no error is that of the fuel.
block_end-none : (o : Order) (used n : ℕ) (s : Bytes) → block_end o used n s ≡ none → used + 4 ≤ n
unfolding block_end
block_end-none o used n s e = ground arith

block_end-some : (o : Order) (used n : ℕ) (s : Bytes) → block_end o used n s ≢ some out_of_fuel
unfolding block_end
block_end-some o used n s e = ground arith

framed-total :
    (order : Option Order) (used : ℕ) (s : Bytes) (next : Order → Bytes → Verdict)
    → ((o : Order) (n : ℕ) → used + 4 ≤ n → next o (drop n s) ≢ refused out_of_fuel)
    → framed order used s next ≢ refused out_of_fuel
unfolding framed go_on
framed-total none used s next h = λ e. cc
framed-total (some o) used s next h = elim (Option-cases (block_end o used (u32_at o 4 s) s)) [
  | inl x ↦ rw x (h o (u32_at o 4 s) (block_end-none o used (u32_at o 4 s) s x))
  | inr (y, x) ↦ rw x (λ e. block_end-some o used (u32_at o 4 s) s (x ∙ ap some (same_error e)))
]
  where
    same_error : {a b : FrameError} → refused a ≡ refused b → a ≡ b
    same_error e = cc

section-total :
    (order : Option Order) (s : Bytes) (next : Order → Bytes → Verdict)
    → ((o : Order) (n : ℕ) → 12 ≤ n → next o (drop n s) ≢ refused out_of_fuel)
    → section order s next ≢ refused out_of_fuel
unfolding section
section-total none s next h = λ e. cc
section-total (some o) s next h =
    framed-total (some o) 12 s next (λ q n l. h q n (omega (arith, l)))

blocks-total :
    (f : ℕ) (order : Option Order) (s : Bytes)
    → length s ≤ f
    → blocks f order s ≢ refused out_of_fuel
unfolding blocks
blocks-total f order [] h = λ e. cc
blocks-total zero order (b ∷ s) h = absurd (omega arith)
blocks-total (suc f) order (b ∷ s) h =
    let further : (o : Order) (n : ℕ)
        → 12 ≤ n
        → blocks f (some o) (drop n (b ∷ s)) ≢ refused out_of_fuel =
      λ o n l.
        blocks-total f (some o) (drop n (b ∷ s)) (omega (arith, l, h, length-drop n (b ∷ s))) in
    elim (Bool-cases (ltb (length (b ∷ s)) 8)) [
      | inl x ↦ rw x (λ e. cc)
      | inr x ↦ elim (Bool-cases (le_at 0 4 (b ∷ s) == shb_type)) [
        | inl y ↦ elim (Bool-cases (length (b ∷ s) == 8)) [
          | inl z ↦ rw (x, y, z) (λ e. cc)
          | inr z ↦ elim (Bool-cases (ltb (length (b ∷ s)) 12)) [
            | inl w ↦ rw (x, y, z, w) (λ e. cc)
            | inr w ↦
                rw (x, y, z, w)
                  (section-total (section_order (b ∷ s)) (b ∷ s) (λ o r. blocks f (some o) r)
                    further)
          ]
        ]
        | inr y ↦
            rw (x, y)
              (framed-total order 8 (b ∷ s) (λ o r. blocks f (some o) r)
                (λ o n l. further o n (omega (arith, l))))
      ]
    ]

-- The check of a file's blocks ends for every sequence of bytes: the rounds that the model grants,
-- one for each byte, are enough.
pub validate_pcap_blocks-total : (s : Bytes) → validate_pcap_blocks s ≢ refused out_of_fuel
unfolding validate_pcap_blocks
validate_pcap_blocks-total s = blocks-total (length s) none s (omega arith)
