-- ===== src/Output/Hooks/Options.antt =====
-- The options that record.go writes, as hookmerge.go checks them.
use bpf_ninja.Base.{
  ℕ, zero, suc, ◌+◌, ◌*◌, ◌<◌, ◌≤◌, ◌≡◌, refl, ap, ◌∙◌, arith, Bool, true, false, not, [], ◌∷◌,
  ◌++◌, Bytes, ltb, ◌==◌, take, drop, length, length-append,
}
use bpf_ninja.Record.Sink.{le_value}
use bpf_ninja.Output.Fields.{le_bytes, pad4, le_value-le_bytes8, drop-append}
use bpf_ninja.Output.Epb.{packet_id_code, comment_code, padded, id_option, comment_option}
use bpf_ninja.Output.Epb.Sizes.{length-padded, written_options}
use bpf_ninja.Output.Hooks.{ok, option_at, with_flags, options, check_hook_options}

-- The two halves of an option's header.
low_half : (code n : ℕ) → code < 65536 → le_value (take 2 (le_bytes 4 (code + n * 65536))) ≡ code
low_half code n h = omega arith

high_half :
    (code n : ℕ) → code < 65536 → n < 65536 → le_value (drop 2 (le_bytes 4 (code + n * 65536))) ≡ n
high_half code n h k = omega arith

header_fits : (n : ℕ) → ltb (suc (suc (suc (suc n)))) 4 ≡ false
header_fits n = ground arith

id_fits : (n : ℕ) → ltb (suc (suc (suc (suc (suc (suc (suc (suc n)))))))) 8 ≡ false
id_fits n = ground arith

not_zero : (n : ℕ) → 0 < n → (n == 0) ≡ false
not_zero n h = ground arith

not_short : (n m : ℕ) → m ≤ n → ltb n m ≡ false
not_short n m h = ground arith

-- One round of the loop, at an option that is not the end.
options-step :
    (f code n : ℕ) (s : Bytes) (i c : Bool)
    → 0 < code
    → code < 65536
    → n < 65536
    → options (suc f) (le_bytes 4 (code + n * 65536) ++ s) i c
      ≡ with_flags (option_at code n s i c) (λ j d. options f (drop (pad4 n) s) j d)
unfolding options
options-step f code n s i c z h k =
    rw (low_half code n h, high_half code n h k) (rw (header_fits (length s), not_zero code z) refl)

option_at-id :
    (id : ℕ) (s : Bytes)
    → suc id < 18446744073709551616
    → option_at packet_id_code 8 (le_bytes 8 (suc id) ++ s) false false ≡ ok (true, false)
unfolding option_at
option_at-id id s h =
    rw (id_fits (length s), le_value-le_bytes8 (suc id) h, not_zero (suc id) (omega arith)) refl

option_at-comment :
    (b : ℕ) (s tail : Bytes) (i : Bool)
    → option_at comment_code (length (b ∷ s)) (padded (b ∷ s) ++ tail) i false ≡ ok (i, true)
unfolding option_at
option_at-comment b s tail i =
    rw
      (
        not_short (length (padded (b ∷ s) ++ tail)) (length (b ∷ s))
            (omega (arith, length-append (padded (b ∷ s)) tail, length-padded (b ∷ s))),
        not_zero (length (b ∷ s)) (omega arith),
      )
      refl

-- A comment, with the end behind it.
options-comment :
    (f b : ℕ) (s : Bytes) (i : Bool)
    → length (b ∷ s) ≤ 65535
    → options (suc (suc f)) (comment_option (b ∷ s)) i false ≡ ok i
unfolding comment_option with_flags options
options-comment f b s i h =
    options-step (suc f) comment_code (length (b ∷ s)) (padded (b ∷ s) ++ le_bytes 4 0) i false
      (omega arith) (omega arith) (omega arith)
    ∙ ap
        (λ r. with_flags r (λ j d.
          options (suc f) (drop (pad4 (length (b ∷ s))) (padded (b ∷ s) ++ le_bytes 4 0)) j d))
        (option_at-comment b s (le_bytes 4 0) i)
    ∙ (ap (λ t. options (suc f) t i true)
        (drop-append (padded (b ∷ s)) (le_bytes 4 0) (pad4 (length (b ∷ s)))
          (length-padded (b ∷ s))))

-- An id, with other options behind it.
options-id :
    (f id : ℕ) (s : Bytes)
    → suc id < 18446744073709551616
    → options
        (suc f)
        (le_bytes 4 (packet_id_code + 8 * 65536) ++ (le_bytes 8 (suc id) ++ s))
        false
        false
      ≡ options f s true false
options-id f id s h =
    options-step f packet_id_code 8 (le_bytes 8 (suc id) ++ s) false false (omega arith)
      (omega arith) (omega arith)
    ∙ ap (λ r. with_flags r (λ j d. options f (drop (pad4 8) (le_bytes 8 (suc id) ++ s)) j d))
        (option_at-id id s h)
    ∙ (unfold with_flags in refl)

named : (id : ℕ) → ok true ≡ ok (not (suc id == 0))
named id = rw (not_zero (suc id) (omega arith)) refl

-- The check accepts the options of `WriteHookPacket`, and tells whether there is an id.
pub check_hook_options-written_options :
    (id : ℕ) (comment : Bytes)
    → id < 18446744073709551616
    → length comment ≤ 65535
    → check_hook_options (written_options id comment) ≡ ok (not (id == 0))
unfolding check_hook_options id_option comment_option
check_hook_options-written_options zero [] h k = refl
check_hook_options-written_options (suc id) [] h k = options-id 15 id (le_bytes 4 0) h ∙ named id
check_hook_options-written_options zero (b ∷ s) h k =
    options-comment (suc (suc (length (padded (b ∷ s) ++ le_bytes 4 0)))) b s false k
check_hook_options-written_options (suc id) (b ∷ s) h k =
    options-id (suc (suc (suc (length (le_bytes 8 (suc id) ++ comment_option (b ∷ s)))))) id
      (comment_option (b ∷ s)) h
    ∙ options-comment (suc (length (le_bytes 8 (suc id) ++ comment_option (b ∷ s)))) b s true k
    ∙ named id
