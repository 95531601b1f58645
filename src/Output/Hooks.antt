-- ===== src/Output/Hooks.antt =====
-- internal/output/hookmerge.go: the blocks of a hook capture read back.
pub mod Options
pub mod Blocks
pub mod RoundTrip
pub mod Progress
use bpf_ninja.Base.{
  ℕ, zero, suc, ◌+◌, ◌-◌, ◌*◌, ◌/◌, ◌%◌, ◌^◌, Bool, true, false, not, ◌&&◌, ◌||◌, Option, none,
  some, [], ◌∷◌, ◌++◌, Bytes, ltb, leb, ◌==◌, if◌then◌else◌, take, drop, length,
}
use bpf_ninja.Record.Sink.{le_at}
use bpf_ninja.Output.Fields.{pad4}
use bpf_ninja.Output.Epb.{epb_type, packet_id_code, comment_code, epb_size}

-- Why a block is refused; `eof` is the clean end of a file, and `out_of_fuel` an error of the
-- model only.
pub data HookError : Type 0 where
  eof unexpected_eof invalid_length lengths_disagree expected_epb invalid_epb : HookError
  truncated_header end_has_length overruns duplicate_id id_after_comment invalid_id : HookError
  duplicate_comment empty_comment unexpected_option missing_end presence_changes : HookError
  out_of_fuel : HookError

pub data Read {ℓ} (A : Type ℓ) : Type ℓ where
  ok : A → Read A
  fail : HookError → Read A

abbrev max_hook_block_size : ℕ
max_hook_block_size = 2 ^ 20

-- The rest of a block behind the header's eight bytes: the block and the bytes behind it.
block_of : ℕ → Bytes → Read (Bytes × Bytes)
block_of n s =
    if ltb n 12 || (not (n % 4 == 0) || ltb max_hook_block_size n)
    then fail HookError.invalid_length
    else if ltb (length s) n
    then fail HookError.unexpected_eof
    else if le_at (n - 4) 4 (take n s) == n
    then ok (take n s, drop n s)
    else fail HookError.lengths_disagree

-- `readHookBlock`, of a file's bytes that are ahead
unfoldable pub read_hook_block : Bytes → Read (Bytes × Bytes)
unfolding block_of
read_hook_block [] = fail HookError.eof
read_hook_block s =
    if ltb (length s) 8 then fail HookError.unexpected_eof else block_of (le_at 4 4 s) s

-- An option that is not the end, of `n` bytes at the head of `s`: the new flags.
option_at : ℕ → ℕ → Bytes → Bool → Bool → Read (Bool × Bool)
option_at code n s has_id saw_comment =
    if ltb (length s) n
    then fail HookError.overruns
    else if code == packet_id_code
    then (if has_id
        then fail HookError.duplicate_id
        else if saw_comment
        then fail HookError.id_after_comment
        else if not (n == 8) || le_at 0 8 s == 0
        then fail HookError.invalid_id
        else ok (true, saw_comment))
    else if code == comment_code
    then (if saw_comment
        then fail HookError.duplicate_comment
        else if n == 0
        then fail HookError.empty_comment
        else ok (has_id, true))
    else fail HookError.unexpected_option

-- On the flags of an option, the rest of the options.
with_flags : Read (Bool × Bool) → (Bool → Bool → Read Bool) → Read Bool
with_flags (ok (has_id, saw_comment)) f = f has_id saw_comment
with_flags (fail e) f = fail e

-- The loop of `checkHookOptions`, over the bytes that are left.
options : ℕ → Bytes → Bool → Bool → Read Bool
unfolding option_at with_flags
options f [] has_id saw_comment = fail HookError.missing_end
options zero s has_id saw_comment = fail HookError.out_of_fuel
options (suc f) s has_id saw_comment =
    let code = le_at 0 2 s in
    let n = le_at 2 2 s in
    let next =
      with_flags (option_at code n (drop 4 s) has_id saw_comment)
        (λ i c. options f (drop (pad4 n) (drop 4 s)) i c) in
    if ltb (length s) 4
    then fail HookError.truncated_header
    else if code == 0
    then (if n == 0 then ok has_id else fail HookError.end_has_length)
    else next

-- `checkHookOptions`
unfoldable pub check_hook_options : Bytes → Read Bool
unfolding options
check_hook_options [] = ok false
check_hook_options o = options (length o) o false false

-- The options between the packet's bytes and the block's last length.
abbrev options_of : Bytes → ℕ → Bytes
options_of b caplen = take (length b - 4 - (28 + pad4 caplen)) (drop (28 + pad4 caplen) b)

-- `mergeItem`, of a hook block.
pub record Item : Type 0 where
  pub ts : ℕ
  pub block : Bytes

-- The latch `runIDs`: every block has an id, or none has.
latched : Option Bool → Bytes → Read Bool → Read (Item × Bool)
latched run_ids b (fail e) = fail e
latched none b (ok has_id) =
    ok (record { ts = le_at 12 4 b * 2 ^ 32 + le_at 16 4 b; block = b }, has_id)
latched (some had_id) b (ok has_id) =
    if (if had_id then has_id else not has_id)
    then ok (record { ts = le_at 12 4 b * 2 ^ 32 + le_at 16 4 b; block = b }, has_id)
    else fail HookError.presence_changes

-- `next` of `mergeHookFiles`, behind the reading of a block, in a file of `hooks` interfaces
unfoldable pub hook_item : ℕ → Option Bool → Bytes → Read (Item × Bool)
unfolding latched check_hook_options epb_size
hook_item hooks run_ids b =
    let caplen = le_at 20 4 b in
    if not (le_at 0 4 b == epb_type) || ltb (length b) (epb_size 0)
    then fail HookError.expected_epb
    else if leb hooks (le_at 8 4 b) || (ltb 65535 caplen || ltb (length b) (epb_size caplen))
    then fail HookError.invalid_epb
    else latched run_ids b (check_hook_options (options_of b caplen))
