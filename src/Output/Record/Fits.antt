-- ===== src/Output/Record/Fits.antt =====
-- A hook record's comment, from the layout that internal/recordbuild builds to the block.
use bpf_ninja.Base.{
  ℕ, zero, suc, inl, inr, ◌-◌, ◌≤◌, ◌≡◌, ◌≢◌, refl, ◌∙◌, arith, Bool, true, false, not, ◌&&◌, ◌||◌,
  Option, none, some, List, [], ◌∷◌, Bytes, ltb, ◌==◌, length, get_elem?, Bool-cases, Every,
}
use bpf_ninja.Filter.Types.{FuncParamInfo, TargetFilters}
use bpf_ninja.Record.Types.{Ty}
use bpf_ninja.Record.Layout.{Layout}
use bpf_ninja.Record.Comment.{hex_digits}
use bpf_ninja.Record.Decode.{Rendered, comment, failed, append_comment}
use bpf_ninja.Record.Decode.Bound.{append_comment-max_comment_len}
use bpf_ninja.Record.Build.{Options, build, built}
use bpf_ninja.Record.Build.Fits.{build-max_comment_len}
use bpf_ninja.Output.Epb.{hook_epb_size}
use bpf_ninja.Output.Epb.Sizes.{
  written_options, write_hook_packet-block, length-block, length-written_options,
}
use bpf_ninja.Output.Record.{
  HookConfig, HookRecord, WriteError, Commented, with_comment, no_comment, Wrote, wrote,
  failed_batch, return_prefix, layout_of, rendered_comment, comment_of, record_comment, packet_of,
  written_block, write_commented, write_hook_record,
}

-- A site records nothing, or has a layout that `Build` accepts.
pub data IsBuilt (sizeof : Ty → Option ℕ) : Option Layout → Type 0 where
  nothing_recorded : IsBuilt sizeof none
  by_build :
      (generated : Bool) (params : List FuncParamInfo) (tf : TargetFilters) (opt : Options)
      (l : Layout)
      → build sizeof generated params tf opt ≡ built l
      → IsBuilt sizeof (some l)

length-return_prefix : (b : Bool) (action : ℕ) → length (return_prefix b action) ≤ 17
unfolding return_prefix hex_digits
length-return_prefix true action = omega arith
length-return_prefix false action = omega arith

layout_of-IsBuilt :
    (sizeof : Ty → Option ℕ) (ls : List (Option Layout)) (i : ℕ)
    → Every (IsBuilt sizeof) ls
    → IsBuilt sizeof (layout_of (get_elem? ls i))
unfolding layout_of
layout_of-IsBuilt sizeof [] i v = nothing_recorded
layout_of-IsBuilt sizeof (none ∷ ls) zero v = nothing_recorded
layout_of-IsBuilt sizeof (some l ∷ ls) zero v = v.0
layout_of-IsBuilt sizeof (l ∷ ls) (suc i) v = layout_of-IsBuilt sizeof ls i v.1

-- A comment that an option holds, or an error that is not its length.
abbrev FitsOption : Commented → Type 0
FitsOption (with_comment c) = length c ≤ 65535
FitsOption (no_comment e) = e ≢ WriteError.comment_too_long

rendered_comment-FitsOption :
    (r : Rendered)
    → ((c : Bytes) → r ≡ comment c → length c ≤ 65535)
    → FitsOption (rendered_comment r)
unfolding rendered_comment
rendered_comment-FitsOption (comment c) h = h c refl
rendered_comment-FitsOption (failed e) h = λ x. cc

comment_of-FitsOption :
    (sizeof : Ty → Option ℕ) (prefix : Bytes) (l : Option Layout) (b : Option Bytes)
    → length prefix ≤ 17
    → IsBuilt sizeof l
    → FitsOption (comment_of sizeof prefix l b)
unfolding comment_of
comment_of-FitsOption sizeof prefix none none h v = omega (arith, h)
comment_of-FitsOption sizeof prefix none (some b) h v = λ x. cc
comment_of-FitsOption sizeof prefix (some l) none h v = λ x. cc
comment_of-FitsOption sizeof prefix (some l) (some b) h (by_build generated params tf opt m e) =
    let (s, n) = build-max_comment_len sizeof generated params tf opt m e in
    rendered_comment-FitsOption (append_comment sizeof m prefix b)
      (λ c r. ground (arith, n, h, append_comment-max_comment_len sizeof m prefix b c s r))

-- A record is counted as what is written for it.
abbrev Counts : Wrote → Type 0
Counts (wrote b n) = length b ≡ n
Counts (failed_batch e) = e ≢ WriteError.comment_too_long

write_commented-Counts :
    (p : HookRecord) (c : Commented) → FitsOption c → Counts (write_commented p c)
unfolding write_commented written_block packet_of
write_commented-Counts p (no_comment e) h = h
write_commented-Counts p (with_comment c) h =
    rw (write_hook_packet-block (packet_of p) p.packet_id c h) (
      length-block (hook_epb_size (length p.bytes) (not (p.packet_id == 0)) (length c))
        (packet_of p) (written_options p.packet_id c)
      ∙ length-written_options (length p.bytes) p.packet_id c)

write_hook_record-Counts :
    (sizeof : Ty → Option ℕ) (cfg : HookConfig) (p : HookRecord)
    → Every (IsBuilt sizeof) cfg.layouts
    → Counts (write_hook_record sizeof cfg p)
unfolding write_hook_record record_comment
write_hook_record-Counts sizeof cfg p v =
    elim (Bool-cases
      (p.site_id == 0 || (ltb cfg.hooks p.site_id || (p.packet_id == 0 && not cfg.no_run_ids)))) [
        | inl e ↦ rw e (λ x. cc)
        | inr e ↦ rw e (
            write_commented-Counts p (record_comment sizeof cfg p) (
              comment_of-FitsOption sizeof (return_prefix cfg.record_return p.action)
                (layout_of (get_elem? cfg.layouts (p.site_id - 1))) p.block
                (length-return_prefix cfg.record_return p.action)
                (layout_of-IsBuilt sizeof cfg.layouts (p.site_id - 1) v)))
      ]

-- Where every layout is one that `Build` accepts, no hook record is refused for the length of its
-- comment.
pub write_hook_record-fits :
    (sizeof : Ty → Option ℕ) (cfg : HookConfig) (p : HookRecord)
    → Every (IsBuilt sizeof) cfg.layouts
    → write_hook_record sizeof cfg p ≢ failed_batch WriteError.comment_too_long
write_hook_record-fits sizeof cfg p v e = (rw e at (write_hook_record-Counts sizeof cfg p v)) refl

-- Where every layout is one that `Build` accepts, as many bytes are counted for a record as its
-- block has.
pub write_hook_record-counts :
    (sizeof : Ty → Option ℕ) (cfg : HookConfig) (p : HookRecord) (b : Bytes) (n : ℕ)
    → Every (IsBuilt sizeof) cfg.layouts
    → write_hook_record sizeof cfg p ≡ wrote b n
    → length b ≡ n
write_hook_record-counts sizeof cfg p b n v e = rw e at (write_hook_record-Counts sizeof cfg p v)
