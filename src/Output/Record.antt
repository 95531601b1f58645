-- ===== src/Output/Record.antt =====
-- internal/output/record.go and output.go: a hook record with its comment, as one block.
pub mod Fits
pub mod Batch
use bpf_ninja.Base.{
  ℕ, zero, suc, ◌+◌, ◌-◌, Bool, true, false, not, ◌&&◌, ◌||◌, Option, none, some, List, [], ◌∷◌,
  ◌++◌, Bytes, ltb, ◌==◌, if◌then◌else◌, codes, length, get_elem?,
}
use bpf_ninja.Record.Types.{Ty}
use bpf_ninja.Record.Layout.{Layout}
use bpf_ninja.Record.Comment.{hex_digits}
use bpf_ninja.Record.Decode.{BlockError, Rendered, comment, failed, append_comment}
use bpf_ninja.Output.Epb.{Packet, write_hook_packet, hook_epb_size}

-- The part of `Config` that a hook capture looks at: its sites, their layouts, whether the return
-- value is told, and whether the records have no ids.
pub record HookConfig : Type 0 where
  pub hooks : ℕ
  pub layouts : List (Option Layout)
  pub record_return : Bool
  pub no_run_ids : Bool

-- The fields of `capture.Packet` that are written; `none` is a nil record block.
pub record HookRecord : Type 0 where
  pub ts : ℕ
  pub bytes : Bytes
  pub orig_len : ℕ
  pub action : ℕ
  pub site_id : ℕ
  pub packet_id : ℕ
  pub block : Option Bytes

pub data WriteError : Type 0 where
  invalid_record unexpected_block missing_block comment_too_long : WriteError
  bad_block : BlockError → WriteError

-- A comment, or why there is none.
pub data Commented : Type 0 where
  with_comment : Bytes → Commented
  no_comment : WriteError → Commented

-- What is written, with the size that is counted for it.
pub data Wrote : Type 0 where
  wrote : Bytes → ℕ → Wrote
  failed_batch : WriteError → Wrote

-- `return=0x%08x`, if the return value is told.
return_prefix : Bool → ℕ → Bytes
return_prefix false action = []
return_prefix true action = codes "return=0x" ++ hex_digits 8 action

-- The layout of a site; an index out of range has none.
layout_of : Option (Option Layout) → Option Layout
layout_of (some (some l)) = some l
layout_of _ = none

rendered_comment : Rendered → Commented
rendered_comment (comment c) = with_comment c
rendered_comment (failed e) = no_comment (WriteError.bad_block e)

comment_of : (Ty → Option ℕ) → Bytes → Option Layout → Option Bytes → Commented
unfolding rendered_comment append_comment
comment_of sizeof prefix none none = with_comment prefix
comment_of sizeof prefix none (some b) = no_comment WriteError.unexpected_block
comment_of sizeof prefix (some l) none = no_comment WriteError.missing_block
comment_of sizeof prefix (some l) (some b) = rendered_comment (append_comment sizeof l prefix b)

-- `recordComment`, of a record with a site
unfoldable pub record_comment : (Ty → Option ℕ) → HookConfig → HookRecord → Commented
unfolding return_prefix layout_of comment_of
record_comment sizeof cfg p =
    comment_of sizeof (return_prefix cfg.record_return p.action)
      (layout_of (get_elem? cfg.layouts (p.site_id - 1))) p.block

pub packet_of : HookRecord → Packet
packet_of p = record { ts = p.ts; bytes = p.bytes; orig_len = p.orig_len; iface = p.site_id - 1 }

written_block : HookRecord → Bytes → Option Bytes → Wrote
unfolding hook_epb_size
written_block p c none = failed_batch WriteError.comment_too_long
written_block p c (some b) =
    wrote b (hook_epb_size (length p.bytes) (not (p.packet_id == 0)) (length c))

write_commented : HookRecord → Commented → Wrote
unfolding packet_of written_block write_hook_packet
write_commented p (no_comment e) = failed_batch e
write_commented p (with_comment c) =
    written_block p c (write_hook_packet (packet_of p) p.packet_id c)

-- The hook case of `WriteBatch`
unfoldable pub write_hook_record : (Ty → Option ℕ) → HookConfig → HookRecord → Wrote
unfolding write_commented record_comment
write_hook_record sizeof cfg p =
    if p.site_id == 0 || (ltb cfg.hooks p.site_id || (p.packet_id == 0 && not cfg.no_run_ids))
    then failed_batch WriteError.invalid_record
    else write_commented p (record_comment sizeof cfg p)
