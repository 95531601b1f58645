-- ===== src/Output/Merge/Valid.antt =====
-- A merged file is one that internal/output/pcap_blocks.go accepts.

use native.Mathlib.Bridge.{le_prop}
use bpf_ninja.Base.{
  ℕ, ◌+◌, ◌≡◌, refl, sym, ap, ◌∙◌, arith, Bool, Option, none, some, List, [], ◌∷◌, ◌++◌, map,
  append_assoc, Bytes, length, ◌==◌, ◌||◌, ltb, Every, Bool-cases, inl, inr,
}
use bpf_ninja.Output.Epb.Sizes.{length-write_hook_packet}
use bpf_ninja.Output.Header.{write_shb, write_idb_description}
use bpf_ninja.Output.Hooks.{Item}
use bpf_ninja.Output.Frames.{accepted, validate_pcap_blocks}
use bpf_ninja.Output.Frames.Accepts.{IsFrame, joined, validate-joined}
use bpf_ninja.Output.Frames.Written.{interface, of_hook, Written-IsFrame}
use bpf_ninja.Output.Merge.{
  Merged, done, refused, ◌>>=◌, seen_name, site_description, and_then, interfaces, init_hooks,
  merge_hook_files,
}
use bpf_ninja.Output.Merge.Lists.{Every-append, Every-perm, concat}
use bpf_ninja.Output.Merge.Sorted.{
  HookPacket, IsHookPacket, IsShard, block_bytes, item, files_of, stock_of,
  merge_hook_files-IsSorted,
}

IsFrame-prop : (b : Bytes) → IsProp (IsFrame b)
IsFrame-prop b = hlevel (le_prop)

joined-append : (bs cs : List Bytes) → joined (bs ++ cs) ≡ joined bs ++ joined cs
joined-append [] cs = refl
joined-append (b ∷ bs) cs =
    ap (◌++◌ b) (joined-append bs cs) ∙ sym (append_assoc b (joined bs) (joined cs))

-- Bytes that are blocks, as the check of a file sees them.
abbrev IsFrames : Bytes → Type 0
IsFrames s = (bs : List Bytes) × (s ≡ joined bs) × Every IsFrame bs

and_then-IsFrames :
    (o : Option Bytes) (m : Merged Bytes) (s : Bytes)
    → ((b : Bytes) → o ≡ some b → IsFrame b)
    → ((r : Bytes) → m ≡ done r → IsFrames r)
    → and_then o m ≡ done s
    → IsFrames s
unfolding and_then
and_then-IsFrames none m s h k e = cc
and_then-IsFrames (some b) (refused x) s h k e = cc
and_then-IsFrames (some b) (done r) s h k e =
    let (bs, p, v) = k r refl in (b ∷ bs, ground (arith, e, p), (h b refl, v))

interfaces-IsFrames :
    (link_type i : ℕ) (seen names : List Bytes) (s : Bytes)
    → interfaces link_type i seen names ≡ done s
    → IsFrames s
unfolding interfaces
interfaces-IsFrames link_type i seen [] s e = ([], ground (arith, e), tt)
interfaces-IsFrames link_type i seen (name ∷ names) s e =
    elim (Bool-cases (length name == 0 || seen_name name seen)) [
      | inl t ↦ let bad = rw t at e in cc
      | inr t ↦
          and_then-IsFrames (write_idb_description link_type name (site_description i))
            (interfaces link_type (i + 1) (name ∷ seen) names) s
            (λ b q. Written-IsFrame b (interface link_type name (site_description i) q))
            (λ r q. interfaces-IsFrames link_type (i + 1) (name ∷ seen) names r q) (rw t at e)
    ]

init_hooks-IsFrames :
    (link_type : ℕ) (hooks : List Bytes) (header : Bytes)
    → init_hooks link_type hooks ≡ done header
    → (s : Bytes) × (header ≡ write_shb ++ s) × IsFrames s
unfolding init_hooks
init_hooks-IsFrames link_type hooks header e = elim (Bool-cases (ltb 255 (length hooks))) [
  | inl t ↦ let bad = rw t at e in cc
  | inr t ↦
      behind (interfaces link_type 0 [] hooks) (interfaces-IsFrames link_type 0 [] hooks)
        (rw t at e)
]
  where
    behind :
        (m : Merged Bytes)
        → ((s : Bytes) → m ≡ done s → IsFrames s)
        → (m >>= λ rest. done (write_shb ++ rest)) ≡ done header
        → (s : Bytes) × (header ≡ write_shb ++ s) × IsFrames s
    behind (done s) k p = (s, ground (arith, p), k s refl)
    behind (refused x) k p = cc

item-IsFrame :
    (hooks : ℕ) (ids : Bool) (p : HookPacket) → IsHookPacket hooks ids p → IsFrame (block_bytes p)
unfolding block_bytes
item-IsFrame hooks ids p v =
    let (b, e, l) = length-write_hook_packet p.packet p.id p.comment v.commented in
    rw e (Written-IsFrame b (of_hook p.packet p.id p.comment v.short e))

module _ (hooks : ℕ) (ids : Bool) where
  items-IsFrame :
      (ps : List HookPacket)
      → Every (IsHookPacket hooks ids) ps
      → Every (λ (it : Item). IsFrame it.block) (map item ps)
  items-IsFrame [] h = tt
  items-IsFrame (p ∷ ps) h = (item-IsFrame hooks ids p h.0, items-IsFrame ps h.1)

  stock_of-IsFrame :
      (shards : List (Option (List HookPacket)))
      → Every (IsShard hooks ids) shards
      → Every (λ (it : Item). IsFrame it.block) (concat (stock_of shards))
  stock_of-IsFrame [] h = tt
  stock_of-IsFrame (none ∷ shards) h = stock_of-IsFrame shards h.1
  stock_of-IsFrame (some ps ∷ shards) h =
      Every-append (λ it. IsFrame it.block) (map item ps) (concat (stock_of shards))
        (items-IsFrame ps h.0.0) (stock_of-IsFrame shards h.1)

blocks-IsFrame :
    (out : List Item)
    → Every (λ (it : Item). IsFrame it.block) out
    → Every IsFrame (map (λ it. it.block) out)
blocks-IsFrame [] h = tt
blocks-IsFrame (it ∷ out) h = (h.0, blocks-IsFrame out h.1)

-- The file that is merged from the shards of one hook capture, each by time and all with ids or all
-- without, passes `validatePcapBlocks`.
pub merge_hook_files-valid :
    (link_type : ℕ) (names : List Bytes) (header : Bytes) (ids : Bool)
    (shards : List (Option (List HookPacket))) (merged : Bytes)
    → init_hooks link_type names ≡ done header
    → Every (IsShard (length names) ids) shards
    → merge_hook_files link_type names (files_of header shards) ≡ done merged
    → validate_pcap_blocks merged ≡ accepted
merge_hook_files-valid link_type names header ids shards merged e v m =
    let (out, m', sorted, perm) = merge_hook_files-IsSorted link_type names header ids shards e v in
    let (s, p, (bs, q, w)) = init_hooks-IsFrames link_type names header e in
    let cs : List Bytes = map (λ it. it.block) out in
    let framed : Every IsFrame (bs ++ cs) = Every-append IsFrame bs cs w (
      blocks-IsFrame out (
        Every-perm (λ it. IsFrame it.block) (λ it. IsFrame-prop it.block) out
          (concat (stock_of shards)) perm (stock_of-IsFrame (length names) ids shards v))) in
    let whole : merged ≡ write_shb ++ joined (bs ++ cs) =
      done_same (sym m ∙ m')
      ∙ (ap (λ h. h ++ joined cs) (p ∙ ap (λ r. write_shb ++ r) q)
          ∙ (append_assoc write_shb (joined bs) (joined cs)
              ∙ ap (λ r. write_shb ++ r) (sym (joined-append bs cs)))) in
    rw whole (validate-joined (bs ++ cs) framed)
  where
    done_same : {s t : Bytes} → done s ≡ done t → s ≡ t
    done_same q = ground (arith, q)
