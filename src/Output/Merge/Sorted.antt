-- ===== src/Output/Merge/Sorted.antt =====
-- The shards that a hook capture writes, merged.
use mathlib.Core.List.{Perm}
use mathlib.Core.List.Perm
use native.Mathlib.Decide.{dec_lt}
use bpf_ninja.Base.{
  ℕ, suc, ◌+◌, ◌^◌, ◌<◌, ◌≤◌, ◌≡◌, refl, ap, arith, Bool, false, not, Option, none, some, List, [],
  ◌∷◌, ◌++◌, map, Bytes, length, ltb, ◌==◌, length-append, same_bytes_iff, Every,
}
use bpf_ninja.Output.Fields.{take-append, drop-append}
use bpf_ninja.Output.Epb.{Packet, write_hook_packet}
use bpf_ninja.Output.Hooks.{Item}
use bpf_ninja.Output.Hooks.RoundTrip.{read_hook_block-write_hook_packet}
use bpf_ninja.Output.Frames.Accepts.{joined}
use bpf_ninja.Output.Merge.{
  done, Readers, init_hooks, open_shards, total, merge_from, merge_hook_files,
}
use bpf_ninja.Output.Merge.Lists.{IsSorted, concat, at-beyond}
use bpf_ninja.Output.Merge.Shards.{Holds, Stock, Stock-total, length-Stock}
use bpf_ninja.Output.Merge.Loop.{IsRunning, drain-IsSorted, prime-IsRunning}

-- What `WriteHookPacket` is given.
pub record HookPacket : Type 0 where
  pub packet : Packet
  pub id : ℕ
  pub comment : Bytes

-- A packet of a capture with `hooks` sites, whose records have ids or have none.
pub record IsHookPacket (hooks : ℕ) (ids : Bool) (p : HookPacket) : Type 0 where
  pub short : length p.packet.bytes ≤ 65535
  pub placed : p.packet.iface < hooks
  pub timed : p.packet.ts < 2 ^ 64
  pub numbered : p.id < 2 ^ 64
  pub commented : length p.comment ≤ 65535
  pub latched : not (p.id == 0) ≡ ids

abbrev pub bytes_of : Option Bytes → Bytes
bytes_of none = []
bytes_of (some b) = b

-- The bytes that are written of a packet.
unfoldable pub block_bytes : HookPacket → Bytes
unfolding write_hook_packet
block_bytes p = bytes_of (write_hook_packet p.packet p.id p.comment)

abbrev pub item : HookPacket → Item
item p = record { ts = p.packet.ts; block = block_bytes p }

-- The blocks of a shard, in the order in which they are written.
abbrev pub shard_bytes : List HookPacket → Bytes
shard_bytes [] = []
shard_bytes (p ∷ ps) = block_bytes p ++ shard_bytes ps

-- A shard's packets, by time; or a shard that is missing.
abbrev pub IsShard : ℕ → Bool → Option (List HookPacket) → Type 0
IsShard hooks ids none = Unit {0}
IsShard hooks ids (some ps) = Every (IsHookPacket hooks ids) ps × IsSorted (map item ps)

-- The files of the shards, behind their header.
abbrev pub files_of : Bytes → List (Option (List HookPacket)) → List (Option Bytes)
files_of header [] = []
files_of header (none ∷ shards) = none ∷ files_of header shards
files_of header (some ps ∷ shards) = some (header ++ shard_bytes ps) ∷ files_of header shards

-- The items of the shards that are not missing.
abbrev pub stock_of : List (Option (List HookPacket)) → List (List Item)
stock_of [] = []
stock_of (none ∷ shards) = stock_of shards
stock_of (some ps ∷ shards) = map item ps ∷ stock_of shards

abbrev rests_of : List (Option (List HookPacket)) → List Bytes
rests_of [] = []
rests_of (none ∷ shards) = rests_of shards
rests_of (some ps ∷ shards) = shard_bytes ps ∷ rests_of shards

module _ (hooks : ℕ) (ids : Bool) (few : hooks ≤ 255) where
  shard_bytes-Holds :
      (ps : List HookPacket)
      → Every (IsHookPacket hooks ids) ps
      → Holds hooks ids (shard_bytes ps) (map item ps)
  shard_bytes-Holds [] h = refl
  shard_bytes-Holds (p ∷ ps) (v, h) =
      let (b, e, r, i) =
        read_hook_block-write_hook_packet p.packet p.id p.comment (shard_bytes ps) hooks v.short
          v.placed (omega (arith, few)) v.timed v.numbered v.commented in
      let same : block_bytes p ≡ b = unfold block_bytes in ap bytes_of e in
      (shard_bytes ps, rw same r, rw same (rw v.latched at i), shard_bytes-Holds ps h)

  rests_of-Stock :
      (shards : List (Option (List HookPacket)))
      → Every (IsShard hooks ids) shards
      → Stock hooks ids (rests_of shards) (stock_of shards)
  rests_of-Stock [] h = tt
  rests_of-Stock (none ∷ shards) h = rests_of-Stock shards h.1
  rests_of-Stock (some ps ∷ shards) ((v, w), h) =
      (shard_bytes-Holds ps v, w, rests_of-Stock shards h)

open_shards-files_of :
    (header : Bytes) (shards : List (Option (List HookPacket)))
    → open_shards header (files_of header shards) ≡ done (rests_of shards)
unfolding open_shards
open_shards-files_of header [] = refl
open_shards-files_of header (none ∷ shards) = open_shards-files_of header shards
open_shards-files_of header (some ps ∷ shards) =
    let long : ltb (length (header ++ shard_bytes ps)) (length header) ≡ false =
      ground (arith, length-append header (shard_bytes ps)) in
    rw
      (
        long,
        take-append header (shard_bytes ps),
        (same_bytes_iff header header).1 refl,
        drop-append header (shard_bytes ps),
        open_shards-files_of header shards,
      )
      refl

init_hooks_few :
    (link_type : ℕ) (names : List Bytes) (header : Bytes)
    → init_hooks link_type names ≡ done header
    → length names ≤ 255
unfolding init_hooks
init_hooks_few link_type names header e = ground (arith, e)

-- The merge behind the header.
merge_from-IsSorted :
    (hooks : ℕ) (ids : Bool) (rests : List Bytes) (ls : List (List Item))
    → Stock hooks ids rests ls
    → (out : List Item) × (merge_from hooks rests ≡ done (joined (map (λ it. it.block) out)))
      × IsSorted out
      × Perm out (concat ls)
unfolding merge_from
merge_from-IsSorted hooks ids rests ls stock =
    let begin : IsRunning hooks ids (λ j. j < 0) [] start ls = record {
      stock = stock;
      agrees = tt;
      order = λ c p q. absurd (omega arith);
      covered = λ j w. absurd (omega arith);
    } in
    let (h, st, ls', e, v, perm, len, size) =
      prime-IsRunning hooks ids (length rests) 0 [] start ls begin in
    let all : IsRunning hooks ids (λ j. Unit {0}) h st ls' = record {
      stock = v.stock;
      agrees = v.agrees;
      order = v.order;
      covered = λ j w. elim (dec_lt j (length rests)) [
        | yes k ↦ v.covered j (omega (arith, k))
        | no k ↦
            let beyond : length ls' ≤ j =
              omega (arith, k, size, length-Stock hooks ids rests ls stock) in
            rw (at-beyond ls' j beyond) (λ u c. tt)
      ];
    } in
    let enough : length h + length (concat ls') < suc (total rests) =
      omega (arith, len, Stock-total hooks ids rests ls stock) in
    let (out, e', sorted, perm') =
      drain-IsSorted hooks ids (suc (total rests)) h st ls' all enough in
    (out, rw (merge_from, e) e', sorted, Perm.trans perm' perm)
  where
    start : Readers
    start = record { rests = rests; run_ids = none }

-- Shards of one hook capture, each by time and all with ids or all without, are merged, whatever
-- shards are missing: `mergeHookFiles` succeeds, and behind the header stand the blocks of all the
-- packets, each once and as it was written, by time.
pub merge_hook_files-IsSorted :
    (link_type : ℕ) (names : List Bytes) (header : Bytes) (ids : Bool)
    (shards : List (Option (List HookPacket)))
    → init_hooks link_type names ≡ done header
    → Every (IsShard (length names) ids) shards
    → (out : List Item) × (merge_hook_files link_type names (files_of header shards)
        ≡ done (header ++ joined (map (λ it. it.block) out)))
      × IsSorted out
      × Perm out (concat (stock_of shards))
unfolding merge_hook_files
merge_hook_files-IsSorted link_type names header ids shards e v =
    let few = init_hooks_few link_type names header e in
    let (out, m, sorted, perm) =
      merge_from-IsSorted (length names) ids (rests_of shards) (stock_of shards)
        (rests_of-Stock (length names) ids few shards v) in
    (out, rw (merge_hook_files, e, open_shards-files_of header shards, m) refl, sorted, perm)
