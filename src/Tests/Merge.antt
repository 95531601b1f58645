-- ===== src/Tests/Merge.antt =====
-- internal/output's merge on two small shards.
use native.Mathlib.Omega.{arith}
use mathlib.Core.List.{Perm}
use bpf_ninja.Base.{
  ℕ, ◌+◌, ◌<◌, ◌≡◌, ◌≢◌, refl, true, Option, none, some, List, [], ◌∷◌, ◌++◌, map, Bytes, codes,
  Every,
}
use bpf_ninja.Output.Hooks.{HookError, Item}
use bpf_ninja.Output.Frames.Accepts.{joined}
use bpf_ninja.Output.Merge.{MergeError, done, refused, init_hooks, merge_hook_files}
use bpf_ninja.Output.Merge.Lists.{IsSorted, concat}
use bpf_ninja.Output.Merge.Sorted.{
  HookPacket, IsShard, IsHookPacket, block_bytes, files_of, stock_of, merge_hook_files-IsSorted,
}
use bpf_ninja.Output.Frames.{accepted, validate_pcap_blocks}
use bpf_ninja.Output.Merge.Valid.{merge_hook_files-valid}
use bpf_ninja.Output.Merge.Total.{merge_hook_files-total}

-- A packet of one byte on the only site.
abbrev at_time : ℕ → HookPacket
at_time t = record {
  packet = record { ts = t; bytes = 7 ∷ []; orig_len = 60; iface = 0 };
  id = t + 1;
  comment = codes "a=1";
}

abbrev two_shards : List (Option (List HookPacket))
two_shards = some (at_time 10 ∷ at_time 30 ∷ []) ∷ none ∷ some (at_time 20 ∷ at_time 40 ∷ []) ∷ []

abbrev names : List Bytes
names = codes "x" ∷ []

-- A section header, and the interface of the site.
abbrev header : Bytes
header =
    10 ∷ 13 ∷ 13 ∷ 10 ∷ 28 ∷ 0 ∷ 0 ∷ 0 ∷ 77 ∷ 60 ∷ 43 ∷ 26 ∷ 1 ∷ 0 ∷ 0 ∷ 0 ∷ 255 ∷ 255 ∷ 255 ∷ 255
    ∷ 255 ∷ 255 ∷ 255 ∷ 255 ∷ 28 ∷ 0 ∷ 0 ∷ 0 ∷ 1 ∷ 0 ∷ 0 ∷ 0 ∷ 72 ∷ 0 ∷ 0 ∷ 0 ∷ 1 ∷ 0 ∷ 0 ∷ 0 ∷ 0
    ∷ 0 ∷ 0 ∷ 0 ∷ 2 ∷ 0 ∷ 1 ∷ 0 ∷ 120 ∷ 0 ∷ 0 ∷ 0 ∷ 3 ∷ 0 ∷ 27 ∷ 0 ∷ 98 ∷ 112 ∷ 102 ∷ 45 ∷ 110 ∷ 105
    ∷ 110 ∷ 106 ∷ 97 ∷ 32 ∷ 99 ∷ 97 ∷ 112 ∷ 116 ∷ 117 ∷ 114 ∷ 101 ∷ 32 ∷ 115 ∷ 105 ∷ 116 ∷ 101 ∷ 95
    ∷ 105 ∷ 100 ∷ 61 ∷ 49 ∷ 0 ∷ 9 ∷ 0 ∷ 1 ∷ 0 ∷ 9 ∷ 0 ∷ 0 ∷ 0 ∷ 0 ∷ 0 ∷ 0 ∷ 0 ∷ 72 ∷ 0 ∷ 0 ∷ 0 ∷ []

header-written : init_hooks 1 names ≡ done header
unfolding init_hooks
header-written = refl

at_time-IsHookPacket : (t : ℕ) → t < 100 → IsHookPacket 1 true (at_time t)
at_time-IsHookPacket t h = record {
  short = omega arith;
  placed = omega arith;
  timed = omega arith;
  numbered = omega arith;
  commented = omega arith;
  latched = ground arith;
}

two_shards-IsShard : Every (IsShard 1 true) two_shards
two_shards-IsShard = (
  (
    (at_time-IsHookPacket 10 (omega arith), (at_time-IsHookPacket 30 (omega arith), tt)),
    omega arith,
  ),
  (
    tt,
    (
      (
        (at_time-IsHookPacket 20 (omega arith), (at_time-IsHookPacket 40 (omega arith), tt)),
        omega arith,
      ),
      tt,
    ),
  ),
)

merge_hook_files-IsSorted_example :
    (out : List Item) × (merge_hook_files 1 names (files_of header two_shards)
      ≡ done (header ++ joined (map (λ it. it.block) out)))
    × IsSorted out
    × Perm out (concat (stock_of two_shards))
merge_hook_files-IsSorted_example =
    merge_hook_files-IsSorted 1 names header true two_shards header-written two_shards-IsShard

merge_hook_files-total_example :
    merge_hook_files 1 names (some (1 ∷ 2 ∷ []) ∷ []) ≢ refused MergeError.out_of_fuel
merge_hook_files-total_example = merge_hook_files-total 1 names (some (1 ∷ 2 ∷ []) ∷ [])

-- The packets in the order of their times.
merged :
    merge_hook_files 1 names (files_of header two_shards)
    ≡ done (
        header
        ++ (block_bytes (at_time 10)
            ++ (block_bytes (at_time 20)
                ++ (block_bytes (at_time 30) ++ block_bytes (at_time 40)))))
unfolding merge_hook_files block_bytes
merged = refl

merge_hook_files-valid_example :
    validate_pcap_blocks (
      header
      ++ (block_bytes (at_time 10)
          ++ (block_bytes (at_time 20) ++ (block_bytes (at_time 30) ++ block_bytes (at_time 40)))))
    ≡ accepted
merge_hook_files-valid_example =
    merge_hook_files-valid 1 names header true two_shards
      (header
        ++ (block_bytes (at_time 10)
            ++ (block_bytes (at_time 20)
                ++ (block_bytes (at_time 30) ++ block_bytes (at_time 40)))))
      header-written two_shards-IsShard merged

-- A shard that is cut behind its first packet fails the merge.
truncated :
    merge_hook_files 1 names (some (header ++ (block_bytes (at_time 10) ++ (6 ∷ 0 ∷ []))) ∷ [])
    ≡ refused (MergeError.bad_shard HookError.unexpected_eof)
unfolding merge_hook_files block_bytes
truncated = refl

-- The name of a hook twice.
named_twice : init_hooks 1 (codes "x" ∷ codes "x" ∷ []) ≡ refused MergeError.bad_hook_name
unfolding init_hooks
named_twice = refl
