-- ===== src/Output/Hooks/Progress.antt =====
-- What internal/output/hookmerge.go consumes when it reads a block, and the latch on the ids.
use bpf_ninja.Base.{
  ℕ, ◌<◌, ◌≤◌, ◌≡◌, arith, Bool, true, false, Option, none, some, [], ◌∷◌, Bytes, length,
  length-drop, drop,
}
use bpf_ninja.Record.Sink.{le_at}
use bpf_ninja.Output.Hooks.{
  Read, ok, fail, Item, block_of, read_hook_block, latched, hook_item, options_of,
  check_hook_options,
}

block_of_shorter : (n : ℕ) (s b rest : Bytes) → block_of n s ≡ ok (b, rest) → length rest < length s
unfolding block_of
block_of_shorter n s b rest e =
    let long : (12 ≤ n) × (n ≤ length s) × (rest ≡ drop n s) = ground (arith, e) in
    rw (long.2) (omega (arith, length-drop n s))

-- A block that is read has bytes.
pub read_hook_block_shorter :
    (s b rest : Bytes) → read_hook_block s ≡ ok (b, rest) → length rest < length s
unfolding read_hook_block
read_hook_block_shorter [] b rest e = cc
read_hook_block_shorter (c ∷ s) b rest e =
    block_of_shorter (le_at 4 4 (c ∷ s)) (c ∷ s) b rest (ground (arith, e))

-- The latch is open, or agrees.
abbrev pub Agrees : Bool → Option Bool → Type 0
Agrees ids none = Unit {0}
Agrees ids (some had_id) = had_id ≡ ids

latched_same :
    (ids : Bool) (run_ids : Option Bool) (b : Bytes) (o : Read Bool) (it : Item)
    → latched none b o ≡ ok (it, ids)
    → Agrees ids run_ids
    → latched run_ids b o ≡ ok (it, ids)
unfolding latched
latched_same ids none b o it e a = e
latched_same ids (some had_id) b (fail x) it e a = e
latched_same ids (some true) b (ok true) it e a = ground (arith, e, a)
latched_same ids (some true) b (ok false) it e a = ground (arith, e, a)
latched_same ids (some false) b (ok true) it e a = ground (arith, e, a)
latched_same ids (some false) b (ok false) it e a = ground (arith, e, a)

-- A block that is an item is one under a latch that agrees.
pub hook_item_same :
    (hooks : ℕ) (ids : Bool) (run_ids : Option Bool) (b : Bytes) (it : Item)
    → hook_item hooks none b ≡ ok (it, ids)
    → Agrees ids run_ids
    → hook_item hooks run_ids b ≡ ok (it, ids)
unfolding hook_item
hook_item_same hooks ids run_ids b it e a =
    ground
      (arith, e, latched_same ids run_ids b (check_hook_options (options_of b (le_at 20 4 b))) it)
