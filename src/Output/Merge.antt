-- ===== src/Output/Merge.antt =====
-- internal/output/hookmerge.go, merge.go and output.go: the shards of a hook capture merged by time.
pub mod Lists
pub mod Loop
pub mod Shards
pub mod Sorted
pub mod Total
pub mod Valid
use bpf_ninja.Base.{
  ℕ, zero, suc, ◌+◌, ◌%◌, ◌^◌, Bool, false, ◌||◌, Option, none, some, List, [], ◌∷◌, ◌++◌, Bytes,
  ltb, ◌==◌, if◌then◌else◌, codes, length, get_elem?, take, drop, same_bytes,
}
use bpf_ninja.Go.Strconv.{format_uint}
use bpf_ninja.Go.Heap.{set, push, pop}
use bpf_ninja.Output.Header.{write_shb, write_idb_description}
use bpf_ninja.Output.Hooks.{HookError, Read, ok, fail, Item, read_hook_block, hook_item}

-- Why a merge fails, which leaves no merged file; `out_of_fuel` is of the model only.
pub data MergeError : Type 0 where
  too_many_hooks bad_hook_name long_hook_name short_shard table_differs out_of_fuel : MergeError
  bad_shard : HookError → MergeError

pub data Merged {ℓ} (A : Type ℓ) : Type ℓ where
  done : A → Merged A
  refused : MergeError → Merged A

infixl 5 ◌>>=◌
abbrev pub ◌>>=◌ {ℓ κ} : {A : Type ℓ} {B : Type κ} → Merged A → (A → Merged B) → Merged B
done a >>= f = f a
refused e >>= f = refused e

-- `mergeItem`: the item with the shard that it is of.
pub record Entry : Type 0 where
  pub item : Item
  pub idx : ℕ

-- The order of `Before` on times that are read from signed 64-bit numbers.
abbrev pub instant : Item → ℕ
instant it = (it.ts + 2 ^ 63) % 2 ^ 64

abbrev pub entry_instant : Entry → ℕ
entry_instant e = instant e.item

-- Whether a name is in front of the others.
seen_name : Bytes → List Bytes → Bool
unfolding same_bytes
seen_name name [] = false
seen_name name (other ∷ seen) = same_bytes name other || seen_name name seen

-- The description of the site of index `i`.
site_description : ℕ → Bytes
unfolding format_uint
site_description i = codes "bpf-ninja capture site_id=" ++ format_uint (i + 1)

and_then : Option Bytes → Merged Bytes → Merged Bytes
and_then none rest = refused MergeError.long_hook_name
and_then (some b) (done rest) = done (b ++ rest)
and_then (some b) (refused e) = refused e

-- The interfaces of the hooks from index `i` on, behind those of the names `seen`.
interfaces : ℕ → ℕ → List Bytes → List Bytes → Merged Bytes
unfolding seen_name site_description and_then write_idb_description
interfaces link_type i seen [] = done []
interfaces link_type i seen (name ∷ names) =
    let rest = interfaces link_type (i + 1) (name ∷ seen) names in
    if length name == 0 || seen_name name seen
    then refused MergeError.bad_hook_name
    else and_then (write_idb_description link_type name (site_description i)) rest

-- `initHooks`: the section header and an interface for each hook
unfoldable pub init_hooks : ℕ → List Bytes → Merged Bytes
unfolding interfaces write_shb
init_hooks link_type hooks =
    if ltb 255 (length hooks)
    then refused MergeError.too_many_hooks
    else interfaces link_type 0 [] hooks >>= λ rest. done (write_shb ++ rest)

opened : Merged (List Bytes) → Bytes → Merged (List Bytes)
opened (done rests) s = done (s ∷ rests)
opened (refused e) s = refused e

-- The shards behind their header; `none` is a file that is missing.
unfoldable pub open_shards : Bytes → List (Option Bytes) → Merged (List Bytes)
unfolding opened same_bytes
open_shards header [] = done []
open_shards header (none ∷ files) = open_shards header files
open_shards header (some s ∷ files) =
    let rest = open_shards header files in
    if ltb (length s) (length header)
    then refused MergeError.short_shard
    else if same_bytes (take (length header) s) header
    then opened rest (drop (length header) s)
    else refused MergeError.table_differs

-- What is ahead in each shard, and `runIDs`.
pub record Readers : Type 0 where
  pub rests : List Bytes
  pub run_ids : Option Bool

pub data Next : Type 0 where
  got : Entry → Readers → Next
  ended : Next
  broken : HookError → Next

item_of : ℕ → Readers → Bytes → Read (Item × Bool) → Next
item_of i st rest (fail e) = broken e
item_of i st rest (ok (it, has_id)) =
    got (record { item = it; idx = i })
      (record { rests = set st.rests i rest; run_ids = some has_id })

block_read : ℕ → ℕ → Readers → Read (Bytes × Bytes) → Next
unfolding item_of hook_item
block_read hooks i st (fail HookError.eof) = ended
block_read hooks i st (fail e) = broken e
block_read hooks i st (ok (b, rest)) = item_of i st rest (hook_item hooks st.run_ids b)

-- `next` of `mergeHookFiles`, with `hooks` interfaces
unfoldable pub next : ℕ → ℕ → Readers → Next
unfolding block_read read_hook_block
next hooks i st = elim (get_elem? st.rests i) [
  | none ↦ ended
  | some s ↦ block_read hooks i st (read_hook_block s)
]

-- Push what is read, and go on.
unfoldable pub pushed :
    {A : Type 0} → Next → List Entry → Readers → (List Entry → Readers → Merged A) → Merged A
unfolding push
pushed (got e st') h st go = go (push entry_instant h e) st'
pushed ended h st go = go h st
pushed (broken e) h st go = refused (MergeError.bad_shard e)

-- The first item of each of `k` shards from index `i` on.
unfoldable pub prime : ℕ → ℕ → ℕ → Readers → List Entry → Merged (List Entry × Readers)
unfolding next pushed
prime hooks zero i st h = done (h, st)
prime hooks (suc k) i st h = pushed (next hooks i st) h st (λ h' st'. prime hooks k (suc i) st' h')

written : Bytes → Merged Bytes → Merged Bytes
written b (done out) = done (b ++ out)
written b (refused e) = refused e

popped : Option (Entry × List Entry) → (Entry → List Entry → Merged Bytes) → Merged Bytes
popped none go = done []
popped (some (e, h)) go = written e.item.block (go e h)

-- The loop of `mergeHookFiles`: the blocks that it writes.
unfoldable pub drain : ℕ → ℕ → Readers → List Entry → Merged Bytes
unfolding next pushed popped written pop
drain hooks zero st h = refused MergeError.out_of_fuel
drain hooks (suc f) st h =
    popped (pop entry_instant h)
      (λ e h'. pushed (next hooks e.idx st) h' st (λ h'' st'. drain hooks f st' h''))

abbrev pub total : List Bytes → ℕ
total [] = 0
total (s ∷ l) = length s + total l

merge_from : ℕ → List Bytes → Merged Bytes
unfolding prime drain
merge_from hooks rests =
    prime hooks (length rests) 0 (record { rests = rests; run_ids = none }) [] >>= λ start.
    drain hooks (suc (total rests)) start.1 start.0

-- `mergeHookFiles`: the bytes of the merged file
unfoldable pub merge_hook_files : ℕ → List Bytes → List (Option Bytes) → Merged Bytes
unfolding init_hooks open_shards merge_from
merge_hook_files link_type hooks files = init_hooks link_type hooks >>= λ header.
    open_shards header files >>= λ rests.
    merge_from (length hooks) rests >>= λ out. done (header ++ out)
