-- ===== src/Output/Merge/Total.antt =====
-- A merge of any shards comes to an end.

use bpf_ninja.Base.{
  ℕ, zero, suc, ◌+◌, ◌<◌, ◌≤◌, ◌≡◌, ◌≢◌, refl, arith, Bool, Option, none, some, List, [], ◌∷◌,
  Bytes, length, get_elem?, inl, inr, Bool-cases, Option-cases, ltb, ◌==◌, ◌||◌, same_bytes, take,
  drop,
}
use bpf_ninja.Go.Heap.{set, push, pop}
use bpf_ninja.Go.Heap.Order.{IsHeap}
use bpf_ninja.Go.Heap.Queue.{push-IsHeap, pop-IsHeap}
use bpf_ninja.Output.Header.{write_idb_description}
use bpf_ninja.Output.Hooks.{HookError, Read, ok, fail, Item, read_hook_block, hook_item}
use bpf_ninja.Output.Hooks.Progress.{read_hook_block_shorter}
use bpf_ninja.Output.Merge.{
  MergeError, Merged, done, refused, ◌>>=◌, Entry, entry_instant, seen_name, site_description,
  and_then, interfaces, init_hooks, opened, open_shards, Readers, Next, got, ended, broken, item_of,
  block_read, next, pushed, prime, written, popped, drain, total, merge_from, merge_hook_files,
}

-- A verdict of the program: no error of the model.
abbrev Ends {ℓ} : {A : Type ℓ} → Merged A → Type ℓ
Ends m = m ≢ refused MergeError.out_of_fuel

total-set :
    (ss : List Bytes) (i : ℕ) (s r : Bytes)
    → get_elem? ss i ≡ some s
    → length r < length s
    → total (set ss i r) < total ss
total-set [] i s r e h = cc
total-set (t ∷ ss) zero s r e h = let same : t ≡ s = ground (arith, e) in rw same (omega (arith, h))
total-set (t ∷ ss) (suc i) s r e h = omega (arith, total-set ss i s r e h)

-- What a read leaves of the shards.
abbrev Shrinks : Readers → Next → Type 0
Shrinks st (got e st') = total st'.rests < total st.rests
Shrinks st ended = Unit {0}
Shrinks st (broken e) = Unit {0}

item_of-Shrinks :
    (i : ℕ) (st : Readers) (s rest : Bytes) (r : Read (Item × Bool))
    → get_elem? st.rests i ≡ some s
    → length rest < length s
    → Shrinks st (item_of i st rest r)
unfolding item_of
item_of-Shrinks i st s rest (ok (it, has_id)) e h = total-set st.rests i s rest e h
item_of-Shrinks i st s rest (fail x) e h = tt

block_read-Shrinks :
    (hooks i : ℕ) (st : Readers) (s : Bytes) (r : Read (Bytes × Bytes))
    → get_elem? st.rests i ≡ some s
    → read_hook_block s ≡ r
    → Shrinks st (block_read hooks i st r)
unfolding block_read
block_read-Shrinks hooks i st s (ok (b, rest)) e h =
    item_of-Shrinks i st s rest (hook_item hooks st.run_ids b) e
      (read_hook_block_shorter s b rest h)
block_read-Shrinks hooks i st s (fail HookError.eof) e h = tt
block_read-Shrinks hooks i st s (fail x) e h = tt

next-Shrinks : (hooks i : ℕ) (st : Readers) → Shrinks st (next hooks i st)
unfolding next
next-Shrinks hooks i st = elim (Option-cases (get_elem? st.rests i)) [
  | inl e ↦ rw (next, e) tt
  | inr (s, e) ↦ rw (next, e) (block_read-Shrinks hooks i st s (read_hook_block s) e refl)
]

module _ {A : Type 0} (st : Readers) (h : List Entry) (v : IsHeap entry_instant (length h) h) where
  -- A round of a read goes on with less, or ends.
  pushed-Ends :
      (n : Next) (go : List Entry → Readers → Merged A)
      → Shrinks st n
      → ((h' : List Entry) (st' : Readers)
          → IsHeap entry_instant (length h') h'
          → length h' + total st'.rests ≤ length h + total st.rests
          → Ends (go h' st'))
      → Ends (pushed n h st go)
  unfolding pushed
  pushed-Ends (got e st') go s k =
      let (order, perm, len) = push-IsHeap entry_instant h e v in
      k (push entry_instant h e) st' order (omega (arith, len, s))
  pushed-Ends ended go s k = k h st v (omega arith)
  pushed-Ends (broken e) go s k = λ p. cc

pushed-bind :
    {A B : Type 0} (n : Next) (h : List Entry) (st : Readers) (go : List Entry → Readers → Merged A)
    (f : A → Merged B)
    → (pushed n h st go >>= f) ≡ pushed n h st (λ h' st'. go h' st' >>= f)
unfolding pushed
pushed-bind (got e st') h st go f = refl
pushed-bind ended h st go f = refl
pushed-bind (broken e) h st go f = refl

written-Ends : (b : Bytes) (m : Merged Bytes) → Ends m → Ends (written b m)
unfolding written
written-Ends b (done out) h = λ p. cc
written-Ends b (refused e) h = h

module _ (hooks : ℕ) where
  drain-Ends :
      (f : ℕ) (st : Readers) (h : List Entry)
      → IsHeap entry_instant (length h) h
      → length h + total st.rests < f
      → Ends (drain hooks f st h)
  unfolding drain popped
  drain-Ends zero st h v k = absurd (omega arith)
  drain-Ends (suc f) st [] v k = unfold pop in λ p. cc
  drain-Ends (suc f) st (y ∷ h) v k =
      let (x, r, e, order, perm, least, len) = pop-IsHeap entry_instant (y ∷ h) v (omega arith) in
      let go = λ (h' : List Entry) (st' : Readers). drain hooks f st' h' in
      rw e (
        written-Ends x.item.block (pushed (next hooks x.idx st) r st go) (
          pushed-Ends st r order (next hooks x.idx st) go (next-Shrinks hooks x.idx st)
            (λ h' st' order' less. drain-Ends f st' h' order' (omega (arith, len, less)))))

  -- The first reads go on with a heap and shards that are not more than before, or end.
  prime-Ends :
      (k i : ℕ) (st : Readers) (h : List Entry) (rest : List Entry × Readers → Merged Bytes)
      → IsHeap entry_instant (length h) h
      → ((h' : List Entry) (st' : Readers)
          → IsHeap entry_instant (length h') h'
          → length h' + total st'.rests ≤ length h + total st.rests
          → Ends (rest (h', st')))
      → Ends (prime hooks k i st h >>= rest)
  unfolding prime
  prime-Ends zero i st h t v g = g h st v (omega arith)
  prime-Ends (suc k) i st h t v g =
      let go = λ (h' : List Entry) (st' : Readers). prime hooks k (suc i) st' h' in
      rw (pushed-bind (next hooks i st) h st go t) (
        pushed-Ends st h v (next hooks i st) (λ h' st'. go h' st' >>= t) (next-Shrinks hooks i st)
          (λ h' st' order less.
            prime-Ends k (suc i) st' h' t order
              (λ h'' st'' order' less'. g h'' st'' order' (omega (arith, less, less')))))

and_then-Ends : (o : Option Bytes) (m : Merged Bytes) → Ends m → Ends (and_then o m)
unfolding and_then
and_then-Ends none m h = λ p. cc
and_then-Ends (some b) (done rest) h = λ p. cc
and_then-Ends (some b) (refused e) h = λ p. h (ground (arith, p))

interfaces-Ends :
    (link_type i : ℕ) (seen names : List Bytes) → Ends (interfaces link_type i seen names)
unfolding interfaces
interfaces-Ends link_type i seen [] = λ p. cc
interfaces-Ends link_type i seen (name ∷ names) =
    elim (Bool-cases (length name == 0 || seen_name name seen)) [
      | inl e ↦ rw e (λ p. cc)
      | inr e ↦ rw e (
          and_then-Ends (write_idb_description link_type name (site_description i))
            (interfaces link_type (i + 1) (name ∷ seen) names)
            (interfaces-Ends link_type (i + 1) (name ∷ seen) names))
    ]

>>=-Ends :
    {A B : Type 0} (m : Merged A) (f : A → Merged B)
    → Ends m
    → ((a : A) → Ends (f a))
    → Ends (m >>= f)
>>=-Ends (done a) f h k = k a
>>=-Ends (refused e) f h k = λ p. h (ground (arith, p))

init_hooks-Ends : (link_type : ℕ) (hooks : List Bytes) → Ends (init_hooks link_type hooks)
unfolding init_hooks
init_hooks-Ends link_type hooks = elim (Bool-cases (ltb 255 (length hooks))) [
  | inl e ↦ rw e (λ p. cc)
  | inr e ↦ rw e (
      >>=-Ends (interfaces link_type 0 [] hooks) _ (interfaces-Ends link_type 0 [] hooks)
        (λ a p. cc))
]

opened-Ends : (m : Merged (List Bytes)) (s : Bytes) → Ends m → Ends (opened m s)
unfolding opened
opened-Ends (done rests) s h = λ p. cc
opened-Ends (refused e) s h = λ p. h (ground (arith, p))

open_shards-Ends : (header : Bytes) (files : List (Option Bytes)) → Ends (open_shards header files)
unfolding open_shards
open_shards-Ends header [] = λ p. cc
open_shards-Ends header (none ∷ files) = open_shards-Ends header files
open_shards-Ends header (some s ∷ files) = elim (Bool-cases (ltb (length s) (length header))) [
  | inl e ↦ rw e (λ p. cc)
  | inr e ↦ elim (Bool-cases (same_bytes (take (length header) s) header)) [
    | inl k ↦
        rw (e, k)
          (opened-Ends (open_shards header files) (drop (length header) s)
            (open_shards-Ends header files))
    | inr k ↦ rw (e, k) (λ p. cc)
  ]
]

merge_from-Ends : (hooks : ℕ) (rests : List Bytes) → Ends (merge_from hooks rests)
merge_from-Ends hooks rests =
    unfold merge_from in
    prime-Ends hooks (length rests) 0 (record { rests = rests; run_ids = none }) []
      (λ s. drain hooks (suc (total rests)) s.1 s.0) (λ c p q. absurd (omega arith))
      (λ h st order less. drain-Ends hooks (suc (total rests)) st h order (omega (arith, less)))

-- `mergeHookFiles` comes to an end, whatever stands in the shards: as many rounds as there are
-- bytes behind the headers, and one, are enough.
pub merge_hook_files-total :
    (link_type : ℕ) (hooks : List Bytes) (files : List (Option Bytes))
    → merge_hook_files link_type hooks files ≢ refused MergeError.out_of_fuel
merge_hook_files-total link_type hooks files =
    unfold merge_hook_files in
    >>=-Ends (init_hooks link_type hooks) _ (init_hooks-Ends link_type hooks) (λ header.
      >>=-Ends (open_shards header files) _ (open_shards-Ends header files) (λ rests.
        >>=-Ends (merge_from (length hooks) rests) _ (merge_from-Ends (length hooks) rests)
          (λ out p. cc)))
