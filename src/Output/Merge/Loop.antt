-- ===== src/Output/Merge/Loop.antt =====
-- The loop of a merge, on shards that hold items.
use native.Mathlib.Bridge.{le_prop}
use mathlib.Core.Logic.Or
use mathlib.Core.List.{
  Perm, Mem, mem-cons, not-mem-nil, mem-cons_self, mem-cons_of_mem, perm_middle,
}
use mathlib.Core.List.Perm
use bpf_ninja.Base.{
  ℕ, zero, suc, ◌+◌, ◌<◌, ◌≤◌, ◌≡◌, ◌≢◌, refl, sym, ap, ◌∙◌, arith, Bool, some, List, [], ◌∷◌, ◌++◌,
  map, Bytes, length, ◌==◌, Bool-cases, inl, inr,
}
use bpf_ninja.Go.Heap.{set, push, pop}
use bpf_ninja.Go.Heap.Slots.{length-set}
use bpf_ninja.Go.Heap.Order.{IsHeap}
use bpf_ninja.Go.Heap.Queue.{push-IsHeap, pop-IsHeap}
use bpf_ninja.Output.Hooks.{Item}
use bpf_ninja.Output.Hooks.Progress.{Agrees}
use bpf_ninja.Output.Frames.Accepts.{joined}
use bpf_ninja.Output.Merge.{
  Merged, done, instant, Entry, entry_instant, Readers, next, pushed, prime, drain, popped, written,
}
use bpf_ninja.Output.Merge.Lists.{
  NotBefore, IsSorted, concat, at, at-set_same, at-set_other, concat-set, concat-nil, Every-append,
  Every-concat, NotBefore-perm,
}
use bpf_ninja.Output.Merge.Shards.{Stock, next-Stock}

abbrev pub items_of : List Entry → List Item
items_of h = map (λ e. e.item) h

-- What is left of shard `i` is not before the least entry of that shard in the heap.
abbrev Covered : List Entry → ℕ → List Item → Type 0
Covered h i l = (v : ℕ) → ((e : Entry) → Mem e h → e.idx ≡ i → v ≤ entry_instant e) → NotBefore v l

-- A heap and shards between two rounds, where the shards that `W` names have their entry.
pub record IsRunning (hooks : ℕ) (ids : Bool) (W : ℕ → Type 0) (h : List Entry) (st : Readers)
    (ls : List (List Item)) : Type 0 where
  pub stock : Stock hooks ids st.rests ls
  pub agrees : Agrees ids st.run_ids
  pub order : IsHeap entry_instant (length h) h
  pub covered : (j : ℕ) → W j → Covered h j (at ls j)

NotBefore-later :
    (v : ℕ) (it : Item) (l : List Item) → v ≤ instant it → NotBefore (instant it) l → NotBefore v l
NotBefore-later v it [] h k = tt
NotBefore-later v it (x ∷ l) h k = (omega (arith, h, k.0), NotBefore-later v it l h k.1)

-- What stands behind a new entry of a sorted shard is covered by it.
Covered-new :
    (h : List Entry) (i : ℕ) (it : Item) (l : List Item)
    → Mem (record { item = it; idx = i }) h
    → NotBefore (instant it) l
    → Covered h i l
Covered-new h i it l m k v c = NotBefore-later v it l (c (record { item = it; idx = i }) m refl) k

-- A new entry of a shard counts once, in the heap instead of the shard.
items-perm :
    (h h' : List Entry) (e : Entry) (ls ls' : List (List Item))
    → Perm h' (e ∷ h)
    → Perm (concat ls) (e.item ∷ concat ls')
    → Perm (items_of h' ++ concat ls') (items_of h ++ concat ls)
items-perm h h' e ls ls' p q =
    Perm.trans (Perm.append_right (concat ls') (Perm.map (λ (x : Entry). x.item) p)) (
      Perm.trans (Perm.symm (perm_middle (items_of h) (concat ls')))
        (Perm.append_left (items_of h) (Perm.symm q)))

module _ (W : ℕ → Type 0) (i : ℕ) (h : List Entry) (ls : List (List Item)) where
  -- A shard with nothing left is covered.
  ended-Covered :
      at ls i ≡ []
      → ((j : ℕ) → W j × (j ≢ i) → Covered h j (at ls j))
      → (j : ℕ) → W j
      → Covered h j (at ls j)
  ended-Covered k v j w = elim (Bool-cases (j == i)) [
    | inl s ↦ λ u c. let t : j ≡ i = ground (arith, s) in rw (t, k) tt
    | inr s ↦ v j (w, ground (arith, s))
  ]

  -- With the next entry of a sorted shard in the heap, the shard is covered.
  pushed-Covered :
      (h' : List Entry) (it : Item) (its : List Item)
      → Perm h' (record { item = it; idx = i } ∷ h)
      → i < length ls
      → NotBefore (instant it) its
      → ((j : ℕ) → W j × (j ≢ i) → Covered h j (at ls j))
      → (j : ℕ) → W j
      → Covered h' j (at (set ls i its) j)
  pushed-Covered h' it its perm q sorted v j w = elim (Bool-cases (j == i)) [
    | inl s ↦
        let t : j ≡ i = ground (arith, s) in
        rw (t, at-set_same ls i its q)
          (Covered-new h' i it its ((Perm.mem_iff perm).1 mem-cons_self) sorted)
    | inr s ↦
        let t : j ≢ i = ground (arith, s) in
        rw (at-set_other ls i j its t)
          (λ u c. v j (w, t) u (λ x m. c x ((Perm.mem_iff perm).1 (mem-cons_of_mem _ m))))
  ]

module _ (hooks : ℕ) (ids : Bool) (W : ℕ → Type 0) where
  -- A round's read: the heap and the shards hold the same items behind it.
  pub pushed-IsRunning :
      (i : ℕ) (h : List Entry) (st : Readers) (ls : List (List Item))
      → IsRunning hooks ids (λ j. W j × (j ≢ i)) h st ls
      → (h' : List Entry) × (st' : Readers) × (ls' : List (List Item)) × ((A : Type 0)
            (go : List Entry → Readers → Merged A)
          → pushed (next hooks i st) h st go ≡ go h' st')
        × IsRunning hooks ids W h' st' ls'
        × Perm (items_of h' ++ concat ls') (items_of h ++ concat ls)
        × (length h' + length (concat ls') ≡ length h + length (concat ls))
        × (length ls' ≡ length ls)
  unfolding pushed
  pushed-IsRunning i h st ls v = elim (next-Stock hooks ids i st ls v.stock v.agrees) [
    | inl (e, k) ↦
        let run : IsRunning hooks ids W h st ls = record {
          stock = v.stock;
          agrees = v.agrees;
          order = v.order;
          covered = ended-Covered W i h ls k v.covered;
        } in
        (h, st, ls, λ A go. rw e refl, run, Perm.rfl, refl, refl)
    | inr (it, its, rest, k, q, sorted, e, stock) ↦
        let new : Entry = record { item = it; idx = i } in
        let h' : List Entry = push entry_instant h new in
        let (order, perm, len) = push-IsHeap entry_instant h new v.order in
        let (left, count) = concat-set ls i it its k in
        let st' : Readers = record { rests = set st.rests i rest; run_ids = some ids } in
        let run : IsRunning hooks ids W h' st' (set ls i its) = record {
          stock = stock;
          agrees = refl;
          order = order;
          covered = pushed-Covered W i h ls h' it its perm q sorted.0 v.covered;
        } in
        (
          h',
          st',
          set ls i its,
          λ A go. rw e refl,
          run,
          items-perm h h' new ls (set ls i its) perm left,
          omega (arith, len, count),
          length-set ls i its,
        )
  ]

-- An empty heap leaves nothing in the shards.
nothing_left : (l : List Item) (i : ℕ) → Covered [] i l → l ≡ []
nothing_left [] i c = refl
nothing_left (it ∷ l) i c =
    absurd (omega (arith, (c (suc (instant it)) (λ e m. absurd (not-mem-nil m))).0))

-- The items of a running merge are not before the least entry.
least-NotBefore :
    (v : ℕ) (h : List Entry) (ls : List (List Item))
    → ((e : Entry) → Mem e h → v ≤ entry_instant e)
    → ((i : ℕ) → Covered h i (at ls i))
    → NotBefore v (items_of h ++ concat ls)
least-NotBefore v h ls c k =
    Every-append (λ it. v ≤ instant it) (items_of h) (concat ls) (entries h c)
      (Every-concat (λ it. v ≤ instant it) ls (λ i. k i v (λ e m p. c e m)))
  where
    entries :
        (h : List Entry) → ((e : Entry) → Mem e h → v ≤ entry_instant e) → NotBefore v (items_of h)
    entries [] c = tt
    entries (e ∷ h) c = (c e mem-cons_self, entries h (λ x m. c x (mem-cons_of_mem e m)))

module _ (hooks : ℕ) (ids : Bool) where
  -- The loop writes what the heap and the shards hold, by time.
  pub drain-IsSorted :
      (f : ℕ) (h : List Entry) (st : Readers) (ls : List (List Item))
      → IsRunning hooks ids (λ j. Unit {0}) h st ls
      → length h + length (concat ls) < f
      → (out : List Item) × (drain hooks f st h ≡ done (joined (map (λ it. it.block) out)))
        × IsSorted out
        × Perm out (items_of h ++ concat ls)
  unfolding drain popped written
  drain-IsSorted zero h st ls v k = absurd (omega arith)
  drain-IsSorted (suc f) [] st ls v k =
      let empty : concat ls ≡ [] = concat-nil ls (λ i. nothing_left (at ls i) i (v.covered i tt)) in
      ([], unfold pop in refl, tt, rw empty Perm.rfl)
  drain-IsSorted (suc f) (y ∷ h) st ls v k =
      let (x, r, e, order, perm, least, len) =
        pop-IsHeap entry_instant (y ∷ h) v.order (omega arith) in
      let rest : IsRunning hooks ids (λ j. Unit {0} × (j ≢ x.idx)) r st ls = record {
        stock = v.stock;
        agrees = v.agrees;
        order = order;
        covered = λ j w u c. v.covered j tt u (λ z m q.
            Or.elim le_prop (mem-cons.0 ((Perm.mem_iff perm).0 m))
              (λ p. absurd (w.1 (sym q ∙ ap (λ (t : Entry). t.idx) p))) (λ n. c z n q));
      } in
      let (h', st', ls', go, v', perm', len', size) =
        pushed-IsRunning hooks ids (λ j. Unit {0}) x.idx r st ls rest in
      let (out, e', sorted, perm'') = drain-IsSorted f h' st' ls' v' (omega (arith, len, len')) in
      let whole : Perm (x.item ∷ out) (items_of (y ∷ h) ++ concat ls) =
        Perm.trans (Perm.cons x.item (Perm.trans perm'' perm'))
          (Perm.append_right (concat ls) (Perm.symm (Perm.map (λ (t : Entry). t.item) perm))) in
      (
        x.item ∷ out,
        rw (e, go (Bytes) (λ a b. drain hooks f b a), e') refl,
        (
          (NotBefore-perm (entry_instant x) (x.item ∷ out) (items_of (y ∷ h) ++ concat ls) whole
              (least-NotBefore (entry_instant x) (y ∷ h) ls least (λ i. v.covered i tt))).1,
          sorted,
        ),
        whole,
      )

  -- The first reads put an entry of each shard into the heap.
  pub prime-IsRunning :
      (k i : ℕ) (h : List Entry) (st : Readers) (ls : List (List Item))
      → IsRunning hooks ids (λ j. j < i) h st ls
      → (h' : List Entry) × (st' : Readers) × (ls' : List (List Item)) × (prime hooks k i st h
          ≡ done (h', st'))
        × IsRunning hooks ids (λ j. j < i + k) h' st' ls'
        × Perm (items_of h' ++ concat ls') (items_of h ++ concat ls)
        × (length h' + length (concat ls') ≡ length h + length (concat ls))
        × (length ls' ≡ length ls)
  unfolding prime
  prime-IsRunning zero i h st ls v =
      let same : i + 0 ≡ i = omega arith in (h, st, ls, refl, rw same v, Perm.rfl, refl, refl)
  prime-IsRunning (suc k) i h st ls v =
      let w : IsRunning hooks ids (λ j. (j < suc i) × (j ≢ i)) h st ls = record {
        stock = v.stock;
        agrees = v.agrees;
        order = v.order;
        covered = λ j w. v.covered j (omega (arith, w.0, w.1));
      } in
      let (h', st', ls', go, v', perm, len, size) =
        pushed-IsRunning hooks ids (λ j. j < suc i) i h st ls w in
      let (h'', st'', ls'', e, v'', perm', len', size') = prime-IsRunning k (suc i) h' st' ls' v' in
      (
        h'',
        st'',
        ls'',
        go (List Entry × Readers) (λ a b. prime hooks k (suc i) b a) ∙ e,
        record {
          stock = v''.stock;
          agrees = v''.agrees;
          order = v''.order;
          covered = λ j w. v''.covered j (omega arith);
        },
        Perm.trans perm' perm,
        len' ∙ len,
        size' ∙ size,
      )
