-- ===== src/Output/Merge/Shards.antt =====
-- The shards that are read, as the lists of the items that they hold.
use bpf_ninja.Base.{
  ℕ, zero, suc, ◌<◌, ◌≤◌, ◌≡◌, refl, ap, arith, Bool, none, some, List, [], ◌∷◌, Bytes, length,
  length-append, get_elem?, ◌⊎◌, inl, inr,
}
use bpf_ninja.Go.Heap.{set}
use bpf_ninja.Output.Hooks.{ok, Item, read_hook_block, hook_item}
use bpf_ninja.Output.Hooks.Progress.{Agrees, hook_item_same, read_hook_block_shorter}
use bpf_ninja.Output.Merge.{Readers, got, ended, next, item_of, block_read, total}
use bpf_ninja.Output.Merge.Lists.{IsSorted, at, concat}

-- The bytes of a shard are blocks that are read as these items, with ids or without.
abbrev pub Holds : ℕ → Bool → Bytes → List Item → Type 0
Holds hooks ids s [] = s ≡ []
Holds hooks ids s (it ∷ its) =
    (rest : Bytes) × (read_hook_block s ≡ ok (it.block, rest))
    × (hook_item hooks none it.block ≡ ok (it, ids))
    × Holds hooks ids rest its

-- The shards hold these items, each by time.
abbrev pub Stock : ℕ → Bool → List Bytes → List (List Item) → Type 0
Stock hooks ids [] [] = Unit {0}
Stock hooks ids [] (its ∷ ls) = ⊥
Stock hooks ids (s ∷ ss) [] = ⊥
Stock hooks ids (s ∷ ss) (its ∷ ls) = Holds hooks ids s its × IsSorted its × Stock hooks ids ss ls

module _ (hooks : ℕ) (ids : Bool) where
  pub length-Stock :
      (ss : List Bytes) (ls : List (List Item)) → Stock hooks ids ss ls → length ss ≡ length ls
  length-Stock [] [] h = refl
  length-Stock [] (its ∷ ls) h = absurd h
  length-Stock (s ∷ ss) [] h = absurd h
  length-Stock (s ∷ ss) (its ∷ ls) h = ap suc (length-Stock ss ls h.2)

  Holds-total : (s : Bytes) (its : List Item) → Holds hooks ids s its → length its ≤ length s
  Holds-total s [] h = omega arith
  Holds-total s (it ∷ its) (rest, e, v, h) =
      omega (arith, read_hook_block_shorter s it.block rest e, Holds-total rest its h)

  -- There are no more items than bytes.
  pub Stock-total :
      (ss : List Bytes) (ls : List (List Item))
      → Stock hooks ids ss ls
      → length (concat ls) ≤ total ss
  Stock-total [] [] h = omega arith
  Stock-total [] (its ∷ ls) h = absurd h
  Stock-total (s ∷ ss) [] h = absurd h
  Stock-total (s ∷ ss) (its ∷ ls) h =
      omega (arith, length-append its (concat ls), Holds-total s its h.0, Stock-total ss ls h.2)

  -- The shard of index `i`, and the others with a shard in its place.
  Stock-at :
      (ss : List Bytes) (ls : List (List Item)) (i : ℕ)
      → Stock hooks ids ss ls
      → ((get_elem? ss i ≡ none) × (at ls i ≡ []))
        ⊎ ((s : Bytes) × (get_elem? ss i ≡ some s)
            × (i < length ls)
            × Holds hooks ids s (at ls i)
            × IsSorted (at ls i)
            × ((r : Bytes) (its : List Item)
                → Holds hooks ids r its
                → IsSorted its
                → Stock hooks ids (set ss i r) (set ls i its)))
  Stock-at [] [] i h = inl (refl, refl)
  Stock-at [] (its ∷ ls) i h = absurd h
  Stock-at (s ∷ ss) [] i h = absurd h
  Stock-at (s ∷ ss) (its ∷ ls) zero h = inr (s, refl, omega arith, h.0, h.1, λ r m v w. (v, w, h.2))
  Stock-at (s ∷ ss) (its ∷ ls) (suc i) h = elim (Stock-at ss ls i h.2) [
    | inl none_left ↦ inl none_left
    | inr (r, e, k, v, w, put) ↦
        inr (r, e, omega (arith, k), v, w, λ r' m v' w'. (h.0, h.1, put r' m v' w'))
  ]

  next-Holds :
      (i : ℕ) (st : Readers) (s : Bytes) (its : List Item)
      → get_elem? st.rests i ≡ some s
      → Holds hooks ids s its
      → Agrees ids st.run_ids
      → ((next hooks i st ≡ ended) × (its ≡ []))
        ⊎ ((it : Item) × (its' : List Item) × (rest : Bytes) × (its ≡ it ∷ its')
            × Holds hooks ids rest its'
            × (next hooks i st
                ≡ got
                    (record { item = it; idx = i })
                    (record { rests = set st.rests i rest; run_ids = some ids })))
  unfolding next block_read item_of
  next-Holds i st s [] e h a = inl (rw (next, e, h) (unfold read_hook_block in refl), refl)
  next-Holds i st s (it ∷ its) e (rest, r, v, h) a = inr (
    it,
    its,
    rest,
    refl,
    h,
    rw (next, e, r, hook_item_same hooks ids st.run_ids it.block it v a) refl,
  )

  -- What `next` reads: the end of a shard with no items, or the next item of the shard.
  pub next-Stock :
      (i : ℕ) (st : Readers) (ls : List (List Item))
      → Stock hooks ids st.rests ls
      → Agrees ids st.run_ids
      → ((next hooks i st ≡ ended) × (at ls i ≡ []))
        ⊎ ((it : Item) × (its : List Item) × (rest : Bytes) × (at ls i ≡ it ∷ its)
            × (i < length ls)
            × IsSorted (it ∷ its)
            × (next hooks i st
                ≡ got
                    (record { item = it; idx = i })
                    (record { rests = set st.rests i rest; run_ids = some ids }))
            × Stock hooks ids (set st.rests i rest) (set ls i its))
  next-Stock i st ls h a = elim (Stock-at st.rests ls i h) [
    | inl (e, k) ↦ inl (unfold next in rw (next, e) refl, k)
    | inr (s, e, k, v, w, put) ↦ elim (next-Holds i st s (at ls i) e v a) [
      | inl out ↦ inl out
      | inr (it, its, rest, q, v', n) ↦
          let w' : IsSorted (it ∷ its) = rw q at w in
          inr (it, its, rest, q, k, w', n, put rest its v' w'.1)
    ]
  ]
