-- ===== src/Capture/Ring/Deliver.antt =====
-- `ReadBatch` of internal/capture/fastrb/reader.go against what the kernel laid into the ring.
use bpf_ninja.Base.{
  ℕ, zero, suc, ◌+◌, ◌-◌, ◌%◌, ◌^◌, ◌<◌, ◌≤◌, ◌≡◌, refl, ap, ◌∙◌, Bool, true, false, List, [], ◌∷◌,
  ◌++◌, ltb, leb, if◌then◌else◌, Bytes, length, arith, length-append, inl, inr, Bool-cases, map,
}
use native.Mathlib.Nat.{mod-lt}
use bpf_ninja.Capture.Ring.{
  Reader, done, load_u32, word_of, is_busy, is_discard, data_len, u64, align, slice_onto, read_loop,
  read_batch, after_batch, publish,
}
use bpf_ninja.Capture.Ring.Circular.{byte_at, bytes_at, load_u32-double, slice-double}

-- A record that the kernel reserved: still being written, or thrown away, or neither.
pub record Entry : Type 0 where
  pub busy : Bool
  pub discard : Bool
  pub payload : Bytes

-- Its length word.
abbrev pub header : Entry → ℕ
header e = length e.payload + (if e.discard then 2 ^ 30 else 0) + (if e.busy then 2 ^ 31 else 0)

-- The position behind an entry at `p`.
abbrev pub behind : ℕ → Entry → ℕ
behind p e = p + 8 + align (length e.payload)

-- From position `p` to `stop` the circular memory holds the entries, one behind the other.
abbrev pub Laid : Bytes → ℕ → List Entry → ℕ → Type 0
Laid pages p [] stop = p ≡ stop
Laid pages p (e ∷ es) stop =
    (length e.payload < 2 ^ 30)
    × (length e.payload ≤ length pages)
    × (word_of (λ i. byte_at pages (p + i)) ≡ header e)
    × (bytes_at pages (p + 8) (length e.payload) ≡ e.payload)
    × Laid pages (behind p e) es stop

-- What a batch has to deliver: the payloads up to the first busy entry, without the discarded ones.
abbrev pub deliver : List Entry → List Bytes
deliver [] = []
deliver (e ∷ es) = if e.busy then [] else if e.discard then deliver es else e.payload ∷ deliver es

-- Where the batch stops.
abbrev pub consumed : ℕ → List Entry → ℕ
consumed p [] = p
consumed p (e ∷ es) = if e.busy then p else consumed (behind p e) es

header_fields :
    (e : Entry)
    → length e.payload < 2 ^ 30
    → (is_busy (header e) ≡ e.busy)
      × (is_discard (header e) ≡ e.discard)
      × (data_len (header e) ≡ length e.payload)
header_fields e h = ground arith

Laid-le : (pages : Bytes) (p : ℕ) (es : List Entry) (stop : ℕ) → Laid pages p es stop → p ≤ stop
Laid-le pages p [] stop h = omega arith
Laid-le pages p (e ∷ es) stop h = omega (arith, Laid-le pages (behind p e) es stop h.4)

-- A reader of the doubled pages.
abbrev pub doubled : Bytes → ℕ → ℕ → Reader
doubled pages cons prod = record {
  ring = pages ++ pages;
  ring_size = length pages;
  cons_pos = cons;
  prod_pos = prod;
}

slice_onto-double :
    (pages : Bytes) (q len : ℕ) (records : List Bytes) (pos : ℕ)
    → 0 < length pages
    → len ≤ length pages
    → slice_onto (pages ++ pages) (q % length pages) len (done records pos)
      ≡ done (bytes_at pages q len ∷ records) pos
unfolding slice_onto
slice_onto-double pages q len records pos h k =
    rw within (ap (λ r. done (r ∷ records) pos) (slice-double pages q len h k))
  where
    within : leb (q % length pages + len) (length (pages ++ pages)) ≡ true
    within = ground (arith, length-append pages pages, mod-lt q {m = length pages} h)

module _ (pages : Bytes) (c stop : ℕ) (large : 3 < length pages) (room : stop + 2 ^ 31 ≤ u64) where
  read_loop-end : (fuel : ℕ) → read_loop fuel (doubled pages c stop) stop ≡ done [] stop
  unfolding read_loop
  read_loop-end zero = ground arith
  read_loop-end (suc fuel) = ground arith

  -- One round at an entry, with what the rest of the batch gives.
  read_loop-entry :
      (fuel p : ℕ) (e : Entry) (records : List Bytes) (pos : ℕ)
      → p + 8 + align (length e.payload) ≤ stop
      → length e.payload < 2 ^ 30
      → length e.payload ≤ length pages
      → word_of (λ i. byte_at pages (p + i)) ≡ header e
      → bytes_at pages (p + 8) (length e.payload) ≡ e.payload
      → read_loop fuel (doubled pages c stop) (behind p e) ≡ done records pos
      → read_loop (suc fuel) (doubled pages c stop) p ≡ (
          if e.busy
          then done [] p
          else if e.discard
          then done records pos
          else done (e.payload ∷ records) pos)
  unfolding read_loop
  read_loop-entry fuel p e records pos before short fits word payload later =
      rw (word_is, fields.0, fields.1, fields.2, ahead, start, forward, later)
        (ap (λ b. if e.busy then done [] p else if e.discard then done records pos else b)
          (slice_onto-double pages (p + 8) (length e.payload) records pos (omega arith) fits
            ∙ ap (λ r. done (r ∷ records) pos) payload))
    where
      word_is : load_u32 (pages ++ pages) (p % length pages) ≡ header e
      word_is = load_u32-double pages p (omega arith) ∙ word

      fields :
          (is_busy (header e) ≡ e.busy)
          × (is_discard (header e) ≡ e.discard)
          × (data_len (header e) ≡ length e.payload)
      fields = header_fields e short

      ahead : ltb p stop ≡ true
      ahead = ground arith

      start : (p + 8) % u64 ≡ p + 8
      start = omega arith

      forward : (p + 8 + align (length e.payload)) % u64 ≡ behind p e
      forward = omega arith

  read_loop-deliver :
      (fuel p : ℕ) (es : List Entry)
      → Laid pages p es stop
      → stop ≤ p + fuel
      → read_loop fuel (doubled pages c stop) p ≡ done (deliver es) (consumed p es)
  read_loop-deliver fuel p [] laid enough = rw laid (read_loop-end fuel)
  read_loop-deliver zero p (e ∷ es) laid enough =
      absurd (omega (arith, Laid-le pages (behind p e) es stop laid.4))
  read_loop-deliver (suc fuel) p (e ∷ es) laid enough =
      read_loop-entry fuel p e (deliver es) (consumed (behind p e) es)
        (Laid-le pages (behind p e) es stop laid.4) laid.0 laid.1 laid.2 laid.3
        (read_loop-deliver fuel (behind p e) es laid.4 (omega arith))
      ∙ split e.busy e.discard
    where
      split :
          (busy discard : Bool)
          → (if busy
              then done [] p
              else if discard
              then done (deliver es) (consumed (behind p e) es)
              else done (e.payload ∷ deliver es) (consumed (behind p e) es))
            ≡ done
                (if busy then [] else if discard then deliver es else e.payload ∷ deliver es)
                (if busy then p else consumed (behind p e) es)
      split true discard = refl
      split false true = refl
      split false false = refl

-- If a ring of more than three bytes, whose producer position is 2^31 or more below 2^64, holds the
-- entries `es` from the consumer to the producer position, then a batch
-- delivers the payloads of the entries before the first busy one, without the discarded ones and in
-- order, and the position that it publishes is that of the first busy entry, or the producer's. It
-- never reads outside the mapping, also where an entry runs over the end of the ring.
pub read_batch-deliver :
    (pages : Bytes) (cons prod : ℕ) (es : List Entry)
    → 3 < length pages
    → prod + 2 ^ 31 ≤ u64
    → Laid pages cons es prod
    → read_batch (doubled pages cons prod) ≡ done (deliver es) (consumed cons es)
unfolding read_batch
read_batch-deliver pages cons prod es large room laid =
    read_loop-deliver pages cons prod large room (prod - cons) cons es laid
      (omega (arith, Laid-le pages cons es prod laid))

-- What a batch leaves for the next one.
abbrev pub pending : List Entry → List Entry
pending [] = []
pending (e ∷ es) = if e.busy then e ∷ es else pending es

-- The kernel commits an entry by clearing the busy bit of its length word.
abbrev pub commit : Entry → Entry
commit e = record e { busy = false }

Laid-pending :
    (pages : Bytes) (p : ℕ) (es : List Entry) (stop : ℕ)
    → Laid pages p es stop
    → Laid pages (consumed p es) (pending es) stop
Laid-pending pages p [] stop laid = laid
Laid-pending pages p (e ∷ es) stop laid =
    split e.busy (Laid-pending pages (behind p e) es stop laid.4)
  where
    split :
        (busy : Bool)
        → Laid pages (consumed (behind p e) es) (pending es) stop
        → Laid pages
            (if busy then p else consumed (behind p e) es)
            (if busy then e ∷ es else pending es)
            stop
    split true ih = laid
    split false ih = ih

-- After a batch on a ring that holds the entries `es` the reader stands before the entries that it left, so that `read_batch-deliver`
-- holds of the next batch.
pub after_batch-Laid :
    (pages : Bytes) (cons prod : ℕ) (es : List Entry)
    → 3 < length pages
    → prod + 2 ^ 31 ≤ u64
    → Laid pages cons es prod
    → Laid pages (after_batch (doubled pages cons prod)).cons_pos (pending es) prod
unfolding after_batch
after_batch-Laid pages cons prod es large room laid =
    rw (read_batch-deliver pages cons prod es large room laid, publish)
      (Laid-pending pages cons es prod laid)

-- The two lists of payloads together.
deliver-pending :
    (es : List Entry) → deliver es ++ deliver (map commit (pending es)) ≡ deliver (map commit es)
deliver-pending [] = refl
deliver-pending (e ∷ es) = elim (Bool-cases e.busy) [
  | inl b ↦ rw b
  | inr b ↦ elim (Bool-cases e.discard) [
    | inl d ↦ rw (b, d) (deliver-pending es)
    | inr d ↦ rw (b, d) (ap (◌∷◌ e.payload) (deliver-pending es))
  ]
]

-- Once every entry is committed, a batch runs up to the producer.
consumed-commit :
    (pages : Bytes) (p : ℕ) (es : List Entry) (stop : ℕ)
    → Laid pages p (map commit es) stop
    → consumed p (map commit es) ≡ stop
consumed-commit pages p [] stop laid = laid
consumed-commit pages p (e ∷ es) stop laid = consumed-commit pages (behind p e) es stop laid.4

-- Nothing is lost and nothing comes twice: if the ring, of more than three bytes and with a producer
-- position 2^31 or more below 2^64, holds the entries `es`, and by the time of the next batch the
-- kernel has committed all entries that a batch left, then the two batches deliver together the
-- records of all entries that are not discarded, in order, and the second stops at the producer's
-- position.
pub read_batch_twice :
    (pages pages' : Bytes) (cons prod : ℕ) (es : List Entry)
    → 3 < length pages
    → 3 < length pages'
    → prod + 2 ^ 31 ≤ u64
    → Laid pages cons es prod
    → Laid pages' (consumed cons es) (map commit (pending es)) prod
    → (read_batch (doubled pages cons prod) ≡ done (deliver es) (consumed cons es))
      × (read_batch (doubled pages' (consumed cons es) prod)
          ≡ done (deliver (map commit (pending es))) prod)
      × (deliver es ++ deliver (map commit (pending es)) ≡ deliver (map commit es))
read_batch_twice pages pages' cons prod es h h' room laid laid' = (
  read_batch-deliver pages cons prod es h room laid,
  read_batch-deliver pages' (consumed cons es) prod (map commit (pending es)) h' room laid'
      ∙ ap (done (deliver (map commit (pending es))))
          (consumed-commit pages' (consumed cons es) (pending es) prod laid'),
  deliver-pending es,
)
