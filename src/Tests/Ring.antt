-- ===== src/Tests/Ring.antt =====
-- internal/capture/fastrb on a ring of 64 bytes.
use bpf_ninja.Base.{
  ℕ, zero, suc, ◌≡◌, refl, true, false, List, [], ◌∷◌, ◌++◌, codes, Bytes, arith, map,
}
use bpf_ninja.Capture.Ring.{read_batch, after_batch, done}
use bpf_ninja.Capture.Ring.Deliver.{
  Entry, Laid, deliver, doubled, pending, commit, read_batch-deliver, after_batch-Laid,
  read_batch_twice,
}

abbrev zeros : ℕ → Bytes
zeros zero = []
zeros (suc n) = 0 ∷ zeros n

-- The record "abc", a record that was thrown away, and one that is still being written.
abbrev entries : List Entry
entries =
    record { busy = false; discard = false; payload = codes "abc" }
    ∷ record { busy = false; discard = true; payload = codes "x" }
    ∷ record { busy = true; discard = false; payload = codes "ok" }
    ∷ []

-- The ring with them, from offset 48 on and over its end; `state` is the last byte of the third
-- record's length word.
abbrev ring : ℕ → Bytes
ring state =
    (1 ∷ 0 ∷ 0 ∷ 64 ∷ 0 ∷ 0 ∷ 0 ∷ 0 ∷ b'x' ∷ zeros 7)
    ++ ((2 ∷ 0 ∷ 0 ∷ state ∷ 0 ∷ 0 ∷ 0 ∷ 0 ∷ b'o' ∷ b'k' ∷ zeros 6)
        ++ (zeros 16 ++ (3 ∷ 0 ∷ 0 ∷ 0 ∷ 0 ∷ 0 ∷ 0 ∷ 0 ∷ codes "abc" ++ zeros 5)))

entries-Laid : Laid (ring 128) 48 entries 96
entries-Laid = (
  omega arith,
  omega arith,
  refl,
  refl,
  (omega arith, omega arith, refl, refl, (omega arith, omega arith, refl, refl, refl)),
)

committed-Laid : Laid (ring 0) 80 (map commit (pending entries)) 96
committed-Laid = (omega arith, omega arith, refl, refl, refl)

read_batch-deliver_example : read_batch (doubled (ring 128) 48 96) ≡ done (codes "abc" ∷ []) 80
read_batch-deliver_example =
    read_batch-deliver (ring 128) 48 96 entries (omega arith) (omega arith) entries-Laid

after_batch-Laid_example :
    Laid (ring 128) (after_batch (doubled (ring 128) 48 96)).cons_pos (pending entries) 96
after_batch-Laid_example =
    after_batch-Laid (ring 128) 48 96 entries (omega arith) (omega arith) entries-Laid

read_batch_twice_example :
    (read_batch (doubled (ring 128) 48 96) ≡ done (codes "abc" ∷ []) 80)
    × (read_batch (doubled (ring 0) 80 96) ≡ done (codes "ok" ∷ []) 96)
    × (deliver entries ++ deliver (map commit (pending entries)) ≡ codes "abc" ∷ codes "ok" ∷ [])
read_batch_twice_example =
    read_batch_twice (ring 128) (ring 0) 48 96 entries (omega arith) (omega arith) (omega arith)
      entries-Laid committed-Laid
