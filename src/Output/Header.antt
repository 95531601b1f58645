-- ===== src/Output/Header.antt =====
-- internal/output/fastpcapng.go: the blocks in front of the packets.
use bpf_ninja.Base.{
  ℕ, ◌+◌, ◌^◌, ◌-◌, ◌||◌, Option, none, some, [], ◌∷◌, ◌++◌, Bytes, ltb, if◌then◌else◌, length,
}
use bpf_ninja.Output.Fields.{le_bytes, pad4}
use bpf_ninja.Output.Epb.{padded}

abbrev pub shb_type : ℕ
shb_type = 168627466

abbrev pub byte_order_magic : ℕ
byte_order_magic = 439041101

-- `writeSHB`
unfoldable pub write_shb : Bytes
write_shb =
    le_bytes 4 shb_type
    ++ (le_bytes 4 28
        ++ (le_bytes 4 byte_order_magic
            ++ (le_bytes 2 1 ++ (le_bytes 2 0 ++ (le_bytes 8 (2 ^ 64 - 1) ++ le_bytes 4 28)))))

-- The size of an option with a text, which an empty text does not have.
unfoldable pub text_option_size : Bytes → ℕ
text_option_size [] = 0
text_option_size text = 4 + pad4 (length text)

unfoldable pub text_option : ℕ → Bytes → Bytes
unfolding padded
text_option code [] = []
text_option code text = le_bytes 2 code ++ (le_bytes 2 (length text) ++ padded text)

unfoldable pub idb_of : ℕ → Bytes → Bytes → ℕ → Bytes
unfolding text_option
idb_of link_type name description total =
    (le_bytes 4 1 ++ (le_bytes 4 total ++ (le_bytes 2 link_type ++ (le_bytes 2 0 ++ le_bytes 4 0))))
    ++ (text_option 2 name
        ++ (text_option 3 description
            ++ ((le_bytes 2 9
                  ++ (le_bytes 2 1 ++ (9 ∷ 0 ∷ 0 ∷ 0 ∷ []))
                  ++ (le_bytes 2 0 ++ le_bytes 2 0))
                ++ le_bytes 4 total)))

-- `writeIDBDescription`; `none` is a text that no option holds.
unfoldable pub write_idb_description : ℕ → Bytes → Bytes → Option Bytes
unfolding idb_of text_option_size
write_idb_description link_type name description =
    if ltb 65535 (length name) || ltb 65535 (length description)
    then none
    else some (
        idb_of link_type name description
          (32 + text_option_size name + text_option_size description))
