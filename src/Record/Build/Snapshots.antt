-- ===== src/Record/Build/Snapshots.antt =====
-- internal/recordbuild/recordbuild.go and internal/program/record.go: a condition's snapshot slot.
use mathlib.Core.Option.{some-injective}
use bpf_ninja.Base.{
  ℕ, suc, ◌*◌, ◌%◌, ◌^◌, ◌<◌, ◌≤◌, ◌≡◌, refl, sym, ap, ◌∙◌, Bool, true, false, ◌&&◌, ==_iff, inl,
  inr, Option, none, some, List, [], ◌∷◌, length, get_elem?, Bool-cases, Bytes, arith,
}
use bpf_ninja.Record.Layout.{Field, Layout, same_place, field_index, bool_eq}
use bpf_ninja.Record.Build.{built, build_filter, arg_field, key_field}
use bpf_ninja.Record.Build.Slots.{field_index-cons, later, build_filter-field_index}
use bpf_ninja.Record.Build.Found.{Found, build_filter-Found, build_filter-Found_key}
use bpf_ninja.Filter.Types.{ArgFilter, SetKeyField, SetFilter, TargetFilters}
use bpf_ninja.Program.{snap_off}

-- The field stands at this place.
pub record Stands (f : Field) (index : ℕ) (deref pointer : Bool) (offset size : ℕ) (signed : Bool)
    : Type 0 where
  pub index_is : f.param_index ≡ index
  pub deref_is : f.deref ≡ deref
  pub pointer_is : f.pointer ≡ pointer
  pub offset_is : f.offset ≡ offset
  pub size_is : f.size ≡ size
  pub signed_is : f.signed ≡ signed

-- The offset that `snap_off` gives for a place is that of a slot whose field stands at this place.
pub record IsRecorded (l : Layout) (index : ℕ) (deref pointer : Bool) (offset size : ℕ)
    (signed : Bool) : Type 0 where
  pub slot : ℕ
  pub field : Field
  pub off_is : snap_off (some l) index deref pointer offset size signed ≡ some (8 * slot)
  pub low : slot < 32
  pub holds : get_elem? l.fields slot ≡ some field
  pub stands : Stands field index deref pointer offset size signed

-- A field's name is not looked at.
field_index-renamed :
    (name : Bytes) (f : Field) (fields : List Field)
    → field_index (record f { name = name }) fields ≡ field_index f fields
unfolding field_index same_place
field_index-renamed name f [] = refl
field_index-renamed name f (h ∷ fields) = rw (field_index-renamed name f fields) refl

later-some : (o : Option ℕ) (i : ℕ) → later o ≡ some i → (j : ℕ) × (o ≡ some j) × (i ≡ suc j)
unfolding later
later-some none i e = cc
later-some (some j) i e = (j, refl, cc)

-- The field at the index that is found stands at the place that was looked for.
field_index-same_place :
    (f : Field) (fields : List Field) (i : ℕ)
    → field_index f fields ≡ some i
    → (g : Field) × (get_elem? fields i ≡ some g) × (same_place g f ≡ true) × (i < length fields)
field_index-same_place f [] i e = absurd (unfold field_index in cc e)
field_index-same_place f (h ∷ fields) i e = elim (Bool-cases (same_place h f)) [
  | inl p ↦ here p (rw p at (sym (field_index-cons f h fields) ∙ e))
  | inr p ↦
      there (later-some (field_index f fields) i (rw p at (sym (field_index-cons f h fields) ∙ e)))
        (field_index-same_place f fields)
]
  where
    Goal : Type 0
    Goal =
        (g : Field) × (get_elem? (h ∷ fields) i ≡ some g)
        × (same_place g f ≡ true)
        × (i < length (h ∷ fields))

    here : same_place h f ≡ true → some 0 ≡ some i → Goal
    here p q = let z : i ≡ 0 = sym (some-injective 0 i q) in rw z (h, refl, p, omega arith)

    there :
        (j : ℕ) × (field_index f fields ≡ some j) × (i ≡ suc j)
        → ((j : ℕ)
            → field_index f fields ≡ some j
            → (g : Field) × (get_elem? fields j ≡ some g)
              × (same_place g f ≡ true)
              × (j < length fields))
        → Goal
    there (j, q, r) rest = let (g, a, b, c) = rest j q in rw r (g, a, b, omega (arith, c))

bool_eq-eq : (a b : Bool) → bool_eq a b ≡ true → a ≡ b
unfolding bool_eq
bool_eq-eq true b e = sym e
bool_eq-eq false true e = cc
bool_eq-eq false false e = refl

and_both : (a b : Bool) → (a && b) ≡ true → (a ≡ true) × (b ≡ true)
and_both true b e = (refl, e)
and_both false b e = cc

same_place-Stands :
    (f g : Field)
    → same_place f g ≡ true
    → Stands f g.param_index g.deref g.pointer g.offset g.size g.signed
unfolding same_place
same_place-Stands f g e =
    let (index, e1) = and_both _ _ e in
    let (deref, e2) = and_both _ _ e1 in
    let (pointer, e3) = and_both _ _ e2 in
    let (offset, e4) = and_both _ _ e3 in
    let (size, signed) = and_both _ _ e4 in
    record {
      index_is = (==_iff _ _).0 index;
      deref_is = bool_eq-eq _ _ deref;
      pointer_is = bool_eq-eq _ _ pointer;
      offset_is = (==_iff _ _).0 offset;
      size_is = (==_iff _ _).0 size;
      signed_is = bool_eq-eq _ _ signed;
    }

-- A field that has a slot is recorded there.
Found-IsRecorded :
    (l : Layout) (f : Field)
    → length l.fields ≤ 32
    → Found f l.fields
    → IsRecorded l f.param_index f.deref f.pointer f.offset f.size f.signed
unfolding snap_off
Found-IsRecorded l f short (i, e) =
    let (g, at, same, low) = field_index-same_place f l.fields i e in
    record {
      slot = i;
      field = g;
      off_is =
          rw (field_index-renamed [] f l.fields, e)
            (ap some (let z : 8 * i % 2 ^ 16 ≡ 8 * i = omega (arith, low, short) in z));
      low = omega (arith, low, short);
      holds = at;
      stands = same_place-Stands g f same;
    }

-- Every argument filter that does not go through a `bpf_*` struct has a snapshot slot: `snap_off`
-- finds it by the filter's own argument, member and type, at the offset of a field of the layout
-- that stands for just these.
pub build_filter-snap_off :
    (tf : TargetFilters) (explicit : Bool) (l : Layout) (i : ℕ) (a : ArgFilter)
    → build_filter tf explicit ≡ built l
    → get_elem? tf.args i ≡ some a
    → a.through_opaque ≡ false
    → IsRecorded l a.param_index a.deref a.pointer a.offset a.param_size a.signed
unfolding arg_field
build_filter-snap_off tf explicit l i a e m o =
    Found-IsRecorded l (arg_field a) (build_filter-field_index tf explicit l e).0.1
      (build_filter-Found tf explicit l i a e m o)

-- Every field of a set's key that does not go through a `bpf_*` struct has a snapshot slot too, found
-- by its own argument, member and type.
pub build_filter-snap_off_key :
    (tf : TargetFilters) (explicit : Bool) (l : Layout) (i j : ℕ) (s : SetFilter) (k : SetKeyField)
    → build_filter tf explicit ≡ built l
    → get_elem? tf.sets i ≡ some s
    → get_elem? s.fields j ≡ some k
    → k.through_opaque ≡ false
    → IsRecorded l k.param_idx k.deref false k.offset k.param_size k.param_signed
unfolding key_field
build_filter-snap_off_key tf explicit l i j s k e m n o =
    Found-IsRecorded l (key_field k) (build_filter-field_index tf explicit l e).0.1
      (build_filter-Found_key tf explicit l i j s k e m n o)
