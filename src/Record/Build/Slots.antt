-- ===== src/Record/Build/Slots.antt =====
-- internal/recordbuild/recordbuild.go: the slots of the fields of a filter block.
use mathlib.Core.Option.{some-injective}
use mathlib.Core.Path.{subst}
use bpf_ninja.Base.{
  ℕ, zero, suc, ◌≤◌, ◌<◌, ◌≡◌, refl, sym, ap, ◌⊎◌, ◌∙◌, Bool, true, false, Option, none, some, List,
  [], ◌∷◌, ◌++◌, ltb, if◌then◌else◌, length, get_elem?, arith, Bool-cases, Option-cases, inl, inr,
}
use bpf_ninja.Record.Layout.{Field, Layout, bool_eq, same_place, field_index, max_fields}
use bpf_ninja.Record.Build.{
  too_many_fields, built, nothing, refused, seen_place, add_field, add_args, add_keys, add_sets,
  filter_fields, checked_fields, build_filter, arg_field, key_field, omitted_error, omitted_fields,
}
use bpf_ninja.Filter.Types.{ArgFilter, SetKeyField, SetFilter, TargetFilters}

-- Every field is found at its own index.
abbrev pub OwnSlots : List Field → Type 0
OwnSlots fields = (i : ℕ) (f : Field) → get_elem? fields i ≡ some f → field_index f fields ≡ some i

bool_eq_refl : (b : Bool) → bool_eq b b ≡ true
unfolding bool_eq
bool_eq_refl false = refl
bool_eq_refl true = refl

same_place_refl : (f : Field) → same_place f f ≡ true
unfolding same_place
same_place_refl f =
    rw (bool_eq_refl f.deref, bool_eq_refl f.pointer, bool_eq_refl f.signed) (ground arith)

-- The index that the first element shifts.
unfoldable pub later : Option ℕ → Option ℕ
later none = none
later (some i) = some (suc i)

pub field_index-cons :
    (g h : Field) (fields : List Field)
    → field_index g (h ∷ fields) ≡ (if same_place h g then some 0 else later (field_index g fields))
unfolding field_index later
field_index-cons g h fields = refl

later-some : (o : Option ℕ) (i : ℕ) → later o ≡ some i → (j : ℕ) × ((o ≡ some j) × (i ≡ suc j))
unfolding later
later-some none i e = cc
later-some (some j) i e = (j, (refl, cc))

none≢some : {i : ℕ} → none ≡ some i → ⊥
none≢some e = cc

field_index-nil : (g : Field) → field_index g [] ≡ none
unfolding field_index
field_index-nil g = refl

pub field_index-append :
    (f g : Field) (fields : List Field) (i : ℕ)
    → field_index g fields ≡ some i
    → field_index g (fields ++ f ∷ []) ≡ some i
unfolding later
field_index-append f g [] i e = absurd (none≢some (sym (field_index-nil g) ∙ e))
field_index-append f g (h ∷ fields) i e =
    field_index-cons g h (fields ++ f ∷ []) ∙ elim (Bool-cases (same_place h g)) [
      | inl p ↦ rw p (sym (rw p at (field_index-cons g h fields)) ∙ e)
      | inr p ↦ rw p (
          go (field_index-append f g fields)
            (later-some (field_index g fields) i (sym (rw p at (field_index-cons g h fields)) ∙ e)))
    ]
  where
    go :
        ((j : ℕ) → field_index g fields ≡ some j → field_index g (fields ++ f ∷ []) ≡ some j)
        → (j : ℕ) × ((field_index g fields ≡ some j) × (i ≡ suc j))
        → later (field_index g (fields ++ f ∷ [])) ≡ some i
    go rest (j, (q, r)) = ap later (rest j q) ∙ ap some (sym r)

pub field_index-new :
    (f : Field) (fields : List Field)
    → seen_place f fields ≡ false
    → field_index f (fields ++ f ∷ []) ≡ some (length fields)
unfolding seen_place later
field_index-new f [] e = field_index-cons f f [] ∙ rw (same_place_refl f) refl
field_index-new f (h ∷ fields) e = elim (Bool-cases (same_place h f)) [
  | inl p ↦ cc (rw p at e)
  | inr p ↦
      field_index-cons f h (fields ++ f ∷ [])
      ∙ rw p (ap later (field_index-new f fields (rw p at e)))
]

get_elem?-snoc :
    (f g : Field) (fields : List Field) (i : ℕ)
    → get_elem? (fields ++ f ∷ []) i ≡ some g
    → (get_elem? fields i ≡ some g) ⊎ ((i ≡ length fields) × (f ≡ g))
get_elem?-snoc f g [] zero e = inr (refl, some-injective f g e)
get_elem?-snoc f g [] (suc i) e = cc
get_elem?-snoc f g (h ∷ fields) zero e = inl e
get_elem?-snoc f g (h ∷ fields) (suc i) e = elim (get_elem?-snoc f g fields i e) [
  | inl p ↦ inl p
  | inr (p, q) ↦ inr (ap suc p, q)
]

OwnSlots-snoc :
    (f : Field) (fields : List Field)
    → OwnSlots fields
    → seen_place f fields ≡ false
    → OwnSlots (fields ++ f ∷ [])
OwnSlots-snoc f fields own new i g e = elim (get_elem?-snoc f g fields i e) [
  | inl p ↦ field_index-append f g fields i (own i g p)
  | inr (p, q) ↦
      ap (λ x. field_index x (fields ++ f ∷ [])) (sym q)
      ∙ (field_index-new f fields new ∙ ap some (sym p))
]

add_field-OwnSlots :
    (f : Field) (fields : List Field) (opaque : Bool)
    → OwnSlots fields
    → OwnSlots (add_field fields f opaque)
unfolding add_field
add_field-OwnSlots f fields true own = own
add_field-OwnSlots f fields false own = elim (Bool-cases (seen_place f fields)) [
  | inl p ↦ subst OwnSlots (sym (kept p)) own
  | inr p ↦ subst OwnSlots (sym (grown p)) (OwnSlots-snoc f fields own p)
]
  where
    kept :
        seen_place f fields ≡ true
        → (if seen_place f fields then fields else fields ++ f ∷ []) ≡ fields
    kept p = rw p refl

    grown :
        seen_place f fields ≡ false
        → (if seen_place f fields then fields else fields ++ f ∷ []) ≡ fields ++ f ∷ []
    grown p = rw p refl

add_args-OwnSlots :
    (args : List ArgFilter) (fields : List Field)
    → OwnSlots fields
    → OwnSlots (add_args fields args)
unfolding add_args
add_args-OwnSlots [] fields own = own
add_args-OwnSlots (a ∷ args) fields own =
    add_args-OwnSlots args (add_field fields (arg_field a) a.through_opaque)
      (add_field-OwnSlots (arg_field a) fields a.through_opaque own)

add_keys-OwnSlots :
    (keys : List SetKeyField) (fields : List Field)
    → OwnSlots fields
    → OwnSlots (add_keys fields keys)
unfolding add_keys
add_keys-OwnSlots [] fields own = own
add_keys-OwnSlots (k ∷ keys) fields own =
    add_keys-OwnSlots keys (add_field fields (key_field k) k.through_opaque)
      (add_field-OwnSlots (key_field k) fields k.through_opaque own)

add_sets-OwnSlots :
    (sets : List SetFilter) (fields : List Field)
    → OwnSlots fields
    → OwnSlots (add_sets fields sets)
unfolding add_sets
add_sets-OwnSlots [] fields own = own
add_sets-OwnSlots (s ∷ sets) fields own =
    add_sets-OwnSlots sets (add_keys fields s.fields) (add_keys-OwnSlots s.fields fields own)

filter_fields-OwnSlots : (tf : TargetFilters) → OwnSlots (filter_fields tf)
unfolding filter_fields
filter_fields-OwnSlots tf =
    add_sets-OwnSlots tf.sets (add_args [] tf.args) (add_args-OwnSlots tf.args [] (λ i f e. cc))

built-injective : (l m : Layout) → built l ≡ built m → l ≡ m
built-injective l m e = cc

Slotted : List Field → Type 0
Slotted fields = ((0 < length fields) × (length fields ≤ max_fields)) × OwnSlots fields

checked_fields-Slotted :
    (explicit : Bool) (fields : List Field) (l : Layout)
    → OwnSlots fields
    → checked_fields explicit fields ≡ built l
    → Slotted l.fields
unfolding checked_fields Slotted
checked_fields-Slotted explicit [] l own e = cc
checked_fields-Slotted explicit (f ∷ fields) l own e =
    elim (Bool-cases (ltb max_fields (length (f ∷ fields)))) [
      | inl p ↦ no explicit (rw p at e)
      | inr p ↦
          subst Slotted (ap (λ x. x.fields) (built-injective _ l (rw p at e)))
            ((omega arith, ltb_not p), own)
    ]
  where
    no : (x : Bool) → (if x then refused too_many_fields else nothing) ≡ built l → Slotted l.fields
    no true e = cc
    no false e = cc

    ltb_not : ltb max_fields (length (f ∷ fields)) ≡ false → length (f ∷ fields) ≤ max_fields
    ltb_not p = ground arith

-- Every layout that `build_filter` gives has at least one field and at most 32, and each of its fields
-- is found by `field_index` at its own index: no two of them stand at one place.
pub build_filter-field_index :
    (tf : TargetFilters) (explicit : Bool) (l : Layout)
    → build_filter tf explicit ≡ built l
    → ((0 < length l.fields) × (length l.fields ≤ max_fields))
      × ((i : ℕ) (f : Field) → get_elem? l.fields i ≡ some f → field_index f l.fields ≡ some i)
unfolding build_filter Slotted
build_filter-field_index tf explicit l e =
    elim (Option-cases (omitted_error explicit (omitted_fields tf))) [
      | inl p ↦
          checked_fields-Slotted explicit (filter_fields tf) l (filter_fields-OwnSlots tf)
            (rw (p, build_filter) at e)
      | inr (why, p) ↦ cc (rw (p, build_filter) at e)
    ]
