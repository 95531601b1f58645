-- ===== src/Record/Build/Found.antt =====
-- internal/recordbuild/recordbuild.go: the slots of the conditions that a filter block records.
use mathlib.Core.Path.{subst}
use bpf_ninja.Base.{
  ℕ, zero, suc, ◌≡◌, refl, sym, ap, ◌∙◌, Bool, true, false, ◌||◌, inl, inr, some, List, [], ◌∷◌,
  ◌++◌, if◌then◌else◌, length, get_elem?, Bool-cases, Option-cases, ltb,
}
use mathlib.Core.Option.{some-injective}
use bpf_ninja.Record.Layout.{Field, Layout, same_place, field_index, max_fields}
use bpf_ninja.Record.Build.{
  built, nothing, refused, too_many_fields, seen_place, add_field, add_args, add_keys, add_sets,
  filter_fields, checked_fields, build_filter, arg_field, key_field, omitted_error, omitted_fields,
  a_layout,
}
use bpf_ninja.Record.Build.Slots.{field_index-append, field_index-cons, field_index-new, later}
use bpf_ninja.Filter.Types.{ArgFilter, SetKeyField, SetFilter, TargetFilters}

-- The field has a slot.
abbrev pub Found : Field → List Field → Type 0
Found f fields = (i : ℕ) × (field_index f fields ≡ some i)

seen_place-Found : (f : Field) (fields : List Field) → seen_place f fields ≡ true → Found f fields
unfolding seen_place later
seen_place-Found f [] e = cc
seen_place-Found f (h ∷ fields) e = elim (Bool-cases (same_place h f)) [
  | inl p ↦ (0, field_index-cons f h fields ∙ rw p refl)
  | inr p ↦ shift p (seen_place-Found f fields (rw p at e))
]
  where
    shift : same_place h f ≡ false → Found f fields → Found f (h ∷ fields)
    shift p (i, q) = (suc i, field_index-cons f h fields ∙ rw p (ap later q))

add_field-Found :
    (f g : Field) (fields : List Field) (opaque : Bool)
    → Found g fields
    → Found g (add_field fields f opaque)
unfolding add_field
add_field-Found f g fields opaque (i, e) = elim (Bool-cases (opaque || seen_place f fields)) [
  | inl p ↦ (i, rw p e)
  | inr p ↦ (i, rw p (field_index-append f g fields i e))
]

add_field-new : (f : Field) (fields : List Field) → Found f (add_field fields f false)
unfolding add_field
add_field-new f fields = elim (Bool-cases (seen_place f fields)) [
  | inl p ↦ kept p (seen_place-Found f fields p)
  | inr p ↦ (length fields, rw p (field_index-new f fields p))
]
  where
    kept :
        seen_place f fields ≡ true
        → Found f fields
        → Found f (if seen_place f fields then fields else fields ++ f ∷ [])
    kept p (i, e) = (i, rw p e)

add_args-Found :
    (g : Field) (args : List ArgFilter) (fields : List Field)
    → Found g fields
    → Found g (add_args fields args)
unfolding add_args
add_args-Found g [] fields h = h
add_args-Found g (a ∷ args) fields h =
    add_args-Found g args (add_field fields (arg_field a) a.through_opaque)
      (add_field-Found (arg_field a) g fields a.through_opaque h)

add_keys-Found :
    (g : Field) (keys : List SetKeyField) (fields : List Field)
    → Found g fields
    → Found g (add_keys fields keys)
unfolding add_keys
add_keys-Found g [] fields h = h
add_keys-Found g (k ∷ keys) fields h =
    add_keys-Found g keys (add_field fields (key_field k) k.through_opaque)
      (add_field-Found (key_field k) g fields k.through_opaque h)

add_sets-Found :
    (g : Field) (sets : List SetFilter) (fields : List Field)
    → Found g fields
    → Found g (add_sets fields sets)
unfolding add_sets
add_sets-Found g [] fields h = h
add_sets-Found g (s ∷ sets) fields h =
    add_sets-Found g sets (add_keys fields s.fields) (add_keys-Found g s.fields fields h)

added :
    (f : Field) (fields : List Field) (opaque : Bool)
    → opaque ≡ false
    → Found f (add_field fields f opaque)
added f fields true e = cc
added f fields false e = add_field-new f fields

add_args-arg :
    (args : List ArgFilter) (fields : List Field) (i : ℕ) (a : ArgFilter)
    → get_elem? args i ≡ some a
    → a.through_opaque ≡ false
    → Found (arg_field a) (add_args fields args)
unfolding add_args
add_args-arg [] fields i a e o = cc
add_args-arg (b ∷ args) fields zero a e o =
    subst (λ x. x.through_opaque ≡ false → Found (arg_field x) (add_args fields (b ∷ args)))
      (some-injective b a e)
      (λ p.
        add_args-Found (arg_field b) args (add_field fields (arg_field b) b.through_opaque)
          (added (arg_field b) fields b.through_opaque p))
      o
add_args-arg (b ∷ args) fields (suc i) a e o =
    add_args-arg args (add_field fields (arg_field b) b.through_opaque) i a e o

add_keys-key :
    (keys : List SetKeyField) (fields : List Field) (i : ℕ) (k : SetKeyField)
    → get_elem? keys i ≡ some k
    → k.through_opaque ≡ false
    → Found (key_field k) (add_keys fields keys)
unfolding add_keys
add_keys-key [] fields i k e o = cc
add_keys-key (b ∷ keys) fields zero k e o =
    subst (λ x. x.through_opaque ≡ false → Found (key_field x) (add_keys fields (b ∷ keys)))
      (some-injective b k e)
      (λ p.
        add_keys-Found (key_field b) keys (add_field fields (key_field b) b.through_opaque)
          (added (key_field b) fields b.through_opaque p))
      o
add_keys-key (b ∷ keys) fields (suc i) k e o =
    add_keys-key keys (add_field fields (key_field b) b.through_opaque) i k e o

add_sets-key :
    (sets : List SetFilter) (fields : List Field) (i j : ℕ) (s : SetFilter) (k : SetKeyField)
    → get_elem? sets i ≡ some s
    → get_elem? s.fields j ≡ some k
    → k.through_opaque ≡ false
    → Found (key_field k) (add_sets fields sets)
unfolding add_sets
add_sets-key [] fields i j s k e m o = cc
add_sets-key (t ∷ sets) fields zero j s k e m o =
    add_sets-Found (key_field k) sets (add_keys fields t.fields) (
      add_keys-key t.fields fields j k
        (subst (λ x. get_elem? x.fields j ≡ some k) (sym (some-injective t s e)) m) o)
add_sets-key (t ∷ sets) fields (suc i) j s k e m o =
    add_sets-key sets (add_keys fields t.fields) i j s k e m o

built-injective : (l m : Layout) → built l ≡ built m → l ≡ m
built-injective l m e = cc

checked_fields-fields :
    (explicit : Bool) (fields : List Field) (l : Layout)
    → checked_fields explicit fields ≡ built l
    → fields ≡ l.fields
unfolding checked_fields a_layout
checked_fields-fields explicit [] l e = cc
checked_fields-fields explicit (f ∷ fields) l e =
    elim (Bool-cases (ltb max_fields (length (f ∷ fields)))) [
      | inl p ↦ no explicit (rw p at e)
      | inr p ↦ ap (λ x. x.fields) (built-injective _ l (rw p at e))
    ]
  where
    no :
        (x : Bool)
        → (if x then refused too_many_fields else nothing) ≡ built l
        → f ∷ fields ≡ l.fields
    no true q = cc
    no false q = cc

build_filter-fields :
    (tf : TargetFilters) (explicit : Bool) (l : Layout)
    → build_filter tf explicit ≡ built l
    → filter_fields tf ≡ l.fields
unfolding build_filter
build_filter-fields tf explicit l e =
    elim (Option-cases (omitted_error explicit (omitted_fields tf))) [
      | inl p ↦ checked_fields-fields explicit (filter_fields tf) l (rw (p, build_filter) at e)
      | inr (why, p) ↦ cc (rw (p, build_filter) at e)
    ]

-- Every argument filter that does not go through a `bpf_*` struct has a slot in the layout
-- that `build_filter` gives: `field_index` finds it.
pub build_filter-Found :
    (tf : TargetFilters) (explicit : Bool) (l : Layout) (i : ℕ) (a : ArgFilter)
    → build_filter tf explicit ≡ built l
    → get_elem? tf.args i ≡ some a
    → a.through_opaque ≡ false
    → Found (arg_field a) l.fields
unfolding filter_fields
build_filter-Found tf explicit l i a e m o =
    subst (Found (arg_field a)) (build_filter-fields tf explicit l e)
      (add_sets-Found (arg_field a) tf.sets (add_args [] tf.args) (add_args-arg tf.args [] i a m o))

-- Every set key that does not go through a `bpf_*` struct has a slot there too, which `field_index`
-- finds.
pub build_filter-Found_key :
    (tf : TargetFilters) (explicit : Bool) (l : Layout) (i j : ℕ) (s : SetFilter) (k : SetKeyField)
    → build_filter tf explicit ≡ built l
    → get_elem? tf.sets i ≡ some s
    → get_elem? s.fields j ≡ some k
    → k.through_opaque ≡ false
    → Found (key_field k) l.fields
unfolding filter_fields
build_filter-Found_key tf explicit l i j s k e m n o =
    subst (Found (key_field k)) (build_filter-fields tf explicit l e)
      (add_sets-key tf.sets (add_args [] tf.args) i j s k m n o)
