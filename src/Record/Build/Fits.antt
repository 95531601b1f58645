-- ===== src/Record/Build/Fits.antt =====
-- internal/recordbuild/recordbuild.go with internal/record/decode.go: the comments of a layout that
-- `Build` accepts.
use bpf_ninja.Base.{
  ℕ, ◌+◌, ◌≤◌, ◌≡◌, ap, Bool, true, false, not, ◌&&◌, Option, none, some, List, [], ◌∷◌, ltb, ◌==◌,
  if◌then◌else◌, Bytes, codes, length, same_bytes, arith, Bool-cases, Option-cases, inl, inr,
}
use mathlib.Core.Path.{subst}
use bpf_ninja.Record.Types.{Ty}
use bpf_ninja.Record.Layout.{
  Mode, Scalar, Blob, Field, Layout, is_present, max_comment_bytes, max_bytes_limit,
}
use bpf_ninja.Record.Decode.{comment, append_comment, max_comment_len}
use bpf_ninja.Record.Decode.Bound.{append_comment-max_comment_len}
use bpf_ninja.Record.Build.{
  Built, built, nothing, refused, comment_too_long, too_many_fields, Options, fitting, build,
  build_mode, build_filter, build_entry, checked_fields, some_entry, take_params, take_param,
  take_info, info_site, info_status, no_entry, entry_bytes, a_layout, a_scalar, return_prefix_len,
  omitted_error, omitted_fields, filter_fields,
}
use bpf_ninja.Filter.Types.{TargetFilters, FuncParamInfo}

-- The site has a name of at most four bytes.
ShortSite : Layout → Type 0
ShortSite l = length l.site.name ≤ 4

built-injective : (l m : Layout) → built l ≡ built m → l ≡ m
built-injective l m e = cc

fitting-bound :
    (sizeof : Ty → Option ℕ) (explicit : Bool) (b : Built) (l : Layout)
    → fitting sizeof explicit b ≡ built l
    → (b ≡ built l) × (max_comment_len sizeof l + return_prefix_len ≤ max_comment_bytes)
unfolding fitting
fitting-bound sizeof explicit nothing l e = cc
fitting-bound sizeof explicit (refused why) l e = cc
fitting-bound sizeof explicit (built m) l e =
    elim (Bool-cases (ltb max_comment_bytes (max_comment_len sizeof m + return_prefix_len))) [
      | inl p ↦ no explicit (rw p at e)
      | inr p ↦ same (built-injective m l (rw p at e)) p
    ]
  where
    no :
        (x : Bool)
        → (if x then refused comment_too_long else nothing) ≡ built l
        → (built m ≡ built l) × (max_comment_len sizeof l + return_prefix_len ≤ max_comment_bytes)
    no true q = cc
    no false q = cc

    same :
        m ≡ l
        → ltb max_comment_bytes (max_comment_len sizeof m + return_prefix_len) ≡ false
        → (built m ≡ built l) × (max_comment_len sizeof l + return_prefix_len ≤ max_comment_bytes)
    same q p = (
      ap built q,
      subst (λ x. max_comment_len sizeof x + return_prefix_len ≤ max_comment_bytes) q
          (ground arith),
    )

short_if : (b : Bool) (l m : Layout) → ShortSite l → ShortSite m → ShortSite (if b then l else m)
short_if true l m h k = h
short_if false l m h k = k

short_site : (l : Layout) (s : Scalar) → length s.name ≤ 4 → ShortSite (record l { site = s })
unfolding ShortSite
short_site l s h = h

short_status : (l : Layout) (s : Scalar) → ShortSite l → ShortSite (record l { status = s })
unfolding ShortSite
short_status l s h = h

short_key : (l : Layout) (b : Blob) → ShortSite l → ShortSite (record l { key = b })
unfolding ShortSite
short_key l b h = h

short_value : (l : Layout) (b : Blob) → ShortSite l → ShortSite (record l { value = b })
unfolding ShortSite
short_value l b h = h

take_info-ShortSite : (l : Layout) (i : ℕ) → ShortSite l → ShortSite (take_info l i)
unfolding take_info info_site info_status a_scalar
take_info-ShortSite l i h =
    short_if _ _ _ (short_status (info_site l i) (a_scalar (codes "info") (some i) 8) sited) sited
  where
    sited : ShortSite (info_site l i)
    sited = short_if _ _ _ (short_site l (a_scalar (codes "info") (some i) 4) (omega arith)) h

take_param-ShortSite :
    (sizeof : Ty → Option ℕ) (n : ℕ) (l : Layout) (p : FuncParamInfo)
    → ShortSite l
    → ShortSite (take_param sizeof n l p)
unfolding take_param a_scalar
take_param-ShortSite sizeof n l p h =
    short_if (named (codes "site")) _ _
      (short_if (sized 4) _ _
        (short_site l (a_scalar (codes "site") (some p.index) 4) (omega arith)) h)
      (short_if (named (codes "info")) _ _
        (short_if (sized 8) _ _ (take_info-ShortSite l p.index h) h)
        (short_if (named (codes "status")) _ _
          (short_if (sized 8) _ _ (short_status l (a_scalar (codes "status") (some p.index) 8) h) h)
          (short_if (named (codes "key")) _ _ (short_key l (entry_bytes sizeof p n) h)
            (short_if (named (codes "value")) _ _ (short_value l (entry_bytes sizeof p n) h) h))))
  where
    named : Bytes → Bool
    named name = same_bytes p.name name

    sized : ℕ → Bool
    sized k = same_bytes p.kind [] && p.size == k

take_params-ShortSite :
    (sizeof : Ty → Option ℕ) (n : ℕ) (params : List FuncParamInfo) (l : Layout)
    → ShortSite l
    → ShortSite (take_params sizeof n l params)
unfolding take_params
take_params-ShortSite sizeof n [] l h = h
take_params-ShortSite sizeof n (p ∷ params) l h =
    take_params-ShortSite sizeof n params (take_param sizeof n l p)
      (take_param-ShortSite sizeof n l p h)

some_entry-ShortSite : (m l : Layout) → ShortSite m → some_entry m ≡ built l → ShortSite l
unfolding some_entry
some_entry-ShortSite m l h e = elim (Bool-cases gone) [
  | inl p ↦ cc (rw p at e)
  | inr p ↦ subst ShortSite (built-injective m l (rw p at e)) h
]
  where
    gone : Bool
    gone =
        not (is_present m.site.param_index)
        && (not (is_present m.status.param_index)
            && (not (is_present m.key.param_index) && not (is_present m.value.param_index)))

no_entry-ShortSite : ShortSite no_entry
unfolding no_entry ShortSite a_layout a_scalar
no_entry-ShortSite = omega arith

build_entry-ShortSite :
    (sizeof : Ty → Option ℕ) (params : List FuncParamInfo) (o : Option ℕ) (l : Layout)
    → build_entry sizeof params o ≡ built l
    → ShortSite l
unfolding build_entry
build_entry-ShortSite sizeof params none l e = cc
build_entry-ShortSite sizeof params (some n) l e = elim (Bool-cases (ltb max_bytes_limit n)) [
  | inl p ↦ cc (rw p at e)
  | inr p ↦
      some_entry-ShortSite (take_params sizeof n no_entry params) l
        (take_params-ShortSite sizeof n params no_entry no_entry-ShortSite) (rw p at e)
]

checked_fields-ShortSite :
    (explicit : Bool) (fields : List Field) (l : Layout)
    → checked_fields explicit fields ≡ built l
    → ShortSite l
unfolding checked_fields ShortSite a_layout a_scalar
checked_fields-ShortSite explicit [] l e = cc
checked_fields-ShortSite explicit (f ∷ fields) l e =
    elim (Bool-cases (ltb 32 (length (f ∷ fields)))) [
      | inl p ↦ no explicit (rw p at e)
      | inr p ↦ subst ShortSite (built-injective _ l (rw p at e)) (omega arith)
    ]
  where
    no :
        (x : Bool)
        → (if x then refused too_many_fields else nothing) ≡ built l
        → length l.site.name ≤ 4
    no true q = cc
    no false q = cc

build_filter-ShortSite :
    (tf : TargetFilters) (explicit : Bool) (l : Layout)
    → build_filter tf explicit ≡ built l
    → ShortSite l
unfolding build_filter
build_filter-ShortSite tf explicit l e =
    elim (Option-cases (omitted_error explicit (omitted_fields tf))) [
      | inl p ↦ checked_fields-ShortSite explicit (filter_fields tf) l (rw (p, build_filter) at e)
      | inr (why, p) ↦ cc (rw (p, build_filter) at e)
    ]

build_mode-bound :
    (sizeof : Ty → Option ℕ) (params : List FuncParamInfo) (tf : TargetFilters) (opt : Options)
    (m : Mode) (l : Layout)
    → build_mode sizeof params tf opt m ≡ built l
    → ShortSite l × (max_comment_len sizeof l + return_prefix_len ≤ max_comment_bytes)
unfolding build_mode
build_mode-bound sizeof params tf opt Mode.unset l e = cc
build_mode-bound sizeof params tf opt Mode.nothing l e = cc
build_mode-bound sizeof params tf opt (Mode.unknown s) l e = cc
build_mode-bound sizeof params tf opt Mode.filter l e =
    let p = fitting-bound sizeof opt.explicit (build_filter tf opt.explicit) l e in
    (build_filter-ShortSite tf opt.explicit l p.0, p.1)
build_mode-bound sizeof params tf opt Mode.entry l e =
    let p = fitting-bound sizeof opt.explicit (build_entry sizeof params opt.max_bytes) l e in
    (build_entry-ShortSite sizeof params opt.max_bytes l p.0, p.1)

-- Every layout that `build` accepts leaves room for the prefix.
pub build-max_comment_len :
    (sizeof : Ty → Option ℕ) (generated : Bool) (params : List FuncParamInfo) (tf : TargetFilters)
    (opt : Options) (l : Layout)
    → build sizeof generated params tf opt ≡ built l
    → (length l.site.name ≤ 4) × (max_comment_len sizeof l + return_prefix_len ≤ max_comment_bytes)
unfolding build ShortSite
build-max_comment_len sizeof generated params tf opt l e =
    elim (Bool-cases (not opt.explicit && not generated)) [
      | inl p ↦ cc (rw p at e)
      | inr p ↦ build_mode-bound sizeof params tf opt opt.mode l (rw p at e)
    ]

-- A comment of a block of a layout that `build` accepts is, with the prefix that tells the return
-- value, at most 65535 bytes long, whatever the block.
pub build-append_comment :
    (sizeof : Ty → Option ℕ) (generated : Bool) (params : List FuncParamInfo) (tf : TargetFilters)
    (opt : Options) (l : Layout) (b c : Bytes)
    → build sizeof generated params tf opt ≡ built l
    → append_comment sizeof l [] b ≡ comment c
    → length c + return_prefix_len ≤ max_comment_bytes
build-append_comment sizeof generated params tf opt l b c e r =
    let (h, n) = build-max_comment_len sizeof generated params tf opt l e in
    omega (arith, n, append_comment-max_comment_len sizeof l [] b c h r)
