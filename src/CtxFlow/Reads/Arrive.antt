-- ===== src/CtxFlow/Reads/Arrive.antt =====
-- What `ArgReads` keeps when it arrives at instructions.
use bpf_ninja.Base.{
  ℕ, ◌≡◌, refl, arith, some, List, [], ◌∷◌, ◌==◌, Bool-cases, Option-cases, ◌⊎◌, inl, inr,
}
use bpf_ninja.CtxFlow.Insns.{RegSet, has, inter, same_set}
use bpf_ninja.CtxFlow.Reads.{lookup, Walk, arrive, arrive_all}
use bpf_ninja.CtxFlow.Reads.Sets.{Within, has-inter, &&-true, same_set-Within}

-- To be in a list of numbers.
abbrev pub In : ℕ → List ℕ → Type 0
In i [] = ⊥
In i (j ∷ l) = (j ≡ i) ⊎ In i l

-- What an arrival keeps: a set shrinks, and then its instruction is to be visited; so is a new one.
pub record Keeps (k k' : Walk) : Type 0 where
  pub shrinks :
      (j : ℕ) (w : RegSet)
      → lookup j k.written ≡ some w
      → (w' : RegSet) × (lookup j k'.written ≡ some w') × Within w' w
  pub queued : (j : ℕ) → In j k.work → In j k'.work
  pub fresh :
      (j : ℕ) (w : RegSet)
      → lookup j k'.written ≡ some w
      → In j k'.work ⊎ (lookup j k.written ≡ some w)

-- A set that is at most `w` stands at `s`.
abbrev pub Reached : RegSet → ℕ → Walk → Type 0
Reached w s k = (w' : RegSet) × (lookup s k.written ≡ some w') × Within w' w

Keeps-refl : (k : Walk) → Keeps k k
Keeps-refl k = record {
  shrinks = λ j w e. (w, e, λ r h. h);
  queued = λ j h. h;
  fresh = λ j w e. inr e;
}

Keeps-trans : (k l m : Walk) → Keeps k l → Keeps l m → Keeps k m
Keeps-trans k l m p q = record {
  shrinks = λ j w e.
      let (w', e', h) = p.shrinks j w e in
      let (w'', e'', h') = q.shrinks j w' e' in (w'', e'', λ r t. h r (h' r t));
  queued = λ j h. q.queued j (p.queued j h);
  fresh = λ j w e. elim (q.fresh j w e) [
    | inl h ↦ inl h
    | inr h ↦ elim (p.fresh j w h) [ inl t ↦ inl (q.queued j t) | inr t ↦ inr t ]
  ];
}

Within-inter_left : (s t : RegSet) → Within (inter s t) s
Within-inter_left s t r h = (&&-true (has s r) (has t r) (rw has-inter at h)).0

Within-inter_right : (s t : RegSet) → Within (inter s t) t
Within-inter_right s t r h = (&&-true (has s r) (has t r) (rw has-inter at h)).1

-- A set that stands in place of one that is no smaller, or where none stood.
replaced :
    (k : Walk) (s : ℕ) (w : RegSet)
    → ((v : RegSet) → lookup s k.written ≡ some v → Within w v)
    → Keeps k (record { written = (s, w) ∷ k.written; work = s ∷ k.work })
replaced k s w h = record {
  shrinks = λ j v e. elim (Bool-cases (s == j)) [
    | inl t ↦ let same : s ≡ j = ground (arith, t) in (w, rw t refl, h v (rw same e))
    | inr t ↦ (v, rw t e, λ r q. q)
  ];
  queued = λ j q. inr q;
  fresh = λ j v e. elim (Bool-cases (s == j)) [
    | inl t ↦ inl (inl (ground (arith, t)))
    | inr t ↦ inr (rw t at e)
  ];
}

pub arrive-Keeps :
    (w : RegSet) (s : ℕ) (k : Walk) → Keeps k (arrive w s k) × Reached w s (arrive w s k)
unfolding arrive
arrive-Keeps w s k = elim (Option-cases (lookup s k.written)) [
  | inl e ↦
      rw (arrive, e)
        (replaced k s w (λ v q. let bad = rw e at q in cc), (w, ground arith, λ r h. h))
  | inr (old, e) ↦ elim (Bool-cases (same_set (inter w old) old)) [
    | inl t ↦ rw (arrive, e, t) (Keeps-refl k, (old, e, same_set-Within w old t))
    | inr t ↦
        rw (arrive, e, t)
          (
            replaced k s (inter w old) (λ v q.
                let same : old ≡ v = ground (arith, e, q) in
                rw (← same) (Within-inter_right w old)),
            (inter w old, ground arith, Within-inter_left w old),
          )
  ]
]

pub arrive_all-Keeps :
    (w : RegSet) (l : List ℕ) (k : Walk)
    → Keeps k (arrive_all w l k) × ((s : ℕ) → In s l → Reached w s (arrive_all w l k))
unfolding arrive_all
arrive_all-Keeps w [] k = (Keeps-refl k, λ s h. absurd h)
arrive_all-Keeps w (s ∷ l) k =
    let (first, there) = arrive-Keeps w s k in
    let (rest, all) = arrive_all-Keeps w l (arrive w s k) in
    (
      Keeps-trans k (arrive w s k) (arrive_all w l (arrive w s k)) first rest,
      λ t h. elim h [
        | inl e ↦
            let (v, q, small) = there in
            let (v', q', small') = rest.shrinks s v q in
            rw (← e) (v', q', λ r p. small r (small' r p))
        | inr h' ↦ all t h'
      ],
    )
