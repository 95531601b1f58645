-- ===== src/Kunai/Parser/Layers/Sound.antt =====
-- The layers that pkg/kunai/parser/layer.go reads.
use bpf_ninja.Base.{
  Every, ℕ, inl, inr, zero, suc, ◌+◌, ◌-◌, ◌<◌, ◌≢◌, refl, arith, Bool, List, [], ◌∷◌, Bytes, leb,
  Bool-cases,
}
use bpf_ninja.Kunai.Ast.{Quant, Layer, group, nil}
use bpf_ninja.Kunai.Lexer.Token.{TokenKind}
use bpf_ninja.Kunai.Parser.State.{Parser, P, Complaint, at_kind}
use bpf_ninja.Kunai.Parser.State.Reach.{
  Context, left, IsGood, Reaches, Reaches-loose, Reaches-pure, Reaches-after, Reaches-strict,
  Reaches-if, complaint-Reaches, Parses,
}
use bpf_ninja.Kunai.Parser.State.Progress.{
  expect-Reaches, separated-Reaches, separated_some-Reaches,
}
use bpf_ninja.Kunai.Parser.WellFormed.{IsLayer, IsLayers, HasTwo}
use bpf_ninja.Kunai.Parser.Layers.Leaves.{maybe_quant-Reaches, no_quant-Reaches, proto_leaf-Reaches}
use bpf_ninja.Kunai.Parser.Layers.{
  max_alt_depth, layers_of, enter_alt, leave_alt, alt_group, layer_atom, layer_item, layer_chain,
}

layers_of-IsLayers :
    (r : Bytes → Bool) (d : ℕ) (ls : List Layer)
    → Every (IsLayer r d) ls
    → IsLayers r d (layers_of ls)
unfolding layers_of IsLayers
layers_of-IsLayers r d [] v = tt
layers_of-IsLayers r d (l ∷ ls) v = (v.0, layers_of-IsLayers r d ls v.1)

layers_of-HasTwo : (l : Layer) (ls : List Layer) → ls ≢ [] → HasTwo (layers_of (l ∷ ls))
unfolding layers_of
layers_of-HasTwo l [] h = absurd (h refl)
layers_of-HasTwo l (m ∷ ls) h = tt

-- The context inside an alternation.
abbrev inner : Context → Context
inner c = record c { depth = suc c.depth }

module _ (c : Context) where
  enter_alt-Reaches :
      (p : Parser)
      → IsGood c p
      → Reaches (inner c) (suc (left p)) (λ _. c.depth < max_alt_depth) (enter_alt p)
  unfolding enter_alt
  enter_alt-Reaches p g =
      Reaches-if (leb max_alt_depth p.depth) (λ _. complaint-Reaches Complaint.groups_too_deep p)
        (λ e. record { holds = (ground (arith, e, g.at_depth), deeper, omega arith) })
    where
      deeper : IsGood (inner c) (record p { depth = p.depth + 1 })
      deeper = record {
        solid = g.solid;
        room = g.room;
        loaded = g.loaded;
        at_depth = omega (arith, g.at_depth);
        same_reserved = g.same_reserved;
        same_src = g.same_src;
      }

  leave_alt-Reaches :
      (p : Parser) → IsGood (inner c) p → Reaches c (suc (left p)) (λ _. Unit {0}) (leave_alt p)
  unfolding leave_alt
  leave_alt-Reaches p g =
      Reaches-pure tt (record p { depth = p.depth - 1 }) tt
        (record {
          solid = g.solid;
          room = g.room;
          loaded = g.loaded;
          at_depth = omega (arith, g.at_depth);
          same_reserved = g.same_reserved;
          same_src = g.same_src;
        })

  -- An alternation, whose branches stand one level deeper.
  alt_group-Reaches :
      (item : P Layer) (f : ℕ)
      → Parses (inner c) f (IsLayer c.reserved (suc c.depth)) item
      → (p : Parser) → IsGood c p
      → left p < suc f
      → Reaches c (left p) (IsLayer c.reserved c.depth) (alt_group item (suc f) p)
  unfolding alt_group IsLayer
  alt_group-Reaches item f h p g l = Reaches-strict (enter_alt-Reaches p g) (λ _ q d gq lq.
      Reaches-after (expect-Reaches (inner c) q gq TokenKind.lparen refl) (λ open_tok r _ gr lr.
        Reaches-loose (
          Reaches-after (h r gr (omega arith)) (λ first s vf gs ls.
            elim (Bool-cases (at_kind TokenKind.pipe s)) [
              | inl e ↦ rw e (
                  Reaches-loose (
                    Reaches-after
                      (separated_some-Reaches TokenKind.pipe refl h (suc f) s gs (omega arith)
                        (omega arith) e)
                      (λ rest t vr gt lt. Reaches-loose (
                        Reaches-after (expect-Reaches (inner c) t gt TokenKind.rparen refl)
                          (λ _ u _ gu lu. Reaches-after (leave_alt-Reaches u gu) (λ _ v _ gv lv.
                            Reaches-pure (group (layers_of (first ∷ rest)) Quant.one open_tok.pos) v
                              (
                                d,
                                layers_of-HasTwo first rest vr.1,
                                layers_of-IsLayers c.reserved (suc c.depth) (first ∷ rest)
                                    (vf, vr.0),
                                tt,
                              )
                              gv))))))
              | inr e ↦ rw e (record { holds = λ e. cc })
            ]))))

  layer_atom-Reaches :
      (item : P Layer) (f : ℕ)
      → Parses (inner c) f (IsLayer c.reserved (suc c.depth)) item
      → (p : Parser) → IsGood c p
      → left p < suc f
      → Reaches c (left p) (IsLayer c.reserved c.depth) (layer_atom item (suc f) p)
  unfolding layer_atom
  layer_atom-Reaches item f h p g l =
      Reaches-if (at_kind TokenKind.ident p) (λ _. proto_leaf-Reaches c (suc f) p g l)
        (λ _.
          Reaches-if (at_kind TokenKind.lparen p) (λ _. alt_group-Reaches item f h p g l)
            (λ _. complaint-Reaches Complaint.expected_layer p))

layer_item-Parses : (c : Context) (f : ℕ) → Parses c f (IsLayer c.reserved c.depth) (layer_item f)
unfolding layer_item
layer_item-Parses c zero p g l = absurd (omega arith)
layer_item-Parses c (suc f) p g l =
    Reaches-after (layer_atom-Reaches c (layer_item f) f (layer_item-Parses (inner c) f) p g l)
      (λ atom q va gq lq. Reaches-after (maybe_quant-Reaches c atom q va gq) (λ layer r vl gr lr.
        Reaches-after (no_quant-Reaches c r gr) (λ _ s _ gs ls. Reaches-pure layer s vl gs)))

-- A chain of layers.
pub layer_chain-Parses :
    (c : Context) (f : ℕ)
    → Parses c f (λ ls. (ls ≢ nil) × IsLayers c.reserved c.depth ls) (layer_chain f)
unfolding layer_chain layers_of
layer_chain-Parses c f p g l = Reaches-after (layer_item-Parses c f p g l) (λ first q vf gq lq.
    Reaches-after
      (separated-Reaches TokenKind.slash refl (layer_item-Parses c f) f q gq (omega arith)
        (omega arith))
      (λ rest r vr gr lr.
        Reaches-pure (layers_of (first ∷ rest)) r
          ((λ x. cc), layers_of-IsLayers c.reserved c.depth (first ∷ rest) (vf, vr)) gr))
