-- ===== src/Elab/Reg/Gaps/Fill.antt =====
-- After the gaps are filled every bit of the register is held, and nothing is held twice anew.
use systemrdl_toolkit.Base.{
  ℕ, zero, suc, ◌+◌, ◌<◌, ◌≡◌, refl, sym, ap, ◌∙◌, max, ◌&&◌, List, [], ◌∷◌, ◌++◌, append-nil,
  append_assoc, arith, ltb, leb, if◌then◌else◌, map,
}
use systemrdl_toolkit.Elab.Model.{
  Field, NodeInfo, RegInfo, Nodes, node, nil, cons, field, fields_of, add_child,
}
use systemrdl_toolkit.Elab.Reg.Gaps.{
  Gap, create_reserved_field, generate_reserved_field_name, fill_gaps, find_register_gaps,
  detect_and_fill_register_gaps,
}
use systemrdl_toolkit.Elab.Reg.Gaps.Coverage.{covering}
use systemrdl_toolkit.Elab.Reg.Gaps.Runs.{gap_count, find_register_gaps_exact}

-- the reserved field of a gap, in a register at `address`
abbrev pub reserved : ℕ → Gap → Field
reserved address gap =
    let f = create_reserved_field gap.msb gap.lsb (generate_reserved_field_name gap.msb gap.lsb) in
    record { info = record f.info { absolute_address = address }; field = f.field }

fields_of-add_child :
    (children : Nodes) (f : Field)
    → fields_of (add_child children (node f.info (field f.field) nil))
      ≡ fields_of children ++ f ∷ []
unfolding fields_of add_child
fields_of-add_child nil f = refl
fields_of-add_child (cons (node info (field g) ns) children) f =
    ap (◌∷◌ (record { info = info; field = g })) (fields_of-add_child children f)
fields_of-add_child (cons (node info _ ns) children) f = fields_of-add_child children f

fields_of-fill_gaps :
    (address : ℕ) (gaps : List Gap) (children : Nodes)
    → fields_of (fill_gaps address gaps children)
      ≡ fields_of children ++ map (reserved address) gaps
unfolding fill_gaps
fields_of-fill_gaps address [] children = sym (append-nil (fields_of children))
fields_of-fill_gaps address (gap ∷ gaps) children =
    fields_of-fill_gaps address gaps (add_child children (node _ (field _) nil))
    ∙ ap (λ fs. fs ++ map (reserved address) gaps)
        (fields_of-add_child children (reserved address gap))
    ∙ append_assoc (fields_of children) (reserved address gap ∷ []) (map (reserved address) gaps)

covering-append :
    (b : ℕ) (fs gs : List Field) → covering b (fs ++ gs) ≡ covering b fs + covering b gs
unfolding covering
covering-append b [] gs = omega arith
covering-append b (f ∷ fs) gs = omega (arith, covering-append b fs gs)

covering-reserved :
    (b address : ℕ) (gaps : List Gap) → covering b (map (reserved address) gaps) ≡ gap_count b gaps
unfolding covering gap_count create_reserved_field
covering-reserved b address [] = refl
covering-reserved b address (g ∷ gaps) =
    ap (λ n. (if leb g.lsb b && leb b g.msb then 1 else 0) + n) (covering-reserved b address gaps)

max-one : (n k : ℕ) → k ≡ (if ltb 0 n then 0 else 1) → n + k ≡ max 1 n
max-one zero k h = ground (arith, h)
max-one (suc n) k h = ground (arith, h)

-- Filling the gaps of a register keeps its fields and adds reserved fields behind them, one for
-- each gap. Every bit of the register is then held by some field, and by no more fields than
-- before if it was held already: a reserved field never overlaps a field or another reserved one.
pub detect_and_fill_register_gaps_full :
    (r : RegInfo) (info : NodeInfo) (children : Nodes)
    → let filled = fields_of (detect_and_fill_register_gaps r info children) in
      (filled
        ≡ fields_of children
          ++ map
              (reserved info.absolute_address)
              (find_register_gaps r.register_width (fields_of children)))
      × ((b : ℕ)
          → b < r.register_width
          → covering b filled ≡ max 1 (covering b (fields_of children)))
unfolding detect_and_fill_register_gaps
detect_and_fill_register_gaps_full r info children =
    let gaps = find_register_gaps r.register_width (fields_of children) in
    let same = fields_of-fill_gaps info.absolute_address gaps children in
    (
      same,
      λ b below.
          ap (covering b) same
          ∙ covering-append b (fields_of children) (map (reserved info.absolute_address) gaps)
          ∙ ap (λ n. covering b (fields_of children) + n)
              (covering-reserved b info.absolute_address gaps)
          ∙ max-one (covering b (fields_of children)) (gap_count b gaps)
              ((find_register_gaps_exact r.register_width (fields_of children)).0 b below),
    )
