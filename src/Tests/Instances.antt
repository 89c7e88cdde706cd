-- ===== src/Tests/Instances.antt =====
-- Trees of instances of the elaborator.
use systemrdl_toolkit.Base.{ℕ, ◌≡◌, refl, ◌↔◌, [], Bytes, codes, none, arith}
use systemrdl_toolkit.Elab.Model.{NodeInfo, Node, node, nil, cons, addrmap, regfile, reg}
use systemrdl_toolkit.Elab.Addr.{addressable_children, validate_instance_addresses}
use systemrdl_toolkit.Elab.Addr.Disjoint.{
  IsDisjoint, AllFit, Everywhere, validate_instance_addresses_iff,
}

abbrev placed_at : Bytes → ℕ → ℕ → NodeInfo
placed_at name address size = record {
  inst_name = name;
  type_name = codes "reg";
  absolute_address = address;
  size = size;
  source_ctx = none;
  array_dimensions = [];
  array_indices = [];
  properties = [];
}

abbrev reg32 : Bytes → ℕ → Node
reg32 name address =
    node (placed_at name address 4) (reg (record { register_width = 32; register_reset_hex = [] }))
      nil

-- an address map with a register, and a register file with two registers
abbrev chip : Node
chip = node (placed_at (codes "chip") 0 4) addrmap (
    cons (reg32 (codes "a") 0) (
      cons
        (node (placed_at (codes "file") 16 8) (regfile 0)
          (cons (reg32 (codes "b") 16) (cons (reg32 (codes "c") 20) nil)))
        nil))

chip_passes : validate_instance_addresses chip ≡ []
unfolding validate_instance_addresses
chip_passes = refl

chip_fits : Everywhere AllFit chip
unfolding Everywhere addressable_children
chip_fits = (
  (omega arith, (omega arith, tt)),
  (
    (λ h. absurd (cc h)),
    (
      (λ h. ((omega arith, (omega arith, tt)), ((λ e. absurd (cc e)), ((λ e. absurd (cc e)), tt)))),
      tt,
    ),
  ),
)

validate_instance_addresses_iff_example :
    (validate_instance_addresses chip ≡ []) ↔ Everywhere IsDisjoint chip
validate_instance_addresses_iff_example = validate_instance_addresses_iff chip chip_fits
