-- ===== src/Tests/Nodes.antt =====
-- Searches, sizes and the address map of the elaborator.
use systemrdl_toolkit.Base.{
  ℕ, ◌+◌, ◌-◌, ◌≡◌, ◌⊎◌, refl, ◌↔◌, [], ◌∷◌, Bytes, codes, none, some, Bool, arith, map,
}
use systemrdl_toolkit.Elab.Model.{
  NodeInfo, Node, Nodes, node, nil, cons, addrmap, reg, MemInfo, word, get_property,
}
use systemrdl_toolkit.Elab.Ranges.{count_if}
use systemrdl_toolkit.Elab.Addr.{check_instance_address_overlaps}
use systemrdl_toolkit.Elab.Lookup.{find_child_by_address}
use systemrdl_toolkit.Elab.Lookup.Unique.{IsAt, AreInstances, find_child_by_address_iff}
use systemrdl_toolkit.Elab.NodeSize.{
  calculate_regfile_size, calculate_memory_size, memory_size_of, resolve_parameter_reference,
}
use systemrdl_toolkit.Elab.NodeSize.Extent.{LieFrom, EndBy, IsReached, calculate_regfile_size_least}
use systemrdl_toolkit.Elab.AddressMap.{AddressEntry, generate_address_map}
use systemrdl_toolkit.Elab.AddressMap.Sorted.{
  Ascending, count_instances, generate_address_map-Ascending,
}

abbrev info_at : Bytes → ℕ → ℕ → NodeInfo
info_at name address size = record {
  inst_name = name;
  type_name = codes "reg";
  absolute_address = address;
  size = size;
  source_ctx = none;
  array_dimensions = [];
  array_indices = [];
  properties = [];
}

abbrev word_reg : Bytes → ℕ → Node
word_reg name address =
    node (info_at name address 4) (reg (record { register_width = 32; register_reset_hex = [] }))
      nil

abbrev status : Node
status = word_reg (codes "status") 20

abbrev two_regs : Nodes
two_regs = cons status (cons (word_reg (codes "data") 16) nil)

two_regs_instances : AreInstances two_regs
two_regs_instances = (refl, omega arith, (refl, omega arith, tt))

two_regs_pass : check_instance_address_overlaps two_regs ≡ []
unfolding check_instance_address_overlaps
two_regs_pass = refl

find_child_by_address_iff_example :
    (find_child_by_address 22 two_regs ≡ some status) ↔ ((i : ℕ) × IsAt 22 two_regs status i)
find_child_by_address_iff_example =
    find_child_by_address_iff 22 two_regs status two_regs_instances two_regs_pass

abbrev block : NodeInfo
block = info_at (codes "block") 16 0

two_regs_lie : LieFrom 16 two_regs
two_regs_lie = (omega arith, omega arith, (omega arith, omega arith, tt))

calculate_regfile_size_least_example :
    let size = calculate_regfile_size block two_regs in
    EndBy (16 + size) two_regs × ((size ≡ 4) ⊎ IsReached (16 + size) two_regs)
calculate_regfile_size_least_example =
    calculate_regfile_size_least block status (cons (word_reg (codes "data") 16) nil) two_regs_lie

-- a register file without children, at an address above zero: the difference wraps around
empty_regfile : calculate_regfile_size block nil ≡ word - 16
unfolding calculate_regfile_size
empty_regfile = refl

abbrev ram : MemInfo
ram = record { memory_size = 0; data_width = 32; address_width = 32; memory_type = codes "ram" }

-- no parameter `TYPE`: the type is that word
ram_type : (calculate_memory_size [] block ram).1.memory_type ≡ codes "TYPE"
unfolding calculate_memory_size memory_size_of resolve_parameter_reference get_property
ram_type = refl

abbrev chip_root : Node
chip_root = node (info_at (codes "chip") 0 4) addrmap two_regs

generate_address_map-Ascending_example :
    Ascending (generate_address_map none chip_root)
    × ((p : AddressEntry → Bool)
        → count_if p (generate_address_map none chip_root)
          ≡ count_instances p none (cons chip_root nil))
generate_address_map-Ascending_example = generate_address_map-Ascending none chip_root

chip_map :
    map (λ e. e.path) (generate_address_map none chip_root)
    ≡ codes "chip.data" ∷ (codes "chip.status" ∷ [])
unfolding generate_address_map
chip_map = refl
