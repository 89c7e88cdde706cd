-- ===== src/Elab/Addr.antt =====
-- `validate_instance_addresses` in elaborator.cpp: no two instances of a container share an
-- address. The errors are returned in the order in which they are reported.
pub mod Disjoint
use systemrdl_toolkit.Base.{
  ℕ, zero, suc, ◌+◌, ◌/◌, ◌%◌, ◌-◌, min, max, Bool, true, false, ◌||◌, List, [], ◌∷◌, ◌++◌, Bytes,
  codes, ltb, leb, ◌==◌, if◌then◌else◌, Option,
}
use systemrdl_toolkit.Elab.Model.{
  NodeInfo, NodeKind, Node, Nodes, node, nil, cons, addrmap, regfile, reg, field, mem, Position,
  ElaborationError, elaboration_error, add64, sub64,
}
use systemrdl_toolkit.Elab.Ranges.{each_pair}

-- the digits of `n` to the base of 16, in front of `out`
hex_onto : ℕ → ℕ → Bytes → Bytes
hex_onto zero n out = out
hex_onto (suc fuel) n out =
    let d = n % 16 in
    let digit = if ltb d 10 then b'0' + d else b'A' + d - 10 in
    let more = hex_onto fuel (n / 16) (digit ∷ out) in if ltb n 16 then digit ∷ out else more

-- an unsigned number written with `std::hex` and `std::uppercase`; a number of 64 bits has at
-- most 16 digits
unfoldable pub to_hex : ℕ → Bytes
unfolding hex_onto
to_hex n = hex_onto 16 n []

unfoldable pub report_instance_overlap_error :
    Bytes → Bytes → ℕ → ℕ → ℕ → ℕ → Option Position → ElaborationError
unfolding to_hex elaboration_error
report_instance_overlap_error instance1_name instance2_name addr1_start addr1_end addr2_start
      addr2_end ctx =
    elaboration_error
      (codes "Instance address overlap detected: '"
        ++ (instance1_name
            ++ (codes "' at address range 0x"
                ++ (to_hex addr1_start
                    ++ (codes "-0x"
                        ++ (to_hex addr1_end
                            ++ (codes " overlaps with '"
                                ++ (instance2_name
                                    ++ (codes "' at address range 0x"
                                        ++ (to_hex addr2_start
                                            ++ (codes "-0x" ++ to_hex addr2_end)))))))))))
      ctx

-- registers, register files and memories
abbrev pub is_addressable : NodeKind → Bool
is_addressable (reg r) = true
is_addressable (regfile stride) = true
is_addressable (mem m) = true
is_addressable addrmap = false
is_addressable (field f) = false

unfoldable pub addressable_children : Nodes → List NodeInfo
addressable_children nil = []
addressable_children (cons (node info kind inner) children) =
    let rest = addressable_children children in if is_addressable kind then info ∷ rest else rest

-- the last address of an instance
abbrev pub end_address : NodeInfo → ℕ
end_address info = sub64 (add64 info.absolute_address info.size) 1

unfoldable pub instances_overlap : NodeInfo → NodeInfo → Bool
instances_overlap instance1 instance2 =
    if instance1.size == 0 || instance2.size == 0
    then false
    else leb (max instance1.absolute_address instance2.absolute_address)
        (min (end_address instance1) (end_address instance2))

unfoldable pub report_instances : NodeInfo → NodeInfo → List ElaborationError
unfolding instances_overlap report_instance_overlap_error
report_instances instance1 instance2 =
    if instances_overlap instance1 instance2
    then report_instance_overlap_error instance1.inst_name instance2.inst_name
        instance1.absolute_address (end_address instance1) instance2.absolute_address
        (end_address instance2) instance1.source_ctx
      ∷ []
    else []

unfoldable pub check_instance_address_overlaps : Nodes → List ElaborationError
unfolding each_pair report_instances addressable_children
check_instance_address_overlaps children =
    each_pair report_instances (addressable_children children)

-- the containers that are walked
abbrev pub is_container : NodeKind → Bool
is_container addrmap = true
is_container (regfile stride) = true
is_container (reg r) = false
is_container (field f) = false
is_container (mem m) = false

abbrev pub kind_of : Node → NodeKind
kind_of (node info kind children) = kind

unfoldable mutual
  unfolding check_instance_address_overlaps

  pub validate_instance_addresses : Node → List ElaborationError
  validate_instance_addresses (node info kind children) =
      check_instance_address_overlaps children ++ validate_containers children

  pub validate_containers : Nodes → List ElaborationError
  validate_containers nil = []
  validate_containers (cons child children) =
      let inner = validate_instance_addresses child in
      let rest = validate_containers children in
      (if is_container (kind_of child) then inner else []) ++ rest
