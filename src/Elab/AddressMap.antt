-- ===== src/Elab/AddressMap.antt =====
-- `ElaboratedNode::get_hierarchical_path`, the traversal of `ElaboratedModelTraverser` and
-- `AddressMapGenerator` in elaborator.cpp. Whoever walks the tree knows the path of the parent.
-- The order that `std::sort` leaves between equal addresses, which the language leaves open, is
-- that of the traversal.
pub mod Sorted
use systemrdl_toolkit.Base.{
  ℕ, Bool, true, false, List, [], ◌∷◌, ◌++◌, Bytes, codes, Option, none, some, ltb, if◌then◌else◌,
}
use systemrdl_toolkit.Elab.Model.{
  NodeInfo, NodeKind, Node, Nodes, node, nil, cons, addrmap, regfile, reg, field, mem,
}

pub record AddressEntry : Type 0 where
  pub address : ℕ
  pub size : ℕ
  pub name : Bytes
  pub path : Bytes
  pub kind : Bytes

-- the path of a node below the path of its parent, if it has one
abbrev pub get_hierarchical_path : Option Bytes → NodeInfo → Bytes
get_hierarchical_path none info = info.inst_name
get_hierarchical_path (some parent) info = parent ++ (codes "." ++ info.inst_name)

abbrev pub get_node_type : NodeKind → Bytes
get_node_type addrmap = codes "addrmap"
get_node_type (regfile stride) = codes "regfile"
get_node_type (reg r) = codes "reg"
get_node_type (field f) = codes "field"
get_node_type (mem m) = codes "mem"

abbrev pub address_entry : Bytes → NodeInfo → NodeKind → AddressEntry
address_entry path info kind = record {
  address = info.absolute_address;
  size = info.size;
  name = info.inst_name;
  path = path;
  kind = get_node_type kind;
}

-- what a visit appends before it goes on to the children
abbrev pub push_entry : Bytes → NodeInfo → NodeKind → List AddressEntry → List AddressEntry
push_entry path info addrmap address_map = address_map
push_entry path info (field f) address_map = address_map
push_entry path info (regfile stride) address_map =
    address_map ++ address_entry path info (regfile stride) ∷ []
push_entry path info (reg r) address_map = address_map ++ address_entry path info (reg r) ∷ []
push_entry path info (mem m) address_map = address_map ++ address_entry path info (mem m) ∷ []

-- the children of a field are not visited
abbrev pub is_walked : NodeKind → Bool
is_walked (field f) = false
is_walked addrmap = true
is_walked (regfile stride) = true
is_walked (reg r) = true
is_walked (mem m) = true

-- the loop over children below a node with the path `parent`
unfoldable pub traverse_children : Option Bytes → Nodes → List AddressEntry → List AddressEntry
traverse_children parent nil address_map = address_map
traverse_children parent (cons (node info kind inner) children) address_map =
    let path = get_hierarchical_path parent info in
    let pushed = push_entry path info kind address_map in
    let below = traverse_children (some path) inner pushed in
    traverse_children parent children (if is_walked kind then below else pushed)

unfoldable pub traverse : Option Bytes → Node → List AddressEntry → List AddressEntry
unfolding traverse_children
traverse parent root address_map = traverse_children parent (cons root nil) address_map

unfoldable pub insert_entry : AddressEntry → List AddressEntry → List AddressEntry
insert_entry e [] = e ∷ []
insert_entry e (f ∷ entries) =
    let later = insert_entry e entries in
    if ltb f.address e.address then f ∷ later else e ∷ (f ∷ entries)

unfoldable pub sort_entries : List AddressEntry → List AddressEntry
unfolding insert_entry
sort_entries [] = []
sort_entries (e ∷ entries) = insert_entry e (sort_entries entries)

unfoldable pub generate_address_map : Option Bytes → Node → List AddressEntry
unfolding traverse sort_entries
generate_address_map parent root = sort_entries (traverse parent root [])
