-- ===== src/Api/Simplified.antt =====
-- The simplified model in systemrdl_api.cpp: `extract_registers_simplified`, which walks over the
-- nodes with two arrays that it appends to and two paths that it pushes to and pops from, and
-- `convert_elaborated_node_to_simplified_json`.
pub mod Listing
use systemrdl_toolkit.Base.{
  ℕ, Bool, true, false, not, ◌&&◌, ◌||◌, List, [], ◌∷◌, ◌++◌, Bytes, codes, eq_bytes, Option, none,
  some, if◌then◌else◌, is_empty,
}
use systemrdl_toolkit.Elab.Model.{
  PropertyValue, Properties, get_property, Node, Nodes, node, nil, cons, NodeInfo, NodeKind,
  addrmap, regfile, reg, field, mem, RegInfo,
}
use systemrdl_toolkit.Api.Json.{
  JsonLibrary, hex_address, as_int, convert_property_to_json, set_unless,
}

-- `pop_back` of what is not empty
unfoldable pub pop_back : List Bytes → List Bytes
pop_back [] = []
pop_back (x ∷ []) = []
pop_back (x ∷ (y ∷ ys)) = x ∷ pop_back (y ∷ ys)

-- the properties of a field that are listed
unfoldable pub is_listed : Bytes → Bool
unfolding eq_bytes
is_listed key =
    eq_bytes key (codes "lsb")
    || (eq_bytes key (codes "msb")
        || (eq_bytes key (codes "width")
            || (eq_bytes key (codes "sw")
                || (eq_bytes key (codes "hw")
                    || (eq_bytes key (codes "reserved")
                        || (eq_bytes key (codes "reset")
                            || (eq_bytes key (codes "onwrite")
                                || eq_bytes key (codes "onread"))))))))

module _ (json : JsonLibrary) where
  open json use {
    Json, null, object, array, string, integer_number, unsigned_number, set, push_back,
    is_empty_array,
  }

  -- a property under its own name, where the node has it
  unfoldable pub set_property_member : Bytes → Properties → Json → Json
  unfolding get_property convert_property_to_json
  set_property_member key props obj = elim (get_property key props) [
    | none ↦ obj
    | some value ↦ set key (convert_property_to_json json value) obj
  ]

  unfoldable pub set_name_and_desc : Properties → Json → Json
  unfolding set_property_member
  set_name_and_desc props obj =
      set_property_member (codes "desc") props (set_property_member (codes "name") props obj)

  unfoldable pub push_strings : List Bytes → Json → Json
  push_strings [] arr = arr
  push_strings (s ∷ more) arr = push_strings more (push_back arr (string s))

  unfoldable pub regfile_object : NodeInfo → List Bytes → Json
  unfolding set_name_and_desc push_strings hex_address
  regfile_object info path = set (codes "size") (unsigned_number info.size) (
      set (codes "path") (push_strings path array) (
        set (codes "absolute_address") (string (hex_address info.absolute_address)) (
          set_name_and_desc info.properties
            (set (codes "inst_name") (string info.inst_name) null))))

  unfoldable pub set_listed : Properties → Json → Json
  unfolding is_listed convert_property_to_json
  set_listed [] obj = obj
  set_listed ((key, value) ∷ more) obj =
      set_listed more
        (if is_listed key then set key (convert_property_to_json json value) obj else obj)

  -- a field without a name goes by its instance name
  unfoldable pub set_field_name : NodeInfo → Json → Json
  unfolding get_property convert_property_to_json
  set_field_name info obj = elim (get_property (codes "name") info.properties) [
    | none ↦ set (codes "name") (string info.inst_name) obj
    | some value ↦ set (codes "name") (convert_property_to_json json value) obj
  ]

  unfoldable pub set_field_properties : NodeInfo → Json → Json
  unfolding set_listed set_property_member set_field_name
  set_field_properties info obj =
      if is_empty info.properties
      then obj
      else set_listed info.properties
          (set_property_member (codes "desc") info.properties (set_field_name info obj))

  unfoldable pub field_object : NodeInfo → Json
  unfolding set_field_properties hex_address
  field_object info =
      set (codes "absolute_address") (string (hex_address info.absolute_address))
        (set_field_properties info (set (codes "inst_name") (string info.inst_name) null))

  unfoldable pub push_fields : Nodes → Json → Json
  unfolding field_object
  push_fields nil fields = fields
  push_fields (cons (node info (field f) inner) children) fields =
      push_fields children (push_back fields (field_object info))
  push_fields (cons _ children) fields = push_fields children fields

  unfoldable pub register_object : NodeInfo → RegInfo → Nodes → List Bytes → List Bytes → Json
  unfolding set_name_and_desc push_strings push_fields as_int hex_address
  register_object info r children path path_abs =
      set (codes "fields") (push_fields children array) (
        set (codes "path_abs") (push_strings path_abs array) (
          set (codes "path") (push_strings path array) (
            set_unless json (is_empty r.register_reset_hex) (codes "register_reset_value")
              (string r.register_reset_hex)
              (set (codes "register_width") (integer_number (as_int r.register_width)) (
                set (codes "size") (integer_number (as_int info.size)) (
                  set (codes "offset") (integer_number (as_int info.absolute_address)) (
                    set (codes "absolute_address") (string (hex_address info.absolute_address)) (
                      set_name_and_desc info.properties
                        (set (codes "inst_name") (string info.inst_name) null)))))))))

  -- the arguments that are passed by reference
  pub record Extraction : Type 0 where
    pub registers_array : Json
    pub regfiles_array : Json
    pub path : List Bytes
    pub path_abs : List Bytes

  abbrev pub push_path : NodeInfo → Extraction → Extraction
  push_path info ex = record ex {
    path = ex.path ++ info.inst_name ∷ [];
    path_abs = ex.path_abs ++ hex_address info.absolute_address ∷ [];
  }

  -- before the children
  unfoldable pub enter_node : NodeInfo → NodeKind → Nodes → Extraction → Extraction
  enter_node info (regfile alignment) children ex =
      push_path info
        (record ex { regfiles_array = push_back ex.regfiles_array (regfile_object info ex.path) })
  enter_node info (reg r) children ex = record ex {
    registers_array =
        push_back ex.registers_array (register_object info r children ex.path ex.path_abs);
  }
  enter_node info addrmap children ex = ex
  enter_node info (field f) children ex = push_path info ex
  enter_node info (mem m) children ex = push_path info ex

  abbrev pub pop_path : Extraction → Extraction
  pop_path ex = record ex { path = pop_back ex.path; path_abs = pop_back ex.path_abs }

  -- behind the children
  unfoldable pub leave_node : NodeKind → Extraction → Extraction
  unfolding pop_back
  leave_node (regfile alignment) ex = pop_path ex
  leave_node (reg r) ex = ex
  leave_node addrmap ex = ex
  leave_node (field f) ex = pop_path ex
  leave_node (mem m) ex = pop_path ex

  unfoldable mutual
    pub extract_registers_simplified : Node → Extraction → Extraction
    extract_registers_simplified (node info kind children) ex =
        leave_node kind (extract_children children (enter_node info kind children ex))

    pub extract_children : Nodes → Extraction → Extraction
    extract_children nil ex = ex
    extract_children (cons n ns) ex = extract_children ns (extract_registers_simplified n ex)

  unfoldable pub addrmap_object : NodeInfo → Json
  unfolding set_name_and_desc hex_address
  addrmap_object info = set (codes "base") (string (hex_address info.absolute_address)) (
      set (codes "absolute_address") (string (hex_address info.absolute_address))
        (set_name_and_desc info.properties (set (codes "inst_name") (string info.inst_name) null)))

  abbrev pub extracted : NodeInfo → Nodes → Extraction
  extracted info children = extract_children children (record {
    registers_array = array;
    regfiles_array = array;
    path = info.inst_name ∷ [];
    path_abs = hex_address info.absolute_address ∷ [];
  })

  unfoldable pub convert_elaborated_node_to_simplified_json : Node → Json
  unfolding addrmap_object extract_children
  convert_elaborated_node_to_simplified_json (node info kind children) =
      let ex = extracted info children in
      set (codes "registers") ex.registers_array (
        set_unless json (is_empty_array ex.regfiles_array) (codes "regfiles") ex.regfiles_array (
          set (codes "addrmap") (addrmap_object info) (
            set (codes "version") (string (codes "1.0"))
              (set (codes "format") (string (codes "SystemRDL_SimplifiedModel")) null))))
