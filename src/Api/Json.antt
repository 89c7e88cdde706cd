-- ===== src/Api/Json.antt =====
-- The conversions to JSON in systemrdl_api.cpp. The values of nlohmann::json and what is done to
-- them are a parameter: a library that is not part of the repository.
use systemrdl_toolkit.Base.{
  ℕ, zero, suc, ◌+◌, ◌-◌, ◌/◌, ◌%◌, ◌^◌, Bool, true, false, List, [], ◌∷◌, ◌++◌, Bytes, codes,
  Option, ltb, if◌then◌else◌, is_empty,
}
use systemrdl_toolkit.Elab.Model.{
  PropertyValue, text, integer, boolean, Properties, Node, Nodes, node, nil, cons, NodeInfo, word,
}
use systemrdl_toolkit.Elab.AddressMap.{get_node_type}

-- `integer` is an `int64_t` by its bits, `set` is `value[key] = v`, which makes an object out of
-- the null value; `dump` throws where a text is no UTF-8.
pub record JsonLibrary : Type 1 where
  pub Json : Type 0
  pub null : Json
  pub object : Json
  pub array : Json
  pub string : Bytes → Json
  pub integer_number : ℕ → Json
  pub unsigned_number : ℕ → Json
  pub truth : Bool → Json
  pub set : Bytes → Json → Json → Json
  pub push_back : Json → Json → Json
  pub is_empty_array : Json → Bool
  pub dump : ℕ → Json → Option Bytes

-- the digits of `n` to the base of 16 in lower case, in front of `out`
hex_lower_onto : ℕ → ℕ → Bytes → Bytes
hex_lower_onto zero n out = out
hex_lower_onto (suc fuel) n out =
    let d = n % 16 in
    let digit = if ltb d 10 then b'0' + d else b'a' + d - 10 in
    let more = hex_lower_onto fuel (n / 16) (digit ∷ out) in if ltb n 16 then digit ∷ out else more

-- `"0x" << std::hex`; a number of 64 bits has at most 16 digits
unfoldable pub hex_address : ℕ → Bytes
unfolding hex_lower_onto
hex_address n = codes "0x" ++ hex_lower_onto 16 n []

-- `static_cast<int>`, as the bits of an `int64_t`
unfoldable pub as_int : ℕ → ℕ
as_int n = let m = n % 2 ^ 32 in if ltb m (2 ^ 31) then m else word - 2 ^ 32 + m

-- a tree of the parser: a rule with its name, begin and end, or a token with its place
mutual
  pub data ParseTree : Type 0 where
    rule : Bytes → ℕ → ℕ → ℕ → ℕ → ParseTrees → ParseTree
    terminal : Bytes → ℕ → ℕ → ParseTree

  pub data ParseTrees : Type 0 where
    none_left : ParseTrees
    child : ParseTree → ParseTrees → ParseTrees

-- `getText()`
unfoldable mutual
  pub tree_text : ParseTree → Bytes
  tree_text (rule name l c l' c' children) = trees_text children
  tree_text (terminal s l c) = s

  pub trees_text : ParseTrees → Bytes
  trees_text none_left = []
  trees_text (child t ts) = tree_text t ++ trees_text ts

module _ (json : JsonLibrary) where
  open json use {
    Json, null, object, array, string, integer_number, unsigned_number, truth, set, push_back,
  }

  unfoldable mutual
    unfolding tree_text

    pub convert_ast_to_json : ParseTree → Json
    convert_ast_to_json (rule name start_line start_column stop_line stop_column children) =
        with_trees children (
          set (codes "stop_column") (unsigned_number stop_column) (
            set (codes "stop_line") (unsigned_number stop_line) (
              set (codes "start_column") (unsigned_number start_column) (
                set (codes "start_line") (unsigned_number start_line) (
                  set (codes "text") (string (trees_text children)) (
                    set (codes "rule_name") (string name)
                      (set (codes "type") (string (codes "rule")) null)))))))
    convert_ast_to_json (terminal s line column) = set (codes "column") (unsigned_number column) (
        set (codes "line") (unsigned_number line)
          (set (codes "text") (string s) (set (codes "type") (string (codes "terminal")) null)))

    -- `node["children"]`, where there are some
    pub with_trees : ParseTrees → Json → Json
    with_trees none_left rule_node = rule_node
    with_trees (child t ts) rule_node =
        set (codes "children") (push_trees ts (push_back array (convert_ast_to_json t))) rule_node

    pub push_trees : ParseTrees → Json → Json
    push_trees none_left children = children
    push_trees (child t ts) children = push_trees ts (push_back children (convert_ast_to_json t))

  unfoldable pub convert_property_to_json : PropertyValue → Json
  convert_property_to_json (text s) = string s
  convert_property_to_json (integer n) = integer_number n
  convert_property_to_json (boolean b) = truth b

  unfoldable pub push_dimensions : List ℕ → Json → Json
  push_dimensions [] dims = dims
  push_dimensions (dim ∷ more) dims =
      push_dimensions more (push_back dims (set (codes "size") (unsigned_number dim) null))

  unfoldable pub set_properties : Properties → Json → Json
  unfolding convert_property_to_json
  set_properties [] props = props
  set_properties ((key, value) ∷ more) props =
      set_properties more (set key (convert_property_to_json value) props)

  -- a member that is written only where there is something to write
  abbrev pub set_unless : Bool → Bytes → Json → Json → Json
  set_unless true key value obj = obj
  set_unless false key value obj = set key value obj

  -- what is written of a node besides its children
  unfoldable pub node_members : NodeInfo → Bytes → Json
  unfolding hex_address push_dimensions set_properties
  node_members info node_type =
      set_unless (is_empty info.properties) (codes "properties")
        (set_properties info.properties object)
        (set_unless (is_empty info.array_dimensions) (codes "array_dimensions")
          (push_dimensions info.array_dimensions array)
          (set (codes "size") (unsigned_number info.size) (
            set (codes "absolute_address") (string (hex_address info.absolute_address)) (
              set (codes "inst_name") (string info.inst_name)
                (set (codes "node_type") (string node_type) null)))))

  unfoldable mutual
    unfolding node_members

    pub convert_elaborated_node_to_json : Node → Json
    convert_elaborated_node_to_json (node info kind children) =
        with_children children (node_members info (get_node_type kind))

    pub with_children : Nodes → Json → Json
    with_children nil json_node = json_node
    with_children (cons n ns) json_node =
        set (codes "children")
          (push_children ns (push_back array (convert_elaborated_node_to_json n))) json_node

    pub push_children : Nodes → Json → Json
    push_children nil children = children
    push_children (cons n ns) children =
        push_children ns (push_back children (convert_elaborated_node_to_json n))
