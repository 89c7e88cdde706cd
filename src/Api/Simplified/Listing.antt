-- ===== src/Api/Simplified/Listing.antt =====
-- What the walk over the nodes lists: the arrays are those of a listing that passes the paths down,
-- and the paths are restored.
use systemrdl_toolkit.Base.{List, [], ◌∷◌, ◌++◌, Bytes, ◌≡◌, refl, ap, ap₂, ◌∙◌, sym}
use systemrdl_toolkit.Elab.Model.{
  Node, Nodes, node, nil, cons, NodeInfo, NodeKind, addrmap, regfile, reg, field, mem,
}
use systemrdl_toolkit.Api.Json.{JsonLibrary, hex_address}
use systemrdl_toolkit.Api.Simplified.{
  pop_back, Extraction, enter_node, leave_node, extract_registers_simplified, extract_children,
  register_object, regfile_object,
}

pop_back-append : (xs : List Bytes) (x : Bytes) → pop_back (xs ++ x ∷ []) ≡ xs
unfolding pop_back
pop_back-append [] x = refl
pop_back-append (y ∷ []) x = refl
pop_back-append (y ∷ (z ∷ xs)) x = ap (◌∷◌ y) (pop_back-append (z ∷ xs) x)

-- the path of a node's children: nodes but address maps and registers are on it
abbrev pub below : NodeKind → List Bytes → Bytes → List Bytes
below addrmap path name = path
below (reg r) path name = path
below (regfile alignment) path name = path ++ name ∷ []
below (field f) path name = path ++ name ∷ []
below (mem m) path name = path ++ name ∷ []

module _ (json : JsonLibrary) where
  open json use {Json, push_back}

  abbrev pub push_all : Json → List Json → Json
  push_all arr [] = arr
  push_all arr (x ∷ xs) = push_all (push_back arr x) xs

  push_all-append :
      (arr : Json) (xs ys : List Json) → push_all arr (xs ++ ys) ≡ push_all (push_all arr xs) ys
  push_all-append arr [] ys = refl
  push_all-append arr (x ∷ xs) ys = push_all-append (push_back arr x) xs ys

  -- what a node itself adds
  abbrev pub own_registers : NodeInfo → NodeKind → Nodes → List Bytes → List Bytes → List Json
  own_registers info (reg r) children path path_abs =
      register_object json info r children path path_abs ∷ []
  own_registers info _ children path path_abs = []

  abbrev pub own_regfiles : NodeInfo → NodeKind → List Bytes → List Json
  own_regfiles info (regfile alignment) path = regfile_object json info path ∷ []
  own_regfiles info _ path = []

  -- the registers of a tree in the order of the text, from the paths of what is above it
  unfoldable mutual
    pub registers_of : List Bytes → List Bytes → Node → List Json
    registers_of path path_abs (node info kind children) =
        own_registers info kind children path path_abs
        ++ registers_in (below kind path info.inst_name)
            (below kind path_abs (hex_address info.absolute_address)) children

    pub registers_in : List Bytes → List Bytes → Nodes → List Json
    registers_in path path_abs nil = []
    registers_in path path_abs (cons n ns) =
        registers_of path path_abs n ++ registers_in path path_abs ns

  -- the register files, likewise
  unfoldable mutual
    pub regfiles_of : List Bytes → Node → List Json
    regfiles_of path (node info kind children) =
        own_regfiles info kind path ++ regfiles_in (below kind path info.inst_name) children

    pub regfiles_in : List Bytes → Nodes → List Json
    regfiles_in path nil = []
    regfiles_in path (cons n ns) = regfiles_of path n ++ regfiles_in path ns

  abbrev pub listed : Extraction json → List Json → List Json → Extraction json
  listed ex registers regfiles = record ex {
    registers_array = push_all ex.registers_array registers;
    regfiles_array = push_all ex.regfiles_array regfiles;
  }

  listed-append :
      (ex : Extraction json) (rs fs rs' fs' : List Json)
      → listed (listed ex rs fs) rs' fs' ≡ listed ex (rs ++ rs') (fs ++ fs')
  listed-append ex rs fs rs' fs' =
      ap₂ (λ (r f : Json). record ex { registers_array = r; regfiles_array = f })
        (sym (push_all-append ex.registers_array rs rs'))
        (sym (push_all-append ex.regfiles_array fs fs'))

  entered :
      (info : NodeInfo) (kind : NodeKind) (children : Nodes) (ex : Extraction json)
      → enter_node json info kind children ex
        ≡ record (listed ex
            (own_registers info kind children ex.path ex.path_abs)
            (own_regfiles info kind ex.path)) {
              path = below kind ex.path info.inst_name;
              path_abs = below kind ex.path_abs (hex_address info.absolute_address);
            }
  unfolding enter_node
  entered info addrmap children ex = refl
  entered info (reg r) children ex = refl
  entered info (regfile alignment) children ex = refl
  entered info (field f) children ex = refl
  entered info (mem m) children ex = refl

  popped :
      (info : NodeInfo) (ex : Extraction json) (path path_abs : List Bytes)
      → record ex {
        path = pop_back (path ++ info.inst_name ∷ []);
        path_abs = pop_back (path_abs ++ hex_address info.absolute_address ∷ []);
      }
        ≡ record ex { path = path; path_abs = path_abs }
  popped info ex path path_abs =
      ap₂ (λ (p q : List Bytes). record ex { path = p; path_abs = q })
        (pop_back-append path info.inst_name)
        (pop_back-append path_abs (hex_address info.absolute_address))

  left :
      (info : NodeInfo) (kind : NodeKind) (ex : Extraction json) (path path_abs : List Bytes)
      → leave_node json kind (record ex {
        path = below kind path info.inst_name;
        path_abs = below kind path_abs (hex_address info.absolute_address);
      })
        ≡ record ex { path = path; path_abs = path_abs }
  unfolding leave_node
  left info addrmap ex path path_abs = refl
  left info (reg r) ex path path_abs = refl
  left info (regfile alignment) ex path path_abs = popped info ex path path_abs
  left info (field f) ex path path_abs = popped info ex path path_abs
  left info (mem m) ex path path_abs = popped info ex path path_abs

  mutual
    unfolding extract_registers_simplified registers_of regfiles_of

    node-listed :
        (n : Node) (ex : Extraction json)
        → extract_registers_simplified json n ex
          ≡ listed ex (registers_of ex.path ex.path_abs n) (regfiles_of ex.path n)
    node-listed (node info kind children) ex =
        let path = below kind ex.path info.inst_name in
        let path_abs = below kind ex.path_abs (hex_address info.absolute_address) in
        let own = own_registers info kind children ex.path ex.path_abs in
        let own_files = own_regfiles info kind ex.path in
        let rest = registers_in path path_abs children in
        let rest_files = regfiles_in path children in
        ap (λ (e : Extraction json). leave_node json kind (extract_children json children e))
          (entered info kind children ex)
        ∙ (ap (leave_node json kind) (
              children-listed children
                (record (listed ex own own_files) { path = path; path_abs = path_abs }))
            ∙ (left info kind (listed (listed ex own own_files) rest rest_files) ex.path ex.path_abs
                ∙ listed-append ex own own_files rest rest_files))

    children-listed :
        (ns : Nodes) (ex : Extraction json)
        → extract_children json ns ex
          ≡ listed ex (registers_in ex.path ex.path_abs ns) (regfiles_in ex.path ns)
    children-listed nil ex = refl
    children-listed (cons n ns) ex =
        ap (extract_children json ns) (node-listed n ex)
        ∙ (children-listed ns
              (listed ex (registers_of ex.path ex.path_abs n) (regfiles_of ex.path n))
            ∙ listed-append ex (registers_of ex.path ex.path_abs n) (regfiles_of ex.path n)
                (registers_in ex.path ex.path_abs ns) (regfiles_in ex.path ns))

-- The walk that extracts the simplified model appends to its two arrays the registers and the
-- register files of the tree, in the order of the text, each with the path of the nodes above it
-- that are neither address maps nor registers, and leaves both paths as they were: what is pushed
-- on the way down is popped on the way up.
pub extract_registers_simplified-listed :
    (json : JsonLibrary) (n : Node) (ex : Extraction json)
    → extract_registers_simplified json n ex ≡ record ex {
      registers_array = push_all json ex.registers_array (registers_of json ex.path ex.path_abs n);
      regfiles_array = push_all json ex.regfiles_array (regfiles_of json ex.path n);
    }
extract_registers_simplified-listed json n ex = node-listed json n ex
