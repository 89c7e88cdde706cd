-- ===== src/Elab/Definitions/Last.antt =====
-- Which definition of a component a name stands for.
use systemrdl_toolkit.Base.{
  List, [], ◌∷◌, ◌++◌, Bytes, eq_bytes, Option, none, some, if◌then◌else◌, ◌≡◌, refl, ◌∙◌, sym, ap,
  subst, arith, Bool-cases, inl, inr,
}
use systemrdl_toolkit.Base.Options.{bind-some}
use systemrdl_toolkit.Elab.Model.{Properties}
use systemrdl_toolkit.Elab.Table.{find_entry, set_entry, find_entry-set_entry}
use systemrdl_toolkit.Elab.Tree.{ComponentType, ParamElem, Body, end, elem, named_def}
use systemrdl_toolkit.Elab.Definitions.{
  ComponentDefinition, Definitions, get_component_type, parse_parameter_definitions,
  register_component_definition, collect_component_definitions,
}

-- a named definition as it is written
pub record NamedDefinition : Type 0 where
  pub name : Bytes
  pub type : ComponentType
  pub elems : List ParamElem
  pub body : Body

-- the named definitions in the order of the text, those within others behind them; what stands
-- in an anonymous definition does not count
unfoldable pub named_definitions : Body → List NamedDefinition
named_definitions end = []
named_definitions (elem (named_def type name elems body insts) rest) =
    record { name = name; type = type; elems = elems; body = body }
    ∷ (named_definitions body ++ named_definitions rest)
named_definitions (elem _ rest) = named_definitions rest

-- the last of them with the name
unfoldable pub last_named : Bytes → List NamedDefinition → Option NamedDefinition
unfolding eq_bytes
last_named name [] = none
last_named name (d ∷ ds) = elim (last_named name ds) [
  | some later ↦ some later
  | none ↦ if eq_bytes d.name name then some d else none
]

-- what is found for the last definition of a name, or what was there before
abbrev pub Stands :
    Properties
    → Option ComponentDefinition
    → Option NamedDefinition
    → Option ComponentDefinition
    → Type 0
Stands parameters old none found = found ≡ old
Stands parameters old (some d) found =
    (def : ComponentDefinition) × (found ≡ some def)
    × (def.type ≡ get_component_type d.type)
    × (def.def_ctx ≡ d.body)
    × (parse_parameter_definitions parameters d.elems ≡ some def.parameters)

abbrev or_earlier : Option NamedDefinition → Option NamedDefinition → Option NamedDefinition
or_earlier first none = first
or_earlier first (some later) = some later

or_earlier-none : (o : Option NamedDefinition) → o ≡ or_earlier none o
or_earlier-none none = refl
or_earlier-none (some d) = refl

last_named-append :
    (name : Bytes) (ds es : List NamedDefinition)
    → last_named name (ds ++ es) ≡ or_earlier (last_named name ds) (last_named name es)
unfolding last_named
last_named-append name [] es = or_earlier-none (last_named name es)
last_named-append name (d ∷ ds) es = ground (arith, last_named-append name ds es)

Stands-then :
    (parameters : Properties) (old mid new : Option ComponentDefinition)
    (first later : Option NamedDefinition)
    → Stands parameters old first mid
    → Stands parameters mid later new
    → Stands parameters old (or_earlier first later) new
Stands-then parameters old mid new none none h k = k ∙ h
Stands-then parameters old mid new (some d) none (def, e, t, b, p) k = (def, k ∙ e, t, b, p)
Stands-then parameters old mid new none (some d) h k = k
Stands-then parameters old mid new (some c) (some d) h k = k

register-Stands :
    (parameters : Properties) (type : ComponentType) (key name : Bytes) (elems : List ParamElem)
    (body : Body) (old new : Definitions)
    → register_component_definition parameters type key elems body old ≡ some new
    → Stands parameters
        (find_entry name old)
        (last_named name (record { name = key; type = type; elems = elems; body = body } ∷ []))
        (find_entry name new)
unfolding register_component_definition last_named
register-Stands parameters type key name elems body old new h =
    let (parsed, ep, en) = bind-some (parse_parameter_definitions parameters elems) _ h in
    let def : ComponentDefinition = record {
      name = key;
      type = get_component_type type;
      def_ctx = body;
      parameters = parsed;
    } in
    let same : set_entry key def old ≡ new = ground (arith, en) in
    let found =
      subst (λ t. find_entry name t ≡ (if eq_bytes key name then some def else find_entry name old))
        same (find_entry-set_entry key name def old) in
    elim (Bool-cases (eq_bytes key name)) [
      | inl t ↦ rw t (def, found ∙ rw t refl, refl, refl, ep)
      | inr f ↦ rw f (found ∙ rw f refl)
    ]

nothing-Stands :
    (parameters : Properties) (name : Bytes) (old new : Definitions)
    → old ≡ new
    → Stands parameters (find_entry name old) (last_named name []) (find_entry name new)
unfolding last_named
nothing-Stands parameters name old new e = ap (find_entry name) (sym e)

collect-Stands :
    (parameters : Properties) (name : Bytes) (root : Body) (old new : Definitions)
    → collect_component_definitions parameters root old ≡ some new
    → Stands parameters
        (find_entry name old)
        (last_named name (named_definitions root))
        (find_entry name new)
unfolding collect_component_definitions named_definitions
collect-Stands parameters name end old new h = nothing-Stands parameters name old new (ground arith)
collect-Stands parameters name (elem (named_def type key elems body insts) rest) old new h =
    let (registered, er, h') =
      bind-some (register_component_definition parameters type key elems body old) _ h in
    let (collected, ec, h'') =
      bind-some (collect_component_definitions parameters body registered) _ h' in
    let first = register-Stands parameters type key name elems body old registered er in
    let inner = collect-Stands parameters name body registered collected ec in
    let later = collect-Stands parameters name rest collected new h'' in
    subst (λ o. Stands parameters (find_entry name old) o (find_entry name new))
      (sym (
        last_named-append name (record { name = key; type = type; elems = elems; body = body } ∷ [])
          (named_definitions body ++ named_definitions rest)
        ∙ ap (or_earlier _)
            (last_named-append name (named_definitions body) (named_definitions rest))))
      (Stands-then parameters _ _ _ _ _ first (Stands-then parameters _ _ _ _ _ inner later))
collect-Stands parameters name (elem _ rest) old new h =
    collect-Stands parameters name rest old new h

-- After the definitions of a description are collected, where that throws no exception, a name
-- stands for the last of the named definitions that have it, in the order of the text, where those
-- within a definition come behind it: its type, its body and its parsed parameters are what is
-- found. A name that no named definition has is not found. Definitions within anonymous ones do
-- not count.
pub collect_component_definitions-last :
    (parameters : Properties) (name : Bytes) (root : Body) (definitions : Definitions)
    → collect_component_definitions parameters root [] ≡ some definitions
    → Stands parameters none
        (last_named name (named_definitions root))
        (find_entry name definitions)
unfolding find_entry
collect_component_definitions-last parameters name root definitions h =
    collect-Stands parameters name root [] definitions h
