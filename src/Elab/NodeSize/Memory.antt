-- ===== src/Elab/NodeSize/Memory.antt =====
-- A memory has a size, and a type even where none is given.
use systemrdl_toolkit.Base.{ℕ, ◌<◌, ◌≡◌, refl, Bytes, codes, Option, none, some, arith}
use systemrdl_toolkit.Elab.Model.{
  NodeInfo, MemInfo, Properties, PropertyValue, text, integer, boolean, get_property,
}
use systemrdl_toolkit.Elab.NodeSize.{
  resolve_parameter_reference, positive_integer, memory_size_of, memory_type_of,
  calculate_memory_size,
}

positive_or :
    (value : PropertyValue) (other : ℕ)
    → 0 < other
    → 0 < elim (positive_integer value) as (λ o. ℕ) [ none ↦ other | some n ↦ n ]
positive_or (integer n) other h = ground arith
positive_or (text s) other h = h
positive_or (boolean b) other h = h

memory_size_of-positive : (parameters : Properties) (m : MemInfo) → 0 < memory_size_of parameters m
unfolding memory_size_of
memory_size_of-positive parameters m =
    positive_or (resolve_parameter_reference parameters (codes "MEM_SIZE")) _
      (positive_or (resolve_parameter_reference parameters (codes "SIZE")) _ (ground arith))

-- the type that is left, from what the parameter is
abbrev pub type_in : Bytes → Option PropertyValue → Bytes
type_in memory_type none = codes "TYPE"
type_in memory_type (some value) = memory_type_of value memory_type

type_from :
    (memory_type : Bytes) (o : Option PropertyValue)
    → memory_type_of
        (elim o as (λ x. PropertyValue) [ none ↦ text (codes "TYPE") | some value ↦ value ])
        memory_type
      ≡ type_in memory_type o
type_from memory_type none = refl
type_from memory_type (some value) = refl

type_in_lem :
    (parameters : Properties) (memory_type : Bytes)
    → memory_type_of (resolve_parameter_reference parameters (codes "TYPE")) memory_type
      ≡ type_in memory_type (get_property (codes "TYPE") parameters)
unfolding resolve_parameter_reference
type_in_lem parameters memory_type = type_from memory_type (get_property (codes "TYPE") parameters)

-- Whatever the parameters are, a memory has a size afterwards, the size of its node is that of
-- the memory, and its type is the parameter `TYPE` where that is a text, the word TYPE where the
-- parameter is not given, and as it was otherwise.
pub calculate_memory_size_lem :
    (parameters : Properties) (info : NodeInfo) (m : MemInfo)
    → let (sized, memory) = calculate_memory_size parameters info m in
      (0 < memory.memory_size)
      × (sized.size ≡ memory.memory_size)
      × (memory.memory_type ≡ type_in m.memory_type (get_property (codes "TYPE") parameters))
unfolding calculate_memory_size
calculate_memory_size_lem parameters info m =
    (memory_size_of-positive parameters m, refl, type_in_lem parameters m.memory_type)
