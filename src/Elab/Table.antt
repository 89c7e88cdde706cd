-- ===== src/Elab/Table.antt =====
-- The tables of definitions of `SystemRDLElaborator`, `std::unordered_map` from names.
use systemrdl_toolkit.Base.{
  List, [], ◌∷◌, Bytes, eq_bytes, eq_bytes_iff, Option, none, some, if◌then◌else◌, ◌≡◌, refl, arith,
}

abbrev pub Table : Type 0 → Type 0
Table V = List (Bytes × V)

module _ {V : Type 0} where
  -- `find(name)`
  unfoldable pub find_entry : Bytes → Table V → Option V
  find_entry name [] = none
  find_entry name ((key, value) ∷ table) =
      if eq_bytes key name then some value else find_entry name table

  -- `table[name] = value`
  unfoldable pub set_entry : Bytes → V → Table V → Table V
  set_entry name value [] = (name, value) ∷ []
  set_entry name value ((key, old) ∷ table) =
      if eq_bytes key name then (name, value) ∷ table else (key, old) ∷ set_entry name value table

  -- The entry that was set last is found, and every other is as it was.
  pub find_entry-set_entry :
      (name other : Bytes) (value : V) (table : Table V)
      → find_entry other (set_entry name value table)
        ≡ (if eq_bytes name other then some value else find_entry other table)
  unfolding find_entry set_entry
  find_entry-set_entry name other value [] = refl
  find_entry-set_entry name other value ((key, old) ∷ table) = ground (
    arith,
    eq_bytes_iff name other,
    eq_bytes_iff key name,
    eq_bytes_iff key other,
    find_entry-set_entry name other value table,
  )
