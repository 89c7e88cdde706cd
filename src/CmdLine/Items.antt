-- ===== src/CmdLine/Items.antt =====
-- Command lines as lists of items, and what they say of the options.
use systemrdl_toolkit.Base.{
  Bool, true, false, List, [], ◌∷◌, ◌++◌, Bytes, codes, Option, some, eq_bytes, if◌then◌else◌, ◌≡◌,
  ◌⊎◌,
}
use systemrdl_toolkit.CmdLine.{
  CmdOption, CmdLineParser, starts_with_dash, Parsed, parsed, find_option,
}
use systemrdl_toolkit.CmdLine.Table.{Option_map, IsName}

-- what is on a command line: `--option=value`, `--option value`, `--option`, and an input
pub data Item : Type 0 where
  assigned separate : Bytes → Bytes → Item
  switch input : Bytes → Item

unfoldable pub print_items : List Item → List Bytes
print_items [] = []
print_items (assigned name v ∷ items) = (codes "--" ++ (name ++ b'=' ∷ v)) ∷ print_items items
print_items (separate name v ∷ items) = (codes "--" ++ name) ∷ (v ∷ print_items items)
print_items (switch name ∷ items) = (codes "--" ++ name) ∷ print_items items
print_items (input s ∷ items) = s ∷ print_items items

-- an option with its name, after one item and after all of them
abbrev pub settle : Bytes → Item → CmdOption → CmdOption
settle name (assigned n v) o = if eq_bytes n name then record o { is_set = true; value = v } else o
settle name (separate n v) o = if eq_bytes n name then record o { is_set = true; value = v } else o
settle name (switch n) o = if eq_bytes n name then record o { is_set = true } else o
settle name (input s) o = o

abbrev pub settled : Bytes → List Item → CmdOption → CmdOption
settled name [] o = o
settled name (item ∷ items) o = settled name items (settle name item o)

abbrev pub inputs : List Item → List Bytes
inputs [] = []
inputs (input s ∷ items) = s ∷ inputs items
inputs (assigned n v ∷ items) = inputs items
inputs (separate n v ∷ items) = inputs items
inputs (switch n ∷ items) = inputs items

abbrev pub takes_value : CmdOption → Bool × Bool
takes_value o = (o.has_value, o.has_optional_value)

-- what a name was declared with: a value, and whether it may be left out
abbrev pub kind : Bytes → List CmdOption → Option (Bool × Bool)
kind name opts = Option_map takes_value (find_option name opts)

-- a name that asks for nothing but its option
abbrev pub IsWord : Bytes → Type 0
IsWord name =
    IsName name × (eq_bytes name (codes "help") ≡ false) × (eq_bytes name (codes "version") ≡ false)

-- each item is one that its option takes
abbrev pub Fits : (Bytes → Option (Bool × Bool)) → Item → Type 0
Fits kinds (assigned name v) = IsName name × ((k : Bool × Bool) × (kinds name ≡ some k))
Fits kinds (separate name v) =
    IsWord name
    × ((kinds name ≡ some (true, false))
        ⊎ ((kinds name ≡ some (true, true)) × (starts_with_dash v ≡ false)))
Fits kinds (switch name) = IsWord name × (kinds name ≡ some (false, false))
Fits kinds (input s) = IsName s × (starts_with_dash s ≡ false)

-- what is read, beginning with a parser
abbrev pub Reads : CmdLineParser → List Item → Parsed → Type 0
Reads p items result =
    (q : CmdLineParser) × (result ≡ parsed q)
    × (q.positional_args ≡ p.positional_args ++ inputs items)
    × ((name : Bytes)
        → find_option name q.options ≡ Option_map (settled name items) (find_option name p.options))
