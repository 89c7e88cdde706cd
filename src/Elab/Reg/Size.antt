-- ===== src/Elab/Reg/Size.antt =====
-- The branch of `calculate_node_size` in elaborator.cpp for registers, which runs the steps on the
-- fields one after the other. `none` is the exception of the reset value; `register_width` has 32
-- bits, and so has the sum that is divided.
pub mod Whole
use systemrdl_toolkit.Base.{ℕ, ◌+◌, ◌/◌, ◌%◌, ◌^◌, List, ◌++◌, Bytes, Option, none, some}
use systemrdl_toolkit.Elab.Model.{RegInfo, NodeInfo, Nodes, ElaborationError}
use systemrdl_toolkit.Elab.Reg.Positions.{Placing, assign_automatic_field_positions}
use systemrdl_toolkit.Elab.Reg.Check.{validate_register_fields}
use systemrdl_toolkit.Elab.Reg.Gaps.{detect_and_fill_register_gaps}
use systemrdl_toolkit.Elab.Reg.Reset.{calculate_register_reset_value, validate_register_reset_value}

-- the members of a register that are written, and the errors in the order of the reports
pub record SizedRegister : Type 0 where
  pub children : Nodes
  pub size : ℕ
  pub register_reset_hex : Bytes
  pub errors : List ElaborationError

-- the fields with their positions and with the gaps filled
abbrev pub placed_children : RegInfo → Nodes → Nodes
placed_children r children =
    let placed = assign_automatic_field_positions r children in placed.children

abbrev pub filled_children : RegInfo → NodeInfo → Nodes → Nodes
filled_children r info children = detect_and_fill_register_gaps r info (placed_children r children)

unfoldable pub calculate_register_size : RegInfo → NodeInfo → Nodes → Option SizedRegister
unfolding assign_automatic_field_positions validate_register_fields detect_and_fill_register_gaps
    calculate_register_reset_value validate_register_reset_value
calculate_register_size r info children =
    let placed = assign_automatic_field_positions r children in
    let filled = filled_children r info children in
    elim (calculate_register_reset_value r filled) [
      | none ↦ none
      | some hex ↦ some (record {
        children = filled;
        size = ((r.register_width + 7) % 2 ^ 32) / 8;
        register_reset_hex = hex;
        errors =
            placed.errors
            ++ (validate_register_fields r placed.children ++ validate_register_reset_value filled);
      })
    ]
