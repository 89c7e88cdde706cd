-- ===== src/Elab/Reg.antt =====
-- What `calculate_node_size` in elaborator.cpp does with the fields of a register.
pub mod ArrayOrder
pub mod Positions
pub mod Check
pub mod Gaps
pub mod Reset
pub mod Size
