-- ===== src/Elab.antt =====
-- The elaborator, elaborator.h and elaborator.cpp: the model of nodes, the steps of
-- `SystemRDLElaborator` on registers and instances, and what reads the tree afterwards.
pub mod Model
pub mod Ranges
pub mod Reg
pub mod Addr
pub mod Lookup
pub mod NodeSize
pub mod ExprText
pub mod Int64
pub mod ExprTree
pub mod Numbers
pub mod Expr
pub mod Table
pub mod Tree
pub mod Definitions
pub mod State
pub mod Assign
pub mod Walk
pub mod Params
pub mod AddressMap
