-- ===== src/Lib.antt =====
-- systemrdl-toolkit: a toolkit for SystemRDL, the language that describes the registers of a
-- chip. This library models its own logic and proves what it does; the root of the repository is
-- the root of the paths below.
--
-- The program's parts and how they work together:
--   * `csv_to_rdl` in systemrdl_api.cpp turns a table of registers into SystemRDL. `CSVParser`
--     splits the text into logical lines, finds the delimiter of each, splits it into fields,
--     matches the header's names with the columns of the format, cleans the values and checks
--     the order of the rows and their values; `RDLGenerator` writes the rows that pass as nested
--     blocks. An error of the checks is the error of the call.
--   * `SystemRDLElaborator` in elaborator.cpp makes a tree of nodes (elaborator.h) out of a parse
--     tree: it collects the definitions that have names, then walks the body of the first address
--     map and the bodies of what is instantiated there, and evaluates expressions on the way, with
--     the parameters of the component that it is in. Once the fields of a register are known,
--     `calculate_node_size` gives a position to those that have none, checks that they lie in
--     the register and share no bit, fills the gaps with reserved fields, and computes and
--     checks the reset value. Once the tree is complete, `validate_instance_addresses` checks
--     that no instances share an address. Errors are collected, in the order of the reports.
--   * The parser is generated from SystemRDL.g4 by ANTLR. `parse`, `elaborate` and
--     `elaborate_simplified` run it on a text and write its tree, or the model, as JSON; an error
--     of the syntax or of the elaborator is the error of the call. The functions on files and
--     streams wrap these calls, and the programs, which read their options with `CmdLineParser`,
--     wrap those.
--
-- Which file models which part:
--   * Base: lists, byte strings (`std::string`), decimal numbers (`std::to_string`) and tests on
--     numbers that the parts share. Base/Int: integers. Base/Options: chains of results.
--   * Csv/Clean, Csv/Scan, Csv/Header, Csv/Row, Csv/Validate, Csv/Content: the functions of
--     `CSVParser`, each under its own name. A loop over characters is a step on a record of the
--     loop's variables (`line_step`, `field_step`, `content_step`). `validate_csv_structure`
--     returns the first error as a value, and `error_message` its text.
--   * Rdl: `RDLGenerator`, with `generate_row` for the body of its loop, and the lexer rule STRING
--     of SystemRDL.g4. Rdl/Tree: the blocks of a table as a tree, and how a tree is written.
--   * Api: `csv_to_rdl` and `Result`. Api/Calls: `CapturingErrorListener`, `parse`, `elaborate`
--     and `elaborate_simplified`. Api/Json: the conversions of parse trees and of nodes to JSON.
--     Api/Simplified: `extract_registers_simplified`, which passes its arrays and paths on as a
--     record, and `convert_elaborated_node_to_simplified_json`. Api/Wrappers: the functions on
--     files and streams.
--   * Elab/Model: the classes of elaborator.h. A node carries the members of its class as a
--     `NodeKind`; the parent is known to who walks the tree.
--   * Elab/ExprTree, Elab/Tree: the parse trees that the rules of SystemRDL.g4 describe, as far as
--     the elaborator reads them.
--   * Elab/Int64: the operators of `int64_t` on bit patterns. Elab/Numbers: `std::stoll` and
--     `std::stoull`. Elab/Expr: `evaluate_expression` and the functions that call it.
--   * Elab/Table, Elab/Definitions: the tables of named components, enumerations and structures,
--     and the passes that fill them; `parse_parameter_definitions` and
--     `parse_parameter_assignments`.
--   * Elab/State: the members of the elaborator that change while it walks, the results of a step
--     and `report_error`. Elab/Assign: `create_elaborated_node`, `elaborate_field_bit_range` and
--     `elaborate_local_property_assignment`. Elab/Walk: `elaborate` and the functions on bodies
--     and instances.
--   * Elab/Params: `apply_parameter_assignments`, which gives the parameters their values.
--   * Elab/Reg/ArrayOrder and Elab/Reg/Positions: `assign_automatic_field_positions` and
--     `calculate_next_available_bit`. Elab/Reg/Check: `validate_register_fields`. Elab/Reg/Gaps:
--     `detect_and_fill_register_gaps`. Elab/Reg/Reset: `calculate_register_reset_value` and
--     `validate_register_reset_value`. Elab/Reg/Size: the branch of `calculate_node_size` for
--     registers, which runs them one after the other.
--   * Elab/Addr: `validate_instance_addresses`. Elab/Ranges: the pairs of nested loops that
--     compare every two elements, and what they find out of a family of ranges.
--   * Elab/NodeSize: `calculate_node_size` on every kind of node, and `resolve_parameter_reference`
--     on the parameters that have a value, which are an argument.
--   * Elab/ExprText: `evaluate_expression_from_string`, one definition for each pattern of the text
--     that it tries.
--   * Elab/Lookup: the searches for a child by name, address or bit range. Elab/AddressMap:
--     `AddressMapGenerator` and the traversal that it is driven by.
--   * CmdLine: `CmdLineParser` of cmdline_parser.h, whose loop takes one or two arguments in a
--     round. CmdLine/Items: command lines as lists of what they say.
--   * Programs: the names of the files that the command-line programs write to. Programs/Printer:
--     `ElaboratedModelPrinter` and `printAST`.
--   * Tests: the model on concrete inputs.
--
-- Numbers: `size_t` and `uint64_t` are natural numbers with the wrap-around of a sum or
-- difference written out (`add64`, `sub64`); `int64_t` is its bit pattern; the `int` of an array
-- index is its distance from the least `int`. Most loops are recursion on a list. Those that are
-- not go on the rounds that are left: one for each bit of a register or field, 64 for a number of
-- 64 bits and for an exponent, 16 for its hexadecimal digits, one for each character of a text
-- whose every round takes at least one or goes on with a shorter text, one more than the number
-- for its decimal digits, as every round divides it by ten, and one more than the definitions for
-- the defaults of parameters, as every round but the last resolves one. The value of a text and the
-- loop over the defaults are `none` when the rounds run out, which is apart from every result. The
-- walk over bodies goes into the body of a named component, which is no part of the body that it
-- stands in: it takes the depth of bodies that it may go down as an argument and gives `too_deep`
-- below that, and Elab/Walk/Depth says which depth is enough.
--
-- Parameters: what the parser that ANTLR generates reports and returns for a text
-- (`ParserLibrary`), the values of nlohmann::json and what is done to them (`JsonLibrary`), what
-- exceptions of the standard library say (`ExceptionTexts`) and what is read from a file or a
-- stream (`Reading`).
--
-- Not modelled: the generated parser and lexer, whose trees are data here; the rest
-- of the command-line programs and the example, which are input and output around the calls.
mod Base
pub mod Csv
pub mod Rdl
pub mod Api
pub mod Elab
pub mod CmdLine
pub mod Programs
mod Tests
