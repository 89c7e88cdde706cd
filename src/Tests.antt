-- ===== src/Tests.antt =====
-- Runs of the model on concrete inputs, and the theorems at inputs that meet their hypotheses.
mod CsvInput
mod CsvOutput
mod Registers
mod Instances
mod Nodes
mod Expressions
mod Parameters
mod ParsedExpressions
mod Elaboration
mod Simplified
mod CommandLine
mod FileNames
