-- ===== src/Correct.antt =====
-- The code that src/ir.cpp emits, run by src/bytecodeinterpreter.cpp, against what the program means.
pub mod Fetch
pub mod Cells
pub mod Instructions
pub mod Expression
pub mod Statement
pub mod Program
pub mod Source
pub mod Written
