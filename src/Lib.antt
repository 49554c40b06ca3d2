-- ===== src/Lib.antt =====
-- Verification of core-vm, a compiler from a small typed language to bytecode and an interpreter of
-- that bytecode.
--
-- The program. `main` (main.cpp) makes a Compiler (src/compiler.cpp) for a file. Compile reads the file
-- into a FileInputStream (src/include/loader.h), makes tokens of it (CoreVMLexer::DoParse,
-- src/lexer.cpp), makes a tree of them (Parser::Build, src/parser.cpp; the nodes are in
-- src/include/ir.h), dumps the tree as text and emits it into a CVMAssembler
-- (src/include/assembler.h). ByteCodeInterpreter::Run (src/bytecodeinterpreter.cpp) runs the code on an
-- operand stack and a table of local variables.
--
-- The files, by the code they model:
--   OpCode                  src/include/opcode.h: the operation codes and their numbers
--   Types, Types.Registry   src/include/types.h, src/types.cpp and the members of CVMType in
--                           src/parser.cpp: the types, and the table of their names
--   Util                    src/util.cpp: the operation codes of loads and stores
--   Loader                  src/include/loader.h: the stream of bytes and its cursor
--   Adt                     src/include/lexer.h: tokens; the union is its eight bytes
--   Adt.Objects, Adt.Owners src/lexer.cpp: the constructors, assignments and destructor of a token, and
--                           who owns its string; Adt.Balance and Adt.Ownership count the blocks
--   Lexer                   src/lexer.cpp: DoParse; Lexer.Scan, Lexer.Rounds and Lexer.Ends follow the
--                           cursor through a token, a round and the file, and Lexer.Long has the
--                           numbers that are too long for their array
--   Parser                  src/parser.cpp: every production, and the table of symbols, which is passed
--                           on; Parser.Typed, Parser.Statements and Parser.Programs are about the trees,
--                           Parser.Symbols is about the table
--   Lexer.Serialize         src/lexer.cpp: the two Serialize members; Lexer.Serialized is about their text.
--                           Lexer.Lexemes, Lexer.Streams, Lexer.Numbers, Lexer.Reading and
--                           Lexer.RoundTrip read the text of tokens back
--   Parser.Grammar, Parser.Sentences   the grammar of expressions and of statements, with their tokens
--                           and trees, against which Parser.Expressions and Parser.Reads hold the
--                           parser; Parser.Binds, Parser.Steps, Parser.Calls and Parser.Fuel have the
--                           steps
--   Ir                      src/include/ir.h: the nodes and their constructors
--   Ir.Emit, Ir.Dump, Ir.Verify   src/ir.cpp: the members Emit, Dump and Verify
--   Ir.Typing               what a well-typed tree is; Ir.Code and Ir.ProgramCode: the bytes of a tree
--   Assembler               src/include/assembler.h: the buffer that doubles, as the bytes written.
--                           Assembler.Memory is the block that is allocated and grown, which
--                           Assembler.Refined holds against those bytes; Assembler.ReadBack reads them
--   Word, Fpu               arithmetic on `int`, and that on `float` and `double`, which is a parameter;
--                           Word.Signed and Word.Divided have the signed integers that it is about
--   Interpreter             src/bytecodeinterpreter.cpp: the machine, one function for each kind of
--                           instruction, and the loop of Run
--   Semantics               an evaluator of trees, which the compiled code is held against
--   Compiler                src/compiler.cpp and main.cpp: the parts, one behind the other
--   Main                    main.cpp: CVMConfig and main; Main.Options and Main.Runs are about them
--   Correct                 the simulation of the evaluator by the machine, up to whole source files
--                           (Correct.Source) and programs given by their statements (Correct.Written)
--   Arm64                   src/templategenerator.cpp: the encoders of Arm64 instructions, which give the
--                           words that they emit; Arm64.Moves, Arm64.Arithmetic, Arm64.Memory,
--                           Arm64.Pairs, Arm64.PreIndex, Arm64.Registers and Arm64.Branch read the
--                           words back by the manual of the instructions, and Arm64.Bits has the or
--                           of fields
--   Arm64.CodeBuffer        src/include/templategenerator.h: the buffer that the words are emitted into;
--                           Arm64.Snippets is about the snippets in it
--   Arm64.Regs, Arm64.Generator   src/cpu/arm64/arm64_regs.h and AsmGenerator: the registers, and the
--                           table of generated code, which is a stub
--   Base                    what the others share; Base.Outcome has the ways in which code can end
--
-- State and errors. A function that changes an object takes it and returns it. `panic`, a failed
-- assertion, an access outside of an object and the signal of a division are outcomes of their own.
-- Memory from `malloc` holds arbitrary values, which are parameters. Numbers are natural numbers;
-- a machine integer is its bits, with the wrap-around written out. The native `int` of cursors and
-- positions is not bounded, except that of the capacity of the assembler, which its assertions check.
--
-- Fuel. DoParse takes its fuel as an argument, since it does not end on every file; the loops
-- inside a token take the length of the buffer. The parser takes four rounds for each token left
-- and three more in an expression, and one for each token in a program; RoundUp takes 32, one for
-- each bit, which is enough up to 2 ^ 30; Run takes one for each byte of code and one more. Digits
-- are printed on 20, the most that 64 bits have.
--
-- Not modelled: the reading of the file, what is written to the terminal, Hexdump in main.cpp, the
-- mapping of memory (mmap), and of the Arm64 parts the interpreter made of hand-written assembly
-- (src/asminterpreter.cpp, src/cpu/arm64), which is a parameter of `main`. The reference semantics of
-- Arm64 instructions is that of the fields named in these files, not of the processor.
pub mod Base
pub mod OpCode
pub mod Types
pub mod Util
pub mod Assembler
pub mod Adt
pub mod Ir
pub mod Fpu
pub mod Word
pub mod Interpreter
pub mod Semantics
pub mod Correct
pub mod Compiler
pub mod Parser
pub mod Loader
pub mod Lexer
pub mod Main
pub mod Arm64
pub mod Tests
