-- ===== src/Tests/Frontend.antt =====
-- The theorems on src/lexer.cpp, src/parser.cpp and the tables of src/include/types.h and src/include/opcode.h, at concrete inputs.
use core_vm.Base.{suc, ◌≡◌, ◌≢◌, refl, true, [], arith, length}
use core_vm.Base.Outcome.{Ends, ok}
use core_vm.Types.{codes, double, contain_type}
use core_vm.Types.Registry.{contains, init_intrinsic_type, initial, contains-init}
use core_vm.Lexer.{lex}
use core_vm.Lexer.Long.{HasLongNumber}
use core_vm.Lexer.Ends.{lex-Ends, lex_endless}
use core_vm.Parser.{add_symbol, find}
use core_vm.Parser.Symbols.{IsSeparate, or_new, add_symbol-IsSeparate}
use core_vm.Parser.Typed.{Typed}
use core_vm.Parser.Statements.{TableValid}
use core_vm.Ir.Verify.{verify}
use core_vm.Ir.Verified.{Decides, verify-Decides}
use core_vm.Ir.Dump.{dump}
use core_vm.Ir.Dumped.{Writes, dump-Writes}
use core_vm.Tests.{test_fpu, source, name_x, difference, table_x, Name, int, name_eq}

lex-Ends_example :
    Ends (HasLongNumber source) (λ ts. Unit {0}) (lex test_fpu (suc (length source)) source)
lex-Ends_example = lex-Ends test_fpu source refl

lex_endless_example : lex test_fpu 100 (codes "x = y") ≢ ok []
lex_endless_example = lex_endless test_fpu (codes "x = y") 100 [] refl

-- another name is added to a table that has one
table_x-IsSeparate : IsSeparate table_x
unfolding add_symbol find
table_x-IsSeparate = (add_symbol-IsSeparate name_x int [] tt (λ x y ix s t hx hy. cc)).3

add_symbol-IsSeparate_example :
    ((add_symbol (codes "y") double table_x).0 ≡ length table_x)
    × ((other : Name)
        → find other (add_symbol (codes "y") double table_x).1
          ≡ or_new
              (find other table_x)
              (name_eq other (codes "y"))
              ((add_symbol (codes "y") double table_x).0, double))
    × TableValid (add_symbol (codes "y") double table_x).1
    × IsSeparate (add_symbol (codes "y") double table_x).1
add_symbol-IsSeparate_example =
    add_symbol-IsSeparate (codes "y") double table_x (omega arith, tt) table_x-IsSeparate

verify-Decides_example : Decides true (verify difference)
verify-Decides_example = verify-Decides 1 difference (refl, refl, refl, refl, refl)

dump-Writes_example : Writes true (dump (λ n. []) (λ n. []) difference [])
dump-Writes_example = dump-Writes (λ n. []) (λ n. []) 1 difference [] (refl, refl, refl, refl, refl)

contains-init_example :
    contains (init_intrinsic_type initial) (codes "long") ≡ contain_type (codes "long")
contains-init_example = contains-init (codes "long")
