-- ===== src/Util.antt =====
-- src/util.cpp: the operation codes by which a variable of a type is stored and loaded.
use core_vm.Base.Outcome.{Outcome, ok, panicked, unknown_type}
use core_vm.OpCode.{OpCode, store_d, store_f, store_i, store_l, load_d, load_f, load_i, load_l}
use core_vm.Types.{CvmType, int, float, double, long, void}

unfoldable pub get_store_opcode_by_type : CvmType → Outcome OpCode
get_store_opcode_by_type double = ok store_d
get_store_opcode_by_type float = ok store_f
get_store_opcode_by_type int = ok store_i
get_store_opcode_by_type long = ok store_l
get_store_opcode_by_type void = panicked unknown_type

unfoldable pub get_load_opcode_by_type : CvmType → Outcome OpCode
get_load_opcode_by_type double = ok load_d
get_load_opcode_by_type float = ok load_f
get_load_opcode_by_type int = ok load_i
get_load_opcode_by_type long = ok load_l
get_load_opcode_by_type void = panicked unknown_type
