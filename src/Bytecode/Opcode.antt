-- ===== src/Bytecode/Opcode.antt =====
-- include/opcode.h: the opcodes, their encoding as the position in the enum, and the tables of
-- instruction lengths and mnemonics that the opcode indexes.
pub mod Tables
use charly_vm.Common.{ℕ, ◌+◌, ◌*◌, Option, none, some, List, [], ◌∷◌, get_elem?, get_or}
use Prim.Native.String.{String}

-- enum Opcode
pub data Opcode : Type 0 where
  nop read_local read_member_symbol read_member_value read_array_index read_global : Opcode
  set_local_push set_member_symbol_push set_member_value_push set_array_index_push set_local
        set_member_symbol :
      Opcode
  set_member_value set_array_index set_global set_global_push put_self put_super : Opcode
  put_super_member put_value put_string put_function put_array put_hash : Opcode
  put_class pop_op dup dupn swap call : Opcode
  call_member new_op return_op yield_op throw_op register_catch_table : Opcode
  pop_catch_table branch branch_if branch_unless branch_lt branch_gt : Opcode
  branch_le branch_ge branch_eq branch_neq add_op sub_op : Opcode
  mul_op div_op mod_op pow_op eq_op neq_op : Opcode
  lt_op gt_op le_op ge_op shr shl : Opcode
  and_op or_op xor_op uadd usub unot : Opcode
  ubnot halt typeof syscall : Opcode

-- The byte of an opcode.
unfoldable pub byte_of : Opcode → ℕ
byte_of nop = 0
byte_of read_local = 1
byte_of read_member_symbol = 2
byte_of read_member_value = 3
byte_of read_array_index = 4
byte_of read_global = 5
byte_of set_local_push = 6
byte_of set_member_symbol_push = 7
byte_of set_member_value_push = 8
byte_of set_array_index_push = 9
byte_of set_local = 10
byte_of set_member_symbol = 11
byte_of set_member_value = 12
byte_of set_array_index = 13
byte_of set_global = 14
byte_of set_global_push = 15
byte_of put_self = 16
byte_of put_super = 17
byte_of put_super_member = 18
byte_of put_value = 19
byte_of put_string = 20
byte_of put_function = 21
byte_of put_array = 22
byte_of put_hash = 23
byte_of put_class = 24
byte_of pop_op = 25
byte_of dup = 26
byte_of dupn = 27
byte_of swap = 28
byte_of call = 29
byte_of call_member = 30
byte_of new_op = 31
byte_of return_op = 32
byte_of yield_op = 33
byte_of throw_op = 34
byte_of register_catch_table = 35
byte_of pop_catch_table = 36
byte_of branch = 37
byte_of branch_if = 38
byte_of branch_unless = 39
byte_of branch_lt = 40
byte_of branch_gt = 41
byte_of branch_le = 42
byte_of branch_ge = 43
byte_of branch_eq = 44
byte_of branch_neq = 45
byte_of add_op = 46
byte_of sub_op = 47
byte_of mul_op = 48
byte_of div_op = 49
byte_of mod_op = 50
byte_of pow_op = 51
byte_of eq_op = 52
byte_of neq_op = 53
byte_of lt_op = 54
byte_of gt_op = 55
byte_of le_op = 56
byte_of ge_op = 57
byte_of shr = 58
byte_of shl = 59
byte_of and_op = 60
byte_of or_op = 61
byte_of xor_op = 62
byte_of uadd = 63
byte_of usub = 64
byte_of unot = 65
byte_of ubnot = 66
byte_of halt = 67
byte_of typeof = 68
byte_of syscall = 69

abbrev pub all_opcodes : List Opcode
all_opcodes =
    nop ∷ read_local ∷ read_member_symbol ∷ read_member_value ∷ read_array_index ∷ read_global
    ∷ set_local_push ∷ set_member_symbol_push ∷ set_member_value_push ∷ set_array_index_push
    ∷ set_local ∷ set_member_symbol ∷ set_member_value ∷ set_array_index ∷ set_global
    ∷ set_global_push ∷ put_self ∷ put_super ∷ put_super_member ∷ put_value ∷ put_string
    ∷ put_function ∷ put_array ∷ put_hash ∷ put_class ∷ pop_op ∷ dup ∷ dupn ∷ swap ∷ call
    ∷ call_member ∷ new_op ∷ return_op ∷ yield_op ∷ throw_op ∷ register_catch_table
    ∷ pop_catch_table ∷ branch ∷ branch_if ∷ branch_unless ∷ branch_lt ∷ branch_gt ∷ branch_le
    ∷ branch_ge ∷ branch_eq ∷ branch_neq ∷ add_op ∷ sub_op ∷ mul_op ∷ div_op ∷ mod_op ∷ pow_op
    ∷ eq_op ∷ neq_op ∷ lt_op ∷ gt_op ∷ le_op ∷ ge_op ∷ shr ∷ shl ∷ and_op ∷ or_op ∷ xor_op ∷ uadd
    ∷ usub ∷ unot ∷ ubnot ∷ halt ∷ typeof ∷ syscall ∷ []

-- The opcode that a byte encodes.
unfoldable pub of_byte : ℕ → Option Opcode
of_byte b = get_elem? all_opcodes b

abbrev pub i8 : ℕ
i8 = 1

abbrev pub i16 : ℕ
i16 = 2

abbrev pub i32 : ℕ
i32 = 4

abbrev pub i64 : ℕ
i64 = 8

-- kInstructionLengths
abbrev pub instruction_lengths : List ℕ
instruction_lengths =
    1
    ∷ (1 + i32 + i32)
    ∷ (1 + i64)
    ∷ 1
    ∷ (1 + i32)
    ∷ (1 + i64)
    ∷ (1 + i32 + i32)
    ∷ (1 + i64)
    ∷ 1
    ∷ (1 + i32)
    ∷ (1 + i32 + i32)
    ∷ (1 + i64)
    ∷ 1
    ∷ (1 + i32)
    ∷ (1 + i64)
    ∷ (1 + i64)
    ∷ 1
    ∷ 1
    ∷ (1 + i64)
    ∷ (1 + i64)
    ∷ (1 + i32 + i32)
    ∷ (1 + i64 + i32 + i8 * 2 + i32 + i32 + i32)
    ∷ (1 + i32)
    ∷ (1 + i32)
    ∷ (1 + i64 + i32 * 4 + i8 + i8)
    ∷ 1
    ∷ 1
    ∷ (1 + i32)
    ∷ 1
    ∷ (1 + i32)
    ∷ (1 + i32)
    ∷ (1 + i32)
    ∷ 1
    ∷ 1
    ∷ 1
    ∷ (1 + i32)
    ∷ 1
    ∷ (1 + i32)
    ∷ (1 + i32)
    ∷ (1 + i32)
    ∷ (1 + i32)
    ∷ (1 + i32)
    ∷ (1 + i32)
    ∷ (1 + i32)
    ∷ (1 + i32)
    ∷ (1 + i32)
    ∷ 1
    ∷ 1
    ∷ 1
    ∷ 1
    ∷ 1
    ∷ 1
    ∷ 1
    ∷ 1
    ∷ 1
    ∷ 1
    ∷ 1
    ∷ 1
    ∷ 1
    ∷ 1
    ∷ 1
    ∷ 1
    ∷ 1
    ∷ 1
    ∷ 1
    ∷ 1
    ∷ 1
    ∷ 1
    ∷ 1
    ∷ (1 + i16)
    ∷ []

-- kInstructionLengths[opcode]
unfoldable pub instruction_length : Opcode → ℕ
instruction_length op = get_or instruction_lengths (byte_of op) 0

-- kOpcodeMnemonics
abbrev pub opcode_mnemonics : List String
opcode_mnemonics =
    "nop" ∷ "readlocal" ∷ "readmembersymbol" ∷ "readmembervalue" ∷ "readarrayindex" ∷ "readglobal"
    ∷ "setlocalpush" ∷ "setmembersymbolpush" ∷ "setmembervaluepush" ∷ "setarrayindexpush"
    ∷ "setlocal" ∷ "setmembersymbol" ∷ "setmembervalue" ∷ "setarrayindex" ∷ "setglobal"
    ∷ "setglobalpush" ∷ "putself" ∷ "putsuper" ∷ "putsupermember" ∷ "putvalue" ∷ "putstring"
    ∷ "putfunction" ∷ "putarray" ∷ "puthash" ∷ "putclass" ∷ "pop" ∷ "dup" ∷ "dupn" ∷ "swap" ∷ "call"
    ∷ "callmember" ∷ "new" ∷ "return" ∷ "yield" ∷ "throw" ∷ "registercatchtable" ∷ "popcatchtable"
    ∷ "branch" ∷ "branchif" ∷ "branchunless" ∷ "branchlt" ∷ "branchgt" ∷ "branchle" ∷ "branchge"
    ∷ "brancheq" ∷ "branchneq" ∷ "add" ∷ "sub" ∷ "mul" ∷ "div" ∷ "mod" ∷ "pow" ∷ "eq" ∷ "neq" ∷ "lt"
    ∷ "gt" ∷ "le" ∷ "ge" ∷ "shr" ∷ "shl" ∷ "and" ∷ "or" ∷ "xor" ∷ "uadd" ∷ "usub" ∷ "unot" ∷ "ubnot"
    ∷ "halt" ∷ "typeof" ∷ "syscall" ∷ []

-- kOpcodeMnemonics[opcode]
unfoldable pub mnemonic : Opcode → String
mnemonic op = get_or opcode_mnemonics (byte_of op) ""
