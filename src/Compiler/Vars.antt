-- ===== src/Compiler/Vars.antt =====
-- compiler.cpp: the table of variables.
use schwarz_kernel.Prelude.{
  ℕ, ◌+◌, ◌-◌, ◌*◌, ◌/◌, ◌%◌, ◌^◌, Bool, true, false, ◌||◌, Option, none, some, List, [], ◌∷◌, ◌++◌,
  ltb, leb, if◌then◌else◌, bytes_eq, copy_cstr, length,
}
use schwarz_kernel.Compiler.Tokens.{VarType, bt_int, basetype_size}
use schwarz_kernel.Compiler.State.{Var, Action, finished, out_of_bounds, var_place, gets, modify}

-- An int below 0, by its bits.
abbrev pub is_negative : ℕ → Bool
is_negative x = leb (2 ^ 31) x

unfoldable pub type_int : VarType
type_int = record { base = bt_int; is_ptr = false; array_len = 0 }

unfoldable pub find_var : List ℕ → List Var → Option Var
find_var name [] = none
find_var name (v ∷ vs) =
    let rest = find_var name vs in if bytes_eq v.name name then some v else rest

unfoldable pub var_find_ptr : List ℕ → Action (Option Var)
unfolding gets
var_find_ptr name = gets λ s. find_var name s.vars

-- -1 where there is none.
unfoldable pub offset_of : Option Var → ℕ
offset_of none = 2 ^ 32 - 1
offset_of (some v) = v.offset

unfoldable pub var_find : List ℕ → Action ℕ
unfolding gets
var_find name = gets λ s. offset_of (find_var name s.vars)

unfoldable pub type_of : Option Var → VarType
type_of none = type_int
type_of (some v) = v.vtype

unfoldable pub var_get_type : List ℕ → Action VarType
unfolding gets
var_get_type name = gets λ s. type_of (find_var name s.vars)

unfoldable pub initialized_of : Option Var → Bool
initialized_of none = false
initialized_of (some v) = v.initialized

unfoldable pub var_is_initialized : List ℕ → Action Bool
unfolding gets
var_is_initialized name = gets λ s. initialized_of (find_var name s.vars)

-- To a multiple of 8, in an int.
unfoldable pub align_up_8 : ℕ → ℕ
align_up_8 value = (value + 7) % 2 ^ 32 / 8 * 8

-- `element_size * elem_count` is an int: it wraps. `elem_count` is not below 0, where the callers return.
unfoldable pub vartype_storage_size : VarType → ℕ → ℕ
vartype_storage_size vt elem_count =
    let size = basetype_size vt.base in
    let total = if ltb 0 elem_count then size * elem_count % 2 ^ 32 else size in
    align_up_8 (if is_negative total || ltb total 8 then 8 else total)

-- The new variable lies below those before it.
unfoldable pub new_var : List ℕ → VarType → ℕ → ℕ → Var
new_var name vt elem_count top = record {
  name = copy_cstr name 32;
  offset = (top + vartype_storage_size vt elem_count) % 2 ^ 32;
  vtype = vt;
  initialized = false;
  elem_count = elem_count;
}

-- The source writes to `var_table[var_count]` without a test.
unfoldable pub var_alloc : List ℕ → VarType → ℕ → Action ℕ
var_alloc name vt elem_count s =
    let v = new_var name vt elem_count s.stack_size in
    let count = length s.vars in
    if ltb count 64
    then finished v.offset (record s { stack_size = v.offset; vars = s.vars ++ v ∷ [] })
    else out_of_bounds (var_place count) s

unfoldable pub mark_var : List ℕ → List Var → List Var
mark_var name [] = []
mark_var name (v ∷ vs) =
    let rest = mark_var name vs in
    if bytes_eq v.name name then record v { initialized = true } ∷ vs else v ∷ rest

unfoldable pub var_mark_initialized : List ℕ → Action (Unit {0})
unfolding modify
var_mark_initialized name = modify λ s. record s { vars = mark_var name s.vars }
