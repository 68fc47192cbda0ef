-- ===== src/Compiler/Tokens.antt =====
-- compiler.cpp: the base types, the token types and the tables over them.
use schwarz_kernel.Prelude.{
  ℕ, Bool, true, false, Option, none, some, List, codes, bytes_eq, if◌then◌else◌,
}

pub data BaseType : Type 0 where
  bt_char bt_int : BaseType
  bt_int8 bt_int16 bt_int32 bt_int64 : BaseType
  bt_uint8 bt_uint16 bt_uint32 bt_uint64 : BaseType
  bt_uintptr bt_intptr bt_unknown_t : BaseType

-- `array_len` is a count, never negative.
pub record VarType : Type 0 where
  pub base : BaseType
  pub is_ptr : Bool
  pub array_len : ℕ

unfoldable pub basetype_size : BaseType → ℕ
basetype_size bt_char = 1
basetype_size bt_int8 = 1
basetype_size bt_uint8 = 1
basetype_size bt_int16 = 2
basetype_size bt_uint16 = 2
basetype_size bt_int = 4
basetype_size bt_int32 = 4
basetype_size bt_uint32 = 4
basetype_size _ = 8

unfoldable pub basetype_is_signed : BaseType → Bool
basetype_is_signed bt_char = true
basetype_is_signed bt_int = true
basetype_is_signed bt_int8 = true
basetype_is_signed bt_int16 = true
basetype_is_signed bt_int32 = true
basetype_is_signed bt_int64 = true
basetype_is_signed bt_intptr = true
basetype_is_signed _ = false

unfoldable pub pointee_size : VarType → ℕ
pointee_size t = if t.is_ptr then basetype_size t.base else 0

pub data TokenType : Type 0 where
  t_char t_int t_int8 t_int16 t_int32 t_int64 : TokenType
  t_uint8 t_uint16 t_uint32 t_uint64 t_uintptr t_intptr : TokenType
  t_return t_if t_else t_while t_do t_for : TokenType
  t_ident t_number t_assign : TokenType
  t_pluseq t_minuseq t_stareq t_slasheq t_percenteq : TokenType
  t_eq t_neq t_lt t_gt t_leq t_geq : TokenType
  t_plus t_minus t_star t_slash t_percent : TokenType
  t_ampersand t_and t_pipe t_or t_not t_plusplus t_minusminus : TokenType
  t_semicolon t_lparen t_rparen t_lbracket t_rbracket t_lbrace t_rbrace : TokenType
  t_eof t_unknown : TokenType

unfoldable pub token_name : TokenType → List ℕ
token_name t_char = codes "char"
token_name t_int = codes "int"
token_name t_int8 = codes "int8_t"
token_name t_int16 = codes "int16_t"
token_name t_int32 = codes "int32_t"
token_name t_int64 = codes "int64_t"
token_name t_uint8 = codes "uint8_t"
token_name t_uint16 = codes "uint16_t"
token_name t_uint32 = codes "uint32_t"
token_name t_uint64 = codes "uint64_t"
token_name t_uintptr = codes "uintptr_t"
token_name t_intptr = codes "intptr_t"
token_name t_return = codes "return"
token_name t_if = codes "if"
token_name t_else = codes "else"
token_name t_while = codes "while"
token_name t_do = codes "do"
token_name t_for = codes "for"
token_name t_ident = codes "identyfikator"
token_name t_number = codes "liczba"
token_name t_assign = codes "'='"
token_name t_pluseq = codes "'+='"
token_name t_minuseq = codes "'-='"
token_name t_stareq = codes "'*='"
token_name t_slasheq = codes "'/='"
token_name t_percenteq = codes "'%='"
token_name t_eq = codes "'=='"
token_name t_neq = codes "'!='"
token_name t_lt = codes "'<'"
token_name t_gt = codes "'>'"
token_name t_leq = codes "'<='"
token_name t_geq = codes "'>='"
token_name t_plus = codes "'+'"
token_name t_minus = codes "'-'"
token_name t_star = codes "'*'"
token_name t_slash = codes "'/'"
token_name t_percent = codes "'%'"
token_name t_ampersand = codes "'&'"
token_name t_and = codes "'&&'"
token_name t_pipe = codes "'|'"
token_name t_or = codes "'||'"
token_name t_not = codes "'!'"
token_name t_plusplus = codes "'++'"
token_name t_minusminus = codes "'--'"
token_name t_semicolon = codes "';'"
token_name t_lparen = codes "'('"
token_name t_rparen = codes "')'"
token_name t_lbracket = codes "'['"
token_name t_rbracket = codes "']'"
token_name t_lbrace = codes "'{'"
token_name t_rbrace = codes "'}'"
token_name t_eof = codes "koniec pliku"
token_name t_unknown = codes "nieznany"

unfoldable pub is_type_token : TokenType → Bool
is_type_token t_char = true
is_type_token t_int = true
is_type_token t_int8 = true
is_type_token t_int16 = true
is_type_token t_int32 = true
is_type_token t_int64 = true
is_type_token t_uint8 = true
is_type_token t_uint16 = true
is_type_token t_uint32 = true
is_type_token t_uint64 = true
is_type_token t_uintptr = true
is_type_token t_intptr = true
is_type_token _ = false

unfoldable pub token_to_basetype : TokenType → BaseType
token_to_basetype t_char = bt_char
token_to_basetype t_int8 = bt_int8
token_to_basetype t_int16 = bt_int16
token_to_basetype t_int32 = bt_int32
token_to_basetype t_int64 = bt_int64
token_to_basetype t_uint8 = bt_uint8
token_to_basetype t_uint16 = bt_uint16
token_to_basetype t_uint32 = bt_uint32
token_to_basetype t_uint64 = bt_uint64
token_to_basetype t_uintptr = bt_uintptr
token_to_basetype t_intptr = bt_intptr
token_to_basetype _ = bt_int

-- The words that are no identifiers.
unfoldable pub keyword : List ℕ → Option TokenType
keyword buf =
    if bytes_eq buf (codes "return")
    then some t_return
    else if bytes_eq buf (codes "if")
    then some t_if
    else if bytes_eq buf (codes "else")
    then some t_else
    else if bytes_eq buf (codes "while")
    then some t_while
    else if bytes_eq buf (codes "do")
    then some t_do
    else if bytes_eq buf (codes "for")
    then some t_for
    else if bytes_eq buf (codes "char")
    then some t_char
    else if bytes_eq buf (codes "int")
    then some t_int
    else if bytes_eq buf (codes "int8_t")
    then some t_int8
    else if bytes_eq buf (codes "int16_t")
    then some t_int16
    else if bytes_eq buf (codes "int32_t")
    then some t_int32
    else if bytes_eq buf (codes "int64_t")
    then some t_int64
    else if bytes_eq buf (codes "uint8_t")
    then some t_uint8
    else if bytes_eq buf (codes "uint16_t")
    then some t_uint16
    else if bytes_eq buf (codes "uint32_t")
    then some t_uint32
    else if bytes_eq buf (codes "uint64_t")
    then some t_uint64
    else if bytes_eq buf (codes "uintptr_t")
    then some t_uintptr
    else if bytes_eq buf (codes "intptr_t")
    then some t_intptr
    else none
