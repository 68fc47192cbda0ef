-- ===== src/Compiler/Emitter.antt =====
-- compiler.cpp: the emitter. A signed operand is given by its bits.
use schwarz_kernel.Prelude.{
  ℕ, ◌+◌, ◌-◌, ◌/◌, ◌%◌, ◌^◌, Bool, ◌||◌, List, [], ◌∷◌, ◌++◌, ◌==◌, ltb, leb, if◌then◌else◌, sub32,
}
use schwarz_kernel.Compiler.State.{
  Action, finished, out_of_bounds, code_place, pure, gets, modify, ◌>>=◌, ◌>>◌,
}

abbrev pub write_byte : ℕ → ℕ → (ℕ → ℕ) → ℕ → ℕ
write_byte i b code x = if x == i then b else code x

-- A full buffer drops the byte.
unfoldable pub emit_byte : ℕ → Action (Unit {0})
unfolding modify
emit_byte b = modify λ s.
    if ltb s.code_idx 65536
    then record s { code_buffer = write_byte s.code_idx b s.code_buffer; code_idx = s.code_idx + 1 }
    else s

-- `emit_byte` on each.
unfoldable pub emit : List ℕ → Action (Unit {0})
unfolding pure
emit [] = pure tt
emit (b ∷ bs) = emit_byte b >> emit bs

unfoldable pub i32_bytes : ℕ → List ℕ
i32_bytes v = v % 256 ∷ v / 2 ^ 8 % 256 ∷ v / 2 ^ 16 % 256 ∷ v / 2 ^ 24 % 256 ∷ []

unfoldable pub emit_i32 : ℕ → Action (Unit {0})
emit_i32 v = emit (i32_bytes v)

unfoldable pub emit_i64 : ℕ → Action (Unit {0})
emit_i64 v = emit (i32_bytes v ++ i32_bytes (v / 2 ^ 32))

-- `-off`, as an int
abbrev pub neg32 : ℕ → ℕ
neg32 off = sub32 0 off

abbrev pub push_rbp : List ℕ
push_rbp = 0x55 ∷ []

abbrev pub mov_rbp_rsp : List ℕ
mov_rbp_rsp = 0x48 ∷ 0x89 ∷ 0xE5 ∷ []

unfoldable pub emit_push_rbp : Action (Unit {0})
emit_push_rbp = emit push_rbp

unfoldable pub emit_mov_rbp_rsp : Action (Unit {0})
emit_mov_rbp_rsp = emit mov_rbp_rsp

unfoldable pub emit_mov_rsp_rbp : Action (Unit {0})
emit_mov_rsp_rbp = emit (0x48 ∷ 0x89 ∷ 0xEC ∷ [])

unfoldable pub emit_pop_rbp : Action (Unit {0})
emit_pop_rbp = emit (0x5D ∷ [])

unfoldable pub emit_ret : Action (Unit {0})
emit_ret = emit (0xC3 ∷ [])

unfoldable pub emit_sub_rsp : ℕ → Action (Unit {0})
emit_sub_rsp n = emit (0x48 ∷ 0x81 ∷ 0xEC ∷ []) >> emit_i32 n

-- A value that fits an int is written as one.
unfoldable pub emit_mov_rax_imm64 : ℕ → Action (Unit {0})
emit_mov_rax_imm64 val =
    if ltb val (2 ^ 31) || leb (2 ^ 64 - 2 ^ 31) val
    then emit (0x48 ∷ 0xC7 ∷ 0xC0 ∷ []) >> emit_i32 (val % 2 ^ 32)
    else emit (0x48 ∷ 0xB8 ∷ []) >> emit_i64 val

unfoldable pub emit_store_rax_sized : ℕ → ℕ → Action (Unit {0})
emit_store_rax_sized off sz =
    if sz == 1
    then emit (0x88 ∷ 0x85 ∷ []) >> emit_i32 (neg32 off)
    else if sz == 2
    then emit (0x66 ∷ 0x89 ∷ 0x85 ∷ []) >> emit_i32 (neg32 off)
    else if sz == 4
    then emit (0x89 ∷ 0x85 ∷ []) >> emit_i32 (neg32 off)
    else emit (0x48 ∷ 0x89 ∷ 0x85 ∷ []) >> emit_i32 (neg32 off)

unfoldable pub emit_load_rax_sized : ℕ → ℕ → Bool → Action (Unit {0})
emit_load_rax_sized off sz sgn =
    if sz == 1
    then emit (0x48 ∷ 0x0F ∷ (if sgn then 0xBE else 0xB6) ∷ 0x85 ∷ []) >> emit_i32 (neg32 off)
    else if sz == 2
    then emit (0x48 ∷ 0x0F ∷ (if sgn then 0xBF else 0xB7) ∷ 0x85 ∷ []) >> emit_i32 (neg32 off)
    else if sz == 4
    then emit (if sgn then 0x48 ∷ 0x63 ∷ 0x85 ∷ [] else 0x8B ∷ 0x85 ∷ []) >> emit_i32 (neg32 off)
    else emit (0x48 ∷ 0x8B ∷ 0x85 ∷ []) >> emit_i32 (neg32 off)

unfoldable pub emit_lea_rax : ℕ → Action (Unit {0})
emit_lea_rax off = emit (0x48 ∷ 0x8D ∷ 0x85 ∷ []) >> emit_i32 (neg32 off)

unfoldable pub emit_push_rax : Action (Unit {0})
emit_push_rax = emit (0x50 ∷ [])

unfoldable pub emit_pop_rcx : Action (Unit {0})
emit_pop_rcx = emit (0x59 ∷ [])

unfoldable pub emit_store_rcx_via_rax : ℕ → Action (Unit {0})
emit_store_rcx_via_rax sz =
    if sz == 1
    then emit (0x88 ∷ 0x08 ∷ [])
    else if sz == 2
    then emit (0x66 ∷ 0x89 ∷ 0x08 ∷ [])
    else if sz == 4
    then emit (0x89 ∷ 0x08 ∷ [])
    else emit (0x48 ∷ 0x89 ∷ 0x08 ∷ [])

unfoldable pub emit_load_via_rax : ℕ → Bool → Action (Unit {0})
emit_load_via_rax sz sgn =
    if sz == 1
    then emit (0x48 ∷ 0x0F ∷ (if sgn then 0xBE else 0xB6) ∷ 0x00 ∷ [])
    else if sz == 2
    then emit (0x48 ∷ 0x0F ∷ (if sgn then 0xBF else 0xB7) ∷ 0x00 ∷ [])
    else if sz == 4
    then emit (if sgn then 0x48 ∷ 0x63 ∷ 0x00 ∷ [] else 0x8B ∷ 0x00 ∷ [])
    else emit (0x48 ∷ 0x8B ∷ 0x00 ∷ [])

unfoldable pub emit_add_rax_rcx : Action (Unit {0})
emit_add_rax_rcx = emit (0x48 ∷ 0x01 ∷ 0xC8 ∷ [])

unfoldable pub emit_sub_rcx_rax : Action (Unit {0})
emit_sub_rcx_rax = emit (0x48 ∷ 0x29 ∷ 0xC1 ∷ 0x48 ∷ 0x89 ∷ 0xC8 ∷ [])

unfoldable pub emit_imul_rax_rcx : Action (Unit {0})
emit_imul_rax_rcx = emit (0x48 ∷ 0x0F ∷ 0xAF ∷ 0xC1 ∷ [])

unfoldable pub emit_div_prepare : Action (Unit {0})
emit_div_prepare = emit (0x48 ∷ 0x91 ∷ 0x48 ∷ 0x99 ∷ 0x48 ∷ 0xF7 ∷ 0xF9 ∷ [])

unfoldable pub emit_mod_to_rax : Action (Unit {0})
emit_mod_to_rax = emit (0x48 ∷ 0x89 ∷ 0xD0 ∷ [])

unfoldable pub emit_imul_rax_imm : ℕ → Action (Unit {0})
emit_imul_rax_imm imm = emit (0x48 ∷ 0x69 ∷ 0xC0 ∷ []) >> emit_i32 imm

unfoldable pub emit_cmp_rcx_rax : Action (Unit {0})
emit_cmp_rcx_rax = emit (0x48 ∷ 0x39 ∷ 0xC1 ∷ [])

unfoldable pub emit_setcc_to_rax : ℕ → Action (Unit {0})
emit_setcc_to_rax op = emit (0x0F ∷ op ∷ 0xC0 ∷ 0x48 ∷ 0x0F ∷ 0xB6 ∷ 0xC0 ∷ [])

unfoldable pub emit_bool_normalize_rax : Action (Unit {0})
emit_bool_normalize_rax =
    emit (0x48 ∷ 0x85 ∷ 0xC0 ∷ 0x0F ∷ 0x95 ∷ 0xC0 ∷ 0x48 ∷ 0x0F ∷ 0xB6 ∷ 0xC0 ∷ [])

unfoldable pub emit_and_rax_rcx : Action (Unit {0})
emit_and_rax_rcx = emit (0x48 ∷ 0x21 ∷ 0xC8 ∷ [])

unfoldable pub emit_or_rax_rcx : Action (Unit {0})
emit_or_rax_rcx = emit (0x48 ∷ 0x09 ∷ 0xC8 ∷ [])

unfoldable pub emit_inc_mem_sized : ℕ → ℕ → Action (Unit {0})
emit_inc_mem_sized off sz =
    if sz == 1
    then emit (0xFE ∷ 0x85 ∷ []) >> emit_i32 (neg32 off)
    else if sz == 2
    then emit (0x66 ∷ 0xFF ∷ 0x85 ∷ []) >> emit_i32 (neg32 off)
    else if sz == 4
    then emit (0xFF ∷ 0x85 ∷ []) >> emit_i32 (neg32 off)
    else emit (0x48 ∷ 0xFF ∷ 0x85 ∷ []) >> emit_i32 (neg32 off)

unfoldable pub emit_dec_mem_sized : ℕ → ℕ → Action (Unit {0})
emit_dec_mem_sized off sz =
    if sz == 1
    then emit (0xFE ∷ 0x8D ∷ []) >> emit_i32 (neg32 off)
    else if sz == 2
    then emit (0x66 ∷ 0xFF ∷ 0x8D ∷ []) >> emit_i32 (neg32 off)
    else if sz == 4
    then emit (0xFF ∷ 0x8D ∷ []) >> emit_i32 (neg32 off)
    else emit (0x48 ∷ 0xFF ∷ 0x8D ∷ []) >> emit_i32 (neg32 off)

-- A jump whose distance is not known yet: where it is to be written.
unfoldable pub emit_hole : List ℕ → Action ℕ
unfolding pure gets
emit_hole opcode = do emit opcode; p ← gets (λ s. s.code_idx); emit_i32 0; pure p

unfoldable pub emit_jmp : Action ℕ
emit_jmp = emit_hole (0xE9 ∷ [])

unfoldable pub emit_jz : Action ℕ
emit_jz = emit_hole (0x48 ∷ 0x85 ∷ 0xC0 ∷ 0x0F ∷ 0x84 ∷ [])

unfoldable pub emit_jnz : Action ℕ
emit_jnz = emit_hole (0x48 ∷ 0x85 ∷ 0xC0 ∷ 0x0F ∷ 0x85 ∷ [])

unfoldable pub emit_jmp_back : ℕ → Action (Unit {0})
unfolding gets
emit_jmp_back target = do
  emit (0xE9 ∷ [])
  idx ← gets (λ s. s.code_idx)
  emit_i32 (sub32 target (idx + 4))

-- Four bytes at `pp`.
unfoldable pub write_i32 : ℕ → ℕ → (ℕ → ℕ) → ℕ → ℕ
write_i32 pp v code = write_byte (pp + 3) (v / 2 ^ 24 % 256) (
    write_byte (pp + 2) (v / 2 ^ 16 % 256)
      (write_byte (pp + 1) (v / 2 ^ 8 % 256) (write_byte pp (v % 256) code)))

-- The source does not test that the four bytes are in the buffer.
unfoldable pub patch_i32 : ℕ → ℕ → Action (Unit {0})
patch_i32 pp v s =
    if leb (pp + 4) 65536
    then finished tt (record s { code_buffer = write_i32 pp v s.code_buffer })
    else out_of_bounds (code_place pp) s

unfoldable pub patch_jmp : ℕ → Action (Unit {0})
unfolding gets
patch_jmp pp = do idx ← gets (λ s. s.code_idx); patch_i32 pp (sub32 idx (pp + 4))
