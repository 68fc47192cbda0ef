-- ===== src/Compiler/EmitterKeeps.antt =====
-- compiler.cpp: the emitter keeps the state of the parser good.
use schwarz_kernel.Prelude.{ℕ, ◌≤◌, Bool, List, [], ◌∷◌}
use schwarz_kernel.Compiler.State.{
  Ending, finished, out_of_time, out_of_bounds, Action, pure, gets, and_then, ◌>>=◌,
}
use schwarz_kernel.Compiler.Emitter.{
  emit, emit_hole, emit_jmp, emit_jz, emit_jnz, patch_jmp, emit_i32, emit_i64, emit_push_rbp,
  emit_mov_rbp_rsp, emit_mov_rsp_rbp, emit_pop_rbp, emit_ret, emit_sub_rsp, emit_mov_rax_imm64,
  emit_store_rax_sized, emit_load_rax_sized, emit_lea_rax, emit_push_rax, emit_pop_rcx,
  emit_store_rcx_via_rax, emit_load_via_rax, emit_add_rax_rcx, emit_sub_rcx_rax, emit_imul_rax_rcx,
  emit_div_prepare, emit_mod_to_rax, emit_imul_rax_imm, emit_cmp_rcx_rax, emit_setcc_to_rax,
  emit_bool_normalize_rax, emit_and_rax_rcx, emit_or_rax_rcx, emit_inc_mem_sized,
  emit_dec_mem_sized, emit_jmp_back,
}
use schwarz_kernel.Compiler.Good.{Run}
use schwarz_kernel.Compiler.Keeps.{
  Keeps, Keeps-pure, Keeps-if, Keeps-bind, Keeps-emit_byte, Keeps-gets, Keeps-patch_i32, Returns,
}

module _ {r : Run} {fuel : ℕ} where
  pub Keeps-emit : (bs : List ℕ) → Keeps r fuel (emit bs)
  unfolding emit
  Keeps-emit [] = Keeps-pure tt
  Keeps-emit (b ∷ bs) = Keeps-bind _ _ (Keeps-emit_byte b) (λ _. Keeps-emit bs)

  pub Keeps-emit_i32 : (v : ℕ) → Keeps r fuel (emit_i32 v)
  unfolding emit_i32
  Keeps-emit_i32 v = Keeps-emit _

  pub Keeps-emit_i64 : (v : ℕ) → Keeps r fuel (emit_i64 v)
  unfolding emit_i64
  Keeps-emit_i64 v = Keeps-emit _

  ruleset emit_rules =
      (Keeps-pure, Keeps-if, Keeps-bind, Keeps-gets, Keeps-emit, Keeps-emit_i32, Keeps-emit_i64)

  pub Keeps-emit_push_rbp : Keeps r fuel emit_push_rbp
  unfolding emit_push_rbp
  Keeps-emit_push_rbp = search emit_rules

  pub Keeps-emit_mov_rbp_rsp : Keeps r fuel emit_mov_rbp_rsp
  unfolding emit_mov_rbp_rsp
  Keeps-emit_mov_rbp_rsp = search emit_rules

  pub Keeps-emit_mov_rsp_rbp : Keeps r fuel emit_mov_rsp_rbp
  unfolding emit_mov_rsp_rbp
  Keeps-emit_mov_rsp_rbp = search emit_rules

  pub Keeps-emit_pop_rbp : Keeps r fuel emit_pop_rbp
  unfolding emit_pop_rbp
  Keeps-emit_pop_rbp = search emit_rules

  pub Keeps-emit_ret : Keeps r fuel emit_ret
  unfolding emit_ret
  Keeps-emit_ret = search emit_rules

  pub Keeps-emit_sub_rsp : (a : ℕ) → Keeps r fuel (emit_sub_rsp a)
  unfolding emit_sub_rsp
  Keeps-emit_sub_rsp a = search emit_rules

  pub Keeps-emit_mov_rax_imm64 : (a : ℕ) → Keeps r fuel (emit_mov_rax_imm64 a)
  unfolding emit_mov_rax_imm64
  Keeps-emit_mov_rax_imm64 a = search emit_rules

  pub Keeps-emit_store_rax_sized : (a : ℕ) (b : ℕ) → Keeps r fuel (emit_store_rax_sized a b)
  unfolding emit_store_rax_sized
  Keeps-emit_store_rax_sized a b = search emit_rules

  pub Keeps-emit_load_rax_sized :
      (a : ℕ) (b : ℕ) (c : Bool) → Keeps r fuel (emit_load_rax_sized a b c)
  unfolding emit_load_rax_sized
  Keeps-emit_load_rax_sized a b c = search emit_rules

  pub Keeps-emit_lea_rax : (a : ℕ) → Keeps r fuel (emit_lea_rax a)
  unfolding emit_lea_rax
  Keeps-emit_lea_rax a = search emit_rules

  pub Keeps-emit_push_rax : Keeps r fuel emit_push_rax
  unfolding emit_push_rax
  Keeps-emit_push_rax = search emit_rules

  pub Keeps-emit_pop_rcx : Keeps r fuel emit_pop_rcx
  unfolding emit_pop_rcx
  Keeps-emit_pop_rcx = search emit_rules

  pub Keeps-emit_store_rcx_via_rax : (a : ℕ) → Keeps r fuel (emit_store_rcx_via_rax a)
  unfolding emit_store_rcx_via_rax
  Keeps-emit_store_rcx_via_rax a = search emit_rules

  pub Keeps-emit_load_via_rax : (a : ℕ) (b : Bool) → Keeps r fuel (emit_load_via_rax a b)
  unfolding emit_load_via_rax
  Keeps-emit_load_via_rax a b = search emit_rules

  pub Keeps-emit_add_rax_rcx : Keeps r fuel emit_add_rax_rcx
  unfolding emit_add_rax_rcx
  Keeps-emit_add_rax_rcx = search emit_rules

  pub Keeps-emit_sub_rcx_rax : Keeps r fuel emit_sub_rcx_rax
  unfolding emit_sub_rcx_rax
  Keeps-emit_sub_rcx_rax = search emit_rules

  pub Keeps-emit_imul_rax_rcx : Keeps r fuel emit_imul_rax_rcx
  unfolding emit_imul_rax_rcx
  Keeps-emit_imul_rax_rcx = search emit_rules

  pub Keeps-emit_div_prepare : Keeps r fuel emit_div_prepare
  unfolding emit_div_prepare
  Keeps-emit_div_prepare = search emit_rules

  pub Keeps-emit_mod_to_rax : Keeps r fuel emit_mod_to_rax
  unfolding emit_mod_to_rax
  Keeps-emit_mod_to_rax = search emit_rules

  pub Keeps-emit_imul_rax_imm : (a : ℕ) → Keeps r fuel (emit_imul_rax_imm a)
  unfolding emit_imul_rax_imm
  Keeps-emit_imul_rax_imm a = search emit_rules

  pub Keeps-emit_cmp_rcx_rax : Keeps r fuel emit_cmp_rcx_rax
  unfolding emit_cmp_rcx_rax
  Keeps-emit_cmp_rcx_rax = search emit_rules

  pub Keeps-emit_setcc_to_rax : (a : ℕ) → Keeps r fuel (emit_setcc_to_rax a)
  unfolding emit_setcc_to_rax
  Keeps-emit_setcc_to_rax a = search emit_rules

  pub Keeps-emit_bool_normalize_rax : Keeps r fuel emit_bool_normalize_rax
  unfolding emit_bool_normalize_rax
  Keeps-emit_bool_normalize_rax = search emit_rules

  pub Keeps-emit_and_rax_rcx : Keeps r fuel emit_and_rax_rcx
  unfolding emit_and_rax_rcx
  Keeps-emit_and_rax_rcx = search emit_rules

  pub Keeps-emit_or_rax_rcx : Keeps r fuel emit_or_rax_rcx
  unfolding emit_or_rax_rcx
  Keeps-emit_or_rax_rcx = search emit_rules

  pub Keeps-emit_inc_mem_sized : (a : ℕ) (b : ℕ) → Keeps r fuel (emit_inc_mem_sized a b)
  unfolding emit_inc_mem_sized
  Keeps-emit_inc_mem_sized a b = search emit_rules

  pub Keeps-emit_dec_mem_sized : (a : ℕ) (b : ℕ) → Keeps r fuel (emit_dec_mem_sized a b)
  unfolding emit_dec_mem_sized
  Keeps-emit_dec_mem_sized a b = search emit_rules

  pub Keeps-emit_jmp_back : (target : ℕ) → Keeps r fuel (emit_jmp_back target)
  unfolding emit_jmp_back
  Keeps-emit_jmp_back target = search emit_rules

  -- What follows may use that `code_idx` is in the buffer, and not below the code that is kept.
  pub Keeps-code_idx :
      {A : Type 0} (f : ℕ → Action A)
      → ((p : ℕ) → r.start ≤ p → p ≤ 65536 → Keeps r fuel (f p))
      → Keeps r fuel (gets (λ s. s.code_idx) >>= f)
  unfolding gets ◌>>=◌ and_then
  Keeps-code_idx f k = record {
    at = λ i h s l. (k s.code_idx l.good.kept.started l.good.kept.room).at i h s l;
  }

  pub Keeps-patch_jmp : (p : ℕ) → r.start ≤ p → p ≤ 65536 → Keeps r fuel (patch_jmp p)
  unfolding patch_jmp
  Keeps-patch_jmp p lo hi = Keeps-bind _ _ (Keeps-gets _) (λ idx. Keeps-patch_i32 p _ lo hi)

  Keeps-assoc :
      {A B C : Type 0} (m : Action A) (f : A → Action B) (g : B → Action C)
      → Keeps r fuel (m >>= λ a. f a >>= g)
      → Keeps r fuel (m >>= f >>= g)
  unfolding ◌>>=◌ and_then
  Keeps-assoc {A = A} m f g k = record { at = λ i h s l. go i (m s) (k.at i h s l) }
    where
      go :
          (i : ℕ) (o : Ending A)
          → Returns r i (and_then o (λ a. f a >>= g))
          → Returns r i (and_then (and_then o f) g)
      go i out_of_time x = x
      go i (out_of_bounds p s) x = x
      go i (finished a s) x = x

  Keeps-pure_bind :
      {A B : Type 0} (a : A) (f : A → Action B) → Keeps r fuel (f a) → Keeps r fuel (pure a >>= f)
  unfolding pure ◌>>=◌ and_then
  Keeps-pure_bind a f k = record { at = λ i h s l. k.at i h s l }

  -- A jump to be patched: what follows may use where it stands.
  pub Keeps-emit_hole :
      {A : Type 0} (opcode : List ℕ) (f : ℕ → Action A)
      → ((p : ℕ) → r.start ≤ p → p ≤ 65536 → Keeps r fuel (f p))
      → Keeps r fuel (emit_hole opcode >>= f)
  unfolding emit_hole
  Keeps-emit_hole opcode f k = Keeps-assoc _ _ _ (
      Keeps-bind _ _ (Keeps-emit opcode) λ _. Keeps-assoc _ _ _ (
        Keeps-code_idx _ λ p lo hi.
          Keeps-assoc _ _ _
            (Keeps-bind _ _ (Keeps-emit_i32 0) λ _. Keeps-pure_bind p f (k p lo hi))))

  pub Keeps-emit_jmp :
      {A : Type 0} (f : ℕ → Action A)
      → ((p : ℕ) → r.start ≤ p → p ≤ 65536 → Keeps r fuel (f p))
      → Keeps r fuel (emit_jmp >>= f)
  unfolding emit_jmp
  Keeps-emit_jmp f k = Keeps-emit_hole _ f k

  pub Keeps-emit_jz :
      {A : Type 0} (f : ℕ → Action A)
      → ((p : ℕ) → r.start ≤ p → p ≤ 65536 → Keeps r fuel (f p))
      → Keeps r fuel (emit_jz >>= f)
  unfolding emit_jz
  Keeps-emit_jz f k = Keeps-emit_hole _ f k

  pub Keeps-emit_jnz :
      {A : Type 0} (f : ℕ → Action A)
      → ((p : ℕ) → r.start ≤ p → p ≤ 65536 → Keeps r fuel (f p))
      → Keeps r fuel (emit_jnz >>= f)
  unfolding emit_jnz
  Keeps-emit_jnz f k = Keeps-emit_hole _ f k

pub ruleset emitter_rules = (
  Keeps-emit, Keeps-patch_jmp, Keeps-emit_i32, Keeps-emit_i64, Keeps-emit_push_rbp,
  Keeps-emit_mov_rbp_rsp, Keeps-emit_mov_rsp_rbp, Keeps-emit_pop_rbp, Keeps-emit_ret,
  Keeps-emit_sub_rsp, Keeps-emit_mov_rax_imm64, Keeps-emit_store_rax_sized,
  Keeps-emit_load_rax_sized, Keeps-emit_lea_rax, Keeps-emit_push_rax, Keeps-emit_pop_rcx,
  Keeps-emit_store_rcx_via_rax, Keeps-emit_load_via_rax, Keeps-emit_add_rax_rcx,
  Keeps-emit_sub_rcx_rax, Keeps-emit_imul_rax_rcx, Keeps-emit_div_prepare, Keeps-emit_mod_to_rax,
  Keeps-emit_imul_rax_imm, Keeps-emit_cmp_rcx_rax, Keeps-emit_setcc_to_rax,
  Keeps-emit_bool_normalize_rax, Keeps-emit_and_rax_rcx, Keeps-emit_or_rax_rcx,
  Keeps-emit_inc_mem_sized, Keeps-emit_dec_mem_sized, Keeps-emit_jmp_back, Keeps-emit_jmp,
  Keeps-emit_jz, Keeps-emit_jnz,
)
