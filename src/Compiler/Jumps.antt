-- ===== src/Compiler/Jumps.antt =====
-- compiler.cpp: where a patched jump goes.
use schwarz_kernel.Prelude.{ℕ, ◌+◌, ◌%◌, ◌^◌, ◌≤◌, ◌<◌, ◌≡◌, refl, arith, sub32, leb, true}
use schwarz_kernel.Compiler.State.{Parser, finished, gets, modify, and_then, ◌>>=◌}
use schwarz_kernel.Compiler.Emitter.{write_i32, patch_i32, patch_jmp}
use schwarz_kernel.Compiler.Good.{write_i32-before, write_i32-behind}
use schwarz_kernel.Compiler.Compiled.{read_i32, read_i32-write_i32}

jump_target :
    (pp v idx : ℕ)
    → idx < 2 ^ 31
    → pp + 4 ≤ 2 ^ 31
    → v ≡ sub32 idx (pp + 4) % 2 ^ 32
    → (pp + 4 + v) % 2 ^ 32 ≡ idx
jump_target pp v idx h k e = omega (arith, h, k, e)

-- A jump whose four bytes at `pp`, in the buffer, are patched goes to `code_idx`, where that is below 2 ^ 31: the number there is the distance from the byte after them,
-- modulo 2 ^ 32. No other byte changes.
pub patch_jmp-target :
    (pp : ℕ) (s : Parser)
    → pp + 4 ≤ 65536
    → s.code_idx < 2 ^ 31
    → (s' : Parser) × (patch_jmp pp s ≡ finished tt s')
      × ((pp + 4 + read_i32 pp s'.code_buffer) % 2 ^ 32 ≡ s.code_idx)
      × ((i : ℕ) → i < pp → s'.code_buffer i ≡ s.code_buffer i)
      × ((i : ℕ) → pp + 4 ≤ i → s'.code_buffer i ≡ s.code_buffer i)
unfolding patch_jmp patch_i32 gets modify ◌>>=◌ and_then
patch_jmp-target pp s h k =
    let v = sub32 s.code_idx (pp + 4) in
    let z : leb (pp + 4) 65536 ≡ true = ground (arith, h) in
    (
      record s { code_buffer = write_i32 pp v s.code_buffer },
      rw z refl,
      jump_target pp _ s.code_idx k (omega (arith, h)) (read_i32-write_i32 pp v s.code_buffer),
      λ i l. write_i32-before pp v s.code_buffer i l,
      λ i l. write_i32-behind pp v s.code_buffer i l,
    )
