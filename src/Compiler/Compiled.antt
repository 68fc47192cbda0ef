-- ===== src/Compiler/Compiled.antt =====
-- compiler.cpp: what `parse_and_compile` and `statement` do to the code buffer, the errors and the stack.
use schwarz_kernel.Prelude.{
  ℕ, suc, ◌+◌, ◌-◌, ◌/◌, ◌*◌, ◌^◌, ◌%◌, ◌≤◌, ◌<◌, ◌≡◌, ◌≢◌, refl, ◌∙◌, ◌⊎◌, inl, inr, sym, subst,
  [], ◌∷◌, map, length, arith,
}
use schwarz_kernel.Compiler.Tokens.{t_eof}
use schwarz_kernel.Compiler.State.{Parser, Place, Ending, finished, out_of_time, out_of_bounds}
use schwarz_kernel.Compiler.Emitter.{write_i32}
use schwarz_kernel.Compiler.Control.{statement}
use schwarz_kernel.Compiler.Program.{frame_size, compile_body, parse_and_compile}
use schwarz_kernel.Compiler.Layout.{Laid}
use schwarz_kernel.Compiler.Good.{
  Run, Good, Left, IsOutside, Overrun, write_i32-before, write_i32-behind,
}
use schwarz_kernel.Compiler.Keeps.{Returns}
use schwarz_kernel.Compiler.ControlKeeps.{Keeps-statement, Advances-statement}
use schwarz_kernel.Compiler.ProgramKeeps.{
  Keeps-compile_body, prologue_code, prologue, patched, compile-finished, compile-out_of_bounds,
}

-- How an action ends that does not run out of fuel: with a state of which P holds, after a return or at an access outside an array.
abbrev pub Ends : Ending (Unit {0}) → (Parser → Type 0) → Type 0
Ends o P =
    ((s : Parser) × (o ≡ finished tt s) × P s)
    ⊎ ((p : Place) × (s : Parser) × (o ≡ out_of_bounds p s) × IsOutside s p × P s)

-- The code is within its buffer and nothing is written behind it, the errors and the variables have slots, and each variable
-- lies right below the one before it, down to `stack_size`.
abbrev pub IsCompiled : Parser → Parser → Type 0
IsCompiled s s' =
    (s'.code_idx ≤ 65536)
    × ((i : ℕ) → 65536 ≤ i → s'.code_buffer i ≡ s.code_buffer i)
    × (length s'.errors ≤ 64)
    × (length s'.vars ≤ 64)
    × Laid 0 s'.vars s'.stack_size

ending :
    (r : Run) (i : ℕ) (o : Ending (Unit {0}))
    → Returns r i o
    → ((s : Parser) × (o ≡ finished tt s) × Left r i s)
      ⊎ ((p : Place) × (s : Parser) × (o ≡ out_of_bounds p s) × Overrun r p s)
unfolding Returns
ending r i out_of_time h = absurd h
ending r i (finished u s) h = inl (s, refl, h)
ending r i (out_of_bounds p s) h = inr (p, s, refl, h)

abbrev run_from : Parser → Run
run_from s = record { start = s.code_idx; code = s.code_buffer }

prologue-Left : (n : ℕ) (s : Parser) → 1024 < n → Left (run_from (prologue s)) n (prologue s)
unfolding prologue Laid
prologue-Left n s h = record {
  good = record {
    kept = record {
      started = omega arith;
      room = omega arith;
      before = λ i l. refl;
      behind = λ i l. refl;
    };
    few_errors = omega arith;
    few_vars = omega arith;
    laid = refl;
  };
  left = omega (arith, h);
}

body-Returns :
    (n : ℕ) (s : Parser)
    → 1024 < n
    → Returns (run_from (prologue s)) n (compile_body n (prologue s))
body-Returns n s h = (Keeps-compile_body n).at n (omega arith) (prologue s) (prologue-Left n s h)

prologue_code-behind : (code : ℕ → ℕ) (i : ℕ) → 11 ≤ i → prologue_code code i ≡ code i
unfolding prologue_code
prologue_code-behind code i h = ground arith

Good-IsCompiled : (s m : Parser) → Good (run_from (prologue s)) m → IsCompiled s m
unfolding prologue
Good-IsCompiled s m g = (
  g.kept.room,
  λ i l. g.kept.behind i l ∙ prologue_code-behind s.code_buffer i (omega (arith, l)),
  g.few_errors,
  g.few_vars,
  g.laid,
)

patched-IsCompiled : (s m : Parser) → IsCompiled s m → IsCompiled s (patched m)
unfolding patched
patched-IsCompiled s m c = (
  c.0,
  λ i l. write_i32-behind 7 (frame_size m.stack_size) m.code_buffer i (omega (arith, l)) ∙ c.1 i l,
  c.2,
  c.3,
  c.4,
)

-- Whatever `token_stream` holds, with 1025 of fuel or more compilation ends: it returns, or it is at an access outside
-- `token_stream`, `var_table` or `code_buffer`, whose index is given: a token at most three behind the next one, the slot behind
-- 64 variables, or a patch that begins in the last three bytes of the buffer or at its end. In both cases the code is within its
-- 65536 bytes and nothing is written behind them, there are at most 64 errors and 64 variables, and each variable lies
-- right below the one before it, down to `stack_size`.
pub compile-ends : (n : ℕ) (s : Parser) → 1024 < n → Ends (parse_and_compile n s) (IsCompiled s)
compile-ends n s h = elim (ending _ n (compile_body n (prologue s)) (body-Returns n s h)) [
  | inl (m, e, l) ↦
      inl (patched m, compile-finished n s m e, patched-IsCompiled s m (Good-IsCompiled s m l.good))
  | inr (p, m, e, o) ↦
      inr (p, m, compile-out_of_bounds n s m p e, o.outside, Good-IsCompiled s m o.good)
]

-- Where compilation returns, the state before the frame's size was known.
pub compile-Good :
    (n : ℕ) (s s' : Parser)
    → 1024 < n
    → parse_and_compile n s ≡ finished tt s'
    → (m : Parser) × (patched m ≡ s') × Good (run_from (prologue s)) m
compile-Good n s s' h q = elim (ending _ n (compile_body n (prologue s)) (body-Returns n s h)) [
  | inl (m, e, l) ↦ (m, state_of (sym (compile-finished n s m e) ∙ q), l.good)
  | inr (p, m, e, o) ↦ absurd (no_return (compile-out_of_bounds n s m p e) q)
]
  where
    state_of : {x y : Parser} → finished tt x ≡ finished tt y → x ≡ y
    state_of q = cc

    no_return :
        {o : Ending (Unit {0})} {x y : Parser} {p : Place}
        → o ≡ out_of_bounds p x
        → o ≡ finished tt y
        → ⊥
    no_return q q' = cc

-- The CPU's reading of the four bytes at `p`.
abbrev pub read_i32 : ℕ → (ℕ → ℕ) → ℕ
read_i32 p code = code p + 2 ^ 8 * code (p + 1) + 2 ^ 16 * code (p + 2) + 2 ^ 24 * code (p + 3)

write_i32-bytes :
    (p v : ℕ) (code : ℕ → ℕ)
    → (write_i32 p v code p ≡ v % 256)
      × (write_i32 p v code (p + 1) ≡ v / 2 ^ 8 % 256)
      × (write_i32 p v code (p + 2) ≡ v / 2 ^ 16 % 256)
      × (write_i32 p v code (p + 3) ≡ v / 2 ^ 24 % 256)
unfolding write_i32
write_i32-bytes p v code = (ground arith, ground arith, ground arith, ground arith)

-- Four bytes that are written at a place are read there as the int they are of.
pub read_i32-write_i32 : (p v : ℕ) (code : ℕ → ℕ) → read_i32 p (write_i32 p v code) ≡ v % 2 ^ 32
read_i32-write_i32 p v code = let w = write_i32-bytes p v code in omega (arith, w.0, w.1, w.2, w.3)

-- The compiled code begins with the prologue, push rbp; mov rbp, rsp; sub rsp, imm32, whose number is the size of the frame
-- for the variables of the whole program.
pub compile-prologue :
    (n : ℕ) (s s' : Parser)
    → 1024 < n
    → parse_and_compile n s ≡ finished tt s'
    → (map s'.code_buffer (0 ∷ 1 ∷ 2 ∷ 3 ∷ 4 ∷ 5 ∷ 6 ∷ [])
        ≡ 0x55 ∷ 0x48 ∷ 0x89 ∷ 0xE5 ∷ 0x48 ∷ 0x81 ∷ 0xEC ∷ [])
      × (read_i32 7 s'.code_buffer ≡ frame_size s'.stack_size % 2 ^ 32)
unfolding patched prologue prologue_code
compile-prologue n s s' h q =
    let g = compile-Good n s s' h q in
    let kept : (i : ℕ) → i < 7 → (patched g.0).code_buffer i ≡ prologue_code s.code_buffer i =
      λ i l.
        write_i32-before 7 (frame_size g.0.stack_size) g.0.code_buffer i l
        ∙ g.2.kept.before i (omega (arith, l)) in
    subst
      (λ x.
        (map x.code_buffer (0 ∷ 1 ∷ 2 ∷ 3 ∷ 4 ∷ 5 ∷ 6 ∷ [])
          ≡ 0x55 ∷ 0x48 ∷ 0x89 ∷ 0xE5 ∷ 0x48 ∷ 0x81 ∷ 0xEC ∷ [])
        × (read_i32 7 x.code_buffer ≡ frame_size x.stack_size % 2 ^ 32))
      g.1
      (
        rw
            (
              kept 0 (omega arith),
              kept 1 (omega arith),
              kept 2 (omega arith),
              kept 3 (omega arith),
              kept 4 (omega arith),
              kept 5 (omega arith),
              kept 6 (omega arith),
            )
            refl,
        read_i32-write_i32 7 (frame_size g.0.stack_size) g.0.code_buffer,
      )

state-Left :
    (n : ℕ) (s : Parser)
    → s.code_idx ≤ 65536
    → length s.errors ≤ 64
    → length s.vars ≤ 64
    → Laid 0 s.vars s.stack_size
    → 1024 - s.curr < n
    → Left (run_from s) n s
state-Left n s room few few_vars laid h = record {
  good = record {
    kept = record {
      started = omega arith;
      room = room;
      before = λ i l. refl;
      behind = λ i l. refl;
    };
    few_errors = few;
    few_vars = few_vars;
    laid = laid;
  };
  left = h;
}

-- The code of the first state is still there, and what is added is within the buffer.
abbrev pub HasAppended : Parser → Parser → Type 0
HasAppended s s' =
    (s.code_idx ≤ s'.code_idx)
    × (s'.code_idx ≤ 65536)
    × ((i : ℕ) → i < s.code_idx → s'.code_buffer i ≡ s.code_buffer i)

-- A statement, where `code_idx` is at most 65536, there are at most 64 errors and 64 variables,
-- each variable lies right below the one before it, down to `stack_size`, and the fuel is above
-- the number of the 1024 tokens that are left, whatever they are: it returns, or it is at an
-- access outside `token_stream`, `var_table` or `code_buffer`: a token at most three behind the
-- next one, the slot behind 64 variables, or a patch that begins in the last three bytes of the
-- buffer or at its end. In both cases it leaves the code that is there already: it changes no byte
-- below `code_idx`, which only grows and stays within the buffer.
pub statement-appends :
    (n : ℕ) (s : Parser)
    → s.code_idx ≤ 65536
    → length s.errors ≤ 64
    → length s.vars ≤ 64
    → Laid 0 s.vars s.stack_size
    → 1024 - s.curr < n
    → Ends (statement n s) (HasAppended s)
statement-appends n s room few few_vars laid h =
    let l = state-Left n s room few few_vars laid h in
    elim (ending _ n (statement n s) ((Keeps-statement (run_from s) n).at n (omega arith) s l)) [
      | inl (m, e, x) ↦ inl (m, e, (x.good.kept.started, x.good.kept.room, x.good.kept.before))
      | inr (p, m, e, x) ↦
          inr (p, m, e, x.outside, (x.good.kept.started, x.good.kept.room, x.good.kept.before))
    ]

-- A statement whose first token is not T_EOF, where `code_idx` is at most 65536, there are at most
-- 64 errors and 64 variables, each variable lies right below the one before it, down to
-- `stack_size`, and the fuel is above the number of the 1024 tokens that are left, whatever they
-- are: it returns behind its first token, or it is at an access outside `token_stream`,
-- `var_table` or `code_buffer`: a token at most three behind the next one, the slot behind 64
-- variables, or a patch that begins in the last three bytes of the buffer or at its end.
pub statement-progress :
    (n : ℕ) (s : Parser)
    → s.code_idx ≤ 65536
    → length s.errors ≤ 64
    → length s.vars ≤ 64
    → Laid 0 s.vars s.stack_size
    → 1024 - s.curr ≤ n
    → (s.tokens s.curr).type ≢ t_eof
    → ((s' : Parser) × (statement (suc n) s ≡ finished tt s') × (s.curr < s'.curr))
      ⊎ ((p : Place) × (s' : Parser) × (statement (suc n) s ≡ out_of_bounds p s') × IsOutside s' p)
statement-progress n s room few few_vars laid h ne =
    let i = 1024 - s.curr in
    let l = state-Left (suc i) s room few few_vars laid (omega arith) in
    elim (ending _ i (statement (suc n) s)
      ((Advances-statement (run_from s) n (s.tokens s.curr).type ne).at i h s l refl)) [
        | inl (m, e, x) ↦ inl (m, e, omega (arith, x.left))
        | inr (p, m, e, x) ↦ inr (p, m, e, x.outside)
      ]
