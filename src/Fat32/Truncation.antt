-- ===== src/Fat32/Truncation.antt =====
-- What a long-name entry leaves in the name array.
use schwarz_kernel.Prelude.{
  take-set, take-set_ge, ℕ, zero, suc, ◌+◌, ◌%◌, ◌^◌, ◌<◌, ◌≡◌, refl, ap, ◌∙◌, ◌≢◌, List, [], ◌∷◌,
  ◌++◌, map, length, length-set, length-append, set, get_or, get_or-set_self, take, arith,
}
use mathlib.Core.List.{append_assoc, append-nil, map-append}
use schwarz_kernel.Fat32.Names.{c_text}
use schwarz_kernel.Fat32.LongName.{FatLongDirEntry, lfn_char, append_lfn_chars, decode_lfn_entry}

-- Units that are neither the terminator nor padding.
abbrev pub IsProper : List ℕ → Type 0
IsProper [] = Unit {0}
IsProper (ch ∷ src) = (ch ≢ 0) × (ch ≢ 0xFFFF) × IsProper src

-- The first `n` bytes are `text`, and a terminator follows where `text` is not empty.
record Holds (out text : List ℕ) (n : ℕ) : Type 0 where
  front : take n out ≡ text
  stop : 0 < n → get_or out n 0 ≡ 0

append_step :
    (ch : ℕ) (src out : List ℕ) (n : ℕ)
    → ch ≢ 0
    → ch ≢ 0xFFFF
    → length out ≡ 256
    → n + 1 < 256
    → append_lfn_chars out n (ch ∷ src)
      ≡ append_lfn_chars (set (set out n (lfn_char ch)) (n + 1) 0) (n + 1) src
unfolding append_lfn_chars
append_step ch src out n z f l h =
    let e : (n + 1) % 2 ^ 32 ≡ n + 1 = omega arith in rw e (ground arith)

Holds-step :
    (out text : List ℕ) (n c : ℕ)
    → length out ≡ 256
    → n + 1 < 256
    → Holds out text n
    → Holds (set (set out n c) (n + 1) 0) (text ++ c ∷ []) (n + 1)
Holds-step out text n c l h w = record {
  front =
      take-set_ge (set out n c) (n + 1) (n + 1) 0 (omega arith)
      ∙ take-set out n c (omega arith)
      ∙ ap (λ t. t ++ c ∷ []) w.front;
  stop = λ p. get_or-set_self (set out n c) (n + 1) 0 0 (omega (arith, length-set out n c));
}

-- Proper units with room behind them: the text grows by them and is terminated; nothing else about
-- the array before matters.
append_lfn_chars-Holds :
    (src out text : List ℕ) (n : ℕ)
    → IsProper src
    → length out ≡ 256
    → n + length src < 256
    → Holds out text n
    → Holds (append_lfn_chars out n src) (text ++ map lfn_char src) (n + length src)
      × (length (append_lfn_chars out n src) ≡ 256)
append_lfn_chars-Holds [] out text n p l h w =
    unfold append_lfn_chars in (let e : n + 0 ≡ n = omega arith in rw (e, append-nil) (w, l))
append_lfn_chars-Holds (ch ∷ src) out text n p l h w =
    let c = lfn_char ch in
    let r =
      append_lfn_chars-Holds src (set (set out n c) (n + 1) 0) (text ++ c ∷ []) (n + 1) p.2
        (length-set (set out n c) (n + 1) 0 ∙ length-set out n c ∙ l) (omega arith)
        (Holds-step out text n c l (omega arith) w) in
    let e : n + suc (length src) ≡ n + 1 + length src = omega arith in
    rw
      (
        append_step ch src out n p.0 p.1 l (omega arith),
        e,
        ← append_assoc text (c ∷ []) (map lfn_char src),
      )
      r

-- The thirteen units of an entry.
abbrev pub units_of : FatLongDirEntry → List ℕ
units_of l = l.name1 ++ (l.name2 ++ l.name3)

pub record IsFull (l : FatLongDirEntry) : Type 0 where
  pub five : length l.name1 ≡ 5
  pub six : length l.name2 ≡ 6
  pub two : length l.name3 ≡ 2
  pub proper1 : IsProper l.name1
  pub proper2 : IsProper l.name2
  pub proper3 : IsProper l.name3

decode-Holds :
    (l : FatLongDirEntry) (out : List ℕ)
    → IsFull l
    → l.order % 32 ≡ 1
    → length out ≡ 256
    → Holds (decode_lfn_entry l out) (map lfn_char (units_of l)) 13
unfolding decode_lfn_entry
decode-Holds l out f o w =
    let a1 = append_lfn_chars-Holds l.name1 out [] 0 f.proper1 w (omega arith) blank in
    let e1 : 0 + length l.name1 ≡ 5 = omega arith in
    let b1 = rw e1 at a1 in
    let out1 = append_lfn_chars out 0 l.name1 in
    let a2 =
      append_lfn_chars-Holds l.name2 out1 (map lfn_char l.name1) 5 f.proper2 b1.1 (omega arith)
        b1.0 in
    let e2 : 5 + length l.name2 ≡ 11 = omega arith in
    let b2 = rw e2 at a2 in
    let out2 = append_lfn_chars out1 5 l.name2 in
    let a3 =
      append_lfn_chars-Holds l.name3 out2 (map lfn_char l.name1 ++ map lfn_char l.name2) 11
        f.proper3 b2.1 (omega arith) b2.0 in
    let e3 : 11 + length l.name3 ≡ 13 = omega arith in
    let b3 = rw e3 at a3 in rw (o, map-append, map-append, ← append_assoc) b3.0
  where
    blank : Holds out [] 0
    blank = record { front = refl; stop = λ p. absurd (omega arith) }

-- Text without a terminator in it.
abbrev NoNul : List ℕ → Type 0
NoNul [] = Unit {0}
NoNul (c ∷ cs) = (c ≢ 0) × NoNul cs

c_text-Holds :
    (out text : List ℕ) (n : ℕ)
    → NoNul text
    → length text ≡ n
    → take n out ≡ text
    → get_or out n 0 ≡ 0
    → c_text out ≡ text
unfolding c_text
c_text-Holds [] [] n u l f s = refl
c_text-Holds (x ∷ out) [] zero u l f s = ground arith
c_text-Holds (x ∷ out) [] (suc n) u l f s = absurd (omega arith)
c_text-Holds [] (c ∷ text) zero u l f s = absurd (omega arith)
c_text-Holds [] (c ∷ text) (suc n) u l f s = cc
c_text-Holds (x ∷ out) (c ∷ text) zero u l f s = absurd (omega arith)
c_text-Holds (x ∷ out) (c ∷ text) (suc n) u l f s =
    ground (arith, u, c_text-Holds out text n u.1 (omega arith))

lfn_char-NoNul : (src : List ℕ) → IsProper src → NoNul (map lfn_char src)
unfolding lfn_char
lfn_char-NoNul [] p = tt
lfn_char-NoNul (ch ∷ src) p = (ground (arith, p), lfn_char-NoNul src p.2)

IsProper-append : (xs ys : List ℕ) → IsProper xs → IsProper ys → IsProper (xs ++ ys)
IsProper-append [] ys p q = q
IsProper-append (x ∷ xs) ys p q = (p.0, p.1, IsProper-append xs ys p.2 q)

length-map_lfn : (src : List ℕ) → length (map lfn_char src) ≡ length src
length-map_lfn [] = refl
length-map_lfn (ch ∷ src) = ap suc (length-map_lfn src)

-- A long name ends with the thirteenth character: when the entry of sequence number 1 is decoded
-- (the last of a name's entries to come) and its thirteen units are all characters, the name is those
-- thirteen, whatever the entries before it have put behind them.
pub decode_lfn_entry_truncates :
    (l : FatLongDirEntry) (long_name : List ℕ)
    → IsFull l
    → l.order % 32 ≡ 1
    → length long_name ≡ 256
    → c_text (decode_lfn_entry l long_name) ≡ map lfn_char (units_of l)
decode_lfn_entry_truncates l long_name f o w =
    let h = decode-Holds l long_name f o w in
    c_text-Holds (decode_lfn_entry l long_name) (map lfn_char (units_of l)) 13
      (lfn_char-NoNul (units_of l) (
        IsProper-append l.name1 (l.name2 ++ l.name3) f.proper1
          (IsProper-append l.name2 l.name3 f.proper2 f.proper3)))
      (omega (
        arith,
        length-map_lfn (units_of l),
        length-append l.name1 (l.name2 ++ l.name3),
        length-append l.name2 l.name3,
      ))
      h.front (h.stop (omega arith))
