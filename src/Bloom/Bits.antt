-- ===== src/Bloom/Bits.antt =====
-- The bits of the words of a filter.
use golang_gin_rpc.Base.{
  ℕ, zero, suc, ◌<◌, ◌≡◌, refl, ◌∙◌, ap, Bool, false, ◌||◌, ◌&&◌, some, List, [], ◌∷◌, length, eqb,
  All, arith,
}
use golang_gin_rpc.Bloom.{Word, or_bit, and_bit, set_bit}

-- A word has its 64 bits.
abbrev pub IsWord : Word → Type 0
IsWord w = length w ≡ 64

abbrev pub bit_at : List Word → ℕ → ℕ → Bool
bit_at [] word bit = false
bit_at (w ∷ bits) zero bit = and_bit w bit
bit_at (w ∷ bits) (suc word) bit = bit_at bits word bit

and_bit-or_bit :
    (w : Word) (b c : ℕ) → b < length w → and_bit (or_bit w b) c ≡ (eqb b c || and_bit w c)
unfolding and_bit or_bit
and_bit-or_bit [] b c h = ground arith
and_bit-or_bit (x ∷ w) zero zero h = refl
and_bit-or_bit (x ∷ w) zero (suc c) h = ground arith
and_bit-or_bit (x ∷ w) (suc b) zero h = ground arith
and_bit-or_bit (x ∷ w) (suc b) (suc c) h = ground (arith, and_bit-or_bit w b c (omega arith))

length-or_bit : (w : Word) (b : ℕ) → length (or_bit w b) ≡ length w
unfolding or_bit
length-or_bit [] b = refl
length-or_bit (x ∷ w) zero = refl
length-or_bit (x ∷ w) (suc b) = ap suc (length-or_bit w b)

-- Setting a bit that is in range succeeds, and sets that bit alone.
pub record Sets (bits : List Word) (i b : ℕ) : Type 0 where
  pub result : List Word
  pub succeeds : set_bit bits i b ≡ some result
  pub words : All IsWord result
  pub same_length : length result ≡ length bits
  pub reads : (j c : ℕ) → bit_at result j c ≡ ((eqb i j && eqb b c) || bit_at bits j c)

read_here :
    (x : Word) (bits : List Word) (b j c : ℕ)
    → b < length x
    → bit_at (or_bit x b ∷ bits) j c ≡ ((eqb 0 j && eqb b c) || bit_at (x ∷ bits) j c)
read_here x bits b zero c h = ground (arith, and_bit-or_bit x b c)
read_here x bits b (suc j) c h = ground arith

read_there :
    (x : Word) (bits result : List Word) (i b j c : ℕ)
    → ((j c : ℕ) → bit_at result j c ≡ ((eqb i j && eqb b c) || bit_at bits j c))
    → bit_at (x ∷ result) j c ≡ ((eqb (suc i) j && eqb b c) || bit_at (x ∷ bits) j c)
read_there x bits result i b zero c r = ground arith
read_there x bits result i b (suc j) c r = ground (arith, r j c)

pub set_bit-Sets :
    (bits : List Word) (i b : ℕ) → All IsWord bits → i < length bits → b < 64 → Sets bits i b
unfolding set_bit
set_bit-Sets [] i b w h k = absurd (omega arith)
set_bit-Sets (x ∷ bits) zero b w h k = record {
  result = or_bit x b ∷ bits;
  succeeds = refl;
  words = (length-or_bit x b ∙ w.0, w.1);
  same_length = refl;
  reads = λ j c. read_here x bits b j c (omega (arith, w.0));
}
set_bit-Sets (x ∷ bits) (suc i) b w h k =
    let s = set_bit-Sets bits i b w.1 (omega arith) k in
    record {
      result = x ∷ s.result;
      succeeds = rw s.succeeds refl;
      words = (w.0, s.words);
      same_length = ap suc s.same_length;
      reads = λ j c. read_there x bits s.result i b j c s.reads;
    }
