-- ===== src/Bloom/Positions.antt =====
-- The bits at the positions of an element.
use native.Mathlib.Nat.{mod-lt}
use golang_gin_rpc.Base.{
  ℕ, zero, suc, ◌+◌, ◌*◌, ◌/◌, ◌%◌, ◌<◌, ◌≡◌, refl, ◌∙◌, Bool, true, ◌&&◌, some, List, [], ◌∷◌,
  length, get_elem?, All, arith, subst, sym,
}
use golang_gin_rpc.Bloom.{Word, BloomFilter, positions_from, positions, and_bit, set_all, test_all}
use golang_gin_rpc.Bloom.Bits.{IsWord, bit_at, set_bit-Sets}

-- The positions are in range.
abbrev pub InRange : ℕ → List ℕ → Type 0
InRange words = All (λ (p : ℕ). p < words * 64)

-- Whether all of the positions are set.
abbrev pub all_set : List Word → List ℕ → Bool
all_set bits [] = true
all_set bits (p ∷ ps) = bit_at bits (p / 64) (p % 64) && all_set bits ps

-- Setting positions that are in range succeeds and keeps what is set.
pub record SetsAll (bits : List Word) (ps : List ℕ) : Type 0 where
  pub result : List Word
  pub succeeds : set_all bits ps ≡ some result
  pub words : All IsWord result
  pub same_length : length result ≡ length bits
  pub keeps : (j c : ℕ) → bit_at bits j c ≡ true → bit_at result j c ≡ true
  pub sets : all_set result ps ≡ true

pub set_all-SetsAll :
    (bits : List Word) (ps : List ℕ) → All IsWord bits → InRange (length bits) ps → SetsAll bits ps
unfolding set_all
set_all-SetsAll bits [] w r = record {
  result = bits;
  succeeds = refl;
  words = w;
  same_length = refl;
  keeps = λ j c h. h;
  sets = refl;
}
set_all-SetsAll bits (p ∷ ps) w r =
    let s = set_bit-Sets bits (p / 64) (p % 64) w (omega (arith, r.0)) (omega arith) in
    let t =
      set_all-SetsAll s.result ps s.words (subst (λ n. InRange n ps) (sym s.same_length) r.1) in
    record {
      result = t.result;
      succeeds = rw (s.succeeds, set_all) t.succeeds;
      words = t.words;
      same_length = t.same_length ∙ s.same_length;
      keeps = λ j c h. t.keeps j c (ground (arith, s.reads j c));
      sets = ground (arith, t.sets, t.keeps (p / 64) (p % 64), s.reads (p / 64) (p % 64));
    }

pub get-bit :
    (bits : List Word) (i c : ℕ)
    → i < length bits
    → (w : Word) × (get_elem? bits i ≡ some w) × (and_bit w c ≡ bit_at bits i c)
get-bit [] i c h = absurd (omega arith)
get-bit (x ∷ bits) zero c h = (x, refl, refl)
get-bit (x ∷ bits) (suc i) c h = get-bit bits i c (omega arith)

pub test_all-set :
    (bits : List Word) (ps : List ℕ)
    → InRange (length bits) ps
    → test_all bits ps ≡ some (all_set bits ps)
unfolding test_all
test_all-set bits [] r = refl
test_all-set bits (p ∷ ps) r =
    let (w, e, b) = get-bit bits (p / 64) (p % 64) (omega (arith, r.0)) in
    rw (e, test_all) (rw b (ground (arith, test_all-set bits ps r.1)))

pub positions_from-InRange :
    (n i : ℕ) (h : ℕ × ℕ) (words : ℕ)
    → 0 < words
    → InRange words (positions_from n i h (words * 64))
unfolding positions_from
positions_from-InRange zero i h words p = tt
positions_from-InRange (suc n) i h words p =
    (mod-lt _ (omega arith), positions_from-InRange n (i + 1) h words p)

pub all_set-keeps :
    (bits result : List Word) (ps : List ℕ)
    → ((j c : ℕ) → bit_at bits j c ≡ true → bit_at result j c ≡ true)
    → all_set bits ps ≡ true
    → all_set result ps ≡ true
all_set-keeps bits result [] k h = refl
all_set-keeps bits result (p ∷ ps) k h =
    ground (arith, k (p / 64) (p % 64), all_set-keeps bits result ps k)

-- A filter has at least one word, its words are whole, and its size is that of its words.
pub record Sized (bf : BloomFilter) : Type 0 where
  pub words : All IsWord bf.bits
  pub some_word : 0 < length bf.bits
  pub size : bf.size ≡ length bf.bits * 64

pub positions-InRange :
    (bf : BloomFilter) (h : ℕ × ℕ) → Sized bf → InRange (length bf.bits) (positions bf h)
unfolding positions
positions-InRange bf h s =
    rw s.size (positions_from-InRange bf.hashes 0 h (length bf.bits) s.some_word)
