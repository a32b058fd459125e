-- ===== src/Bloom.antt =====
-- plugins/bloomfilter/bloomfilter.go. A 64-bit word is the list of its bits, the lowest first. The
-- two hashes of the data are an argument, and so are the numbers that `New` computes in floating
-- point. `none` is the panic of an index out of range.
pub mod Bits
pub mod Positions
pub mod Members
mod Tests
use golang_gin_rpc.Base.{
  ℕ, zero, suc, ◌+◌, ◌*◌, ◌/◌, ◌%◌, Bool, true, false, ◌&&◌, Option, none, some, List, [], ◌∷◌, map,
  length, get_elem?, eqb, u64, if◌then◌else◌,
}

abbrev pub Word : Type 0
Word = List Bool

pub record BloomFilter : Type 0 where
  pub bits : List Word
  pub size : ℕ
  pub hashes : ℕ

abbrev pub repeat : {A : Type 0} → ℕ → A → List A
repeat zero x = []
repeat (suc n) x = x ∷ repeat n x

abbrev pub no_bits : Word
no_bits = repeat 64 false

-- `New`, from the size and the number of hashes that the formulas give.
unfoldable pub new : ℕ → ℕ → BloomFilter
new size hashes =
    let size' = if eqb size 0 then 1 else size in
    let words = (size' + 63) / 64 in
    record {
      bits = repeat words no_bits;
      size = words * 64;
      hashes = if eqb hashes 0 then 1 else hashes;
    }

-- `h1 + i*h2` wraps at 64 bits.
unfoldable pub positions_from : ℕ → ℕ → ℕ × ℕ → ℕ → List ℕ
positions_from zero i h size = []
positions_from (suc n) i h size = u64 (h.0 + u64 (i * h.1)) % size ∷ positions_from n (i + 1) h size

unfoldable pub positions : BloomFilter → ℕ × ℕ → List ℕ
positions bf h = positions_from bf.hashes 0 h bf.size

-- `word | 1 << bit`.
unfoldable pub or_bit : Word → ℕ → Word
or_bit [] bit = []
or_bit (b ∷ word) zero = true ∷ word
or_bit (b ∷ word) (suc bit) = b ∷ or_bit word bit

-- `word & (1 << bit) != 0`.
unfoldable pub and_bit : Word → ℕ → Bool
and_bit [] bit = false
and_bit (b ∷ word) zero = b
and_bit (b ∷ word) (suc bit) = and_bit word bit

abbrev pub then_word : Word → Option (List Word) → Option (List Word)
then_word w none = none
then_word w (some bits) = some (w ∷ bits)

-- `bits[word] |= 1 << bit`.
unfoldable pub set_bit : List Word → ℕ → ℕ → Option (List Word)
set_bit [] word bit = none
set_bit (w ∷ bits) zero bit = some (or_bit w bit ∷ bits)
set_bit (w ∷ bits) (suc word) bit = then_word w (set_bit bits word bit)

unfoldable pub set_all : List Word → List ℕ → Option (List Word)
set_all bits [] = some bits
set_all bits (pos ∷ rest) = elim (set_bit bits (pos / 64) (pos % 64)) [
  | none ↦ none
  | some bits' ↦ set_all bits' rest
]

abbrev pub with_bits : BloomFilter → Option (List Word) → Option BloomFilter
with_bits bf none = none
with_bits bf (some bits) = some (record bf { bits = bits })

unfoldable pub add : BloomFilter → ℕ × ℕ → Option BloomFilter
add bf h = with_bits bf (set_all bf.bits (positions bf h))

unfoldable pub test_all : List Word → List ℕ → Option Bool
test_all bits [] = some true
test_all bits (pos ∷ rest) = elim (get_elem? bits (pos / 64)) [
  | none ↦ none
  | some word ↦ if and_bit word (pos % 64) then test_all bits rest else some false
]

unfoldable pub contains : BloomFilter → ℕ × ℕ → Option Bool
contains bf h = test_all bf.bits (positions bf h)

unfoldable pub clear : BloomFilter → BloomFilter
clear bf = record bf { bits = map (λ word. no_bits) bf.bits }

-- A filter after the elements with the given hashes have been added one after another.
unfoldable pub add_each : BloomFilter → List (ℕ × ℕ) → Option BloomFilter
add_each bf [] = some bf
add_each bf (h ∷ hs) = elim (add bf h) [ none ↦ none | some bf' ↦ add_each bf' hs ]
