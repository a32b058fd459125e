-- ===== src/Bloom/Tests.antt =====
-- The filter on concrete inputs.
use golang_gin_rpc.Base.{ℕ, ◌≡◌, Bool, true, some, List, [], ◌∷◌, All}
use golang_gin_rpc.Bloom.{BloomFilter, new, add_each, contains}
use golang_gin_rpc.Bloom.Members.{no_false_negatives}

abbrev hashes_of : List (ℕ × ℕ)
hashes_of = (3, 5) ∷ (70, 11) ∷ []

no_false_negatives_example :
    (bf : BloomFilter) × (add_each (new 100 3) hashes_of ≡ some bf)
    × All (λ h. contains bf h ≡ some true) hashes_of
    × ((g : ℕ × ℕ) → (r : Bool) × (contains bf g ≡ some r))
no_false_negatives_example = no_false_negatives 100 3 hashes_of
