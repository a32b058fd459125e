-- ===== src/Bloom/Members.antt =====
-- What a filter holds: every element that was added.
use golang_gin_rpc.Base.{
  ℕ, zero, suc, ◌+◌, ◌*◌, ◌/◌, ◌%◌, ◌<◌, ◌≡◌, refl, ◌∙◌, ap, Bool, true, false, some, List, [], ◌∷◌,
  map, length, eqb, u64, if◌then◌else◌, All, arith, some-injective, subst, sym,
}
use golang_gin_rpc.Bloom.{
  Word, BloomFilter, repeat, no_bits, new, positions_from, positions, and_bit, add, contains,
  add_each, clear,
}
use golang_gin_rpc.Bloom.Bits.{IsWord, bit_at}
use golang_gin_rpc.Bloom.Positions.{
  all_set, set_all-SetsAll, test_all-set, all_set-keeps, Sized, positions-InRange,
}

-- What adding an element keeps.
record Adds (bf : BloomFilter) (h : ℕ × ℕ) : Type 0 where
  result : BloomFilter
  succeeds : add bf h ≡ some result
  sized : Sized result
  keeps : (g : ℕ × ℕ) → contains bf g ≡ some true → contains result g ≡ some true
  holds : contains result h ≡ some true
  some_hash : result.hashes ≡ bf.hashes

add-Adds : (bf : BloomFilter) (h : ℕ × ℕ) → Sized bf → Adds bf h
unfolding add contains positions
add-Adds bf h s =
    let t = set_all-SetsAll bf.bits (positions bf h) s.words (positions-InRange bf h s) in
    let bf' : BloomFilter = record bf { bits = t.result } in
    let s' : Sized bf' = record {
      words = t.words;
      some_word = omega (arith, s.some_word, t.same_length);
      size = s.size ∙ ap (λ n. n * 64) (sym t.same_length);
    } in
    record {
      result = bf';
      succeeds = rw (t.succeeds) refl;
      sized = s';
      keeps = λ g c.
          test_all-set t.result (positions bf' g) (positions-InRange bf' g s')
          ∙ ap some (
              all_set-keeps bf.bits t.result (positions bf g) t.keeps (
                some-injective
                  (sym (test_all-set bf.bits (positions bf g) (positions-InRange bf g s)) ∙ c)));
      holds = test_all-set t.result (positions bf' h) (positions-InRange bf' h s') ∙ ap some t.sets;
      some_hash = refl;
    }

record AddsEach (bf : BloomFilter) (hs : List (ℕ × ℕ)) : Type 0 where
  result : BloomFilter
  succeeds : add_each bf hs ≡ some result
  sized : Sized result
  keeps : (g : ℕ × ℕ) → contains bf g ≡ some true → contains result g ≡ some true
  holds : All (λ h. contains result h ≡ some true) hs
  some_hash : result.hashes ≡ bf.hashes

add_each-AddsEach : (bf : BloomFilter) (hs : List (ℕ × ℕ)) → Sized bf → AddsEach bf hs
unfolding add_each
add_each-AddsEach bf [] s = record {
  result = bf;
  succeeds = refl;
  sized = s;
  keeps = λ g c. c;
  holds = tt;
  some_hash = refl;
}
add_each-AddsEach bf (h ∷ hs) s =
    let a = add-Adds bf h s in
    let r = add_each-AddsEach a.result hs a.sized in
    record {
      result = r.result;
      succeeds = rw (a.succeeds, add_each) r.succeeds;
      sized = r.sized;
      keeps = λ g c. r.keeps g (a.keeps g c);
      holds = (r.keeps h a.holds, r.holds);
      some_hash = r.some_hash ∙ a.some_hash;
    }

repeat-words : (n : ℕ) → All IsWord (repeat n no_bits)
repeat-words zero = tt
repeat-words (suc n) = (refl, repeat-words n)

length-repeat : {A : Type 0} (n : ℕ) (x : A) → length (repeat n x) ≡ n
length-repeat zero x = refl
length-repeat (suc n) x = ap suc (length-repeat n x)

new-Sized : (size hashes : ℕ) → Sized (new size hashes)
unfolding new
new-Sized size hashes = record {
  words = repeat-words _;
  some_word = ground (arith, length-repeat (((if eqb size 0 then 1 else size) + 63) / 64) no_bits);
  size = ap (λ n. n * 64) (sym (length-repeat _ no_bits));
}

-- Whatever elements are added to a new filter and whatever their hashes are, no index is out of
-- range, neither when they are added nor when any element is looked up afterwards, and the filter
-- says of each of them that it may contain it: there are no false negatives.
pub no_false_negatives :
    (size hashes : ℕ) (hs : List (ℕ × ℕ))
    → (bf : BloomFilter) × (add_each (new size hashes) hs ≡ some bf)
      × All (λ h. contains bf h ≡ some true) hs
      × ((g : ℕ × ℕ) → (r : Bool) × (contains bf g ≡ some r))
unfolding contains
no_false_negatives size hashes hs =
    let r = add_each-AddsEach (new size hashes) hs (new-Sized size hashes) in
    (
      r.result,
      r.succeeds,
      r.holds,
      λ g. (
        _,
        test_all-set r.result.bits (positions r.result g) (positions-InRange r.result g r.sized),
      ),
    )

no_bit : (n c : ℕ) → and_bit (repeat n false) c ≡ false
unfolding and_bit
no_bit zero c = refl
no_bit (suc n) zero = refl
no_bit (suc n) (suc c) = no_bit n c

cleared-bit : (bits : List Word) (i c : ℕ) → bit_at (map (λ word. no_bits) bits) i c ≡ false
cleared-bit [] i c = refl
cleared-bit (w ∷ bits) zero c = no_bit 64 c
cleared-bit (w ∷ bits) (suc i) c = cleared-bit bits i c

cleared-words : (bits : List Word) → All IsWord (map (λ word. no_bits) bits)
cleared-words [] = tt
cleared-words (w ∷ bits) = (refl, cleared-words bits)

length-cleared : (bits : List Word) → length (map (λ word. no_bits) bits) ≡ length bits
length-cleared [] = refl
length-cleared (w ∷ bits) = ap suc (length-cleared bits)

cleared-Sized : (bf : BloomFilter) → Sized bf → Sized (clear bf)
unfolding clear
cleared-Sized bf s = record {
  words = cleared-words bf.bits;
  some_word = omega (arith, s.some_word, length-cleared bf.bits);
  size = s.size ∙ ap (λ n. n * 64) (sym (length-cleared bf.bits));
}

new-hashes : (size hashes : ℕ) → 0 < (new size hashes).hashes
unfolding new
new-hashes size hashes = ground arith

nothing_from :
    (bits : List Word) (n i : ℕ) (g : ℕ × ℕ) (size : ℕ)
    → 0 < n
    → all_set (map (λ word. no_bits) bits) (positions_from n i g size) ≡ false
unfolding positions_from
nothing_from bits zero i g size h = absurd (omega arith)
nothing_from bits (suc n) i g size h =
    let p = u64 (g.0 + u64 (i * g.1)) % size in rw (cleared-bit bits (p / 64) (p % 64)) refl

nothing_set :
    (bf : BloomFilter) (g : ℕ × ℕ)
    → 0 < bf.hashes
    → all_set (clear bf).bits (positions (clear bf) g) ≡ false
unfolding clear positions
nothing_set bf g h = nothing_from bf.bits bf.hashes 0 g bf.size h

-- After `Clear` a filter that has held any elements holds none: it rules out every element.
pub clear-empty :
    (size hashes : ℕ) (hs : List (ℕ × ℕ)) (bf : BloomFilter) (g : ℕ × ℕ)
    → add_each (new size hashes) hs ≡ some bf
    → contains (clear bf) g ≡ some false
unfolding contains clear
clear-empty size hashes hs bf g e =
    let r = add_each-AddsEach (new size hashes) hs (new-Sized size hashes) in
    let same = some-injective (sym r.succeeds ∙ e) in
    let s = cleared-Sized bf (subst Sized same r.sized) in
    test_all-set (clear bf).bits (positions (clear bf) g) (positions-InRange (clear bf) g s)
    ∙ ap some (
        nothing_set bf g (
          subst (λ n. 0 < n) (sym (ap (λ b. b.hashes) (sym same) ∙ r.some_hash))
            (new-hashes size hashes)))
