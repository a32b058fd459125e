-- ===== src/Websocket/Replay/Resume.antt =====
-- What a client that comes back is sent.
use mathlib.Core.List.{append_assoc, append-nil}
use golang_gin_rpc.Base.{
  ℕ, zero, suc, ◌+◌, ◌-◌, ◌≤◌, ◌≡◌, refl, sym, ap, ◌∙◌, List, [], ◌∷◌, ◌++◌, length, length-append,
  ltb, arith, max, Bool-cases, inl, inr, ltb→lt, ltb→le, ◌⊎◌, subst,
}
use golang_gin_rpc.Base.Int.{ℤ, positive_or}
use golang_gin_rpc.Websocket.Replay.{
  StoredMessage, ReplayBuffer, new_replay_buffer, slice_from, store, replay_from, replay_after,
  Session, send, send_all,
}

slice-append :
    {A : Type 0} (n : ℕ) (xs ys : List A)
    → n ≤ length xs
    → slice_from n (xs ++ ys) ≡ slice_from n xs ++ ys
slice-append zero xs ys h = refl
slice-append (suc n) [] ys h = absurd (omega arith)
slice-append (suc n) (x ∷ xs) ys h = slice-append n xs ys (omega arith)

slice-nil : {A : Type 0} (n : ℕ) → slice_from {A = A} n [] ≡ []
slice-nil zero = refl
slice-nil (suc n) = refl

slice-slice :
    {A : Type 0} (n m : ℕ) (xs : List A) → slice_from n (slice_from m xs) ≡ slice_from (m + n) xs
slice-slice n zero xs = ap (λ k. slice_from k xs) (omega arith)
slice-slice {A} n (suc m) [] = slice-nil n ∙ sym (slice-nil {A = A} (suc m + n))
slice-slice n (suc m) (x ∷ xs) =
    let e : suc (m + n) ≡ suc m + n = omega arith in
    slice-slice n m xs ∙ ap (λ k. slice_from k (x ∷ xs)) e

length-slice : {A : Type 0} (n : ℕ) (xs : List A) → length (slice_from n xs) ≡ length xs - n
length-slice zero xs = omega arith
length-slice (suc n) [] = omega arith
length-slice (suc n) (x ∷ xs) = omega (arith, length-slice n xs)

module _ {P : Type 0} where
  abbrev message : ℕ → P → StoredMessage P
  message n p = record { seq = n; payload = p }

  -- Messages numbered from `n + 1`.
  abbrev numbered : ℕ → List P → List (StoredMessage P)
  numbered n [] = []
  numbered n (p ∷ ps) = message (n + 1) p ∷ numbered (n + 1) ps

  length-numbered : (n : ℕ) (ps : List P) → length (numbered n ps) ≡ length ps
  length-numbered n [] = refl
  length-numbered n (p ∷ ps) = ap suc (length-numbered (n + 1) ps)

  numbered-append :
      (n : ℕ) (ps : List P) (p : P)
      → numbered n (ps ++ (p ∷ [])) ≡ numbered n ps ++ (message (n + length ps + 1) p ∷ [])
  numbered-append n [] p = ap (λ k. message k p ∷ []) (omega arith)
  numbered-append n (q ∷ ps) p =
      ap (λ l. message (n + 1) q ∷ l)
        (numbered-append (n + 1) ps p
          ∙ ap (λ k. numbered (n + 1) ps ++ (message k p ∷ [])) (omega arith))

  -- The buffer holds the last of the messages sent, as many as there is room for.
  record Holds (s : Session P) (ps : List P) : Type 0 where
    counted : s.seq ≡ length ps
    last : s.buf.ring ≡ slice_from (length ps - s.buf.cap) (numbered 0 ps)

  store-ring :
      (b : ReplayBuffer P) (seq : ℕ) (p : P) (k : ℕ) (all : List (StoredMessage P))
      → b.ring ++ (message seq p ∷ []) ≡ slice_from k all
      → k ≤ length all
      → (store b seq p).ring ≡ slice_from (max k (length all - b.cap)) all
  unfolding store
  store-ring b seq p k all e h =
      let n = ap length e ∙ length-slice k all in
      elim (Bool-cases (ltb b.cap (length (b.ring ++ (message seq p ∷ []))))) [
        | inl more ↦
            let x = ltb→lt _ _ more in
            rw (more, store)
              (ap (λ r. slice_from (length r - b.cap) r) e
                ∙ slice-slice (length (slice_from k all) - b.cap) k all
                ∙ ap (λ j. slice_from j all) (omega (arith, n, x, length-slice k all)))
        | inr fits ↦
            let x = ltb→le _ _ fits in
            rw (fits, store) (e ∙ ap (λ j. slice_from j all) (omega (arith, n, x)))
      ]

  store-cap : (b : ReplayBuffer P) (seq : ℕ) (p : P) → (store b seq p).cap ≡ b.cap
  unfolding store
  store-cap b seq p = ground arith

  send-Holds :
      (s : Session P) (ps : List P) (p : P) → Holds s ps → Holds (send s p) (ps ++ (p ∷ []))
  unfolding send
  send-Holds s ps p h =
      let k = length ps - s.buf.cap in
      let all = numbered 0 (ps ++ (p ∷ [])) in
      let n = length-numbered 0 (ps ++ (p ∷ [])) in
      let l = length-append ps (p ∷ []) in
      let e : s.buf.ring ++ (message (s.seq + 1) p ∷ []) ≡ slice_from k all =
        rw (h.last, h.counted)
          (sym (
              slice-append k (numbered 0 ps) (message (length ps + 1) p ∷ [])
                (omega (arith, length-numbered 0 ps)))
            ∙ ap (λ j. slice_from k (numbered 0 ps ++ (message j p ∷ []))) (omega arith)
            ∙ ap (λ r. slice_from k r) (sym (numbered-append 0 ps p))) in
      record {
        counted = omega (arith, h.counted, l);
        last =
            store-ring s.buf (s.seq + 1) p k all e (omega (arith, n, l))
            ∙ ap (λ j. slice_from j all) (omega (arith, n, l, store-cap s.buf (s.seq + 1) p));
      }

  send_all-Holds : (s : Session P) (ps qs : List P) → Holds s ps → Holds (send_all s qs) (ps ++ qs)
  unfolding send_all
  send_all-Holds s ps [] h = subst (Holds s) (sym (append-nil ps)) h
  send_all-Holds s ps (q ∷ qs) h =
      subst (Holds (send_all (send s q) qs)) (append_assoc ps (q ∷ []) qs)
        (send_all-Holds (send s q) (ps ++ (q ∷ [])) qs (send-Holds s ps q h))

  send_all-cap : (s : Session P) (qs : List P) → (send_all s qs).buf.cap ≡ s.buf.cap
  unfolding send_all send
  send_all-cap s [] = refl
  send_all-cap s (q ∷ qs) = send_all-cap (send s q) qs ∙ store-cap s.buf (s.seq + 1) q

  replay-numbered :
      (n last : ℕ) (ps : List P) → replay_from (numbered n ps) last ≡ slice_from (last - n) ps
  unfolding replay_from
  replay-numbered n last [] = sym (slice-nil (last - n))
  replay-numbered n last (p ∷ ps) = elim (Bool-cases (ltb last (n + 1))) [
    | inl e ↦
        let z : last - n ≡ 0 = omega (arith, ltb→lt _ _ e) in
        let y : last - (n + 1) ≡ 0 = omega (arith, ltb→lt _ _ e) in
        rw (e, replay_from)
          (ap (λ l. p ∷ l) (replay-numbered (n + 1) last ps ∙ ap (λ j. slice_from j ps) y)
            ∙ ap (λ j. slice_from j (p ∷ ps)) (sym z))
    | inr e ↦
        let z : last - n ≡ suc (last - (n + 1)) = omega (arith, ltb→le _ _ e) in
        rw (e, replay_from)
          (replay-numbered (n + 1) last ps ∙ ap (λ j. slice_from j (p ∷ ps)) (sym z))
  ]

  replay-slice :
      (n last j : ℕ) (ps : List P)
      → n + j ≤ last ⊎ (j ≡ 0)
      → replay_from (slice_from j (numbered n ps)) last ≡ slice_from (last - n) ps
  unfolding replay_from
  replay-slice n last zero ps h = replay-numbered n last ps
  replay-slice n last (suc j) [] h = sym (slice-nil (last - n))
  replay-slice n last (suc j) (p ∷ ps) (inr e) = absurd (omega arith)
  replay-slice n last (suc j) (p ∷ ps) (inl h) =
      let z : last - n ≡ suc (last - (n + 1)) = omega arith in
      replay-slice (n + 1) last j ps (inl (omega arith)) ∙ ap (λ k. slice_from k (p ∷ ps)) (sym z)

  -- A client that has seen the messages up to a number and has missed no more than the buffer has
  -- room for is sent exactly the messages after that one, all of them and in order.
  pub replay_complete :
      (capacity : ℤ) (ps : List P) (last : ℕ)
      → length ps ≤ last + positive_or capacity 1024
      → let s = send_all (record { seq = 0; buf = new_replay_buffer capacity }) ps in
        replay_after s.buf last ≡ slice_from last ps
  unfolding replay_after new_replay_buffer
  replay_complete capacity ps last h =
      let start : Session P = record { seq = 0; buf = new_replay_buffer capacity } in
      let first : Holds start [] = record {
        counted = refl;
        last = sym (slice-nil (0 - positive_or capacity 1024));
      } in
      let s = send_all-Holds start [] ps first in
      let c = send_all-cap start ps in
      rw (s.last, replay_after)
        (replay-slice 0 last (length ps - (send_all start ps).buf.cap) ps (inl (omega (arith, c)))
          ∙ ap (λ j. slice_from j ps) (omega arith))
