-- ===== src/Websocket/Rooms/Eviction.antt =====
-- Which rooms are evicted.
use golang_gin_rpc.Base.{
  ℕ, ◌+◌, ◌<◌, ◌≡◌, refl, ◌∙◌, ap, false, Option, none, some, List, [], ◌∷◌, String, ◌==◌,
  string_eq, if◌then◌else◌, Dict, lookup, length, arith, Bool-cases, inl, inr, sym, subst,
  some-injective, none-absurd,
}
use golang_gin_rpc.Websocket.Rooms.{
  Room, RoomManager, without, room_without, each_without, remove_connection, is_evicted, keep_rooms,
  evict_empty_rooms, RoomEvent, disconnects, sweeps, step, run,
}

kept :
    (ttl : Option ℕ) (now : ℕ) (id : String) (rooms : Dict String Room) (r : Room)
    → lookup id rooms ≡ some r
    → is_evicted ttl now r ≡ false
    → lookup id (keep_rooms ttl now rooms) ≡ some r
unfolding keep_rooms lookup
kept ttl now id [] r l e = l
kept ttl now id ((j, q) ∷ rooms) r l e = elim (Bool-cases (j == id)) [
  | inl same ↦
      let x : q ≡ r =
        some-injective (ap (λ b. if b then some q else lookup id rooms) (sym same) ∙ l) in
      rw (ap (is_evicted ttl now) x ∙ e, keep_rooms) (rw (same, lookup) (ap some x))
  | inr other ↦
      let ih =
        kept ttl now id rooms r (ap (λ b. if b then some q else lookup id rooms) (sym other) ∙ l)
          e in
      elim (Bool-cases (is_evicted ttl now q)) [
        | inl gone ↦ rw (gone, keep_rooms) ih
        | inr stays ↦ rw (stays, keep_rooms) (rw (other, lookup) ih)
      ]
]

not_evicted :
    (ttl : Option ℕ) (now : ℕ) (r : Room) → 0 < length r.members → is_evicted ttl now r ≡ false
unfolding is_evicted
not_evicted none now r h = refl
not_evicted (some t) now r h = ground arith

-- A sweep never evicts a room with members.
pub occupied_stays :
    (rm : RoomManager) (now : ℕ) (id : String) (r : Room)
    → lookup id rm.rooms ≡ some r
    → 0 < length r.members
    → lookup id (evict_empty_rooms rm now).rooms ≡ some r
unfolding evict_empty_rooms
occupied_stays rm now id r l h =
    kept rm.opts.empty_ttl now id rm.rooms r l (not_evicted rm.opts.empty_ttl now r h)

-- A connection, when it goes away, and when the sweep after that is.
abbrev pub Departure : Type 0
Departure = String × ℕ × ℕ

-- Connections go away one after the other, each before a sweep.
abbrev pub come_and_go : List Departure → List RoomEvent
come_and_go [] = []
come_and_go ((id, gone, swept) ∷ rest) = disconnects id gone ∷ sweeps swept ∷ come_and_go rest

-- Each connection has an identifier, and each sweep comes within the time to live after the
-- departure.
abbrev pub Soon : ℕ → List Departure → Type 0
Soon ttl [] = Unit
Soon ttl ((id, gone, swept) ∷ rest) =
    (((id == "") ≡ false) × (0 < gone) × (swept < gone + ttl)) × Soon ttl rest

without_lookup :
    (id room_id : String) (now : ℕ) (rooms : Dict String Room) (r : Room)
    → lookup room_id rooms ≡ some r
    → lookup room_id (each_without id now rooms) ≡ some (room_without id now r)
unfolding lookup
without_lookup id room_id now [] r l = none-absurd l
without_lookup id room_id now ((j, q) ∷ rooms) r l = elim (Bool-cases (j == room_id)) [
  | inl same ↦
      let x : q ≡ r =
        some-injective (ap (λ b. if b then some q else lookup room_id rooms) (sym same) ∙ l) in
      rw (same, lookup) (ap (λ z. some (room_without id now z)) x)
  | inr other ↦
      rw (other, lookup)
        (without_lookup id room_id now rooms r
          (ap (λ b. if b then some q else lookup room_id rooms) (sym other) ∙ l))
]

still_empty :
    (id : String) (gone swept ttl : ℕ) (r : Room)
    → r.members ≡ []
    → 0 < gone
    → swept < gone + ttl
    → ((room_without id gone r).members ≡ [])
      × (is_evicted (some ttl) swept (room_without id gone r) ≡ false)
unfolding room_without without is_evicted
still_empty id gone swept ttl r e g s =
    let x : without id r.members ≡ [] = ap (without id) e in
    rw (x, room_without) (refl, ground arith)

removed :
    (rm : RoomManager) (id : String) (now : ℕ)
    → (id == "") ≡ false
    → remove_connection rm id now ≡ record rm { rooms = each_without id now rm.rooms }
unfolding remove_connection
removed rm id now i = rw i refl

-- An empty room is still there, and empty, after any run in which departures and sweeps alternate,
-- nothing else happens, and each sweep comes less than the time to live after the departure before
-- it. The connections that go away are any ones with an identifier, whether they were in the room or
-- not; each departure marks the room as empty from then on.
pub departures_defer :
    (rm : RoomManager) (room_id : String) (ttl : ℕ) (times : List Departure) (r : Room)
    → rm.opts.empty_ttl ≡ some ttl
    → lookup room_id rm.rooms ≡ some r
    → r.members ≡ []
    → Soon ttl times
    → (r' : Room) × (lookup room_id (run rm (come_and_go times)).rooms ≡ some r')
      × (r'.members ≡ [])
unfolding run step remove_connection evict_empty_rooms
departures_defer rm room_id ttl [] r o l e s = (r, l, e)
departures_defer rm room_id ttl ((id, gone, swept) ∷ times) r o l e s =
    let (named, positive, soon) = s.0 in
    let (e', k) = still_empty id gone swept ttl r e positive soon in
    let q = room_without id gone r in
    let l' =
      kept rm.opts.empty_ttl swept room_id (each_without id gone rm.rooms) q
        (without_lookup id room_id gone rm.rooms r l) (ap (λ t. is_evicted t swept q) o ∙ k) in
    let d = record rm { rooms = each_without id gone rm.rooms } in
    subst
      (λ (m : RoomManager).
        (r' : Room) × (lookup room_id (run (evict_empty_rooms m swept) (come_and_go times)).rooms
          ≡ some r')
        × (r'.members ≡ []))
      (sym (removed rm id gone named))
      (departures_defer (evict_empty_rooms d swept) room_id ttl times q o l' e' s.1)
