-- ===== src/Websocket/Rooms/Members.antt =====
-- The members of the rooms, whatever happens to them.
use golang_gin_rpc.Base.{
  ℕ, ◌≤◌, ◌<◌, ◌≡◌, refl, false, not, ◌&&◌, Option, none, some, List, [], ◌∷◌, String, ◌==◌,
  string_eq, ltb, leb, Dict, lookup, insert, length, contains, All, IsDistinct, arith, Bool-cases,
  inl, inr, subst, sym,
}
use golang_gin_rpc.Websocket.Rooms.{
  Options, Room, RoomManager, without, with_member, room_of, room_or, leave_room, join,
  room_without, leave, each_without, remove_connection, is_evicted, keep_rooms, evict_empty_rooms,
  RoomEvent, joins, leaves, disconnects, sweeps, step, run,
}

-- A room of a manager: its members are different connections, no more than the limit if there is
-- one, and when it has members it is not marked as empty.
pub record IsRoom (max_members : ℕ) (r : Room) : Type 0 where
  pub distinct : IsDistinct r.members
  pub limited : 0 < max_members → length r.members ≤ max_members
  pub occupied : 0 < length r.members → r.empty_since ≡ 0

contains-without :
    (id v : String) (ms : List String) → contains ms v ≡ false → contains (without id ms) v ≡ false
unfolding without
contains-without id v [] h = refl
contains-without id v (m ∷ ms) h = ground (arith, contains-without id v ms)

without-IsDistinct : (id : String) (ms : List String) → IsDistinct ms → IsDistinct (without id ms)
unfolding without
without-IsDistinct id [] d = tt
without-IsDistinct id (m ∷ ms) d =
    ground (arith, without-IsDistinct id ms, contains-without id m ms)

length-without : (id : String) (ms : List String) → length (without id ms) ≤ length ms
unfolding without
length-without id [] = omega arith
length-without id (m ∷ ms) = ground (arith, length-without id ms)

room_without-IsRoom :
    (k : ℕ) (id : String) (now : ℕ) (r : Room) → IsRoom k r → IsRoom k (room_without id now r)
unfolding room_without
room_without-IsRoom k id now r h = record {
  distinct = ground (arith, without-IsDistinct id r.members h.distinct);
  limited = ground (arith, length-without id r.members, h.limited);
  occupied = ground (arith, length-without id r.members, h.occupied);
}

abbrev pub AllRooms : ℕ → Dict String Room → Type 0
AllRooms k = All (λ (p : String × Room). IsRoom k p.1)

abbrev Found : ℕ → Option Room → Type 0
Found k none = Unit
Found k (some r) = IsRoom k r

looked_up :
    (k : ℕ) (id : String) (rooms : Dict String Room) → AllRooms k rooms → Found k (lookup id rooms)
unfolding lookup
looked_up k id [] a = tt
looked_up k id ((j, q) ∷ rooms) a = elim (Bool-cases (j == id)) [
  | inl e ↦ rw (e, lookup) a.0
  | inr e ↦ rw (e, lookup) (looked_up k id rooms a.1)
]

or_no_room : (k : ℕ) (o : Option Room) → Found k o → IsRoom k (room_or o)
or_no_room k none f = record { distinct = tt; limited = λ h. omega arith; occupied = λ h. refl }
or_no_room k (some r) f = f

insert-AllRooms :
    (k : ℕ) (id : String) (r : Room) (rooms : Dict String Room)
    → IsRoom k r
    → AllRooms k rooms
    → AllRooms k (insert id r rooms)
unfolding insert
insert-AllRooms k id r [] h a = (h, tt)
insert-AllRooms k id r ((j, q) ∷ rooms) h a = elim (Bool-cases (j == id)) [
  | inl e ↦ rw (e, insert) (h, a.1)
  | inr e ↦ rw (e, insert) (a.0, insert-AllRooms k id r rooms h a.1)
]

each_without-AllRooms :
    (k : ℕ) (id : String) (now : ℕ) (rooms : Dict String Room)
    → AllRooms k rooms
    → AllRooms k (each_without id now rooms)
each_without-AllRooms k id now [] a = tt
each_without-AllRooms k id now ((j, q) ∷ rooms) a =
    (room_without-IsRoom k id now q a.0, each_without-AllRooms k id now rooms a.1)

keep-AllRooms :
    (k : ℕ) (ttl : Option ℕ) (now : ℕ) (rooms : Dict String Room)
    → AllRooms k rooms
    → AllRooms k (keep_rooms ttl now rooms)
unfolding keep_rooms
keep-AllRooms k ttl now [] a = tt
keep-AllRooms k ttl now ((j, q) ∷ rooms) a = elim (Bool-cases (is_evicted ttl now q)) [
  | inl e ↦ rw (e, keep_rooms) (keep-AllRooms k ttl now rooms a.1)
  | inr e ↦ rw (e, keep_rooms) (a.0, keep-AllRooms k ttl now rooms a.1)
]

joined-IsRoom :
    (k : ℕ) (id : String) (r : Room)
    → IsRoom k r
    → (ltb 0 k && leb k (length r.members) && not (contains r.members id)) ≡ false
    → IsRoom k (record { members = with_member id r.members; empty_since = 0 })
joined-IsRoom k id r h e = record {
  distinct = ground (arith, h.distinct);
  limited = ground (arith, h.limited);
  occupied = λ l. refl;
}

join-AllRooms :
    (rm : RoomManager) (room_id id : String)
    → AllRooms rm.opts.max_members rm.rooms
    → AllRooms rm.opts.max_members (join rm room_id id).0.rooms
unfolding join
join-AllRooms rm room_id id a =
    let k = rm.opts.max_members in
    let r = room_of rm room_id in
    let h = or_no_room k (lookup room_id rm.rooms) (looked_up k room_id rm.rooms a) in
    elim (Bool-cases (room_id == "")) [
      | inl e ↦ rw (e, join) a
      | inr e ↦
          elim (Bool-cases (ltb 0 k && leb k (length r.members) && not (contains r.members id))) [
            | inl full ↦ rw (e, full, join) (insert-AllRooms k room_id r rm.rooms h a)
            | inr room ↦
                rw (e, room, join)
                  (insert-AllRooms k room_id _ rm.rooms (joined-IsRoom k id r h room) a)
          ]
    ]

left-AllRooms :
    (rm : RoomManager) (room_id id : String) (now : ℕ) (o : Option Room)
    → Found rm.opts.max_members o
    → AllRooms rm.opts.max_members rm.rooms
    → AllRooms rm.opts.max_members (leave_room rm room_id id now o).0.rooms
left-AllRooms rm room_id id now none f a = a
left-AllRooms rm room_id id now (some r) f a =
    insert-AllRooms rm.opts.max_members room_id (room_without id now r) rm.rooms
      (room_without-IsRoom rm.opts.max_members id now r f) a

step-opts : (rm : RoomManager) (e : RoomEvent) → (step rm e).opts ≡ rm.opts
unfolding step join leave remove_connection evict_empty_rooms
step-opts rm (joins room_id id) = ground arith
step-opts rm (leaves room_id id now) = ground arith
step-opts rm (disconnects id now) = ground arith
step-opts rm (sweeps now) = refl

step-AllRooms :
    (rm : RoomManager) (e : RoomEvent)
    → AllRooms rm.opts.max_members rm.rooms
    → AllRooms rm.opts.max_members (step rm e).rooms
unfolding step leave remove_connection evict_empty_rooms
step-AllRooms rm (joins room_id id) a = join-AllRooms rm room_id id a
step-AllRooms rm (leaves room_id id now) a =
    left-AllRooms rm room_id id now (lookup room_id rm.rooms)
      (looked_up rm.opts.max_members room_id rm.rooms a) a
step-AllRooms rm (disconnects id now) a = elim (Bool-cases (id == "")) [
  | inl e ↦ rw (e, remove_connection) a
  | inr e ↦ rw (e, remove_connection) (each_without-AllRooms rm.opts.max_members id now rm.rooms a)
]
step-AllRooms rm (sweeps now) a = keep-AllRooms rm.opts.max_members rm.opts.empty_ttl now rm.rooms a

-- Whatever joins, leaves, disconnects and sweeps happen, the members of each room stay different
-- connections and within the configured limit, and a room with members is never marked as empty.
pub run-AllRooms :
    (rm : RoomManager) (es : List RoomEvent)
    → AllRooms rm.opts.max_members rm.rooms
    → AllRooms rm.opts.max_members (run rm es).rooms
unfolding run
run-AllRooms rm [] a = a
run-AllRooms rm (e ∷ es) a =
    subst (λ (o : Options). AllRooms o.max_members (run (step rm e) es).rooms) (step-opts rm e)
      (run-AllRooms (step rm e) es (
        subst (λ (o : Options). AllRooms o.max_members (step rm e).rooms) (sym (step-opts rm e))
          (step-AllRooms rm e a)))
