-- ===== src/Websocket/Rooms.antt =====
-- plugins/websocket/room.go. A room holds the numbers of its connections; a connection carries its
-- id and its group tags, which are kept here beside the rooms. Times are nanoseconds, the zero
-- `time.Time` is 0, and an `EmptyTTL` that is negative is `none`. The methods run one at a time.
pub mod Members
pub mod Eviction
use golang_gin_rpc.Base.{
  ℕ, zero, suc, ◌+◌, ◌-◌, Bool, true, false, not, ◌&&◌, ◌||◌, Option, none, some, List, [], ◌∷◌,
  String, ◌==◌, string_eq, ltb, leb, eqb, if◌then◌else◌, Dict, keys, lookup, insert, erase, has,
  length, contains,
}

pub record Options : Type 0 where
  pub max_members : ℕ
  pub empty_ttl : Option ℕ

-- `normalize`: a time of 0 is 30 seconds.
unfoldable pub normalize : Options → Options
normalize o = record o {
  empty_ttl = elim o.empty_ttl [ none ↦ none | some t ↦ some (if eqb t 0 then 30000000000 else t) ];
}

pub record Room : Type 0 where
  pub members : List String
  pub empty_since : ℕ

pub record RoomManager : Type 0 where
  pub rooms : Dict String Room
  pub opts : Options

pub data JoinError : Type 0 where
  invalid room_full : JoinError

abbrev no_room : Room
no_room = record { members = []; empty_since = 0 }

-- `delete(members, id)`.
unfoldable pub without : String → List String → List String
without id [] = []
without id (m ∷ members) = if m == id then without id members else m ∷ without id members

-- `members[id] = conn`.
abbrev pub with_member : String → List String → List String
with_member id members = if contains members id then members else id ∷ members

abbrev pub room_or : Option Room → Room
room_or none = no_room
room_or (some r) = r

abbrev pub room_of : RoomManager → String → Room
room_of rm room_id = room_or (lookup room_id rm.rooms)

-- `Join` of a connection by its id: the manager, the count after it, and the error.
unfoldable pub join : RoomManager → String → String → RoomManager × ℕ × Option JoinError
join rm room_id id =
    let r = room_of rm room_id in
    if room_id == ""
    then (rm, 0, some invalid)
    else (if ltb 0 rm.opts.max_members
          && leb rm.opts.max_members (length r.members)
          && not (contains r.members id)
        then (record rm { rooms = insert room_id r rm.rooms }, length r.members, some room_full)
        else let members = with_member id r.members in
          (
            record rm {
              rooms = insert room_id (record { members = members; empty_since = 0 }) rm.rooms;
            },
            length members,
            none,
          ))

-- The part that `Leave` and `RemoveConnection` share, at a time.
unfoldable pub room_without : String → ℕ → Room → Room
room_without id now r =
    let members = without id r.members in
    if eqb (length members) 0
    then record { members = members; empty_since = now }
    else record r { members = members }

abbrev pub leave_room : RoomManager → String → String → ℕ → Option Room → RoomManager × Bool
leave_room rm room_id id now none = (rm, false)
leave_room rm room_id id now (some r) =
    (record rm { rooms = insert room_id (room_without id now r) rm.rooms }, contains r.members id)

unfoldable pub leave : RoomManager → String → String → ℕ → RoomManager × Bool
leave rm room_id id now = leave_room rm room_id id now (lookup room_id rm.rooms)

abbrev pub each_without : String → ℕ → Dict String Room → Dict String Room
each_without id now [] = []
each_without id now ((k, r) ∷ rooms) = (k, room_without id now r) ∷ each_without id now rooms

unfoldable pub remove_connection : RoomManager → String → ℕ → RoomManager
remove_connection rm id now =
    if id == "" then rm else record rm { rooms = each_without id now rm.rooms }

-- The test of `evictEmptyRooms` for one room.
unfoldable pub is_evicted : Option ℕ → ℕ → Room → Bool
is_evicted none now r = false
is_evicted (some ttl) now r =
    eqb (length r.members) 0
    && not (eqb r.empty_since 0)
    && ltb 0 ttl
    && leb ttl (now - r.empty_since)

unfoldable pub keep_rooms : Option ℕ → ℕ → Dict String Room → Dict String Room
keep_rooms ttl now [] = []
keep_rooms ttl now ((k, r) ∷ rooms) =
    if is_evicted ttl now r then keep_rooms ttl now rooms else (k, r) ∷ keep_rooms ttl now rooms

unfoldable pub evict_empty_rooms : RoomManager → ℕ → RoomManager
evict_empty_rooms rm now = record rm { rooms = keep_rooms rm.opts.empty_ttl now rm.rooms }

-- What happens to a manager.
pub data RoomEvent : Type 0 where
  joins : (room_id id : String) → RoomEvent
  leaves : (room_id id : String) → (now : ℕ) → RoomEvent
  disconnects : (id : String) → (now : ℕ) → RoomEvent
  sweeps : (now : ℕ) → RoomEvent

unfoldable pub step : RoomManager → RoomEvent → RoomManager
step rm (joins room_id id) = (join rm room_id id).0
step rm (leaves room_id id now) = (leave rm room_id id now).0
step rm (disconnects id now) = remove_connection rm id now
step rm (sweeps now) = evict_empty_rooms rm now

unfoldable pub run : RoomManager → List RoomEvent → RoomManager
run rm [] = rm
run rm (e ∷ es) = run (step rm e) es
