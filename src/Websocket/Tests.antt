-- ===== src/Websocket/Tests.antt =====
-- Sessions and rooms on concrete inputs.
use golang_gin_rpc.Base.{◌≡◌, refl, some, [], ◌∷◌, String, string_eq, lookup, arith}
use golang_gin_rpc.Base.Int.{pos}
use golang_gin_rpc.Websocket.Replay.{send_all, new_replay_buffer, replay_after, slice_from}
use golang_gin_rpc.Websocket.Replay.Resume.{replay_complete}
use golang_gin_rpc.Websocket.Rooms.{Room, RoomManager, joins, leaves, run}
use golang_gin_rpc.Websocket.Rooms.Members.{AllRooms, run-AllRooms}
use golang_gin_rpc.Websocket.Rooms.Eviction.{departures_defer, come_and_go}

replay_complete_example :
    replay_after {P = String}
      (send_all
        (record { seq = 0; buf = new_replay_buffer (pos 3) })
        ("a" ∷ "b" ∷ "c" ∷ "d" ∷ [])).buf
      2
    ≡ slice_from {A = String} 2 ("a" ∷ "b" ∷ "c" ∷ "d" ∷ [])
replay_complete_example = replay_complete (pos 3) ("a" ∷ "b" ∷ "c" ∷ "d" ∷ []) 2 (omega arith)

abbrev lobby : RoomManager
lobby = record {
  rooms =
      ("lobby", record { members = "c1" ∷ []; empty_since = 0 })
      ∷ ("hall", record { members = []; empty_since = 50 })
      ∷ [];
  opts = record { max_members = 2; empty_ttl = some 100 };
}

run-AllRooms_example :
    AllRooms 2
      (run lobby (joins "lobby" "c2" ∷ joins "lobby" "c3" ∷ leaves "lobby" "c1" 60 ∷ [])).rooms
run-AllRooms_example =
    run-AllRooms lobby (joins "lobby" "c2" ∷ joins "lobby" "c3" ∷ leaves "lobby" "c1" 60 ∷ []) (
      record { distinct = (refl, tt); limited = λ h. omega arith; occupied = λ h. refl },
      (record { distinct = tt; limited = λ h. omega arith; occupied = λ h. ground arith }, tt),
    )

departures_defer_example :
    (r : Room) × (lookup "hall"
        (run lobby (come_and_go (("c9", 100, 140) ∷ ("c4", 190, 250) ∷ []))).rooms
      ≡ some r)
    × (r.members ≡ [])
unfolding lookup
departures_defer_example =
    departures_defer lobby "hall" 100 (("c9", 100, 140) ∷ ("c4", 190, 250) ∷ [])
      (record { members = []; empty_since = 50 }) refl refl refl
      ((refl, omega arith, omega arith), ((refl, omega arith, omega arith), tt))
