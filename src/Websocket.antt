-- ===== src/Websocket.antt =====
-- plugins/websocket: the replay buffer of a session (session.go) and the rooms (room.go).
pub mod Replay
pub mod Rooms
mod Tests
