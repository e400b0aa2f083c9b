-- ===== src/Chat.antt =====
-- routes/chat/chat.go: the throttle of the pushes for a room, the names of two users' rooms, who may use
-- a room, posts, read cursors and connections.
pub mod Throttle
pub mod LastSent
pub mod Limit
pub mod Rooms
pub mod Access
pub mod Post
pub mod Reads
pub mod Socket
pub mod Members
pub mod Posting
pub mod Admit
pub mod Query
pub mod Pages
