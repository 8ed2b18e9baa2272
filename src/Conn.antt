-- ===== src/Conn.antt =====
-- sprout.go: the type Conn, which speaks the Sprout protocol over a connection.
pub mod Verbs
pub mod State
pub mod Nodes
pub mod Parse
pub mod Dispatch
pub mod Send
pub mod Texts
pub mod Wire
pub mod Bodies
pub mod RoundTrip
pub mod Pending
pub mod Kept
pub mod KeptSends
pub mod Fresh
pub mod Distinct
pub mod Channels
pub mod Replies
pub mod Race
pub mod Blocked
pub mod Unblocked
pub mod Atomic
pub mod Writes
pub mod Faults
pub mod Delivery
pub mod Taken
pub mod Consumed
pub mod Tests
pub mod RaceTests
