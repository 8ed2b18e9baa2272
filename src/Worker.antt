-- ===== src/Worker.antt =====
-- worker.go: the type Worker, which answers the messages of its peer from a store of nodes.
pub mod Store
pub mod State
pub mod Handlers
pub mod Announce
pub mod Run
pub mod Ingest
pub mod Bootstrap
pub mod Keeps
pub mod KeepsHandlers
pub mod KeepsDispatch
pub mod KeptNode
pub mod Kept
pub mod KeptBootstrap
pub mod Bootstrapped
pub mod Gained
pub mod Synchronized
pub mod Rooted
pub mod Fetched
pub mod Answers
pub mod Lineage
pub mod RootFirst
pub mod Announced
pub mod Subscribed
pub mod Ingested
pub mod Authors
pub mod Announcing
pub mod Followed
pub mod Exchange
pub mod Propagates
pub mod Answered
pub mod Ends
pub mod Protocol
pub mod Served
pub mod Dialogue
pub mod System
pub mod Interleaved
pub mod Reached
pub mod Toy
pub mod Tests
pub mod SystemTests
pub mod DialogueTests
pub mod BootstrapTests
pub mod PropagatesTests
pub mod RootFirstTests
pub mod CaughtUp
pub mod Gossip
pub mod Requests
pub mod Woken
pub mod Filled
pub mod Fills
pub mod Closed
pub mod LaterRounds
pub mod Rounds
pub mod Restores
pub mod ToyTree
pub mod CaughtUpTests
