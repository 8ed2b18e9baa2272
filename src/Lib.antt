-- ===== src/Lib.antt =====
-- Verification of sprout-go, a Go implementation of the Sprout protocol (sprout.go, session.go,
-- worker.go, supervisor.go) with a relay (cmd/relay, watch).
--
-- Parts. A Conn (sprout.go) writes messages to its peer and reads the peer's messages: a reply is
-- passed to the channel that waits for it, anything else to a handler. A Worker (worker.go) sets the
-- handlers, and answers from a store of nodes; what its peer has subscribed to is a Session
-- (session.go). The relay remembers in an ExpiringSet (cmd/relay/expiring_set.go) what it wrote.
--
--   Base            shared names, signed integers, errors as values, and `Exec`, code that works on
--                   a state and may fail or panic
--   Fmt             what is used of Go's package fmt: Space, Number and Format define the tokens,
--                   Fprintf, Fscanf and Fscanln; NumberBack and FormatBack prove that what is
--                   printed is scanned back, Consumed and Word that scans use up their input
--   Base64          Go's base64.RawURLEncoding
--   Forest          the interface of the packages forest-go: hashes and nodes, with the laws that
--                   some theorems rely on
--   Session         session.go (Subscribe, IsSubscribed, Unsubscribe); Count, Order, and Bag, which
--                   forgets the pointers and the order of the map
--   ExpiringSet     cmd/relay/expiring_set.go (Add, purge, Has); View, Bounds and History
--   Conn.Verbs      sprout.go, the verbs and `formats`
--   Conn.State      sprout.go, the type Conn: writeMessageWithID, writeMessageAsync, Cancel,
--                   sendToWaitingChannel
--   Conn.Nodes      sprout.go: nodeLine, readNodeLines, readNodeIDs, NodeFromBase64URL
--   Conn.Parse      sprout.go: scanOp, and ReadMessage up to the call of the handler
--   Conn.Dispatch   sprout.go: ReadMessage
--   Conn.Send       sprout.go: the Send operations, handleExpectedStatus, handleExpectedResponse
--   Conn.Wire       the text of each message; Bodies and RoundTrip read it back, Writes proves that
--                   the Send operations write it
--   Conn.Delivery   messages that follow each other, and ReadMessage at the other end
--   Conn.Texts      sprout.go: StatusCode.String, Status.Error, UnsolicitedMessageError.Error
--   Conn.Race       sprout.go: sendToWaitingChannel in its single steps, beside the goroutines that
--                   wait for replies; Blocked and Unblocked are about whether it comes to its end,
--                   and Atomic is about the operations of State, which are one step each
--   Conn.Taken      a reply that is read by the end that has asked
--   Conn.Pending, Distinct, Channels, Replies, Faults    what a connection guarantees, and what input
--                   breaks
--   Worker          worker.go: Store is the interface of the node store and State the type Worker;
--                   Handlers (OnVersion to OnUnsubscribe), Announce (OnAnnounce), Run (NewWorker,
--                   Run), Ingest (IngestNode, ensureAuthorAvailable, HandleNewNode) and Bootstrap
--                   (BootstrapLocalStore, synchronizeFullTree)
--   Worker.Answers, Lineage, RootFirst, Announced, Subscribed    about what the handlers answer and
--                   do; Base.Sorted is about sorted lists
--   Worker.Protocol    which reply each request is owed; Served and Dialogue prove that a worker
--                   gives it
--   Worker.System   the steps of a worker, whose goroutines take turns; Reached is about the states
--                   that they lead to; Interleaved is a store that others use in between
--   Worker.Answered    a request on its way to a worker and its reply on the way back
--   Worker.Exchange    a worker at the other end of a connection: a query and its response
--   Worker.Rooted   stores that have the parents of their nodes; Fetched and CaughtUp are about a
--                   worker that asks another one for the ancestors of a node, Gossip about one
--                   that heard of the node from it, and Requests, Woken, Filled, Fills, LaterRounds,
--                   Rounds and Restores about one that bootstraps its store
--   Worker.Propagates    a node that is announced to another worker and comes into its store
--   Worker.Ends     about how Run ends; Conn.Consumed is about what it reads
--   Base.Reach      the states that steps lead to
--   Base.Preserves, Conn.Kept, KeptSends, Fresh    code that keeps a statement true: those of a
--                   connection, and the statement about its counter of message IDs
--   Worker.Keeps, KeepsHandlers, KeepsDispatch, KeptNode, Kept, KeptBootstrap    the same for a
--                   worker, its connection, its store and its session
--   Worker.Ingested, Authors, Bootstrapped, Gained, Synchronized, Announcing, Followed    about what
--                   comes into the store, and what is announced
--   Supervisor      supervisor.go: the loop of LaunchSupervisedWorker; Stops is about its end
--   Relay           cmd/relay/main.go: the callbacks for added messages and for watched files; Watched
--                   and History are about what they store. Listen is the loop that accepts connections.
--   Relay.System    cmd/relay/main.go: the relay while it runs, its workers, callbacks and purger on one
--                   store; Shared and Orphans are about that store, and Worker.Closed about stores
--                   that have the ancestors of what they have
--   Relay.Start     cmd/relay/main.go: main; Outcome and AllOrNothing are about what it starts
--   Watch           watch/watch.go: Watch and its goroutine; Handled is about the calls of its handler
--   Example         a small forest at which the theorems are applied; Worker.Toy is a store for it, and
--                   Worker.ToyTree one whose nodes validate where their parents are
--
-- State and operations. An operation of the program is a function from the state to its result and
-- the new state; an error comes beside the state that was reached. The input of a connection is the
-- text that its peer sends until it closes its end, and its output the text that was written. What
-- the outside decides is part of the state: which writes of the transport fail, and how each wait
-- for a reply ends. A text is a list of code points. An `int` is a signed integer with the bounds of
-- 64 bits where the code depends on them; the counter of message IDs wraps around.
--
-- Fuel. The loop of fmtInteger has one round more than the number, which is never used up; Run takes
-- a number of rounds, and answers `none` if they were not enough: one more than the input has
-- characters are enough.
--
-- Not modelled: logging, TLS, timers, the parsing of the relay's flags with its usage text, and the
-- reading of files. Whether the relay is interrupted is an argument of main.
-- Run is modelled without its subscription to the messages of the store (a call of HandleNewNode is a
-- step of Worker.System) and without the closing of its connection.
-- Operations that lock are one step each. But for Conn.Race, a send on a channel finds its receiver
-- ready: in the program a reply that comes as its request times out can block (Conn.Blocked), and
-- Worker.Ends is about a worker that waits for none. In Worker.System and Relay.System a goroutine
-- runs its operation whole before another takes its turn, but other users of the store may act right
-- before each addition (Worker.Interleaved); an operation sees what they did when it has next added a
-- node. How a wait for a reply ends is given beforehand, whatever was asked: a theorem that needs the
-- peer's answer says that what was written is answered so, or owed that answer (Worker.Protocol). In Conn.Race a request is registered and
-- waited for in one step, and each request is waited for. ExpiredPurger is a relation between stores. OnAnnounce records the nodes that it starts
-- to ingest. The texts of errors leave out the values that are printed into them, but for those of
-- Conn.Texts.
pub mod Base
pub mod Session
pub mod ExpiringSet
pub mod Fmt
pub mod Base64
pub mod Forest
pub mod Conn
pub mod Worker
pub mod Supervisor
pub mod Relay
pub mod Watch
pub mod Example
