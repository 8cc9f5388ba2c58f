-- ===== src/Lib.antt =====
-- A verification library for the node of MP1: processes that exchange deposits and transfers over
-- a totally ordered multicast, and each apply them to a ledger of their own.
--
-- The parts of the program, from the network up, and the files here that model them:
--
-- lib/mp1/multicast/client.go is Client: one connection to a member. What the network does with
-- each write is an argument, a list of outcomes. NewTCPClient, which dials and greets, is in
-- Handshake with lib/mp1/types/msg.go. lib/mp1/multicast/server.go is Connection: handleConn from
-- the handshake to the end of the connection, and runServer, over Scanner, which is Go's
-- bufio.Scanner on lines; Scanner/Frames is about frames on it, Connection/Session about whole
-- connections. Each line is measured by Metrics, lib/mp1/metrics/metrics.go.
-- lib/mp1/multicast/b_multicast.go is BMulticast: the members with their clients, Unicast and
-- Multicast over them; BMulticast/Send is about a multicast. A client may be nil, as the start of
-- the clients adds one after a failed handshake: a send to it panics. A member whose write fails
-- leaves the group, and the new count is published to the collector of votes by Broker,
-- lib/broker/broker.go: Broker/Broadcast is about one message, Broker/Runs has the steps of the
-- goroutine and its callers, and Broker/Order is about all runs. Startup is the start of the
-- server and the clients of b_multicast.go, which run side by side; Startup/Order is about the
-- order of their turns.
-- lib/mp1/multicast/group.go and group_builder.go are Group. lib/mp1/multicast/message.go is
-- Message: the messages of all layers. lib/mp1/router/router.go is Router: handlers by path.
--
-- lib/mp1/multicast/total_ording.go is in two files. TotalOrder has the state of the layer,
-- NewTotalOrder, and the handlers of a request for a proposal and of an announcement, with the
-- loop that delivers. Votes has the goroutine that collects the proposals and announces the
-- agreement (Votes/Count and Votes/Recheck about one round, Votes/History about its loop). The
-- maxima that both use, lib/mp1/multicast/util.go, are Util.
-- lib/mp1/multicast/to_hold_queue_item.go is HoldQueue, over Heap, which is Go's container/heap on
-- any heap.Interface (HoldQueue/Print is its text). TotalOrder/Valid and TotalOrder/Deliver are
-- about one call of a handler (TotalOrder/Heads about the steps of its loop), TotalOrder/Order
-- about the order of deliveries over one call (TotalOrder/Keys about the order itself), and
-- TotalOrder/Agreement about all histories and about two nodes. TotalOrder/Faithful ties the
-- announcements to the votes.
--
-- lib/mp1/multicast/r_multicast.go is RMulticast: a node relays a message when it sees it first,
-- and hands it on. RMulticast/Deliver is about one message, RMulticast/Once about all that a node
-- gets.
--
-- Node puts the layers together: the handlers on the routers of the basic and of the reliable
-- multicast, with their decoding, the multicast of the total order, and what
-- lib/mp1/multicast/server.go does with a line of a connection. Node/Upper is about the handlers
-- of the total order, Node/Frame about one line, and Node/Start is the start of the layers.
--
-- lib/mp1/transaction/processor.go is Processor: the handlers that a message of the total order
-- reaches. Processor/Replicas is about nodes that process one log, Processor/Applied about one
-- event. lib/mp1/transaction/transaction.go is Transaction, and lib/mp1/transaction/types.go is
-- Event, which reads the input lines (Listener is the loop over them,
-- lib/mp1/transaction/event_listener.go) with Strings, the parts of Go's strings, strconv and fmt
-- that the program uses. lib/mp1/config/config.go, with ParsePort and ConstructGroup of
-- cmd/mp1/root.go, is Config, and lib/retry/retry.go is Retry. Command is the rest of
-- cmd/mp1/root.go: RootCMDMain and the goroutine that multicasts the events, on all layers in
-- Command/Request and Command/Events, and Command/Arrival is about a node that gets what they
-- write.
--
-- Two programs stand beside the node. cli/r-multicast/main.go is Simulation: nodes on channels
-- that multicast one message reliably, as a step relation on all orders of sends and receives.
-- Simulation/Counts and Simulation/Sums count messages, Simulation/Nodes is about one node,
-- Simulation/Steps about one action, Simulation/Invariant about all runs, Simulation/Bounds about
-- their length, and Simulation/Progress about their end. The central logger of MP0 is LogClient,
-- cmd/mp0/client/root.go, and LogServer, cmd/mp0/server/root.go, with its arguments and the loop
-- that accepts in LogServer/Start; LogServer/Events is about the two together. All programs set up
-- their log by lib/logger/logger.go, which is Logger.
--
-- How Go is modelled. A method that holds its lock throughout is one step. The handlers of the
-- total order take two locks one after the other: TotalOrder has their parts, and the histories of
-- TotalOrder/Agreement interleave the parts of all calls. Where a frame is handled, nothing runs
-- between the parts. A pointer to a held item is a place in the memory of the queue, which the map
-- and the queue share; items are never freed. A run-time panic is a value of Base/Run, an error is
-- a value of Base/Result. Go's int and uint64 are ℤ and ℕ with their wrap-around written out
-- (Base/Int). Texts are lists of code points, whose order is that of their bytes in UTF-8
-- (Base/Text). Maps are association lists; the order of a range is that of the list. The clock,
-- the liveness of nodes, JSON (Codec), uuid and SHA1 are arguments. An application behind the
-- router is a function that the delivery loop is given; the theorems on the loop ask that it
-- returns.
--
-- Fuel: the delivery loop has one round more than the queue has items, and each round but the last
-- takes one item out; the loops of Heap have as many rounds as the heap has items. Retry has as
-- many rounds as there are attempts. The handler of a frame has two rounds, one for the path of
-- the basic multicast and one for that of the message. The loop of the central logger has a round
-- for each message and one for the end of the input.
--
-- Not modelled here: sockets and listeners, the command lines of the node and of the clients, the
-- delays that the total order measures, and vendored libraries. A connection is served as if
-- alone; what other connections do between two of its lines is the subject of the histories of
-- TotalOrder and RMulticast.
pub mod BMulticast
pub mod Base
pub mod Broker
pub mod Client
pub mod Codec
pub mod Command
pub mod Config
pub mod Connection
pub mod Event
pub mod Group
pub mod Handshake
pub mod Heap
pub mod HoldQueue
pub mod Listener
pub mod LogClient
pub mod LogServer
pub mod Logger
pub mod Message
pub mod Metrics
pub mod Node
pub mod Processor
pub mod RMulticast
pub mod Retry
pub mod Router
pub mod Scanner
pub mod Simulation
pub mod Startup
pub mod Strings
pub mod TotalOrder
pub mod Transaction
pub mod Util
pub mod Votes
