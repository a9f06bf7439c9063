-- ===== src/Lib.antt =====
-- smolnet: a TCP/IP stack for the BEAM, whose native core (native/smolnet_core) wraps smoltcp.
--
-- One stack owns a table of sockets, a queue of keys that are ready, a packet device with two queues,
-- and smoltcp's sockets. A call from the BEAM starts a budget, changes the table and the device, and ends
-- with the wake-ups that are due. smoltcp wakes a socket through a waker, which may run while another
-- thread holds the queue: a flag, a bounded set of keys and an overflow mark make sure that no wake is
-- lost, and a sweep over the flags of the table finds what the set could not hold.
--
-- Files, with the sources they are about (paths under native/smolnet_core/src):
--   Prelude         no source: lists, maps (`BTreeMap` as its entries in key order), results, integers.
--   Budget          budget.rs: `CallBudget`, with each reading of the clock as an argument.
--   Limits          limits.rs: `Limits`, `Work`, `constrain`.
--   Waiter          waiter.rs: identities, keys, waiters; Waiter.Queue has `ReadyQueue`/`ReadyWaker`.
--   SocketTable     socket_table.rs: the types; SocketTable.Ops has the operations, as functions from
--                   a state to a result and a state, and SocketTable.Scan has `scan_ready`.
--   Device          device.rs: `BeamDevice`, its queues, its egress credit and its tokens.
--   Tcp, Udp, Time  tcp.rs, udp.rs, time.rs: endpoints, ephemeral ports, records, times.
--   Stack           stack.rs: Stack.Config validates a configuration, Stack.Packet and
--                   Stack.Admission say which packets are let in, Stack.Capacity opens sockets
--                   within the limits of Stack.State, Stack.Ports chooses local ports, Stack.Bind
--                   binds to them, and Stack.Listeners has the sweep of refresh_listeners over
--                   pool members. Stack.Configured, Stack.Whole and Stack.Members say
--                   independently of the code what a good configuration, a whole packet and the
--                   members to visit are. Stack.Native is `NativeStack` as the end of a call sees
--                   it, Stack.Calls has finish_call, Stack.Connections the indices of TCP records,
--                   Stack.Shutdown the shutdown in slices. The proofs about finish_call are in
--                   Stack.Tracking and Stack.Wakeups (no wake-up is lost), Stack.Told (no waiter
--                   is), Stack.Effort (its work), Stack.Deliveries (its messages are within that),
--                   Stack.Aborts (what it sends); those about a shutdown in Stack.Dismantle (a
--                   round), Stack.Slices (a slice), Stack.Farewell (the waiters) and
--                   Stack.Termination. Stack.Reaping is the sweep over closing sockets,
--                   Stack.Driving is drive_batch, over an `Interface`.
--   Tests           the theorems at concrete inputs.
--
-- A `&mut self` method is a function that also returns the state; `Result` is a data type with a bind,
-- and `?` is a do block. Atomic flags live in a memory (`Flags`), so that a socket entry and its wakers
-- share one. Numbers are unbounded where the source checks its additions or cannot reach the bound,
-- and wrap or saturate where the source does. There is no fuel: each loop is recursion on the list that
-- it walks, or on the number of its rounds, as the ephemeral port search and a slice of a shutdown do.
--
-- Parameters: the answers of the budget (in the scans, the drain and the transmit loop), the state of a
-- lock at `try_lock`, the clock, the time slice of the BEAM, smoltcp's address predicates and parsers, the
-- handle that smoltcp's socket set gives, and what smoltcp writes into a frame. At the end of a call and in
-- a shutdown they are the record `Env` over a type `B` of what the BEAM and the clock are in: the answer of
-- `CallBudget::checkpoint`, a charge, and whether a message arrives. `outbox` of a stack is what it sent.
-- smoltcp's interface and sockets are the records `Interface` and `Kernel` over a state of their own. A
-- poll and an abort also answer which wakers they run (`Wake`), and `run_wakes` runs them on the stack;
-- `Instant::total_millis` is a field of `Interface`.
--
-- Not modelled: smoltcp itself (vendored), the NIF entry points in lib.rs (decoding and encoding of BEAM
-- terms), the Elixir library, fuzzing; and of stack.rs the calls that act on a smoltcp socket (connect,
-- listen, accept, send, receive, close), what a sweep does to one member of a listener (an argument of
-- the sweep), and what drive_batch asks of the stack for each packet (retargeting a
-- listener, noting a reset), which is an argument of it.
pub mod Budget
pub mod Device
pub mod Limits
pub mod Prelude
pub mod SocketTable
pub mod Stack
pub mod Tcp
pub mod Tests
pub mod Time
pub mod Udp
pub mod Waiter
