-- ===== src/Lib.antt =====
-- Models of the parts of IceCap, a hypervisor of mutually distrusting virtual machines on seL4, that
-- keep state of their own, and what is proved of them.
--
-- Paths are from the repository's root; rust/crates/framework and rust/crates/hypervisor stand below
-- src. A 32-bit or 64-bit word is a natural number with its wrap-around written out, an i64 the integer
-- of Base/Ints.antt; an array is a list; a BTreeMap is the list of its entries in the order of their
-- keys; a call that can panic or return an error has the type Outcome of Base/Results.antt. The models
-- are of the build that is shipped, whose release profile has neither debug assertions nor overflow
-- checks: a debug_assert! is left out, and arithmetic on words wraps around. An error of a call ends the
-- model's state too, where the Rust code keeps what was written before it; no theorem speaks of the state
-- after an error. Servers run under one lock: an interleaving of their clients is a list of messages. The
-- kernel, devices and the encoding of messages are parameters, records of functions over an abstract
-- state that is threaded through.
--
-- Gic is framework/vmm/gic. Gic/Registers.antt decodes the offsets of distributor/registers.rs,
-- Gic/Distributor.antt is the struct of distributor/mod.rs with its reset, and its children are its
-- functions: Lines (one interrupt for one CPU), Sweep, Write and Sgi (the arms of handle_write),
-- Dispatch (handle_write), Read (handle_read). Gic/Controller.antt is gic.rs: it holds a distributor,
-- a mirror of the four list registers of each node and a queue behind it, and calls the monitor back.
-- The trait GICCallbacks is the record Callbacks, a parameter, whose errors are passed on.
-- Biterate.antt is framework/helpers/biterate; a 32-bit word has at most 32 bits set, which is the
-- fuel of the list.
--
-- RingBuffer is framework/base/icecap-ring-buffer. RingBuffer.antt is the struct RingBuffer of
-- ring_buffer.rs with the memory that its two sides point at; Packet is PacketRingBuffer, and Buffered
-- is buffered_ring_buffer.rs. Link joins two parties to one pair of rings, where each step is one call
-- of one party, so what one has written and not published is not seen by the other. write and read do
-- not check that there is room, or that there are bytes: their callers do, with poll_write and poll_read,
-- and IsAllowed says that of a list of steps. The fences are not modelled: a step is atomic. Window,
-- Copy, Flow and Receive carry the proofs, over the bytes between two offsets.
--
-- ResourceServer is hypervisor/components/resource-server: ResourceServer.antt is core/src/lib.rs, and
-- ResourceServer/Serve.antt the messages of src/main.rs. A realm's description, its objects and
-- postcard's decoding are the parameter Services and the argument take_header; the loop over the chunks
-- of a transfer runs on as many turns as the transfer has bytes, and one more.
--
-- TimerServer is framework/generic-components/timer-server. Its two loops, over the timers that are due
-- and between the timers and the device, run on fuel of the caller's choice, and out_of_fuel is the
-- error of the model; the index that binary_search finds in a sorted list is a parameter. The counter
-- and the compare value of the device are those of the trait TimerDevice.
--
-- Realize is framework/dyndl/realize: CRegion is cregion/mod.rs and cregion/set.rs, Node is
-- allocator/node.rs and Allocator allocator/mod.rs with revoke_and_free in Allocator/Revoke.antt. A
-- Box<Node> that may be missing is a Tree; a walk from the root has one step for each of the 64 levels
-- at most, so it needs no fuel.
--
-- EventServer is hypervisor/components/event-server: EventServer.antt and EventServer/Realms.antt are
-- src/server/impls.rs, and EventServer/Calls.antt the requests of src/main.rs. Events and in-spaces that
-- several owners share are numbers in a store. A signal that reaches an in-space twice while it is
-- borrowed is a panic, so as many nested signals as there are in-spaces, and one more, are its fuel.
--
-- Vmm is hypervisor/components/vmm/core/src/vmm.rs with framework/vmm/utils and framework/vmm/psci.
-- Vmm/Node.antt is the monitor as the call backs of the controller of Gic, and one turn of a node's loop
-- for each message; a run is the turns of all nodes in the order in which they take the lock, and ends
-- with the first error. Vmm/Fault.antt reads an access from a fault, icecap-sel4/src/fault.rs. The
-- kernel, the event server's client and the extension of a monitor are the parameter Monitor.
--
-- Base holds the lists, maps, words and integers, and Ensures, the rule for what a call that returns
-- has established. Examples.antt of a part runs it on small inputs.
--
-- Not modelled: the realizer's use of the allocator, the wiring of events at the start, the page tables,
-- the bindings to seL4, the file server, the Linux side, and the text of panics and errors.
pub mod Base
pub mod Biterate
pub mod EventServer
pub mod Gic
pub mod Realize
pub mod ResourceServer
pub mod RingBuffer
pub mod TimerServer
pub mod Vmm
