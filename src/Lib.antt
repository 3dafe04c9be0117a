-- ===== src/Lib.antt =====
-- forcola's native shim (native/forcola_shim) runs one child for a BEAM process, or checks and
-- stops process groups that were recorded earlier. This library models the shim's Rust code on
-- Linux and proves what its parts promise.
--
-- The parts and how they interact. The BEAM and the shim exchange frames over stdin and stdout
-- (native/forcola_shim/src/frame.rs). Each of the child's output pipes has a pump that forwards
-- it in frames, eagerly or, when the session asks for it, only as far as a read budget goes that
-- the BEAM replenishes by CREDIT frames (native/forcola_shim/src/credit.rs, and pump_eager and
-- pump_gated of native/forcola_shim/src/supervisor.rs). `supervise` of
-- native/forcola_shim/src/supervisor.rs waits for events (frames, the end of stdin, the timeout,
-- the child's exit), escalates signals against the child's process group, waits for the output to
-- drain, and sends the EXIT frame. A child that is to run as another user is prepared by
-- native/forcola_shim/src/privdrop.rs, and one that fails before exec tells its parent where by
-- native/forcola_shim/src/spawn_error.rs. `forcola_shim lock` holds a file lock
-- (native/forcola_shim/src/lock.rs). `forcola_shim groups` (native/forcola_shim/src/groups.rs)
-- works without a session, on identities as native/forcola_shim/src/identity.rs reads them.
--
-- Which file models which part. Frame.antt is native/forcola_shim/src/frame.rs: a stream is a
-- list of deliveries (`Source`), a writer has a number of bytes of room, and `read_frame` and
-- `write_frame` keep the source's order of reads and writes. Credit.antt is
-- native/forcola_shim/src/credit.rs, one function per method under its mutex; `await_permit` runs
-- over the list of states that it wakes up to. Pump.antt is `pump_gated` as a program counter
-- with its live locals, stepped among the grants and uncorks of other threads by the relation
-- `Step`, and `pump_eager` as a loop. Protocol.antt has the payload records of
-- native/forcola_shim/src/protocol.rs. Supervisor.antt is native/forcola_shim/src/supervisor.rs:
-- Wait is `wait_until`, Kill is `kill_group`, `group_alive` and `probe_says_alive`, Drain is
-- `finish_cgroup`, `drain_pumps` and `drain_pumps_strict`, Loop is `supervise` for a session
-- without tracking, Input is the forwarding of input to the child as a relation of steps, and
-- Reader is the protocol reader over the frames of Frame.antt. Spawn.antt and its children are
-- `ChildSetup`, `finish_spawn` and `spawn_child`, with the kernel, fork and the preparations of a
-- pty and a cgroup as answers. Handshake.antt is `run_with_capabilities` up to its threads, over
-- the frames of Frame.antt and the features of Features.antt, with the duplication of a pty's
-- master as an answer. PrivDrop.antt is native/forcola_shim/src/privdrop.rs, Cgroup.antt has the
-- formatting of the pid in native/forcola_shim/src/cgroup.rs, Lock.antt is
-- native/forcola_shim/src/lock.rs, SpawnError.antt is native/forcola_shim/src/spawn_error.rs,
-- Features.antt has the selection of features at HELLO, Tracking.antt and its children are the
-- tracker of descendants in native/forcola_shim/src/tracking.rs, as built for Linux, with the
-- operating system behind its trait Source as a parameter (Tracking/World.antt;
-- Tracking/Scan.antt and Tracking/Refresh.antt are `scan`, Tracking/Advance.antt `advance` and
-- `finish_scan`), Identity.antt is native/forcola_shim/src/identity.rs, with the parser of
-- /proc/<pid>/stat in Identity/Stat.antt, and Groups.antt is native/forcola_shim/src/groups.rs. A
-- function of the source has a definition of the same name; the closures, loop bodies and match
-- arms that need a name of their own stand beside it under a name that says what they do.
--
-- The world around the shim. Os.antt has a history of the actions that the shim takes (signals,
-- probes, sleeps, reads of /proc, frames), and an environment that answers each action as a
-- function of all that happened before it. So other processes, the kernel and the clock may do
-- anything that does not look ahead. `IsClock` says that the clock does not go back and that a
-- sleep takes its time; theorems that need it have it as a hypothesis. A tracker's `Source` is
-- such an environment of its own. The databases of users and groups and a kernel that may refuse
-- any identity call are arguments in PrivDrop.antt; the encoder of the EXIT payload is an
-- argument of `supervise`.
--
-- Bounds and fuel. Times are natural numbers of nanoseconds, and a loop against a deadline has
-- the whole timeout plus one as fuel: each of its rounds that goes on takes a nanosecond at
-- least, and the theorems about `wait_until`, `kill_group`, `supervise` and `stop` say that the
-- fuel is enough. The loops of `read_frame` have the pieces and bytes that the stream has in
-- store as fuel. `scan` of the tracker has the attempts that the source counts, twice the limit
-- of processes and one, and its end at that bound is the source's own. The protocol reader has
-- one round for each frame and one for the end; the theorem about it says that this is enough.
-- `drain_pumps_strict` may wait for a slow consumer without end, so its rounds are an argument;
-- no theorem here says that it ends. The length prefix of a frame wraps at 2^32, a grant is read
-- as a u64, and an errno as a positive i32.
--
-- What is not modelled: the start of the threads and what the waiters call, the calls behind a
-- pty, the supervision with tracking, the reads of /proc behind the tracker's trait Source, the
-- preparation of cgroups, the decoding and encoding of JSON, which is serde's, the abort of a
-- start and the wait for the BEAM behind EXIT, the branches for macOS, and the Elixir side.
-- Multiplication of a grace given in milliseconds cannot overflow there: it is a u32 at most in
-- groups mode.
pub mod Cgroup
pub mod Credit
pub mod Errors
pub mod Features
pub mod Frame
pub mod Groups
pub mod Handshake
pub mod Identity
pub mod Lock
pub mod Os
pub mod Prelude
pub mod PrivDrop
pub mod Protocol
pub mod Pump
pub mod Spawn
pub mod SpawnError
pub mod Supervisor
pub mod Tracking
