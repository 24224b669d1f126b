-- ===== src/Lib.antt =====
-- zerosugar, a server framework in C++ and a game server over it (login server, lobby server, game
-- server, services). This library models parts of its core and proves what makes them correct.
--
-- The parts, and how they interact.
--
-- Bytes come to a server in buffers. zerosugar/shared/network/buffer/fragment.cpp gives out memory in
-- blocks with a reference count; a `Fragment` is a window on a block. zerosugar/shared/network/buffer/
-- buffer.cpp keeps a sequence of fragments as one sequence of bytes. Modules: Network.Memory (the
-- blocks, with programs that may fault), Network.Fragment (`SliceFront`, `ShallowCopy`, `~Fragment`,
-- `operator=`, `Create`, `CreateFrom`), Network.Buffer (`Add`, `SliceFront`, `MergeBack`,
-- `ShallowCopy`, `Clear`, iterators). The proofs stand in Network.Fragment.Ownership (the books of the
-- owners) and in Network.Buffer.Contents, Slice, Copy and Iteration (the bytes that a
-- buffer stands for).
--
-- zerosugar/shared/io/stream_reader.h and stream_writer.h read and write integers and texts: Io.Reader,
-- Io.Writer, Io.Word; proofs in Io.RoundTrip and Io.Offset. The packets of the login client,
-- zerosugar/xr/network/model/generated/login_cs_message.cpp with packet.cpp, packet_reader.cpp and
-- packet_writer.cpp, are Login.Packet.
--
-- A session runs a loop that appends what arrives to a receive buffer and cuts packets off its front
-- (`Run` of zerosugar/xr/server/login/login_session_state_machine.cpp): Network.Receive, over any
-- family of packets and any handler. Network.Receive.Frame says what the loop needs of the packets (a
-- record that Login.Packet.RoundTrip fills); Network.Receive.Chunks, Keeps and Spin are about the loop.
-- The handler of the login server, zerosugar/xr/server/login/login_session_state.cpp, is Login.Session,
-- with Sound (when a session is sound) and Laws,
-- over the state machine of zerosugar/shared/state_machine/state_machine.h, Machine, with Laws and Built
-- (the machines that its calls make). The login service
-- and the gateway service are remote, and enter as functions on a state of theirs. The login service
-- itself, zerosugar/xr/service/login/login_service.cpp, is Login.Service: who is logged in, and the
-- tokens, with Paired (when the two agree) and Grants (logins and removals in any order).
--
-- In the game server, zerosugar/xr/server/game/instance/entity/component/inventory_component.cpp keeps
-- the items of a player: Inventory (`Equip`, `Unequip`, `ShiftItem`, `AddItem`, `RemoveItem`),
-- Inventory.Stack (`CanStackItem`, `StackItem`; Writes says which items are written) and Inventory.Change (the loop of
-- zerosugar/xr/server/game/instance/task/impl/player_item_change.cpp that gives items). Inventory.Valid
-- says when the arrays and the map of items agree.
--
-- In zerosugar/xr/server/game/instance/ai/aggro/aggro_container.cpp a monster keeps whom it is
-- angry at: Aggro, with Aggro.Order, Add, Remove, Lower and Target. The game instance's players enter as a
-- function.
--
-- In zerosugar/xr/server/game/instance/task/game_task_scheduler.cpp the game instance runs its tasks
-- side by side unless they have a target in common, and one after another for one controller: Scheduler.
-- Scheduler.Process has the processes, the ordered sets and `ChangeState`, `CreateProcess` and
-- `ExitProcess`; Scheduler.Resources has the entities and who has them; Scheduler.Run has the operations
-- and, as a step relation, every order in which the strand and the executor may take them. The other
-- modules below Scheduler lead to Scheduler.Safety: Place and Valid say where a process stands and when
-- sets, ids and queues agree, Moves, Exits, Births and Create what the primitives do, Held what a task
-- that runs has, and Start, Loop, Complete, Submit and Control treat the operations. Scheduler.Fifo is
-- the view of the scheduler as a queue of tasks for each controller; its Spec says what each operation is
-- to do with it, and Refine brings together Give, Submit, Take, Settle and Open.
--
-- In the coordination service, zerosugar/xr/service/coordination/load_balance/load_balancer.cpp sorts
-- the game servers by how busy they are and picks one: Coordination.LoadBalancer, with Members (`Add`,
-- `Update`, `Remove`) and Choice (`Select`). zerosugar/xr/service/coordination/node/
-- node_container.cpp keeps the servers, instances and users with two indices: Coordination.Nodes, with
-- Index and Address (the servers), Tokens (the users), and History and Users (the container after any
-- calls). The commands that go to a server, and the promises of their answers, in game_server.cpp beside
-- it, are Coordination.Commands: Kept counts how often they are
-- settled, Life tells what a history of calls means for one promise, without the map of the waits, and
-- Follow and Promises show that the operations follow it.
--
-- zerosugar/shared/snowflake/snowflake.h makes ids of the time, the machine and a sequence number:
-- Snowflake, with Bits, Increase and Arrive. The clock enters as the list of its readings.
--
-- Conventions. Numbers are natural numbers where the source's values cannot be negative, else integers.
-- Fixed width shows where values go over the wire: an integer of `w` bytes is a bit pattern, and a
-- signed type reads its upper half as negative. A call that throws, faults or leaves an array has an
-- outcome of its own (`threw`, `undefined`, `none`). Sums of 64-bit values in the aggro container are
-- taken not to overflow.
--
-- Bounds and fuel. `process`, the inner loop of a session, gets one more turn than there are bytes in
-- its buffer: a turn that goes on takes as many bytes as the size field says, so at least one, unless that
-- size is zero or less, and then it takes none and the loop need not end. `iterate`
-- takes a bound on the bytes, and `item_add` one on its turns. Where a loop does not end at all, fuel of any size is used up. `draw`, which
-- looks for a token that nobody has, ends with the random numbers that it is given.
--
-- Not modelled: floating point numbers, log lines and assertions, timers, the start and the
-- shutdown of a session, `Initialize` of the inventory (it reads the data provider), concurrency, and
-- the other parts of the program: the lobby and the game sessions, the gateway service, the dungeon
-- match, what the game's tasks do and its artificial intelligence, navigation, the database and the
-- code generator. The hash of OpenSSL and the random numbers of the login service are arguments.
pub mod Prelude
pub mod Io
pub mod Network
pub mod Machine
pub mod Login
pub mod Inventory
pub mod Aggro
pub mod Scheduler
pub mod Snowflake
pub mod Coordination
pub mod Tests
