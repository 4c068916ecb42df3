-- ===== src/Lib.antt =====
-- Sylar, a C++ framework of coroutines, timers, sockets, a byte array and an HTTP server: models
-- of its byte array, its HTTP layer, its time wheel, its coroutines, its epoll wrapper and hooks,
-- its sockets and addresses, and its log and configuration, and theorems about them. Paths are
-- from the repository's root.
--
-- The parts and how they meet. `ByteArray` (src/bytearray.cc, src/include/bytearray.hh,
-- src/include/endian.hh) is a byte buffer kept in a linked list of blocks with a write and a read
-- cursor, and on top of it the accessors of fixed-width words, variable-width words and strings.
-- `Http` is the server (src/http_server.cc, src/include/http_server.hh): a request arrives as
-- bytes, is parsed by `HttpRequest::FromString` (src/http_message.cc), handed to the handler that
-- is registered for its path and method, and the response is printed into the object that epoll
-- hands back when the descriptor can be written; its listener hands the connections to five
-- workers, each with a loop of its own. `Socket` (src/socket.cc, src/include/socket.hh) wraps
-- descriptors, and `Address` (src/address.cc, src/include/address.hh) the addresses that they are
-- bound to. `TimeWheel` (src/timewheel.cc, src/include/timewheel.hh) holds the timers of the
-- scheduler. `Coroutine` (src/coroutine.cc, src/include/coroutine.hh) is the stack of coroutines
-- that resume each other, and the stack memory that they share. `Epoll` (src/epoll.cc,
-- src/include/epoll.hh, src/hook.cc) keeps what each descriptor waits for: `do_io`, to which the
-- wrapped system calls go, registers a coroutine there and yields, and the event loop of
-- src/coroutine.cc resumes it. `Log` (src/log.cc, src/include/log.hh) formats events, and its
-- loggers follow a variable of `Config` (src/config.cc, src/include/config.hh), whose listener
-- registers them anew when the variable is set. A YAML file is turned into a list of keys, the
-- variables of these names are set, and their listeners are called. `Locks` (src/include/mutex.hh)
-- is what the other parts guard their tables with.
--
-- The files.
--   Prelude, Prelude/*: shared names, and lemmas on lists, slices, bits, tests and texts.
--   ByteArray/Chain: the blocks. `create` is the constructor, `extend_capacity` ExtendCapacity,
--   `write` Write, `read` Read, `clear` Clear, `set_all_bits` SetAllBits, `bits_stream`
--   BitsStream, `get_all_bits` GetAllBits, `get_buffer` GetBuffer.
--   ByteArray/Content, Writing, Append, Reading, Ready, Fifo, Lost, Stream: the invariant
--   `IsValid`, the two loops, and what the operations do to the content. `Queue` of Ready is the
--   abstract view.
--   ByteArray/Word, Fixed: ByteSwap, SwapToLittle, and the accessors WriteFint8 to WriteFuint64,
--   ReadFint8 to ReadFuint64, WriteFloat, WriteDouble, ReadFloat and ReadDouble.
--   ByteArray/Varint, ZigZag, Groups, Trip: EncodeZigZag, DecodeZigZag, EncodeVarint,
--   DecodeVarint, WriteVint8 to WriteVuint64, ReadVint8 to ReadVuint64, and the string accessors.
--   Http/Message, Parser, NotFound: src/http_message.cc and src/include/http_message.hh.
--   Http/Server: the handler table, HandleRequestMessage, HandleRequestData.
--   Http/Connection: HandleEpollEvent, the server's loop without coroutines.
--   Http/Exchange: one request and its answer over a connection.
--   Http/Worker: `event_loop` EventLoop, `event_loop_with_co` EventLoopWithCo, `resume_read`
--   HandleReadEvent, `resume_write` HandleWriteEvent. Http/FirstRun: the first run of
--   a handler, side by side with the plain loop.
--   Http/Listener: `listen_client` ListenClient. Http/Lifecycle: the constructor, `start` Start,
--   `stop` Stop. Http/Endless: a server that has been started.
--   Http/Laws, Routes, Leak: laws of the texts and the headers, of the handler table, and of one
--   connection.
--   TimeWheel/Wheel: the constructor, `add_timer` AddTimer, `execute_timeout` ExecuteTimeout, with
--   `walk` its inner loop. TimeWheel/Slot: what a tick does to one slot.
--   TimeWheel/Places, Turns, Once: a timer over many ticks. TimeWheel/Next: `get_next_timeout`
--   GetNextTimeout. TimeWheel/Soonest, Left: what it returns.
--   Coroutine/Schedule: `init` InitThreadSchedule, `create` CreateCoroutine, `resume` Resume,
--   `yield_` Yield, `finish` the end of CoMainFunc, `aligned_size` the stack size.
--   Coroutine/Reach: the states that can be reached. Coroutine/Nested: two coroutines on top of
--   the main one.
--   Coroutine/Shared: `swap_context` SwapContext, `save_stack` SaveStack, `resume_stack`
--   ResumeStack.
--   Epoll/Events: `register_event` and `register_ctx` RegisterEvent, `cancel_event` CancelEvent.
--   Epoll/Kernel: the calls of epoll_ctl. Epoll/Loop: `handle_event`, one round of Eventloop.
--   Epoll/Waiting: how long Eventloop waits for the timers of the wheel. Epoll/Hook: `do_io`,
--   `close_events` close, `sleep_time` sleep, `usleep_time` usleep. Epoll/Blocked: calls that
--   would block. Epoll/Wrappers: the calls that are wrapped.
--   Log/Level: ToString and FromString of LogLevel. Log/Formatter: `new_formatter` and `parse`
--   LogFormatter::Init, `format` Format, `format_item` the items. Log/Pattern, Total: what
--   patterns stand for. Log/Loggers: Logger, LoggerManager, and `on_change`, the listener of
--   LogConfInit in src/config.cc. Log/Update: the names that it registers. Log/Files:
--   LogAppenderToFile.
--   Config/Yaml: `yaml_to_list` YamlToList. Config/Paths: which nodes it lists. Config/Vars:
--   ConfigVar with `set_value` SetValue and its listeners, `lookup` and `lookup_or_add` Lookup,
--   `load_from_yaml` LoadFromYaml. Config/Mirror, Names, Others: the listeners, the names, and
--   what a load leaves alone.
--   Config/Cast: the LexicalCast classes of the containers. Config/Ordered, Trips: what they read
--   back.
--   Config/Unordered, UnorderedMap: the casts of unordered sets and maps. Config/Confs: the casts
--   of LoggerConf, and its comparisons from src/log.cc. Config/ConfTrips, SameConf: what they read
--   back, and when configurations are equal.
--   Config/Codec: a printer and a reader of trees, for the tests.
--   Address/Mask: CreateMask, BitCount. Address/IpAddress: `create` Create, the constructors of
--   both classes, `get_port` and `set_port`, `insert` Insert. Address/Lookup: `split_host`, the
--   parsing in Lookup, `lookup` Lookup, `lookup_any` LookupAny, `create_ip_address`
--   IPAddress::Create.
--   Address/Hosts, Ports, Found: the texts, the ports, and what a lookup finds.
--   Socket/Calls: `construct`, `close`, `bind`, `listen`, `accept`, `connect`, `recv`, `send`.
--   Socket/Owned: the descriptors of a socket over its life.
--   Locks/Scope: `scope_lock` and `scope_unlock` of ScopeLockImpl. Locks/Cas: CASLock.
--   Tests of each part: the theorems at concrete inputs.
--
-- Representation. A block's memory is a list of cells, and a cell is `none` until it is written,
-- since malloc leaves it indeterminate. A pointer into the list is a place from the root; a reader
-- may also be null, or hold blocks that the list has dropped. A word of `w` bits is its bit
-- pattern, a number below 2 ^ w, and wrap-around is written out; the `int` counters of the wheel are
-- narrowed where they are stored. `size_t` is not bounded: a buffer
-- of 2 ^ 64 bytes does not exist. A text is a list of bytes. The byte order of the host, and the
-- one that SYLAR_BYTE_ORDER names, are arguments, because endian.hh tests macros of other headers.
--
-- A coroutine, a callback and a stack are numbers. The stack of coroutines has its top first. A
-- switch of context gives the state in which the other context goes on, so a run of a thread is a
-- sequence of resumptions, yields and ends. The events of epoll are two bits; the kernel's
-- interest list is a parameter with the laws that epoll_ctl(2) documents; the results of a system
-- call are a list, in the order of the calls. yaml-cpp is a parameter, with the laws that a
-- printed node is loaded again and that iteration gives the elements of a sequence and the fields
-- of a mapping; so are the types of the configuration variables, the subscripts of a node, and the
-- order in which an unordered container is iterated over. getaddrinfo, inet_pton, inet_ntop, htons
-- and ntohs are parameters of the addresses. The text that strftime makes of the local time is a
-- parameter too.
--
-- Loops. The loop of Write recurses on the list of blocks; a null write cursor with bytes left is
-- `diverged`, since the loop would spin. The loop of Read has the number of bytes asked for as
-- fuel, which is enough because each round reads a byte or more. The loops of EncodeVarint and of
-- the variable-width readers have the bounds of the source, 2, 3, 5 or 10 rounds. The walk over a
-- slot of the wheel has fuel, because an item that is moved to the end of its own list is met
-- again; one unit for each item is enough where every item runs once. The parser of log patterns
-- has the length of the pattern as fuel, since each round takes a character or more.
--
-- Not modelled. The memory of C++ objects other than blocks and stacks, allocation failure,
-- PrintMemory, Dump and ToString, which only print; the bytes that sockets carry: the results of
-- the system calls are inputs of each step, and handlers are arguments. The exceptions that
-- ControlEpollEvent throws where epoll_ctl fails, callbacks that call the wheel, LogEvent::Format,
-- the locks of pthread, thread identifiers and backtraces are not
-- modelled. A context that is handed to RegisterEvent is a value: that others hold it by pointer
-- too is left out.
pub mod Prelude
pub mod ByteArray
pub mod Http
pub mod TimeWheel
pub mod Log
pub mod Locks
pub mod Config
pub mod Coroutine
pub mod Epoll
pub mod Address
pub mod Socket
