-- ===== src/Lib.antt =====
-- A chat program over Bluetooth LE: a command-line client hands a line to a daemon, whose
-- ChatService seals it, cuts it into chunks and gives the frames to a transport; what arrives goes
-- the other way.
--
-- Which file models which part, with paths from the root of the repository:
--   Frag             include/proto/frag.hpp: Header, Chunk and the constants
--   Frag/Chunks      make_chunks of src/proto/frag.cpp
--   Frag/Wire        pack_header, unpack_header, serialize, parse
--   Frag/Reassembler class Reassembler: `feed` and `clear`, with its map as an association list
--   Ctrl             include/proto/ctrl.hpp: encode_hello and parse_hello
--   Aead             the interface PskAead of include/crypto/psk_aead.hpp, as a record of operations
--   Aead/Noop        class NoopPskAead
--   Aead/Sodium      class SodiumPskAead of src/crypto/psk_aead.cpp; `unseal` is its `open`
--   Text             the parts of std::string and <cctype> that the sources use
--   Chat             the members of class ChatService of include/app/chat_service.hpp
--   Chat/Psk         is_hex_str and parse_psk_env of src/app/chat_service.cpp
--   Chat/Kex         derive_and_install and maybe_kex
--   Chat/Receive     on_rx
--   Chat/Send        send_text
--   Chat/Hello       start, stop and one round of the hello thread
--   Loopback         class LoopbackTransport of src/transport/loopback_transport.cpp
--   Mac              is_valid_mac and normalize_mac, which both programs have
--   Ipc              src/ctl/ipc.cpp: the server's loops, send_line and expand_user
--   Cli              src/cli/main.cpp: run_cmd, send_one_line and the options
--   Daemon           src/daemon/main.cpp: on_line, make_transport_from_env and the frame size
--   Daemon/Main      the rest of main
--   Log              include/util/log.hpp
--   Dbus             include/transport/bluez_dbus_util.hpp, and what is read from a message of the bus
--   Bluez            the facade BluezTransport of src/transport/bluez_transport.cpp
--   Bluez/Roles      the facade's start and send with what the roles do
--   Bluez/Central    src/transport/bluez_transport_central.cpp: the single calls of the bus
--   Bluez/Central/Gatt      central_find_gatt_paths
--   Bluez/Central/Scan      central_cold_scan
--   Bluez/Central/Signals   src/transport/bluez_helper_central.cpp: what the bus tells
--   Bluez/Central/Pump      central_pump, start, stop and handover_to
--   Bluez/Central/Machine   all of these as the events of one machine
--   Bluez/Peripheral        src/transport/bluez_transport_peripheral.cpp and the handlers of
--                           src/transport/bluez_helper_peripheral.cpp
--   Bluez/Central/Phases    the automaton of the link that the machine refines
--   Bluez/Talk       two daemons from the link's coming up: the hello threads, the HELLOs and the texts
--   Chat/Session     what can happen to a running service, as events
--   Chat/Keys        with which keys its session is on
--   Chat/Entropy     get_na32
--   Chat/Early       a HELLO that comes before the receiver's own thread has seen the link
--   Daemon/Control   an address from the client's command line to handover_to
--   Bluez/Peripheral/Tables the tables of the handlers, and where they are exported
--   Bluez/Mirror     what a peripheral exports, and what the central's walk finds of it
--   Bluez/Connects   a central that is handed to a peripheral, until a frame passes
--   Chat/Replay      frames that arrive a second time
--   Bluez/Air        two daemons with their transports and what BlueZ carries between them
-- The other modules hold the proofs, and each module Runs the examples and tests.
--
-- State is passed explicitly: a method becomes a function from the members to the members and the
-- result. The transport is the record `Link`, whose `send` is a step of the whole world, since the
-- loopback link calls `on_rx` from inside `send`. A failure is `none`, `false` or the empty list,
-- as in the source. Bytes are numbers, and fields of 16 and 32 bits keep their wrap-around written
-- out. Loops are structural recursion on the rounds left or on the list; only `tlv_loop` has fuel,
-- one round for each byte of the frame and one more, which is enough since an entry takes three
-- bytes at least.
--
-- Parameters stand for what is not code of the repository: libsodium's cipher (`Primitives`, with
-- the laws `IsLawful`, and `Apart` for two keys where a theorem needs it), its HKDF and base64
-- (`Kdf`), `strtoul`, the environment, the random bytes, and what the calls of the socket return.
--
-- Of libsystemd's bus, a message is what the program reads from it up to the first reading that
-- fails, and the answer to a call is an argument; which signals arrive is the bus's, so theorems
-- are over all lists of events. Which signals the bus takes for a subscription is an argument too,
-- with the law `Exact`: a rule with a path takes those of exactly that object.
--
-- Not modelled: threads and locks, the pauses, and what is only printed. The hello thread, the bus
-- thread and the receiving thread share members without a lock; here each round, each callback,
-- each pump and each frame is one step, in any order.
pub mod Base
pub mod Frag
pub mod Ctrl
pub mod Text
pub mod Dbus
pub mod Aead
pub mod Chat
pub mod Loopback
pub mod Ipc
pub mod Mac
pub mod Cli
pub mod Bluez
pub mod Daemon
pub mod Log
