-- ===== src/Lib.antt =====
-- A Minecraft Bedrock server in Go: clients connect over RakNet, log in, get the world's chunks and
-- play. This library models the parts that decide something, each next to the code it follows:
--
-- * Inventory models internal/server/mcpe_inventory.go. The record Inventory has the fields of
--   mcpeInventory, an action runs in Exec, which passes the inventory and the slots that changed
--   from step to step and stops at an error, and Requests applies whole requests (applyItemStackRequest)
--   and batches (processItemStackRequests). Client adds the packets that the handlers send.
-- * World models internal/world: types.go, where a Chunk stores the blocks that are not air by sub
--   chunk, layer and offset, and the biomes that are not the default by a key of both; runtime.go, the
--   ids of block states (Runtime); and flat.go, the generator of flat chunks (Flat).
-- * Session models the clients' states and the table of players: internal/server/mcpe_session.go,
--   mcpe_router.go, mcpe_login_flow.go, mcpe_resourcepacks.go, mcpe_world_sync.go and
--   mcpe_player_sync.go. Server holds the map of players and the state of every client, which
--   handlers share by a number that names the client. Its handle_packet is HandlePacket for the routes
--   of the session, the resource packs, the loading and the inventory's window; the other eight routes,
--   and what Interact does besides, are in the modules of their handlers, and Server.Routes has all.
-- * Command models internal/command/command.go: splitArgs, the registry with Register, Lookup and
--   Visible, and Dispatch, which runs an executor on the server's state. Permissions models the
--   operators of internal/server/mcpe_permissions.go, Defaults the built-in commands of
--   internal/server/mcpe_commands.go, and Chat the text and command packets of its clients. A line is a
--   list of runes; Runes is the reading of a string's bytes as runes, invalid bytes included.
-- * Movement models the bodies of the players in internal/server/mcpe_player_sync.go: the flags of their
--   metadata, and the handlers of PlayerAuthInput, MovePlayer and Interact with what they broadcast. Its
--   Stage joins the server of Session, the inventories of Inventory and the bodies.
-- * Config models internal/config/config.go: the properties file, as it is written and as it is read.
-- * Publisher models internal/server/chunk_publisher.go: Palette, Packing and Storage are the encoding
--   of blocks and biomes, Positions and Initial what a joining player is sent, and Entries the answers
--   to requests for sub chunks, all of them over the chunks of World.
-- * Network models internal/network/mcpe: Codec is codec.go, with batches, compression and encryption,
--   and Session is session.go, which copies a codec for each batch and shares its cipher streams. Pong
--   is the answer to a ping of internal/network/raknet/motd.go.
-- * ResourcePack models internal/resourcepack/resourcepack.go: Pack the packs and their chunks, Queue
--   the download, and Download a client that takes all that it is told of.
-- * Server models the loop of internal/server/server.go and its queue of tasks, as steps of the loop
--   and of those who submit or stop, in any order. Server.Routes joins the session, the bodies, the
--   inventories, the chat and commands, the downloads and the sub chunks: handle_routed_packet is
--   HandlePacket with all 19 routes of mcpe_router.go.
-- * Prelude has the shared types and lemmas. Tests has concrete runs.
--
-- A handler is a function from a state to an outcome and a state. A Go error is a value: `err`,
-- `none` or `failed`. Whether a write succeeds is a parameter (`delivers`), so the theorems on
-- handlers hold for every pattern of failing writes unless they say otherwise.
--
-- Machine integers: int32 and int16 values are integers that wrap where the code can overflow (the
-- next stack id, the negated request ids, the capacity of the list of chunks, whose panic when it is
-- negative is `none`), the next runtime id is taken modulo 2 ^ 64, and palette
-- indices modulo 2 ^ 16. A count of items is a number of at most 64 in a valid inventory.
--
-- Four functions run on fuel, the others are recursive on a list or a number. The digits of a number
-- are 19 at most, as many as an int64 has. The packets of a batch are read in as many rounds as the
-- body has bytes, and each takes one at least; running out of rounds is a result of its own. The layers
-- of a sub chunk are written with 256 rounds, enough for any loop of it that ends. A download takes a
-- round for each selected pack.
--
-- Parameters: gophertunnel's item details with reflect.DeepEqual on them (Protocol), what its login
-- parser finds (LoginData), its numbers of variable length, its compressions, Go's SHA-256 and AES in
-- counter mode (Library, with the laws that they document in Network.Stream), the texts of UUIDs, the
-- provider of chunks, strings.ToLower, strings.TrimSpace and sort.Strings in Command, the encoder of
-- the NBT library (Encoding), float32 with its operations (Floats, Float32, with the laws of FiniteLaws),
-- and the numbers of metadata keys, flags and inputs (Keys, FlagNumbers, InputNumbers). Config has
-- strings.TrimSpace, bufio's scanner and strconv as functions of its own. A packet that the session's
-- handlers send is a name without contents, but for the packets of inventories, bodies and texts.
--
-- Not modelled: sockets and listeners (internal/network), the encoding of single packets, the
-- handshake's keys (internal/server/mcpe_handshake.go), skins and abilities (the rest of
-- mcpe_player_sync.go), logging, the bootstrap and the programs, and the goroutines of the clients:
-- the handlers of all clients run one after the other here.
pub mod Prelude
pub mod Command
pub mod Config
pub mod Inventory
pub mod Movement
pub mod Network
pub mod Publisher
pub mod ResourcePack
pub mod Server
pub mod Session
pub mod Tests
pub mod World
