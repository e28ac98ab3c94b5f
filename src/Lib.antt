-- ===== src/Lib.antt =====
-- The ROM game server: a transport with a stream cipher, a codec over a generated message catalog,
-- a handler for each connection, a world that one goroutine owns, and a store behind an interface.
--
-- A client's bytes come in frames (Transport/Session.antt, internal/transport/session.go), whose
-- bodies are encrypted by one Rabbit cipher for each direction (Transport/Rabbit.antt,
-- internal/transport/rabbit.go), keyed by the handshake (Transport/Handshake.antt);
-- Transport/Wire.antt sends and receives messages. A body is an opcode and the fields of a message
-- (Protocol/Codec.antt and Protocol/Primitives.antt, internal/protocol/codec.go and primitives.go),
-- as the catalog lays them out (Protocol/Catalog.antt, internal/protocol/catalog.go). Replies start
-- from zeroed values (Protocol/Zero.antt, internal/protocol/zero.go). The handler dispatches each
-- message on the session's state (Game/Handler.antt, Game/Lobby.antt, Game/Enter.antt,
-- internal/game), reads and writes the store (Persist.antt, internal/persist/store.go), and enqueues
-- commands that the world runs (World.antt, internal/world/world.go).
--
-- The store's interface has its laws (Persist/Laws.antt), and the Postgres store, read as what its
-- statements do to the tables of migrations, is an instance (Persist/Postgres.antt,
-- internal/persist/postgres/store.go). A statement whose answer is lost on the way is not modelled: it
-- either runs or fails. A unique index is checked before one that was created later.
--
-- Logins ask the region service (Auth.antt, internal/auth/client.go), and the settings come from the
-- environment (Config.antt, internal/config/config.go). Server.antt has the accept loop and the
-- shutdown of cmd/server/main.go as a step relation over its connections: a connection in Recv, or
-- in a write, goes on only when its peer sends, reads or closes.
--
-- The catalog's tables are generated: Gen.antt and its children model cmd/gen/main.go, from the
-- decoded input files to a value of the Catalog that the codec takes.
--
-- How the code is read:
-- * Go functions have their names in snake_case. A method that changes its receiver takes it and
--   returns the new one; a pair of a value and an error is a Result (Prelude/Result.antt).
-- * A handler is an action on the connection's state (Game/Session.antt): the session of
--   internal/game/handler.go, the state of the store, the messages sent and the commands enqueued.
-- * A uint32 is a number with its wrap-around written out, an int64 its 64-bit pattern, a float its
--   IEEE bit pattern; Go's conversions of floats are a parameter, the record Floats.
-- * A text is the list of its runes. What utf16.Encode and utf16.Decode do is written out in
--   Protocol/Utf16/Defs.antt, and what the packages strings
--   and strconv do in Prelude/Text.antt and Prelude/Decimal.antt.
-- * A Go map is a list of entries, with the value or none on a lookup.
-- * World's goroutine, its queue of 256 commands and the goroutines that enqueue are the step relation
--   Step of World.antt; Reach is any interleaving of them.
-- * The region service, the clock, the random source, the store, the context and the outcome of each
--   write to the socket are inputs of a handler, the record Env, which may be another one for each
--   message. So is what other connections do to the store between two calls of one handler; what
--   they do between two messages is an event of Serve's loop. A command is enqueued, or a context
--   that is done drops it.
--
-- Fuel: the codec recurses over the types of the catalog, which may in principle contain themselves,
-- so encode_value, decode_value and zero_value take a bound on the nesting. The catalog's rows here
-- are nested less than 8 deep. The round trips hold for any bound with which Encode succeeds. The loop
-- of Keystream runs on as much fuel as bytes are asked for, which is enough, as keystream_lem shows.
--
-- The generator's loop over base classes takes a bound on the length of a chain, since the input may
-- hold a cycle; its walk over structs takes one more than there are structs, which is enough.
--
-- Not modelled: AES, which is a parameter of the handshake, HTTP, JSON and the .env file,
-- which are inputs, the wiring of the parts in cmd/server/main.go, and logging. Of the catalog's
-- rows, Protocol/Messages.antt has those of the messages that the handlers send and receive, and of
-- the scene, the inventory, skills, quests, parties, friends and item changes; the other rows are
-- data of the same form.
pub mod Prelude
pub mod Protocol
pub mod Transport
pub mod World
pub mod Persist
pub mod Game
pub mod Gen
pub mod Auth
pub mod Config
pub mod Server
