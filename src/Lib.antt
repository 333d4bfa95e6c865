-- ===== src/Lib.antt =====
-- A terminal bridge: shell sessions on a host, one to a chat, which are driven from a web page or a
-- messenger. A user logs in to the console and gets a session cookie; a handler exchanges a page
-- token for a socket token; the socket's messages become calls of the terminal manager, which starts
-- a shell for the chat, checks each command against a policy, writes to the shell and logs what it
-- did; what the shell prints is published on an event bus, which keeps a history and feeds the
-- subscribers of the chat. A chat can also be on another host: the agent there holds a socket to the
-- hub, which forwards the input of the chat's viewers to it and publishes what it sends. The gateways
-- that agents may join as, with their tokens, and the dashboard's states are rows of a database, where
-- secrets are encrypted.
--
-- The files and the code:
--   Terminal.Policy     validateCommand of internal/terminal/manager.go
--   Terminal.Session    internal/terminal/session.go: WriteLine, WriteRaw, WriteBytes, Resize, Stop
--   Terminal.Manager    internal/terminal/manager.go: the manager's state, NewManager, getOrCreate
--                       (find_session, new_session, register), touch, audit; its child Operations
--                       has ExecuteWithMeta, Execute, SendControl, SendInteractiveInput and Resize,
--                       its child Closing has Reset, Close, a tick of gcLoop and the callbacks
--                       onOutput and onExit; its children Logged and Gate are about the policy and
--                       the audit records, Running and Leaks about the sessions that run, Stale
--                       about one that is dead, Live about one that runs, Frames and Elsewhere about
--                       those of other chats
--   Events              internal/events/bus.go: NewBus, Subscribe with the closure that it returns,
--                       Publish, Snapshot, pruneHistoryLocked
--   Hub                 internal/agent/hub.go: Hub with HandleWS, cut into its guards with the join of
--                       the agent, one message of its loop, and its end; its child Joins is about
--                       the hub that an agent has joined
--   Web.Random          newToken and newAuthToken of internal/webterm
--   Web.Tokens          internal/webterm/tokens.go: all of TokenStore
--   Web.Auth            internal/webterm/auth.go: all of ConsoleAuth with its handlers
--   Web.Server          internal/webterm/server.go: its parts and the login's handlers; its children
--                       Gateways, States, Tokens and Sockets have the other handlers, Saved, Issued,
--                       Input and Isolation are about them
--   Dashboard.Codec     internal/webterm/state_crypto.go
--   Dashboard.Database  the SQL statements of internal/webterm/state_store.go as an interface, which
--                       Dashboard.Tables meets with tables in memory
--   Dashboard.Store     internal/webterm/state_store.go: NewDashboardStateStore and every method but
--                       Close; its children are about identifiers, gateways and profiles
--   Config              internal/config/config.go
--   Agent               cmd/agent/main.go: the sessions with the messages, the callbacks and closeAll,
--                       and load; its child Strays is about a shell that loses its entry
--   Audit               internal/audit/logger.go; its child Lines is about the lines of the file
--   Bridge              cmd/bridge/main.go: the paths and their handlers, readInstallScript, the
--                       download's target; its child Start has the construction of the parts, Guard
--                       is about the login, Joined and Revoked about gateways that come and go
--   Prelude, Text       numbers, lists, maps; what the code uses of Go's strings, strconv and base64
--                       packages, on bytes
--
-- Conventions. A method is a function of the state and of all that it reads from outside, which
-- returns the new state: the clock (nanoseconds since Go's zero time, so that 0 is IsZero), the bytes
-- of crypto/rand or their failure, whether a process starts, whether a write to a pseudo terminal
-- succeeds. A method that reads the clock several times is given one reading. A duration is an
-- integer of nanoseconds; that Time.Add can leave the range of a Time is not modelled, and
-- subtraction stops at the zero time. A Go string is the list of its bytes. strings.ToLower is
-- modelled on ASCII, and for any other text it is the parameter `fold`; bcrypt is the parameter
-- `check`. A Go map is an association list, whose order no theorem depends on. A mutex is modelled by
-- atomicity: what a method does under its lock is one function, and where the interleaving of such
-- parts matters (Terminal.Manager.Leaks.Reach, Events.Publish) they are separate steps. Loops are
-- structural recursion, so no fuel is needed.
--
-- What the server uses from outside is a parameter: the database and the cipher are the records
-- Dashboard.Database.Database and Dashboard.Codec.Aead, with the laws that SQL and crypto/cipher
-- document; URL.String, url.Parse, time.Parse, time.ParseDuration, json.Unmarshal with the encoder
-- behind it, json.Marshal of an audit record and the environment are functions. A request is what the
-- code reads of it, and what the JSON decoder makes of a body is an argument. The manager keeps the
-- events that it tells the bus as a list; when a socket calls it, the server publishes them at once
-- (`on_manager`). What the hub publishes stays a list of the hub.
--
-- Not modelled: the pseudo terminal, the processes, the pages, the text of the install script and
-- the build of a binary for a download, which are input and output; the loops that dial, listen and
-- shut down, and the agent's removal of itself; the frames of a websocket.
pub mod Prelude
pub mod Text
pub mod Events
pub mod Dashboard
pub mod Bridge
pub mod Agent
pub mod Audit
pub mod Config
pub mod Hub
pub mod Terminal
pub mod Web
