-- ===== src/Lib.antt =====
-- Verification of the AirControl server (src/server), of the Controller that connects a desklet with it
-- (src/client/controller.cpp), of the check of control values that both make
-- (src/common/control_values.cpp, src/client/controlvalues.cpp), and of the desklet's alerts and
-- preferences (src/client/alerts.cpp, src/client/preferences.cpp).
--
-- The program. The server holds one connection to an air purifier and serves any number of desklets
-- over TCP, one JSON object per line. Its main thread polls the sockets and owns the client map, the
-- engine of a Lua script and the editor's lock; a worker thread talks to the device. The threads share
-- a queue of commands, a queue of events and three flags. Commands come from clients (`control`) and
-- from the script (`airctrl.set` in an event, or a schedule that falls due); either is checked against
-- the protocol's table first. The engine hands its actions to the server, which answers each with a
-- `command` event of the script. A desklet's Controller looks the server up, tries its addresses in turn,
-- reconnects after a loss, checks the connection with pings, and has one command under way at a time,
-- which ends by the next status after its acceptance or by a failure.
--
-- The files, with the code that each stands for.
--   Prelude, Json         shared helpers (Bytes the bytes of texts); the JSON values of nlohmann/json as
--                         far as they are read
--   ControlValues         src/common/control_values.cpp, controlValuesError; Table has the table of the
--                         protocol as data, Allowed the requests by it, Client the desklet's own copy of
--                         the check
--   Automation/Types      the state of AutomationEngine (src/server/automation.h) and `Env`, what is
--                         taken from elsewhere
--   Automation/Text       cleanLine and the bounded lists; Table simpleTable; Schedule luaSchedule;
--                         Api luaLog, luaSet, luaStatus and protected calls; Memory the allocator;
--                         State the persistent state, the override and the due moments;
--                         Persistent loadPersistentState; Alerts the
--                         alerts of publishDeviceAlerts (all src/server/automation.cpp)
--   Server/State          AirCtrlServer, its clients, commands and events (src/server/server.h)
--   Server/Clients        send, broadcast, closeClient and the envelopes (src/server/server.cpp)
--   Server/Events         callEvent and the event methods of the engine (src/server/automation.cpp),
--                         as functions of the server's state, since the engine's handler acts on it
--   Server/Actions        handleAutomationAction and confirmAutomationAction
--   Server/Script         readScript, validateScript, saveScript, loadScriptText
--   Server/StatusEvents   statusEvent, publishDeviceAlerts and reevaluate of the engine, likewise
--   Server/Answers        requestId, unsignedValue and the answers that tell of a failure
--   Server/Editor         the requests of the script's editor in handle
--   Server/Requests       handle, with one function for each other kind of request
--   Server/Connections    acceptClients, readClient, flushClient
--   Server/Posted         processEvents, what becomes of the events that the device worker posts
--   Server/Device         deviceLoop as a step relation beside the main thread
--   Server/StatusLog      valueField, csvField, parseCsvLine, loadHeader and append
--                         (src/server/statuslog.cpp), as lines of bytes
--   Server/Main           run, one round for each poll; shutdown
--   Server/Config         loadConfig: Numbers parseInteger and parseBoolean, Lines the loop over the
--                         lines, Hosts the allowed hosts with resolveAllowedHosts, Load the rest
--                         (src/server/server.cpp)
--   Desklet/Controller    src/client/controller.cpp: State has the Controller's fields with its socket
--                         and timers, and the loss of a connection; Connect the lookup and connecting;
--                         Upkeep start, stop, configure and the heartbeat; Messages readServer and
--                         handleEnvelope; Requests what the desklet asks for; Events
--                         the slots and runs of them
--   Desklet/Alerts        dataFreshness and AlertLatch (src/client/alerts.cpp)
--   Desklet/Preferences   Preferences::load and save (src/client/preferences.cpp), and the default
--                         endpoint (src/client/ipc.cpp)
--   Desklet/Tests, Desklet/AlertTests, Server/Config/Tests
--                         their theorems at concrete inputs
--   Server/Frame          for a predicate that the primitive changes keep, that all of this keeps it
--   Tests                 the other theorems at concrete inputs
--
-- Conventions. An operation takes the state and gives the new one. An empty error text, phase or key
-- is `none`. Numbers are natural numbers; 64-bit counters wrap where the code increments them. A
-- floating number is its exact dyadic value. The clock shows one time during an operation. The client
-- map is a list in the order of arrival, where the code's map has no order that it promises.
-- `none` as the result of an event or a round is an exception that nothing catches.
--
-- What is taken from elsewhere is the record `Env`: a Lua state and what a call of it does, as a tree
-- of API calls that ends by the instruction limit at the latest; the calendar and its formats; JSON
-- text; bytes of texts. What poll, sockets and the device answer are arguments. Writing files
-- succeeds or fails as the record `Disk` says. For the desklet the record `Qt` stands for the JSON text,
-- numbers and texts of Qt, and whether the server's program can be started; a `Happening` is a signal of
-- the socket, the lookup or a timer, or a call by the desklet, and `possible` says when Qt may bring it.
-- A signal that Qt raises inside of a call is taken as the next happening. For the configuration the
-- record `System` stands for the environment, the form of IP addresses and the lookup of names.
--
-- Bounds. A call of `closeClient` may announce the free lock, overflow another client and close it,
-- which finds the lock free: depth two is enough. A handled action raises a `command` event, in which
-- the script may queue nothing, so that the handler is not entered again: depth one. The look back for
-- a due moment makes the eight rounds of the code's loop. The loop over the lines of an input is bound
-- by the length of the input, in the server as in the desklet.
--
-- Not modelled: the start of the server after its configuration is read, opening sockets and signals;
-- the file of the status log (in the server a list of statuses stands for it); the sandbox of Lua;
-- metamethods of the tables that a script hands to airctrl, but that `lua_schedule` takes both the
-- schedules before and after those of its table have run; JSON texts that cannot be written for invalid
-- UTF-8. Of the desklet the windows, the painting, the alerts of a status, the position, colours and font
-- of the preferences, the autostart entry and the command line client are left out, and so are the vendored
-- libraries. What QSettings keeps is the record `Values`.
mod Prelude
pub mod Json
pub mod ControlValues
pub mod Automation
pub mod Server
pub mod Tests
pub mod Desklet
