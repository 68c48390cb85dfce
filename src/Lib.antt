-- ===== src/Lib.antt =====
-- Convox: a chat server with rooms, friends, matches, files and voice, for clients that speak JSON
-- packets over TCP. This library models the server, the command line client, the graphical client
-- without its windows, and the voice over UDP, and states what makes them correct.
--
-- The parts, and how they interact. A client's thread (server/server.py) runs a handshake and then
-- hands every packet to the service (server/service.py), whose handlers call the managers: accounts,
-- sessions, connections, presence, rooms, friends, matchmaking, chunked transfers, voice rooms. The
-- managers share one SQLite database (database/db.py) and the table of connections. A second thread
-- (scheduler/scheduled_broadcast.py) sends the broadcasts that are due.
--
-- The files, and the code that they model:
--   Prelude, Dict          helpers: tests, lists, texts, and Python's dictionaries
--   Exec                   methods that change an object and may raise, and invariants of methods
--   Database and below     database/db.py, one module for a group of tables
--   Protocol               protocol/packet.py: packet types, fields, and the conversions of Python
--   Protocol.Frame         protocol/packet.py: the length header, and the loop that receives
--   Chunking               protocol/chunking/chunk_manager.py
--   Voice.Rooms, .Jitter   voice/voice_room.py, voice/jitter_buffer.py
--   Auth                   server/auth.py
--   Server.State           the objects that one service holds, as one record
--   Server.Connections     server/connection_manager.py
--   Server.Presence        presence/status_manager.py
--   Server.RoomManager     rooms/room_manager.py
--   Server.FriendManager   friends/request_handler.py, friends/friend_list.py
--   Server.Sessions        server/session_manager.py
--   Server.Matchmaker      matchmaking/matchmaker.py
--   Service and below      server/service.py, with storage/storage_manager.py, media/image_transfer.py
--                          and scheduler/scheduled_broadcast.py where its handlers use them
--   Service.Handshake      server/server.py
--   Server.Closed, Service.Closed
--                          what a property must survive to be kept by every method
--   Service.Reach          the states that the server can get into, and their invariants
--   Voice.Packets, .UdpServer, .UdpClient
--                          voice/voice_packet.py, voice/udp_server.py, voice/udp_client.py
--   Gui.Model, .Application  gui/models: what the graphical client knows
--   Gui.Events             gui/controllers/event_dispatcher.py
--   Gui.State              gui/controllers/gui_state_manager.py
--   Gui.Worker, .Controller
--                          gui/controllers/tcp_controller.py: sending, receiving, and requests
--   Gui.VoiceController    gui/controllers/udp_voice_controller.py
--   Gui.Delivery           a packet of the server, through the worker and its signals, into the model
--   Client and below       client/client_app.py
--   Samples                runs on small inputs
-- Functions keep their names, without a leading underscore; a parameter `self` is the state.
--
-- Conventions. A set is the list of its members, a dictionary an association list, a table the list
-- of its rows. A packet is the dictionary that `json.loads` gives, with texts, numbers, truth values
-- and null as its values; for `target_room`, `target_user` and a room's `password` only a text or
-- null is taken, and anything else raises. A text that stands for an integer has ASCII digits. `sent`
-- is the log of what the sockets took, the last first, and `writable` says which of them still take
-- data; `files` has the contents of the stored files. What comes from outside is in the record `Env`:
-- uuid4, urandom, PBKDF2, base64, the percentage of two counts, the check of strptime, pathlib's
-- suffix and the folder of the uploads. The clock stands still while one packet is handled; a time is
-- a count of microseconds, with the text of the same time beside it.
-- Each method runs as a whole: `Service.Reach` has the packets of all clients, the scheduler and the
-- clock in any order, but each is taken to its end before the next. The source has locks for that in
-- the managers that are in memory, and none for the database, so that two handlers can have their SQL
-- statements in turn; `Database.Friends.Race` has a case where that matters. `Service.Reach` allows a
-- packet from any user name, signed in or not, which is more than the server does. A text is a sequence
-- of Unicode scalar values: a packet with a lone surrogate, which JSON can bring and UTF-8 cannot
-- encode, is not among those of the model.
-- The clients and the voice have a state of their own each; what a client sends is the dictionary that
-- the server reads, and what it receives is a `Reply` that the server sends. The parameters there are
-- JSON and base64 (`Codec`), the files and the system of a client (`Machine`), what becomes of its
-- devices and its UDP socket (`System`), and what a signal of the toolkit makes of a number (`qt_int`).
-- `upper` and `lower` turn the letters that have a counterpart in ASCII.
--
-- Fuel. `show_nat` runs on fuel: a number has fewer digits than its successor. The loop of `recvall`
-- has as much as bytes are asked for, and each of its turns takes one of them or ends it. The loop of
-- the handshake has the five tries of the source. The chunks of a file are made on as much fuel as the
-- file has bytes, since every chunk has a byte at least.
--
-- Not modelled: the accepting loop, threads and locks as such, logging, JSON and
-- UTF-8, the migration of old database files, UNIQUE constraints beyond the SELECT that stands before
-- each INSERT, audio devices (whether one can be opened is a parameter of the controller of the
-- voice), and the windows and widgets of the graphical client.
pub mod Prelude
pub mod Dict
pub mod Exec
pub mod Database
pub mod Protocol
pub mod Chunking
pub mod Voice
pub mod Server
pub mod Auth
pub mod Service
pub mod Gui
pub mod Client
pub mod Samples
