-- ===== src/Lib.antt =====
-- sleepytext is a server for shared documents: a program in C that reads HTTP requests over TLS,
-- keeps users, documents and branches in SQLite and the text of a branch in a file of its own.
-- This library models the parts of it that work on bytes and proves what they do.
--
-- The parts, and the files that model them:
--
-- - Memory, Memory/*: the memory of the C program. A pointer is an offset into an object; an
--   object is a string literal or made by `malloc`. An action runs on a memory and ends in a
--   value with a new memory, in a fault (what C leaves undefined: a read outside an object, a
--   write to a literal, an overflow of `int`), or out of fuel. Memory/Holds says which bytes
--   stand at a pointer.
-- - Bytes, Bytes/* (src/bytes.c): views `bytes { ptr, len }` with `bslice`, `bcpy`, `bcat`,
--   `balloc`, `bfree`, `bfromstr`, `bcmp2`, `bsame`; `bfind` (Bytes/Find*), `btoi64` and `btoi`
--   (Bytes/Number*), `bprintf` (Bytes/Print*), `itob` (Bytes/Itob*). A length is a `size_t`:
--   `sub64` and `add64` of Prelude/Words wrap at 2^64. A loop `for(i = 0; i < n; i++)` is a
--   recursion on the number of rounds left, so it needs no fuel; an `int` counter that can get
--   far enough to overflow is checked (`inc_int`).
-- - Http, Http/* (src/http.c): `http_parse_request` and `http_extract_param`, `http_websocket_accept`
--   (Http/Accept*) over an interface of SHA-1 and base64, the frame parser of the websockets
--   (Http/Websocket*) and `http_assemble_response` (Http/Response*). They run the
--   searches of Bytes; the lemmas of Bytes/Find say what a search gives on a list of bytes.
-- - System, System/*: what the program does outside its memory. An `Io` runs on the memory and on
--   a world `W`, a parameter: the files (Files), the sockets and epoll (Sockets), OpenSSL (Tls),
--   the directory and the calls of SQLite that open and close (Directories). Each is a record of
--   functions. Ensures has the rules for what holds where an `Io` comes to its end, Ends (and
--   Memory/Ends, Bytes/Ends) those for that it does.
-- - Tcp (src/tcp.c), TlsLayer (src/tls.c), Connections (src/http_server.c, from
--   `http_tls_connection` on), Epoll (src/epoll.c): a round of `epoll_listen` hands each event to
--   the object whose pointer it carries. That of a listener makes a connection; that of a
--   connection receives bytes, decrypts them into the connection's buffer of 4096 bytes, and
--   answers a request once it is complete. The objects are a map from pointers that ends at
--   those that were freed. The theorems on a whole event go the way of the bytes: what OpenSSL
--   decrypts behind the text that is there (TlsLayer/Plain, Connections/Text and Received), what
--   becomes of the text (Connections/Crunched, over the response of a callback in Replies), what
--   is sent (Flushed), an event as a step on the text that came in so far (Served), and the
--   events of a request that comes in pieces (Pieces).
-- - HttpServer, HttpServer/* (src/http_server.c): the table of callbacks,
--   `http_server_add_callback` and `http_server_callback_dispatch`.
-- - Server, Server/* (src/server.c): the callbacks. Feed appends the changes of a client to the
--   files of its branches; Server/Wire has the numbers of its payload, which arrive in network
--   order and are turned round in place, and the path of a file; Server/Feed/Items has the
--   payload as a list of records, and what they do. Pages, Users, Branches and Session are the
--   others, which run the prepared statements: the record `Sqlite` of Server/Sql. The world of
--   `watched` in Server/Protocol notes whether a call came out of the documented order; its flag
--   says whether the size of a column that is not yet a blob counts as one. Server/Protocol/Early
--   is about such a size, which `login` asks for.
-- - Start, Start/* (src/server.c, `main` and `stop`; src/http_server.c, `setup_socket` and
--   `http_init`): `main` prepares the statements, fills the table of callbacks, opens the socket
--   and listens. Start/Prepared is a connection as src/sqlite3.h documents it; Start/Served puts
--   the parts together for the page of `root`.
-- - Prelude, Prelude/*: names of the libraries, lists over the native numbers, integers and
--   words.
-- - Tests, Tests/*: runs at concrete inputs.
--
-- Bounds and fuel. These loops have a fuel: that of `itob`, which takes a digit a round, of at
-- most ten for an `int`; that of `http_callback_feed`, which takes a record a round, so that one
-- unit more than there are records is enough, and two for each byte and two more on any payload;
-- that of `http_websocket_parse`, whose condition is false from the start, so that one unit is
-- enough; that of `branches`, where one unit more than SQLite has rows is enough; that of
-- `tls_ondata`, which goes on as long as OpenSSL has bytes; and that of `stop`, where two rounds
-- are enough to reach its end. `epoll_listen` never ends: it is modelled up to any number of
-- rounds. Texts of at most 2^31 - 1 bytes are the bound where a loop counts in `int`. A byte is
-- a natural number; the bytes from 128 on, which are negative as `char`, are treated so where
-- the code compares them.
--
-- Where `login` asks for a size and a pointer in one initializer, the two calls are made in the
-- order in which they are written.
--
-- Not modelled: what is printed to the log, and the addresses that are printed there; the
-- `write(0, ...)` of a request in `http_parse_request` is such a print. Of `main`, the four
-- registrations of signals are left out: a signal that comes in the midst of the others is not a step
-- of the model, and `stop` runs behind the last of the rounds of `epoll_listen` that are modelled,
-- as a signal would have it, since `epoll_listen` itself never returns. The variable
-- `lastblob` is not used by the program. src/sqlite3.h is the header of a library: modelled is what
-- it documents of the calls that the server makes. html and its scripts are the client.
-- `vsnprintf`, `memcpy`, `memcmp` and `malloc` are those of C, written out for the formats and the
-- cases that the program uses; `vfscanf` is a parameter.
pub mod Prelude
pub mod Memory
pub mod Bytes
pub mod Http
pub mod System
pub mod Tcp
pub mod TlsLayer
pub mod HttpServer
pub mod Server
pub mod Epoll
pub mod Connections
pub mod Start
mod Tests
