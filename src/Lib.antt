-- ===== src/Lib.antt =====
-- rssdisk: a file and database server, the log by which its instances follow one another, its
-- client, and the libraries that they share.
-- - Bitbase: the packing of integers, of bits and of lists of integers (libs/bitbase.h).
-- - MapTime: the map with entries that expire (libs/map_time.h): its operations, its text form,
--   and the relation of all its histories.
-- - CacheDb: the cache database on top of that map (rssdisk/rssdisk/extentions/c_manager.cpp,
--   `CDatabaseManager`), and the message that the client makes for it
--   (rssdisk/client/rssdisk_pool.cpp, `prepare_cdb`); CacheDb.Search is `searchAll` and the
--   client's reading of its answers, `parse_cdb_all`.
-- - EventDb: the event database (rssdisk/rssdisk/extentions/e_manager.cpp, `EDatabaseManager`),
--   and the client's `prepare_edb`.
-- - Base64: the text form of bytes (libs/base64.cpp, `base64_encode` and `base64_decode`), in
--   which records of the log travel.
-- - OpLog: the operation log (rssdisk/rssdisk/hstf.cpp and hstf.h, `hstf` and
--   `hstf_client::item`). A change that one server accepts is a record of its log; another server
--   polls the log and removes its own older copies.
-- - Server: the file server (rssdisk/rssdisk/disk_server.cpp and disk_server.hpp, `server`).
--   Server.Locks is `locked_files`, as a relation of steps of many threads; Server.Disk is
--   rssdisk/rssdisk/disk_helper.hpp; Server.Header is the loop of `accept_file` over a message's
--   header, Server.Message, Server.Content and Server.Accept the rest of `accept_file`;
--   Server.Read is `read_file` and `read_file_info`; Server.Remove is `remove_file_by_tms`, which
--   the log's client calls; Server.Ttl is `run_ttl_remover`, given the directories of the dates
--   that are due.
-- - JsonDb: the JSON database. JsonDb.Index is its indices
--   (rssdisk/rssdisk/extentions/j_manager.cpp, `IndexUtility`): the search for a cursor and the
--   insertion; JsonDb.Query is the queries (rssdisk/rssdisk/extentions/b_tree.cpp and b_tree.h,
--   `b_tree`), over what the JSON library answers of a value; JsonDb.Fetch is the look-up of a
--   query in an index; JsonDb.Mapped and JsonDb.Header are the title of a file, JsonDb.Metadata
--   what an appended database has already (`retrieveCompressedData`), JsonDb.Content what is
--   written (`createDatabaseContent`), and JsonDb.Documents what is read (`fetch`).
-- - Streamer: the packing of values one behind the other (libs/streamer.h).
-- - Base: lists, dictionaries, tests and machine words that the components share.
-- A byte string is a list of numbers, a set of numbers is the ascending list of its values, an
-- integer of w bytes is its bit pattern below 2 ^ (8 * w), and a size_t wraps at 2 ^ 64. A map of
-- the standard library is an association list, of which only what each key finds is used. The
-- disk is what each path holds; opening a path to write it may fail, a read of a file that is
-- there does not. The two clocks of MapTime are numbers that each call is given.
-- A handler of the server runs under the lock of its file, so that it is a function of the
-- server's state and of the lock's answer; the lock itself is modelled with all its
-- interleavings.
-- A loop that need not end takes fuel and answers `none` when the fuel is used up. Theorems say
-- how much is enough, in the number of records of the input; where none is enough, they say so.
-- The decimal text of a number has 20 digits at most, and a pattern is replaced at most as often
-- as a string has characters.
-- Parameters stand for std::hash, the cipher, the checksum of a file, the date, zlib, the values
-- of the JSON library, and, for the server, what `createDatabaseContent` answers. Not modelled
-- are the sockets and their protocol, the text of JSON, the text of `hstf::get` around its
-- records, the reading of the settings, and the third-party libraries.
pub mod Base
pub mod Bitbase
pub mod MapTime
pub mod CacheDb
pub mod OpLog
pub mod EventDb
pub mod Base64
pub mod JsonDb
pub mod Server
pub mod Streamer
