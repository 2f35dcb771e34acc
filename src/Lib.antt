-- ===== src/Lib.antt =====
-- AFSv1: a distributed file system with whole-file caching. A client (afs_client.cc) is a FUSE file
-- system over a cache directory; it downloads a file when the user opens it, works on the copy, and
-- uploads it when the user closes it. A server (afs_server.cc) keeps the files and answers the calls
-- of protos/afs.proto. This library models both programs and states what they promise together.
--
-- The parts
--
--   Base      numbers, bytes, lists and options; Base/Dict is an association list that stands for
--             `std::unordered_map`, whose order the program does not rely on. A string is a list of
--             bytes.
--   Hash      `hashpath`, `cachepath`, `hashFilepath`: the hexadecimal SHA-256 of a path.
--   Journal   what the two tables of the client share: a table has a snapshot, a log and a
--             temporary file, and an operation is a list of writes to them. A crash leaves the disk
--             behind some prefix of the writes (Journal/Always).
--   Dirty     `is_dirty_t`: which cached files have to be uploaded. Dirty/Replay and Dirty/Load read
--             the files back, Dirty/Recovery has the invariant that ties them to the table in
--             memory, Dirty/Restart starts a process on them, Dirty/Session runs calls and restarts,
--             Dirty/Crash stops a call at any write, Dirty/Cadence counts the calls between snapshots,
--             and Dirty/Lost has a `rename` that fails.
--   Modified  `last_modified_t`: the server's `st_mtim` of each cached file, with the same modules;
--             Modified/Torn, Modified/LocalFile, Modified/Marker and Modified/Broken are about files
--             that do not read back, or not as they were meant, and Modified/Crash is about what a
--             crash leaves at each write.
--   Stream    the loop that sends a file in blocks of `BUFSIZE`, in `GetContent` and `afs_release`.
--   Posix     the calls of the system that both programs make on files: names, inodes, descriptors.
--   Proto     the messages of protos/afs.proto.
--   Server    `AFSServiceImpl`: one function for each call of the service. `Write` answers `none` if
--             it waits for the mutex for ever. Server/Threads has `Write` in steps, with a scheduler
--             that lets the calls take turns, Server/Apart is about calls for different files, and
--             Server/Fetch has `GetContent` in steps.
--   Client    `afs_data_t` and the handlers: Client/Open (`afs_open`), Client/Release
--             (`afs_release`), Client/Mutate (`afs_mknod`, `afs_unlink`, `afs_mkdir`, `afs_rmdir`),
--             Client/Access (the others). A handler takes the service as a parameter, Client/Stub.
--             Client/Crash has `afs_release`, `afs_unlink` and `afs_write` as lists of the writes that
--             outlive the process.
--   System    the client on the server: `afs_stub` fills Client/Stub with the calls of Server behind
--             a network that may be down or cut a stream. System/Honest says what a cached copy
--             promises, and runs several clients on one file; System/Session goes from a user's
--             write to another user's read; System/Crash starts a client on what a crash
--             leaves; System/Lost and System/Unfilled are about calls that fail without the code
--             looking at it: the server's `rename`, and the stream to a cache file.
--   Start     `main` of both programs: Start/Options has the option loop of the client, and the rest
--             is in Start. Start/Mounted is about a client on the files of the one before it.
--   SendFile  the streaming example of grpc_example: send_file_client.cc and send_file_server.cc.
--   Clock     `sub_timespec` of measurement/timespec_lib.cc.
--   Examples  concrete inputs.
--
-- How the code is read
--
-- A handler is a function from the state before to the result and the state after. What the system
-- or the network decides is an argument: whether a file opens, whether `rename` succeeds, the time,
-- how many writes a stream takes, an errno for a call that is refused. Where the code does not read
-- the result of a call that may fail (the server's `rename`, the opening, the creation and the removal
-- of a cache file), the model goes on as the code does, and a theorem that needs the call to succeed
-- has that as a hypothesis. OpenSSL's SHA-256 is the
-- record `Sha256`, of which only the shape of a digest is used. A time is the sixteen bytes of a
-- `struct timespec`, as the program copies them. A call whose status the client ignores answers with
-- the defaults of its message when it fails. A failed assertion is `none`.
--
-- Bounds and fuel
--
-- `BUFSIZE` is 65500 (12288 in the example) and the snapshot frequency is 10, as in the source.
-- The loaders run on one more unit of fuel than the file has bytes, since each round reads a
-- byte or more, and a loop that used up its fuel would have another result than one whose
-- assertion fails; the sending loops on one more than the file has bytes, since a full read
-- takes a block of them. Sizes and offsets are not bounded but where the example counts in 64
-- and in 32 bits, and `fi->fh` holds 2^64 - 1 for the descriptor -1.
--
-- Not modelled
--
-- But for `Write` and `GetContent` of the server, calls run one at a time: the other threads of gRPC
-- and FUSE are not interleaved. The setup of gRPC and FUSE and the output to the terminal are left
-- out, and so are readFileIntoMap, which nothing calls, and set_deadline, which is empty. `getopt`
-- is third-party code: its answers are the input of the option loop. FAILURE_POINT is 3, as in the
-- source, which compiles the deliberate crashes out. Permissions and modes reach the model only as
-- refusals. The drivers in measurement and test.cc call the file system from outside and print
-- times; the FUSE tutorial is a copy of another project.
pub mod Base
pub mod Hash
pub mod Journal
pub mod Dirty
pub mod Modified
pub mod Stream
pub mod Posix
pub mod Proto
pub mod Server
pub mod Client
pub mod System
pub mod Start
pub mod SendFile
pub mod Clock
pub mod Examples
