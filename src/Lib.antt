-- ===== src/Lib.antt =====
-- The Go server of flit.el, an Emacs package for remote files, in the directory server/.
--
-- The server talks to Emacs over one connection. server/flitrpc/flitrpc.go frames the messages: an
-- eight-byte header with two lengths, metadata in msgpack, and a payload that is cut into chunks if
-- it is large, so that other messages come in between. Its Server dispatches requests, each in a
-- goroutine, and notifications, in order. server/fs/watcher.go watches paths for the session and
-- notifies the client of changes, with reference counts, paths that wait to be created, and
-- debouncing. server/tunnel/tunnel.go forwards TCP connections. The Session of
-- server/server/jsonrpc.go records what it has asked to watch, its open files and the directories
-- that it has listed; it turns the watcher's events into notifications with the file's info, and
-- fetches directories ahead. server/fs/handler.go answers the requests on files, by calls of the
-- system. server/exec runs processes and terminal sessions, server/eden finds EdenFS checkouts,
-- server/cmd_pty_bridge.go connects Emacs to a server behind ssh: it relays passwords and sends the
-- binary. server/server/log.go sends log records to the client, and server/util/concurrency.go bounds the
-- workers of a batch.
--
-- The files, and the code that each is about:
--   Prelude      names of the libraries, tests, lists, texts, Go's maps and loops over them that
--                change a store, int64, error results
--   Filepath     path/filepath of Go's standard library, as far as the server uses it
--   Flitrpc      server/flitrpc/flitrpc.go. Sink is the io.Writer with its errors; Frame has
--                ReadFrame (read_frame) and writeRaw (write_raw); Chunk has writeChunked; Codec is
--                the interface of msgpack; Server has handleRequest, NotifyWithPayload and the rest
--                of the dispatch; Server/Loop has Serve, its order and its end; Server/Requests has SendRequest;
--                Tiny is a small codec for the tests
--   Session      the Session of server/server/jsonrpc.go and its methods, over Watcher; Owned relates
--                the counts of the watcher to the session's record, Files has the open files
--   FsHandler    server/fs/handler.go. Os is the interface of the system, Io the control flow with
--                its errors (file_error is fileError), Types has the params and results; Stat has
--                Stat, Read, Exists and Realpath, Info has getInfo and its variants, the listings
--                and GetChildEntries, Write, Files (Mkdir to Touch), Batch and CopyDir have the rest;
--                Keeps, Yields and Total are rules on computations; Memory is a system in memory
--   Notices      the notifications of server/server/jsonrpc.go: Changes has the callback of
--                InitWatcher and handleEdenCheckout, Prefetch has PrefetchAncestors and
--                AsyncFetchChildEntries, Pending has WatchPendingFile
--   Handlers     server/server/jsonrpc.go: App has the state of a connection, Files and Init the
--                handlers with code of their own, Protocol the interface of the decoded params,
--                Answers has HandleFunc and HandleTyped of server/flitrpc/flitrpc.go and what
--                wraps the answers, FileMethods and Register the table of registerHandlers; Lifetime has the Server's connections and its shutdown,
--                Connection has HandleConnection and HandleStdio, from NewSession to Close
--   Tunnel       the manager and the connections of server/tunnel/tunnel.go; a connection is an
--                object in a store, which its loops keep after it has left the manager's map
--   Exec         the processes of server/exec/handler.go and their input, as objects in a store;
--                Start has Start with its calls, Output has readOutput and what the wait group
--                orders, Control has Signal, PtyCtl and Close; Pty has server/exec/pty.go
--   Logging      the handlers of server/server/log.go
--   Eden         GetEdenRoot and the watched roots of server/eden/eden.go; Notify has watchRoot and
--                hasCommitTransition
--   PtyBridge    server/cmd_pty_bridge.go: Junk has stripPtyJunk and isPasswordPrompt, Auth has
--                handleAuthAndWaitForReady, handlePasswordPrompt and handleDeploy, and what runBridge
--                forwards before it copies both ways; Run has the copies and cleanupPty
--   Command      server/main.go and server/cmd_server.go: runServer up to its listener, with Listens on
--                the addresses; Accept has the loop that accepts connections
--   Util         BoundedWaitGroup of server/util/concurrency.go
--   Watcher      server/fs/watcher.go. Interface is fsnotify; Debounce has
--                triggerDebouncedNotification and its timer's function; Events has run
--                (handle_event) and watchParentForPending; Close has Close
--
-- State is passed explicitly: a method that locks a mutex for its whole body is one function on the
-- state, and what is read outside (the bytes of a connection, os.Stat, the time, errors of a writer
-- or of fsnotify) is an argument or a field of an interface. Bytes are numbers, and a text is a list
-- of them.
--
-- A system call takes the system's state and returns a new one, also where it only reads, so that
-- other programs may change files between two calls. Goroutines that only fetch run one after
-- another; where Go ranges over a map, the order is that of the list, or an argument. Times are whole
-- seconds, as the handlers compare them; the expected time of a write, a float64, is in thousandths
-- of a second, so that the rounding of float64 is not modelled.
--
-- The state of fsnotify is the record of the calls that it gets: the paths that it has been told to
-- watch and not told to drop since. Where a watched file is deleted or renamed the kernel drops its
-- watch; this is not in the record, and only the events that the code handles then are modelled. Two
-- operations of one function between which other goroutines may come are two steps, in the watcher's
-- timer, the close of an input, the readers of a process, the bounded wait group and the cleanup of a
-- tunnel. SendRequest's choice between
-- a response and the end of the connection, and whether a write of the bridge succeeds, are arguments.
-- Serve is `blocked` while it hands a response to a channel that already holds one.
--
-- Fuel: chunk_loop has the length of the payload, of which each round sends a byte at least; serve
-- has more than the length of its input, of which each round reads eight bytes at least; climb and
-- find_ancestor have one round more than the path has bytes, and search_root two more, since a
-- directory's path is shorter than the path or is one at which the loop stops; digits has ten rounds,
-- for the ten digits of a uint32, nineteen for an int64 and twenty for a uint64; auth_loop has one
-- round for each read that is to come and one more; watch_root has one run of the command for each
-- element of its list.
--
-- Not modelled: msgpack and fsnotify, which are interfaces; log output; the text of the errors of the
-- watcher and of the tunnels; goroutines of requests that outlive Serve (in HandleConnection they run
-- when Serve has read its input, before the deferred calls); WriteFrame, which the server does not
-- call; the round of a tunnel's writeLoop whose Write fails, but for the cleanup that it ends in (its data
-- is lost); the flow control of server/exec, one ioctl each; the parsing of flags, the crash log, the dump of
-- goroutines and the signals that end the server or the bridge; and the Emacs Lisp client.
pub mod Prelude
pub mod Filepath
pub mod Flitrpc
pub mod Util
pub mod Watcher
pub mod FsHandler
pub mod Session
pub mod Notices
pub mod Handlers
pub mod Tunnel
pub mod Exec
pub mod Logging
pub mod Command
pub mod Eden
pub mod PtyBridge
