-- ===== src/Lib.antt =====
-- Verification library of CPP Reactor, an HTTP server on an event loop.
--
-- Parts, and how they interact. A connection (Connection; net/TcpConnection) owns two byte buffers
-- (Buffer; core/Buffer). It parses requests out of the one with an incremental parser (Http.Request;
-- protocol/HttpRequest), answers them by a request handler, which may be the router (Http.Router;
-- protocol/HttpRouter), and writes responses into the other. It reaches its socket through a channel
-- (Channel; net/Channel) in an event loop (Loop; core/EventLoop), which registers descriptors with a
-- polling back end (Dispatcher; core/Dispatcher, with Dispatcher.Poll for core/PollDispatcher,
-- Dispatcher.Select for core/SelectDispatcher, Dispatcher.Epoll for core/EpollDispatcher, and their
-- waiting calls in Dispatcher.Waiting). Counters stand in Metrics (observability/Metrics),
-- percent encoding in Url (include/utils/StringUtils.hpp), the test for read-only SQL in Guard
-- (utils/SqlStatementGuard), the status codes in Status (include/core/CoreStatus.hpp). The server
-- (Server; net/TcpServer) accepts connections, gives each to a loop of its pool (IoPool;
-- net/IOThreadPool) and keeps the table of them. Two handlers answer requests: Handler.StaticFile
-- (handler/StaticFileHandler) from the file system, and Handler.SqlHandler (handler/SqlHandler) by jobs
-- that an executor (Sql.Executor; persistence/SqlExecutor) runs on one thread, with that thread's
-- connection (Sql.ThreadConn; persistence/ThreadLocalSqlConn) behind the interface of
-- include/persistence/ISqlConnection.hpp (Sql), which Sql.MySql (persistence/MySqlConnection)
-- implements. Sql.Transaction is persistence/SqlTransaction, and
-- Sql.Config is persistence/SqlConfig with utils/JsonConfigLoader. Sql.Repository
-- (repository/sql/SqlRepository) looks up users by jobs of the same executor. Http.Response is
-- protocol/HttpResponse, which no other part uses. Two programs put the parts together: App.Main
-- (src/app/main.cpp) is the server, and App.Echo (src/app/main_echo.cpp) a server of fixed responses on
-- the pool and its loops alone. The headers are under include/, the bodies under src/.
--
-- Names. A type keeps its name, and a function has the name of the source in snake case: `parse_line`
-- is `parseLine_`. Where a function has early returns or a loop, each part behind a test is a function
-- of its own, named for what it is given: `line_found`, `body_sized`.
--
-- State. A component's state is a record with the members of the class, and a member function takes
-- the state and returns it. Files:
--   Buffer: the buffer; Buffer.View and Buffer.Reads: its unread bytes.
--   Http.Request: the parser over the interface `Source`, with the buffer (`buffer_source`) and plain
--   bytes (`bytes_source`, in Http.Request.Spec) as instances; Http.Request.Chunks: input in pieces;
--   Http.Request.Sound: its states; Http.Request.RoundTrip: the text of requests; Http.Request.Entry:
--   `parseRequest` and the path parameters.
--   Http.Router: the routes, with Http.Router.Paths, Http.Router.Match and Http.Router.Order.
--   Loop: the loop, with Loop.Map for `channelMap_`, Loop.Sync for channels and registrations,
--   Loop.Order for the order of tasks and callbacks, and Loop.Create for the constructor, on the back
--   end that Dispatcher.Create makes.
--   Connection: the handlers of a connection, with Connection.Response for the text of responses and
--   Connection.Life, Connection.Close, Connection.Reading, Connection.Writing and Connection.Serve for
--   its life.
--   Guard: the test of a statement; Guard.Case: the case of its letters.
--   Server: the table of connections; Server.Accept: the accept loop, a round at a time; Server.Count:
--   the gauge; Server.Table: the entries; Server.Steps: any sequence of operations;
--   Server.Serving and Server.Upkeep: the server together with what reaches its connections.
--   IoPool: the loops of the threads; IoPool.Turns: the choice of a loop.
--   Http.Response: the parts of a response; Http.Response.Missing: those that are missing.
--   Sql.Transaction; Sql.Executor, with Sql.Executor.Drain and Sql.Executor.Logged for what runs and
--   when it ends; Sql.ThreadConn, with Sql.ThreadConn.Live, Sql.ThreadConn.Uses and
--   Sql.ThreadConn.Total for the connection that a job gets; Sql.Repository, with
--   Sql.Repository.Results; Sql.MySql, with Sql.MySql.Calls for its operations and Sql.MySql.Idle for the auto-commit mode,
--   and Sql.MySql.Sessions for the session that a job finds;
--   Sql.Config, with Sql.Config.Checked and Sql.Config.Stored.
--   Handler.SqlHandler, with Handler.SqlHandler.Param, Handler.SqlHandler.Admission and
--   Handler.SqlHandler.Answers; Handler.StaticFile, with Handler.StaticFile.Escape,
--   Handler.StaticFile.Listing for the page of a directory and Handler.StaticFile.Serving.
--   App.Echo: the callbacks, with contexts and channels as a store that they share; App.Echo.Linked and
--   App.Echo.Pending: how they hang together; App.Echo.Balance: responses and reads; App.Echo.Program:
--   the accept loop and `main`; App.Echo.Adds and App.Echo.Turns: the loops that it gives connections
--   to. App.Main: the server program, with App.Main.Options, App.Main.Routes,
--   App.Main.Code, App.Main.Endpoint and App.Main.Promises.
--   Base and the modules below it: shared types, Boolean tests, lists, byte strings, decimal numbers.
--   Tests, Loop.Tests, Http.Tests, Server.Tests, Sql.Tests, Handler.Tests and App.Tests: concrete
--   runs.
--
-- Bounds and fuel. The indices of a buffer are 32-bit numbers with wrap-around, the counters 64-bit
-- ones. `head_loop` has one round more than there are readable bytes, and each round takes two bytes
-- at least; it would return the code `error` if that were too little. `split_loop` has one round more
-- than the path has bytes, and `search_segments` has a round for each byte of the URL. `stop` of the
-- executor has a round for each queued job and one more, and `drain` of the wake-ups a round for each
-- byte and one more.
--
-- Parameters. The answers of `readv`, `write`, `accept` and the waiting calls, `epoll_ctl`, what closing
-- a descriptor does to the interest list of the kernel, the time,
-- the back end under the loop, what a callback does when it is called, the request handlers, the
-- driver of a SQL connection, the MySQL client library, the JSON library, the file system, `atoi` and,
-- for the programs, the calls on the listening socket.
--
-- Not modelled: the logging, JSON and MySQL libraries; the types of repository/sql/SqlTask.hpp, which
-- nothing uses. A handler that uses the connection before it returns, and calls
-- of other threads between the parts of one operation, are not modelled either. A connection of the
-- table is found by its descriptor, and the tasks that it posts are not carried to its loop.
pub mod App
pub mod Base
pub mod Status
pub mod Buffer
pub mod Http
pub mod Channel
pub mod Dispatcher
pub mod Loop
pub mod Metrics
pub mod Url
pub mod IoPool
pub mod Guard
pub mod Connection
pub mod Server
pub mod Sql
pub mod Handler
pub mod Tests
