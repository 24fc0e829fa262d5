-- ===== src/Lib.antt =====
-- GameProjectDemo: a small C++ framework for network servers, with an HTTP server on top of it and a
-- layer over the MySQL client library. This library models its parts and proves what they do.
--
-- A `net::ISession` reads the bytes of a connection into a `net::MessageBuffer`; `Http::HttpSession`
-- hands them to `HttpRequest` and its `HttpParser`, lets `HttpRouter` call the handler of the method
-- and the path, and sends the payload of its `HttpResponse` through the session's queue. Handlers give
-- SQL to a `DatabaseWorkerPool`: either directly, on one of its locked connections, or as tasks in a
-- `ProducerConsumerQueue` that the thread of a `DatabaseWorker` empties; the results come back through
-- the callbacks of an `AsyncCallbackProcessor`, which the server runs on each tick.
--
-- Files and the code they are about (paths from the repository's root):
--   Buffer       Src/Common/Net/Buffer.hpp: `MessageBuffer`, a vector with a read and a write index. A
--                `size_t` is a number below 2 ^ 64 and its arithmetic wraps; an access outside of the
--                vector, or a failed `assert`, is `none`.
--   Session      Src/Common/Net/Session.h and Session.cpp: `ISession` with the requests that it has
--                handed to its socket; one function for each handler of asio. The models run one handler at a
--                time, although two threads of the program run the same `io_context`.
--                Proto has its protobuf messages.
--   Util         Src/Common/Util/Util.hpp: comparison and conversion of texts (Floats for `float` and `double`), the
--                difference of times, `CleanupOutputString` (Cleanup) and `ProgressCanRun` (Progress).
--   Http         Src/Common/Http: the enumerations and texts of HttpCommon.h and HttpUtil.hpp; Parser,
--                Request, Response, Router and Connection (`HttpSession`) below it.
--   Threading    Src/Common/Threading/ProducerConsumerQueue.hpp and
--                Src/Common/Database/DatabaseWorker.cpp: a run is a sequence of calls, each whole under
--                the queue's lock, and of steps of the worker: it takes a task in one, and looks at it in
--                the next.
--   Async        Src/Common/Util/AsyncCallbackProcessor.h, `QueryCallback` and `TransactionCallback` of
--                Src/Common/Database: the processor's vector with the moves of its elements.
--   Database     Src/Common/Database: Connection (MysqlConnection.cpp, with Errors, Execute and Query),
--                Statement (PreparedStatement.h, MySqlPreparedStatement.cpp), Results (QueryResult.cpp),
--                Field (Field.cpp), Transaction (Transaction.cpp, the transaction task of SqlTask.cpp),
--                Tasks (the other tasks of SqlTask.cpp), Pool (DatabaseWorkerPool.cpp),
--                LoginDatabase (DatabaseImpl/LoginDatabase.h). `Run` is what a
--                call comes to: a result, the end of the program, or nothing within the fuel.
--   Server       Src/Common/Net/Server.cpp: the update of callbacks and sessions, and the loop of
--                its thread (Thread); and the accepts, the
--                routes and the handlers of Src/Servers/HttpServer/HttpServer.cpp.
--   Log          Src/Common/Util/Log.hpp: `HtmlFormatSink`, the file of the log with its rotation by size,
--                over the file functions of spdlog (`FileLibrary`); Setup is `InitLogger`.
--   Common       lists, texts, tests and integers that the others share.
-- A function has the name of the C++ function in antt's spelling, with helpers for its loops and its
-- branches beside it. A `Tests` module holds runs on small inputs.
--
-- Parameters of the models: `phr_parse_request` and `phr_parse_response` of picohttpparser, the MySQL
-- client library (`Database.Client`, `QueryLibrary`, `StmtLibrary`, `ResultLibrary`), the handlers of the router,
-- what the functions of the callbacks do, the file functions of spdlog, the protobuf library (`Session.Proto.ProtoLibrary`),
-- what the compiler and the standard library make of `float` and `double` (`Database.Field.Floating.FloatingPoint`,
-- `Util.Floats.FloatChars`), the functions of the operating systems (`Util.Progress`), what a run of the `io_context` of
-- asio comes to (`Server.Thread`), the text of the date and the readings of the clock.
--
-- Bounds and fuel: `Execute` and `Query` call themselves again after an error that was handled, so they
-- run on fuel, and `Database.Connection.Termination` shows that fuel for two calls is enough; the count of reconnections
-- starts at 5 and the program ends when it comes to 0. The choice of a connection is a loop on fuel
-- that ends in two rounds. `ReadHandler` of `net::Session` ends within two rounds, and a C string in memory
-- is read with fuel for its bytes and its NUL. The attempts after a deadlock follow the readings of the clock. The thread
-- of the server runs on fuel for its runs of the `io_context`, which `Server.Thread` shows to be enough. All other
-- loops are recursions on their data.
--
-- Not modelled: where the other parts log and the console, waits, the loop
-- of asio with its timer, and what destructors release. picohttpparser and the
-- MySQL headers are copies of other projects. A `string_view` is the bytes
-- that it showed when it was made: that its text may be gone later is not seen by the models. Left out besides: that
-- `remote_endpoint` may throw when a session is made; the moves of other callbacks when the vector of the processor
-- grows; a NUL inside of an SQL text, and sizes of a log file of 2 ^ 64 bytes; exceptions of spdlog's file functions
-- but the one of a failed renaming. A connection goes on after `ClearParameters` has freed the length of a text or of bytes
-- with `delete[]`, which is undefined: `Database.Statement.Reuse` has the calls for which it is defined.
pub mod Common
pub mod Buffer
pub mod Session
pub mod Util
pub mod Http
pub mod Threading
pub mod Async
pub mod Database
pub mod Server
pub mod Log
