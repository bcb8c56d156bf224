-- ===== src/Lib.antt =====
-- Parts of a program that logs builds, parses source code and serves what it found.
--
-- The build logger, logger/src: a library that is preloaded into a build (LD_PRELOAD). It stands in
-- for the exec functions, and writes each compiler call that it sees to a log, which is a
-- compilation database in JSON.
--
-- An exec function calls `tryLog` and so `logExec`, which takes a lock, opens the log, lets the
-- parser for the program's name collect the actions of the command line, and appends them to the
-- log. Then the real function is called.
--
-- - Base: shared names, Boolean tests, lists measured by native numbers. Cstring: strings as lists
--   of codes without the final zero, and the functions of <string.h> and <ctype.h> that are used.
-- - Host: the file system, processes, memory and the environment are a parameter.
-- - Escape (`shellEscapeStr`), Paths (the functions on paths) and Vector (`LoggerVector`):
--   logger/src/ldlogger-util.c. A vector is modelled in memory, and as the list of its items,
--   which the parsers use.
-- - Tool and Collect: logger/src/ldlogger-tool.c, the actions and the choice of the parser.
-- - Gcc: logger/src/ldlogger-tool-gcc.c. Javac: logger/src/ldlogger-tool-javac.c. The names are
--   the source's in lower case: `process_argument` is `processArgument`, and
--   `collect_actions` is `loggerGccParserCollectActions` or `loggerJavacParserCollectActions`.
-- - Logger: logger/src/ldlogger-logger.c, the command, the stream on the log, and the session.
--   Logger.Concurrent is several processes that call `logExec` at once, as a step relation over the
--   calls on files that it makes; `flock` gives the lock to one process at a time, and takes it back
--   when that process dies. A process does not die inside of the writing.
-- - Hooks: logger/src/ldlogger-hooks.c.
-- - Web: the server. Web.Auth is webserver/src/authentication.cpp, Web.Sessions is
--   webserver/src/sessionmanager.cpp, Web.Access is webserver/src/session.cpp with the service in
--   service/authentication/src/authenticationservice.cpp, Web.Plugins is
--   webserver/include/webserver/pluginhandler.h with util/src/dynamiclibrary.cpp, and Web.Handler is
--   webserver/src/mainrequesthandler.cpp. A request goes to `handle_event`, which finds its session
--   and the plugin that answers it. The clock and the identifier that a login draws are arguments;
--   a session is a value, since no field of it is assigned after it is made. Requests are handled one
--   after another: that another thread erases a session while a request holds the pointer to it is
--   not modelled. The end of a lifetime is 64 bits, whose sign is read, as the clock's type is.
-- - Pool: util/include/util/threadpool.h, the pooled queue of jobs as a step relation of its threads
--   and a client that enqueues its jobs and waits. A step is what happens between two points at
--   which another thread can see a difference.
-- - Sources: the files of the parser, parser/src/sourcemanager.cpp, with model/include/model/file.h
--   and util/include/util/hash.h. A `FilePtr` is an index into the objects that were made, since the
--   cache and its users share them; the database is its two tables, and none is an exception that
--   passes. The calls are made by one thread: the time between the search for a path and the entry
--   of its file, in which another thread can make a second object, is not modelled. `getFile` and the functions that it calls recurse through the parents of a path on fuel;
--   on a file system as Boost documents it, enough fuel is one more than the length of the canonical
--   form, or what the first parent with one needs and one for each path before it.
--   Sources.Status is parser/src/parsercontext.cpp, and Sources.Cleanup is `incrementalCleanup` of
--   parser/src/parser.cpp.
-- - Graph: util/src/graph.cpp and `bfsBuild` of util/include/util/graph.h. Graphviz is a parameter;
--   what it finds by a name is a record of functions with their laws. The loop of `generateId` has as
--   many rounds as there are nodes, and one more, and the search has a number of rounds that may
--   follow: one more than there are names, or the limit, is enough.
-- - Metrics: plugins/metrics/parser/src/metricsparser.cpp. Either loop over comments has a number of
--   rounds that may follow; the length of the text is enough, or no number is. Metrics.Parser is the
--   table of the counts and its cleanup in an incremental run, and the files that are handed to the
--   thread pool; Util.Walk is util/src/parserutil.cpp. A walk runs on fuel, more than the depth of
--   the directories is enough. Each question to the file system may throw, and so may the listing of
--   a directory at its start or behind an entry; the exception ends the walk of one input.
-- - Util: util/src/util.cpp and util/src/filesystem.cpp.
-- - Tests: the theorems at concrete inputs.
--
-- `none` as the result of a parser or of a session says that the process stops at a failed
-- assertion, or that the code reads or writes out of bounds. `makePathAbsRec` runs on fuel, one more
-- than the length of the path, and each call is on a shorter path. The loops over a vector in memory
-- count the rounds that are left, at most its size, and so does the loop of `textRange` over the
-- lines. The loops that are not named go through a list.
--
-- Not modelled: the limit PATH_MAX of the fixed buffers, running out of memory except where Host
-- grants it, and the release of memory. Of the server, the threads around mongoose and the options of
-- the command line; webserver/src/mongoose.c is a copy of a library. Of the graphs, their subgraphs
-- and what is only printed. The other parsers and services of the plugins, which work on clang,
-- databases and generated code; the rest of the driver that loads the parsers; parts in other
-- languages.
pub mod Base
pub mod Cstring
pub mod Escape
pub mod Paths
pub mod Host
pub mod Vector
pub mod Tool
pub mod Gcc
pub mod Javac
pub mod Collect
pub mod Logger
pub mod Hooks
pub mod Web
pub mod Pool
pub mod Sources
pub mod Util
pub mod Graph
pub mod Metrics
pub mod Tests
