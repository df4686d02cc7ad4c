-- ===== src/Lib.antt =====
-- A chat client and its server: what their parts do, and what makes them correct.
--
-- The program. Client and server exchange messages of one fixed layout (TransObj). The server hands
-- each message that comes in to a table of handlers (HandleMsg); a handler gives a task to the thread
-- pool, and the task asks the database through a pool of connections (MysqlPool) and the sessions
-- (ComManger), which are kept in Redis behind a client of its own (RedisClient), and puts its answer
-- into the queue of messages to send. The client runs the same table with other bodies: they change
-- the player and the friends (Player), and fill a list of friend requests and a queue of system
-- messages, which a loop body takes from (SysManger).
--
-- On the client a loop of the terminal (IoManger) turns a typed line into a message (Util) or shows a
-- text; another updates the game, reads the keys and makes their commands (Game, ReadKey). One loop on
-- either side sends the messages of the queue (Client), one on the client receives, and on the server the
-- loop over epoll does (Zepoll). The server writes a log (MyLog); its main program makes the parts and
-- gives the log's loop and the sending loop to the thread pool (Startup).
--
-- The files, each with the source that it is about:
--   Prelude: numbers, lists, C strings and printf, as far as the source uses them
--   MyEnum: smer/SmerSystem/inc/MyEnum.h, the enumerations and their numbers
--   TransObj: smer/Seqeue/inc/SeqAbleObj.h; Text is about the text fields, Wire about the bytes
--   ConcQueue: smer/Util/inc/ConcQueue.h; ConcList: smer/Util/inc/ConcList.h. A method under the lock
--     is one step. A method that waits gives `none` until its condition holds
--   ThreadPool: smer/Util/inc/ThreadPool.h: enqueue, a worker's section under the lock (wake), the end
--     of its task (finish) and the destructor (shut, joined) are steps; Run is any interleaving
--   MysqlPool: smer/Mysql/src/mysql_pool.cpp: init_pool, get_connection, release_connection, exec_query
--     and exec_insert are the methods of these names; Invariant and History are about the number of
--     connections, Ownership about who has which, Leaks about those that are not given back
--   RedisClient: smer/Redis/src/redis_pool.cpp: Replies is the reading of a reply, Exec the commands,
--     Contexts the two pools of contexts, Direct the methods that nothing calls
--   ComManger: smer/Communication/src/ComManger.cpp and smer/Communication/inc/ComManger.h
--   HandleMsg: smer/HandleMsg/src/HandleMsg.cpp: the table and the dispatch; Server has the tasks, over
--     the interface Services of the database and the sessions, Client the bodies of the client;
--     Backend fills the interface from MysqlPool and ComManger; Register, Login, Friends and Keeps
--     are about the tasks
--   Player: smer/Player/inc/Player.h and smer/Player/src/Player.cpp; Serialize has the serialize methods,
--     File is about the file that they make, Map about the map of the friends
--   SysManger: smer/SmerSystem/inc/SysManger.h and smer/SmerSystem/src/SysManger.cpp
--   IoManger: smer/IOMange/inc/IOManger.h and smer/IOMange/src/IOManger.cpp; Talk is handle_talk and the
--     loop, Shown is about the texts to show
--   Util: smer/Util/src/Util.cpp: get_msg_from_input and the commands; Words is about the table, Typed
--     and Requests about what is sent, Refused about what is sent without a login
--   Client: smer/Client/src/Client.cpp: run and recv_msg are the two loops, Loop is about the first and
--     Received about the second
--   Zepoll: smer/Server/inc/Zepoll.h: handle_events is one round of IOLoop::start, echo_handle and
--     server_accept are the two handlers; Start has the constructors, Reached the states that the loop
--     reaches, Session the way of a typed line to the server's task
--   Session: all of them together, from a typed login to the client that is logged in; Hops has the steps
--     of such a way, Registration, Requests and Talk the ways of a registration, of a friend request and
--     of a talk
--   Startup: serverInit of tests/serverTest.cpp; Workers and Spare are about the workers that the two
--     loops leave
--   MyLog: smer/Log/inc/Log.h, the server's part; Ztime is smer/Util/inc/ZTime.h, Files is
--     smer/Util/inc/FileIO.h, Daily is about the file of a day
--   ReadKey: smer/Input/src/ReadKey.cpp and smer/Command; Terminal is about the descriptor of a scan
--   Game: smer/Game/src/Game.cpp and smer/Actor/src/Actor.cpp: update with all that it calls; Pressed is
--     about a key, Run about the keys of many updates, Paced about the times of the updates
--
-- Conventions. A text is a list of byte codes. An object that the source shares through a pointer has
-- one owner at a time (a message moves from queue to task to queue), so it is a value here. How a call
-- ends is an Outcome: returned, thrown, or undefined, which is undefined behaviour such as the use of
-- a null pointer; where a call cannot throw, an Option stands for it. Log lines are left out of the
-- parts that put them. A loop that never ends is modelled by its body, by the states that it reaches, or
-- over the list of what it is given.
--
-- Bounds and fuel. The array of a message has 64 bytes, of which 24 are for a name and 40 for a
-- password; a frame has 84 bytes from the server and 512 from the client; a command to MySQL or Redis
-- is cut at 99 bytes, a player has at most 3000 friends. The numbers of the wire are 32 bits wide. The
-- only fuel is that of to_string, the number itself, and a number has no more digits than its value, or
-- one for zero.
--
-- Parameters. The MySQL driver, the Redis service with its connections, the clock, the archive of
-- boost and boost::split, the sockets with epoll, the terminal and the file system are not part of the
-- repository: they are arguments of the methods, records of functions or lists of what they give, and
-- where a theorem relies on them, hypotheses. Of boost::split these are that a text without the separator
-- is one part and that a part ends at the first separator (Splits); of epoll_wait that it reports the
-- data of a descriptor in its set, only what was asked for, and each descriptor once (IsReported,
-- IsDistinct); of the archive of boost that its primitives read back what they have written (Laws).
--
-- Not modelled: the client's log, which sets up that of boost (smer/Log/src/Log.cpp); the settings of the
-- terminal, which are calls of the system; the destructor of IOLoop, whose loop is never left;
-- smer/Util/inc/Util.cpp, an older copy that no build file names; smer/Redis/inc/ConRedis.h, which nothing
-- uses; the singletons, and the client's main program and the other functions in tests.
pub mod Prelude
pub mod MyEnum
pub mod TransObj
pub mod ConcQueue
pub mod ConcList
pub mod ThreadPool
pub mod MysqlPool
pub mod RedisClient
pub mod ComManger
pub mod Player
pub mod HandleMsg
pub mod SysManger
pub mod IoManger
pub mod Util
pub mod Client
pub mod Zepoll
pub mod Session
pub mod Startup
pub mod MyLog
pub mod ReadKey
pub mod Game
