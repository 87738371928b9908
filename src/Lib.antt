-- ===== src/Lib.antt =====
-- Examples of C++ coroutines, from the talks that the repository collects, with the programs that
-- they are compared with. The library models the programs' own logic and proves what makes it
-- correct.
--
-- The parts of the program and the modules that model them:
-- - 2018_CppCon/src: three ways to look keys up in a sorted vector, and a driver that runs one of
--   them. Naive is `naive_binary_search` of naive.h; the other two are compared with it. Sm is
--   sm.h, where a search is a `Frame` that makes one probe in a `run`, and Sm.Multi interleaves
--   many frames (`SmMultiLookup`). Scheduler is the `scheduler_queue` of coro_infra.h, a ring of
--   256 handles, and Coro is coro.h with `root_task`, `throttler` and the awaitable of `prefetch`
--   of coro_infra.h: a coroutine is the point where it is suspended with its locals, and the
--   queue says which one runs next. Tcalloc is `tcalloc` of coro_infra.h, from which the
--   coroutines' frames come. Nano is nanotest.cpp, with the exit status of `main`.
-- - 2017_CppCon/live: an echo benchmark. Client is `session` of myclient.cpp, with `stats` and
--   `client` in Client.Fleet and the memory of its handlers in Client.Handlers, Server is
--   `session` and `server` of myserver.cpp, and HandlerAllocator is handler_allocator.hpp, from
--   which the client's handlers come. Hard is the coroutine session and the server of hard1.cpp,
--   which is compared with Server, and Stop is stop1.cpp, a clock that is woken when its timer
--   goes away. Easy is easy.cpp with the awaiter of boost_coro.h over the futures of
--   use_boost_future.h, Hard2 is hard2.cpp with await_adapters.h, where the server is a coroutine
--   too, and Hard2.Accepts puts the four servers side by side. Over is over2.cpp, a coroutine
--   that posts itself, with over1.cpp in Over.Future, Promise is the promise types that make
--   these functions coroutines, with first.cpp, and Launch is the `main` of the servers and of
--   the client. Link joins a session of the client to one of the server by a TCP connection, and
--   Link.Coroutines to a session of a coroutine server. A handler is a function on the session
--   that gives the operations it starts; what is started waits in a list until a step of the
--   relation `Step` completes it, in any order, with success or failure.
-- - 2015_CppCon/SuperLean: readers and writers over Windows completion ports. Pal is what PAL.h
--   and PAL.cpp add to the system's calls: the status of `Send` and `Receive`, and `WorkTracker`,
--   Pal.Calls the status of `Connect` and `Accept`, Pal.Sockets the sockets as owners of handles,
--   Pal.Queue and Pal.Pool the completion queue and `ThreadPool`, Pal.Delivery the packets from
--   the calls to the threads, with the bag of notifications that they stand for, and Pal.Notify
--   the calls and how they are known to have ended. Traditional and Improved are the readers and
--   writers of Traditional.cpp and Improved.cpp, with their servers in Traditional.Accept and
--   Improved.Accept and their sockets in Traditional.Handles and Improved.Handles, and Awaitable
--   is the reader of Awaitable.cpp, with its server in Awaitable.Accept, its sockets in
--   Awaitable.Handles, and its `run` with main.cpp in Awaitable.Run. What a Winsock call does is
--   an input of the model.
-- - 2016_Jax: Gen is the generator of gen.cpp with the handle of coroutine.h, Gen.Memory the
--   memory that its frames live in, and Task the coroutine type of awaithe.cpp.
-- Base holds what they share: tests and lists over the native numbers, integers, blocks of bytes,
-- bags, and `Outcome`, the result of code that may read outside its memory. Tests runs the
-- definitions.
--
-- Bounds and fuel. Machine words wrap around as the code says (`% 2 ^ 32`, `% 2 ^ 64`); pointers
-- and iterators are indices. The loops of the 2018 searches and of the generator take fuel; each
-- theorem names an amount, a function of the sizes of the vector and of the keys, and of the
-- generator's bound, and says that the run ends with it, because each round makes a range
-- shorter, finishes a key or comes closer to the bound. The loops of the readers run over the
-- list of the results of their calls, and the call after these stays under way. The count of
-- over2.cpp bounds the handlers that its context runs.
--
-- Not modelled: timing, printing where the printed lines are not the program's point, `prefetch`,
-- which changes no value, the generator std::mt19937 (its samples are an input), threads inside a
-- handler (the client's strand runs one handler at a time, and each session of the server has one
-- operation under way), and the system's and the networking library's calls, which complete in
-- any way that the step relations allow. Code that is switched off by `#if 0` is not modelled
-- either.
pub mod Base
pub mod Naive
pub mod Sm
pub mod Scheduler
pub mod Coro
pub mod Nano
pub mod Stop
pub mod Hard
pub mod Task
pub mod Launch
pub mod Over
pub mod Promise
pub mod Hard2
pub mod Easy
pub mod Gen
pub mod Awaitable
pub mod Client
pub mod Server
pub mod Link
pub mod Tcalloc
pub mod HandlerAllocator
pub mod Pal
pub mod Traditional
pub mod Improved
mod Tests
