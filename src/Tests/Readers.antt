-- ===== src/Tests/Readers.antt =====
-- Runs of the readers of 2015_CppCon/SuperLean.
use await.Base.{◌≡◌, refl, true, false, List, [], ◌∷◌, arith}
use await.Pal.{success, new_tracker}
use await.Awaitable
use await.Awaitable.Reads
use await.Traditional
use await.Traditional.Readers.{Reach, begins, goes, Tracked, readers-Tracked}
use await.Traditional.Overcount.{read_overcounts}
use await.Improved.Events.{connected, read, traditional_run, improved_run, improved-Same, Event}
use await.Improved.Same.{Same}

abbrev failed : Traditional.System
failed =
    let out =
      Traditional.on_connect true true [] (record (Traditional.start 500) { connecting = 0 })
        (new_tracker 1) in
    record { readers = out.0 ∷ []; tracker = out.1 }

readers_ran : Reach true 1 500 failed
unfolding Traditional.new_system Traditional.start
readers_ran = goes begins (Traditional.connects [] [] (Traditional.start 500) 0 true [] refl refl)

readers-Tracked_example : Tracked 1 failed
readers-Tracked_example = readers-Tracked (omega arith) (omega arith) readers_ran

abbrev events : List Event
events = read false 4096 [] ∷ connected false [] ∷ []

improved-Same_example :
    Same
      (traditional_run true 4000 events (new_tracker 1))
      (improved_run true 4000 events (new_tracker 1))
improved-Same_example = improved-Same true 4000 events (new_tracker 1)

-- the reader gets 1010 of 5000 bytes, and is done
read_overcounts_example :
    (Traditional.on_read true false 1000
      (success 10 ∷ [])
      (record (Traditional.start 5000) { connecting = 0 })
      (new_tracker 1)).0.deleted
    ≡ 1
unfolding Traditional.start
read_overcounts_example =
    read_overcounts 1000 10 (record (Traditional.start 5000) { connecting = 0 }) (new_tracker 1)
      (omega arith) (omega arith) (omega arith) (omega arith)

-- A read that fails counts as a whole buffer, and the reader of 5000 bytes is done after two.
abbrev waiting : Awaitable.Reader
waiting = record { total = 904; point = Awaitable.at_read; reads = 1 }

awaitable_ran :
    Awaitable.Reads.Reach true 5000 (record { total = 0; point = Awaitable.finished; reads = 2 })
unfolding Awaitable.resume Awaitable.read_suspend
awaitable_ran =
    Awaitable.Reads.goes {r = waiting} true 0 []
      (Awaitable.Reads.goes {r = Awaitable.tcp_reader 5000} false 0 (success 10 ∷ [])
        Awaitable.Reads.begins refl)
      refl

reader-Counts_example :
    Awaitable.Reads.Counts 5000 (record { total = 0; point = Awaitable.finished; reads = 2 })
reader-Counts_example = Awaitable.Reads.reader-Counts awaitable_ran
