-- ===== src/EasyRead/Tests.antt =====
-- hw/hw6/easy-read-handout/easyread.c: a session with two books.
use cs_360_internet_programm.Base.{[], ◌∷◌, ◌≡◌}
use cs_360_internet_programm.EasyRead.{
  sigkill, sigstop, fork, kill, finished, Session, press, forked, key,
}
use cs_360_internet_programm.EasyRead.Readers.{
  readers, running, Aimed, Reached, start, next, Reached-readers,
}

-- The reader 7 is paused and left for another book, whose reader 8 is quit.
abbrev session : Session
session = record {
  phase = finished 0;
  calls = kill 8 sigkill ∷ fork 8 ∷ kill 7 sigkill ∷ kill 7 sigstop ∷ fork 7 ∷ [];
}

session-Reached : Reached session
unfolding press
session-Reached =
    next (next (next (next (next start (forked 7 [])) (key 7 b'p' _)) (key 7 b's' _)) (forked 8 _))
      (key 8 b'q' _)

Reached-readers_example : (readers session.calls ≡ running session.phase) × Aimed session.calls
Reached-readers_example = Reached-readers session session-Reached
