-- ===== src/EasyRead.antt =====
-- hw/hw6/easy-read-handout/easyread.c: the loops of `main` as steps between the calls that they make.
-- What the keyboard gives, what `fork` returns and whether `execv` fails is free.
pub mod Readers
mod Tests
use cs_360_internet_programm.Base.{
  ℕ, Bool, true, false, Option, none, some, List, [], ◌∷◌, ◌==◌, if◌then◌else◌,
}

pub data Signal : Type 0 where
  sigkill sigstop sigcont sigusr1 sigusr2 : Signal

pub data Call : Type 0 where
  fork : ℕ → Call
  kill : ℕ → Signal → Call

-- Where `main` is: at the top of the outer loop, in the loop over the keys, or returned with a code.
pub data Phase : Type 0 where
  choosing : Phase
  reading finished : ℕ → Phase

-- The calls so far stand with the latest first.
pub record Session : Type 0 where
  pub phase : Phase
  pub calls : List Call

-- The call of `kill` in the case of a key, if it has one.
abbrev pub signal_of : ℕ → Option Signal
signal_of c =
    if c == b's'
    then some Signal.sigkill
    else if c == b'p'
    then some Signal.sigstop
    else if c == b'r'
    then some Signal.sigcont
    else if c == b'+'
    then some Signal.sigusr1
    else if c == b'-'
    then some Signal.sigusr2
    else if c == b'q'
    then some Signal.sigkill
    else none

abbrev pub phase_after : ℕ → ℕ → Phase
phase_after pid c =
    if c == b's' then Phase.choosing else if c == b'q' then Phase.finished 0 else Phase.reading pid

abbrev pub log : ℕ → Option Signal → List Call → List Call
log pid none calls = calls
log pid (some s) calls = Call.kill pid s ∷ calls

-- A round of the inner loop, for the key `c`.
pub press : ℕ → ℕ → List Call → Session
press pid c calls = record { phase = phase_after pid c; calls = log pid (signal_of c) calls }

-- The steps of a process that is in `main`, with its own calls: a child that `execv` fails for goes on
-- with the outer loop, and has made no call.
pub data Step : Session → Session → Type 0 where
  forked :
      (pid : ℕ) (calls : List Call)
      → Step
          (record { phase = Phase.choosing; calls = calls })
          (record { phase = Phase.reading pid; calls = Call.fork pid ∷ calls })
  exec_failed :
      (calls : List Call)
      → Step
          (record { phase = Phase.choosing; calls = calls })
          (record { phase = Phase.choosing; calls = [] })
  fork_failed :
      (calls : List Call)
      → Step
          (record { phase = Phase.choosing; calls = calls })
          (record { phase = Phase.finished 1; calls = calls })
  key :
      (pid c : ℕ) (calls : List Call)
      → Step (record { phase = Phase.reading pid; calls = calls }) (press pid c calls)
