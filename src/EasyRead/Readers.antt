-- ===== src/EasyRead/Readers.antt =====
-- hw/hw6/easy-read-handout/easyread.c: which readers run.
use cs_360_internet_programm.Base.{ℕ, List, [], ◌∷◌, ◌==◌, if◌then◌else◌, ◌≡◌, refl, arith}
use cs_360_internet_programm.EasyRead.{
  sigkill, Call, fork, kill, Phase, choosing, reading, finished, Session, press, Step, forked,
  exec_failed, fork_failed, key,
}

-- The readers without one.
abbrev without : ℕ → List ℕ → List ℕ
without p [] = []
without p (q ∷ qs) = if p == q then without p qs else q ∷ without p qs

-- The readers that were forked and not killed.
abbrev pub readers : List Call → List ℕ
readers [] = []
readers (fork p ∷ calls) = p ∷ readers calls
readers (kill p sigkill ∷ calls) = without p (readers calls)
readers (kill p s ∷ calls) = readers calls

abbrev pub running : Phase → List ℕ
running choosing = []
running (reading p) = p ∷ []
running (finished code) = []

-- Every signal was sent to the one reader that ran then.
abbrev pub Aimed : List Call → Type 0
Aimed [] = Unit
Aimed (fork p ∷ calls) = Aimed calls
Aimed (kill p s ∷ calls) = (readers calls ≡ p ∷ []) × Aimed calls

-- The sessions that steps lead to from the start.
pub data Reached : Session → Type 0 where
  start : Reached (record { phase = choosing; calls = [] })
  next : {s t : Session} → Reached s → Step s t → Reached t

press-readers :
    (pid c : ℕ) (calls : List Call)
    → readers calls ≡ pid ∷ []
    → Aimed calls
    → (readers (press pid c calls).calls ≡ running (press pid c calls).phase)
      × Aimed (press pid c calls).calls
unfolding press
press-readers pid c calls r a = ground (arith, r, a)

-- In every session that `main` reaches, also in a child whose `execv` failed, the readers that the
-- process forked and did not kill are the one whose keys are read, and none before a book is chosen
-- and after the end; and every signal went to the one reader that ran when it was sent.
pub Reached-readers :
    (s : Session) → Reached s → (readers s.calls ≡ running s.phase) × Aimed s.calls
Reached-readers _ start = (refl, tt)
Reached-readers _ (next h (forked pid calls)) = let (r, a) = Reached-readers _ h in (rw r refl, a)
Reached-readers _ (next h (exec_failed calls)) = (refl, tt)
Reached-readers _ (next h (fork_failed calls)) = Reached-readers _ h
Reached-readers _ (next h (key pid c calls)) =
    let (r, a) = Reached-readers _ h in press-readers pid c calls r a
