-- ===== src/EventServer/Table/Idle.antt =====
-- labs/event-webserver/http_server.c, `http_server_run`: which idle clients the sweep disconnects.
use mathlib.Core.Path.{subst}
use cs_360_internet_programm.Base.Families.{update_same}
use cs_360_internet_programm.Base.{
  ℕ, ◌≡◌, refl, sym, ap, ◌∙◌, Bool, true, false, Option, none, some, List, [], ◌∷◌, arith,
}
use cs_360_internet_programm.Base.Run.{Run, ok, ◌>>=◌}
use cs_360_internet_programm.EventServer.Responses.{Opened}
use cs_360_internet_programm.EventServer.Table.{
  Server, get_new_client, add_slot, accept_client, sweep,
}
use cs_360_internet_programm.EventServer.Table.Slots.{Absent, dead-Absent}
use cs_360_internet_programm.EventServer.Table.Valid.{IsValid, accept_client-IsValid, sweep-Swept}
use cs_360_internet_programm.EventServer.Table.Safe.{Reached, Reached-IsValid}

abbrev pub is_full : List (Option ℕ) → Bool
is_full [] = true
is_full (none ∷ t) = false
is_full (some p ∷ t) = is_full t

-- Sweeps at some times, one behind the other.
abbrev pub sweep_all : List ℕ → Server → Run Server
sweep_all [] s = ok s
sweep_all (now ∷ times) s = sweep now s >>= λ s'. sweep_all times s'

add_slot_full : (p : ℕ) (t : List (Option ℕ)) → is_full t ≡ true → add_slot p t ≡ t
unfolding add_slot
add_slot_full p [] h = refl
add_slot_full p (none ∷ t) h = absurd (cc)
add_slot_full p (some q ∷ t) h = ap (◌∷◌ (some q)) (add_slot_full p t h)

-- A client without a slot is kept by every sweep.
sweep_all-Absent :
    (times : List ℕ) (p : ℕ) (s : Server)
    → IsValid s
    → Absent p s.table
    → (s' : Server) × (sweep_all times s ≡ ok s') × (s'.heap p ≡ s.heap p)
sweep_all-Absent [] p s v a = (s, refl, refl)
sweep_all-Absent (now ∷ times) p s v a =
    let (t, s', e, v', w) = sweep-Swept now s v in
    let (s'', f, same) = sweep_all-Absent times p (record s' { table = t }) v' (w.absent p a) in
    (s'', rw e f, same ∙ (w.kept p a).0)

module _ (open_file : List ℕ → Opened) (format_date : ℕ → List ℕ) where
  -- A client that comes when no slot is free is never disconnected for being idle: sweeps at any
  -- times leave it in the heap as it came.
  pub accept_client_full :
      (now : ℕ) (times : List ℕ) (s : Server)
      → Reached open_file format_date s
      → is_full s.table ≡ true
      → (s' : Server) × (sweep_all times (accept_client now true s) ≡ ok s')
        × (s'.heap s.allocated ≡ some (record { client = get_new_client now; sent = [] }))
  unfolding accept_client
  accept_client_full now times s r full =
      let v = Reached-IsValid open_file format_date s r in
      let unlisted : Absent s.allocated s.table =
        dead-Absent s.heap s.allocated s.table (v.fresh s.allocated (omega arith)) v.held in
      let (s', e, same) =
        sweep_all-Absent times s.allocated (accept_client now true s)
          (accept_client-IsValid now true s v)
          (subst (Absent s.allocated) (sym (add_slot_full s.allocated s.table full)) unlisted) in
      (s', e, same ∙ update_same s.allocated _ s.heap)
