-- ===== src/EventServer/Transfer/Overflow.antt =====
-- labs/event-webserver/http_server.c, `recv_data`: what is received, and when it overflows.
use mathlib.Core.Path.{ap₂}
use mathlib.Core.List.{append_assoc, append-nil}
use cs_360_internet_programm.Base.{
  ℕ, ◌≤◌, ◌<◌, ◌≡◌, refl, ap, ◌∙◌, arith, inl, inr, Bool, true, List, [], ◌∷◌, ◌++◌, map, length,
  ltb, if◌then◌else◌, Bool-cases, length-append, le→ltb, ltb-eq-false, lt→ltb, ltb→lt,
}
use cs_360_internet_programm.Base.Run.{Run, ok, fault}
use cs_360_internet_programm.EventServer.{buffer_max}
use cs_360_internet_programm.EventServer.Transfer.{
  Client, Receiving, received, Socket, Done, append_received, recv_loop, recv_data,
}

abbrev pub join : List (List ℕ) → List ℕ
join [] = []
join (x ∷ xs) = x ++ join xs

-- The time of the last byte.
abbrev pub stamp : ℕ → List (List ℕ) → Client → ℕ
stamp now [] c = c.last_active
stamp now (x ∷ xs) c = now

-- What the loop ends in, with the bytes that are in the buffer then and the time of the last.
abbrev pub outcome : List Receiving → Socket → Client → List ℕ → ℕ → Run Done
outcome rest k c bytes time =
    if ltb buffer_max (length bytes)
    then fault
    else ok (record {
      result = 0;
      socket = record k { receivings = rest };
      client = record c { recv_buf = record c.recv_buf { bytes = bytes }; last_active = time };
    })

abbrev stepped : ℕ → List ℕ → Client → Client
stepped now x c = record c {
  recv_buf = record c.recv_buf { bytes = c.recv_buf.bytes ++ x };
  last_active = now;
}

stamp-stepped :
    (now : ℕ) (x : List ℕ) (xs : List (List ℕ)) (c : Client) → stamp now xs (stepped now x c) ≡ now
stamp-stepped now x [] c = refl
stamp-stepped now x (y ∷ xs) c = refl

module _ (running : Bool) (now : ℕ) (k : Socket) (rest : List Receiving) where
  recv_loop-chunks :
      (xs : List (List ℕ)) (c : Client)
      → length c.recv_buf.bytes ≤ buffer_max
      → recv_loop running now (map received xs ++ (Receiving.blocked ∷ rest)) k c
        ≡ outcome rest k c (c.recv_buf.bytes ++ join xs) (stamp now xs c)
  unfolding recv_loop append_received
  recv_loop-chunks [] c fits =
      rw (append-nil c.recv_buf.bytes, le→ltb buffer_max (length c.recv_buf.bytes) fits) refl
  recv_loop-chunks (x ∷ xs) c fits =
      elim (Bool-cases (ltb buffer_max (length (c.recv_buf.bytes ++ x)))) [
        | inl t ↦ rw (t, too_many (ltb→lt _ _ t)) refl
        | inr f ↦
            rw (f, recv_loop)
              (recv_loop-chunks xs (stepped now x c)
                  (ltb-eq-false buffer_max (length (c.recv_buf.bytes ++ x)) f)
                ∙ ap₂ (λ b time. outcome rest k c b time)
                    (append_assoc c.recv_buf.bytes x (join xs)) (stamp-stepped now x xs c))
      ]
    where
      too_many :
          buffer_max < length (c.recv_buf.bytes ++ x)
          → ltb buffer_max (length (c.recv_buf.bytes ++ (x ++ join xs))) ≡ true
      too_many h = lt→ltb _ _ (
          omega (
            arith,
            h,
            length-append c.recv_buf.bytes x,
            length-append c.recv_buf.bytes (x ++ join xs),
            length-append x (join xs),
          ))

  -- Bytes that arrive in any pieces before the socket would block: if they fit behind those that are
  -- in the buffer, `recv_data` returns 0 and has added them in order, with the time of the last;
  -- else it writes past the end of the buffer.
  pub recv_data-chunks :
      (xs : List (List ℕ)) (c : Client)
      → k.receivings ≡ map received xs ++ (Receiving.blocked ∷ rest)
      → length c.recv_buf.bytes ≤ buffer_max
      → recv_data running now k c ≡ outcome rest k c (c.recv_buf.bytes ++ join xs) (stamp now xs c)
  unfolding recv_data
  recv_data-chunks xs c e fits =
      ap (λ l. recv_loop running now l k c) e ∙ recv_loop-chunks xs c fits
