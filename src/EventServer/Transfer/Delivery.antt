-- ===== src/EventServer/Transfer/Delivery.antt =====
-- labs/event-webserver/http_server.c, `send_data`: no byte is lost, repeated or moved.
use mathlib.Core.List.{append_assoc}
use cs_360_internet_programm.Base.{
  ℕ, zero, suc, ◌≤◌, ◌≡◌, ◌≢◌, refl, sym, ap, ◌∙◌, arith, ◌⊎◌, inl, inr, true, List, [], ◌∷◌, ◌++◌,
  length, ◌==◌, drop, drop-drop, Bool-cases, ◌<◌, length-append, length-drop,
}
use cs_360_internet_programm.Base.Run.{ok, out_of_fuel, ok-inj}
use cs_360_internet_programm.EventServer.{disconnected}
use cs_360_internet_programm.EventServer.Transfer.{
  Client, Sending, took, blocked, interrupted, broken, Socket, Done, take, bytes_left, advance,
  unsent, send_loop, send_data,
}

-- Some answer is that the socket would block.
abbrev pub Blocks : List Sending → Type 0
Blocks [] = ⊥
Blocks (blocked ∷ as') = Unit
Blocks (took n ∷ as') = Blocks as'
Blocks (interrupted ∷ as') = Blocks as'
Blocks (broken ∷ as') = Blocks as'

-- No answer is an error.
abbrev pub Unbroken : List Sending → Type 0
Unbroken [] = Unit
Unbroken (broken ∷ as') = ⊥
Unbroken (took n ∷ as') = Unbroken as'
Unbroken (interrupted ∷ as') = Unbroken as'
Unbroken (blocked ∷ as') = Unbroken as'

-- The first answer is that some bytes were taken.
abbrev pub Takes : List Sending → Type 0
Takes (took (suc n) ∷ as') = Unit
Takes _ = ⊥

-- What `send_data` has done where it returns.
pub record Delivered (k : Socket) (c : Client) (d : Done) : Type 0 where
  -- The bytes that were sent, followed by those that were not, are what they were.
  pub in_order : d.socket.sent ++ unsent d.client ≡ k.sent ++ unsent c
  pub finished : d.result ≡ 0 → unsent d.client ≡ []
  pub still : d.result ≡ 0 → Blocks k.sendings → Blocks d.socket.sendings
  pub stays : d.result ≡ 0 → d.client.state ≡ c.state
  pub states : (d.client.state ≡ c.state) ⊎ (d.client.state ≡ disconnected)
  pub results : (d.result ≡ 0) ⊎ (d.result ≡ 1)
  pub grows : length k.sent ≤ length d.socket.sent
  pub kept : Unbroken k.sendings → (d.client.state ≡ c.state) × Unbroken d.socket.sendings
  -- Nothing else of the client changes.
  pub only : d.client ≡ record c {
    state = d.client.state;
    send_buf = record c.send_buf { position = d.client.send_buf.position };
  }

pub take-drop : (n : ℕ) (xs : List ℕ) → take n xs ++ drop n xs ≡ xs
take-drop zero xs = refl
take-drop (suc n) [] = refl
take-drop (suc n) (x ∷ xs) = ap (◌∷◌ x) (take-drop n xs)

drop_all : (xs : List ℕ) (n : ℕ) → length xs ≤ n → drop n xs ≡ []
drop_all [] zero h = refl
drop_all [] (suc n) h = refl
drop_all (x ∷ xs) zero h = absurd (omega (arith, h))
drop_all (x ∷ xs) (suc n) h = drop_all xs n (omega (arith, h))

-- With nothing left, the loop ends and changes nothing.
Delivered-done :
    (k : Socket) (c : Client) (as' : List Sending)
    → (bytes_left c == 0) ≡ true
    → Delivered
        (record k { sendings = as' })
        c
        (record { result = 0; socket = record k { sendings = as' }; client = c })
Delivered-done k c as' t = record {
  in_order = refl;
  finished = λ e. drop_all c.send_buf.bytes c.send_buf.position (ground (arith, t));
  still = λ e b. b;
  stays = λ e. refl;
  states = inl refl;
  results = inl refl;
  grows = omega arith;
  kept = λ u. (refl, u);
  only = refl;
}

-- A call of `send` moves the front of what was not sent to what was sent.
Delivered-took :
    (n : ℕ) (as' : List Sending) (sent : List ℕ) (k : Socket) (c : Client) (d : Done)
    → Delivered (record k { sendings = as'; sent = sent ++ take n (unsent c) }) (advance n c) d
    → Delivered (record k { sendings = took n ∷ as'; sent = sent }) c d
Delivered-took n as' sent k c d r = record {
  in_order = r.in_order ∙ moved;
  finished = r.finished;
  still = r.still;
  stays = r.stays;
  states = r.states;
  results = r.results;
  grows = omega (arith, r.grows, length-append sent (take n (unsent c)));
  kept = r.kept;
  only = r.only;
}
  where
    moved : (sent ++ take n (unsent c)) ++ unsent (advance n c) ≡ sent ++ unsent c
    moved =
        append_assoc sent (take n (unsent c)) (unsent (advance n c))
        ∙ ap (λ b. sent ++ (take n (unsent c) ++ b))
            (sym (drop-drop c.send_buf.position n c.send_buf.bytes))
        ∙ ap (λ b. sent ++ b) (take-drop n (unsent c))

Delivered-again :
    (as' : List Sending) (sent : List ℕ) (k : Socket) (c : Client) (d : Done)
    → Delivered (record k { sendings = as'; sent = sent }) c d
    → Delivered (record k { sendings = interrupted ∷ as'; sent = sent }) c d
Delivered-again as' sent k c d r = record {
  in_order = r.in_order;
  finished = r.finished;
  still = r.still;
  stays = r.stays;
  states = r.states;
  results = r.results;
  grows = r.grows;
  kept = r.kept;
  only = r.only;
}

abbrev Ends : List Sending → List ℕ → Socket → Client → Type 0
Ends as' sent k c =
    (send_loop true as' sent k c ≡ out_of_fuel)
    ⊎ ((d : Done) × (send_loop true as' sent k c ≡ ok d)
        × Delivered (record k { sendings = as'; sent = sent }) c d)

Ends-done :
    (a : Sending) (as' : List Sending) (sent : List ℕ) (k : Socket) (c : Client)
    → (bytes_left c == 0) ≡ true
    → Ends (a ∷ as') sent k c
unfolding send_loop
Ends-done a as' sent k c t = inr (
  record { result = 0; socket = record k { sendings = a ∷ as'; sent = sent }; client = c },
  rw (t, send_loop) refl,
  Delivered-done (record k { sent = sent }) c (a ∷ as') t,
)

send_loop-Delivered :
    (as' : List Sending) (sent : List ℕ) (k : Socket) (c : Client) → Ends as' sent k c
unfolding send_loop
send_loop-Delivered [] sent k c = elim (Bool-cases (bytes_left c == 0)) [
  | inl t ↦ inr (
    record { result = 0; socket = record k { sendings = []; sent = sent }; client = c },
    rw (t, send_loop) refl,
    Delivered-done (record k { sent = sent }) c [] t,
  )
  | inr f ↦ inl (rw (f, send_loop) refl)
]
send_loop-Delivered (took n ∷ as') sent k c = elim (Bool-cases (bytes_left c == 0)) [
  | inl t ↦ Ends-done (took n) as' sent k c t
  | inr f ↦ elim (send_loop-Delivered as' (sent ++ take n (unsent c)) k (advance n c)) [
    | inl e ↦ inl (rw (f, send_loop) e)
    | inr (d, e, r) ↦ inr (d, rw (f, send_loop) e, Delivered-took n as' sent k c d r)
  ]
]
send_loop-Delivered (interrupted ∷ as') sent k c = elim (Bool-cases (bytes_left c == 0)) [
  | inl t ↦ Ends-done interrupted as' sent k c t
  | inr f ↦ elim (send_loop-Delivered as' sent k c) [
    | inl e ↦ inl (rw (f, send_loop) e)
    | inr (d, e, r) ↦ inr (d, rw (f, send_loop) e, Delivered-again as' sent k c d r)
  ]
]
send_loop-Delivered (blocked ∷ as') sent k c = elim (Bool-cases (bytes_left c == 0)) [
  | inl t ↦ Ends-done blocked as' sent k c t
  | inr f ↦ inr (
    record { result = 1; socket = record k { sendings = as'; sent = sent }; client = c },
    rw (f, send_loop) refl,
    record {
      in_order = refl;
      finished = λ e. absurd (omega (arith, e));
      still = λ e. absurd (omega (arith, e));
      stays = λ e. refl;
      states = inl refl;
      results = inr refl;
      grows = omega arith;
      kept = λ u. (refl, u);
      only = refl;
    },
  )
]
send_loop-Delivered (broken ∷ as') sent k c = elim (Bool-cases (bytes_left c == 0)) [
  | inl t ↦ Ends-done broken as' sent k c t
  | inr f ↦ inr (
    record {
      result = 1;
      socket = record k { sendings = as'; sent = sent };
      client = record c { state = disconnected };
    },
    rw (f, send_loop) refl,
    record {
      in_order = refl;
      finished = λ e. absurd (omega (arith, e));
      still = λ e. absurd (omega (arith, e));
      stays = λ e. absurd (omega (arith, e));
      states = inr refl;
      results = inr refl;
      grows = omega arith;
      kept = λ u. absurd u;
      only = refl;
    },
  )
]

-- On a socket that would block after some answers, `send_data` returns.
send_loop-Blocks :
    (as' : List Sending) (sent : List ℕ) (k : Socket) (c : Client)
    → Blocks as'
    → send_loop true as' sent k c ≢ out_of_fuel
unfolding send_loop
send_loop-Blocks [] sent k c h = absurd h
send_loop-Blocks (took n ∷ as') sent k c h = elim (Bool-cases (bytes_left c == 0)) [
  | inl t ↦ rw (t, send_loop) (λ e. cc e)
  | inr f ↦ rw (f, send_loop) (send_loop-Blocks as' (sent ++ take n (unsent c)) k (advance n c) h)
]
send_loop-Blocks (interrupted ∷ as') sent k c h = elim (Bool-cases (bytes_left c == 0)) [
  | inl t ↦ rw (t, send_loop) (λ e. cc e)
  | inr f ↦ rw (f, send_loop) (send_loop-Blocks as' sent k c h)
]
send_loop-Blocks (blocked ∷ as') sent k c h = elim (Bool-cases (bytes_left c == 0)) [
  | inl t ↦ rw (t, send_loop) (λ e. cc e)
  | inr f ↦ rw (f, send_loop) (λ e. cc e)
]
send_loop-Blocks (broken ∷ as') sent k c h = elim (Bool-cases (bytes_left c == 0)) [
  | inl t ↦ rw (t, send_loop) (λ e. cc e)
  | inr f ↦ rw (f, send_loop) (λ e. cc e)
]

-- On a socket one of whose answers is that it would block, and with no order to stop, `send_data`
-- returns 0 or 1. The bytes that were sent, followed by those that were not, are what they were
-- before; 0 means that none is left and that the state stays; with 1 the client may be disconnected;
-- it keeps all but its state and the position in its send buffer.
pub send_data-Delivered :
    (k : Socket) (c : Client)
    → Blocks k.sendings
    → (d : Done) × (send_data true k c ≡ ok d) × Delivered k c d
unfolding send_data
send_data-Delivered k c h = elim (send_loop-Delivered k.sendings k.sent k c) [
  | inl e ↦ absurd (send_loop-Blocks k.sendings k.sent k c h e)
  | inr found ↦ found
]

take_some : (n : ℕ) (xs : List ℕ) → 0 < length xs → 0 < length (take (suc n) xs)
take_some n [] h = absurd (omega (arith, h))
take_some n (x ∷ xs) h = omega arith

send_loop-grows :
    (as' : List Sending) (sent : List ℕ) (k : Socket) (c : Client) (d : Done)
    → Takes as'
    → send_loop true as' sent k c ≡ ok d
    → d.result ≡ 1
    → length sent < length d.socket.sent
unfolding send_loop
send_loop-grows [] sent k c d t e one = absurd t
send_loop-grows (blocked ∷ as') sent k c d t e one = absurd t
send_loop-grows (interrupted ∷ as') sent k c d t e one = absurd t
send_loop-grows (broken ∷ as') sent k c d t e one = absurd t
send_loop-grows (took zero ∷ as') sent k c d t e one = absurd t
send_loop-grows (took (suc n) ∷ as') sent k c d t e one = elim (Bool-cases (bytes_left c == 0)) [
  | inl z ↦
      (let q : send_loop true (took (suc n) ∷ as') sent k c
            ≡ ok (record {
              result = 0;
              socket = record k { sendings = took (suc n) ∷ as'; sent = sent };
              client = c;
            }) =
          rw (z, send_loop) refl in
        let r = ap (λ x. x.result) (ok-inj (sym q ∙ e)) in absurd (omega (arith, r, one)))
  | inr f ↦
      (let q : send_loop true (took (suc n) ∷ as') sent k c
            ≡ send_loop true as' (sent ++ take (suc n) (unsent c)) k (advance (suc n) c) =
          rw (f, send_loop) refl in
        let filled : 0 < length (unsent c) =
          ground (arith, f, length-drop c.send_buf.position c.send_buf.bytes) in
        elim (send_loop-Delivered as' (sent ++ take (suc n) (unsent c)) k (advance (suc n) c)) [
          | inl none_left ↦ absurd (cc (q, e, none_left))
          | inr (d', e', r) ↦
              (let same = ap (λ x. length x.socket.sent) (ok-inj (sym e' ∙ sym q ∙ e)) in
                omega (
                  arith,
                  same,
                  r.grows,
                  length-append sent (take (suc n) (unsent c)),
                  take_some n (unsent c) filled,
                ))
        ])
]

-- If the first call of `send` takes a byte, and `send_data` returns 1, something was sent.
pub send_data-grows :
    (k : Socket) (c : Client) (d : Done)
    → Takes k.sendings
    → send_data true k c ≡ ok d
    → d.result ≡ 1
    → length k.sent < length d.socket.sent
unfolding send_data
send_data-grows k c d t e one = send_loop-grows k.sendings k.sent k c d t e one
