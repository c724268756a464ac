-- ===== src/ThreadedServer/Client/Pieces.antt =====
-- labs/threaded-webserver/http_server.c, `handle_client`: the array that requests are received in.
use mathlib.Core.List.{append_assoc, append-nil}
use cs_360_internet_programm.Base.{
  ℕ, zero, suc, ◌-◌, ◌≤◌, ◌<◌, ◌≡◌, ◌≢◌, refl, sym, ap, ◌∙◌, arith, inl, inr, Bool, true, false,
  none, some, List, [], ◌∷◌, ◌++◌, length, replicate, set, drop, ◌==◌, All, Bool-cases,
  length-append, length-drop, length-replicate, drop-replicate, lt→ltb,
}
use cs_360_internet_programm.Base.Run.{ok, ◌>>=◌}
use cs_360_internet_programm.Base.Bytes.{write_at, write_at-append}
use cs_360_internet_programm.Base.Text.{split_at}
use cs_360_internet_programm.EventServer.Requests.{end_of_request}
use cs_360_internet_programm.EventServer.Responses.{Opened}
use cs_360_internet_programm.EventServer.Transfer.{Receiving, received, take}
use cs_360_internet_programm.ThreadedServer.{buffer_max}
use cs_360_internet_programm.ThreadedServer.Client.{before_zero, has_end, answer, client_loop}

pub before_zero-append :
    (xs ys : List ℕ) → All (λ b. b ≢ 0) xs → before_zero (xs ++ ys) ≡ xs ++ before_zero ys
unfolding before_zero
before_zero-append [] ys h = refl
before_zero-append (x ∷ xs) ys h = elim (Bool-cases (x == 0)) [
  | inl t ↦ absurd (h.0 (ground (arith, t)))
  | inr f ↦ rw (f, before_zero) (ap (◌∷◌ x) (before_zero-append xs ys h.1))
]

-- A zero at a place that all before is not: what is left of a text that the array has in front.
pub before_zero-set :
    (n : ℕ) (xs : List ℕ)
    → All (λ b. b ≢ 0) (take n xs)
    → n < length xs
    → before_zero (set xs n 0) ≡ take n xs
unfolding before_zero
before_zero-set n [] h k = absurd (omega (arith, k))
before_zero-set zero (x ∷ xs) h k = refl
before_zero-set (suc n) (x ∷ xs) h k = elim (Bool-cases (x == 0)) [
  | inl t ↦ absurd (h.0 (ground (arith, t)))
  | inr f ↦ rw (f, before_zero) (ap (◌∷◌ x) (before_zero-set n xs h.1 (omega (arith, k))))
]

take-append : (xs ys : List ℕ) → take (length xs) (xs ++ ys) ≡ xs
take-append [] ys = refl
take-append (x ∷ xs) ys = ap (◌∷◌ x) (take-append xs ys)

-- An array with a text in front that has the end of a request.
pub has_end-found :
    (text rest : List ℕ) {front behind : List ℕ}
    → All (λ b. b ≢ 0) text
    → split_at end_of_request (text ++ before_zero rest) ≡ some (front, behind)
    → has_end (text ++ rest) ≡ ok true
unfolding has_end
has_end-found text rest h e = rw (before_zero-append text rest h, has_end) (rw e refl)

before_zero-zeros :
    (xs : List ℕ) (n : ℕ) → All (λ b. b ≢ 0) xs → 0 < n → before_zero (xs ++ replicate n 0) ≡ xs
unfolding before_zero
before_zero-zeros xs zero h p = absurd (omega (arith, p))
before_zero-zeros xs (suc n) h p = before_zero-append xs (replicate (suc n) 0) h ∙ append-nil xs

-- An array with a text in front that has no end of a request.
has_end-open :
    (text : List ℕ) (n : ℕ)
    → All (λ b. b ≢ 0) text
    → split_at end_of_request text ≡ none
    → 0 < n
    → has_end (text ++ replicate n 0) ≡ ok false
unfolding has_end
has_end-open text n h e p =
    rw (before_zero-zeros text n h p, has_end)
      (rw e (
        rw
          (lt→ltb (length (before_zero (text ++ replicate n 0))) (length (text ++ replicate n 0)) (
            omega (
              arith,
              p,
              ap length (before_zero-zeros text n h p),
              length-append text (replicate n 0),
              length-replicate {A = ℕ} n 0,
            )))
          refl))

take-front : (k : ℕ) (xs ys : List ℕ) → k ≤ length xs → take k (xs ++ ys) ≡ take k xs
take-front zero xs ys h = refl
take-front (suc k) [] ys h = absurd (omega (arith, h))
take-front (suc k) (x ∷ xs) ys h = ap (◌∷◌ x) (take-front k xs ys (omega (arith, h)))

All-take : (k : ℕ) (xs : List ℕ) → All (λ b. b ≢ 0) xs → All (λ b. b ≢ 0) (take k xs)
All-take zero xs h = tt
All-take (suc k) [] h = tt
All-take (suc k) (x ∷ xs) h = (h.0, All-take k xs h.1)

All-front : (xs ys : List ℕ) → All (λ b. b ≢ 0) (xs ++ ys) → All (λ b. b ≢ 0) xs
All-front [] ys h = tt
All-front (x ∷ xs) ys h = (h.0, All-front xs ys h.1)

client_loop-open :
    (open_file : List ℕ → Opened) (format_date : ℕ → List ℕ) (send : List ℕ → List ℕ) (now : ℕ)
    (running : Bool) (rs : List Receiving) (sent bs array array' : List ℕ) (n : ℕ)
    → write_at array n bs ≡ some array'
    → has_end array' ≡ ok false
    → client_loop open_file format_date send now running (received bs ∷ rs) array n sent
      ≡ client_loop open_file format_date send now running rs array' (length bs) sent
unfolding client_loop
client_loop-open open_file format_date send now running rs sent bs array array' n w e =
    rw (w, client_loop) (rw e refl)

module _ (open_file : List ℕ → Opened) (format_date : ℕ → List ℕ) (send : List ℕ → List ℕ) (now : ℕ)
    (running : Bool) (rs : List Receiving) (sent : List ℕ) where
  -- What is received behind `n` bytes completes a request.
  abbrev Answered : List ℕ → ℕ → List ℕ → List ℕ → Type 0
  Answered bs n array text =
      client_loop open_file format_date send now running (received bs ∷ rs) array n sent ≡ (
        answer open_file format_date send now text >>= λ response.
        client_loop open_file format_date send now running rs (replicate buffer_max 0) 0
          (sent ++ response))

  client_loop-ended :
      (bs array array' text : List ℕ) (n : ℕ)
      → write_at array n bs ≡ some array'
      → has_end array' ≡ ok true
      → before_zero (set array' (length bs) 0) ≡ text
      → Answered bs n array text
  unfolding client_loop
  client_loop-ended bs array array' text n w e t =
      rw (w, client_loop)
        (rw e (
          ap
            (λ t. answer open_file format_date send now t >>= λ response.
              client_loop open_file format_date send now running rs (replicate buffer_max 0) 0
                (sent ++ response))
            t))

  pub client_loop-whole :
      (text memory : List ℕ)
      → All (λ b. b ≢ 0) text
      → ((rest : List ℕ) → has_end (text ++ rest) ≡ ok true)
      → length text < length memory
      → Answered text 0 memory text
  client_loop-whole text memory h ended short =
      let rest : List ℕ = drop (length text) memory in
      client_loop-ended text memory (text ++ rest) text 0
        (write_at-append [] memory text (omega (arith, short))) (ended rest)
        (before_zero-set (length text) (text ++ rest) (rw (take-append text rest) h)
            (omega (arith, short, length-append text rest, length-drop (length text) memory))
          ∙ take-append text rest)

  -- A request that is received in two pieces, in an array that was cleared and has room for it, is
  -- answered by no more of it than the length of the second piece: a zero is written behind as many
  -- bytes.
  pub client_loop_cut :
      (a b front behind : List ℕ) (n : ℕ)
      → All (λ c. c ≢ 0) (a ++ b)
      → split_at end_of_request a ≡ none
      → split_at end_of_request (a ++ b) ≡ some (front, behind)
      → length (a ++ b) < n
      → client_loop open_file format_date send now running
          (received a ∷ received b ∷ rs)
          (replicate n 0)
          0
          sent
        ≡ (answer open_file format_date send now (take (length b) (a ++ b)) >>= λ response.
            client_loop open_file format_date send now running rs
              (replicate buffer_max 0)
              0
              (sent ++ response))
  client_loop_cut a b front behind n h open_a closed_ab short =
      let la = length-append a b in
      let left : ℕ = n - length a in
      let rest : List ℕ = replicate (left - length b) 0 in
      let first =
        write_at-append [] (replicate n 0) a
          (omega (arith, la, short, length-replicate {A = ℕ} n 0))
        ∙ ap (λ l. some (a ++ l)) (drop-replicate (length a) n 0) in
      let second =
        write_at-append a (replicate left 0) b
          (omega (arith, la, short, length-replicate {A = ℕ} left 0))
        ∙ ap (λ l. some (a ++ (b ++ l))) (drop-replicate (length b) left 0) in
      let assoc = append_assoc a b rest in
      client_loop-open open_file format_date send now running (received b ∷ rs) sent a
        (replicate n 0) (a ++ replicate left 0) 0 first
        (has_end-open a left (All-front a b h) open_a (omega (arith, la, short)))
      ∙ client_loop-ended b (a ++ replicate left 0) (a ++ (b ++ rest)) (take (length b) (a ++ b))
          (length a) second
          (ap has_end (sym assoc)
            ∙ has_end-found (a ++ b) rest h
                (ap (split_at end_of_request) (zeros rest_some) ∙ closed_ab))
          (ap (λ l. before_zero (set l (length b) 0)) (sym assoc)
            ∙ before_zero-set (length b) ((a ++ b) ++ rest)
                (rw (take-front (length b) (a ++ b) rest (omega (arith, la)))
                  (All-take (length b) (a ++ b) h))
                (omega (
                  arith,
                  la,
                  short,
                  length-append (a ++ b) rest,
                  length-replicate {A = ℕ} (left - length b) 0,
                ))
            ∙ take-front (length b) (a ++ b) rest (omega (arith, la)))
    where
      rest_some : 0 < n - length a - length b
      rest_some = omega (arith, length-append a b, short)

      zeros :
          0 < n - length a - length b
          → (a ++ b) ++ before_zero (replicate (n - length a - length b) 0) ≡ a ++ b
      zeros p =
          ap (λ l. (a ++ b) ++ l) (before_zero-zeros [] (n - length a - length b) tt p)
          ∙ append-nil (a ++ b)
