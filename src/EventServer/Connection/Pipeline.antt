-- ===== src/EventServer/Connection/Pipeline.antt =====
-- labs/event-webserver/http_server.c, `send_responses`: the responses to several requests.
use mathlib.Core.Path.{subst, ap₂}
use cs_360_internet_programm.Base.{
  ℕ, ◌+◌, ◌≤◌, ◌<◌, ◌⊎◌, arith, length, length-append, ◌≡◌, refl, sym, ap, ◌∙◌, inl, inr, true,
  List, ◌++◌, drop,
}
use cs_360_internet_programm.EventServer.{sending_headers, sending_body}
use cs_360_internet_programm.EventServer.Bodies.{Serving, build_ok_body-served}
use cs_360_internet_programm.EventServer.Connection.{
  send_body, send_header, send_in, send_responses,
}
use cs_360_internet_programm.EventServer.Responses.{Opened, clear_send}
use cs_360_internet_programm.EventServer.Transfer.{Client, Sending, Socket, Done, unsent}
use cs_360_internet_programm.EventServer.Transfer.Delivery.{
  Blocks, Takes, Unbroken, Delivered, send_data-Delivered, send_data-grows,
}
use cs_360_internet_programm.EventServer.Connection.Promise.{
  stage, weight, responses, Queued, Pending, in_header, in_body, Progress, Queued-Current,
  build_body_good,
}
use cs_360_internet_programm.EventServer.Connection.Following.{
  Queued-Delivered, Progresses, next_request-Progress, stopped-Progress, sent_all,
}

module _ (open_file : List ℕ → Opened) (format_date : ℕ → List ℕ) (now : ℕ) where
  -- The bytes that are left after a call of `send_data` are no more than before.
  unsent-le :
      (k : Socket) (c : Client) (d : Done)
      → Delivered k c d
      → length d.socket.sent + length (unsent d.client) ≡ length k.sent + length (unsent c)
  unsent-le k c d r = omega (
    arith,
    ap length r.in_order,
    length-append d.socket.sent (unsent d.client),
    length-append k.sent (unsent c),
  )

  send_body-Progress :
      (answers : List Sending) (bound : ℕ) (before : List Serving) (s : Serving)
      (later : List Serving) (k : Socket) (c : Client)
      → Blocks k.sendings
      → c.state ≡ sending_body
      → Queued open_file format_date now before s later c
      → (weight later c (unsent c ++ responses open_file format_date now later) < bound)
        ⊎ ((answers ≡ k.sendings)
            × (weight later c (unsent c ++ responses open_file format_date now later) ≤ bound))
      → (Unbroken answers → Unbroken k.sendings)
      → Progresses open_file format_date now answers bound
          (k.sent ++ (unsent c ++ responses open_file format_date now later))
          (send_body open_file format_date true now k c)
  unfolding send_body
  send_body-Progress answers bound before s later k c b st q light sound =
      let (d, e, r) = send_data-Delivered k c b in
      let tail : List ℕ = responses open_file format_date now later in
      let size = length-append (unsent c) tail in
      let at_body : stage c.state ≡ 1 = ap stage st in
      let le : weight later c (unsent c ++ tail) ≤ bound = elim light [
        | inl lt ↦ omega (arith, lt)
        | inr both ↦ both.1
      ] in
      elim r.results [
        | inl z ↦
            (let (d', e', p) =
                next_request-Progress open_file format_date now answers bound before s later
                  d.socket d.client
                  (Queued-Delivered open_file format_date now before s later k c d r q)
                  (omega (arith, le, size, at_body)) in
              (
                d',
                rw e (rw z e'),
                subst (λ t. Progress open_file format_date now answers bound t d')
                    (sent_all open_file format_date now k c d
                      (responses open_file format_date now later) r z)
                    p,
              ))
        | inr o ↦ (
          record d { result = 1 },
          rw e (rw o refl),
          stopped-Progress open_file format_date now answers bound before s later
              (responses open_file format_date now later) k c d q r
              (λ same. in_body (same ∙ st) refl)
              (λ t. elim light [
                | inl lt ↦ omega (arith, lt, size, unsent-le k c d r, r.grows)
                | inr both ↦
                    (let more_sent = send_data-grows k c d (subst Takes both.0 t) e o in
                      omega (arith, both.1, size, unsent-le k c d r, more_sent))
              ])
              (λ u. (r.kept (sound u)).0) (λ gone. absurd (cc (st, gone))),
        )
      ]

  send_header-Progress :
      (bound : ℕ) (before : List Serving) (s : Serving) (later : List Serving) (k : Socket)
      (c : Client)
      → Blocks k.sendings
      → c.state ≡ sending_headers
      → Queued open_file format_date now before s later c
      → weight later c (unsent c ++ (s.contents ++ responses open_file format_date now later))
        ≡ bound
      → Progresses open_file format_date now k.sendings bound
          (k.sent ++ (unsent c ++ (s.contents ++ responses open_file format_date now later)))
          (send_header open_file format_date true now k c)
  unfolding send_header
  send_header-Progress bound before s later k c b st q light =
      let (d, e, r) = send_data-Delivered k c b in
      let answers : List Sending = k.sendings in
      let tail : List ℕ = responses open_file format_date now later in
      let size = length-append (unsent c) (s.contents ++ tail) in
      let at_header : stage c.state ≡ 2 = ap stage st in
      elim r.results [
        | inl z ↦
            (let emptied : Client = clear_send d.client in
              let q' : Queued open_file format_date now before s later d.client =
                Queued-Delivered open_file format_date now before s later k c d r q in
              let (body, made, h) =
                build_ok_body-served open_file format_date now s emptied q.served
                  (Queued-Current open_file format_date now before s later d.client q') in
              let c' : Client = record emptied {
                send_buf = body;
                last_active = now;
                state = sending_body;
              } in
              let (d', e', p) =
                send_body-Progress answers bound before s later d.socket c' (r.still z b) refl
                  (record {
                    requests = q'.requests;
                    current = q'.current;
                    good = q'.good;
                    served = q'.served;
                    rest = q'.rest;
                  })
                  (inl (
                    omega (
                      arith,
                      light,
                      size,
                      at_header,
                      ap (λ u. length (u ++ tail)) (ap₂ drop h.position h.bytes),
                    )))
                  (λ u. (r.kept u).1) in
              let whole : d.socket.sent ++ (unsent c' ++ responses open_file format_date now later)
                  ≡ k.sent
                    ++ (unsent c ++ (s.contents ++ responses open_file format_date now later)) =
                ap (λ u. d.socket.sent ++ (u ++ responses open_file format_date now later))
                  (ap₂ drop h.position h.bytes)
                ∙ sent_all open_file format_date now k c d
                    (s.contents ++ responses open_file format_date now later) r z in
              (
                d',
                rw e (
                    rw z (
                      rw (build_body_good open_file format_date now emptied q'.good) (rw made e'))),
                subst (λ t. Progress open_file format_date now answers bound t d') whole p,
              ))
        | inr o ↦ (
          record d { result = 1 },
          rw e (rw o refl),
          stopped-Progress open_file format_date now answers bound before s later
              (s.contents ++ responses open_file format_date now later) k c d q r
              (λ same. in_header (same ∙ st) refl)
              (λ t.
                let more_sent = send_data-grows k c d t e o in
                omega (arith, light, size, unsent-le k c d r, more_sent))
              (λ u. (r.kept u).0) (λ gone. absurd (cc (st, gone))),
        )
      ]

  -- A call of `send_responses` while the response to a request is sent: what is on the wire is what was
  -- there, followed by a front of what was to be sent.
  pub send_responses-Progress :
      (before : List Serving) (s : Serving) (later : List Serving) (p : List ℕ) (k : Socket)
      (c : Client)
      → Blocks k.sendings
      → Queued open_file format_date now before s later c
      → Pending open_file format_date now s later c p
      → Progresses open_file format_date now k.sendings
          (weight later c p)
          (k.sent ++ p)
          (send_responses open_file format_date true now k c)
  unfolding send_responses send_in
  send_responses-Progress before s later p k c b q (in_header st e) =
      let (d, f, made) =
        send_header-Progress (weight later c p) before s later k c b st q
          (ap (weight later c) (sym e)) in
      (
        d,
        ap (λ state. send_in open_file format_date true now state k c) st ∙ f,
        subst
            (λ u. Progress open_file format_date now k.sendings (weight later c p) (k.sent ++ u) d)
            (sym e) made,
      )
  send_responses-Progress before s later p k c b q (in_body st e) =
      let (d, f, made) =
        send_body-Progress k.sendings (weight later c p) before s later k c b st q
          (inr (refl, omega (arith, ap (weight later c) (sym e)))) (λ u. u) in
      (
        d,
        ap (λ state. send_in open_file format_date true now state k c) st ∙ f,
        subst
            (λ u. Progress open_file format_date now k.sendings (weight later c p) (k.sent ++ u) d)
            (sym e) made,
      )
