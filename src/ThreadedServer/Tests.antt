-- ===== src/ThreadedServer/Tests.antt =====
-- labs/threaded-webserver/http_server.c, `handle_client`: requests that arrive whole and in pieces.
use cs_360_internet_programm.Base.{
  ℕ, zero, suc, ◌≡◌, ◌≢◌, refl, arith, Bool, true, false, List, [], ◌∷◌, ◌++◌, length, replicate,
  length-replicate, All,
}
use cs_360_internet_programm.Base.Run.{ok, ◌>>=◌}
use cs_360_internet_programm.Base.Text.{codes, split_at, decimal}
use cs_360_internet_programm.EventServer.{RequestLine}
use cs_360_internet_programm.EventServer.Messages.{Message, get, render, to_request}
use cs_360_internet_programm.EventServer.Requests.{
  filetype_of, get_filename_ext, page_of, end_of_request,
}
use cs_360_internet_programm.EventServer.Responses.{Opened, opened, set_header}
use cs_360_internet_programm.EventServer.Bodies.{Serving}
use cs_360_internet_programm.EventServer.Connection.Promise.{responses}
use cs_360_internet_programm.EventServer.Transfer.{Receiving, received, take}
use cs_360_internet_programm.ThreadedServer.{buffer_max}
use cs_360_internet_programm.ThreadedServer.Client.{answer, client_loop, handle_client}
use cs_360_internet_programm.ThreadedServer.Client.Pieces.{client_loop_cut}
use cs_360_internet_programm.ThreadedServer.Client.Served.{
  Fits, Ready, one_by_one, handle_client-served,
}

abbrev has_no_zero : List ℕ → Bool
has_no_zero [] = true
has_no_zero (zero ∷ bs) = false
has_no_zero (suc b ∷ bs) = has_no_zero bs

has_no_zero-All : (bs : List ℕ) → has_no_zero bs ≡ true → All (λ b. b ≢ 0) bs
has_no_zero-All [] h = tt
has_no_zero-All (zero ∷ bs) h = absurd (cc)
has_no_zero-All (suc b ∷ bs) h = ((λ e. omega (arith, e)), has_no_zero-All bs h)

abbrev picture : Message
picture = record { method = get; uri = codes "/a.png"; host = codes "me"; headers = [] }

picture-Fits : Fits picture
picture-Fits = record {
  message = record {
    uri_word = record {
      plain = (refl, (refl, (refl, (refl, (refl, (refl, tt))))));
      filled = omega arith;
    };
    host_word = record { plain = (refl, (refl, tt)); filled = omega arith };
    each = tt;
    few = omega arith;
  };
  plain = has_no_zero-All (render picture) refl;
  short = omega arith;
}

abbrev picture_line : RequestLine
picture_line = record {
  method = codes "GET";
  uri = codes "/a.png";
  filetype = filetype_of (get_filename_ext (page_of (codes "/a.png")));
  version = codes "HTTP/1.1";
}

abbrev picture_file : Serving
picture_file = record {
  request = to_request picture;
  line = picture_line;
  contents = 137 ∷ 80 ∷ [];
  changed = 3;
}

abbrev open_picture : List ℕ → Opened
open_picture path = opened (137 ∷ 80 ∷ []) 3

abbrev short_date : ℕ → List ℕ
short_date time = codes "now"

abbrev send_all : List ℕ → List ℕ
send_all xs = xs

picture_file-Ready : Ready open_picture short_date send_all 7 (λ xs. refl) picture_file
unfolding filetype_of get_filename_ext set_header decimal
picture_file-Ready = (record { has_line = refl; readable = refl; small = omega arith }, omega arith)

handle_client-served_example :
    handle_client open_picture short_date send_all 7 true true
      (replicate buffer_max 255)
      (one_by_one open_picture short_date send_all 7 (λ xs. refl) (picture ∷ picture ∷ []))
    ≡ ok (record {
      sent = responses open_picture short_date 7 (picture_file ∷ picture_file ∷ []);
      closed = false;
    })
handle_client-served_example =
    handle_client-served open_picture short_date send_all 7 (λ xs. refl) true
      (picture ∷ picture ∷ []) (picture_file ∷ picture_file ∷ []) (replicate buffer_max 255)
      (picture-Fits, (picture-Fits, tt)) (picture_file-Ready, (picture_file-Ready, tt)) refl
      (length-replicate {A = ℕ} buffer_max 255)

-- The first and the second piece of a request.
abbrev first_piece : List ℕ
first_piece = codes "GET / HTTP/1.1" ++ (13 ∷ 10 ∷ codes "Host:")

abbrev second_piece : List ℕ
second_piece = codes " me" ++ end_of_request

client_loop_cut_example :
    client_loop open_picture short_date send_all 7 true
      (received first_piece ∷ received second_piece ∷ Receiving.closed ∷ [])
      (replicate 64 0)
      0
      []
    ≡ (answer open_picture short_date send_all 7
          (take (length second_piece) (first_piece ++ second_piece))
        >>= λ response.
            client_loop open_picture short_date send_all 7 true
              (Receiving.closed ∷ [])
              (replicate buffer_max 0)
              0
              ([] ++ response))
unfolding split_at
client_loop_cut_example =
    client_loop_cut open_picture short_date send_all 7 true (Receiving.closed ∷ []) [] first_piece
      second_piece (codes "GET / HTTP/1.1" ++ (13 ∷ 10 ∷ codes "Host: me")) [] 64
      (has_no_zero-All (first_piece ++ second_piece) refl) refl refl (omega arith)
