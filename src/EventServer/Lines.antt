-- ===== src/EventServer/Lines.antt =====
-- labs/event-webserver/http_server.c, `request_to_struct`: how the text of a request is cut into lines.
use mathlib.Core.List.{append_assoc, append-nil}
use cs_360_internet_programm.Base.{
  ℕ, ◌<◌, ◌≡◌, refl, ap, ◌∙◌, arith, false, none, some, List, [], ◌∷◌, ◌++◌, length, All,
}
use cs_360_internet_programm.Base.Text.{after, split_at, split_tokens}
use cs_360_internet_programm.Base.Text.Laws.{split_tokens-line, split_tokens-last}
use cs_360_internet_programm.EventServer.Requests.{end_of_request, end_of_line}
use cs_360_internet_programm.EventServer.Messages.{lines_text}

-- A line that strtok returns whole.
pub record IsLine (l : List ℕ) : Type 0 where
  pub inside : All (λ c. end_of_line c ≡ false) l
  pub filled : 0 < length l

split_step :
    (c : ℕ) (s f r : List ℕ)
    → after end_of_request (c ∷ s) ≡ none
    → split_at end_of_request s ≡ some (f, r)
    → split_at end_of_request (c ∷ s) ≡ some (c ∷ f, r)
unfolding split_at
split_step c s f r n e = rw (n, split_at) (rw e refl)

-- Before a byte that does not begin an end of line.
split_plain :
    (c : ℕ) (s f r : List ℕ)
    → end_of_line c ≡ false
    → split_at end_of_request s ≡ some (f, r)
    → split_at end_of_request (c ∷ s) ≡ some (c ∷ f, r)
split_plain c s f r h e = split_step c s f r no e
  where
    no : after end_of_request (c ∷ s) ≡ none
    no = unfold after in ground (arith, h)

split_line :
    (l s f r : List ℕ)
    → All (λ c. end_of_line c ≡ false) l
    → split_at end_of_request s ≡ some (f, r)
    → split_at end_of_request (l ++ s) ≡ some (l ++ f, r)
split_line [] s f r h e = e
split_line (c ∷ l) s f r h e = split_plain c (l ++ s) (l ++ f) r h.0 (split_line l s f r h.1 e)

-- Behind a line that is followed by another.
split_crlf :
    (c : ℕ) (s f r : List ℕ)
    → end_of_line c ≡ false
    → split_at end_of_request (c ∷ s) ≡ some (f, r)
    → split_at end_of_request (13 ∷ 10 ∷ c ∷ s) ≡ some (13 ∷ 10 ∷ f, r)
split_crlf c s f r h e = split_step 13 (10 ∷ c ∷ s) (10 ∷ f) r no (split_step 10 (c ∷ s) f r no' e)
  where
    no : after end_of_request (13 ∷ 10 ∷ c ∷ s) ≡ none
    no = unfold after in ground (arith, h)

    no' : after end_of_request (10 ∷ c ∷ s) ≡ none
    no' = unfold after in refl

lines_text-cons :
    (c : ℕ) (k : List ℕ) (ls : List (List ℕ)) → lines_text (c ∷ k) ls ≡ c ∷ lines_text k ls
lines_text-cons c k [] = refl
lines_text-cons c k (l ∷ ls) = refl

pub split_lines :
    (l : List ℕ) (ls : List (List ℕ)) (rest : List ℕ)
    → IsLine l
    → All IsLine ls
    → split_at end_of_request (lines_text l ls ++ (end_of_request ++ rest))
      ≡ some (lines_text l ls, rest)
split_lines l [] rest h hs =
    split_line l (end_of_request ++ rest) [] rest h.inside (unfold split_at after in refl)
    ∙ ap (λ t. some (t, rest)) (append-nil l)
split_lines l ([] ∷ ls) rest h hs = elim hs.0.filled [ ]
split_lines l ((c ∷ k) ∷ ls) rest h hs =
    rw
      (
        append_assoc l (13 ∷ 10 ∷ lines_text (c ∷ k) ls) (end_of_request ++ rest),
        lines_text-cons c k ls,
      )
      (split_line l _ _ rest h.inside (
        split_crlf c (lines_text k ls ++ (end_of_request ++ rest)) (c ∷ lines_text k ls) rest
          hs.0.inside.0 (rw (lines_text-cons c k ls) at (split_lines (c ∷ k) ls rest hs.0 hs.1))))

-- strtok takes the lines apart again.
pub tokens_lines :
    (l : List ℕ) (ls : List (List ℕ))
    → IsLine l
    → All IsLine ls
    → split_tokens end_of_line [] (lines_text l ls) ≡ l ∷ ls
tokens_lines l [] h hs = split_tokens-last end_of_line l h.inside h.filled
tokens_lines l (k ∷ ls) h hs =
    split_tokens-line end_of_line l (lines_text k ls) 13 10 h.inside h.filled refl refl
    ∙ ap (◌∷◌ l) (tokens_lines k ls hs.0 hs.1)

-- Also with the end of the request behind them.
pub tokens_ended :
    (l : List ℕ) (ls : List (List ℕ))
    → IsLine l
    → All IsLine ls
    → split_tokens end_of_line [] (lines_text l ls ++ end_of_request) ≡ l ∷ ls
unfolding split_tokens
tokens_ended l [] h hs =
    split_tokens-line end_of_line l (13 ∷ 10 ∷ []) 13 10 h.inside h.filled refl refl
tokens_ended l (k ∷ ls) h hs =
    ap (split_tokens end_of_line []) (append_assoc l (13 ∷ 10 ∷ lines_text k ls) end_of_request)
    ∙ split_tokens-line end_of_line l (lines_text k ls ++ end_of_request) 13 10 h.inside h.filled
        refl refl
    ∙ ap (◌∷◌ l) (tokens_ended k ls hs.0 hs.1)
