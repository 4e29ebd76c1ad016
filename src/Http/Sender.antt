-- ===== src/Http/Sender.antt =====
-- src/client/color_http_client.h and color_http_client.cc: the client core over a transport. The
-- transport is the list of the results that its POSTs will have, in order; a POST that finds the
-- list empty never returns. The waits between attempts are left out.
use color.Prelude.{
  ℕ, zero, suc, ◌+◌, Bool, true, false, ◌&&◌, Option, none, some, List, [], ◌∷◌, ◌++◌, ◌==◌,
  if◌then◌else◌, length,
}
use color.Text.{Bytes, codes, to_string, strtoull, bytes_eq}
use color.Core.Message.{Seq, Request, Response, default_response}
use color.Core.Client.{Client, new_client, generate_request, on_response, build_replay}
use color.Wire.Serialize.{replay_json}
use color.Http.Headers.{header_lines}

pub record HttpResult : Type 0 where
  pub delivered : Bool
  pub status : ℕ
  pub headers : List (Bytes × Bytes)
  pub body : Bytes

pub record Post : Type 0 where
  pub lines : List Bytes
  pub content : Bytes

pub record HttpClient : Type 0 where
  pub core : Client
  -- the results of the POSTs to come, and the POSTs made
  pub results : List HttpResult
  pub posts : List Post
  -- the calls of `on_attempt_` (seq, delivered, attempt) and of `on_recover_`
  pub attempts : List (Seq × Bool × ℕ)
  pub recoveries : List (ℕ × ℕ)

-- The constructor; `deliver` says whether `on_deliver` is a function.
unfoldable pub new_http_client : Bool → Bool → List HttpResult → HttpClient
new_http_client deliver set_hash results = record {
  core = new_client deliver false set_hash;
  results = results;
  posts = [];
  attempts = [];
  recoveries = [];
}

-- `on_hash_mismatch`, called with a function.
unfoldable pub http_on_hash_mismatch : HttpClient → HttpClient
http_on_hash_mismatch c = record c { core = record c.core { on_mismatch = true } }

-- `res.headers.find(key)`
unfoldable pub find_header : Bytes → List (Bytes × Bytes) → Option Bytes
find_header key [] = none
find_header key ((name, value) ∷ headers) =
    let rest = find_header key headers in if bytes_eq name key then some value else rest

-- `strchr(v, '=')`, one further
unfoldable pub after_equals : Bytes → Option Bytes
after_equals [] = none
after_equals (c ∷ s) = let rest = after_equals s in if c == b'=' then some s else rest

-- `strtoull(eq ? eq + 1 : v)`
unfoldable pub recover_position : Bytes → ℕ
recover_position v = elim (after_equals v) [ none ↦ strtoull v | some s ↦ strtoull s ]

-- `res.delivered && res.status == 503`, and the header that asks for a replay.
unfoldable pub recover_header : HttpResult → Option Bytes
recover_header res =
    if res.delivered && res.status == 503
    then find_header (codes "color-recover") res.headers
    else none

-- The response that a delivered result stands for.
unfoldable pub response_of : Seq → HttpResult → Response
response_of seq res = record default_response {
  seq = elim (find_header (codes "color-seq") res.headers) [ none ↦ seq | some v ↦ strtoull v ];
  hash = elim (find_header (codes "color-hash") res.headers) [
    | none ↦ none
    | some v ↦ some (strtoull v)
  ];
  no_op = elim (find_header (codes "color-no-op") res.headers) [ none ↦ false | some v ↦ true ];
  payload = res.body;
}

-- The loop of `recover`, over the results to come: what is left of them, and the POSTs made. `none`
-- when they do not suffice.
unfoldable pub replay_loop :
    Post → List HttpResult → List Post → Option (List HttpResult × List Post)
replay_loop post [] posts = none
replay_loop post (res ∷ results) posts =
    let again = replay_loop post results (posts ++ post ∷ []) in
    if res.delivered && res.status == 200 then some (results, posts ++ post ∷ []) else again

-- `ColorHttpClient::recover`
unfoldable pub recover : HttpClient → ℕ → Option HttpClient
recover c from =
    let rp = build_replay c.core from in
    let post : Post = record {
      lines =
          (codes "Color-Replay: " ++ to_string from) ∷ codes "Content-Type: application/json" ∷ [];
      content = replay_json rp;
    } in
    elim (replay_loop post c.results c.posts) [
      | none ↦ none
      | some (results, posts) ↦ some (record c {
        results = results;
        posts = posts;
        recoveries = c.recoveries ++ (from, length rp.events) ∷ [];
      })
    ]

-- One POST of the loop of `send`, with the result that it has.
unfoldable pub posted : HttpClient → Post → List HttpResult → HttpClient
posted c post results = record c { results = results; posts = c.posts ++ post ∷ [] }

-- `on_attempt_({req.seq, inj, res.delivered, attempt})`
unfoldable pub attempted : HttpClient → Seq → HttpResult → ℕ → HttpClient
attempted c seq res attempt = record c {
  attempts = c.attempts ++ (seq, res.delivered, attempt) ∷ [];
}

-- How a round of the loop of `send` ends: with another one, with `return`, or in a POST that never
-- returns.
pub data Round : Type 0 where
  again finished : HttpClient → Round
  unanswered : Round

-- `if (res.delivered) { …; return; }`, or the next attempt.
unfoldable pub delivered_round : Bool → Request → HttpClient → HttpResult → Round
delivered_round true req c res =
    finished (record c { core = (on_response c.core (response_of req.seq res)).0 })
delivered_round false req c res = again c

recovered_round : Option HttpClient → Round
recovered_round none = unanswered
recovered_round (some c) = again c

-- What follows the POST: a replay if the server asks for one, and the report and the reply if not.
unfoldable pub header_round : Option Bytes → Request → HttpClient → HttpResult → ℕ → Round
unfolding recovered_round
header_round (some v) req c res attempt = recovered_round (recover c (recover_position v))
header_round none req c res attempt =
    delivered_round res.delivered req (attempted c req.seq res attempt) res

unfoldable pub round : List HttpResult → Request → Post → HttpClient → ℕ → Round
round [] req post c attempt = unanswered
round (res ∷ results) req post c attempt =
    header_round (recover_header res) req (posted c post results) res attempt

-- `for (int attempt = 1;; ++attempt)`; each round takes a result off, so that there are no more
-- rounds than results.
unfoldable pub send_loop : ℕ → Request → Post → HttpClient → ℕ → Option HttpClient
send_loop zero req post c attempt = none
send_loop (suc fuel) req post c attempt = elim (round c.results req post c attempt) [
  | again c' ↦ send_loop fuel req post c' (attempt + 1)
  | finished c' ↦ some c'
  | unanswered ↦ none
]

-- `ColorHttpClient::send`
unfoldable pub send : HttpClient → Bytes → Option HttpClient
send c payload =
    let (core, req) = generate_request c.core payload in
    let post : Post = record { lines = header_lines req; content = req.payload } in
    send_loop (suc (length c.results)) req post (record c { core = core }) 1
