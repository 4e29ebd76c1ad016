-- ===== src/Tests/Http.antt =====
-- The HTTP theorems at concrete requests.
use color.Prelude.{ℕ, ◌+◌, ◌≡◌, refl, true, false, none, some, [], ◌∷◌, ◌++◌, ◌==◌, arith}
use color.Text.{codes, to_string}
use color.Core.Message.{Request, Response}
use color.Core.Server.Resume.{resumed_server, checkpoint}
use color.Wire.CheckpointTrip.{FitsCheckpoint}
use color.Dict.Counts.{IsMap, one_if}
use color.Http.Headers.{header_lines, header_of, parse}
use color.Http.Fields.{FitsRequest, parse-header_lines}
use color.Http.Interceptor.{
  HttpRequest, Interceptor, new_interceptor, intercept, write_checkpoint, Ending, refuse,
  load_checkpoint, is_empty,
}
use color.Http.Held.{accounts, intercept-accounts}
use color.Core.Client.{new_client, generate_request, on_response}
use color.Http.Sender.{find_header, HttpResult, HttpClient, send, response_of, recover_header}
use color.Dict.{contains}
use color.Http.Lines.{write_header, trim, to_lower, trim_back, trim_front, find_header-write_header}
use color.Http.Attempts.{Returned, send-drops}
use color.Http.Refusals.{CallsFor, refuse-recovers}
use color.Http.Restore.{new_interceptor-write_checkpoint}
use color.Tests.Runs.{numbering, running}

abbrev late : Request
late = record {
  seq = 12;
  ack_base = 10;
  ack_new = 11 ∷ 10 ∷ [];
  hash = some 77;
  payload = codes "hi";
}

late-FitsRequest : FitsRequest late
late-FitsRequest = record {
  seq = omega arith;
  ack_base = omega arith;
  ack_new = (omega arith, (omega arith, tt));
  hash = λ h e. (let same : 77 ≡ h = cc in omega arith);
}

parse-header_lines_example : parse (header_of (header_lines late)) late.payload ≡ late
parse-header_lines_example =
    parse-header_lines late (header_of (header_lines late)) (λ name. refl) late-FitsRequest

-- An interceptor that writes a checkpoint after every second commit.
abbrev behind_http : Interceptor ℕ
behind_http = new_interceptor numbering 0 true (codes "ckpt.json") 2 none

abbrev late_object : HttpRequest
late_object = record { object = 5; header = header_of (header_lines late); body = late.payload }

intercept-accounts_example :
    IsMap (intercept behind_http late_object).pending
    × (accounts 5 (intercept behind_http late_object) ≡ accounts 5 behind_http + one_if (◌==◌ 5 5))
unfolding new_interceptor
intercept-accounts_example = intercept-accounts 5 behind_http late_object tt

empty-FitsCheckpoint : FitsCheckpoint (checkpoint behind_http.core)
unfolding running new_interceptor load_checkpoint
empty-FitsCheckpoint = record {
  committed_upto = omega arith;
  event_count = omega arith;
  history_hash = omega arith;
  buffer = tt;
}

new_interceptor-write_checkpoint_example :
    let next =
      new_interceptor numbering 3 true (codes "ckpt.json") 2 (write_checkpoint behind_http).file in
    (next.restored ≡ true)
    × (next.core ≡ resumed_server (checkpoint behind_http.core) numbering 3 false true)
unfolding new_interceptor is_empty
new_interceptor-write_checkpoint_example =
    new_interceptor-write_checkpoint behind_http numbering 3 true 2 refl empty-FitsCheckpoint

refuse-recovers_example :
    (e : Ending) × ((refuse behind_http 12 5 13).endings ≡ behind_http.endings ++ e ∷ [])
    × CallsFor e 13
refuse-recovers_example = refuse-recovers behind_http 12 5 13 (omega arith)

abbrev dropped : HttpResult
dropped = record { delivered = false; status = 0; headers = []; body = [] }

abbrev accepted : HttpResult
accepted = record {
  delivered = true;
  status = 200;
  headers = (codes "color-seq", codes "1") ∷ [];
  body = codes "ok";
}

-- A client whose first POST is dropped.
abbrev waiting : HttpClient
waiting = record {
  core = new_client true true true;
  results = dropped ∷ accepted ∷ [];
  posts = [];
  attempts = [];
  recoveries = [];
}

send-drops_example :
    let (core, req) = generate_request waiting.core (codes "hi") in
    (c : HttpClient) × (send waiting (codes "hi") ≡ some c)
    × Returned waiting c
        (on_response core (response_of req.seq accepted)).0
        2
        (record { lines = header_lines req; content = req.payload })
        []
unfolding recover_header
send-drops_example =
    send-drops waiting (codes "hi") (dropped ∷ []) accepted [] refl (refl, tt) refl refl

find_header-write_header_example :
    find_header
      (codes "color-seq")
      (write_header (codes "Color-Seq" ++ b':' ∷ b' ' ∷ (to_string 13 ++ 0x0d ∷ 0x0a ∷ [])) [])
    ≡ some (to_string 13)
unfolding contains trim to_lower trim_back trim_front
find_header-write_header_example = find_header-write_header (codes "Color-Seq") 13 [] refl refl

abbrev reply : Response
reply = record {
  seq = 12;
  hash = some 77;
  payload = codes "ok";
  no_op = false;
  recover = false;
  recover_from = 0;
}
