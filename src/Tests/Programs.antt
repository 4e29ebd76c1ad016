-- ===== src/Tests/Programs.antt =====
-- The programs and the transport on toy parameters.
use color.Prelude.{
  ℕ, ◌+◌, ◌<◌, ◌≡◌, ◌≢◌, ◌⊎◌, ◌↔◌, refl, Bool, true, false, Option, some, [], ◌∷◌, ◌++◌, arith,
}
use color.Prelude.Ints.{pos, negsuc, inc_int, lt_int}
use color.Text.{codes, bytes_eq}
use color.Http.Curl.{Injected, drop_request, Curl, CurlTransport, post, ending, post-delivered}
use color.Programs.Args.{Conversions, parse_args, parsed, Exit, exited, with_args}
use color.Programs.ClientMain.{
  default_client, client_setting, turn, turns, new_crew, count_up, turns-crew,
}
use color.Programs.ServerMain.{server_setting, serve, server_main}
use color.Programs.Unknown.{Surroundings, client, server, run, unknown-exits}
use color.Programs.FuzzMain.{fuzz_exit, Passed, fuzz_exit-zero}
use color.Tests.Fuzz.{toy, two_ticks}

abbrev sevens : Conversions Bool
sevens = record {
  stoi = λ s. some (pos 7);
  stoull = λ s. some 7;
  stod = λ s. some true;
  strtod = λ s. true;
  to_u64 = λ p. 7;
  to_int = λ p. pos 7;
  p30 = true;
  p10 = false;
  two = true;
  zero_double = false;
}

-- Every transfer ends well, and counts itself.
abbrev counting : Curl ℕ
counting = record {
  init = λ x. (true, x);
  perform = λ t x.
      (record { is_ok = true; code = 200; header_lines = []; chunks = t.content ∷ [] }, x + 1);
}

abbrev lossy : CurlTransport Bool
lossy = record { p_drop_request = true; p_drop_response = false; seed = 1; timeout_ms = 2000 }

abbrev fresh : ℕ
fresh = 0

post-delivered_example :
    let (res, inj, _, x') = post counting lossy (λ p g. (p, g)) fresh [] [] [] 5 in
    ((res.delivered ≡ true)
      ↔ ((inj ≡ Injected.none) × (true ≡ true) × ((ending counting lossy [] [] [] 5).is_ok ≡ true)))
    × ((res.status ≡ 0) ⊎ ((ending counting lossy [] [] [] 5).is_ok ≡ true))
    × ((inj ≢ drop_request) ⊎ (x' ≡ 5))
post-delivered_example = post-delivered counting lossy (λ p g. (p, g)) fresh [] [] [] 5

turns-crew_example :
    turns (3 + (2 + 1)) (pos 3) (new_crew 2)
    ≡ record { next_id = pos (3 + 2); active = 0; taken = count_up 0 3 }
turns-crew_example = turns-crew 3 2 1 (omega arith) (omega arith)

-- At `INT_MAX` the counter wraps, and a worker that comes late goes on.
wrapped :
    turn (pos 2147483647) (record { next_id = inc_int (pos 2147483647); active = 1; taken = [] })
    ≡ record { next_id = negsuc 2147483646; active = 1; taken = negsuc 2147483647 ∷ [] }
unfolding turn inc_int lt_int
wrapped = refl

client_reads :
    parse_args
      (client_setting sevens)
      (codes "--count" ∷ codes "7" ∷ codes "--hash" ∷ [])
      (default_client sevens)
    ≡ parsed (record (default_client sevens) { total = pos 7; set_hash = true })
unfolding parse_args client_setting bytes_eq
client_reads = refl

client_unheard : client_setting sevens (codes "--help") ≡ Option.none
unfolding client_setting bytes_eq
client_unheard = refl

abbrev deaf : Surroundings ℕ Bool
deaf = record {
  conv = sevens;
  clock = λ n. 0;
  results = [];
  net = record {
    creates = λ port threads. true;
    accepts = λ color registrations. true;
    terminates = λ color. false;
  };
  ms = 0;
  file = Option.none;
  rand = toy;
  timed = λ p. Option.none;
}

unknown-exits_example :
    run deaf client ((codes "--count" ∷ codes "7" ∷ codes "--hash" ∷ []) ++ codes "--help" ∷ [])
    ≡ exited 2
unknown-exits_example =
    unknown-exits deaf client (codes "--count" ∷ codes "7" ∷ codes "--hash" ∷ []) (codes "--help")
      [] _ client_reads client_unheard

-- A server that accepts requests keeps running.
server_runs : run deaf server (codes "--quiet" ∷ []) ≡ Exit.running
unfolding server_main serve parse_args server_setting bytes_eq with_args
server_runs = refl

fuzz_exit-zero_example :
    (fuzz_exit toy two_ticks 2 ≡ exited 0) ↔ ((j : ℕ) → j < 2 → Passed toy two_ticks j)
fuzz_exit-zero_example = fuzz_exit-zero toy two_ticks 2 (omega arith)
