-- ===== src/Programs/Unknown.antt =====
-- The three programs at an argument that they do not know.
use color.Prelude.{ℕ, ◌≡◌, Option, none, List, ◌∷◌, ◌++◌}
use color.Prelude.Ints.{ℤ}
use color.Text.{Bytes}
use color.Harness.Driver.{Config}
use color.Harness.Link.{Random}
use color.Http.Sender.{HttpResult}
use color.Programs.Args.{Conversions, Setting, parse_args, parsed, Exit, exited, with_args-unknown}
use color.Programs.ClientMain.{ClientConfig, default_client, client_setting, client_main}
use color.Programs.ServerMain.{ServerConfig, default_server, server_setting, NetHttp, server_main}
use color.Programs.FuzzMain.{default_config, fuzz_setting, fuzz_main}

pub data Program : Type 0 where
  client server fuzz : Program

-- What the programs meet: the client its clock and the results of its POSTs, the server net_http, the
-- clock and the checkpoint file, the harness its source of draws and the seeds that the time allows.
pub record Surroundings (G P : Type 0) : Type 0 where
  pub conv : Conversions P
  pub clock : ℤ → ℕ
  pub results : List HttpResult
  pub net : NetHttp
  pub ms : ℕ
  pub file : Option Bytes
  pub rand : Random G P
  pub timed : P → Option ℕ

abbrev pub ConfigOf : Type 0 → Program → Type 0
ConfigOf P client = ClientConfig P
ConfigOf P server = ServerConfig
ConfigOf P fuzz = Config P

module _ {G P : Type 0} (x : Surroundings G P) where
  abbrev pub setting_of : (p : Program) → Bytes → Option (Setting (ConfigOf P p))
  setting_of client = client_setting x.conv
  setting_of server = server_setting x.conv
  setting_of fuzz = fuzz_setting x.conv

  abbrev pub default_of : (p : Program) → ConfigOf P p
  default_of client = default_client x.conv
  default_of server = default_server
  default_of fuzz = default_config x.conv

  abbrev pub run : Program → List Bytes → Exit
  run client args = client_main x.conv x.clock x.results args
  run server args = server_main x.conv x.net x.ms x.file args
  run fuzz args = fuzz_main x.conv x.rand x.timed args

  -- For each of the three programs: an argument that no test of its loop knows, behind arguments that
  -- could be read, makes the program end with code 2, whatever stands behind it and whatever the
  -- program meets.
  pub unknown-exits :
      (p : Program) (args : List Bytes) (a : Bytes) (rest : List Bytes) (c : ConfigOf P p)
      → parse_args (setting_of p) args (default_of p) ≡ parsed c
      → setting_of p a ≡ none
      → run p (args ++ a ∷ rest) ≡ exited 2
  unfolding client_main server_main fuzz_main
  unknown-exits client args a rest c read unheard =
      with_args-unknown (client_setting x.conv) _ args a rest (default_client x.conv) c read unheard
  unknown-exits server args a rest c read unheard =
      with_args-unknown (server_setting x.conv) _ args a rest default_server c read unheard
  unknown-exits fuzz args a rest c read unheard =
      with_args-unknown (fuzz_setting x.conv) _ args a rest (default_config x.conv) c read unheard
