-- ===== src/Programs/ServerMain.antt =====
-- demo/src/color_server_main.cc. net_http is a parameter; what it does with the interceptor while the
-- server runs is its own. What is printed is left out.
use color.Prelude.{ℕ, Bool, true, false, Option, none, some, List, [], ◌++◌, if◌then◌else◌}
use color.Prelude.Ints.{ℤ, pos, to_size}
use color.Text.{Bytes, codes, to_string, bytes_eq}
use color.Core.Server.{App}
use color.Http.Interceptor.{
  Interceptor, Registration, register, new_interceptor, set_on_committed, set_on_hash_mismatch,
}
use color.Programs.Args.{Conversions, Setting, flag, value, parse_args, Exit, exited, with_args}

-- The variables of `main` that the arguments set.
pub record ServerConfig : Type 0 where
  pub port : ℤ
  pub threads : ℤ
  pub uri : Bytes
  pub set_hash : Bool
  pub quiet : Bool
  pub checkpoint : Bytes
  pub checkpoint_every : ℤ

unfoldable pub default_server : ServerConfig
default_server = record {
  port = pos 8080;
  threads = pos 4;
  uri = codes "/color";
  set_hash = false;
  quiet = false;
  checkpoint = [];
  checkpoint_every = pos 16;
}

-- The application; its state is the clock in milliseconds.
abbrev pub echo : App ℕ
echo ms seq payload history = (
  codes "{\"srv_ts\":" ++ (to_string ms ++ (codes ",\"seq\":" ++ (to_string seq ++ codes "}"))),
  ms,
)

module _ {P : Type 0} (conv : Conversions P) where
  unfoldable pub int_value : (ℤ → ServerConfig → ServerConfig) → Setting ServerConfig
  int_value set = value (λ s c. elim (conv.stoi s) [ none ↦ none | some n ↦ some (set n c) ])

  unfoldable pub server_setting : Bytes → Option (Setting ServerConfig)
  unfolding int_value
  server_setting a =
      if bytes_eq a (codes "--port")
      then some (int_value (λ n c. record c { port = n }))
      else if bytes_eq a (codes "--threads")
      then some (int_value (λ n c. record c { threads = n }))
      else if bytes_eq a (codes "--uri")
      then some (value (λ s c. some (record c { uri = s })))
      else if bytes_eq a (codes "--hash")
      then some (flag (λ c. record c { set_hash = true }))
      else if bytes_eq a (codes "--quiet")
      then some (flag (λ c. record c { quiet = true }))
      else if bytes_eq a (codes "--checkpoint")
      then some (value (λ s c. some (record c { checkpoint = s })))
      else if bytes_eq a (codes "--checkpoint-every")
      then some (int_value (λ n c. record c { checkpoint_every = n }))
      else none

-- The interceptor that `main` makes, for the content of the checkpoint file.
unfoldable pub started : ServerConfig → ℕ → Option Bytes → Interceptor ℕ
started c ms file =
    let t = new_interceptor echo ms c.set_hash c.checkpoint (to_size c.checkpoint_every) file in
    set_on_hash_mismatch (if c.quiet then t else set_on_committed t)

-- `color.Register(server.get(), uri)`
unfoldable pub registrations : ServerConfig → List Registration
registrations c = register c.uri []

-- net_http: whether a server is created on a port with so many threads, whether it then accepts
-- requests on what was registered, and whether `WaitForTermination` comes back.
pub record NetHttp : Type 0 where
  pub creates : ℤ → ℤ → Bool
  pub accepts : Interceptor ℕ → List Registration → Bool
  pub terminates : Interceptor ℕ → Bool

-- What follows the loop over the arguments, with the clock and the checkpoint file as they are then.
unfoldable pub serve : NetHttp → ℕ → Option Bytes → ServerConfig → Exit
unfolding started registrations
serve net ms file c =
    let color = started c ms file in
    if net.creates c.port c.threads
    then (if net.accepts color (registrations c)
        then (if net.terminates color then exited 0 else Exit.running)
        else exited 1)
    else exited 1

-- `main`
unfoldable pub server_main :
    {P : Type 0} → Conversions P → NetHttp → ℕ → Option Bytes → List Bytes → Exit
unfolding serve
server_main conv net ms file args =
    with_args (parse_args (server_setting conv) args default_server) (serve net ms file)
