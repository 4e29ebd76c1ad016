-- ===== src/Programs/ClientMain.antt =====
-- demo/src/color_client_main.cc. What is printed and the pauses are left out; the clock is a function
-- of the message, and the workers take turns in any order, which the state does not tell apart.
use color.Prelude.{
  refl, ◌*◌, ◌^◌, ℕ, zero, suc, ◌+◌, ◌-◌, ◌≤◌, ◌<◌, ◌≡◌, ap, ◌∙◌, Bool, true, false, Option, none,
  some, List, [], ◌∷◌, ◌++◌, ltb, ◌==◌, if◌then◌else◌, arith, length, append_assoc, append-nil,
}
use Prim.Native.Nat.add
use color.Prelude.Ints.{ℤ, pos, rounds, inc_int, lt_int, int_end, inc_int-pos}
use color.Text.{Bytes, codes, to_string, bytes_eq}
use color.Http.Curl.{Injected, drop_request, drop_response}
use color.Http.Sender.{HttpClient, HttpResult, new_http_client, http_on_hash_mismatch, send}
use color.Programs.Args.{Conversions, Setting, flag, value, parse_args, Exit, exited, with_args}

-- `Config`
pub record ClientConfig (P : Type 0) : Type 0 where
  pub url : Bytes
  pub total : ℤ
  pub interval_ms : ℤ
  pub workers : ℤ
  pub drop : P
  pub drop_resp : P
  pub seed : ℕ
  pub set_hash : Bool
  pub quiet : Bool

-- `inj_str`
unfoldable pub inj_str : Injected → Bytes
inj_str drop_request = codes "drop-request"
inj_str drop_response = codes "drop-response"
inj_str Injected.none = codes "ok"

module _ {P : Type 0} (conv : Conversions P) where
  unfoldable pub default_client : ClientConfig P
  default_client = record {
    url = codes "http://127.0.0.1:8080/color";
    total = pos 20;
    interval_ms = pos 1000;
    workers = pos 1;
    drop = conv.p30;
    drop_resp = conv.p30;
    seed = 1;
    set_hash = false;
    quiet = false;
  }

  -- `c.field = std::stoi(next(i))` and the like.
  unfoldable pub read_value :
      {A : Type 0}
      → (Bytes → Option A)
      → (A → ClientConfig P → ClientConfig P)
      → Setting (ClientConfig P)
  read_value read set = value (λ s c. elim (read s) [ none ↦ none | some a ↦ some (set a c) ])

  -- The tests of the loop over the arguments.
  unfoldable pub client_setting : Bytes → Option (Setting (ClientConfig P))
  unfolding read_value
  client_setting a =
      if bytes_eq a (codes "--url")
      then some (value (λ s c. some (record c { url = s })))
      else if bytes_eq a (codes "--count")
      then some (read_value conv.stoi (λ n c. record c { total = n }))
      else if bytes_eq a (codes "--interval-ms")
      then some (read_value conv.stoi (λ n c. record c { interval_ms = n }))
      else if bytes_eq a (codes "--parallel")
      then some (read_value conv.stoi (λ n c. record c { workers = n }))
      else if bytes_eq a (codes "--drop")
      then some (read_value conv.stod (λ p c. record c { drop = p }))
      else if bytes_eq a (codes "--drop-resp")
      then some (read_value conv.stod (λ p c. record c { drop_resp = p }))
      else if bytes_eq a (codes "--seed")
      then some (read_value conv.stoull (λ n c. record c { seed = n }))
      else if bytes_eq a (codes "--hash")
      then some (flag (λ c. record c { set_hash = true }))
      else if bytes_eq a (codes "--quiet")
      then some (flag (λ c. record c { quiet = true }))
      else none

-- The worker threads: the counter that they share, how many are still in their loops, and the ids
-- that they got messages for, in the order of the counter.
pub record Crew : Type 0 where
  pub next_id : ℤ
  pub active : ℕ
  pub taken : List ℤ

unfoldable pub new_crew : ℕ → Crew
new_crew workers = record { next_id = pos 0; active = workers; taken = [] }

-- `int id = next_id.fetch_add(1); if (id >= c.count) break;` of one of them.
unfoldable pub turn : ℤ → Crew → Crew
turn total crew =
    if lt_int crew.next_id total
    then record crew { next_id = inc_int crew.next_id; taken = crew.taken ++ crew.next_id ∷ [] }
    else record crew { next_id = inc_int crew.next_id; active = crew.active - 1 }

-- Turns until the last worker is joined, with `fuel` of them at most.
unfoldable pub turns : ℕ → ℤ → Crew → Crew
turns zero total crew = crew
turns (suc fuel) total crew = elim (crew.active == 0) [
  | true ↦ crew
  | false ↦ turns fuel total (turn total crew)
]

-- The message of an id.
unfoldable pub payload_of : (ℤ → ℕ) → ℤ → Bytes
payload_of clock id = codes "{\"cli_ts\":" ++ (to_string (clock id) ++ codes "}")

-- `client.send(payload)` for each id, by a single worker; `none` when a call does not return.
unfoldable pub send_all : (ℤ → ℕ) → List ℤ → HttpClient → Option HttpClient
unfolding payload_of
send_all clock [] c = some c
send_all clock (id ∷ ids) c = elim (send c (payload_of clock id)) [
  | none ↦ none
  | some c' ↦ send_all clock ids c'
]

-- The client that `main` makes; both callbacks of the core are set.
unfoldable pub chat_client : {P : Type 0} → ClientConfig P → List HttpResult → HttpClient
chat_client c results = http_on_hash_mismatch (new_http_client true c.set_hash results)

-- `return mismatches.load() == 0 ? 0 : 1`
unfoldable pub client_exit : HttpClient → Exit
client_exit c = if length c.core.mismatches == 0 then exited 0 else exited 1

unfoldable pub count_up : ℕ → ℕ → List ℤ
count_up n zero = []
count_up n (suc left) = pos n ∷ count_up (n + 1) left

-- While ids are left, each turn takes the next.
turns-messages :
    (left fuel n total workers : ℕ) (taken : List ℤ)
    → n + left ≡ total
    → total < int_end
    → 0 < workers
    → turns (left + fuel) (pos total) (record { next_id = pos n; active = workers; taken = taken })
      ≡ turns fuel
          (pos total)
          (record { next_id = pos total; active = workers; taken = taken ++ count_up n left })
unfolding turns turn count_up lt_int
turns-messages zero fuel n total workers taken e room some_active =
    rw (add.zero, append-nil)
      (ap
        (λ k. turns fuel (pos total) (record { next_id = pos k; active = workers; taken = taken }))
        (omega arith))
turns-messages (suc left) fuel n total workers taken e room some_active =
    let working : (workers == 0) ≡ false = ground arith in
    let more : ltb n total ≡ true = ground arith in
    rw add.suc (
      rw (working, turns)
        (rw (more, inc_int-pos n (omega arith))
          (turns-messages left fuel (n + 1) total workers (taken ++ pos n ∷ []) (omega arith) room
              some_active
            ∙ ap
                (λ ids.
                  turns fuel (pos total)
                    (record { next_id = pos total; active = workers; taken = ids }))
                (append_assoc taken (pos n ∷ []) (count_up (n + 1) left)))))

turns-joined :
    (fuel : ℕ) (next_id total : ℤ) (taken : List ℤ)
    → turns fuel total (record { next_id = next_id; active = 0; taken = taken })
      ≡ record { next_id = next_id; active = 0; taken = taken }
unfolding turns
turns-joined zero next_id total taken = refl
turns-joined (suc fuel) next_id total taken = refl

-- Then each turn ends a worker.
turns-ends :
    (workers more n total : ℕ) (taken : List ℤ)
    → total ≤ n
    → n + workers < int_end
    → turns
        (workers + more)
        (pos total)
        (record { next_id = pos n; active = workers; taken = taken })
      ≡ record { next_id = pos (n + workers); active = 0; taken = taken }
unfolding turns turn lt_int
turns-ends zero more n total taken h room = rw add.zero (
    turns-joined more (pos n) (pos total) taken
    ∙ ap (λ k. record { next_id = pos k; active = 0; taken = taken }) (omega arith))
turns-ends (suc workers) more n total taken h room =
    let working : (suc workers == 0) ≡ false = ground arith in
    let over : ltb n total ≡ false = ground arith in
    let one_less : suc workers - 1 ≡ workers = omega arith in
    rw add.suc (
      rw (working, turns)
        (rw (over, inc_int-pos n (omega arith))
          (ap
              (λ k.
                turns (workers + more) (pos total)
                  (record { next_id = pos (n + 1); active = k; taken = taken }))
              one_less
            ∙ turns-ends workers more (n + 1) total taken (omega arith) (omega arith)
            ∙ ap (λ k. record { next_id = pos k; active = 0; taken = taken }) (omega arith))))

-- With at least one worker, and a count and as many workers that together stay below 2^31, whatever
-- the turns: the threads come to their end after one turn for each message and one for each worker,
-- and together they have taken each id below the count once, in order.
pub turns-crew :
    (total workers more : ℕ)
    → 0 < workers
    → total + workers < int_end
    → turns (total + (workers + more)) (pos total) (new_crew workers)
      ≡ record { next_id = pos (total + workers); active = 0; taken = count_up 0 total }
unfolding new_crew
turns-crew total workers more some_active room =
    turns-messages total (workers + more) 0 total workers [] (omega arith) (omega arith) some_active
    ∙ turns-ends workers more total total (count_up 0 total) (omega arith) room

-- The turns of so many workers at most: each comes to its end when the counter stands at `INT_MAX`, if
-- not before.
unfoldable pub all_turns : ℕ → ℕ
all_turns workers = workers * 2 ^ 32

-- `main`, when the workers come to their ends. With more than one worker it is the schedule in which
-- each worker is done with its message before the next takes one.
unfoldable pub client_main :
    {P : Type 0} → Conversions P → (ℤ → ℕ) → List HttpResult → List Bytes → Exit
unfolding all_turns
client_main conv clock results args =
    with_args (parse_args (client_setting conv) args (default_client conv)) (λ c.
      let crew = turns (all_turns (rounds c.workers)) c.total (new_crew (rounds c.workers)) in
      elim (send_all clock crew.taken (chat_client c results)) [
        | none ↦ Exit.undefined
        | some client ↦ if crew.active == 0 then client_exit client else Exit.running
      ])
