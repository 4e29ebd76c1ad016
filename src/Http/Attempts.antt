-- ===== src/Http/Attempts.antt =====
-- color_http_client.cc: `send` over a transport that drops.
use color.Prelude.{
  ℕ, zero, suc, ◌+◌, ◌<◌, ◌≡◌, refl, ap, ◌∙◌, Bool, true, false, none, some, List, [], ◌∷◌, ◌++◌,
  length, length-append, arith, All, append_assoc,
}
use color.Text.{Bytes}
use color.Core.Message.{Request}
use color.Core.Client.{Client, generate_request, on_response}
use color.Http.Headers.{header_lines}
use color.Http.Sender.{
  HttpResult, again, finished, Post, HttpClient, recover_header, response_of, posted, attempted,
  round, header_round, delivered_round, send_loop, send,
}

abbrev pub copies : {A : Type 0} → ℕ → A → List A
copies zero a = []
copies (suc n) a = a ∷ copies n a

dropped-recover_header : (res : HttpResult) → res.delivered ≡ false → recover_header res ≡ none
unfolding recover_header
dropped-recover_header res h = ground arith

-- The round of an attempt that is no call for a replay.
round-plain :
    (req : Request) (post : Post) (c : HttpClient) (attempt : ℕ) (res : HttpResult)
    (results : List HttpResult) (delivered : Bool)
    → c.results ≡ res ∷ results
    → res.delivered ≡ delivered
    → recover_header res ≡ none
    → round c.results req post c attempt
      ≡ delivered_round delivered req (attempted (posted c post results) req.seq res attempt) res
round-plain req post c attempt res results delivered e h plain =
    ap (λ rs. round rs req post c attempt) e
    ∙ unfold round in
      (ap (λ v. header_round v req (posted c post results) res attempt) plain
        ∙ unfold header_round in
          ap
            (λ b. delivered_round b req (attempted (posted c post results) req.seq res attempt) res)
            h)

send_loop-again :
    (fuel : ℕ) (req : Request) (post : Post) (c c' : HttpClient) (attempt : ℕ)
    → round c.results req post c attempt ≡ again c'
    → send_loop (suc fuel) req post c attempt ≡ send_loop fuel req post c' (attempt + 1)
unfolding send_loop
send_loop-again fuel req post c c' attempt e = rw (e, send_loop) refl

send_loop-finished :
    (fuel : ℕ) (req : Request) (post : Post) (c c' : HttpClient) (attempt : ℕ)
    → round c.results req post c attempt ≡ finished c'
    → send_loop (suc fuel) req post c attempt ≡ some c'
unfolding send_loop
send_loop-finished fuel req post c c' attempt e = rw (e, send_loop) refl

-- How `send` has come back.
pub record Returned (c c' : HttpClient) (core : Client) (n : ℕ) (post : Post)
    (more : List HttpResult) : Type 0 where
  pub same_core : c'.core ≡ core
  pub same_posts : c'.posts ≡ c.posts ++ copies n post
  pub left : c'.results ≡ more
  pub unrecovered : c'.recoveries ≡ c.recoveries

send_loop-drops :
    (drops : List HttpResult) (res : HttpResult) (more : List HttpResult) (fuel : ℕ) (req : Request)
    (post : Post) (c : HttpClient) (attempt : ℕ)
    → All (λ d. d.delivered ≡ false) drops
    → res.delivered ≡ true
    → recover_header res ≡ none
    → c.results ≡ drops ++ res ∷ more
    → length drops < fuel
    → (c' : HttpClient) × (send_loop fuel req post c attempt ≡ some c')
      × Returned c c'
          (on_response c.core (response_of req.seq res)).0
          (suc (length drops))
          post
          more
unfolding attempted posted delivered_round
send_loop-drops drops res more zero req post c attempt dropped h plain e le = absurd (omega arith)
send_loop-drops [] res more (suc fuel) req post c attempt dropped h plain e le =
    let told : HttpClient = attempted (posted c post more) req.seq res attempt in
    let back : HttpClient = record told {
      core = (on_response told.core (response_of req.seq res)).0;
    } in
    (
      back,
      send_loop-finished fuel req post c back attempt
          (round-plain req post c attempt res more true e h plain),
      record { same_core = refl; same_posts = refl; left = refl; unrecovered = refl },
    )
send_loop-drops (d ∷ drops) res more (suc fuel) req post c attempt dropped h plain e le =
    let rest = drops ++ res ∷ more in
    let told : HttpClient = attempted (posted c post rest) req.seq d attempt in
    let none_asked = dropped-recover_header d dropped.0 in
    let (c', runs, back) =
      send_loop-drops drops res more fuel req post told (attempt + 1) dropped.1 h plain refl
        (omega arith) in
    (
      c',
      send_loop-again fuel req post c told attempt
            (round-plain req post c attempt d rest false e dropped.0 none_asked)
          ∙ runs,
      record {
        same_core = back.same_core;
        same_posts =
            back.same_posts ∙ append_assoc c.posts (post ∷ []) (copies (suc (length drops)) post);
        left = back.left;
        unrecovered = back.unrecovered;
      },
    )

-- A POST of `send` that the network drops, again and again, is made again with the same bytes. When
-- the first delivered result is not a call for a replay, `send` comes back after exactly one POST
-- more than there were drops, and has handed the response in this result to the client core once.
pub send-drops :
    (c : HttpClient) (payload : Bytes) (drops : List HttpResult) (res : HttpResult)
    (more : List HttpResult)
    → c.results ≡ drops ++ res ∷ more
    → All (λ d. d.delivered ≡ false) drops
    → res.delivered ≡ true
    → recover_header res ≡ none
    → let (core, req) = generate_request c.core payload in
      (c' : HttpClient) × (send c payload ≡ some c')
      × Returned c c'
          (on_response core (response_of req.seq res)).0
          (suc (length drops))
          (record { lines = header_lines req; content = req.payload })
          more
unfolding send
send-drops c payload drops res more e dropped h plain =
    let (core, req) = generate_request c.core payload in
    let post : Post = record { lines = header_lines req; content = req.payload } in
    let (c', runs, back) =
      send_loop-drops drops res more (suc (length c.results)) req post (record c { core = core }) 1
        dropped h plain e (omega (arith, ap length e, length-append drops (res ∷ more))) in
    (
      c',
      runs,
      record {
        same_core = back.same_core;
        same_posts = back.same_posts;
        left = back.left;
        unrecovered = back.unrecovered;
      },
    )
