-- ===== src/Core/Client/Released.antt =====
-- color_client.cc: a request leaves `inflight_` when its id joins `received_`.
use color.Prelude.{
  ◌≡◌, refl, ◌∙◌, inl, inr, false, none, some, [], ◌∷◌, List, Bool-cases, ==_of_ne, arith, map,
}
use color.Text.{Bytes}
use color.Dict.{lookup, contains}
use color.Dict.Laws.{found-erase, found-insert, contains-add}
use color.Core.Message.{Seq, Request, Response}
use color.Core.Client.{Client, generate_request, on_response, outstanding}
use color.Core.Client.Invariant.{Follows}

-- A request that is held has no response yet.
abbrev pub Unanswered : Client → Type 0
Unanswered c =
    (k : Seq) (r : Request) → lookup k c.inflight ≡ some r → contains k c.received ≡ false

pub generate_request-Unanswered :
    (rs : List Request) (c : Client) (payload : Bytes)
    → Follows rs c
    → Unanswered c
    → Unanswered (generate_request c payload).0
unfolding generate_request
generate_request-Unanswered rs c payload f v k r held =
    elim (found-insert c.next_seq k (generate_request c payload).1 c.inflight held) [
      | inl (same, _) ↦ elim (Bool-cases (contains k c.received)) [
        | inl got ↦ absurd (omega (arith, same, f.numbered, (f.known k got).1))
        | inr fresh ↦ fresh
      ]
      | inr (_, old) ↦ v k r old
    ]

pub on_response-Unanswered :
    (c : Client) (resp : Response) → Unanswered c → Unanswered (on_response c resp).0
unfolding on_response
on_response-Unanswered c resp v = elim (Bool-cases (contains resp.seq c.received)) [
  | inl old ↦ rw (old, on_response) v
  | inr new ↦
      rw (new, on_response)
        (λ k r held.
          let (other, before) = found-erase resp.seq k c.inflight held in
          contains-add resp.seq k c.received ∙ rw (==_of_ne resp.seq k other) (v k r before))
]

-- A client that holds no request has nothing outstanding.
pub outstanding-nil : (c : Client) → ((k : Seq) → lookup k c.inflight ≡ none) → outstanding c ≡ []
unfolding outstanding lookup
outstanding-nil c h = nothing c.inflight h
  where
    nothing : (m : List (Seq × Request)) → ((k : Seq) → lookup k m ≡ none) → map (λ kv. kv.0) m ≡ []
    nothing [] h = refl
    nothing ((k, r) ∷ m) h = absurd (ground (arith, h k))
