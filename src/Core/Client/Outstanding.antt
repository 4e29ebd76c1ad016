-- ===== src/Core/Client/Outstanding.antt =====
-- color_client.cc: the requests that are kept for retransmission in `inflight_`.
use color.Prelude.{
  ◌+◌, ◌≤◌, ◌<◌, ◌≡◌, ◌⊎◌, inl, inr, refl, ◌∙◌, true, some, ◌==◌, arith, Bool-cases, u64_mod,
  inc64-eq,
}
use color.Dict.{lookup, contains}
use color.Dict.Laws.{lookup-insert, kept-insert, lookup-erase, contains-add}
use color.Text.{Bytes}
use color.Core.Message.{Seq, Request, Response}
use color.Core.Client.{Client, generate_request, on_response}

-- Id `k` has its response, or its request is still held.
abbrev pub Open : Client → Seq → Type 0
Open c k = (contains k c.received ≡ true) ⊎ ((r : Request) × (lookup k c.inflight ≡ some r))

abbrev pub Keeps : Client → Type 0
Keeps c = (k : Seq) → 1 ≤ k → k < c.next_seq → Open c k

pub generate_request-Keeps :
    (c : Client) (payload : Bytes)
    → c.next_seq + 1 < u64_mod
    → Keeps c
    → Keeps (generate_request c payload).0
unfolding generate_request
generate_request-Keeps c payload room v k one low = elim (Bool-cases (c.next_seq == k)) [
  | inl same ↦ inr (
    (generate_request c payload).1,
    lookup-insert c.next_seq k (generate_request c payload).1 c.inflight ∙ rw same refl,
  )
  | inr other ↦
      let below : k < c.next_seq = ground (arith, inc64-eq c.next_seq) in
      elim (v k one below) [
        | inl got ↦ inl got
        | inr (r, held) ↦
            inr (kept-insert c.next_seq k (generate_request c payload).1 c.inflight held)
      ]
]

on_response-Open :
    (c : Client) (resp : Response) (k : Seq) → Open c k → Open (on_response c resp).0 k
unfolding on_response
on_response-Open c resp k v = elim (Bool-cases (contains resp.seq c.received)) [
  | inl old ↦ rw (old, on_response) v
  | inr new ↦
      rw (new, on_response)
        (elim v [
          | inl got ↦ inl (contains-add resp.seq k c.received ∙ ground (arith, got))
          | inr (r, held) ↦ elim (Bool-cases (resp.seq == k)) [
            | inl same ↦ inl (contains-add resp.seq k c.received ∙ rw same refl)
            | inr other ↦ inr (r, lookup-erase resp.seq k c.inflight ∙ rw other held)
          ]
        ])
]

pub on_response-next_seq :
    (c : Client) (resp : Response) → (on_response c resp).0.next_seq ≡ c.next_seq
unfolding on_response
on_response-next_seq c resp = ground arith

pub on_response-Keeps : (c : Client) (resp : Response) → Keeps c → Keeps (on_response c resp).0
on_response-Keeps c resp v k one low =
    on_response-Open c resp k (v k one (omega (arith, on_response-next_seq c resp)))
