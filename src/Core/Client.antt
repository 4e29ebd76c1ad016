-- ===== src/Core/Client.antt =====
-- src/core/color_client.h and color_client.cc: the client state machine. A callback is a flag that
-- says whether it is set, and the list of the calls made to it, oldest first.
use color.Prelude.{
  ℕ, zero, suc, ◌≡◌, refl, Bool, true, false, not, ◌&&◌, Option, none, some, List, [], ◌∷◌, ◌++◌,
  map, ltb, ◌==◌, if◌then◌else◌, inc64, length, drop,
}
use color.Text.{Bytes}
use color.Dict.{lookup, insert, erase, contains, add}
use color.Core.Message.{Seq, Hash, Request, Response}
use color.Core.History.{Event, History, empty_history, append, append_responses}
use color.Core.Checkpoint.{Replay, ReplayEvent}
pub mod Base
pub mod Invariant
pub mod Sending
pub mod Receiving
pub mod Delivery
pub mod Outstanding
pub mod Released

pub record Client : Type 0 where
  pub deliver : Bool
  pub on_mismatch : Bool
  pub set_hash : Bool
  pub next_seq : Seq
  pub base : Seq
  pub received : List Seq
  pub received_payload : List (Seq × Bytes)
  pub pending_new : List Seq
  pub req_hash : List (Seq × Hash)
  pub inflight : List (Seq × Request)
  pub history : History
  pub sent : ℕ
  pub max_ack_new : ℕ
  -- the calls of `deliver_` and of `on_mismatch_`
  pub delivered : List (Seq × Bytes)
  pub mismatches : List (Seq × Hash × Hash)

-- The constructor; `on_mismatch` says whether `on_hash_mismatch` is called with a function.
unfoldable pub new_client : Bool → Bool → Bool → Client
new_client deliver on_mismatch set_hash = record {
  deliver = deliver;
  on_mismatch = on_mismatch;
  set_hash = set_hash;
  next_seq = 1;
  base = 1;
  received = [];
  received_payload = [];
  pending_new = [];
  req_hash = [];
  inflight = [];
  history = empty_history;
  sent = 0;
  max_ack_new = 0;
  delivered = [];
  mismatches = [];
}

-- `ColorClient::generate_request`
unfoldable pub generate_request : Client → Bytes → Client × Request
generate_request c p =
    let seq = c.next_seq in
    let new_acks = c.pending_new in
    let (history, h) =
      append (append_responses c.history new_acks) (record { is_response = false; seq = seq }) in
    let r : Request = record {
      seq = seq;
      ack_base = c.base;
      ack_new = new_acks;
      hash = if c.set_hash then some h else none;
      payload = p;
    } in
    (
      record c {
        next_seq = inc64 c.next_seq;
        pending_new = [];
        max_ack_new =
            if ltb c.max_ack_new (length new_acks) then length new_acks else c.max_ack_new;
        history = history;
        req_hash = insert seq h c.req_hash;
        inflight = insert seq r c.inflight;
        sent = inc64 c.sent;
      },
      r,
    )

-- `while (received_.count(base_)) ++base_;`
unfoldable pub advance_base : ℕ → List Seq → Seq → Seq
advance_base zero received base = base
advance_base (suc fuel) received base = elim (contains base received) [
  | true ↦ advance_base fuel received (inc64 base)
  | false ↦ base
]

-- What the hash test of `on_response` calls `on_mismatch_` with.
hash_check : Client → Response → List (Seq × Hash × Hash)
hash_check c resp = elim resp.hash [
  | none ↦ []
  | some got ↦ elim (lookup resp.seq c.req_hash) [
    | none ↦ []
    | some expected ↦
        if c.set_hash && not (got == expected) && c.on_mismatch
        then (resp.seq, got, expected) ∷ []
        else []
  ]
]

-- `ColorClient::on_response`
unfoldable pub on_response : Client → Response → Client × Bool
unfolding hash_check
on_response c resp =
    if contains resp.seq c.received
    then (c, false)
    else let received = add resp.seq c.received in
      (
        record c {
          mismatches = c.mismatches ++ hash_check c resp;
          received = received;
          pending_new = if resp.no_op then c.pending_new else c.pending_new ++ resp.seq ∷ [];
          received_payload =
              if resp.no_op
              then c.received_payload
              else insert resp.seq resp.payload c.received_payload;
          base = advance_base (suc (length received)) received c.base;
          inflight = erase resp.seq c.inflight;
          delivered =
              if c.deliver && not resp.no_op
              then c.delivered ++ (resp.seq, resp.payload) ∷ []
              else c.delivered;
        },
        true,
      )

or_else {ℓ} : {A : Type ℓ} → Option A → A → A
or_else none d = d
or_else (some a) d = a

-- One round of the loop of `build_replay`.
unfoldable pub replay_event : Client → Event → ReplayEvent
unfolding or_else
replay_event c e = record {
  is_response = e.is_response;
  seq = e.seq;
  payload = if e.is_response then or_else (lookup e.seq c.received_payload) [] else [];
  hash = if e.is_response then or_else (lookup e.seq c.req_hash) 0 else 0;
}

-- `ColorClient::build_replay`
unfoldable pub build_replay : Client → ℕ → Replay
build_replay c from = record {
  from = from;
  events = map (replay_event c) (drop from c.history.events);
}

-- `ColorClient::outstanding`
unfoldable pub outstanding : Client → List Seq
outstanding c = map (λ kv. kv.0) c.inflight

-- `ColorClient::frozen`; `at` throws on a missing key.
unfoldable pub frozen : Client → Seq → Option Request
frozen c seq = lookup seq c.inflight

unfoldable pub has_response : Client → Seq → Bool
has_response c seq = contains seq c.received
