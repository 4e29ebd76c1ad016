-- ===== src/Core/History/Prefix.antt =====
-- What a `History` stands for: a sequence of events of which the first `base_count` are folded into
-- the hash, and the rest retained.
use color.Prelude.{
  ◌≤◌, ◌<◌, ◌≡◌, refl, ap, sym, ◌∙◌, true, false, List, [], ◌∷◌, ◌++◌, map, append-nil,
  append_assoc, arith, u64_mod, add64-eq, length, length-append, length-drop, drop, drop_all,
  drop-append_le,
}
use color.Core.Message.{Seq, Hash}
use color.Core.History.{
  Event, History, hash_seed, hash_step, empty_history, resumed_history, append, append_responses,
  event_count,
}

-- The chain h_k = hash_step(h_{k-1}, e_k).
pub hash_events : Hash → List Event → Hash
hash_events h [] = h
hash_events h (e ∷ es) = hash_events (hash_step h e) es

-- The hash of a history that begins with the seed.
abbrev pub history_hash : List Event → Hash
history_hash = hash_events hash_seed

pub record IsHistoryOf (h : History) (es : List Event) : Type 0 where
  pub fits : h.base_count ≤ length es
  pub retained : h.events ≡ drop h.base_count es
  pub hashed : h.cur_hash ≡ history_hash es

abbrev pub response_event : Seq → Event
response_event i = record { is_response = true; seq = i }

abbrev pub request_event : Seq → Event
request_event i = record { is_response = false; seq = i }

pub hash_events-append :
    (h : Hash) (es fs : List Event) → hash_events h (es ++ fs) ≡ hash_events (hash_events h es) fs
unfolding hash_events
hash_events-append h [] fs = refl
hash_events-append h (e ∷ es) fs = hash_events-append (hash_step h e) es fs

pub empty_history-IsHistoryOf : IsHistoryOf empty_history []
unfolding empty_history hash_events
empty_history-IsHistoryOf = record { fits = omega arith; retained = refl; hashed = refl }

pub resumed_history-IsHistoryOf :
    (es : List Event) → IsHistoryOf (resumed_history (history_hash es) (length es)) es
unfolding resumed_history
resumed_history-IsHistoryOf es = record {
  fits = omega arith;
  retained = sym (drop_all (length es) es (omega arith));
  hashed = refl;
}

-- Appending an event appends it to what the history stands for, and returns the new hash.
pub append-IsHistoryOf :
    (h : History) (es : List Event) (e : Event)
    → IsHistoryOf h es
    → IsHistoryOf (append h e).0 (es ++ e ∷ []) × ((append h e).1 ≡ history_hash (es ++ e ∷ []))
unfolding append hash_events
append-IsHistoryOf h es e v =
    let hashed : hash_step h.cur_hash e ≡ history_hash (es ++ e ∷ []) =
      ap (λ k. hash_step k e) v.hashed ∙ sym (hash_events-append hash_seed es (e ∷ [])) in
    (
      record {
        fits = omega (arith, v.fits, length-append es (e ∷ []));
        retained =
            ap (λ l. l ++ e ∷ []) v.retained ∙ sym (drop-append_le h.base_count es (e ∷ []) v.fits);
        hashed = hashed;
      },
      hashed,
    )

pub append_responses-IsHistoryOf :
    (h : History) (es : List Event) (acks : List Seq)
    → IsHistoryOf h es
    → IsHistoryOf (append_responses h acks) (es ++ map response_event acks)
unfolding append_responses
append_responses-IsHistoryOf h es [] v = rw append-nil v
append_responses-IsHistoryOf h es (i ∷ acks) v =
    rw (← append_assoc es (response_event i ∷ []) (map response_event acks)) (
      append_responses-IsHistoryOf (append h (response_event i)).0 _ acks
        (append-IsHistoryOf h es (response_event i) v).0)

pub append_responses-base :
    (h : History) (acks : List Seq) → (append_responses h acks).base_count ≡ h.base_count
unfolding append_responses
append_responses-base h [] = refl
append_responses-base h (i ∷ acks) = append_responses-base (append h (response_event i)).0 acks

-- The logical length, as long as it fits a `size_t`.
pub event_count-IsHistoryOf :
    (h : History) (es : List Event)
    → IsHistoryOf h es
    → length es < u64_mod
    → event_count h ≡ length es
unfolding event_count
event_count-IsHistoryOf h es v lt =
    let size = ap length v.retained ∙ length-drop h.base_count es in
    let fits = v.fits in add64-eq h.base_count (length h.events) (omega arith) ∙ omega arith
