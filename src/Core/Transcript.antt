-- ===== src/Core/Transcript.antt =====
-- The abstract view of a conversation: the requests in the order of their ids, each a block of the
-- responses that it acknowledges, in receipt order, and the request itself (protocol.md, "R1 r1 R2").
use color.Prelude.{
  ℕ, suc, ◌≤◌, ◌≡◌, refl, ap, sym, ◌∙◌, some, List, [], ◌∷◌, ◌++◌, map, append-nil, append_assoc,
  arith, length, length-append, drop, take, take-suc, get_elem?, take-append_le, take-length,
  take-append-drop, take-take_le,
}
use color.Core.Message.{Seq, Hash, Request}
use color.Core.History.{Event, History, append, append_responses}
use color.Core.History.Prefix.{
  IsHistoryOf, history_hash, response_event, request_event, append-IsHistoryOf,
  append_responses-IsHistoryOf,
}

abbrev pub block : Request → List Event
block r = map response_event r.ack_new ++ request_event r.seq ∷ []

unfoldable pub transcript : List Request → List Event
transcript [] = []
transcript (r ∷ rs) = block r ++ transcript rs

-- The history up to and with the request of id `k`, and its hash.
unfoldable pub upto : List Request → ℕ → List Event
upto rs k = transcript (take k rs)

unfoldable pub hash_upto : List Request → ℕ → Hash
hash_upto rs k = history_hash (upto rs k)

pub transcript-append :
    (rs ss : List Request) → transcript (rs ++ ss) ≡ transcript rs ++ transcript ss
unfolding transcript
transcript-append [] ss = refl
transcript-append (r ∷ rs) ss =
    ap (◌++◌ (block r)) (transcript-append rs ss)
    ∙ sym (append_assoc (block r) (transcript rs) (transcript ss))

pub transcript-grown :
    (rs : List Request) (r : Request) → transcript (rs ++ r ∷ []) ≡ transcript rs ++ block r
unfolding transcript
transcript-grown rs r =
    transcript-append rs (r ∷ []) ∙ ap (◌++◌ (transcript rs)) (append-nil (block r))

pub upto-suc :
    (rs : List Request) (k : ℕ) {r : Request}
    → get_elem? rs k ≡ some r
    → upto rs (suc k) ≡ upto rs k ++ block r
unfolding upto transcript
upto-suc rs k {r} h =
    ap transcript (take-suc k rs h)
    ∙ transcript-append (take k rs) (r ∷ [])
    ∙ ap (◌++◌ (upto rs k)) (append-nil (block r))

-- Requests that come later do not change what stands below them.
pub upto-append : (rs ss : List Request) (k : ℕ) → k ≤ length rs → upto (rs ++ ss) k ≡ upto rs k
unfolding upto
upto-append rs ss k h = ap transcript (take-append_le k rs ss h)

pub hash_upto-append :
    (rs ss : List Request) (k : ℕ) → k ≤ length rs → hash_upto (rs ++ ss) k ≡ hash_upto rs k
unfolding hash_upto
hash_upto-append rs ss k h = ap history_hash (upto-append rs ss k h)

-- Committing a request, as both sides do it, appends its block.
pub append_block-IsHistoryOf :
    (h : History) (es : List Event) (acks : List Seq) (seq : Seq)
    → IsHistoryOf h es
    → let r = append (append_responses h acks) (request_event seq) in
      let fs = es ++ (map response_event acks ++ request_event seq ∷ []) in
      IsHistoryOf r.0 fs × (r.1 ≡ history_hash fs)
append_block-IsHistoryOf h es acks seq v =
    rw (← append_assoc es (map response_event acks) (request_event seq ∷ []))
      (append-IsHistoryOf _ _ (request_event seq) (append_responses-IsHistoryOf h es acks v))

pub transcript-upto-drop :
    (rs : List Request) (k : ℕ) → transcript rs ≡ upto rs k ++ transcript (drop k rs)
unfolding upto
transcript-upto-drop rs k =
    ap transcript (sym (take-append-drop k rs)) ∙ transcript-append (take k rs) (drop k rs)

pub length-upto-le : (rs : List Request) (k : ℕ) → length (upto rs k) ≤ length (transcript rs)
length-upto-le rs k = omega (
  arith,
  ap length (transcript-upto-drop rs k),
  length-append (upto rs k) (transcript (drop k rs)),
)

-- What the history up to request `k` adds to that up to an earlier request `c`.
pub upto-split :
    (rs : List Request) (c k : ℕ) → c ≤ k → upto rs k ≡ upto rs c ++ transcript (drop c (take k rs))
unfolding upto
upto-split rs c k h =
    transcript-upto-drop (take k rs) c
    ∙ ap (λ qs. transcript qs ++ transcript (drop c (take k rs))) (take-take_le c k rs h)

pub length-upto_mono :
    (rs : List Request) (c k : ℕ) → c ≤ k → length (upto rs c) ≤ length (upto rs k)
length-upto_mono rs c k h = omega (
  arith,
  ap length (upto-split rs c k h),
  length-append (upto rs c) (transcript (drop c (take k rs))),
)

pub hash_upto-whole : (rs : List Request) → hash_upto rs (length rs) ≡ history_hash (transcript rs)
unfolding hash_upto upto
hash_upto-whole rs = ap (λ qs. history_hash (transcript qs)) (take-length rs)
