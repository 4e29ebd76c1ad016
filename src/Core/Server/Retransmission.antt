-- ===== src/Core/Server/Retransmission.antt =====
-- color_server.cc, `on_request`: a request that is received again, and `release_acked`.
use color.Prelude.{
  ℕ, ◌≤◌, ◌<◌, ◌≡◌, refl, ◌∙◌, true, false, ◌||◌, none, some, List, [], ◌∷◌, if◌then◌else◌, arith,
  length, get_elem?, inc64-eq, leb, ltb, All,
}
use color.Dict.{lookup, erase, contains}
use color.Dict.Laws.{lookup-erase}
use color.Text.{Bytes}
use color.Core.Message.{Seq, Request}
use color.Core.Server.{
  Server, drop_below, erase_all, release_acked, any_above, needs_recover, make_response,
  answer_committed, track_bounds, on_request,
}
use color.Core.Server.Agreement.{IsConversation, Agrees}

any_above-All :
    (n i : ℕ) (acks : List Seq) → All (λ k. k ≤ i) acks → i ≤ n → any_above n acks ≡ false
unfolding any_above
any_above-All n i [] h low = refl
any_above-All n i (k ∷ acks) h low = ground (arith, any_above-All n i acks h.1 low, h.0)

pub needs_recover-IsConversation :
    {W : Type 0} {rs : List Request} (s : Server W) (i : ℕ) (req : Request)
    → IsConversation rs
    → get_elem? rs i ≡ some req
    → i ≤ s.committed_upto
    → s.committed_upto ≤ length rs
    → needs_recover s req ≡ false
unfolding needs_recover
needs_recover-IsConversation {rs = rs} s i req conv sent low bound =
    let (_, base, acks) = conv.acks i req sent in
    let short = conv.short in
    ground (
      arith,
      inc64-eq s.committed_upto,
      any_above-All s.committed_upto i req.ack_new acks (omega arith),
    )

lookup-drop_below :
    {V : Type 0} (base k : ℕ) (m : List (Seq × V))
    → lookup k (drop_below base m) ≡ (if ltb k base then none else lookup k m)
unfolding lookup drop_below
lookup-drop_below base k [] = ground arith
lookup-drop_below base k ((j, v) ∷ m) = ground (arith, lookup-drop_below base k m)

lookup-erase_all :
    {V : Type 0} (acks : List Seq) (k : ℕ) (m : List (Seq × V))
    → lookup k (erase_all acks m) ≡ (if contains k acks then none else lookup k m)
unfolding erase_all contains
lookup-erase_all [] k m = refl
lookup-erase_all (i ∷ acks) k m =
    ground (arith, lookup-erase_all acks k (erase i m), lookup-erase i k m)

-- An acknowledgement releases the buffered responses below its base and those that it lists, and no
-- other.
pub lookup-release_acked :
    {W : Type 0} (s : Server W) (req : Request) (k : Seq)
    → lookup k (release_acked s req).resp_buffer
      ≡ (if ltb k req.ack_base || contains k req.ack_new then none else lookup k s.resp_buffer)
unfolding release_acked
lookup-release_acked s req k = ground (
  arith,
  lookup-erase_all req.ack_new k (drop_below req.ack_base s.resp_buffer),
  lookup-drop_below req.ack_base k s.resp_buffer,
)

All-unlisted : (k i : ℕ) (acks : List Seq) → All (λ j. j ≤ i) acks → i < k → contains k acks ≡ false
unfolding contains
All-unlisted k i [] h low = refl
All-unlisted k i (j ∷ acks) h low = ground (arith, All-unlisted k i acks h.1 low, h.0)

answer_committed-resend :
    {W : Type 0} (s : Server W) (req : Request) (payload : Bytes)
    → lookup req.seq s.resp_buffer ≡ some payload
    → answer_committed s req ≡ (s, make_response s req.seq payload false ∷ [])
unfolding answer_committed
answer_committed-resend s req payload h = rw (h, answer_committed) refl

module _ {W : Type 0} {rs : List Request} (conv : IsConversation rs) where
  -- A request does not acknowledge its own response.
  kept-release_acked :
      (s : Server W) (i : ℕ) (req : Request)
      → get_elem? rs i ≡ some req
      → lookup req.seq (release_acked s req).resp_buffer ≡ lookup req.seq s.resp_buffer
  kept-release_acked s i req here =
      let (_, base, acks) = conv.acks i req here in
      let numbered = conv.numbered i req here in
      let unlisted = All-unlisted req.seq i req.ack_new acks (omega (arith, numbered)) in
      let above : ltb req.seq req.ack_base ≡ false = ground (arith, numbered) in
      lookup-release_acked s req req.seq ∙ rw (above, unlisted) refl

  pub on_request-resend :
      (s : Server W) (i : ℕ) (req : Request) (payload : Bytes)
      → Agrees rs s
      → get_elem? rs i ≡ some req
      → lookup req.seq s.resp_buffer ≡ some payload
      → let (s', out) = on_request s req in
        (out ≡ make_response s req.seq payload false ∷ [])
        × (s'.world ≡ s.world)
        × (s'.history ≡ s.history)
        × (s'.committed_upto ≡ s.committed_upto)
        × (s'.app_calls ≡ s.app_calls)
        × (lookup req.seq s'.resp_buffer ≡ some payload)
  unfolding on_request track_bounds make_response
  on_request-resend s i req payload v here found =
      let (h, known) = v.buffered req.seq payload found in
      let (low, _) = v.stamped req.seq h known in
      let numbered = conv.numbered i req here in
      let accepted : needs_recover s req ≡ false =
        needs_recover-IsConversation s i req conv here (omega (arith, numbered)) v.behind in
      let old : leb req.seq s.committed_upto ≡ true = ground arith in
      let kept = kept-release_acked s i req here ∙ found in
      let same : on_request s req ≡ (
        track_bounds (release_acked s req),
        make_response (release_acked s req) req.seq payload false ∷ [],
      ) =
        rw (accepted, on_request)
          (rw (answer_committed-resend (release_acked s req) req payload kept)
            (unfold release_acked in rw old refl)) in
      rw same
        (unfold release_acked track_bounds make_response in (refl, refl, refl, refl, refl, kept))
