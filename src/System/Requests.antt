-- ===== src/System/Requests.antt =====
-- What a server answers to a request of the conversation, new or received again.
use color.Prelude.{ℕ, ◌+◌, ◌<◌, ◌≡◌, false, none, some, [], ◌∷◌, length, get_elem?, inc64}
use color.Text.{Bytes}
use color.Dict.{lookup}
use color.Core.Message.{Request}
use color.Core.Server.{needs_recover, make_response, on_request}
use color.Core.Server.Ordering.{InOrder, on_request-InOrder}
use color.Core.Server.Served.{Served}
use color.Core.Server.Serving.{on_request-Served}
use color.Core.Server.Retransmission.{on_request-resend}
use color.System.{System, Setup, start, Reach}
use color.System.Safety.{Reach-IsConsistent}

module _ {W : Type 0} (u : Setup W) {y : System W} (r : Reach (start u) y) where
  -- A request of the conversation above what is committed, if the server does not refuse it, makes
  -- the server answer the next requests in the order of their ids, no id left out. For each of them it
  -- calls the application once, for the first time, with the payload that was sent and the history up
  -- to it, and the response carries what the application returns; the server's application state and
  -- record of calls are those that these calls leave. It has then committed exactly those requests,
  -- and the next request is not among the staged ones.
  pub on_request-ordered :
      (i : ℕ) (req : Request)
      → get_elem? y.requests i ≡ some req
      → needs_recover y.server req ≡ false
      → y.server.committed_upto < req.seq
      → let (s, out) = on_request y.server req in
        InOrder y.server.committed_upto out
        × Served y.requests y.server.app y.server.committed_upto y.server.world y.server.app_calls
            out s.world s.app_calls
        × (y.server.committed_upto + length out ≡ s.committed_upto)
        × (lookup (inc64 s.committed_upto) s.pending_reqs ≡ none)
  on_request-ordered i req sent accepted fresh =
      let v = Reach-IsConsistent u r in
      let (ordered, total, drained) =
        on_request-InOrder v.conversation y.server i req v.agrees sent accepted fresh in
      (
        ordered,
        on_request-Served v.conversation y.server i req v.agrees sent accepted fresh,
        total,
        drained,
      )

  -- A request of the conversation whose response is still buffered, received again at any time, is answered by this
  -- response alone, with the hash that the server knows for it; the application, its state, the
  -- history and the count of calls are left alone, and the response stays in the buffer.
  pub on_request-buffered :
      (i : ℕ) (req : Request) (payload : Bytes)
      → get_elem? y.requests i ≡ some req
      → lookup req.seq y.server.resp_buffer ≡ some payload
      → let (s, out) = on_request y.server req in
        (out ≡ make_response y.server req.seq payload false ∷ [])
        × (s.world ≡ y.server.world)
        × (s.history ≡ y.server.history)
        × (s.committed_upto ≡ y.server.committed_upto)
        × (s.app_calls ≡ y.server.app_calls)
        × (lookup req.seq s.resp_buffer ≡ some payload)
  on_request-buffered i req payload sent found =
      let v = Reach-IsConsistent u r in
      on_request-resend v.conversation y.server i req payload v.agrees sent found
