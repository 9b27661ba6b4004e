-- ===== src/Bigtable/Session/Unopened.antt =====
-- pkg/bigtable/session.go: calls without a table, and calls that another message takes.
use Prim.Native.String.{String}
use cloudpebble.Base.{
  true, none, some, List, [], ◌∷◌, ◌++◌, ◌≡◌, refl, sym, ◌∙◌, ap, append_assoc, append-nil,
  Bool-cases, Option-cases, inl, inr, if_true, if_false,
}
use cloudpebble.Base.Order.{Bytes}
use cloudpebble.Bigtable.Session.{
  VirtualRpc, virtual_rpc, other, Received, request, end_of_file, Response, rpc_error, Stream, send,
  Protocol, Handlers, Answer, is_set, given, try_read_rows, try_check_and_mutate_row, dispatch_vrpc,
  with_error, call, handle_session,
}

-- requests that neither open nor close a session
pub data Call : Type 0 where
  calling : VirtualRpc → Call
  unknown : Call

unfoldable pub received : List Call → List Received
received [] = []
received (calling v ∷ cs) = request (virtual_rpc v) ∷ received cs
received (unknown ∷ cs) = request other ∷ received cs

-- the errors of the calls, in order
unfoldable pub errors : List Call → List Response
errors [] = []
errors (calling v ∷ cs) = rpc_error v.rpc_id ∷ errors cs
errors (unknown ∷ cs) = errors cs

-- a stream that takes everything, with what it was sent
abbrev pub taking : List Response → Stream
taking sent = record { sent = sent; refuses = λ rs. none }

module _ {W : Type 0} (p : Protocol) (h : Handlers p W) where
  dispatch_vrpc-unopened :
      (v : VirtualRpc) (w : W) (s : Stream)
      → (cause : String) × (dispatch_vrpc p h [] v w s ≡ (w, s, some cause))
  unfolding dispatch_vrpc
  dispatch_vrpc-unopened v w s = elim (Bool-cases (is_set v.payload)) [
    | inl e ↦ ("no table session established", if_true _ _ e)
    | inr e ↦ ("empty vRPC payload", if_false _ _ e)
  ]

  call-unopened :
      (v : VirtualRpc) (w : W) (sent : List Response)
      → call p h [] v w (taking sent) ≡ (w, taking (sent ++ rpc_error v.rpc_id ∷ []))
  unfolding call with_error send
  call-unopened v w sent =
      let (cause, e) = dispatch_vrpc-unopened v w (taking sent) in ap (with_error v.rpc_id) e

  -- Before a session names a table, on a stream that takes every `Send`, of requests that are calls or
  -- unknown, and neither open nor close a session, every call is answered by its error, in order, and
  -- no handler is called; the session ends without an error at the end of the stream, whatever would
  -- come after it.
  pub handle_session-unopened :
      (cs : List Call) (after : List Received) (w : W) (sent : List Response)
      → handle_session p h (received cs ++ end_of_file ∷ after) [] w (taking sent)
        ≡ (w, taking (sent ++ errors cs), none)
  unfolding handle_session received errors
  handle_session-unopened [] after w sent = ap (λ rs. (w, taking rs, none)) (sym (append-nil sent))
  handle_session-unopened (unknown ∷ cs) after w sent = handle_session-unopened cs after w sent
  handle_session-unopened (calling v ∷ cs) after w sent =
      ap (λ r. handle_session p h (received cs ++ end_of_file ∷ after) [] r.0 r.1)
        (call-unopened v w sent)
      ∙ handle_session-unopened cs after w (sent ++ rpc_error v.rpc_id ∷ [])
      ∙ ap (λ rs. (w, taking rs, none)) (append_assoc sent (rpc_error v.rpc_id ∷ []) (errors cs))

  try_read_rows-check :
      (f : p.MutateRow → W → W × Answer p.Message) (table : Bytes) (v : VirtualRpc) (w : W)
      (s : Stream) (q : p.CheckAndMutateRow)
      → p.check_and_mutate_row v.payload ≡ some q
      → is_set (p.check_row_key q) ≡ true
      → try_read_rows p h table v w s ≡ try_read_rows p (record h { mutate_row = f }) table v w s
  unfolding try_read_rows try_check_and_mutate_row given
  try_read_rows-check f table v w s q e k =
      elim (Option-cases (given (λ r. is_set (p.read_table r)) (p.read_rows v.payload))) [
        | inr (r, x) ↦ rw (x, try_read_rows) refl
        | inl x ↦ rw (x, try_read_rows) (rw (e, try_check_and_mutate_row) (rw k refl))
      ]

  -- A call whose payload can be read as a CheckAndMutateRow with a row key never reaches MutateRow: the
  -- dispatch is the same whatever that handler is.
  pub dispatch_vrpc-check :
      (f : p.MutateRow → W → W × Answer p.Message) (table : Bytes) (v : VirtualRpc) (w : W)
      (s : Stream) (q : p.CheckAndMutateRow)
      → p.check_and_mutate_row v.payload ≡ some q
      → is_set (p.check_row_key q) ≡ true
      → dispatch_vrpc p h table v w s ≡ dispatch_vrpc p (record h { mutate_row = f }) table v w s
  unfolding dispatch_vrpc
  dispatch_vrpc-check f table v w s q e k = elim (Bool-cases (is_set v.payload)) [
    | inr x ↦ if_false _ _ x ∙ sym (if_false _ _ x)
    | inl x ↦ elim (Bool-cases (is_set table)) [
      | inr y ↦ if_true _ _ x ∙ if_false _ _ y ∙ sym (if_true _ _ x ∙ if_false _ _ y)
      | inl y ↦
          if_true _ _ x
          ∙ if_true _ _ y
          ∙ try_read_rows-check f table v w s q e k
          ∙ sym (if_true _ _ x ∙ if_true _ _ y)
    ]
  ]
