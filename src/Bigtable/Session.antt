-- ===== src/Bigtable/Session.antt =====
-- pkg/bigtable/session.go: a session stream and the calls that it carries. The messages and their decoding
-- are those of the generated protocol code, and the handlers are an interface; both change the server
-- as a whole, a state of type `W`.
pub mod Unopened
use Prim.Native.String.{String}
use cloudpebble.Base.{ℕ, Bool, true, false, Option, none, some, List, [], ◌∷◌, ◌++◌, if◌then◌else◌}
use cloudpebble.Base.Order.{Bytes}

pub record VirtualRpc : Type 0 where
  pub rpc_id : ℕ
  pub payload : Bytes

-- `other` is a request without a payload that the session knows, or with a nil `VirtualRpc`
pub data Request : Type 0 where
  open_session : Bytes → Request
  close_session : Request
  virtual_rpc : VirtualRpc → Request
  other : Request

-- what `Recv` gives
pub data Received : Type 0 where
  request : Request → Received
  end_of_file : Received
  recv_failed : String → Received

-- `nothing` is the nil response that is sent when the marshalling failed
pub data Response : Type 0 where
  session_opened : Response
  rpc_response : ℕ → Bytes → Response
  rpc_error : ℕ → Response
  nothing : Response

-- The responses of a stream so far, in order. `refuses` says of them whether the next `Send` fails.
pub record Stream : Type 0 where
  pub sent : List Response
  pub refuses : List Response → Option String

unfoldable pub send : Response → Stream → Stream × Option String
send r s = elim (s.refuses s.sent) [
  | some cause ↦ (s, some cause)
  | none ↦ (record s { sent = s.sent ++ r ∷ [] }, none)
]

-- What the session uses of the protocol code: for each message `proto.Unmarshal` and the field that is
-- asked for, and `proto.Marshal` of the responses.
pub record Protocol : Type 1 where
  pub ReadRows : Type 0
  pub CheckAndMutateRow : Type 0
  pub MutateRow : Type 0
  pub MutateRows : Type 0
  pub SampleRowKeys : Type 0
  pub PingAndWarm : Type 0
  pub Message : Type 0
  pub read_rows : Bytes → Option ReadRows
  pub check_and_mutate_row : Bytes → Option CheckAndMutateRow
  pub mutate_row : Bytes → Option MutateRow
  pub mutate_rows : Bytes → Option MutateRows
  pub sample_row_keys : Bytes → Option SampleRowKeys
  pub ping_and_warm : Bytes → Option PingAndWarm
  -- `OpenTableRequest`: the name of the table
  pub open_table : Bytes → Option Bytes
  pub read_table : ReadRows → Bytes
  pub with_read_table : Bytes → ReadRows → ReadRows
  pub check_row_key : CheckAndMutateRow → Bytes
  pub mutate_row_key : MutateRow → Bytes
  -- whether there are entries
  pub has_entries : MutateRows → Bool
  pub sample_table : SampleRowKeys → Bytes
  pub ping_name : PingAndWarm → Bytes
  pub marshal : Message → Option Bytes

-- a call that streams: it is given the `Send` of its stream
abbrev pub Streaming : Type 0 → Type 0 → Type 0 → Type 0
Streaming W M Q =
    Q → (M → Stream → Stream × Option String) → W → Stream → W × Stream × Option String

-- a call with one answer: the response, or an error
pub data Answer (M : Type 0) : Type 0 where
  answer : M → Answer M
  fails : String → Answer M

pub record Handlers (p : Protocol) (W : Type 0) : Type 0 where
  pub read_rows : Streaming W p.Message p.ReadRows
  pub check_and_mutate_row : p.CheckAndMutateRow → W → W × Answer p.Message
  pub mutate_row : p.MutateRow → W → W × Answer p.Message
  pub mutate_rows : Streaming W p.Message p.MutateRows
  pub sample_row_keys : Streaming W p.Message p.SampleRowKeys
  pub ping_and_warm : p.PingAndWarm → W → W × Answer p.Message

abbrev pub is_set : Bytes → Bool
is_set [] = false
is_set (c ∷ cs) = true

-- a request that was decoded and has the field that is asked for
unfoldable pub given : {Q : Type 0} → (Q → Bool) → Option Q → Option Q
given test none = none
given test (some q) = if test q then some q else none

-- the error of a call is sent, whether or not it can be
unfoldable pub with_error : {W : Type 0} → ℕ → W × Stream × Option String → W × Stream
with_error id (w, s, none) = (w, s)
with_error id (w, s, some cause) = (w, (send (rpc_error id) s).0)

module _ (p : Protocol) where
  -- `marshalSessionResponse`, whose error is ignored
  unfoldable pub marshal_session_response : ℕ → p.Message → Response
  marshal_session_response id m = elim (p.marshal m) [ none ↦ nothing | some d ↦ rpc_response id d ]

  -- `sendToSession`
  unfoldable pub send_to_session : ℕ → p.Message → Stream → Stream × Option String
  send_to_session id m s = send (marshal_session_response id m) s

  -- a call with one answer, and its response
  unfoldable pub respond :
      {W : Type 0} → ℕ → W × Answer p.Message → Stream → W × Stream × Option String
  respond id (w, fails cause) s = (w, s, some cause)
  respond id (w, answer m) s = let (s', error) = send_to_session id m s in (w, s', error)

  -- the table after a request to open one, which may not be decoded
  unfoldable pub opened_table : Bytes → Bytes → Bytes
  opened_table table d = elim (p.open_table d) [ none ↦ table | some t ↦ t ]

module _ {W : Type 0} (p : Protocol) (h : Handlers p W) where
  abbrev pub Outcome : Type 0
  Outcome = W × Stream × Option String

  -- the attempts of `dispatchVRPC`, the last one first
  unfoldable pub try_ping_and_warm : VirtualRpc → W → Stream → Outcome
  try_ping_and_warm v w s = elim (given (λ q. is_set (p.ping_name q)) (p.ping_and_warm v.payload)) [
    | none ↦ (w, s, some "unsupported vRPC request type")
    | some q ↦ respond p v.rpc_id (h.ping_and_warm q w) s
  ]

  unfoldable pub try_sample_row_keys : VirtualRpc → W → Stream → Outcome
  try_sample_row_keys v w s =
      elim (given (λ q. is_set (p.sample_table q)) (p.sample_row_keys v.payload)) [
        | none ↦ try_ping_and_warm v w s
        | some q ↦ h.sample_row_keys q (send_to_session p v.rpc_id) w s
      ]

  unfoldable pub try_mutate_rows : VirtualRpc → W → Stream → Outcome
  try_mutate_rows v w s = elim (given p.has_entries (p.mutate_rows v.payload)) [
    | none ↦ try_sample_row_keys v w s
    | some q ↦ h.mutate_rows q (send_to_session p v.rpc_id) w s
  ]

  unfoldable pub try_mutate_row : VirtualRpc → W → Stream → Outcome
  try_mutate_row v w s = elim (given (λ q. is_set (p.mutate_row_key q)) (p.mutate_row v.payload)) [
    | none ↦ try_mutate_rows v w s
    | some q ↦ respond p v.rpc_id (h.mutate_row q w) s
  ]

  unfoldable pub try_check_and_mutate_row : VirtualRpc → W → Stream → Outcome
  try_check_and_mutate_row v w s =
      elim (given (λ q. is_set (p.check_row_key q)) (p.check_and_mutate_row v.payload)) [
        | none ↦ try_mutate_row v w s
        | some q ↦ respond p v.rpc_id (h.check_and_mutate_row q w) s
      ]

  unfoldable pub try_read_rows : Bytes → VirtualRpc → W → Stream → Outcome
  try_read_rows table v w s = elim (given (λ q. is_set (p.read_table q)) (p.read_rows v.payload)) [
    | none ↦ try_check_and_mutate_row v w s
    | some q ↦ h.read_rows (p.with_read_table table q) (send_to_session p v.rpc_id) w s
  ]

  -- `dispatchVRPC`
  unfoldable pub dispatch_vrpc : Bytes → VirtualRpc → W → Stream → Outcome
  dispatch_vrpc table v w s =
      if is_set v.payload
      then if is_set table
        then try_read_rows table v w s
        else (w, s, some "no table session established")
      else (w, s, some "empty vRPC payload")

  -- a virtual call in `handleSession`
  unfoldable pub call : Bytes → VirtualRpc → W → Stream → W × Stream
  call table v w s = with_error v.rpc_id (dispatch_vrpc table v w s)

  -- `handleSession`, over what `Recv` gives; after the last one it waits
  unfoldable pub handle_session : List Received → Bytes → W → Stream → Outcome
  handle_session [] table w s = (w, s, none)
  handle_session (end_of_file ∷ rs) table w s = (w, s, none)
  handle_session (recv_failed cause ∷ rs) table w s = (w, s, some cause)
  handle_session (request (open_session d) ∷ rs) table w s =
      let named = opened_table p table d in
      let (s', error) = send session_opened s in
      elim error [ some cause ↦ (w, s', some cause) | none ↦ handle_session rs named w s' ]
  handle_session (request close_session ∷ rs) table w s = (w, s, none)
  handle_session (request (virtual_rpc v) ∷ rs) table w s =
      let (w', s') = call table v w s in handle_session rs table w' s'
  handle_session (request other ∷ rs) table w s = handle_session rs table w s
