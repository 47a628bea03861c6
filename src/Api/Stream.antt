-- ===== src/Api/Stream.antt =====
-- src/api/customprotocol-core/stream.ts: a stream that polls its backend by the timer. One request is
-- under way at a time. What comes of a request, after the retries, is an argument.
pub mod Laws
use hubble_ui.Prelude.{
  ℕ, Bool, true, false, not, ◌&&◌, ◌||◌, Option, none, some, List, [], ◌∷◌, ◌++◌, Str, nat_eq,
  if◌then◌else◌,
}

-- The meta data of a message, and whether its body has content; the delay is in milliseconds.
pub record Response : Type 0 where
  pub channel_id : Str
  pub poll_delay : ℕ
  pub has_payload : Bool
  pub is_not_ready : Bool
  pub is_terminated : Bool
  pub is_empty : Bool
  pub is_error : Bool
  pub errors : List Str

-- What `_send` gives or throws: a DOMException (an AbortError or another), a TypeError, or else
pub data Reply : Type 0 where
  message : Response → Reply
  nothing interrupted unrecognized : Reply
  aborted dom_exception type_error other_error : Reply

pub data PollControl : Type 0 where
  continue finalized terminate : PollControl

pub data StreamEvent : Type 0 where
  message_received invalid_message : Response → StreamEvent
  terminated : Bool → List Str → StreamEvent
  errors_received : List Str → StreamEvent
  connection_error connect_timeout unknown_error : StreamEvent

-- The promise of the channel's id: not made, made and not resolved, or resolved.
pub data Channel : Type 0 where
  absent opening : Channel
  opened : Str → Channel

-- No `timer` is a stopped stream; otherwise it is the delay to the next poll.
pub record Stream : Type 0 where
  pub timer : Option ℕ
  pub channel : Channel

unfoldable pub new : Stream
new = record { timer = none; channel = absent }

unfoldable pub is_stopped : Stream → Bool
is_stopped s = elim s.timer [ none ↦ true | some delay ↦ false ]

unfoldable pub terminate_stream : Stream → Stream
terminate_stream s = record { timer = none; channel = absent }

unfoldable pub run : Stream → Stream
run s = elim s.timer [ none ↦ record s { timer = some 0 } | some delay ↦ s ]

abbrev when : Bool → StreamEvent → List StreamEvent
when b event = if b then event ∷ [] else []

-- `send` on a message: what to do, and the events
unfoldable pub settle_message : Bool → Response → PollControl × List StreamEvent
settle_message req_terminated resp =
    let received =
      when resp.is_error (errors_received resp.errors)
      ++ when resp.has_payload (message_received resp) in
    let final = resp.is_not_ready || (resp.is_empty || req_terminated) in
    if resp.is_terminated
    then (if final
        then (finalized, received ++ terminated req_terminated resp.errors ∷ [])
        else (continue, received))
    else (continue, received ++ when (nat_eq resp.poll_delay 0) (invalid_message resp))

-- `send` on a reply, with whether the request asked for termination
unfoldable pub settle : Bool → Reply → PollControl × List StreamEvent
unfolding settle_message
settle req_terminated (message resp) = settle_message req_terminated resp
settle req_terminated nothing = (continue, [])
settle req_terminated interrupted = (finalized, terminated true [] ∷ [])
settle req_terminated unrecognized = (terminate, [])
settle req_terminated aborted = (finalized, [])
settle req_terminated dom_exception = (continue, connect_timeout ∷ [])
settle req_terminated type_error = (continue, connection_error ∷ [])
settle req_terminated other_error = (continue, unknown_error ∷ [])

-- What the retries of a request end in: a value, or an error that is thrown
pub data Request : Type 0 where
  fulfilled rejected : Reply → Request

-- `Promise.any` over the interruption and the retries: an error of the retries is not thrown, since
-- the interruption is still awaited. None is a wait that only an interruption ends.
unfoldable pub reply_of : Request → Bool → Option Reply
reply_of (fulfilled reply) interruption = some reply
reply_of (rejected error) interruption = if interruption then some interrupted else none

-- The channel after the first request: its promise is resolved by a message only.
unfoldable pub open_channel : Reply → Channel
open_channel (message resp) = opened resp.channel_id
open_channel _ = opening

unfoldable pub is_other_error : Reply → Bool
is_other_error other_error = true
is_other_error _ = false

-- `send`, with whether it asks for termination: none if it waits for the channel's id for ever, for
-- the request that would resolve its promise is over.
unfoldable pub send : Stream → Bool → Reply → Option (Stream × (PollControl × List StreamEvent))
unfolding open_channel settle is_other_error terminate_stream
send s req_terminated reply = elim s.channel [
  | opening ↦ none
  | absent ↦
      let s' = record s { channel = open_channel reply } in
      some (if is_other_error reply then terminate_stream s' else s', settle req_terminated reply)
  | opened id ↦
      some (if is_other_error reply then terminate_stream s else s, settle req_terminated reply)
]

-- `stop`, with the reply to the request to terminate
unfoldable pub stop : Stream → Reply → Option (Stream × List StreamEvent)
unfolding send terminate_stream
stop s reply = elim s.timer [
  | none ↦ some (s, [])
  | some delay ↦ elim (send s true reply) [
    | none ↦ none
    | some (s', (_, events)) ↦ some (terminate_stream s', events)
  ]
]

unfoldable pub delay_of : Reply → ℕ
delay_of (message resp) = resp.poll_delay
delay_of _ = 0

-- `this.timer?.reset(delay)`
unfoldable pub reset_timer : Stream → ℕ → Stream
reset_timer s delay = elim s.timer [ none ↦ s | some old ↦ record s { timer = some delay } ]

-- The handler of the timer, with the reply to the poll and the one to a request to terminate
unfoldable pub poll : Stream → Reply → Reply → Option (Stream × List StreamEvent)
unfolding send reset_timer stop terminate_stream delay_of
poll s reply last = elim (send s false reply) [
  | none ↦ none
  | some (s', (control, events)) ↦ elim control [
    | continue ↦ some (reset_timer s' (delay_of reply), events)
    | finalized ↦ some (terminate_stream s', events)
    | terminate ↦ elim (stop s' last) [
      | none ↦ none
      | some (s'', more) ↦ some (s'', events ++ more)
    ]
  ]
]
