-- ===== src/Registry.antt =====
-- The connected agents (internal/server/agentreg/registry.go): the map of
-- streams, what they report, and the sends to them. Go's map is an
-- association list, the identity of a stream's context a number drawn when it registers.
pub mod Streams
use backup_management_center.Common.{
  ℕ, suc, ◌+◌, String, Bool, true, false, ◌&&◌, not, Option, none, some, List, [], ◌∷◌, ◌++◌, map,
  ◌==◌, ltb, nat_eq, string_eq, length, find_where, update_where, delete_where, any_where,
  if◌then◌else◌,
}

-- What the agent is sent, as far as the registry goes: the run of the command, and whether it is a
-- `CancelCommand`, which has no attempt (0).
pub record Message : Type 0 where
  pub run_id : String
  pub attempt : ℕ
  pub is_stop : Bool

-- `streamState`, in the map `streams` or, once kicked, only in the hands of its own connection.
pub record Stream : Type 0 where
  pub agent_id : String
  pub ctx : ℕ
  pub cancelled : Bool
  pub sent : List Message
  pub caps_ready : Bool
  pub safe_db_restore : Bool

-- `Registry`: the map's streams, those that left it, and the number of the next context.
pub record Registry : Type 0 where
  pub streams : List Stream
  pub gone : List Stream
  pub next_ctx : ℕ

-- `ErrAgentNotConnected`, `ErrCapabilitiesPending`, `ErrUnsafeDatabaseRestore`, `ctx.Err()`.
pub data SendErr : Type 0 where
  agent_not_connected capabilities_pending unsafe_database_restore context_cancelled : SendErr

pub data SendResult : Type 0 where
  sent_to : Registry → SendResult
  refused : SendErr → SendResult

abbrev pub of_agent : String → Stream → Bool
of_agent agent st = st.agent_id == agent

abbrev pub stream_of : String → Registry → Option Stream
stream_of agent r = find_where (of_agent agent) r.streams

abbrev pub cancel : Stream → Stream
cancel st = record st { cancelled = true }

abbrev pub new_stream : String → ℕ → Stream
new_stream agent ctx = record {
  agent_id = agent;
  ctx = ctx;
  cancelled = false;
  sent = [];
  caps_ready = false;
  safe_db_restore = false;
}

abbrev pub retire : Option Stream → List Stream → List Stream
retire none gone = gone
retire (some st) gone = cancel st ∷ gone

-- `Register`; the context is the number before.
unfoldable pub register : String → Registry → Registry
register agent r = record {
  streams = new_stream agent r.next_ctx ∷ delete_where (of_agent agent) r.streams;
  gone = retire (stream_of agent r) r.gone;
  next_ctx = suc r.next_ctx;
}

-- `Unregister`
unfoldable pub unregister : String → Registry → Registry
unregister agent r = record r {
  streams = delete_where (of_agent agent) r.streams;
  gone = retire (stream_of agent r) r.gone;
}

-- The agent's stream, when it is the one of this context.
abbrev pub is_current : String → ℕ → Registry → Bool
is_current agent ctx r = elim (stream_of agent r) [ none ↦ false | some st ↦ st.ctx == ctx ]

-- `UnregisterIf`
unfoldable pub unregister_if : String → ℕ → Registry → Bool × Registry
unfolding unregister
unregister_if agent ctx r =
    if is_current agent ctx r then (true, unregister agent r) else (false, r)

-- `ConnectionCapabilities`: ready, safe, connected.
unfoldable pub connection_capabilities : String → Registry → Bool × Bool × Bool
connection_capabilities agent r = elim (stream_of agent r) [
  | none ↦ (false, false, false)
  | some st ↦ (st.caps_ready, st.safe_db_restore, true)
]

abbrev pub reported : Bool → Stream → Stream
reported safe st = record st { caps_ready = true; safe_db_restore = safe }

-- `ReportCapabilities`
unfoldable pub report_capabilities : String → ℕ → Bool → Registry → Bool × Registry
report_capabilities agent ctx safe r =
    if is_current agent ctx r
    then (true, record r { streams = update_where (of_agent agent) (reported safe) r.streams })
    else (false, r)

abbrev pub delivered : Message → Stream → Stream
delivered msg st = record st { sent = st.sent ++ (msg ∷ []) }

-- The `select` of a send to a stream in the map: the channel takes the message, or the context
-- is done. (A full channel waits for one of the two. Go may pick either when both are ready; here a
-- context that is done always wins.)
abbrev pub push : String → Message → Stream → Registry → SendResult
push agent msg st r =
    if st.cancelled
    then refused context_cancelled
    else sent_to (record r { streams = update_where (of_agent agent) (delivered msg) r.streams })

-- `SendWithCapability`
unfoldable pub send_with_capability : String → Message → Bool → Registry → SendResult
send_with_capability agent msg require_safe r = elim (stream_of agent r) [
  | none ↦ refused agent_not_connected
  | some st ↦
      if not st.caps_ready
      then refused capabilities_pending
      else if require_safe && not st.safe_db_restore
      then refused unsafe_database_restore
      else push agent msg st r
]

-- `Send`
unfoldable pub send : String → Message → Registry → SendResult
send agent msg r = elim (stream_of agent r) [
  | none ↦ refused agent_not_connected
  | some st ↦ push agent msg st r
]

-- `Connected` and `IsConnected`
unfoldable pub connected : String → Registry → Bool
connected agent r = any_where (of_agent agent) r.streams

-- `List`
unfoldable pub list_agents : Registry → List String
list_agents r = map (λ st. st.agent_id) r.streams
