-- ===== src/Service.antt =====
-- The service at the agents' end (internal/server/agentreg/service.go): its state, and how an
-- agent enrolls, is let in, and reports that it is there.
pub mod Progress
pub mod Reports
pub mod Results
pub mod Ends
pub mod Outcomes
pub mod Endings
pub mod Repeated
pub mod Blocked
pub mod Disconnect
pub mod InFlight
pub mod Cleared
pub mod Secrets
use backup_management_center.Common.{
  ℕ, ◌-◌, String, Bool, true, false, ◌&&◌, ◌||◌, not, Option, none, some, List, [], ◌∷◌, ◌==◌, ltb,
  nat_eq, string_eq, find_where, update_where, any_where, if◌then◌else◌,
}
use backup_management_center.Model.Status.{dispatched, running}
use backup_management_center.Model.Types.{Run, Agent}
use backup_management_center.Store.Outcome.{
  StoreErr, Outcome, ok, err, token_invalid, agent_revoked, not_found, settle,
}
use backup_management_center.Store.Db.{Db}
use backup_management_center.Store.Runs.{list_runs_by_status}
use backup_management_center.Store.Agents.{
  consume_enrollment_token, re_enroll_agent, upsert_agent_on_connect, get_agent, set_agent_status,
  save_agent_capabilities,
}
use backup_management_center.Registry.{
  Registry, connected, register, unregister, report_capabilities,
}

-- An entry of `lastSeenWrites`.
pub record Seen : Type 0 where
  pub agent_id : String
  pub at : ℕ

-- A line of a run's log, as the server appends it.
pub record LogLine : Type 0 where
  pub run_id : String
  pub level : String
  pub message : String

-- A call of `warmCache`.
pub record Warming : Type 0 where
  pub repository_id : String
  pub snapshot_id : String

-- `Service`, with the store and the registry. The lists from `notified` on record what it did, the
-- latest first: notified runs, deleted secrets, published runs, log lines, warmed caches.
pub record Service : Type 0 where
  pub db : Db
  pub registry : Registry
  pub last_seen_writes : List Seen
  pub has_warm_cache : Bool
  pub stopped : Bool
  pub notified : List String
  pub wiped : List String
  pub published : List Run
  pub logs : List LogLine
  pub warmed : List Warming

-- What a call or a handler answers: `nil`, a gRPC status, or the store's error.
pub data Reply : Type 0 where
  done invalid_argument permission_denied failed_precondition absent internal unknown_status : Reply
  store_failed : StoreErr → Reply

-- `EnrollRequest`, with the hashes that `secrets.HashToken` makes of its token and its secret.
pub record EnrollRequest : Type 0 where
  pub secret_length : ℕ
  pub token_hash : String
  pub secret_hash : String
  pub target_agent_id : String
  pub hostname : String
  pub os : String
  pub arch : String
  pub version : String

abbrev pub holds_agent : String → Run → Bool
holds_agent agent r = r.agent_id == agent

-- The error switch after `ReEnrollAgent`.
abbrev pub re_enroll_reply : StoreErr → Reply
re_enroll_reply agent_revoked = permission_denied
re_enroll_reply not_found = absent
re_enroll_reply _ = internal

-- An enrollment for an agent that is known: its streams and runs must have ended.
unfoldable pub enroll_target : ℕ → String → String → Service → Reply × Service
enroll_target now target secret_hash s =
    if connected target s.registry
    then (failed_precondition, s)
    else if any_where (holds_agent target) (list_runs_by_status (dispatched ∷ running ∷ []) s.db)
    then (failed_precondition, s)
    else elim (re_enroll_agent target secret_hash now s.db) [
      | err e ↦ (re_enroll_reply e, s)
      | ok after ↦ (done, record s { db = after; registry = unregister target s.registry })
    ]

-- A new agent, under a fresh identifier of which `short` is the beginning.
abbrev pub enrolled_agent : ℕ → String → String → EnrollRequest → Agent
enrolled_agent now id short req = record {
  id = id;
  name = if req.hostname == "" then short else req.hostname;
  hostname = req.hostname;
  os = req.os;
  arch = req.arch;
  version = req.version;
  online = false;
  last_seen_at = none;
  enrolled_at = now;
  token_hash = req.secret_hash;
  capabilities_json = "";
  revoked = false;
}

unfoldable pub enroll_new : ℕ → String → String → EnrollRequest → Service → Reply × Service
enroll_new now id short req s =
    elim (upsert_agent_on_connect (enrolled_agent now id short req) s.db) [
      | err e ↦ (internal, s)
      | ok after ↦ (done, record s { db = after })
    ]

-- `Enroll`; the token is spent before the target is compared, and stays spent.
unfoldable pub enroll : ℕ → String → String → EnrollRequest → Service → Reply × Service
unfolding enroll_target enroll_new
enroll now id short req s =
    if not (req.secret_length == 32)
    then (invalid_argument, s)
    else elim (consume_enrollment_token req.token_hash now s.db) [
      | err token_invalid ↦ (permission_denied, s)
      | err _ ↦ (internal, s)
      | ok (t, after) ↦
          let spent = record s { db = after } in
          if not (t.target_agent_id == req.target_agent_id)
          then (permission_denied, spent)
          else if not (req.target_agent_id == "")
          then enroll_target now req.target_agent_id req.secret_hash spent
          else enroll_new now id short req spent
    ]

-- The checks of `Connect` on the stream's metadata: the agent's row, or the refusal.
unfoldable pub authenticate : String → String → Db → Reply × Option Agent
authenticate id secret_hash db = elim (get_agent id db) [
  | err not_found ↦ (permission_denied, none)
  | err _ ↦ (internal, none)
  | ok a ↦
      if not (a.token_hash == secret_hash)
      then (permission_denied, none)
      else if a.revoked
      then (permission_denied, none)
      else (done, some a)
]

-- `Hello`, with the major and minor parts of its version where it parses.
pub record Hello : Type 0 where
  pub hostname : String
  pub os : String
  pub arch : String
  pub version : String
  pub parts : Option (ℕ × ℕ)

-- The comparison of versions: whether the agent is let in, and whether it is warned.
unfoldable pub version_verdict : Option (ℕ × ℕ) → Option (ℕ × ℕ) → Bool × Bool
version_verdict none client = (true, true)
version_verdict (some server) none = (true, true)
version_verdict (some server) (some client) =
    if server.0 == client.0 then (true, not (server.1 == client.1)) else (false, false)

abbrev pub said_hello : ℕ → Hello → Agent → Agent
said_hello now h a = record a {
  online = true;
  hostname = h.hostname;
  os = h.os;
  arch = h.arch;
  version = h.version;
  last_seen_at = some now;
}

-- `Connect` up to the registration of the stream, for the row that `authenticate` returned.
unfoldable pub open_stream : String → Service → Service
open_stream id s = record s { registry = register id s.registry }

-- `Connect` from the first message on: a refused version, or the agent's row written, whose error
-- is logged. The row is the one read before the stream was registered.
unfoldable pub greet : Option (ℕ × ℕ) → ℕ → Agent → Hello → Service → Reply × Service
unfolding version_verdict
greet server now a h s =
    if (version_verdict server h.parts).0
    then (done, record s { db = settle s.db (upsert_agent_on_connect (said_hello now h a) s.db) })
    else (permission_denied, s)

abbrev pub seen_of : String → Seen → Bool
seen_of id w = w.agent_id == id

abbrev pub seen_lately : ℕ → Option Seen → Bool
seen_lately now none = false
seen_lately now (some w) = ltb (now - w.at) 10

abbrev pub set_seen : Seen → List Seen → List Seen
set_seen w ws =
    if any_where (seen_of w.agent_id) ws
    then update_where (seen_of w.agent_id) (λ _. w) ws
    else w ∷ ws

-- `handleHeartbeat`: at most one write in 10 seconds.
unfoldable pub handle_heartbeat : ℕ → String → Service → Service
handle_heartbeat now id s =
    if seen_lately now (find_where (seen_of id) s.last_seen_writes) then s else record s {
      last_seen_writes = set_seen (record { agent_id = id; at = now }) s.last_seen_writes;
      db = set_agent_status id true now s.db;
    }

-- `handleCapabilities`, of the stream `ctx`; `json` is the report as the store keeps it.
unfoldable pub handle_capabilities : ℕ → String → ℕ → Bool → String → Service → Service
handle_capabilities now id ctx safe json s = record s {
  registry = (report_capabilities id ctx safe s.registry).1;
  db = save_agent_capabilities id json now s.db;
}

abbrev pub is_late : ℕ → ℕ → Option ℕ → Bool
is_late now threshold none = false
is_late now threshold (some at) = ltb threshold (now - at)

abbrev pub check_offline_each : ℕ → ℕ → List Agent → Db → Db
check_offline_each now threshold [] db = db
check_offline_each now threshold (a ∷ as') db = check_offline_each now threshold as' (
    if a.online && is_late now threshold a.last_seen_at
    then set_agent_status a.id false now db
    else db)

-- `checkOfflineAgents`
unfoldable pub check_offline_agents : ℕ → ℕ → Service → Service
check_offline_agents now threshold s = record s {
  db = check_offline_each now threshold s.db.agents s.db;
}
