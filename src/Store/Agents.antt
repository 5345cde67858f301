-- ===== src/Store/Agents.antt =====
-- Agents and the tokens with which they enroll (internal/server/store/sqlite.go).
pub mod Tokens
use backup_management_center.Common.{
  ℕ, String, Bool, true, false, ◌&&◌, not, Option, none, some, List, ◌∷◌, ◌==◌, ltb, string_eq,
  find_where, update_where, any_where, if◌then◌else◌,
}
use backup_management_center.Model.Types.{Agent, EnrollmentToken}
use backup_management_center.Store.Outcome.{
  Outcome, ok, not_found, token_invalid, agent_revoked, driver_error, ◌>>=◌, ◌>>◌, require, or_err,
}
use backup_management_center.Store.Db.{Db}

abbrev pub has_hash : String → EnrollmentToken → Bool
has_hash hash t = t.token_hash == hash

abbrev pub is_used : EnrollmentToken → Bool
is_used t = elim t.used_at [ none ↦ false | some _ ↦ true ]

-- `CreateEnrollmentToken`
unfoldable pub create_enrollment_token : EnrollmentToken → Db → Outcome Db
create_enrollment_token t db = do
  require (not (any_where (λ o. o.id == t.id) db.tokens)) driver_error
  require (not (any_where (has_hash t.token_hash) db.tokens)) driver_error
  ok (record db { tokens = t ∷ db.tokens })

-- `used_at IS NULL AND expires_at > ?`
abbrev pub usable : String → ℕ → EnrollmentToken → Bool
usable hash now t = has_hash hash t && not (is_used t) && ltb now t.expires_at

abbrev pub used_token : ℕ → EnrollmentToken → EnrollmentToken
used_token now t = record t { used_at = some now }

-- `ConsumeEnrollmentToken`
unfoldable pub consume_enrollment_token : String → ℕ → Db → Outcome (EnrollmentToken × Db)
consume_enrollment_token hash now db = do
  require (any_where (usable hash now) db.tokens) token_invalid
  let rows = update_where (usable hash now) (used_token now) db.tokens
  t ← or_err not_found (find_where (has_hash hash) rows)
  ok (t, record db { tokens = rows })

abbrev pub is_agent : String → Agent → Bool
is_agent id a = a.id == id

-- Another agent has the secret's hash, which the table keeps unique.
abbrev pub hash_taken : String → String → Agent → Bool
hash_taken id hash a = not (a.id == id) && a.token_hash == hash

abbrev pub connected_row : Agent → Agent → Agent
connected_row new old = record old {
  name = new.name;
  hostname = new.hostname;
  os = new.os;
  arch = new.arch;
  version = new.version;
  online = new.online;
  last_seen_at = new.last_seen_at;
  token_hash = new.token_hash;
}

-- `UpsertAgentOnConnect`
unfoldable pub upsert_agent_on_connect : Agent → Db → Outcome Db
upsert_agent_on_connect a db = do
  require (not (any_where (hash_taken a.id a.token_hash) db.agents)) driver_error
  ok (record db {
    agents =
        if any_where (is_agent a.id) db.agents
        then update_where (is_agent a.id) (connected_row a) db.agents
        else record a { revoked = false } ∷ db.agents;
  })

-- `SetAgentStatus`
unfoldable pub set_agent_status : String → Bool → ℕ → Db → Db
set_agent_status id online now db = record db {
  agents =
      update_where (is_agent id) (λ a. record a { online = online; last_seen_at = some now })
        db.agents;
}

-- `SaveAgentCapabilities`, from the JSON on.
unfoldable pub save_agent_capabilities : String → String → ℕ → Db → Db
save_agent_capabilities id json now db = record db {
  agents =
      update_where (is_agent id)
        (λ a. record a { capabilities_json = json; last_seen_at = some now }) db.agents;
}

-- `GetAgent`
unfoldable pub get_agent : String → Db → Outcome Agent
get_agent id db = or_err not_found (find_where (is_agent id) db.agents)

-- `RevokeAgent`
unfoldable pub revoke_agent : String → Db → Outcome Db
revoke_agent id db = do
  require (any_where (is_agent id) db.agents) not_found
  ok (record db {
    agents = update_where (is_agent id) (λ a. record a { revoked = true }) db.agents;
  })

abbrev pub reenrolled_row : String → ℕ → Agent → Agent
reenrolled_row hash now a = record a { token_hash = hash; online = false; last_seen_at = some now }

-- `ReEnrollAgent`
unfoldable pub re_enroll_agent : String → String → ℕ → Db → Outcome Db
re_enroll_agent id hash now db = do
  a ← or_err not_found (find_where (is_agent id) db.agents)
  require (not a.revoked) agent_revoked
  require (not (any_where (hash_taken id hash) db.agents)) driver_error
  ok (record db {
    agents = update_where (λ r. is_agent id r && not r.revoked) (reenrolled_row hash now) db.agents;
  })

-- `UnrevokeAgent`
unfoldable pub unrevoke_agent : String → Db → Outcome Db
unrevoke_agent id db = do
  require (any_where (is_agent id) db.agents) not_found
  ok (record db {
    agents =
        update_where (is_agent id) (λ a. record a { revoked = false; online = false }) db.agents;
  })

-- `RenameAgent`
unfoldable pub rename_agent : String → String → Db → Outcome Db
rename_agent id name db = do
  require (any_where (is_agent id) db.agents) not_found
  ok (record db { agents = update_where (is_agent id) (λ a. record a { name = name }) db.agents })
