-- ===== src/Examples/Enrollments.antt =====
-- A token that is spent once, and an agent that enrolls again.
use backup_management_center.Common.{◌≡◌, refl, true, false, none, some, [], ◌∷◌}
use backup_management_center.Model.Types.{Agent, EnrollmentToken}
use backup_management_center.Store.Outcome.{ok, err, token_invalid}
use backup_management_center.Store.Db.{Db}
use backup_management_center.Store.Runs.{list_runs_by_status}
use backup_management_center.Store.Agents.{consume_enrollment_token, re_enroll_agent}
use backup_management_center.Store.Agents.Tokens.{here, consume_enrollment_token-once}
use backup_management_center.Registry.{connected, unregister}
use backup_management_center.Registry.Streams.{empty_registry}
use backup_management_center.Service.{
  Service, done, permission_denied, EnrollRequest, enroll, enroll_target, authenticate, Hello,
  greet, version_verdict,
}
use backup_management_center.Service.Secrets.{enroll-replaces_secret, greet-revives_secret}
use backup_management_center.Examples.Stores.{start}

abbrev token : EnrollmentToken
token = record {
  id = "token";
  token_hash = "t";
  expires_at = 90;
  used_at = none;
  target_agent_id = "agent";
}

abbrev pub agent : Agent
agent = record {
  id = "agent";
  name = "host";
  hostname = "host";
  os = "linux";
  arch = "amd64";
  version = "1.0.0";
  online = false;
  last_seen_at = none;
  enrolled_at = 3;
  token_hash = "old";
  capabilities_json = "{}";
  revoked = false;
}

abbrev with_token : Db
with_token = record start { agents = agent ∷ []; tokens = token ∷ [] }

abbrev spent : Db
spent = record with_token { tokens = record token { used_at = some 10 } ∷ [] }

consumed :
    consume_enrollment_token "t" 10 with_token ≡ ok (record token { used_at = some 10 }, spent)
unfolding consume_enrollment_token
consumed = refl

consume_enrollment_token-once_example : consume_enrollment_token "t" 11 spent ≡ err token_invalid
consume_enrollment_token-once_example =
    consume_enrollment_token-once with_token spent spent "t" 10 11
      (record token { used_at = some 10 }) (refl, tt) consumed here

abbrev pub service : Service
service = record {
  db = with_token;
  registry = empty_registry;
  last_seen_writes = [];
  has_warm_cache = true;
  stopped = false;
  notified = [];
  wiped = [];
  published = [];
  logs = [];
  warmed = [];
}

abbrev request : EnrollRequest
request = record {
  secret_length = 32;
  token_hash = "t";
  secret_hash = "new";
  target_agent_id = "agent";
  hostname = "host";
  os = "linux";
  arch = "amd64";
  version = "1.0.0";
}

abbrev enrolled : Service
enrolled = record service {
  db = record spent { agents = record agent { token_hash = "new"; last_seen_at = some 10 } ∷ [] };
}

enrolls : enroll 10 "fresh" "fre" request service ≡ (done, enrolled)
unfolding enroll enroll_target consume_enrollment_token re_enroll_agent list_runs_by_status
    connected unregister
enrolls = refl

enroll-replaces_secret_example :
    ((a : Agent) × (authenticate "agent" "new" enrolled.db ≡ (done, some a)))
    × (authenticate "agent" "old" enrolled.db ≡ (permission_denied, none))
enroll-replaces_secret_example =
    enroll-replaces_secret 10 "fresh" "fre" request service enrolled "old" refl enrolls refl

abbrev hello : Hello
hello = record {
  hostname = "host";
  os = "linux";
  arch = "amd64";
  version = "1.0.0";
  parts = some (1, 0);
}

let_in : (version_verdict (some (1, 0)) hello.parts).0 ≡ true
unfolding version_verdict
let_in = refl

-- The row that the stream was opened with has the old secret, the table the new one.
greet-revives_secret_example :
    (b : Agent) × (authenticate "agent" "old" (greet (some (1, 0)) 12 agent hello enrolled).1.db
      ≡ (done, some b))
greet-revives_secret_example =
    greet-revives_secret (some (1, 0)) 12 agent
      (record agent { token_hash = "new"; last_seen_at = some 10 }) hello enrolled let_in refl refl
      refl
