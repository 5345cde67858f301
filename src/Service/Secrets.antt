-- ===== src/Service/Secrets.antt =====
-- Which secret lets an agent in (internal/server/agentreg/service.go).
use backup_management_center.Common.{
  ℕ, String, ◌≡◌, refl, ◌∙◌, true, false, ◌&&◌, not, Option, none, some, ◌==◌, arith, eq_iff,
  string_eq, Bool-cases, Option-cases, inl, inr, find_where, find_where-map, find_where-some,
  any_where-find, update_where, on_where, any_where,
}
use backup_management_center.Model.Types.{Agent}
use backup_management_center.Store.Outcome.{StoreErr, ok, Outcome-cases}
use backup_management_center.Store.Db.{Db}
use backup_management_center.Store.Agents.{
  get_agent, is_agent, re_enroll_agent, reenrolled_row, upsert_agent_on_connect, connected_row,
  hash_taken, consume_enrollment_token,
}
use backup_management_center.Registry.{connected}
use backup_management_center.Service.{
  Service, done, permission_denied, re_enroll_reply, EnrollRequest, enroll, enroll_target,
  authenticate, Hello, said_hello, greet, version_verdict,
}

-- The row of the agent holds the hash and is not revoked.
record Holds (id hash : String) (db : Db) : Type 0 where
  row : Agent
  found : find_where (is_agent id) db.agents ≡ some row
  secret : row.token_hash ≡ hash
  valid : row.revoked ≡ false

lets_in :
    (id hash : String) (db : Db) (h : Holds id hash db)
    → authenticate id hash db ≡ (done, some h.row)
unfolding authenticate get_agent
lets_in id hash db h =
    let self : (h.row.token_hash == hash) ≡ true = (eq_iff h.row.token_hash hash).1 h.secret in
    rw (authenticate, get_agent, h.found, self, h.valid) refl

unlike : (a b c : String) → a ≡ b → (c == b) ≡ false → (a == c) ≡ false
unlike a b c e h = ground (arith, eq_iff a c, eq_iff c b)

shuts_out :
    (id hash other : String) (db : Db)
    → Holds id hash db
    → (other == hash) ≡ false
    → authenticate id other db ≡ (permission_denied, none)
unfolding authenticate get_agent
shuts_out id hash other db h e =
    let apart : (h.row.token_hash == other) ≡ false =
      unlike h.row.token_hash hash other h.secret e in
    rw (authenticate, get_agent, h.found, apart) refl

re_enroll_agent-Holds :
    (id hash : String) (now : ℕ) (db db' : Db)
    → re_enroll_agent id hash now db ≡ ok db'
    → Holds id hash db'
unfolding re_enroll_agent
re_enroll_agent-Holds id hash now db db' h =
    elim (Option-cases (find_where (is_agent id) db.agents)) [
      | inl e ↦ absurd (ground arith)
      | inr (a, e) ↦
          let own : is_agent id a ≡ true = find_where-some (is_agent id) db.agents a e in
          let live : a.revoked ≡ false = ground arith in
          let rows : db'.agents
              ≡ update_where (λ r. is_agent id r && not r.revoked) (reenrolled_row hash now)
                  db.agents =
            ground arith in
          record {
            row = reenrolled_row hash now a;
            found = rw rows (
                find_where-map (is_agent id)
                  (on_where (λ r. is_agent id r && not r.revoked) (reenrolled_row hash now))
                  db.agents
                  (λ r. elim (Bool-cases (is_agent id r && not r.revoked)) [
                    | inl k ↦ rw k refl
                    | inr k ↦ rw k refl
                  ])
                ∙ (rw (e, own, live) refl));
            secret = refl;
            valid = live;
          }
    ]

refused_reply : (e : StoreErr) → ¬ (re_enroll_reply e ≡ done)
refused_reply e h = ground arith

targeted :
    (now : ℕ) (target hash : String) (s s' : Service)
    → enroll_target now target hash s ≡ (done, s')
    → re_enroll_agent target hash now s.db ≡ ok s'.db
unfolding enroll_target
targeted now target hash s s' h = elim (Outcome-cases (re_enroll_agent target hash now s.db)) [
  | inr (c, e) ↦ absurd (elim (Bool-cases (connected target s.registry)) [
    | inl f ↦ ground arith
    | inr f ↦ ground (arith, refused_reply c)
  ])
  | inl (after, e) ↦ ground arith
]

-- The store's part of a successful enrollment.
re_enrolled :
    (now : ℕ) (id short : String) (req : EnrollRequest) (s s' : Service)
    → (req.target_agent_id == "") ≡ false
    → enroll now id short req s ≡ (done, s')
    → (mid : Db) × (re_enroll_agent req.target_agent_id req.secret_hash now mid ≡ ok s'.db)
unfolding enroll
re_enrolled now id short req s s' target h =
    elim (Outcome-cases (consume_enrollment_token req.token_hash now s.db)) [
      | inr (c, e) ↦ absurd (ground arith)
      | inl ((t, mid), e) ↦ (
        mid,
        targeted now req.target_agent_id req.secret_hash (record s { db = mid }) s' (ground arith),
      )
    ]

-- An enrollment that succeeds for a known agent makes the new secret the agent's only one: with
-- it the agent is let in, and with any other, the old one too, it is refused.
pub enroll-replaces_secret :
    (now : ℕ) (id short : String) (req : EnrollRequest) (s s' : Service) (other : String)
    → (req.target_agent_id == "") ≡ false
    → enroll now id short req s ≡ (done, s')
    → (other == req.secret_hash) ≡ false
    → ((a : Agent) × (authenticate req.target_agent_id req.secret_hash s'.db ≡ (done, some a)))
      × (authenticate req.target_agent_id other s'.db ≡ (permission_denied, none))
unfolding enroll enroll_target
enroll-replaces_secret now id short req s s' other target h apart =
    let (mid, e) = re_enrolled now id short req s s' target h in
    let held = re_enroll_agent-Holds req.target_agent_id req.secret_hash now mid s'.db e in
    (
      (held.row, lets_in req.target_agent_id req.secret_hash s'.db held),
      shuts_out req.target_agent_id req.secret_hash other s'.db held apart,
    )

-- A stream that was opened with an agent's row as it was writes this row's secret back when the
-- agent says hello, so that the row's secret lets the agent in, whatever it was replaced by in
-- between.
pub greet-revives_secret :
    (server : Option (ℕ × ℕ)) (now : ℕ) (a row : Agent) (h : Hello) (s : Service)
    → (version_verdict server h.parts).0 ≡ true
    → find_where (is_agent a.id) s.db.agents ≡ some row
    → row.revoked ≡ false
    → any_where (hash_taken a.id a.token_hash) s.db.agents ≡ false
    → (b : Agent) × (authenticate a.id a.token_hash (greet server now a h s).1.db ≡ (done, some b))
unfolding greet upsert_agent_on_connect
greet-revives_secret server now a row h s fits found live free =
    let there : any_where (is_agent a.id) s.db.agents ≡ true =
      any_where-find (is_agent a.id) s.db.agents row found in
    let own : is_agent a.id row ≡ true = find_where-some (is_agent a.id) s.db.agents row found in
    let after = (greet server now a h s).1.db in
    let rows : after.agents
        ≡ update_where (is_agent a.id) (connected_row (said_hello now h a)) s.db.agents =
      rw (greet, fits, upsert_agent_on_connect, free, there) refl in
    let held : Holds a.id a.token_hash after = record {
      row = connected_row (said_hello now h a) row;
      found = rw rows (
          find_where-map (is_agent a.id)
            (on_where (is_agent a.id) (connected_row (said_hello now h a))) s.db.agents
            (λ r. elim (Bool-cases (is_agent a.id r)) [ inl k ↦ rw k k | inr k ↦ rw k k ])
          ∙ (rw (found, own) refl));
      secret = refl;
      valid = live;
    } in
    (held.row, lets_in a.id a.token_hash after held)
