-- ===== src/Registry/Streams.antt =====
-- One stream for each agent, and what a stream must have reported before it is sent a restore
-- (internal/server/agentreg/registry.go).
use backup_management_center.Common.{
  ℕ, ◌<◌, suc, String, ◌≡◌, refl, inl, inr, Bool, true, false, Option, none, some, List, [], ◌∷◌,
  ◌==◌, arith, eq_iff, nat_eq, string_eq, All, All-of, All-delete_where, All-map, All-weaken,
  NoClash, NoClash-delete_where, NoClash-map, Option-cases, Bool-cases, find_where, update_where,
  delete_where, any_where, on_where, find_where-some, find_where-map, beq_self,
}
use backup_management_center.Registry.{
  Message, Stream, Registry, sent_to, of_agent, stream_of, cancel, new_stream, retire, register,
  unregister, unregister_if, is_current, report_capabilities, reported, delivered, push,
  send_with_capability, send,
}

abbrev pub same_agent : Stream → Stream → Bool
same_agent a b = a.agent_id == b.agent_id

-- Each agent has one stream in the map, contexts are numbered below the next one, and a stream
-- that left the map is cancelled.
pub record IsRegistry (r : Registry) : Type 0 where
  pub one_each : NoClash same_agent r.streams
  pub numbered : All (λ st. st.ctx < r.next_ctx) r.streams
  pub stopped : All (λ st. st.cancelled ≡ true) r.gone

-- An operation on the registry, or the end of a connection by itself.
pub data RegistryStep (r : Registry) : Registry → Type 0 where
  registered : (agent : String) → RegistryStep r (register agent r)
  unregistered : (agent : String) → RegistryStep r (unregister agent r)
  unregistered_if : (agent : String) (ctx : ℕ) → RegistryStep r (unregister_if agent ctx r).1
  reported_caps :
      (agent : String) (ctx : ℕ) (safe : Bool)
      → RegistryStep r (report_capabilities agent ctx safe r).1
  pushed :
      {r' : Registry} (agent : String) (msg : Message)
      → send agent msg r ≡ sent_to r'
      → RegistryStep r r'
  pushed_safe :
      {r' : Registry} (agent : String) (msg : Message) (safe : Bool)
      → send_with_capability agent msg safe r ≡ sent_to r'
      → RegistryStep r r'
  ended :
      (ctx : ℕ)
      → RegistryStep r (record r { streams = update_where (λ st. st.ctx == ctx) cancel r.streams })

pub data RegistrySteps (start : Registry) : Registry → Type 0 where
  here : RegistrySteps start start
  next : {r r' : Registry} → RegistrySteps start r → RegistryStep r r' → RegistrySteps start r'

abbrev pub empty_registry : Registry
empty_registry = record { streams = []; gone = []; next_ctx = 0 }

fresh_agent :
    (agent : String) (ctx : ℕ) (xs : List Stream)
    → any_where (same_agent (new_stream agent ctx)) (delete_where (of_agent agent) xs) ≡ false
fresh_agent agent ctx [] = refl
fresh_agent agent ctx (x ∷ xs) = elim (Bool-cases (of_agent agent x)) [
  | inl e ↦ rw e (fresh_agent agent ctx xs)
  | inr e ↦
      rw e ground
        (arith, eq_iff x.agent_id agent, eq_iff agent x.agent_id, fresh_agent agent ctx xs)
]

retire-stopped :
    (st : Option Stream) (gone : List Stream)
    → All (λ s. s.cancelled ≡ true) gone
    → All (λ s. s.cancelled ≡ true) (retire st gone)
retire-stopped none gone h = h
retire-stopped (some st) gone h = (refl, h)

-- What an update of a stream in place keeps.
pub record KeepsStream (x y : Stream) : Type 0 where
  pub same_id : y.agent_id ≡ x.agent_id
  pub same_ctx : y.ctx ≡ x.ctx

on_where-KeepsStream :
    (p : Stream → Bool) (f : Stream → Stream)
    → ((st : Stream) → KeepsStream st (f st))
    → (st : Stream) → KeepsStream st (on_where p f st)
on_where-KeepsStream p f keeps st = elim (Bool-cases (p st)) [
  | inl e ↦ rw e (keeps st)
  | inr e ↦ rw e (record { same_id = refl; same_ctx = refl })
]

update-IsRegistry :
    (r : Registry) (p : Stream → Bool) (f : Stream → Stream)
    → ((st : Stream) → KeepsStream st (f st))
    → IsRegistry r
    → IsRegistry (record r { streams = update_where p f r.streams })
update-IsRegistry r p f keeps w =
    let kept = on_where-KeepsStream p f keeps in
    record {
      one_each =
          NoClash-map same_agent KeepsStream (on_where p f)
            (λ x y s t e. rw (s.same_id, t.same_id) at e) r.streams
            (All-of (λ st. KeepsStream st (on_where p f st)) kept r.streams) w.one_each;
      numbered =
          All-map (λ st. st.ctx < r.next_ctx) (on_where p f) r.streams
            (All-weaken (λ st. st.ctx < r.next_ctx) (λ st. (on_where p f st).ctx < r.next_ctx)
              (λ st h. rw (kept st).same_ctx h) r.streams w.numbered);
      stopped = w.stopped;
    }

register-IsRegistry : (agent : String) (r : Registry) → IsRegistry r → IsRegistry (register agent r)
unfolding register
register-IsRegistry agent r w = record {
  one_each = (
    fresh_agent agent r.next_ctx r.streams,
    NoClash-delete_where same_agent (of_agent agent) r.streams w.one_each,
  );
  numbered = (
    (omega arith),
    All-weaken (λ st. st.ctx < r.next_ctx) (λ st. st.ctx < suc r.next_ctx) (λ st h. omega arith)
        (delete_where (of_agent agent) r.streams)
        (All-delete_where (λ st. st.ctx < r.next_ctx) (of_agent agent) r.streams w.numbered),
  );
  stopped = retire-stopped (stream_of agent r) r.gone w.stopped;
}

unregister-IsRegistry :
    (agent : String) (r : Registry) → IsRegistry r → IsRegistry (unregister agent r)
unfolding unregister
unregister-IsRegistry agent r w = record {
  one_each = NoClash-delete_where same_agent (of_agent agent) r.streams w.one_each;
  numbered = All-delete_where (λ st. st.ctx < r.next_ctx) (of_agent agent) r.streams w.numbered;
  stopped = retire-stopped (stream_of agent r) r.gone w.stopped;
}

-- A send that succeeded went to the agent's stream in the map, whose context was live.
pub push-sent :
    (agent : String) (msg : Message) (st : Stream) (r r' : Registry)
    → push agent msg st r ≡ sent_to r'
    → r' ≡ record r { streams = update_where (of_agent agent) (delivered msg) r.streams }
push-sent agent msg st r r' h = ground arith

push-IsRegistry :
    (agent : String) (msg : Message) (st : Stream) (r r' : Registry)
    → push agent msg st r ≡ sent_to r'
    → IsRegistry r
    → IsRegistry r'
push-IsRegistry agent msg st r r' h w = rw (push-sent agent msg st r r' h) (
    update-IsRegistry r (of_agent agent) (delivered msg)
      (λ s. record { same_id = refl; same_ctx = refl }) w)

stream_of-delivered :
    (agent : String) (msg : Message) (st : Stream) (r : Registry)
    → stream_of agent r ≡ some st
    → find_where (of_agent agent) (update_where (of_agent agent) (delivered msg) r.streams)
      ≡ some (delivered msg st)
stream_of-delivered agent msg st r e =
    rw
      (
        find_where-map (of_agent agent) (on_where (of_agent agent) (delivered msg)) r.streams
            (λ x. elim (Bool-cases (of_agent agent x)) [ inl p ↦ rw p p | inr p ↦ rw p p ]),
        e,
      )
      (rw (find_where-some (of_agent agent) r.streams st e) refl)

not_current :
    (agent : String) (old : ℕ) (r : Registry)
    → old < r.next_ctx
    → is_current agent old (register agent r) ≡ false
unfolding register
not_current agent old r h = ground (arith, beq_self agent)

-- When a send that asks for safe restores succeeds, the agent's stream had reported its
-- capabilities and that it restores safely, and the message went to this stream.
pub send_with_capability-sent :
    (agent : String) (msg : Message) (r r' : Registry)
    → send_with_capability agent msg true r ≡ sent_to r'
    → (st : Stream) × (stream_of agent r ≡ some st)
      × (st.caps_ready ≡ true)
      × (st.safe_db_restore ≡ true)
      × (stream_of agent r' ≡ some (delivered msg st))
unfolding send_with_capability
send_with_capability-sent agent msg r r' h = elim (Option-cases (stream_of agent r)) [
  | inl e ↦ absurd (ground arith)
  | inr (st, e) ↦ (
    st,
    e,
    ground arith,
    ground arith,
    rw (push-sent agent msg st r r' (ground arith)) (stream_of-delivered agent msg st r e),
  )
]

-- A connection that a newer one of the same agent replaced can neither remove it nor vouch for its
-- capabilities.
pub replaced_stream-is_powerless :
    (agent : String) (old : ℕ) (safe : Bool) (r : Registry)
    → old < r.next_ctx
    → (unregister_if agent old (register agent r) ≡ (false, register agent r))
      × (report_capabilities agent old safe (register agent r) ≡ (false, register agent r))
unfolding unregister_if report_capabilities
replaced_stream-is_powerless agent old safe r h = rw (not_current agent old r h) (refl, refl)

pub RegistryStep-IsRegistry : {r r' : Registry} → RegistryStep r r' → IsRegistry r → IsRegistry r'
unfolding unregister_if report_capabilities send send_with_capability
RegistryStep-IsRegistry {r} (registered agent) w = register-IsRegistry agent r w
RegistryStep-IsRegistry {r} (unregistered agent) w = unregister-IsRegistry agent r w
RegistryStep-IsRegistry {r} (unregistered_if agent ctx) w =
    elim (Bool-cases (is_current agent ctx r)) [
      | inl e ↦ rw e (unregister-IsRegistry agent r w)
      | inr e ↦ rw e w
    ]
RegistryStep-IsRegistry {r} (reported_caps agent ctx safe) w =
    elim (Bool-cases (is_current agent ctx r)) [
      | inl e ↦ rw e (
          update-IsRegistry r (of_agent agent) (reported safe)
            (λ s. record { same_id = refl; same_ctx = refl }) w)
      | inr e ↦ rw e w
    ]
RegistryStep-IsRegistry {r} (pushed {r' = r'} agent msg h) w =
    elim (Option-cases (stream_of agent r)) [
      | inl e ↦ absurd (ground arith)
      | inr (st, e) ↦ push-IsRegistry agent msg st r r' (ground arith) w
    ]
RegistryStep-IsRegistry {r} (pushed_safe {r' = r'} agent msg safe h) w =
    elim (Option-cases (stream_of agent r)) [
      | inl e ↦ absurd (ground arith)
      | inr (st, e) ↦ push-IsRegistry agent msg st r r' (ground arith) w
    ]
RegistryStep-IsRegistry {r} (ended ctx) w =
    update-IsRegistry r (λ st. st.ctx == ctx) cancel
      (λ s. record { same_id = refl; same_ctx = refl }) w

-- Over any run of the server, from no connection: each agent has at most one stream in the map, and a stream that has left the map has been cancelled.
pub RegistrySteps-IsRegistry : {r : Registry} → RegistrySteps empty_registry r → IsRegistry r
RegistrySteps-IsRegistry here = record { one_each = tt; numbered = tt; stopped = tt }
RegistrySteps-IsRegistry (next steps step) =
    RegistryStep-IsRegistry step (RegistrySteps-IsRegistry steps)
