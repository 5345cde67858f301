-- ===== src/Scheduler/Cursors.antt =====
-- The order of the cursors and the started slots, and what keeps it (internal/server/scheduler/scheduler.go).
use backup_management_center.Common.{
  ℕ, ◌≤◌, beq_self, select_where, String, ◌≡◌, refl, Bool, true, false, ◌&&◌, ◌||◌, not, Option,
  none, some, List, [], ◌∷◌, ◌==◌, ltb, leb, arith, eq_iff, string_eq, nat_eq, Bool-cases,
  Option-cases, inl, inr, All, All-weaken, All-found, All-upsert, NoClash, any_where, all_where,
  any_where-map, on_where, update_where, or-false, sym, subst, ◌∙◌, find_where, find_where-some,
}
use backup_management_center.Model.Types.{Plan}
use backup_management_center.Store.Outcome.{StoreErr}
use backup_management_center.Store.Plans.{
  is_plan, cursor_of, save_schedule_cursor, get_schedule_cursor,
}
use backup_management_center.Scheduler.{
  Scheduler, Firing, CursorState, state_of, cursor_key, move_cursor, persisted, set_cursor,
}

-- A slot after all those of the plan that were started, or none at all.
abbrev pub ahead : String → ℕ → List Firing → Bool
ahead plan_id next fs =
    next == 0 || all_where (λ f. not (f.plan_id == plan_id) || ltb f.slot next) fs

-- The plan of both is one, and the later call has not the later slot.
abbrev pub goes_back : Firing → Firing → Bool
goes_back later earlier = later.plan_id == earlier.plan_id && leb later.slot earlier.slot

-- The slot in memory stands before the persisted one, if it may be ahead of it.
abbrev pub shadowed : Bool → String → List CursorState → Bool
shadowed v plan_id cs = v && any_where (state_of plan_id) cs

-- What holds between ticks, up to the cursors of the plans that `but` names. With `v`, writes of
-- slots may have failed, and a persisted slot counts only for a plan that has none in memory.
pub record Orderly (v : Bool) (but : String → Bool) (t : ℕ) (s : Scheduler) : Type 0 where
  pub past : All (λ f. f.slot ≤ t) s.firings
  pub cached : All (λ c. but c.plan_id ≡ false → ahead c.plan_id c.next s.firings ≡ true) s.cursors
  pub stored :
      All
        (λ c.
          but c.plan_id ≡ false
          → shadowed v c.plan_id s.cursors ≡ false
          → ahead c.plan_id c.next_fire_at s.firings ≡ true)
        s.db.cursors
  pub forward : NoClash goes_back s.firings

abbrev pub none_but : String → Bool
none_but _ = false

abbrev pub only : String → String → Bool
only id plan_id = plan_id == id

-- A slot after now is ahead of all that were started by now.
ahead_next :
    (id : String) (now next : ℕ) (fs : List Firing)
    → (next == 0 || ltb now next) ≡ true
    → All (λ f. f.slot ≤ now) fs
    → ahead id next fs ≡ true
ahead_next id now next [] h past = ground arith
ahead_next id now next (f ∷ fs) h past = ground (arith, past.0, ahead_next id now next fs h past.1)

-- A slot ahead of the started ones goes back on none.
pub ahead-forward :
    (id : String) (slot : ℕ) (fs : List Firing)
    → ahead id slot fs ≡ true
    → (slot == 0) ≡ false
    → any_where (goes_back (record { plan_id = id; slot = slot })) fs ≡ false
ahead-forward id slot [] h z = refl
ahead-forward id slot (f ∷ fs) h z =
    ground (arith, eq_iff id f.plan_id, eq_iff f.plan_id id, ahead-forward id slot fs)

-- Starting a slot of one plan leaves the cursors of the others ahead.
pub ahead_other :
    (id other : String) (slot next : ℕ) (fs : List Firing)
    → only id other ≡ false
    → ahead other next fs ≡ true
    → ahead other next (record { plan_id = id; slot = slot } ∷ fs) ≡ true
ahead_other id other slot next fs e h = ground (arith, eq_iff other id, eq_iff id other)

pub weaker :
    (v : Bool) (id : String) (t : ℕ) (s : Scheduler)
    → Orderly v none_but t s
    → Orderly v (only id) t s
weaker v id t s o = record {
  past = o.past;
  cached =
      All-weaken (λ c. none_but c.plan_id ≡ false → ahead c.plan_id c.next s.firings ≡ true)
        (λ c. only id c.plan_id ≡ false → ahead c.plan_id c.next s.firings ≡ true) (λ c h e. h refl)
        s.cursors o.cached;
  stored =
      All-weaken
        (λ c.
          none_but c.plan_id ≡ false
          → shadowed v c.plan_id s.cursors ≡ false
          → ahead c.plan_id c.next_fire_at s.firings ≡ true)
        (λ c.
          only id c.plan_id ≡ false
          → shadowed v c.plan_id s.cursors ≡ false
          → ahead c.plan_id c.next_fire_at s.firings ≡ true)
        (λ c h e g. h refl g) s.db.cursors o.stored;
  forward = o.forward;
}

-- Setting the slot of one plan in memory keeps those of the others there, and leaves its own.
set_cursor-any :
    (id : String) (c : CursorState) (cs : List CursorState)
    → any_where (state_of id) (set_cursor c cs) ≡ false
    → any_where (state_of id) cs ≡ false
set_cursor-any id c cs h = elim (Bool-cases (any_where (state_of c.plan_id) cs)) [
  | inr e ↦ (or-false (state_of id c) (any_where (state_of id) cs) (rw e at h)).1
  | inl e ↦
      sym (
        any_where-map (state_of id) (on_where (state_of c.plan_id) (λ _. c)) cs (λ x.
          elim (Bool-cases (state_of c.plan_id x)) [
            | inl f ↦ rw (f, (eq_iff x.plan_id c.plan_id).0 f) refl
            | inr f ↦ rw f refl
          ]))
      ∙ (rw e at h)
]

overwritten-any :
    (c : CursorState) (cs : List CursorState)
    → any_where (state_of c.plan_id) cs ≡ true
    → any_where (state_of c.plan_id) (update_where (state_of c.plan_id) (λ _. c) cs) ≡ true
overwritten-any c [] h = h
overwritten-any c (x ∷ xs) h = ground (arith, overwritten-any c xs, beq_self c.plan_id)

set_cursor-own :
    (c : CursorState) (cs : List CursorState)
    → any_where (state_of c.plan_id) (set_cursor c cs) ≡ true
set_cursor-own c cs = elim (Bool-cases (any_where (state_of c.plan_id) cs)) [
  | inl e ↦ rw e (overwritten-any c cs e)
  | inr e ↦ rw (e, beq_self c.plan_id) refl
]

shadow_kept :
    (v : Bool) (id : String) (c : CursorState) (cs : List CursorState)
    → shadowed v id (set_cursor c cs) ≡ false
    → shadowed v id cs ≡ false
shadow_kept v id c cs h = ground (arith, set_cursor-any id c cs)

module _ (p : Plan) (now next : ℕ) (s : Scheduler) (h : (next == 0 || ltb now next) ≡ true) where
  abbrev new_state : CursorState
  new_state = record { plan_id = p.id; key = cursor_key p; next = next }

  moved-cached :
      (v : Bool)
      → Orderly v (only p.id) now s
      → All
          (λ c. none_but c.plan_id ≡ false → ahead c.plan_id c.next s.firings ≡ true)
          (set_cursor new_state s.cursors)
  moved-cached v o =
      All-upsert (λ c. none_but c.plan_id ≡ false → ahead c.plan_id c.next s.firings ≡ true)
        (state_of p.id) new_state (λ _. ahead_next p.id now next s.firings h o.past) s.cursors
        (All-weaken (λ c. only p.id c.plan_id ≡ false → ahead c.plan_id c.next s.firings ≡ true)
          (λ c.
            state_of p.id c ≡ false
            → none_but c.plan_id ≡ false
            → ahead c.plan_id c.next s.firings ≡ true)
          (λ c k e _. k e) s.cursors o.cached)

  -- The write of a plan's next slot, which the plan's row admits and the driver takes, restores the
  -- order.
  pub move_cursor-Orderly :
      (v : Bool)
      → any_where (is_plan p.id) s.db.plans ≡ true
      → Orderly v (only p.id) now s
      → Orderly v none_but now (move_cursor none p next s)
  unfolding move_cursor save_schedule_cursor
  move_cursor-Orderly v there o = rw there (record {
    past = o.past;
    cached = moved-cached v o;
    stored =
        All-upsert
          (λ c.
            none_but c.plan_id ≡ false
            → shadowed v c.plan_id (set_cursor new_state s.cursors) ≡ false
            → ahead c.plan_id c.next_fire_at s.firings ≡ true)
          (cursor_of p.id) (record { plan_id = p.id; next_fire_at = next })
          (λ _ _. ahead_next p.id now next s.firings h o.past) s.db.cursors
          (All-weaken
            (λ c.
              only p.id c.plan_id ≡ false
              → shadowed v c.plan_id s.cursors ≡ false
              → ahead c.plan_id c.next_fire_at s.firings ≡ true)
            (λ c.
              cursor_of p.id c ≡ false
              → none_but c.plan_id ≡ false
              → shadowed v c.plan_id (set_cursor new_state s.cursors) ≡ false
              → ahead c.plan_id c.next_fire_at s.firings ≡ true)
            (λ c k e _ g. k e (shadow_kept v c.plan_id new_state s.cursors g)) s.db.cursors
            o.stored);
    forward = o.forward;
  })

  -- A write that fails does too, as long as the slots in memory stand.
  pub unsaved-Orderly :
      (fault : StoreErr)
      → Orderly true (only p.id) now s
      → Orderly true none_but now (move_cursor (some fault) p next s)
  unfolding move_cursor save_schedule_cursor
  unsaved-Orderly fault o = record {
    past = o.past;
    cached = moved-cached true o;
    stored =
        All-weaken
          (λ c.
            only p.id c.plan_id ≡ false
            → shadowed true c.plan_id s.cursors ≡ false
            → ahead c.plan_id c.next_fire_at s.firings ≡ true)
          (λ c.
            none_but c.plan_id ≡ false
            → shadowed true c.plan_id (set_cursor new_state s.cursors) ≡ false
            → ahead c.plan_id c.next_fire_at s.firings ≡ true)
          (λ c k e g. elim (Bool-cases (only p.id c.plan_id)) [
            | inr f ↦ k f (shadow_kept true c.plan_id new_state s.cursors g)
            | inl f ↦ absurd (
                cc (
                  set_cursor-own new_state s.cursors,
                  subst (λ i. any_where (state_of i) (set_cursor new_state s.cursors) ≡ false)
                      ((eq_iff c.plan_id p.id).0 f) g,
                ))
          ])
          s.db.cursors o.stored;
    forward = o.forward;
  }

-- The cursor that a tick starts from is ahead of what was started.
abbrev pub is_ahead : String → Option ℕ → List Firing → Bool
is_ahead id none fs = true
is_ahead id (some at) fs = ahead id at fs

-- The parser's `Next`: a later time, or Go's zero time.
abbrev pub IsLater : (String → String → Option (ℕ → ℕ)) → Type 0
IsLater cron =
    (schedule timezone : String) (next : ℕ → ℕ)
    → cron schedule timezone ≡ some next
    → (now : ℕ) → (next now == 0 || ltb now (next now)) ≡ true

-- No write of a slot fails.
abbrev pub NeverFails : (String → ℕ → Option StoreErr) → Type 0
NeverFails save_fault = (plan_id : String) (next : ℕ) → save_fault plan_id next ≡ none

pub move_cursor-plans :
    (fault : Option StoreErr) (p : Plan) (next : ℕ) (s : Scheduler)
    → (move_cursor fault p next s).db.plans ≡ s.db.plans
unfolding move_cursor save_schedule_cursor
move_cursor-plans fault p next s = ground arith

pub cached_ahead :
    (v : Bool) (id : String) (s : Scheduler) (t : ℕ)
    → Orderly v none_but t s
    → (c : CursorState) → find_where (state_of id) s.cursors ≡ some c
    → ahead id c.next s.firings ≡ true
cached_ahead v id s t o c e =
    let same : c.plan_id ≡ id =
      (eq_iff c.plan_id id).0 (find_where-some (state_of id) s.cursors c e) in
    let a : ahead c.plan_id c.next s.firings ≡ true =
      All-found (λ d. none_but d.plan_id ≡ false → ahead d.plan_id d.next s.firings ≡ true)
        (state_of id) s.cursors c o.cached e refl in
    rw same at a

pub persisted_ahead :
    (v : Bool) (id : String) (s : Scheduler) (t : ℕ)
    → Orderly v none_but t s
    → any_where (state_of id) s.cursors ≡ false
    → is_ahead id (persisted id s.db) s.firings ≡ true
unfolding get_schedule_cursor
persisted_ahead v id s t o alone = elim (Option-cases (find_where (cursor_of id) s.db.cursors)) [
  | inl e ↦ rw (is_ahead, e) refl
  | inr (c, e) ↦
      let same : c.plan_id ≡ id =
        (eq_iff c.plan_id id).0 (find_where-some (cursor_of id) s.db.cursors c e) in
      let a : ahead c.plan_id c.next_fire_at s.firings ≡ true =
        All-found
          (λ d.
            none_but d.plan_id ≡ false
            → shadowed v d.plan_id s.cursors ≡ false
            → ahead d.plan_id d.next_fire_at s.firings ≡ true)
          (cursor_of id) s.db.cursors c o.stored e refl (rw same (ground arith)) in
      rw (is_ahead, e) (rw same at a)
]

-- The selected rows are rows.
find_self : (p : Plan) (ps : List Plan) → any_where (is_plan p.id) (p ∷ ps) ≡ true
find_self p ps = ground (arith, beq_self p.id)

pub selected_there :
    (ps : List Plan)
    → All (λ p. any_where (is_plan p.id) ps ≡ true) (select_where (λ p. p.enabled) ps)
selected_there [] = tt
selected_there (p ∷ ps) =
    let others =
      All-weaken (λ q. any_where (is_plan q.id) ps ≡ true)
        (λ q. any_where (is_plan q.id) (p ∷ ps) ≡ true) (λ q h. ground arith)
        (select_where (λ q. q.enabled) ps) (selected_there ps) in
    elim (Bool-cases p.enabled) [ inl e ↦ rw e (find_self p ps, others) | inr e ↦ rw e others ]
