-- ===== src/Scheduler/Slots.antt =====
-- No slot of a plan is started twice (internal/server/scheduler/scheduler.go).
use backup_management_center.Common.{
  ℕ, ◌≤◌, leb→le, select_where, String, ◌≡◌, refl, ◌∙◌, ◌⊎◌, sym, subst, find_where-none, Bool,
  true, false, ◌&&◌, ◌||◌, not, Option, none, some, List, [], ◌∷◌, ◌==◌, ltb, leb, string_eq,
  nat_eq, Bool-cases, Option-cases, inl, inr, All, All-weaken, any_where, find_where,
}
use backup_management_center.Model.Types.{Plan}
use backup_management_center.Store.Outcome.{StoreErr}
use backup_management_center.Store.Plans.{is_plan, list_enabled_plans}
use backup_management_center.Scheduler.{
  Scheduler, Starter, agent_offline, CursorState, state_of, cursor_key, fire, tick_from,
  tick_cached, tick_plan, tick_plans, tick_cron, persisted, move_cursor,
}
use backup_management_center.Scheduler.Cursors.{
  ahead, Orderly, none_but, only, is_ahead, IsLater, NeverFails, move_cursor-plans, cached_ahead,
  persisted_ahead, selected_there, weaker, move_cursor-Orderly, unsaved-Orderly, shadowed,
  ahead_other, ahead-forward,
}

module _ (v : Bool) (starter : Starter) (unreadable : String → Bool) where
  -- A started slot that is due and ahead keeps the order, but for the cursors of its plan.
  fire-Orderly :
      (p : Plan) (now slot : ℕ) (s : Scheduler)
      → (slot == 0) ≡ false
      → slot ≤ now
      → ahead p.id slot s.firings ≡ true
      → Orderly v none_but now s
      → Orderly v (only p.id) now (fire starter unreadable p slot s)
  unfolding fire
  fire-Orderly p now slot s z due a o =
      elim (Bool-cases (not (p.agent_id == "") && agent_offline unreadable p.agent_id s.db)) [
        | inl e ↦ rw e (weaker v p.id now s o)
        | inr e ↦
            rw (e, starter.start_plan_run-cursors p.id slot s.db)
              (record {
                past = (due, o.past);
                cached =
                    All-weaken
                      (λ c. none_but c.plan_id ≡ false → ahead c.plan_id c.next s.firings ≡ true)
                      (λ c.
                        only p.id c.plan_id ≡ false
                        → ahead c.plan_id c.next
                            (record { plan_id = p.id; slot = slot } ∷ s.firings)
                          ≡ true)
                      (λ c h e. ahead_other p.id c.plan_id slot c.next s.firings e (h refl))
                      s.cursors o.cached;
                stored =
                    All-weaken
                      (λ c.
                        none_but c.plan_id ≡ false
                        → shadowed v c.plan_id s.cursors ≡ false
                        → ahead c.plan_id c.next_fire_at s.firings ≡ true)
                      (λ c.
                        only p.id c.plan_id ≡ false
                        → shadowed v c.plan_id s.cursors ≡ false
                        → ahead c.plan_id c.next_fire_at
                            (record { plan_id = p.id; slot = slot } ∷ s.firings)
                          ≡ true)
                      (λ c h e g.
                        ahead_other p.id c.plan_id slot c.next_fire_at s.firings e (h refl g))
                      s.db.cursors o.stored;
                forward = (ahead-forward p.id slot s.firings a z, o.forward);
              })
      ]

  fire-plans :
      (p : Plan) (slot : ℕ) (s : Scheduler)
      → (fire starter unreadable p slot s).db.plans ≡ s.db.plans
  unfolding fire
  fire-plans p slot s =
      elim (Bool-cases (not (p.agent_id == "") && agent_offline unreadable p.agent_id s.db)) [
        | inl e ↦ rw e refl
        | inr e ↦ rw e (starter.start_plan_run-plans p.id slot s.db)
      ]

  module _ (save_fault : String → ℕ → Option StoreErr)
      (saved : (v ≡ true) ⊎ NeverFails save_fault) where
    saved-Orderly :
        (p : Plan) (now next : ℕ) (s : Scheduler)
        → (next == 0 || ltb now next) ≡ true
        → any_where (is_plan p.id) s.db.plans ≡ true
        → Orderly v (only p.id) now s
        → Orderly v none_but now (move_cursor (save_fault p.id next) p next s)
    saved-Orderly p now next s h there o = elim (Option-cases (save_fault p.id next)) [
      | inl e ↦ rw e (move_cursor-Orderly p now next s h v there o)
      | inr (fault, e) ↦ elim saved [
        | inr never ↦ absurd (cc (e, never p.id next))
        | inl kept ↦
            subst (λ b. Orderly b none_but now (move_cursor (save_fault p.id next) p next s))
              (sym kept)
              (rw e (
                unsaved-Orderly p now next s h fault
                  (subst (λ b. Orderly b (only p.id) now s) kept o)))
      ]
    ]

    tick_from-Orderly :
        (now : ℕ) (p : Plan) (next : ℕ) (prev : Option ℕ) (s : Scheduler)
        → (next == 0 || ltb now next) ≡ true
        → any_where (is_plan p.id) s.db.plans ≡ true
        → is_ahead p.id prev s.firings ≡ true
        → Orderly v none_but now s
        → Orderly v none_but now (tick_from starter unreadable save_fault now p next prev s)
    unfolding tick_from
    tick_from-Orderly now p next none s h there a o =
        saved-Orderly p now next s h there (weaker v p.id now s o)
    tick_from-Orderly now p next (some prev) s h there a o = elim (Bool-cases (prev == 0)) [
      | inl e ↦ rw e (saved-Orderly p now next s h there (weaker v p.id now s o))
      | inr z ↦ elim (Bool-cases (leb prev now)) [
        | inl d ↦
            rw (z, d)
              (saved-Orderly p now next (fire starter unreadable p prev s) h
                (rw (fire-plans p prev s) there)
                (fire-Orderly p now prev s z (leb→le prev now d) a o))
        | inr d ↦ rw (z, d) (saved-Orderly p now next s h there (weaker v p.id now s o))
      ]
    ]

    tick_from-plans :
        (now : ℕ) (p : Plan) (next : ℕ) (prev : Option ℕ) (s : Scheduler)
        → (tick_from starter unreadable save_fault now p next prev s).db.plans ≡ s.db.plans
    unfolding tick_from
    tick_from-plans now p next none s = move_cursor-plans (save_fault p.id next) p next s
    tick_from-plans now p next (some prev) s = elim (Bool-cases (prev == 0)) [
      | inl e ↦ rw e (move_cursor-plans (save_fault p.id next) p next s)
      | inr z ↦ elim (Bool-cases (leb prev now)) [
        | inl d ↦
            rw (z, d)
              (move_cursor-plans (save_fault p.id next) p next (fire starter unreadable p prev s)
                ∙ fire-plans p prev s)
        | inr d ↦ rw (z, d) (move_cursor-plans (save_fault p.id next) p next s)
      ]
    ]

    tick_cached-Orderly :
        (now : ℕ) (p : Plan) (next : ℕ) (s : Scheduler)
        → (next == 0 || ltb now next) ≡ true
        → any_where (is_plan p.id) s.db.plans ≡ true
        → Orderly v none_but now s
        → Orderly v none_but now (
            tick_cached starter unreadable save_fault now p next
              (find_where (state_of p.id) s.cursors)
              s)
    unfolding tick_cached
    tick_cached-Orderly now p next s h there o =
        elim (Option-cases (find_where (state_of p.id) s.cursors)) [
          | inl e ↦ rw e (
              tick_from-Orderly now p next (persisted p.id s.db) s h there
                (persisted_ahead v p.id s now o (find_where-none (state_of p.id) s.cursors e)) o)
          | inr (c, e) ↦ elim (Bool-cases (c.key == cursor_key p)) [
            | inl k ↦
                rw (e, k)
                  (tick_from-Orderly now p next (some c.next) s h there
                    (cached_ahead v p.id s now o c e) o)
            | inr k ↦ rw (e, k) (saved-Orderly p now next s h there (weaker v p.id now s o))
          ]
        ]

    tick_cached-plans :
        (now : ℕ) (p : Plan) (next : ℕ) (c : Option CursorState) (s : Scheduler)
        → (tick_cached starter unreadable save_fault now p next c s).db.plans ≡ s.db.plans
    unfolding tick_cached
    tick_cached-plans now p next none s = tick_from-plans now p next (persisted p.id s.db) s
    tick_cached-plans now p next (some c) s = elim (Bool-cases (c.key == cursor_key p)) [
      | inl k ↦ rw k (tick_from-plans now p next (some c.next) s)
      | inr k ↦ rw k (move_cursor-plans (save_fault p.id next) p next s)
    ]

    module _ (cron : String → String → Option (ℕ → ℕ)) (later : IsLater cron) where
      tick_plan-Orderly :
          (now : ℕ) (p : Plan) (s : Scheduler)
          → any_where (is_plan p.id) s.db.plans ≡ true
          → Orderly v none_but now s
          → Orderly v none_but now (tick_plan starter unreadable save_fault cron now p s)
            × ((tick_plan starter unreadable save_fault cron now p s).db.plans ≡ s.db.plans)
      unfolding tick_plan
      tick_plan-Orderly now p s there o = elim (Option-cases (cron p.schedule p.timezone)) [
        | inl e ↦ rw (tick_plan, e) (o, refl)
        | inr (next, e) ↦
            rw (tick_plan, e)
              (
                tick_cached-Orderly now p (next now) s (later p.schedule p.timezone next e now)
                    there o,
                tick_cached-plans now p (next now) (find_where (state_of p.id) s.cursors) s,
              )
      ]

      tick_plans-Orderly :
          (now : ℕ) (ps : List Plan) (s : Scheduler)
          → All (λ p. any_where (is_plan p.id) s.db.plans ≡ true) ps
          → Orderly v none_but now s
          → Orderly v none_but now (tick_plans starter unreadable save_fault cron now ps s)
      tick_plans-Orderly now [] s there o = o
      tick_plans-Orderly now (p ∷ ps) s there o =
          let (o', same) = tick_plan-Orderly now p s there.0 o in
          tick_plans-Orderly now ps (tick_plan starter unreadable save_fault cron now p s)
            (rw same there.1) o'

      pub tick_cron-Orderly :
          (now : ℕ) (s : Scheduler)
          → Orderly v none_but now s
          → Orderly v none_but now (tick_cron starter unreadable save_fault cron now s)
      unfolding tick_cron list_enabled_plans
      tick_cron-Orderly now s o =
          tick_plans-Orderly now (select_where (λ p. p.enabled) s.db.plans) s
            (selected_there s.db.plans) o
