-- ===== src/Scheduler/Once.antt =====
-- Every tick, restart and change in between keeps the order of the slots (internal/server/scheduler/scheduler.go).
use backup_management_center.Common.{
  ℕ, ◌≤◌, ◌≡◌, refl, ◌⊎◌, inl, inr, Bool, true, false, List, [], ◌∷◌, arith, All, All-weaken,
  All-delete_where, NoClash,
}
use backup_management_center.Store.Db.{Cursor}
use backup_management_center.Store.Plans.{cursor_of}
use backup_management_center.Scheduler.{Scheduler, tick_cron}
use backup_management_center.Scheduler.Ticks.{
  Setting, run_tick, Reached, started, ticked, restarted, edited, unplanned,
}
use backup_management_center.Scheduler.Cursors.{
  Orderly, none_but, IsLater, shadowed, NeverFails, goes_back, ahead,
}
use backup_management_center.Scheduler.Slots.{tick_cron-Orderly}
use backup_management_center.Scheduler.Quiet.{Orderly-Quiet, rest-Quiet}

All-ahead :
    (v : Bool) (cs : List Cursor)
    → All
        (λ c.
          none_but c.plan_id ≡ false
          → shadowed v c.plan_id [] ≡ false
          → ahead c.plan_id c.next_fire_at [] ≡ true)
        cs
All-ahead v [] = tt
All-ahead v (c ∷ cs) = ((λ _ _. ground arith), All-ahead v cs)

-- The process is not restarted on the way.
abbrev pub NeverRestarts : {set : Setting} {t : ℕ} {s : Scheduler} → Reached set t s → Type 0
NeverRestarts (started db) = Unit
NeverRestarts (ticked now r le) = NeverRestarts r
NeverRestarts (restarted r) = true ≡ false
NeverRestarts (edited db r e) = NeverRestarts r
NeverRestarts (unplanned id db r e) = NeverRestarts r

module _ (set : Setting) (later : IsLater set.cron) (v : Bool)
    (saved : (v ≡ true) ⊎ NeverFails set.save_fault) where
  Orderly-later :
      (t now : ℕ) (s : Scheduler) → t ≤ now → Orderly v none_but t s → Orderly v none_but now s
  Orderly-later t now s le o = record {
    past = All-weaken (λ f. f.slot ≤ t) (λ f. f.slot ≤ now) (λ f h. omega arith) s.firings o.past;
    cached = o.cached;
    stored = o.stored;
    forward = o.forward;
  }

  run_tick-Orderly :
      (now : ℕ) (s : Scheduler)
      → Orderly v none_but now s
      → Orderly v none_but now (run_tick set now s)
  run_tick-Orderly now s o =
      Orderly-Quiet v now (tick_cron set.starter set.unreadable set.save_fault set.cron now s)
        (run_tick set now s) (rest-Quiet set now s)
        (tick_cron-Orderly v set.starter set.unreadable set.save_fault saved set.cron later now s o)

  Reached-Orderly :
      {t : ℕ} {s : Scheduler} (r : Reached set t s)
      → (v ≡ false) ⊎ NeverRestarts r
      → Orderly v none_but t s
  Reached-Orderly (started db) k = record {
    past = tt;
    cached = tt;
    stored = All-ahead v db.cursors;
    forward = tt;
  }
  Reached-Orderly (ticked {t} {s} now r le) k =
      run_tick-Orderly now s (Orderly-later t now s le (Reached-Orderly r k))
  Reached-Orderly (restarted {t} {s} r) (inr k) = absurd (cc)
  Reached-Orderly (restarted {t} {s} r) (inl k) =
      let o = Reached-Orderly r (inl k) in
      record {
        past = o.past;
        cached = tt;
        stored =
            All-weaken
              (λ c.
                none_but c.plan_id ≡ false
                → shadowed v c.plan_id s.cursors ≡ false
                → ahead c.plan_id c.next_fire_at s.firings ≡ true)
              (λ c.
                none_but c.plan_id ≡ false
                → shadowed v c.plan_id [] ≡ false
                → ahead c.plan_id c.next_fire_at s.firings ≡ true)
              (λ c h e g. h e (rw k refl)) s.db.cursors o.stored;
        forward = o.forward;
      }
  Reached-Orderly (edited db r e) k =
      let o = Reached-Orderly r k in
      record { past = o.past; cached = o.cached; stored = rw e o.stored; forward = o.forward }
  Reached-Orderly (unplanned {t} {s} id db r e) k =
      let o = Reached-Orderly r k in
      record {
        past = o.past;
        cached = o.cached;
        stored = rw e (
            All-delete_where
              (λ c.
                none_but c.plan_id ≡ false
                → shadowed v c.plan_id s.cursors ≡ false
                → ahead c.plan_id c.next_fire_at s.firings ≡ true)
              (cursor_of id) s.db.cursors o.stored);
        forward = o.forward;
      }

-- If the parser's next slot is after the given time, and the starter's calls touch neither plans nor
-- persisted slots, then in every state that a scheduler reaches, by ticks at times that do not go
-- back, restarts, and changes of the database that keep or drop persisted slots, the runs started
-- for one plan have strictly increasing slots: no slot of a plan is started twice, whatever its
-- schedule was changed to in between. Writes of slots may fail as long as the process is not
-- restarted; with restarts, none of them fails.
pub run_tick-once :
    (set : Setting)
    → IsLater set.cron
    → (t : ℕ) (s : Scheduler) (r : Reached set t s) → NeverFails set.save_fault ⊎ NeverRestarts r
    → NoClash goes_back s.firings
run_tick-once set later t s r (inl saved) =
    (Reached-Orderly set later false (inr saved) r (inl refl)).forward
run_tick-once set later t s r (inr running) =
    (Reached-Orderly set later true (inl refl) r (inr running)).forward
