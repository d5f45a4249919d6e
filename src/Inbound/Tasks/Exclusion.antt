-- ===== src/Inbound/Tasks/Exclusion.antt =====
-- Any number of tasks of application/use_cases/process_inbound_message.py, interleaved in any order.
use edge_copilot_backend.Prelude.{
  or-right, Bool-cases, false, ◌||◌, ℕ, ◌+◌, ◌<◌, String, Bool, true, ◌≡◌, refl, sym, ◌∙◌, inl, inr,
  lt→ltb,
}
use edge_copilot_backend.Values.{DateTime, seconds}
use edge_copilot_backend.Ports.Laws.{Remembers}
use edge_copilot_backend.Tasks.{Pool, Reach}
use edge_copilot_backend.Tasks.Once.{Effect, past_once, answered_new}
use edge_copilot_backend.Inbound.{
  ProcessInboundMessageRequest, ProcessInboundMessage, World, dedup_key,
}
use edge_copilot_backend.Inbound.Tasks.{Place, arrived, deduplicating, advance}
use edge_copilot_backend.Inbound.Tasks.Together.{is_past_guard, segment-Quiet, guard_segment}

-- A task, with a mark of what it has been through: whether it was past the guard at an earlier
-- turn. The mark stays when the task raises later on.
pub record Watched : Type 0 where
  pub place : Place
  pub passed_before : Bool

-- The guard has let the task pass, whatever became of it.
abbrev pub has_passed : Watched → Bool
has_passed p = p.passed_before || is_past_guard p.place

module _ (use_case : ProcessInboundMessage) (requests : ℕ → ProcessInboundMessageRequest)
    (nows : ℕ → DateTime) where
  -- Task `i` runs `execute` on request `i`.
  abbrev pub run_task : ℕ → ℕ → Place → World use_case → Place × World use_case
  run_task i t place w = advance use_case (requests i) (nows i) t place w

  -- The same, with the mark.
  abbrev pub run_watched : ℕ → ℕ → Watched → World use_case → Watched × World use_case
  run_watched i t p w =
      let (place, v) = run_task i t p.place w in
      (record { place = place; passed_before = has_passed p }, v)

  -- No task has begun.
  abbrev pub opening : ℕ → World use_case → Pool Watched (World use_case)
  opening time w = record {
    time = time;
    world = w;
    place = λ i. record { place = arrived; passed_before = false };
  }

  abbrev key : ℕ → String
  key i = dedup_key (requests i)

  module _ (held : use_case.replay_guard.State → ℕ → String → Bool)
      (law : Remembers use_case.replay_guard held use_case.dedup_ttl_seconds) where
    -- What one segment does to the guard.
    abbrev SegmentEffect : ℕ → ℕ → Place → World use_case → Type 0
    SegmentEffect =
        Effect run_task (λ w. held w.guard) key (seconds use_case.dedup_ttl_seconds) is_past_guard

    at_guard-Effect :
        (i t : ℕ) (place : Place) (w : World use_case) (message : _)
        → place ≡ deduplicating message
        → SegmentEffect i t place w
    at_guard-Effect i t place w message at =
        let (after, answer) = guard_segment use_case (requests i) (nows i) t message w in
        rw at (record {
          keeps = λ u k order h. rw after (law.keeps w.guard t (key i) u k order h);
          passes = λ past.
              let fresh = answered_new _ (sym (law.answers w.guard t (key i)) ∙ answer past) in
              inr (
                fresh,
                (λ u order soon.
                    rw after (law.records w.guard t (key i) u fresh order ∙ lt→ltb u _ soon)),
              );
        })

    advance-Effect : (i t : ℕ) (place : Place) (w : World use_case) → SegmentEffect i t place w
    unfolding advance
    advance-Effect i t place w = elim (segment-Quiet use_case (requests i) (nows i) t place w) [
      | inl (message, at) ↦ at_guard-Effect i t place w message at
      | inr (same', back) ↦ record {
        keeps = λ u k order h. rw same' h;
        passes = λ past. inl (back past);
      }
    ]

    turn-Effect :
        (i t : ℕ) (p : Watched) (w : World use_case)
        → Effect run_watched
            (λ v. held v.guard)
            key
            (seconds use_case.dedup_ttl_seconds)
            has_passed
            i
            t
            p
            w
    turn-Effect i t p w =
        let e = advance-Effect i t p.place w in
        record {
          keeps = e.keeps;
          passes = λ past. elim (Bool-cases (has_passed p)) [
            | inl was ↦ inl was
            | inr not_yet ↦ elim (e.passes (rw not_yet at past)) [
              | inl past' ↦ inl (or-right p.passed_before _ past')
              | inr new ↦ inr new
            ]
          ];
        }

    -- Over a guard that keeps its promises: however the tasks interleave, until the time to live has
    -- passed from when the first could begin, the guard has let at most one task pass of those whose
    -- requests have one dedup key, also counting the tasks that have raised since. A task is let pass
    -- when it comes to the look-up of its sender, or to any later place but a raise.
    pub past_guard_once :
        (start : ℕ) (w : World use_case) (s : Pool Watched (World use_case)) (i j : ℕ)
        → Reach run_watched (opening start w) s
        → s.time < start + seconds use_case.dedup_ttl_seconds
        → has_passed (s.place i) ≡ true
        → has_passed (s.place j) ≡ true
        → dedup_key (requests i) ≡ dedup_key (requests j)
        → i ≡ j
    past_guard_once start w s i j =
        past_once run_watched (λ v. held v.guard) key (seconds use_case.dedup_ttl_seconds)
          has_passed turn-Effect (opening start w) s i j (λ k. refl)
