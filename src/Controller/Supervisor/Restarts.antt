-- ===== src/Controller/Supervisor/Restarts.antt =====
-- How often a worker that keeps crashing is launched again.
use ovcp.Base.{
  ℕ, ◌+◌, ◌-◌, ◌≤◌, ◌≡◌, refl, ◌≢◌, ◌⊎◌, Bool, true, false, List, [], ◌∷◌, arith, if◌then◌else◌,
}
use ovcp.Controller.Supervisor.{
  Supervisor, Tuning, Event, start, stop, restart, reconnect, mark, launched, refused, exit,
  crash_seen, wake, Holder, free, launching, auto_launching, marking, awaiting, is_free, window_of,
  max_of, stop_done, mark_stopped, answer, reap, count_crash, wake_up, call, step, run, begin_start,
  begin_stop, begin_restart,
}

abbrev pub is_auto : Holder → Bool
is_auto auto_launching = true
is_auto _ = false

-- The children that are launched in a run while an automatic restart holds `opMu`.
unfoldable pub auto_launches : Tuning → Supervisor → List (ℕ × Event) → ℕ
auto_launches t s [] = 0
auto_launches t s (e ∷ es) =
    (if is_auto s.holder then (step t s e).launches - s.launches else 0)
    + auto_launches t (step t s e) es

-- The automatic restarts that are on their way: in their sleep, or waiting for their launch.
abbrev pub pending : Supervisor → ℕ
pending s = s.sleeping + (if is_auto s.holder then 1 else 0)

-- Each crash is handled within the window after the one before it, the first at any time.
abbrev pub Looping : Tuning → Supervisor → List (ℕ × Event) → Type 0
Looping t s [] = Unit
Looping t s ((now, crash_seen) ∷ es) =
    ((now - s.crash_at ≤ window_of t) ⊎ (s.crash_streak ≡ 0))
    × Looping t (step t s (now, crash_seen)) es
Looping t s (e ∷ es) = Looping t (step t s e) es

-- No step but a crash makes a restart pending, and a launch uses one up.
abbrev Calm : Supervisor → Supervisor → Type 0
Calm s s2 =
    (s2.crash_streak ≡ s.crash_streak)
    × ((if is_auto s.holder then s2.launches - s.launches else 0) + pending s2 ≤ pending s)

mark-Calm : (h : Holder) (s : Supervisor) → s.holder ≡ h → Calm s (mark_stopped h s)
unfolding mark_stopped stop_done
mark-Calm free s e = ground arith
mark-Calm launching s e = ground arith
mark-Calm auto_launching s e = ground arith
mark-Calm (marking true) s e = ground arith
mark-Calm (marking false) s e = ground arith
mark-Calm (awaiting b) s e = ground arith

answer-Calm :
    (now : ℕ) (good : Bool) (h : Holder) (s : Supervisor)
    → s.holder ≡ h
    → Calm s (answer now good h s)
unfolding answer
answer-Calm now good free s e = ground arith
answer-Calm now good launching s e = ground arith
answer-Calm now good auto_launching s e = ground arith
answer-Calm now good (marking b) s e = ground arith
answer-Calm now good (awaiting b) s e = ground arith

reap-Calm : (h : Holder) (s : Supervisor) → s.holder ≡ h → Calm s (reap s)
unfolding reap stop_done
reap-Calm free s e = rw e (ground arith)
reap-Calm launching s e = rw e (ground arith)
reap-Calm auto_launching s e = rw e (ground arith)
reap-Calm (marking b) s e = rw e (ground arith)
reap-Calm (awaiting true) s e = rw e (ground arith)
reap-Calm (awaiting false) s e = rw e (ground arith)

wake-Calm : (h : Holder) (s : Supervisor) → s.holder ≡ h → Calm s (wake_up s)
unfolding wake_up
wake-Calm h s e = ground arith

call-Calm : (c : Event) (h : Holder) (s : Supervisor) → s.holder ≡ h → Calm s (call c s)
unfolding call begin_start begin_stop begin_restart
call-Calm c h s e = ground arith

step-calm :
    (t : Tuning) (s : Supervisor) (now : ℕ) (e : Event)
    → e ≢ crash_seen
    → ((step t s (now, e)).crash_streak ≡ s.crash_streak)
      × ((if is_auto s.holder then (step t s (now, e)).launches - s.launches else 0)
            + pending (step t s (now, e))
          ≤ pending s)
unfolding step
step-calm t s now crash_seen n = absurd (n refl)
step-calm t s now mark n = mark-Calm s.holder s refl
step-calm t s now launched n = answer-Calm now true s.holder s refl
step-calm t s now refused n = answer-Calm now false s.holder s refl
step-calm t s now exit n = reap-Calm s.holder s refl
step-calm t s now wake n = wake-Calm s.holder s refl
step-calm t s now start n = call-Calm start s.holder s refl
step-calm t s now stop n = call-Calm stop s.holder s refl
step-calm t s now restart n = call-Calm restart s.holder s refl
step-calm t s now reconnect n = call-Calm reconnect s.holder s refl

count_crash-bound :
    (t : Tuning) (s : Supervisor) (now : ℕ)
    → (now - s.crash_at ≤ window_of t) ⊎ (s.crash_streak ≡ 0)
    → ((count_crash t now s).launches ≡ s.launches)
      × (pending (count_crash t now s) + (max_of t - (count_crash t now s).crash_streak)
          ≤ pending s + (max_of t - s.crash_streak))
unfolding count_crash
count_crash-bound t s now l = ground arith

-- While a worker keeps crashing, each crash handled within the window after the one before, automatic
-- restarts launch it at most `CrashLoopMax` times, less the crashes already counted and with the restarts
-- already on their way, whatever else is called in between; a manual restart does not start the count
-- again.
pub auto_launches-le-max :
    (t : Tuning) (es : List (ℕ × Event)) (s : Supervisor)
    → Looping t s es
    → auto_launches t s es ≤ pending s + (max_of t - s.crash_streak)
unfolding auto_launches step
auto_launches-le-max t [] s l = omega arith
auto_launches-le-max t ((now, crash_seen) ∷ es) s l =
    let later = auto_launches-le-max t es (step t s (now, crash_seen)) l.1 in
    let bound = count_crash-bound t s now l.0 in ground arith
auto_launches-le-max t ((now, e) ∷ es) s l =
    let later = auto_launches-le-max t es (step t s (now, e)) l in
    let calm = step-calm t s now e (λ h. cc) in omega arith

-- A child that exits after `stop` has looked and before it writes `stopped` leaves the mark behind: after
-- the `Stop` and the next `Start`, a crash of the new child is taken for a stop and not followed by a
-- restart.
pub stop-stale :
    (t : Tuning) (s : Supervisor) (a b c d f g : ℕ)
    → is_free s.holder ≡ true
    → s.running ≡ true
    → let s' =
        run t s ((a, stop) ∷ (b, exit) ∷ (c, mark) ∷ (d, start) ∷ (f, launched) ∷ (g, exit) ∷ []) in
      (s'.desired ≡ true)
      × (s'.running ≡ false)
      × (s'.exits ≡ s.exits + 2)
      × (s'.restarting ≡ s.restarting)
unfolding run step call begin_start begin_stop begin_restart mark_stopped stop_done answer reap
stop-stale t s a b c d f g free_lock up = ground arith
