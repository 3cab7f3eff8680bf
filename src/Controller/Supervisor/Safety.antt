-- ===== src/Controller/Supervisor/Safety.antt =====
-- What holds of a supervisor after any run.
use ovcp.Base.{ℕ, ◌+◌, ◌≡◌, refl, ◌∙◌, Bool, true, false, List, [], ◌∷◌, arith, if◌then◌else◌}
use ovcp.Controller.Supervisor.{
  Holder, launching, auto_launching, marking, awaiting, Supervisor, Tuning, Event, start, stop,
  restart, reconnect, mark, launched, refused, exit, crash_seen, wake, new_supervisor, is_free,
  stop_done, mark_stopped, answer, reap, count_crash, wake_up, call, step, run, begin_start,
  begin_stop, begin_restart,
}

-- A launch is under way.
abbrev pub is_launching : Holder → Bool
is_launching launching = true
is_launching auto_launching = true
is_launching _ = false

-- A launch is under way, or will be once the child is gone.
abbrev pub will_launch : Holder → Bool
will_launch (marking again) = again
will_launch (awaiting again) = again
will_launch h = is_launching h

abbrev pub is_awaiting : Holder → Bool
is_awaiting (awaiting again) = true
is_awaiting _ = false

-- One child at a time; a launch only where none runs and one is wanted; and a child that is not wanted
-- only while a `Stop` is about to end it.
pub record Inv (s : Supervisor) : Type 0 where
  pub one_child : s.launches ≡ (if s.running then s.exits + 1 else s.exits)
  pub alone : is_launching s.holder ≡ true → s.running ≡ false
  pub wanted : will_launch s.holder ≡ true → s.desired ≡ true
  pub unwanted : s.desired ≡ false → s.running ≡ true → is_free s.holder ≡ false
  pub awaiting_runs : is_awaiting s.holder ≡ true → s.running ≡ true

new-Inv : Inv new_supervisor
unfolding new_supervisor
new-Inv = ground arith

call-Inv : (e : Event) (s : Supervisor) → Inv s → Inv (call e s)
unfolding call begin_start begin_stop begin_restart
call-Inv start s i = ground arith
call-Inv stop s i = ground arith
call-Inv restart s i = ground arith
call-Inv e s i = i

mark_stopped-Inv : (s : Supervisor) → Inv s → Inv (mark_stopped s.holder s)
unfolding mark_stopped stop_done
mark_stopped-Inv s i = ground arith

answer-Inv : (now : ℕ) (good : Bool) (s : Supervisor) → Inv s → Inv (answer now good s.holder s)
unfolding answer
answer-Inv now good s i = ground arith

reap-Inv : (s : Supervisor) → Inv s → Inv (reap s)
unfolding reap stop_done
reap-Inv s i = ground arith

count_crash-Inv : (t : Tuning) (now : ℕ) (s : Supervisor) → Inv s → Inv (count_crash t now s)
unfolding count_crash
count_crash-Inv t now s i = ground arith

wake_up-Inv : (s : Supervisor) → Inv s → Inv (wake_up s)
unfolding wake_up
wake_up-Inv s i = ground arith

pub step-Inv : (t : Tuning) (s : Supervisor) (e : ℕ × Event) → Inv s → Inv (step t s e)
unfolding step
step-Inv t s (now, mark) i = mark_stopped-Inv s i
step-Inv t s (now, launched) i = answer-Inv now true s i
step-Inv t s (now, refused) i = answer-Inv now false s i
step-Inv t s (now, exit) i = reap-Inv s i
step-Inv t s (now, crash_seen) i = count_crash-Inv t now s i
step-Inv t s (now, wake) i = wake_up-Inv s i
step-Inv t s (now, start) i = call-Inv start s i
step-Inv t s (now, stop) i = call-Inv stop s i
step-Inv t s (now, restart) i = call-Inv restart s i
step-Inv t s (now, reconnect) i = i

run-Inv_from : (t : Tuning) (es : List (ℕ × Event)) (s : Supervisor) → Inv s → Inv (run t s es)
unfolding run
run-Inv_from t [] s i = i
run-Inv_from t (e ∷ es) s i = run-Inv_from t es (step t s e) (step-Inv t s e i)

-- After any run from a new supervisor, however calls, crashes and automatic restarts interleave, at most
-- one child is alive, a launch is under way only where none runs and one is wanted, and a child that is
-- not wanted runs only while a call that holds the lock is about to end it.
pub run-Inv : (t : Tuning) (es : List (ℕ × Event)) → Inv (run t new_supervisor es)
run-Inv t es = run-Inv_from t es new_supervisor new-Inv

-- Neither `Start` nor `Restart`.
abbrev pub Quiet : List (ℕ × Event) → Type 0
Quiet [] = Unit
Quiet ((now, start) ∷ es) = ⊥
Quiet ((now, restart) ∷ es) = ⊥
Quiet (e ∷ es) = Quiet es

-- Nothing runs, nothing is wanted, and nobody is about to launch.
pub record Down (s : Supervisor) : Type 0 where
  pub silent : s.running ≡ false
  pub unwanted : s.desired ≡ false
  pub idle : will_launch s.holder ≡ false

step-Down :
    (t : Tuning) (s : Supervisor) (now : ℕ) (e : Event)
    → Quiet ((now, e) ∷ [])
    → Down s
    → Down (step t s (now, e)) × ((step t s (now, e)).launches ≡ s.launches)
unfolding step call begin_stop mark_stopped stop_done answer reap count_crash wake_up
step-Down t s now start q d = absurd q
step-Down t s now restart q d = absurd q
step-Down t s now mark q d = ground arith
step-Down t s now e q d = ground arith

run-Down :
    (t : Tuning) (es : List (ℕ × Event)) (s : Supervisor)
    → Quiet es
    → Down s
    → Down (run t s es) × ((run t s es).launches ≡ s.launches)
unfolding run
run-Down t [] s q d = (d, refl)
run-Down t ((now, start) ∷ es) s q d = absurd q
run-Down t ((now, restart) ∷ es) s q d = absurd q
run-Down t ((now, e) ∷ es) s q d =
    let (down, same) = step-Down t s now e tt d in
    let (after, unchanged) = run-Down t es (step t s (now, e)) q down in (after, unchanged ∙ same)

free-Down : (s : Supervisor) → Inv s → s.desired ≡ false → is_free s.holder ≡ true → Down s
free-Down s i d f = ground arith

-- In a state that a run can reach, once the last call was a `Stop` and it has returned, nothing runs and
-- no child is launched again, whatever crashes were still to be handled, until `Start` or `Restart` is
-- called.
pub run-stopped :
    (t : Tuning) (before after : List (ℕ × Event))
    → (run t new_supervisor before).desired ≡ false
    → is_free (run t new_supervisor before).holder ≡ true
    → Quiet after
    → ((run t (run t new_supervisor before) after).running ≡ false)
      × ((run t (run t new_supervisor before) after).launches
          ≡ (run t new_supervisor before).launches)
run-stopped t before after d f q =
    let s = run t new_supervisor before in
    let i = run-Inv t before in
    let (down, same) = run-Down t after s q (free-Down s i d f) in (down.silent, same)
