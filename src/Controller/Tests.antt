-- ===== src/Controller/Tests.antt =====
-- Runs of a worker, a status file, notices of openvpn, kills, and exchanges over the control socket.
use ovcp.Base.{
  In, lookup, none, ℕ_discrete, length, if◌then◌else◌, codes, some, Text, pos, ℕ, ◌+◌, ◌-◌, ◌≤◌,
  ◌≡◌, refl, inr, true, false, List, [], ◌∷◌,
}
use ovcp.Controller.Supervisor.{
  Supervisor, Tuning, Event, start, stop, mark, launched, exit, crash_seen, wake, new_supervisor,
  max_of, stop_done, mark_stopped, answer, reap, count_crash, wake_up, call, step, run, begin_start,
  begin_stop, begin_restart,
}
use ovcp.Controller.Logs.{LogFiles, compress_old, old_times, times_of, kept_number}
use ovcp.Controller.Logs.Rotated.{at_time, packed_at, is_time}
use ovcp.Controller.Logs.Packed.{compress_old-packs}
use ovcp.Controller.Supervisor.Safety.{Inv, run-Inv, run-stopped}
use ovcp.Controller.Supervisor.Restarts.{auto_launches, pending, auto_launches-le-max, stop-stale}

abbrev tuning : Tuning
tuning = record { window = 0; max_crashes = 0 }

-- A start, a crash with its restart, and a stop.
abbrev crash_run : List (ℕ × Event)
crash_run =
    (0, start)
    ∷ (0, launched)
    ∷ (5, exit)
    ∷ (5, crash_seen)
    ∷ (6, wake)
    ∷ (6, launched)
    ∷ (7, stop)
    ∷ (7, mark)
    ∷ (8, exit)
    ∷ []

run-Inv_example : Inv (run tuning new_supervisor crash_run)
run-Inv_example = run-Inv tuning crash_run

run-stopped_example :
    ((run tuning (run tuning new_supervisor crash_run) ((9, crash_seen) ∷ (9, wake) ∷ [])).running
      ≡ false)
    × ((run tuning
          (run tuning new_supervisor crash_run)
          ((9, crash_seen) ∷ (9, wake) ∷ [])).launches
        ≡ (run tuning new_supervisor crash_run).launches)
unfolding run step call begin_start begin_stop begin_restart mark_stopped stop_done answer reap
    count_crash wake_up new_supervisor
run-stopped_example = run-stopped tuning crash_run ((9, crash_seen) ∷ (9, wake) ∷ []) refl refl tt

auto_launches-le-max_example :
    auto_launches tuning new_supervisor crash_run
    ≤ pending new_supervisor + (max_of tuning - new_supervisor.crash_streak)
unfolding run step call begin_start begin_stop begin_restart mark_stopped stop_done answer reap
    count_crash wake_up new_supervisor
auto_launches-le-max_example = auto_launches-le-max tuning crash_run new_supervisor (inr refl, tt)

abbrev up : Supervisor
up = run tuning new_supervisor ((0, start) ∷ (0, launched) ∷ [])

stop-stale_example :
    let s' =
      run tuning up
        ((1, stop) ∷ (2, exit) ∷ (3, mark) ∷ (4, start) ∷ (4, launched) ∷ (9, exit) ∷ []) in
    (s'.desired ≡ true)
    × (s'.running ≡ false)
    × (s'.exits ≡ up.exits + 2)
    × (s'.restarting ≡ up.restarting)
unfolding run step call begin_start answer new_supervisor
stop-stale_example = stop-stale tuning up 1 2 3 4 4 9 refl refl

-- Three generations, of which one may stay plain.
abbrev three_logs : LogFiles
three_logs = record {
  current = some [];
  plain = (20, codes "b") ∷ (10, codes "a") ∷ (30, codes "c") ∷ [];
  packed = [];
}

compress_old-packs_example :
    let s2 = compress_old (λ (s : Text). b'z' ∷ s) (pos 1) three_logs in
    ((t : ℕ)
      → at_time t s2 ≡ (
          if is_time t (old_times (pos 1) three_logs.plain)
          then packed_at (λ (s : Text). b'z' ∷ s) (at_time t three_logs)
          else at_time t three_logs))
    × (length (old_times (pos 1) three_logs.plain) ≡ length three_logs.plain - kept_number (pos 1))
    × (length s2.plain ≤ kept_number (pos 1))
    × ((t u : ℕ)
        → In t (times_of three_logs.plain)
        → lookup ℕ_discrete t s2.plain ≡ none
        → In u (times_of s2.plain)
        → t ≤ u)
compress_old-packs_example = compress_old-packs (λ (s : Text). b'z' ∷ s) (pos 1) three_logs
