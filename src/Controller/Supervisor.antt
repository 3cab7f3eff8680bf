-- ===== src/Controller/Supervisor.antt =====
-- internal/controller/supervisor.go: `Supervisor`. Its goroutines take turns at two mutexes, so a run is a
-- list of the pieces that they execute in one go: a call up to the point where it blocks, the write of
-- `stopped` that `stop` makes after its snapshot, the answer of a launch, the reaper of a child, the start
-- of an automatic restart, and its end after the sleep. `holder` is the goroutine that holds `opMu`.
pub mod Safety
pub mod Restarts
use ovcp.Base.{
  ℕ, zero, suc, ◌+◌, ◌-◌, ◌*◌, ◌/◌, ◌%◌, ◌^◌, max, ◌≤◌, ◌<◌, ◌≡◌, refl, sym, ap, subst, ◌∙◌, ◌≢◌,
  ◌↔◌, ◌⊎◌, inl, inr, ite, dite, if_pos, if_neg, Bool, true, false, not, ◌&&◌, ◌||◌, Option, none,
  some, List, [], ◌∷◌, ◌++◌, map, arith, dec_lt, dec_le, ℕ_discrete, ltb, leb, ◌==◌, within,
  if◌then◌else◌, is_yes, ltb→lt, lt→ltb, Bool-cases, if-intro, Option-cases, length, take, drop,
  keep, length-append, length-keep-le, any, find, any-map, any-map-true, find-holds, find-any,
  find-none, find-not, find-keep, find-keep_of_imp, find-keep-none, any-keep, IsDistinct,
  IsDistinct-keep, In, In-keep, keep-In, All, Text, codes, text_discrete, text_eq, is_empty, Map,
  lookup, erase, insert, lookup-erase_self, lookup-erase_ne, lookup-insert_self, lookup-insert_ne,
  IsMap, IsMap-keep, IsMap-erase, IsMap-insert, lookup-keep, Result, ok, err, ◌>>=◌, ◌>>◌, refuse,
  >>=-eq-ok, Result-cases,
}

-- Who holds `opMu`: nobody, a call that waits for a launch, one that is about to write `stopped` or waits
-- for the reaper (to launch afterwards, if `again`), or an automatic restart that waits for its launch.
pub data Holder : Type 0 where
  free launching auto_launching : Holder
  marking awaiting : (again : Bool) → Holder

pub record Supervisor : Type 0 where
  pub holder : Holder
  pub running : Bool
  pub desired : Bool
  pub stopped : Bool
  pub started_at : ℕ
  pub crash_at : ℕ
  pub crash_streak : ℕ
  -- Goroutines of `autoRestart` before and in their sleep.
  pub restarting : ℕ
  pub sleeping : ℕ
  -- What an observer has counted.
  pub launches : ℕ
  pub exits : ℕ
  pub give_ups : ℕ

-- `CrashLoopWindow` and `CrashLoopMax`; 0 stands for the default.
pub record Tuning : Type 0 where
  pub window : ℕ
  pub max_crashes : ℕ

abbrev pub window_of : Tuning → ℕ
window_of t = if t.window == 0 then 60 else t.window

abbrev pub max_of : Tuning → ℕ
max_of t = if t.max_crashes == 0 then 5 else t.max_crashes

pub data Event : Type 0 where
  start stop restart reconnect : Event
  mark : Event
  launched refused : Event
  exit : Event
  crash_seen : Event
  wake : Event

pub data Reply : Type 0 where
  busy not_running : Reply
  none_yet : Reply

unfoldable pub new_supervisor : Supervisor
new_supervisor = record {
  holder = free;
  running = false;
  desired = false;
  stopped = false;
  started_at = 0;
  crash_at = 0;
  crash_streak = 0;
  restarting = 0;
  sleeping = 0;
  launches = 0;
  exits = 0;
  give_ups = 0;
}

abbrev pub is_free : Holder → Bool
is_free free = true
is_free _ = false

-- `start`, which does nothing where a child runs.
unfoldable pub begin_start : Supervisor → Supervisor
begin_start s = if s.running then s else record s { holder = launching }

-- `stop` up to the write of `stopped`.
unfoldable pub begin_stop : Bool → Supervisor → Supervisor
begin_stop again s = if s.running then record s { holder = marking again } else s

-- `stop`, and then `start` where nothing ran.
unfoldable pub begin_restart : Supervisor → Supervisor
unfolding begin_start begin_stop
begin_restart s = if s.running then begin_stop true s else begin_start s

-- `<-done` has closed: the call of `stop` goes on.
unfoldable pub stop_done : Holder → Holder
stop_done (awaiting true) = launching
stop_done (awaiting false) = free
stop_done h = h

-- The write of `stopped`; where the reaper came first, `done` is closed already.
unfoldable pub mark_stopped : Holder → Supervisor → Supervisor
unfolding stop_done
mark_stopped (marking again) s =
    if s.running
    then record s { stopped = true; holder = awaiting again }
    else record s { stopped = true; holder = stop_done (awaiting again) }
mark_stopped h s = s

-- The launch has an answer: `supervise` sent nil, or an error.
unfoldable pub answer : ℕ → Bool → Holder → Supervisor → Supervisor
answer now good launching s =
    if good
    then record s { holder = free; running = true; started_at = now; launches = s.launches + 1 }
    else record s { holder = free }
answer now good auto_launching s =
    if good
    then record s { holder = free; running = true; started_at = now; launches = s.launches + 1 }
    else record s { holder = free }
answer now good h s = s

-- The reaper: the child is gone, whoever asked for it.
unfoldable pub reap : Supervisor → Supervisor
unfolding stop_done
reap s =
    if s.running
    then record s {
      holder = stop_done s.holder;
      running = false;
      stopped = false;
      started_at = 0;
      exits = s.exits + 1;
      restarting = if s.stopped || not s.desired then s.restarting else s.restarting + 1;
    }
    else s

-- `time.Since(s.crashAt) > window`
abbrev pub streak_of : Tuning → ℕ → Supervisor → ℕ
streak_of t now s = (if ltb (window_of t) (now - s.crash_at) then 0 else s.crash_streak) + 1

-- `autoRestart` up to its sleep.
unfoldable pub count_crash : Tuning → ℕ → Supervisor → Supervisor
count_crash t now s =
    if s.restarting == 0
    then s
    else let streak = streak_of t now s in
      let counted : Supervisor = record s {
        crash_streak = streak;
        crash_at = now;
        restarting = s.restarting - 1;
      } in
      if ltb (max_of t) streak
      then record counted { give_ups = s.give_ups + 1 }
      else record counted { sleeping = s.sleeping + 1 }

-- `autoRestart` from its sleep on, once it gets `opMu`.
unfoldable pub wake_up : Supervisor → Supervisor
wake_up s =
    if s.sleeping == 0 || not (is_free s.holder)
    then s
    else if s.desired && not s.running
    then record s { sleeping = s.sleeping - 1; holder = auto_launching }
    else record s { sleeping = s.sleeping - 1 }

-- A call, with `acquireOp` before it: the answer `busy` changes nothing.
unfoldable pub call : Event → Supervisor → Supervisor
unfolding begin_start begin_stop begin_restart
call start s = if is_free s.holder then begin_start (record s { desired = true }) else s
call stop s = if is_free s.holder then begin_stop false (record s { desired = false }) else s
call restart s = if is_free s.holder then begin_restart (record s { desired = true }) else s
call e s = s

-- What a call answers at once.
unfoldable pub reply : Event → Supervisor → Reply
reply reconnect s = if is_free s.holder then (if s.running then none_yet else not_running) else busy
reply e s = if is_free s.holder then none_yet else busy

unfoldable pub step : Tuning → Supervisor → ℕ × Event → Supervisor
unfolding mark_stopped answer reap count_crash wake_up call
step t s (now, mark) = mark_stopped s.holder s
step t s (now, launched) = answer now true s.holder s
step t s (now, refused) = answer now false s.holder s
step t s (now, exit) = reap s
step t s (now, crash_seen) = count_crash t now s
step t s (now, wake) = wake_up s
step t s (now, e) = call e s

unfoldable pub run : Tuning → Supervisor → List (ℕ × Event) → Supervisor
unfolding step
run t s [] = s
run t s (e ∷ es) = run t (step t s e) es
