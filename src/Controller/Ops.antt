-- ===== src/Controller/Ops.antt =====
-- internal/controller/control.go: `RunOp` and `RunTelegramOp`, for any worker and any poller whose calls
-- act on a state `W`. A call gives its error, or its panic, as a `Fault`; a time is a number, 0 for none.
pub mod Effects
use ovcp.Base.{
  ℕ, zero, suc, ◌+◌, ◌-◌, ◌*◌, ◌/◌, ◌%◌, ◌^◌, max, ◌≤◌, ◌<◌, ◌≡◌, refl, sym, ap, subst, ◌∙◌, ◌≢◌,
  ◌↔◌, ◌⊎◌, inl, inr, ite, dite, if_pos, if_neg, Bool, true, false, not, ◌&&◌, ◌||◌, Option, none,
  some, List, [], ◌∷◌, ◌++◌, map, arith, dec_lt, dec_le, ℕ_discrete, ltb, leb, ◌==◌, within,
  if◌then◌else◌, is_yes, ltb→lt, lt→ltb, leb, Bool-cases, if-intro, Option-cases, length, take,
  drop, keep, length-append, length-keep-le, any, find, any-map, any-map-true, find-holds, find-any,
  find-none, find-not, find-keep, find-keep_of_imp, find-keep-none, any-keep, IsDistinct,
  IsDistinct-keep, In, In-keep, keep-In, All, Text, codes, text_discrete, text_eq, is_empty, Map,
  lookup, erase, insert, lookup-erase_self, lookup-erase_ne, lookup-insert_self, lookup-insert_ne,
  IsMap, IsMap-keep, IsMap-erase, IsMap-insert, lookup-keep, Result, ok, err, ◌>>=◌, ◌>>◌, refuse,
  >>=-eq-ok, Result-cases, trim_space, trim_right_space, trim_left_space, is_space, cut, cut-found,
  cut_prefix, cut_prefix-append, has_prefix, lacks, one_line, split, join,
}

pub data Fault : Type 0 where
  failed : Text → Fault
  panicked : Fault

-- A call that may fail.
abbrev pub Op : Type 0 → Type 0 → Type 0
Op W A = W → Result Fault A × W

pub record Lifecycle (W : Type 0) : Type 0 where
  pub start : Op W (Unit {0})
  pub stop : Op W (Unit {0})
  pub restart : Op W (Unit {0})
  pub reconnect : Op W (Unit {0})
  pub pid : W → ℕ
  pub started_at : W → ℕ

pub record TelegramStatus : Type 0 where
  pub running : Bool
  pub token_set : Bool
  pub admin : Text
  pub chat_linked : Bool
  pub changed : Bool

pub record TelegramController (W : Type 0) : Type 0 where
  pub start : Op W (Unit {0})
  pub stop : Op W (Unit {0})
  pub restart : Op W (Unit {0})
  pub status : W → TelegramStatus

pub record ControlResult : Type 0 where
  pub pid : ℕ
  pub changed : Bool
  pub started_at : ℕ
  pub serve_started_at : ℕ

pub data Verb : Type 0 where
  status_verb start_verb stop_verb restart_verb reconnect_verb unknown_verb : Verb

unfoldable pub verb_of : Text → Verb
unfolding text_discrete
verb_of v =
    if text_eq v (codes "status")
    then status_verb
    else if text_eq v (codes "start")
    then start_verb
    else if text_eq v (codes "stop")
    then stop_verb
    else if text_eq v (codes "restart")
    then restart_verb
    else if text_eq v (codes "reconnect")
    then reconnect_verb
    else unknown_verb

-- `ErrUnknownOp`
abbrev pub unknown_op : Fault
unknown_op = failed (codes "unknown operation")

-- `if err != nil { return err }` between two calls.
abbrev pub and_then : {W A B : Type 0} → (A → Op W B) → Result Fault A × W → Result Fault B × W
and_then next (ok a, w) = next a w
and_then next (err e, w) = (err e, w)

-- The switch of `RunOp`.
abbrev pub run_verb : {W : Type 0} → Lifecycle W → Bool → Verb → Op W (Unit {0})
run_verb target can status_verb w = (ok tt, w)
run_verb target can start_verb w = target.start w
run_verb target can stop_verb w = target.stop w
run_verb target can restart_verb w = target.restart w
run_verb target can reconnect_verb w = if can then target.reconnect w else (err unknown_op, w)
run_verb target can unknown_verb w = (err unknown_op, w)

abbrev pub is_starting : Verb → Bool
is_starting start_verb = true
is_starting restart_verb = true
is_starting _ = false

-- `fmt.Errorf("upstream reapply: %w", err)`
abbrev pub reapply_fault : {W : Type 0} → Result Fault (Unit {0}) × W → Result Fault (Unit {0}) × W
reapply_fault (err (failed e), w) = (err (failed (codes "upstream reapply: " ++ e)), w)
reapply_fault (r, w) = (r, w)

abbrev pub run_after : {W : Type 0} → Option (Op W (Unit {0})) → Verb → Op W (Unit {0})
run_after none v w = (ok tt, w)
run_after (some after) v w = if is_starting v then reapply_fault (after w) else (ok tt, w)

abbrev pub result_at : {W : Type 0} → Lifecycle W → ℕ → ℕ → W → ControlResult
result_at target serve_start before w = record {
  pid = target.pid w;
  changed = not (target.pid w == before);
  started_at = if target.pid w == 0 then 0 else target.started_at w;
  serve_started_at = serve_start;
}

-- `RunOp`; `serve_start` is `ProcessStartedAt`.
unfoldable pub run_op :
    {W : Type 0} → Lifecycle W → ℕ → Text → Bool → Option (Op W (Unit {0})) → Op W ControlResult
unfolding verb_of
run_op target serve_start verb can after w =
    and_then (λ u w2. (ok (result_at target serve_start (target.pid w) w2), w2))
      (and_then (λ u. run_after after (verb_of verb)) (run_verb target can (verb_of verb) w))

-- The switch of `RunTelegramOp`.
abbrev pub run_telegram_verb : {W : Type 0} → TelegramController W → Verb → Op W (Unit {0})
run_telegram_verb t status_verb w = (ok tt, w)
run_telegram_verb t start_verb w = t.start w
run_telegram_verb t stop_verb w = t.stop w
run_telegram_verb t restart_verb w = t.restart w
run_telegram_verb t reconnect_verb w = (err unknown_op, w)
run_telegram_verb t unknown_verb w = (err unknown_op, w)

abbrev pub bool_eq : Bool → Bool → Bool
bool_eq a b = if a then b else not b

-- `RunTelegramOp`
unfoldable pub run_telegram_op : {W : Type 0} → TelegramController W → Text → Op W TelegramStatus
unfolding verb_of
run_telegram_op t verb w =
    and_then
      (λ u w2. (
        ok (record (t.status w2) {
          changed = not (bool_eq (t.status w2).running (t.status w).running);
        }),
        w2,
      ))
      (run_telegram_verb t (verb_of verb) w)
