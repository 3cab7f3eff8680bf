-- ===== src/Controller/Ops/Effects.antt =====
-- What the operations change, and what they report.
use ovcp.Base.{
  ℕ, ◌≡◌, refl, ap, ◌∙◌, ◌≢◌, ◌↔◌, ◌⊎◌, inl, inr, Bool, true, false, not, Option, none, some, arith,
  Text, Result, ok, err,
}
use ovcp.Controller.Ops.{
  Fault, Op, Lifecycle, ControlResult, Verb, status_verb, start_verb, stop_verb, restart_verb,
  reconnect_verb, unknown_verb, verb_of, unknown_op, and_then, run_verb, is_starting, run_after,
  result_at, run_op,
}

-- A verb that asks nothing of the worker.
abbrev pub is_idle : Bool → Verb → Bool
is_idle can status_verb = true
is_idle can reconnect_verb = not can
is_idle can unknown_verb = true
is_idle can v = false

run_verb-idle :
    {W : Type 0} (l : Lifecycle W) (can : Bool) (v : Verb) (w : W)
    → is_idle can v ≡ true
    → (run_verb l can v w ≡ (ok tt, w)) ⊎ (run_verb l can v w ≡ (err unknown_op, w))
run_verb-idle l can status_verb w h = inl refl
run_verb-idle l can start_verb w h = absurd (ground arith)
run_verb-idle l can stop_verb w h = absurd (ground arith)
run_verb-idle l can restart_verb w h = absurd (ground arith)
run_verb-idle l true reconnect_verb w h = absurd (ground arith)
run_verb-idle l false reconnect_verb w h = inr refl
run_verb-idle l can unknown_verb w h = inr refl

run_after-idle :
    {W : Type 0} (after : Option (Op W (Unit {0}))) (v : Verb) (w : W)
    → is_starting v ≡ false
    → run_after after v w ≡ (ok tt, w)
run_after-idle none v w h = refl
run_after-idle (some f) v w h = rw h refl

idle-calm : (can : Bool) (v : Verb) → is_idle can v ≡ true → is_starting v ≡ false
idle-calm can status_verb h = refl
idle-calm can start_verb h = absurd (ground arith)
idle-calm can stop_verb h = absurd (ground arith)
idle-calm can restart_verb h = absurd (ground arith)
idle-calm can reconnect_verb h = refl
idle-calm can unknown_verb h = refl

abbrev last_of : {W : Type 0} → Lifecycle W → ℕ → W → Unit {0} → Op W ControlResult
last_of l serve_start w u w2 = (ok (result_at l serve_start (l.pid w) w2), w2)

abbrev after_of : {W : Type 0} → Option (Op W (Unit {0})) → Verb → Unit {0} → Op W (Unit {0})
after_of after v u = run_after after v

-- `status`, an unknown verb, and `reconnect` where it does not exist, leave the worker and everything
-- else as they were; `afterStart` does not run either.
pub run_op-idle :
    {W : Type 0} (l : Lifecycle W) (serve_start : ℕ) (verb : Text) (can : Bool)
    (after : Option (Op W (Unit {0}))) (w : W)
    → is_idle can (verb_of verb) ≡ true
    → (run_op l serve_start verb can after w).1 ≡ w
unfolding run_op
run_op-idle l serve_start verb can after w h = elim (run_verb-idle l can (verb_of verb) w h) [
  | inl q ↦
      ap (λ r. (and_then (last_of l serve_start w) (and_then (after_of after (verb_of verb)) r)).1)
        q
      ∙ ap (λ r. (and_then (last_of l serve_start w) r).1)
          (run_after-idle after (verb_of verb) w (idle-calm can (verb_of verb) h))
  | inr q ↦
      ap (λ r. (and_then (last_of l serve_start w) (and_then (after_of after (verb_of verb)) r)).1)
        q
]

run_op-fails :
    {W : Type 0} (l : Lifecycle W) (serve_start : ℕ) (verb : Text) (can : Bool)
    (after : Option (Op W (Unit {0}))) (w w2 : W) (e : Fault)
    → run_verb l can (verb_of verb) w ≡ (err e, w2)
    → run_op l serve_start verb can after w ≡ (err e, w2)
unfolding run_op
run_op-fails l serve_start verb can after w w2 e q = rw q refl

after-calm :
    {W : Type 0} (after : Option (Op W (Unit {0}))) (v : Verb) (r : Result Fault (Unit {0}) × W)
    → is_starting v ≡ false
    → and_then (after_of after v) r ≡ and_then (after_of none v) r
after-calm after v (ok u, w) h = run_after-idle after v w h
after-calm after v (err e, w) h = refl

run_op-calm :
    {W : Type 0} (l : Lifecycle W) (serve_start : ℕ) (verb : Text) (can : Bool)
    (after : Option (Op W (Unit {0}))) (w : W)
    → is_starting (verb_of verb) ≡ false
    → run_op l serve_start verb can after w ≡ run_op l serve_start verb can none w
unfolding run_op
run_op-calm l serve_start verb can after w h =
    ap (and_then (last_of l serve_start w))
      (after-calm after (verb_of verb) (run_verb l can (verb_of verb) w) h)

-- `afterStart` runs only after a start or a restart that succeeded: with any other verb the operation is
-- the one without `afterStart`, and an error of the verb is the answer, with what the verb has changed
-- and nothing more.
pub run_op-after :
    {W : Type 0} (l : Lifecycle W) (serve_start : ℕ) (verb : Text) (can : Bool)
    (after : Option (Op W (Unit {0}))) (w : W)
    → (is_starting (verb_of verb) ≡ false
        → run_op l serve_start verb can after w ≡ run_op l serve_start verb can none w)
      × ((e : Fault) (w2 : W)
          → run_verb l can (verb_of verb) w ≡ (err e, w2)
          → run_op l serve_start verb can after w ≡ (err e, w2))
run_op-after l serve_start verb can after w = (
  run_op-calm l serve_start verb can after w,
  λ e w2 q. run_op-fails l serve_start verb can after w w2 e q,
)

abbrev pub Reports : {W : Type 0} → Lifecycle W → W → Result Fault ControlResult × W → Type 0
Reports l w (err e, w2) = Unit
Reports l w (ok r, w2) =
    (r.pid ≡ l.pid w2) × (r.changed ≡ true ↔ l.pid w ≢ l.pid w2) × (r.pid ≡ 0 → r.started_at ≡ 0)

result-Reports :
    {W : Type 0} (l : Lifecycle W) (serve_start : ℕ) (w w2 : W)
    → Reports l w (ok (result_at l serve_start (l.pid w) w2), w2)
result-Reports l serve_start w w2 =
    (refl, (λ h. ground arith, λ h. ground arith), λ h. ground arith)

then-Reports :
    {W : Type 0} (l : Lifecycle W) (serve_start : ℕ) (w : W) (r : Result Fault (Unit {0}) × W)
    → Reports l w (and_then (λ u w2. (ok (result_at l serve_start (l.pid w) w2), w2)) r)
then-Reports l serve_start w (ok u, w2) = result-Reports l serve_start w w2
then-Reports l serve_start w (err e, w2) = tt

-- What an operation that succeeds reports is so at its end: the pid, that the pid is another than before,
-- and no start time for a worker that does not run.
pub run_op-Reports :
    {W : Type 0} (l : Lifecycle W) (serve_start : ℕ) (verb : Text) (can : Bool)
    (after : Option (Op W (Unit {0}))) (w : W)
    → Reports l w (run_op l serve_start verb can after w)
unfolding run_op
run_op-Reports l serve_start verb can after w =
    then-Reports l serve_start w
      (and_then (λ u. run_after after (verb_of verb)) (run_verb l can (verb_of verb) w))
