-- ===== src/Telegram/Updates.antt =====
-- internal/telegram/poller.go, `loop`: the polls for updates and the offset that acknowledges them. A server
-- answers each poll with updates or an error; the context ends the loop after some number of polls.
use ovcp.Base.{
  ℕ, zero, suc, ◌+◌, ◌≤◌, ◌<◌, ◌≡◌, subst, Option, none, some, List, [], ◌∷◌, arith, leb,
  if◌then◌else◌, leb,
}
use ovcp.Telegram.Poller.{Update}

-- `seen` are the ids handed to `handle`, the newest first.
pub record Loop (S : Type 0) : Type 0 where
  pub offset : ℕ
  pub fail_streak : ℕ
  pub warnings : ℕ
  pub seen : List ℕ
  pub state : S

abbrev pub first_loop : {S : Type 0} → S → Loop S
first_loop s = record { offset = 0; fail_streak = 0; warnings = 0; seen = []; state = s }

-- The loop over the updates of one poll; nothing where the handler panics.
abbrev pub took : {S : Type 0} → Update → Loop S → Option S → Option (Loop S)
took u l none = none
took u l (some s) =
    some (record l { offset = u.update_id + 1; seen = u.update_id ∷ l.seen; state = s })

abbrev pub then_take : {S : Type 0} → (Loop S → Option (Loop S)) → Option (Loop S) → Option (Loop S)
then_take next none = none
then_take next (some l) = next l

unfoldable pub take_all :
    {S : Type 0} → (Update → S → Option S) → List Update → Loop S → Option (Loop S)
take_all handle [] l = some l
take_all handle (u ∷ us) l = then_take (take_all handle us) (took u l (handle u l.state))

-- One poll, with `getUpdatesWarnThreshold`.
unfoldable pub poll :
    {S : Type 0} → (Update → S → Option S) → Option (List Update) → Loop S → Option (Loop S)
unfolding take_all
poll handle none l = some (record l {
  fail_streak = l.fail_streak + 1;
  warnings = if leb 3 (l.fail_streak + 1) then l.warnings + 1 else l.warnings;
})
poll handle (some us) l = take_all handle us (record l { fail_streak = 0 })

-- What the server answers the nth poll from the end, for an offset.
abbrev pub Server : Type 0
Server = ℕ → ℕ → Option (List Update)

-- `loop`, for `n` polls.
unfoldable pub run_polls :
    {S : Type 0} → (Update → S → Option S) → Server → ℕ → Loop S → Option (Loop S)
unfolding poll
run_polls handle server zero l = some l
run_polls handle server (suc n) l =
    then_take (run_polls handle server n) (poll handle (server n l.offset) l)

-- Updates from the offset on, in ascending order, as the Bot API promises.
abbrev pub InOrder : ℕ → List Update → Type 0
InOrder k [] = Unit
InOrder k (u ∷ us) = (k ≤ u.update_id) × InOrder (u.update_id + 1) us

abbrev pub AnswerInOrder : ℕ → Option (List Update) → Type 0
AnswerInOrder k none = Unit
AnswerInOrder k (some us) = InOrder k us

abbrev pub IsServer : Server → Type 0
IsServer server = (n k : ℕ) → AnswerInOrder k (server n k)

-- Each id is less than the one handled after it.
abbrev pub Ascends : ℕ → List ℕ → Type 0
Ascends k [] = Unit
Ascends k (i ∷ is) = (i < k) × Ascends i is

abbrev LoopAscends : {S : Type 0} → Option (Loop S) → Type 0
LoopAscends none = Unit
LoopAscends (some l) = Ascends l.offset l.seen

Ascends-le : (k m : ℕ) (is : List ℕ) → Ascends k is → k ≤ m → Ascends m is
Ascends-le k m [] h q = tt
Ascends-le k m (i ∷ is) h q = (omega (arith, h.0), h.1)

take_all-Ascends :
    {S : Type 0} (handle : Update → S → Option S) (us : List Update) (l : Loop S)
    → InOrder l.offset us
    → Ascends l.offset l.seen
    → LoopAscends (take_all handle us l)
unfolding take_all
take_all-Ascends handle [] l o h = h
take_all-Ascends handle (u ∷ us) l (o, os) h =
    elim (handle u l.state) as (λ r. LoopAscends (then_take (take_all handle us) (took u l r))) [
      | none ↦ tt
      | some s ↦
          take_all-Ascends handle us
            (record l { offset = u.update_id + 1; seen = u.update_id ∷ l.seen; state = s }) os
            (omega arith, Ascends-le l.offset u.update_id l.seen h o)
    ]

poll-Ascends :
    {S : Type 0} (handle : Update → S → Option S) (a : Option (List Update)) (l : Loop S)
    → AnswerInOrder l.offset a
    → Ascends l.offset l.seen
    → LoopAscends (poll handle a l)
unfolding poll
poll-Ascends handle none l o h = h
poll-Ascends handle (some us) l o h = take_all-Ascends handle us (record l { fail_streak = 0 }) o h

abbrev KeepsAscending : {S : Type 0} → (Loop S → Option (Loop S)) → Type 0
KeepsAscending {S} next = (l : Loop S) → Ascends l.offset l.seen → LoopAscends (next l)

then-Ascends :
    {S : Type 0} (next : Loop S → Option (Loop S)) (a : Option (Loop S))
    → KeepsAscending next
    → LoopAscends a
    → LoopAscends (then_take next a)
then-Ascends next none k h = tt
then-Ascends next (some l) k h = k l h

polls-Ascends :
    {S : Type 0} (handle : Update → S → Option S) (server : Server) (n : ℕ)
    → IsServer server
    → KeepsAscending (run_polls handle server n)
unfolding run_polls
polls-Ascends handle server zero q = λ l h. h
polls-Ascends handle server (suc n) q = λ l h.
    then-Ascends (run_polls handle server n) (poll handle (server n l.offset) l)
      (polls-Ascends handle server n q) (poll-Ascends handle (server n l.offset) l (q n l.offset) h)

-- However many polls are made and however many of them fail, the updates are handled in the order of their
-- ids and none twice, and the next poll asks from behind the last one; if the server answers each poll with
-- updates from its offset on in ascending order.
pub run_polls-Ascends :
    {S : Type 0} (handle : Update → S → Option S) (server : Server) (n : ℕ) (s : S) (l : Loop S)
    → IsServer server
    → run_polls handle server n (first_loop s) ≡ some l
    → Ascends l.offset l.seen
run_polls-Ascends handle server n s l q e =
    subst LoopAscends e (polls-Ascends handle server n q (first_loop s) tt)
