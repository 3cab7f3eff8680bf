-- ===== src/Controller/Control/Exchange.antt =====
-- That a client's call of the control socket is the operation in the daemon.
use ovcp.Base.{
  ℕ, ◌≡◌, refl, sym, ap, subst, ◌∙◌, ◌≢◌, inl, inr, true, false, some, [], ◌∷◌, ◌++◌, arith, Text,
  codes, is_empty, Result, ok, err, trim_space, trim_right_space, trim_left_space, cut, cut-found,
  cut_prefix, lacks,
}
use ovcp.Controller.Ops.{Fault, failed, panicked, verb_of, unknown_verb, run_op}
use ovcp.Controller.Control.{
  Codec, Codecs, ControlDeps, Request, vpn_request, payload, perform, write_reply, reply_of,
  serve_conn, Error, answered, read_ok, read_err, read_reply, read_of, control_request, decoded,
  decode_of, control,
}
use ovcp.Controller.Control.Requests.{write_request, IsRequest, verb-cases, request_of-write}

-- One line, not empty, without white space at its ends.
abbrev pub IsClean : Text → Type 0
IsClean s =
    (lacks 10 s ≡ true) × (trim_left_space s ≡ s) × (trim_right_space s ≡ s) × (is_empty s ≡ false)

-- What fits into a reply: nothing, a space and a clean text, or an error with a clean text.
abbrev pub IsAnswer : Result Fault Text → Type 0
IsAnswer (ok []) = Unit
IsAnswer (ok (c ∷ s)) = (c ≡ 32) × IsClean s
IsAnswer (err (failed e)) = IsClean e
IsAnswer (err panicked) = Unit

-- What the client makes of it.
abbrev pub fault_view : Fault → Error
fault_view (failed e) = answered e
fault_view panicked = answered (codes "internal error")

abbrev pub client_view : Result Fault Text → Result Error Text
client_view (ok []) = ok []
client_view (ok (c ∷ s)) = ok s
client_view (err f) = err (fault_view f)

trim-right-cons :
    (c : ℕ) (s : Text)
    → trim_right_space s ≡ s
    → is_empty s ≡ false
    → trim_right_space (c ∷ s) ≡ c ∷ s
unfolding trim_right_space
trim-right-cons c s h n = ground arith

read_reply-line :
    (line : Text)
    → lacks 10 line ≡ true
    → trim_left_space line ≡ line
    → trim_right_space line ≡ line
    → read_reply (line ++ 10 ∷ [])
      ≡ read_err (cut_prefix (codes "ERR ") line) (read_ok line (cut_prefix (codes "OK") line))
unfolding read_reply trim_space
read_reply-line line a b c = rw (cut-found 10 line [] a) (rw b (rw c refl))

payload-trim : (s : Text) → trim_left_space s ≡ s → trim_right_space s ≡ s → trim_space (32 ∷ s) ≡ s
unfolding trim_space trim_left_space
payload-trim s b c = rw b c

ok-line : (s : Text) → IsClean s → read_reply (write_reply (ok (32 ∷ s))) ≡ ok s
unfolding write_reply lacks trim_left_space cut_prefix
ok-line s (a, b, c, n) =
    let one = trim-right-cons 32 s c n in
    let two = trim-right-cons 75 (32 ∷ s) one refl in
    let three = trim-right-cons 79 (75 ∷ 32 ∷ s) two refl in
    read_reply-line (codes "OK" ++ (32 ∷ s)) a refl three ∙ ap (λ t. ok t) (payload-trim s b c)

err-line : (s : Text) → IsClean s → read_reply (write_reply (err (failed s))) ≡ err (answered s)
unfolding write_reply lacks trim_left_space cut_prefix
err-line s (a, b, c, n) =
    let one = trim-right-cons 32 s c n in
    let two = trim-right-cons 82 (32 ∷ s) one refl in
    let three = trim-right-cons 82 (82 ∷ 32 ∷ s) two refl in
    let four = trim-right-cons 69 (82 ∷ 82 ∷ 32 ∷ s) three refl in
    read_reply-line (codes "ERR " ++ s) a refl four

read_reply-write : (a : Result Fault Text) → IsAnswer a → read_reply (write_reply a) ≡ client_view a
unfolding read_reply write_reply cut trim_space trim_right_space trim_left_space cut_prefix
read_reply-write (ok []) h = refl
read_reply-write (ok (c ∷ s)) h =
    ap (λ k. read_reply (write_reply (ok (k ∷ s)))) h.0 ∙ ok-line s h.1
read_reply-write (err (failed e)) h = err-line e h
read_reply-write (err panicked) h = refl

serve_conn-line :
    {W : Type 0} (c : Codecs) (d : ControlDeps W) (r : Request) (w : W)
    → IsRequest r
    → IsClean (write_request r)
    → serve_conn c d (write_request r ++ 10 ∷ []) w ≡ reply_of (perform c d r w)
unfolding serve_conn trim_space
serve_conn-line c d r w q (a, b, k, n) =
    let same = ap trim_right_space b ∙ k in
    rw (cut-found 10 (write_request r) [] a) (rw (request_of-write r q same) refl)

reply-read :
    {W : Type 0} (p : Result Fault Text × W)
    → IsAnswer p.0
    → read_of (reply_of p) ≡ (client_view p.0, p.1)
reply-read (a, w) h = ap (λ t. (t, w)) (read_reply-write a h)

-- One exchange over the control socket performs the request that the client has written, once, and gives
-- the client its payload or its error: if the line is clean and the answer is one clean line.
pub control_request-perform :
    {W : Type 0} (c : Codecs) (d : ControlDeps W) (r : Request) (w : W)
    → IsRequest r
    → IsClean (write_request r)
    → IsAnswer (perform c d r w).0
    → control_request c d (write_request r) w
      ≡ (client_view (perform c d r w).0, (perform c d r w).1)
unfolding control_request
control_request-perform c d r w q k h =
    ap read_of (serve_conn-line c d r w q k) ∙ reply-read (perform c d r w) h

-- Every value is written as a clean text that reads back as it.
abbrev pub IsCodec : {A : Type 0} → Codec A → Type 0
IsCodec {A} j = (a : A) → IsClean (j.encode a) × (j.decode (j.encode a) ≡ some a)

abbrev pub CleanFault : {A : Type 0} → Result Fault A → Type 0
CleanFault (ok a) = Unit
CleanFault (err panicked) = Unit
CleanFault (err (failed e)) = IsClean e

abbrev pub op_view : {A : Type 0} → Result Fault A → Result Error A
op_view (ok a) = ok a
op_view (err f) = err (fault_view f)

payload-IsAnswer :
    {W A : Type 0} (j : Codec A) (p : Result Fault A × W)
    → IsCodec j
    → CleanFault p.0
    → IsAnswer (payload j.encode p).0
payload-IsAnswer j (ok a, w) h f = (refl, (h a).0)
payload-IsAnswer j (err (failed e), w) h f = f
payload-IsAnswer j (err panicked, w) h f = tt

payload-decoded :
    {W A : Type 0} (j : Codec A) (p : Result Fault A × W)
    → IsCodec j
    → decode_of j (client_view (payload j.encode p).0, (payload j.encode p).1) ≡ (op_view p.0, p.1)
payload-decoded j (ok a, w) h = ap (λ o. (decoded (j.encode a) o, w)) (h a).1
payload-decoded j (err (failed e), w) h = refl
payload-decoded j (err panicked, w) h = refl

verb-IsClean : (v : Text) → verb_of v ≢ unknown_verb → IsClean v
unfolding lacks trim_left_space trim_right_space
verb-IsClean v n = elim (verb-cases v n) [
  | inl e ↦ subst IsClean (sym e) (refl, refl, refl, refl)
  | inr (inl e) ↦ subst IsClean (sym e) (refl, refl, refl, refl)
  | inr (inr (inl e)) ↦ subst IsClean (sym e) (refl, refl, refl, refl)
  | inr (inr (inr (inl e))) ↦ subst IsClean (sym e) (refl, refl, refl, refl)
  | inr (inr (inr (inr e))) ↦ subst IsClean (sym e) (refl, refl, refl, refl)
]

-- The CLI's `Control` with a known verb is `RunOp` on openvpn in the daemon, with reconnect and with the
-- upstream rules applied again after a start: the same change, the same result, and the same error text;
-- if results and errors are written as clean lines and a result reads back as it was.
pub control-run_op :
    {W : Type 0} (c : Codecs) (d : ControlDeps W) (verb : Text) (w : W)
    → IsCodec c.result
    → verb_of verb ≢ unknown_verb
    → CleanFault (run_op d.vpn d.serve_start verb true (some d.upstream_reapply) w).0
    → let r = run_op d.vpn d.serve_start verb true (some d.upstream_reapply) w in
      control c d verb w ≡ (op_view r.0, r.1)
unfolding control perform write_request
control-run_op c d verb w j n f =
    let p = run_op d.vpn d.serve_start verb true (some d.upstream_reapply) w in
    ap (decode_of c.result) (
      control_request-perform c d (vpn_request verb) w n (verb-IsClean verb n)
        (payload-IsAnswer c.result p j f))
    ∙ payload-decoded c.result p j
