-- ===== src/Store/Certs/Report.antt =====
-- The counts that the reports show, against the status of each certificate.
use ovcp.Base.{[], ℕ, ◌+◌, ◌≡◌, refl, Bool, true, false, List, ◌∷◌, arith, if◌then◌else◌}
use ovcp.Store.Certs.{Cert, Status, revoked, expiring, status, cert_counts}

-- Rows by status, and how many rows have one of those that a test picks.
unfoldable pub count_status : ℕ → (Status → Bool) → List Cert → ℕ
unfolding status
count_status now p [] = 0
count_status now p (c ∷ cs) = (if p (status now c) then 1 else 0) + count_status now p cs

abbrev pub is_live_status : Status → Bool
is_live_status revoked = false
is_live_status _ = true

abbrev pub is_expiring_status : Status → Bool
is_expiring_status expiring = true
is_expiring_status _ = false

-- The live count is the number of certificates whose status is not `revoked`, expired ones included,
-- and the expiring count is the number of those whose status is `expiring`.
pub cert_counts-count_status :
    (now : ℕ) (cs : List Cert)
    → cert_counts now cs
      ≡ (count_status now is_live_status cs, count_status now is_expiring_status cs)
unfolding cert_counts count_status
cert_counts-count_status now [] = refl
cert_counts-count_status now (c ∷ cs) = ground (arith, cert_counts-count_status now cs)
