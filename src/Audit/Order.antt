-- ===== src/Audit/Order.antt =====
-- The log is append-only, and its sequence numbers are the positions of the records.
use native.Mathlib.Nat.{add-zero}
use cap_protocol.Prelude.{ℕ, suc, ◌+◌, List, [], ◌∷◌, ◌++◌, ◌≡◌, refl, length, arith}
use cap_protocol.Audit.{AuditEvent, AuditRecord, AuditLog, push, route_pairs}

-- Numbered from `n` on.
abbrev pub IsNumbered : ℕ → List AuditRecord → Type 0
IsNumbered n [] = Unit
IsNumbered n (r ∷ rs) = (r.seq ≡ n) × IsNumbered (suc n) rs

IsNumbered-append :
    (n : ℕ) (rs ss : List AuditRecord)
    → IsNumbered n rs
    → IsNumbered (n + length rs) ss
    → IsNumbered n (rs ++ ss)
IsNumbered-append n [] ss h k = rw add-zero at k
IsNumbered-append n (r ∷ rs) ss h k =
    let shift : n + suc (length rs) ≡ suc n + length rs = omega arith in
    (h.0, IsNumbered-append (suc n) rs ss h.1 (rw shift at k))

-- If the records are numbered 0, 1, 2, … in order, they still are after one more is recorded.
pub push-IsNumbered :
    (now : ℕ) (event : AuditEvent) (log : AuditLog)
    → IsNumbered 0 log.records
    → IsNumbered 0 (push now event log).records
unfolding push
push-IsNumbered now event log h = IsNumbered-append 0 log.records _ h (omega arith, tt)

pub route_pairs-append :
    (rs ss : List AuditRecord) → route_pairs (rs ++ ss) ≡ route_pairs rs ++ route_pairs ss
unfolding route_pairs
route_pairs-append [] ss = refl
route_pairs-append (r ∷ rs) ss = ground (arith, route_pairs-append rs ss)
