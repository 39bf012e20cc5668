-- ===== src/Spool/Bounds.antt =====
-- The limits hold when `enforce_limits` returns.
use flow_observability.Base.{
  ℕ, suc, ◌-◌, ◌≤◌, ◌≡◌, ◌≢◌, refl, false, List, [], ◌∷◌, length, none, arith, All, All-imp, ok,
  panic,
}
use flow_observability.Spool.Tables.{
  SpoolTables, BatchRow, total_payload, first_candidate, is_candidate,
}
use flow_observability.Spool.Evict.{SpoolLimits, SpoolEngine, evict_loop, enforce_limits}
use flow_observability.Sqlite.{integer}
use flow_observability.Spool.Rows.{first_candidate-none}
use flow_observability.Spool.Eviction.{evict_loop_induction, evict_loop-ne-panic}

-- No more bytes than the budget, and no row older than the cutoff.
pub record Within (limits : SpoolLimits) (cutoff : ℕ) (t : SpoolTables) : Type 0 where
  pub bytes_within : total_payload t.batches ≤ limits.max_payload_bytes
  pub age_within : All (λ r. cutoff ≤ r.created_at) t.batches

no_candidate_bytes :
    (cutoff total maximum : ℕ) (rows : List BatchRow)
    → total ≡ total_payload rows
    → All (λ r. is_candidate cutoff total maximum r ≡ false) rows
    → total ≤ maximum
no_candidate_bytes cutoff total maximum [] e h = omega arith
no_candidate_bytes cutoff total maximum (r ∷ rows) e h = ground arith

pub no_candidate-Within :
    (limits : SpoolLimits) (cutoff : ℕ) (t : SpoolTables)
    → first_candidate cutoff (total_payload t.batches) limits.max_payload_bytes t.batches ≡ none
    → Within limits cutoff t
no_candidate-Within limits cutoff t e =
    let none_left =
      first_candidate-none cutoff (total_payload t.batches) limits.max_payload_bytes t.batches e in
    record {
      bytes_within =
          no_candidate_bytes cutoff (total_payload t.batches) limits.max_payload_bytes t.batches
            refl none_left;
      age_within = All-imp (λ r h. ground arith) t.batches none_left;
    }

module _ (engine : SpoolEngine) (limits : SpoolLimits) (now : ℕ) (t : SpoolTables) where
  enforce_limits-loop :
      (k : ℕ) (t' : SpoolTables)
      → enforce_limits engine limits now t ≡ ok (k, t')
      → evict_loop engine (suc (length t.batches)) limits (now - limits.max_age_seconds) now 0 t
        ≡ ok (k, t')
  unfolding enforce_limits integer
  enforce_limits-loop k t' e = ground arith

  -- When the limits have been enforced, the payloads fit the byte budget and no batch is older than
  -- the age limit allows.
  pub enforce_limits-Within :
      (k : ℕ) (t' : SpoolTables)
      → enforce_limits engine limits now t ≡ ok (k, t')
      → Within limits (now - limits.max_age_seconds) t'
  enforce_limits-Within k t' e =
      no_candidate-Within limits (now - limits.max_age_seconds) t'
        (evict_loop_induction engine limits (now - limits.max_age_seconds) now (λ n u. Unit {0})
          (λ n u r v p q. tt) _ 0 t k t' (enforce_limits-loop k t' e) tt).1

  -- The loop ends within its fuel, one round more than there are rows: enforcing the limits returns
  -- or reports an error.
  pub enforce_limits-ne-panic : enforce_limits engine limits now t ≢ panic
  unfolding enforce_limits integer
  enforce_limits-ne-panic e = ground (
    arith,
    evict_loop-ne-panic engine limits (now - limits.max_age_seconds) now (suc (length t.batches)) 0
        t,
  )
