-- ===== src/Spool/History.antt =====
-- A life of the spool: any sequence of `enqueue` and `acknowledge`, each under an engine that may
-- fail its statements. The acknowledged numbers are counted beside the tables.
use flow_observability.Base.{
  ℕ, ◌+◌, ◌≤◌, ◌≡◌, refl, List, [], ◌∷◌, none, some, ◌==◌, if◌then◌else◌, arith,
}
use flow_observability.Model.{Text, FlowBucket, CaptureDiagnostics}
use flow_observability.Model.Envelope.{Codec}
use flow_observability.Spool.Tables.{
  SpoolTables, BatchRow, total_payload, is_acknowledged, without_acknowledged, delete_acknowledged,
}
use flow_observability.Spool.Evict.{SpoolLimits, SpoolEngine}
use flow_observability.Spool.Methods.{enqueue, acknowledge}
use flow_observability.Spool.Rows.{count_seq}
use flow_observability.Spool.Guarantees.{Accounted, enqueue_budget, enqueue-Accounted}

pub data Call : Type 0 where
  enqueue_call :
      (node_id boot_id : Text) (created_at : ℕ)
      → List FlowBucket
      → CaptureDiagnostics
      → SpoolEngine
      → Call
  acknowledge_call : (batch_id checksum : Text) → SpoolEngine → Call

-- The tables, and how often each number was acknowledged.
pub record Life : Type 0 where
  pub tables : SpoolTables
  pub acknowledged : ℕ → ℕ

-- How often a number stands among the rows that an acknowledgement deletes.
abbrev pub count_deleted : (batch_id checksum : Text) → ℕ → List BatchRow → ℕ
count_deleted batch_id checksum s [] = 0
count_deleted batch_id checksum s (r ∷ rows) =
    (if is_acknowledged batch_id checksum r then (if r.seq == s then 1 else 0) else 0)
    + count_deleted batch_id checksum s rows

module _ (codec : Codec) (limits : SpoolLimits) where
  unfoldable pub after : Call → Life → Life
  after (enqueue_call node_id boot_id created_at buckets diagnostics engine) l = record l {
    tables =
        (enqueue codec engine limits node_id boot_id created_at buckets diagnostics l.tables).1;
  }
  after (acknowledge_call batch_id checksum engine) l = record {
    tables = (acknowledge codec engine batch_id checksum l.tables).1;
    acknowledged = λ s. l.acknowledged s + elim (engine delete_acknowledged l.tables) [
      | none ↦ count_deleted batch_id checksum s l.tables.batches
      | some fault ↦ 0
    ];
  }

  unfoldable pub live : List Call → Life → Life
  live [] l = l
  live (c ∷ calls) l = live calls (after c l)

abbrev pub born : Life
born = record { tables = record { next_seq = 0; batches = []; gaps = [] }; acknowledged = λ s. 0 }

count_deleted-without :
    (batch_id checksum : Text) (s : ℕ) (rows : List BatchRow)
    → count_seq s (without_acknowledged batch_id checksum rows)
        + count_deleted batch_id checksum s rows
      ≡ count_seq s rows
unfolding without_acknowledged
count_deleted-without batch_id checksum s [] = refl
count_deleted-without batch_id checksum s (r ∷ rows) =
    ground (arith, count_deleted-without batch_id checksum s rows)

total_payload-without :
    (batch_id checksum : Text) (rows : List BatchRow)
    → total_payload (without_acknowledged batch_id checksum rows) ≤ total_payload rows
unfolding without_acknowledged
total_payload-without batch_id checksum [] = omega arith
total_payload-without batch_id checksum (r ∷ rows) =
    ground (arith, total_payload-without batch_id checksum rows)

-- Each number below the next one is in exactly one place, and the payloads fit the budget.
pub record IsSound (limits : SpoolLimits) (l : Life) : Type 0 where
  pub accounted : Accounted l.acknowledged l.tables
  pub within_budget : total_payload l.tables.batches ≤ limits.max_payload_bytes

module _ (codec : Codec) (limits : SpoolLimits) where
  pub after-IsSound :
      (c : Call) (l : Life) → IsSound limits l → IsSound limits (after codec limits c l)
  unfolding after acknowledge
  after-IsSound (enqueue_call node_id boot_id created_at buckets diagnostics engine) l h = record {
    accounted =
        enqueue-Accounted codec engine limits node_id boot_id created_at buckets diagnostics
          l.tables l.acknowledged h.accounted;
    within_budget =
        enqueue_budget codec engine limits node_id boot_id created_at buckets diagnostics l.tables
          h.within_budget;
  }
  after-IsSound (acknowledge_call batch_id checksum engine) l h = record {
    accounted = λ s.
        ground (arith, h.accounted s, count_deleted-without batch_id checksum s l.tables.batches);
    within_budget = ground (arith, total_payload-without batch_id checksum l.tables.batches);
  }

  live-IsSound :
      (calls : List Call) (l : Life) → IsSound limits l → IsSound limits (live codec limits calls l)
  unfolding live
  live-IsSound [] l h = h
  live-IsSound (c ∷ calls) l h = live-IsSound calls (after codec limits c l) (after-IsSound c l h)

  -- From an empty spool, after any enqueues and acknowledgements, whatever statements the engine
  -- fails, each sequence number that was given out is pending, or recorded as a gap, or
  -- acknowledged, and only one of these and once; no other number stands anywhere; and the pending
  -- payloads fit the budget.
  pub live_accounts : (calls : List Call) → IsSound limits (live codec limits calls born)
  live_accounts calls =
      live-IsSound calls born
        (record { accounted = λ s. ground arith; within_budget = omega arith })
