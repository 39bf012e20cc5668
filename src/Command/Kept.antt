-- ===== src/Command/Kept.antt =====
-- What is to hold of the files of src/main.rs between its commands, and what the opening of a spool
-- and a capture do to it.
use flow_observability.Base.{
  ℕ, ◌≡◌, sym, subst, List, Option, Outcome, ok, err, panic, arith, inl, inr, Outcome-cases,
}
use flow_observability.Base.Int.{ℤ}
use flow_observability.Model.Envelope.{Codec}
use flow_observability.Sqlite.{Error}
use flow_observability.Spool.Tables.{SpoolTables}
use flow_observability.Spool.Evict.{SpoolLimits}
use flow_observability.Spool.Opening.{SpoolFile, open_spool}
use flow_observability.Spool.Methods.{Spool, created_tables}
use flow_observability.Spool.Guarantees.{Accounted, enqueue-Accounted}
use flow_observability.Capture
use flow_observability.Capture.{CaptureConfig, Tick, Turn, again, stop, started, turns}
use flow_observability.Capture.Ledger.{Opened, run-ok, turns-tables, tables_of}
use flow_observability.Control.Soundness.{IsSound}
use flow_observability.Control.Serve.{stored_tables}
use flow_observability.Command.{LimitArgs, World, Files, Exit, captured, with_spool, spool_limits}

-- What holds of the files of an agent and of a control plane, where each number of the spool has been
-- acknowledged so often: every number that the spool gave out is pending, or a gap, or acknowledged,
-- only one of these and once; and the batches of the control plane are distinct and hold its rows.
pub record AreKept {S : Type 0} (acknowledged : ℕ → ℕ) (files : Files S) : Type 0 where
  pub recorded : Accounted acknowledged (created_tables files.spool)
  pub sound : IsSound (stored_tables files.control)

pub AreKept-same :
    {S : Type 0} (a b : ℕ → ℕ) (files : Files S)
    → ((n : ℕ) → b n ≡ a n)
    → AreKept a files
    → AreKept b files
AreKept-same a b files same h = record {
  recorded = λ n. omega (arith, h.recorded n, same n);
  sound = h.sound;
}

pub open_spool-tables :
    (limits : SpoolLimits) (file : SpoolFile) (stored : Option SpoolTables) (spool : Spool)
    → open_spool limits file stored ≡ ok spool
    → spool.tables ≡ created_tables stored
unfolding open_spool
open_spool-tables limits file stored spool e = ground arith

pub with_spool-AreKept :
    {S : Type 0} (world : World) (args : LimitArgs)
    (body : SpoolTables → S → Exit × (SpoolTables × S)) (files : Files S) (acknowledged : ℕ → ℕ)
    → ((t : SpoolTables) (s : S) → Accounted acknowledged t → Accounted acknowledged (body t s).1.0)
    → AreKept acknowledged files
    → AreKept acknowledged (with_spool world args body files).1
with_spool-AreKept world args body files acknowledged keeps h =
    elim (Outcome-cases (open_spool (spool_limits args) world.spool_file files.spool)) [
      | inl (spool, e) ↦
          rw (e, with_spool)
            (record {
              recorded = keeps spool.tables files.peer (
                  subst (Accounted acknowledged)
                    (sym
                      (open_spool-tables (spool_limits args) world.spool_file files.spool spool e))
                    h.recorded);
              sound = h.sound;
            })
      | inr (inl (x, e)) ↦ rw (e, with_spool) h
      | inr (inr e) ↦ rw (e, with_spool) h
    ]

module _ (codec : Codec) where
  pub captured-Accounted :
      (config : CaptureConfig) (device : Outcome Error ℤ) (file : SpoolFile)
      (stored : Option SpoolTables) (ticks : List Tick) (acknowledged : ℕ → ℕ)
      → Accounted acknowledged (created_tables stored)
      → Accounted acknowledged
          (captured (Capture.run codec config device file stored ticks) (created_tables stored)).1
  captured-Accounted config device file stored ticks acknowledged h =
      elim (Outcome-cases (Capture.run codec config device file stored ticks)) [
        | inl (result, e) ↦
            rw e (left result (run-ok codec config device file stored ticks result e))
        | inr (inl (x, e)) ↦ rw e h
        | inr (inr e) ↦ rw e h
      ]
    where
      turned :
          (result : Turn)
          → Accounted acknowledged (tables_of result)
          → Accounted acknowledged (captured (ok result) (created_tables stored)).1
      turned (again s) k = k
      turned (stop (ok done) t) k = k
      turned (stop (err e) t) k = k
      turned (stop panic t) k = k

      left :
          (result : Turn)
          → Opened codec config device stored ticks result
          → Accounted acknowledged (captured (ok result) (created_tables stored)).1
      left result opened = turned result (
          subst (λ x. Accounted acknowledged (tables_of x)) (sym opened.looped)
            (turns-tables codec config opened.link_type (Accounted acknowledged)
              (λ engine now buckets diagnostics t k.
                enqueue-Accounted codec engine config.limits config.node_id config.boot_id now
                  buckets diagnostics t acknowledged k)
              ticks (started opened.aggregator (created_tables stored)) h))
