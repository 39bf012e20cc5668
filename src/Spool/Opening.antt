-- ===== src/Spool/Opening.antt =====
-- `Spool::open` and `configure` of src/spool.rs.
use flow_observability.Base.{ℕ, ◌||◌, Option, ◌==◌, if◌then◌else◌, Outcome, ok, err, ◌>>=◌}
use flow_observability.Sqlite.{Error, anyhow}
use flow_observability.Spool.Tables.{SpoolTables}
use flow_observability.Spool.Evict.{SpoolLimits}
use flow_observability.Spool.Methods.{Spool, created_tables, max_page_count}

-- What SQLite returns at an opening: for the file, for the pragmas that `configure` sets before it
-- reads the page size, for that reading, for setting the page limit, and for creating the tables.
pub record SpoolFile : Type 0 where
  pub opened : Outcome Error (Unit {0})
  pub pragmas : Outcome Error (Unit {0})
  pub page_size : Outcome Error ℕ
  pub limited : Outcome Error (Unit {0})
  pub created : Outcome Error (Unit {0})

unfoldable pub open_spool : SpoolLimits → SpoolFile → Option SpoolTables → Outcome Error Spool
unfolding max_page_count
open_spool limits file stored =
    if limits.max_payload_bytes == 0 || limits.max_age_seconds == 0
    then err (anyhow "spool byte and age limits must be positive")
    else (do
      _ ← file.opened
      _ ← file.pragmas
      page_size ← file.page_size
      _ ← max_page_count limits.max_payload_bytes page_size
      _ ← file.limited
      _ ← file.created
      ok (record { tables = created_tables stored; limits = limits }))
