-- ===== src/Control/Opening.antt =====
-- The size of the database that src/control.rs opens.
use native.Mathlib.Nat.{mul-le-mul_right}
use flow_observability.Base.{
  ◌/◌, ◌%◌, ◌==◌, if◌then◌else◌, ℕ, ◌+◌, ◌*◌, ◌<◌, ◌≤◌, ◌≡◌, Option, ok, arith, inl, inr,
  Bool-cases,
}
use flow_observability.Sqlite.{integer}
use flow_observability.Control.Tables.{ControlTables}
use flow_observability.Control.Ingest.{ControlLimits}
use flow_observability.Control.Serve.{Database, configure, div_ceil, open_store, stored_tables}

-- Within a page of the limit, in a form for arithmetic.
pages_within :
    (n d count : ℕ) → 0 < d → count ≤ n / d + (if n % d == 0 then 0 else 1) → count * d < n + d
pages_within n d count p h = elim (Bool-cases (n % d == 0)) [
  | inl e ↦
      let most : count * d ≤ (n / d) * d = mul-le-mul_right d (ground (arith, h, e)) in
      grind (arith, most)
  | inr e ↦
      let most : count * d ≤ (n / d + 1) * d = mul-le-mul_right d (ground (arith, h, e)) in
      grind (arith, most, e)
]

-- A store that opens has positive limits; its file then holds fewer bytes than the limit and one page
-- more; and its tables are those that the file had, or empty ones.
pub open_store-within :
    (limits : ControlLimits) (file : Database) (page_size page_count : ℕ)
    (stored : Option ControlTables) (t : ControlTables)
    → file.page_size ≡ ok page_size
    → file.page_count ≡ ok page_count
    → open_store limits file stored ≡ ok t
    → (0 < limits.max_database_bytes)
      × (0 < limits.max_age_seconds)
      × (page_count * page_size < limits.max_database_bytes + page_size)
      × (t ≡ stored_tables stored)
unfolding open_store configure div_ceil integer
open_store-within limits file page_size page_count stored t p q e =
    ground (arith, pages_within limits.max_database_bytes page_size page_count)
