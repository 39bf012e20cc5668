-- ===== src/Sqlite.antt =====
-- src/sqlite.rs, and what the program relies on of SQLite: an INTEGER is an `i64`, a statement that
-- fails changes nothing, and a transaction that is not committed leaves the tables as they were.
-- Whether the engine fails a statement (full disk, I/O) is a parameter, `Engine`. The columns are
-- natural numbers: the program writes them through `integer`, which never gives a negative one.
pub mod Step
pub mod Inversion
pub mod Total
use flow_observability.Base.{
  ℕ, zero, suc, ◌+◌, ◌^◌, ◌≡◌, Bool, List, [], ◌∷◌, Option, none, some, String, ltb, if◌then◌else◌,
  Outcome, ok, err, panic, ◌>>=◌,
}
use flow_observability.Base.Int.{ℤ, pos, negsuc}

-- Errors of rusqlite and anyhow: a full disk, any other failure of the engine by its code, a
-- violated constraint, an overflow of SUM, a conversion to or from a column, a message.
pub data Error : Type 0 where
  disk_full : Error
  engine_failure : ℕ → Error
  constraint_violation : Error
  sum_overflow : Error
  conversion_to_sql : Error
  conversion_from_sql : ℕ → Error
  anyhow : String → Error

abbrev pub i64_bound : ℕ
i64_bound = 2 ^ 63

-- `i64::try_from(value).with_context(…)`
unfoldable pub integer : ℕ → String → Outcome Error ℕ
integer value field = if ltb value i64_bound then ok value else err (anyhow field)

-- `.map(|value| integer(value, field)).transpose()?`
unfoldable pub optional_integer : Option ℕ → String → Outcome Error (Option ℕ)
unfolding integer
optional_integer none field = ok none
optional_integer (some value) field = do v ← integer value field; ok (some v)

unfoldable pub unsigned : ℤ → ℕ → Outcome Error ℕ
unsigned (pos value) index = ok value
unsigned (negsuc value) index = err (conversion_from_sql index)

unfoldable pub optional_unsigned : Option ℤ → ℕ → Outcome Error (Option ℕ)
unfolding unsigned
optional_unsigned none index = ok none
optional_unsigned (some value) index = do v ← unsigned value index; ok (some v)

-- `SUM` of a column fails past the range of an `i64`.
unfoldable pub sum_column : ℕ → Outcome Error ℕ
sum_column total = if ltb total i64_bound then ok total else err sum_overflow
