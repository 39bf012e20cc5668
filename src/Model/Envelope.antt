-- ===== src/Model/Envelope.antt =====
-- `BatchEnvelope::new` and `has_valid_checksum` of src/model.rs. Serialisation (serde_json) and the
-- hash (blake3, in hexadecimal) are not in this repository: they are the parameter `Codec`.
use flow_observability.Base.{
  ℕ, zero, suc, ◌+◌, ◌/◌, ◌%◌, ◌≡◌, Bool, List, [], ◌∷◌, ◌++◌, length, take, Option, none, some,
  String, leb, ◌==◌, if◌then◌else◌, Outcome, ok, err, panic, ◌>>=◌, text_eq,
}
use flow_observability.Sqlite.{Error, anyhow}
use flow_observability.Model.{
  Text, schema_version_const, FlowBucket, CaptureDiagnostics, BatchBody, BatchEnvelope,
}

-- `serde_json::to_vec` and `from_slice` give `none` for an error. A digest in hexadecimal has 64
-- characters.
pub record Codec : Type 0 where
  pub body_to_vec : BatchBody → Option Text
  pub hash_hex : Text → Text
  pub envelope_to_vec : BatchEnvelope → Option Text
  pub envelope_from_slice : Text → Option BatchEnvelope
  pub length-hash_hex : (content : Text) → length (hash_hex content) ≡ 64

-- A result of the codec under `?`.
abbrev pub or_fail {ℓ} : {A : Type ℓ} → String → Option A → Outcome Error A
or_fail message none = err (anyhow message)
or_fail message (some a) = ok a

-- A `u64` in decimal: twenty digits are enough.
abbrev pub decimal_from : ℕ → ℕ → Text → Text
decimal_from zero n digits = digits
decimal_from (suc places) n digits =
    let rest = decimal_from places (n / 10) ((48 + n % 10) ∷ digits) in
    if n / 10 == 0 then (48 + n % 10) ∷ digits else rest

unfoldable pub decimal : ℕ → Text
decimal n = decimal_from 20 n []

-- `&text[..n]`
unfoldable pub first_bytes : ℕ → Text → Outcome Error Text
first_bytes n text = if leb n (length text) then ok (take n text) else panic

module _ (codec : Codec) where
  unfoldable pub body_checksum : BatchBody → Outcome Error Text
  body_checksum body = do
    content ← or_fail "serialize batch body" (codec.body_to_vec body)
    ok (codec.hash_hex content)

  -- `format!("{}:{}:{}:{}", …)`
  unfoldable pub batch_id_of : BatchBody → Text → Text
  batch_id_of body prefix =
      body.node_id ++ (b':' ∷ (body.boot_id ++ (b':' ∷ (decimal body.seq ++ (b':' ∷ prefix)))))

  unfoldable pub new_envelope :
      Text → Text → ℕ → ℕ → List FlowBucket → CaptureDiagnostics → Outcome Error BatchEnvelope
  unfolding body_checksum
  new_envelope node_id boot_id seq created_at buckets diagnostics = do
    let body : BatchBody = record {
      schema_version = schema_version_const;
      node_id = node_id;
      boot_id = boot_id;
      seq = seq;
      created_at = created_at;
      buckets = buckets;
      diagnostics = diagnostics;
    }
    checksum ← body_checksum body
    prefix ← first_bytes 16 checksum
    ok (record { batch_id = batch_id_of body prefix; checksum = checksum; body = body })

  unfoldable pub has_valid_checksum : BatchEnvelope → Outcome Error Bool
  unfolding body_checksum
  has_valid_checksum e = do checksum ← body_checksum e.body; ok (text_eq checksum e.checksum)
