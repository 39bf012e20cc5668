-- ===== src/Upload.antt =====
-- `upload_once` of src/upload.rs. The control plane and the network are the parameter `Server`.
pub mod Acknowledged
pub mod EndToEnd
use flow_observability.Base.{ℕ, ◌+◌, List, [], ◌∷◌, if◌then◌else◌, Outcome, ok, err, panic, text_eq}
use flow_observability.Model.{BatchEnvelope}
use flow_observability.Model.Envelope.{Codec}
use flow_observability.Sqlite.{Error, anyhow}
use flow_observability.Spool.Tables.{SpoolTables}
use flow_observability.Spool.Evict.{SpoolEngine}
use flow_observability.Spool.Methods.{pending, acknowledge}
use flow_observability.Control.Http.{IngestAck}

-- What becomes of a request (`to_value`, `send_json`, `into_json`), and the state of the other side
-- after it. A request that fails may have been carried out.
abbrev pub Server : Type 0 → Type 0
Server S = BatchEnvelope → S → Outcome Error IngestAck × S

module _ {S : Type 0} (codec : Codec) (engine : SpoolEngine) (server : Server S) where
  -- The loop over the pending envelopes: the result, the spool and the other side.
  unfoldable pub upload_all :
      List BatchEnvelope
      → (acknowledged : ℕ) → SpoolTables × S
      → Outcome Error ℕ × (SpoolTables × S)
  unfolding acknowledge
  upload_all [] acknowledged (t, s) = (ok acknowledged, (t, s))
  upload_all (e ∷ envelopes) acknowledged (t, s) =
      let s' = (server e s).1 in
      elim ((server e s).0) [
        | err failure ↦ (err failure, (t, s'))
        | panic ↦ (panic, (t, s'))
        | ok ack ↦
            let t' = (acknowledge codec engine e.batch_id e.checksum t).1 in
            let rest = upload_all envelopes (acknowledged + 1) (t', s') in
            if text_eq ack.batch_id e.batch_id
            then elim ((acknowledge codec engine e.batch_id e.checksum t).0) [
              | ok done ↦ rest
              | err failure ↦ (err failure, (t', s'))
              | panic ↦ (panic, (t', s'))
            ]
            else (err (anyhow "ingest ack batch id does not match request"), (t, s'))
      ]

  unfoldable pub upload_once : (limit : ℕ) → SpoolTables × S → Outcome Error ℕ × (SpoolTables × S)
  unfolding pending upload_all
  upload_once limit (t, s) = elim (pending codec engine limit t) [
    | err failure ↦ (err failure, (t, s))
    | panic ↦ (panic, (t, s))
    | ok (envelopes, t') ↦ upload_all envelopes 0 (t', s)
  ]
