-- ===== src/Control/Requests.antt =====
-- Any sequence of requests to the control plane (src/control.rs).
use flow_observability.Base.{
  suc, length, ℕ, ◌-◌, ◌≡◌, ◌≢◌, refl, ap, subst, true, false, List, [], ◌∷◌, Option, none, some,
  Outcome, ok, err, panic, arith, All, ◌⊎◌, inl, inr, Outcome-cases, Bool,
}
use flow_observability.Model.{Text, BatchEnvelope}
use flow_observability.Model.Envelope.{Codec}
use flow_observability.Sqlite.{Error}
use flow_observability.Control.Tables.{ControlTables}
use flow_observability.Control.Ingest.{
  ControlLimits, ControlEngine, IngestStatus, IngestError, schema_version, checksum, conflict,
  database, encoding, ingest_at,
}
use flow_observability.Control.Queries.{nodes, stats, series}
use flow_observability.Control.Http.{
  AppState, HttpError, IngestAck, ingest_response, handle_nodes, handle_stats, handle_series,
  query_response, internal_server_error, bad_request, with_store,
}
use flow_observability.Control.Total.{
  ingest_at-ne-panic, nodes-ne-panic, stats-ne-panic, series-ne-panic,
}
use flow_observability.Control.Soundness.{IsSound, ingest_at-IsSound}
use flow_observability.Control.Delivery.{Ingests, ingest_at-Ingests}
use flow_observability.Control.Serve.{
  Database, open_store, stored_tables, Request, dashboard, post_ingest, get_nodes, get_stats,
  get_series, Response, acked, inventory, statistics, points, closed, Arrival, ingest, respond,
  respond_with, serve_all, serve,
}

-- What one request does to the state.
record Serves (state : AppState) (response : Response) (state' : AppState) : Type 0 where
  pub sound : IsSound state.tables → IsSound state'.tables
  pub lock_kept : state.poisoned ≡ false → (state'.poisoned ≡ false) × (response ≢ closed)
  pub same_tables : ((ack : IngestAck) → response ≢ acked ack) → state'.tables ≡ state.tables

-- What the body of a handler has to keep under the lock.
record IsTame {A : Type 0} (f : A → Response)
    (body : ControlTables → Outcome HttpError A × ControlTables) : Type 0 where
  pub answers : (a : A) → f a ≢ closed
  pub returns : (t : ControlTables) → (body t).0 ≢ panic
  pub keeps : (t : ControlTables) → IsSound t → IsSound (body t).1
  pub changes :
      (t : ControlTables)
      → ((body t).1 ≡ t) ⊎ ((a : A) × (ack : IngestAck) × ((body t).0 ≡ ok a) × (f a ≡ acked ack))

with_store-Serves :
    {A : Type 0} (f : A → Response) (body : ControlTables → Outcome HttpError A × ControlTables)
    (poisoned : Bool) (t : ControlTables)
    → IsTame f body
    → Serves
        (record { poisoned = poisoned; tables = t })
        (respond_with f (with_store body (record { poisoned = poisoned; tables = t }))).0
        (respond_with f (with_store body (record { poisoned = poisoned; tables = t }))).1
with_store-Serves f body true t h = record {
  sound = λ s. s;
  lock_kept = λ p. cc;
  same_tables = λ p. refl;
}
with_store-Serves f body false t h = elim (Outcome-cases (body t).0) [
  | inl (a, e) ↦ record {
    sound = λ s. rw e (h.keeps t s);
    lock_kept = λ p. rw e (refl, h.answers a);
    same_tables = λ p. elim (h.changes t) [
      | inl q ↦ rw e q
      | inr (b, ack, q, r) ↦ absurd (p ack (ground (arith, r)))
    ];
  }
  | inr (inl (x, e)) ↦ record {
    sound = λ s. rw e (h.keeps t s);
    lock_kept = λ p. rw e (refl, λ q. cc);
    same_tables = λ p. elim (h.changes t) [ inl q ↦ rw e q | inr (b, ack, q, r) ↦ cc ];
  }
  | inr (inr e) ↦ absurd (h.returns t e)
]

-- A query answers or fails, and changes nothing.
query-IsTame :
    {A : Type 0} (f : A → Response) (status : ℕ) (read : ControlTables → Outcome Error A)
    → ((a : A) → f a ≢ closed)
    → ((t : ControlTables) → read t ≢ panic)
    → IsTame f (λ t. (query_response status (read t), t))
query-IsTame f status read h k = record {
  answers = h;
  returns = λ t e. ground (arith, k t);
  keeps = λ t s. s;
  changes = λ t. inl refl;
}

-- A delivery that changes the tables is acknowledged.
Ingests-answer :
    (cutoff : ℕ) (e : BatchEnvelope) (t : ControlTables) (r : Outcome IngestError IngestStatus)
    (t' : ControlTables)
    → Ingests cutoff e t r t'
    → (t' ≡ t) ⊎ ((ack : IngestAck) × (ingest_response e.batch_id r ≡ ok ack))
unfolding ingest_response
Ingests-answer cutoff e t (ok s) t' h = inr (record { batch_id = e.batch_id; status = s }, refl)
Ingests-answer cutoff e t (err schema_version) t' h = inl h
Ingests-answer cutoff e t (err checksum) t' h = inl h
Ingests-answer cutoff e t (err conflict) t' h = inl h.1
Ingests-answer cutoff e t (err (database x)) t' h = inl h
Ingests-answer cutoff e t (err (encoding x)) t' h = inl h
Ingests-answer cutoff e t panic t' h = inl h

module _ (codec : Codec) (limits : ControlLimits) where
  ingest_response-ne-panic :
      (id : Text) (r : Outcome IngestError IngestStatus) → r ≢ panic → ingest_response id r ≢ panic
  unfolding ingest_response
  ingest_response-ne-panic id r h e = ground (arith, h)

  ingest-IsTame :
      (engine : ControlEngine) (e : BatchEnvelope) (clock : Option ℕ)
      → IsTame acked (λ t. (
        ingest_response e.batch_id ((ingest codec limits engine e clock t).0),
        (ingest codec limits engine e clock t).1,
      ))
  unfolding ingest ingest_response
  ingest-IsTame engine e none = record {
    answers = λ a p. cc;
    returns = λ t p. cc;
    keeps = λ t s. s;
    changes = λ t. inl refl;
  }
  ingest-IsTame engine e (some now) = record {
    answers = λ a p. cc;
    returns =
        λ t. ingest_response-ne-panic e.batch_id _ (ingest_at-ne-panic engine codec limits e now t);
    keeps = λ t s. ingest_at-IsSound codec engine limits e now t s;
    changes = λ t. answered t;
  }
    where
      answered :
          (t : ControlTables)
          → ((ingest_at engine codec limits e now t).1 ≡ t)
            ⊎ ((a : IngestAck) × (ack : IngestAck) × (ingest_response e.batch_id
                    ((ingest_at engine codec limits e now t).0)
                  ≡ ok a)
                × (acked a ≡ acked ack))
      answered t =
          elim (Ingests-answer (now - limits.max_age_seconds) e t
            ((ingest_at engine codec limits e now t).0) ((ingest_at engine codec limits e now t).1)
            (ingest_at-Ingests engine codec limits e now t)) [
              | inl p ↦ inl p
              | inr (ack, p) ↦ inr (ack, ack, p, refl)
            ]

  respond-Serves :
      (request : Request) (clock : Option ℕ) (engine : ControlEngine) (state : AppState)
      → Serves state
          (respond codec limits
            (record { request = request; clock = clock; engine = engine })
            state).0
          (respond codec limits
            (record { request = request; clock = clock; engine = engine })
            state).1
  unfolding respond handle_nodes handle_stats handle_series
  respond-Serves dashboard clock engine state = record {
    sound = λ s. s;
    lock_kept = λ p. (p, λ q. cc);
    same_tables = λ p. refl;
  }
  respond-Serves (post_ingest e) clock engine state =
      with_store-Serves acked _ state.poisoned state.tables (ingest-IsTame engine e clock)
  respond-Serves get_nodes clock engine state =
      with_store-Serves inventory _ state.poisoned state.tables (
        query-IsTame inventory internal_server_error (nodes engine) (λ a p. cc)
          (nodes-ne-panic engine))
  respond-Serves (get_stats node point) clock engine state =
      with_store-Serves statistics _ state.poisoned state.tables (
        query-IsTame statistics internal_server_error (stats engine node point) (λ a p. cc)
          (stats-ne-panic engine node point))
  respond-Serves (get_series node point from to) clock engine state =
      with_store-Serves points _ state.poisoned state.tables (
        query-IsTame points bad_request (series engine node point from to) (λ a p. cc)
          (series-ne-panic engine node point from to))

  -- Whatever is asked, and whichever statement fails: a request that is not answered with an
  -- acknowledgement leaves the tables as they were, a refused delivery and every query among them.
  pub respond-tables :
      (arrival : Arrival) (state : AppState)
      → ((ack : IngestAck) → (respond codec limits arrival state).0 ≢ acked ack)
      → (respond codec limits arrival state).1.tables ≡ state.tables
  respond-tables arrival state =
      (respond-Serves arrival.request arrival.clock arrival.engine state).same_tables

  serve_all-Serves :
      (arrivals : List Arrival) (state : AppState)
      → state.poisoned ≡ false
      → IsSound state.tables
      → All (λ r. r ≢ closed) (serve_all codec limits arrivals state).0
        × ((serve_all codec limits arrivals state).1.poisoned ≡ false)
        × IsSound (serve_all codec limits arrivals state).1.tables
        × (length (serve_all codec limits arrivals state).0 ≡ length arrivals)
  unfolding serve_all
  serve_all-Serves [] state live h = (tt, live, h, refl)
  serve_all-Serves (a ∷ arrivals) state live h =
      let first = respond-Serves a.request a.clock a.engine state in
      let rest =
        serve_all-Serves arrivals (respond codec limits a state).1 (first.lock_kept live).0
          (first.sound h) in
      (((first.lock_kept live).1, rest.0), rest.1, rest.2, ap suc rest.3)

  -- A server that has opened its store, whose tables were empty or had distinct batches that each
  -- flow row refers to, answers every request it gets: no handler panics, so the lock is never
  -- poisoned, and the tables at the end are such tables again, whatever was asked, whenever, and
  -- whichever statements failed.
  pub serve-IsSound :
      (file : Database) (stored : Option ControlTables) (bound : Outcome Error (Unit {0}))
      (arrivals : List Arrival) (responses : List Response) (state : AppState)
      → IsSound (stored_tables stored)
      → serve codec limits file stored bound arrivals ≡ ok (responses, state)
      → All (λ r. r ≢ closed) responses
        × (length responses ≡ length arrivals)
        × (state.poisoned ≡ false)
        × IsSound state.tables
  unfolding serve open_store
  serve-IsSound file stored bound arrivals responses state h e =
      let same : serve_all codec limits arrivals
            (record { poisoned = false; tables = stored_tables stored })
          ≡ (responses, state) =
        ground arith in
      let (a, b, c, d) =
        serve_all-Serves arrivals (record { poisoned = false; tables = stored_tables stored }) refl
          h in
      subst
        (λ (r : List Response × AppState).
          All (λ x. x ≢ closed) r.0
          × (length r.0 ≡ length arrivals)
          × (r.1.poisoned ≡ false)
          × IsSound r.1.tables)
        same (a, d, b, c)
