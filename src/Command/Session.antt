-- ===== src/Command/Session.antt =====
-- Any commands of src/main.rs, one behind another, on the files of an agent and of a control plane.
use flow_observability.Base.{
  ℕ, ◌+◌, sym, subst, List, [], ◌∷◌, ok, err, panic, arith, inl, inr, Outcome-cases,
}
use flow_observability.Model.Envelope.{Codec}
use flow_observability.Spool.Tables.{SpoolTables}
use flow_observability.Spool.Opening.{open_spool}
use flow_observability.Spool.Methods.{status}
use flow_observability.Spool.Guarantees.{Accounted}
use flow_observability.Upload.{Server, upload_once}
use flow_observability.Control.Serve.{serve}
use flow_observability.Control.Requests.{serve-IsSound}
use flow_observability.Command.{
  LimitArgs, ControlLimitArgs, Command, serve_command, synthetic_command, upload_once_command,
  status_command, gaps_command, capture_command, World, Files, served, with_spool, capture_config,
  upload_and_report, run_synthetic, run_status, run_gaps, spool_limits, control_limits, main,
  session,
}
use flow_observability.Command.Records.{
  synthetic-Accounted, upload_once_acks, upload_once-Accounted,
}
use flow_observability.Command.Kept.{
  AreKept, AreKept-same, open_spool-tables, with_spool-AreKept, captured-Accounted,
}

module _ (codec : Codec) where
  module _ {S : Type 0} (server : Server S) where
    upload_and_report-Accounted :
        (world : World) (limit : ℕ) (t : SpoolTables) (s : S) (acknowledged : ℕ → ℕ)
        → Accounted acknowledged t
        → Accounted
            (λ n. acknowledged n + upload_once_acks codec world.engine server limit t s n)
            (upload_and_report codec server world limit t s).1.0
    unfolding upload_and_report
    upload_and_report-Accounted world limit t s acknowledged h =
        let kept = upload_once-Accounted codec world.engine server limit t s acknowledged h in
        elim (Outcome-cases (upload_once codec world.engine server limit (t, s)).0) [
          | inl (n, e) ↦
              elim (Outcome-cases (
                status codec world.engine
                  (upload_once codec world.engine server limit (t, s)).1.0)) [
                    | inl (r, q) ↦ rw (e, upload_and_report) (rw (q, upload_and_report) kept)
                    | inr (inl (x, q)) ↦ rw (e, upload_and_report) (rw (q, upload_and_report) kept)
                    | inr (inr q) ↦ rw (e, upload_and_report) (rw (q, upload_and_report) kept)
                  ]
          | inr (inl (x, e)) ↦ rw (e, upload_and_report) kept
          | inr (inr e) ↦ rw (e, upload_and_report) kept
        ]

    -- How often a command makes the other side acknowledge a number of the spool.
    unfoldable pub command_acks : World → Command → Files S → ℕ → ℕ
    unfolding upload_once_acks
    command_acks world (upload_once_command limit args) files n =
        elim (open_spool (spool_limits args) world.spool_file files.spool) [
          | err failure ↦ 0
          | panic ↦ 0
          | ok spool ↦ upload_once_acks codec world.engine server limit spool.tables files.peer n
        ]
    command_acks world (serve_command args) files n = 0
    command_acks world (synthetic_command node batches args) files n = 0
    command_acks world (status_command args) files n = 0
    command_acks world (gaps_command args) files n = 0
    command_acks world (capture_command local_ip node point boot_id seconds max_batches args) files
          n =
        0

    unfoldable pub session_acks : List (World × Command) → Files S → ℕ → ℕ
    unfolding command_acks
    session_acks [] files n = 0
    session_acks ((world, command) ∷ commands) files n =
        command_acks world command files n
        + session_acks commands (main codec server world command files).1 n

    uploaded-AreKept :
        (world : World) (limit : ℕ) (args : LimitArgs) (files : Files S) (acknowledged : ℕ → ℕ)
        → AreKept acknowledged files
        → AreKept
            (λ n. acknowledged n + command_acks world (upload_once_command limit args) files n)
            (with_spool world args (upload_and_report codec server world limit) files).1
    unfolding command_acks
    uploaded-AreKept world limit args files acknowledged h =
        elim (Outcome-cases (open_spool (spool_limits args) world.spool_file files.spool)) [
          | inl (spool, e) ↦
              rw (e, with_spool, command_acks)
                (record {
                  recorded =
                      upload_and_report-Accounted world limit spool.tables files.peer acknowledged (
                        subst (Accounted acknowledged)
                          (sym (
                            open_spool-tables (spool_limits args) world.spool_file files.spool spool
                              e))
                          h.recorded);
                  sound = h.sound;
                })
          | inr (inl (x, e)) ↦
              rw (e, with_spool, command_acks)
                (AreKept-same acknowledged _ files (λ n. omega arith) h)
          | inr (inr e) ↦
              rw (e, with_spool, command_acks)
                (AreKept-same acknowledged _ files (λ n. omega arith) h)
        ]

    served-AreKept :
        (world : World) (args : ControlLimitArgs) (files : Files S) (acknowledged : ℕ → ℕ)
        → AreKept acknowledged files
        → AreKept acknowledged
            (served
              (serve codec
                (control_limits args)
                world.database
                files.control
                world.bound
                world.arrivals)
              files).1
    served-AreKept world args files acknowledged h =
        elim (Outcome-cases (
          serve codec (control_limits args) world.database files.control world.bound
            world.arrivals)) [
              | inl ((responses, state), e) ↦ rw e (record {
                recorded = h.recorded;
                sound =
                    (serve-IsSound codec (control_limits args) world.database files.control
                      world.bound world.arrivals responses state h.sound e).3;
              })
              | inr (inl (x, e)) ↦ rw e h
              | inr (inr e) ↦ rw e h
            ]

    main-AreKept :
        (world : World) (command : Command) (files : Files S) (acknowledged : ℕ → ℕ)
        → AreKept acknowledged files
        → AreKept
            (λ n. acknowledged n + command_acks world command files n)
            (main codec server world command files).1
    unfolding main command_acks
    main-AreKept world (serve_command args) files acknowledged h =
        AreKept-same acknowledged _ _ (λ n. omega arith)
          (served-AreKept world args files acknowledged h)
    main-AreKept world (synthetic_command node batches args) files acknowledged h =
        AreKept-same acknowledged _ _ (λ n. omega arith)
          (with_spool-AreKept world args
            (run_synthetic codec server world (spool_limits args) node batches) files acknowledged
            (λ t s k.
              synthetic-Accounted codec world.engine (spool_limits args) node batches world.clock t
                acknowledged k)
            h)
    main-AreKept world (upload_once_command limit args) files acknowledged h =
        uploaded-AreKept world limit args files acknowledged h
    main-AreKept world (status_command args) files acknowledged h =
        AreKept-same acknowledged _ _ (λ n. omega arith)
          (with_spool-AreKept world args (run_status codec server world) files acknowledged
            (λ t s k. k) h)
    main-AreKept world (gaps_command args) files acknowledged h =
        AreKept-same acknowledged _ _ (λ n. omega arith)
          (with_spool-AreKept world args (run_gaps codec server world) files acknowledged
            (λ t s k. k) h)
    main-AreKept world (capture_command local_ip node point boot_id seconds max_batches args) files
          acknowledged h =
        AreKept-same acknowledged _ _ (λ n. omega arith)
          (record {
            recorded =
                captured-Accounted codec
                  (capture_config world local_ip node point boot_id seconds max_batches args)
                  world.device world.spool_file files.spool world.ticks acknowledged h.recorded;
            sound = h.sound;
          })

    -- Over any commands one behind another, with any options, in any worlds and against any other
    -- side: if at first each number that the spool has given out is pending, or a gap, or one of the
    -- numbers acknowledged so far, only one of these and once, then so it is at the end, where a
    -- number counts as acknowledged in addition exactly when an upload of the session had its batch
    -- answered with the batch's own identifier and deleted its row; and likewise the batches of the
    -- control plane stay distinct and hold all its flow rows.
    pub session-AreKept :
        (commands : List (World × Command)) (files : Files S) (acknowledged : ℕ → ℕ)
        → AreKept acknowledged files
        → AreKept
            (λ n. acknowledged n + session_acks commands files n)
            (session codec server commands files)
    unfolding session session_acks
    session-AreKept [] files acknowledged h = AreKept-same acknowledged _ files (λ n. omega arith) h
    session-AreKept ((world, command) ∷ commands) files acknowledged h =
        AreKept-same _ _ _ (λ n. omega arith)
          (session-AreKept commands (main codec server world command files).1 _
            (main-AreKept world command files acknowledged h))
