-- ===== src/Capture/Absorb.antt =====
-- What taking in one frame changes (`parse_packet` and its `match` in src/capture.rs).
use flow_observability.Base.{
  ℕ, ◌+◌, ◌<◌, ◌≡◌, refl, subst, List, [], ◌∷◌, Option, none, some, Outcome, ok, err, panic, arith,
}
use flow_observability.Base.Int.{ℤ}
use flow_observability.Model.Envelope.{Codec}
use flow_observability.Packet.{PacketMeta, PacketError, parse_packet}
use flow_observability.Sqlite.{Error}
use flow_observability.Aggregate.{Aggregator, u64_mod, push}
use flow_observability.Aggregate.Tally.{IsValid, push-IsValid}
use flow_observability.Aggregate.Stream.{Counter, total-push}
use flow_observability.Capture.{
  CaptureConfig, CaptureState, Next, packet, timeout_expired, pcap_error, as_u64, absorb, receive,
}
use flow_observability.Capture.Rounds.{taken_of, failure_of, taken_in, failures}
use flow_observability.Capture.Account.{sum_added, held_total}

ok_injective : {s s' : CaptureState} → ◌≡◌ {A = Outcome Error CaptureState} (ok s) (ok s') → s ≡ s'
ok_injective h = cc

push_width : (a : Aggregator) (p : PacketMeta) → (push a p).bucket_seconds ≡ a.bucket_seconds
unfolding push
push_width a p = refl

-- Taking in a frame changes the aggregator, or the count of failures.
pub record Absorbs (ps : List PacketMeta) (n : ℕ) (s s' : CaptureState) : Type 0 where
  pub valid : IsValid s'.aggregator
  pub same_width : s'.aggregator.bucket_seconds ≡ s.aggregator.bucket_seconds
  pub more : (which : Counter) → held_total which s' ≡ held_total which s + sum_added which ps
  pub failed : s'.parse_errors ≡ s.parse_errors + n
  pub same_tables : s'.tables ≡ s.tables
  pub same_count : s'.emitted ≡ s.emitted

absorb-Absorbs :
    (parsed : Outcome PacketError (Option PacketMeta)) (s s' : CaptureState)
    → IsValid s.aggregator
    → ((which : Counter) → held_total which s + sum_added which (taken_of parsed) < u64_mod)
    → s.parse_errors + failure_of parsed < u64_mod
    → absorb s parsed ≡ ok s'
    → Absorbs (taken_of parsed) (failure_of parsed) s s'
unfolding absorb
absorb-Absorbs (ok (some m)) s s' v f g h = subst (Absorbs (m ∷ []) 0 s) (ok_injective h) (record {
  valid = push-IsValid s.aggregator m v;
  same_width = push_width s.aggregator m;
  more = λ which. omega (arith, total-push which s.aggregator m, f which);
  failed = omega arith;
  same_tables = refl;
  same_count = refl;
})
absorb-Absorbs (ok none) s s' v f g h = subst (Absorbs [] 0 s) (ok_injective h) (record {
  valid = v;
  same_width = refl;
  more = λ which. omega arith;
  failed = omega arith;
  same_tables = refl;
  same_count = refl;
})
absorb-Absorbs (err e) s s' v f g h = subst (Absorbs [] 1 s) (ok_injective h) (record {
  valid = v;
  same_width = refl;
  more = λ which. omega arith;
  failed = ground arith;
  same_tables = refl;
  same_count = refl;
})
absorb-Absorbs panic s s' v f g h = cc

module _ (codec : Codec) (config : CaptureConfig) (link_type : ℤ) where
  pub receive-Absorbs :
      (next : Next) (s s' : CaptureState)
      → IsValid s.aggregator
      → ((which : Counter)
          → held_total which s + sum_added which (taken_in codec config link_type next) < u64_mod)
      → s.parse_errors + failures codec config link_type next < u64_mod
      → receive codec config link_type next s ≡ ok s'
      → Absorbs (taken_in codec config link_type next) (failures codec config link_type next) s s'
  unfolding receive
  receive-Absorbs timeout_expired s s' v f g h = absorb-Absorbs (ok none) s s' v f g h
  receive-Absorbs pcap_error s s' v f g h = cc
  receive-Absorbs (packet p) s s' v f g h =
      absorb-Absorbs
        (parse_packet p.bytes link_type (as_u64 p.tv_sec) p.len config.capture_point
          config.local_ips)
        s s' v f g h
