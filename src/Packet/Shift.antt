-- ===== src/Packet/Shift.antt =====
-- Reading behind a prefix: the parser at an offset reads what it reads at 0 of what stands there.
use flow_observability.Base.{
  ℕ, ◌+◌, ◌≡◌, ap, ◌∙◌, List, ◌++◌, length, String, arith, ltb, length-append,
  get_elem?-append_right, ltb-false, lt→ltb, Bool-cases, inl, inr, le_of_ltb, ltb→lt,
}
use native.Mathlib.Nat.{add_assoc, zero-add}
use flow_observability.Packet.{
  byte_at, be16_at, require, parse_ports, ipv4_at, ipv4_fields, parse_ipv4,
}

module _ (front frame : List ℕ) where
  pub byte_at_shift : (i : ℕ) → byte_at (front ++ frame) (length front + i) ≡ byte_at frame i
  unfolding byte_at
  byte_at_shift i = rw (get_elem?-append_right front frame i, byte_at)

  byte_at_first : byte_at (front ++ frame) (length front) ≡ byte_at frame 0
  byte_at_first = ap (byte_at (front ++ frame)) (omega arith) ∙ byte_at_shift 0

  pub be16_at_shift : (i : ℕ) → be16_at (front ++ frame) (length front + i) ≡ be16_at frame i
  unfolding be16_at
  be16_at_shift i = simp (add_assoc, byte_at_shift)

  pub ipv4_at_shift : (i : ℕ) → ipv4_at (front ++ frame) (length front + i) ≡ ipv4_at frame i
  unfolding ipv4_at
  ipv4_at_shift i = simp (add_assoc, byte_at_shift)

  pub require_shift :
      (n : ℕ) (layer : String)
      → require (front ++ frame) (length front + n) layer ≡ require frame n layer
  unfolding require
  require_shift n layer = elim (Bool-cases (ltb (length frame) n)) [
    | inl short ↦ rw (
      short,
      lt→ltb (length (front ++ frame)) (length front + n)
          (omega (arith, length-append front frame, ltb→lt (length frame) n short)),
    )
    | inr fits ↦ rw (
      fits,
      ltb-false (length (front ++ frame)) (length front + n)
          (omega (arith, length-append front frame, le_of_ltb (length frame) n fits)),
    )
  ]

  pub parse_ports_shift :
      (at protocol : ℕ)
      → parse_ports (front ++ frame) (length front + at) protocol ≡ parse_ports frame at protocol
  unfolding parse_ports
  parse_ports_shift at protocol = simp (add_assoc, be16_at_shift, require_shift)

  pub parse_ipv4_shift : parse_ipv4 (front ++ frame) (length front) ≡ parse_ipv4 frame 0
  unfolding parse_ipv4 ipv4_fields
  parse_ipv4_shift = simp (
    add_assoc, zero-add, byte_at_first, byte_at_shift, ipv4_at_shift, be16_at_shift, require_shift,
    parse_ports_shift,
  )
