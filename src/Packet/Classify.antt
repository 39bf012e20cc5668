-- ===== src/Packet/Classify.antt =====
-- `direction` against membership in the list of local addresses.
use flow_observability.Base.{◌≡◌, ◌⊎◌, inl, inr, true, false, List, [], ◌∷◌, arith, Bool-cases}
use flow_observability.Model.{Direction, ingress, egress, internal, unknown, IpAddr}
use flow_observability.Packet.{direction}
use flow_observability.Packet.Address.{address_eq_iff, contains}

abbrev pub IsLocal : IpAddr → List IpAddr → Type 0
IsLocal ip [] = ⊥
IsLocal ip (x ∷ xs) = (x ≡ ip) ⊎ IsLocal ip xs

contains→IsLocal : (xs : List IpAddr) (ip : IpAddr) → contains xs ip ≡ true → IsLocal ip xs
unfolding contains
contains→IsLocal [] ip h = cc
contains→IsLocal (x ∷ xs) ip h = ground (arith, address_eq_iff x ip, contains→IsLocal xs ip)

IsLocal→contains : (xs : List IpAddr) (ip : IpAddr) → IsLocal ip xs → contains xs ip ≡ true
unfolding contains
IsLocal→contains [] ip h = absurd h
IsLocal→contains (x ∷ xs) ip (inl e) = ground (arith, address_eq_iff x ip)
IsLocal→contains (x ∷ xs) ip (inr h) = ground (arith, IsLocal→contains xs ip h)

-- What a direction says of the two addresses.
abbrev pub Means : Direction → IpAddr → IpAddr → List IpAddr → Type 0
Means egress s d ips = IsLocal s ips × (¬ IsLocal d ips)
Means ingress s d ips = (¬ IsLocal s ips) × IsLocal d ips
Means internal s d ips = IsLocal s ips × IsLocal d ips
Means unknown s d ips = (¬ IsLocal s ips) × (¬ IsLocal d ips)

not-IsLocal : (xs : List IpAddr) (ip : IpAddr) → contains xs ip ≡ false → ¬ IsLocal ip xs
not-IsLocal xs ip h m = cc (IsLocal→contains xs ip m)

-- The reported direction says which of the two addresses are local, and which are not.
pub direction-Means : (s d : IpAddr) (ips : List IpAddr) → Means (direction s d ips) s d ips
unfolding direction
direction-Means s d ips = elim (Bool-cases (contains ips s)) [
  | inl a ↦ elim (Bool-cases (contains ips d)) [
    | inl b ↦ rw (a, b) (contains→IsLocal ips s a, contains→IsLocal ips d b)
    | inr b ↦ rw (a, b) (contains→IsLocal ips s a, not-IsLocal ips d b)
  ]
  | inr a ↦ elim (Bool-cases (contains ips d)) [
    | inl b ↦ rw (a, b) (not-IsLocal ips s a, contains→IsLocal ips d b)
    | inr b ↦ rw (a, b) (not-IsLocal ips s a, not-IsLocal ips d b)
  ]
]
