-- ===== src/Packet/Address.antt =====
-- `[IpAddr]::contains` of the standard library.
use flow_observability.Base.{
  ◌≡◌, ◌↔◌, Bool, true, false, ◌&&◌, ◌||◌, List, [], ◌∷◌, arith, ◌==◌, text_eq, text_eq_iff,
}
use flow_observability.Model.{IpAddr, v4, v6}

abbrev pub address_eq : IpAddr → IpAddr → Bool
address_eq (v4 a b c d) (v4 a' b' c' d') = a == a' && b == b' && c == c' && d == d'
address_eq (v6 octets) (v6 octets') = text_eq octets octets'
address_eq _ _ = false

pub address_eq_iff : (x y : IpAddr) → (address_eq x y ≡ true) ↔ (x ≡ y)
address_eq_iff (v4 a b c d) (v4 a' b' c' d') = ground arith
address_eq_iff (v6 o) (v6 o') = ground (arith, text_eq_iff o o')
address_eq_iff x y = ground arith

unfoldable pub contains : List IpAddr → IpAddr → Bool
contains [] ip = false
contains (x ∷ xs) ip = address_eq x ip || contains xs ip
