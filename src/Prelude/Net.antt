-- ===== src/Prelude/Net.antt =====
-- IPv4 socket addresses, as their four octets and a port: `Ipv4Addr` and `SocketAddrV4` of Rust's std.
use Prim.Native.Nat.{ℕ}
use mathlib.Core.Bool.{Bool, ◌&&◌}
use mathlib.Core.List.{List, [], ◌∷◌}
use outpace.Prelude.Tests.{◌==◌}
use outpace.Prelude.Bytes.{IsByte, IsU16}

pub record Ipv4Addr : Type 0 where
  pub a : ℕ
  pub b : ℕ
  pub c : ℕ
  pub d : ℕ

pub record SocketAddrV4 : Type 0 where
  pub ip : Ipv4Addr
  pub port : ℕ

abbrev pub octets : Ipv4Addr → List ℕ
octets ip = ip.a ∷ ip.b ∷ ip.c ∷ ip.d ∷ []

abbrev pub is_unspecified : Ipv4Addr → Bool
is_unspecified ip = (ip.a == 0) && ((ip.b == 0) && ((ip.c == 0) && (ip.d == 0)))

-- An address of four bytes and a port of sixteen bits.
abbrev pub IsAddr : SocketAddrV4 → Type 0
IsAddr addr =
    IsByte addr.ip.a × IsByte addr.ip.b × IsByte addr.ip.c × IsByte addr.ip.d × IsU16 addr.port
