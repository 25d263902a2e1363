-- ===== src/InetAddress.antt =====
-- InetAddress.h and InetAddress.cc: an address of IPv4 and a port, as the fields of a `sockaddr_in`,
-- which hold them in network order on a little-endian machine. `inet_pton` and `inet_ntop` are
-- parameters.
pub mod Text
mod Tests
use conex.Prelude.{
  ℕ, ◌+◌, ◌*◌, ◌/◌, ◌%◌, ◌^◌, ◌<◌, ◌≡◌, Bool, Option, none, some, [], ◌∷◌, ◌++◌, if◌then◌else◌,
  Bytes,
}
use conex.Decimal.{decimal}

pub record InetAddress : Type 0 where
  pub sin_family : ℕ
  pub sin_port : ℕ
  pub s_addr : ℕ

abbrev pub af_inet : ℕ
af_inet = 2

abbrev pub inaddr_any : ℕ
inaddr_any = 0

abbrev pub inaddr_loopback : ℕ
inaddr_loopback = 2130706433

-- `htons` and `ntohs`, `htonl`: the bytes in the other order.
unfoldable pub swap_bytes2 : ℕ → ℕ
swap_bytes2 x = x % 256 * 256 + x / 256 % 256

unfoldable pub swap_bytes4 : ℕ → ℕ
swap_bytes4 x =
    x % 256 * 16777216 + x / 256 % 256 * 65536 + x / 65536 % 256 * 256 + x / 16777216 % 256

-- What the code relies on of `inet_pton` and `inet_ntop` for `AF_INET` (man 3): every address has a
-- text, which is read back as that address.
pub record Inet : Type 0 where
  pub inet_pton : Bytes → Option ℕ
  pub inet_ntop : ℕ → Option Bytes
  pub text_of : (a : ℕ) → a < 2 ^ 32 → (t : Bytes) × (inet_ntop a ≡ some t) × (inet_pton t ≡ some a)

-- The constructor on a port; `any` chooses between the two addresses.
unfoldable pub make_local : ℕ → Bool → InetAddress
make_local port any = record {
  sin_family = af_inet;
  sin_port = swap_bytes2 port;
  s_addr = swap_bytes4 (if any then inaddr_any else inaddr_loopback);
}

unfoldable pub to_port : InetAddress → ℕ
to_port a = swap_bytes2 a.sin_port

abbrev pub or_zero : Option ℕ → ℕ
or_zero none = 0
or_zero (some a) = a

abbrev pub or_empty : Option Bytes → Bytes
or_empty none = []
or_empty (some t) = t

module _ (net : Inet) where
  open net use {inet_pton, inet_ntop}

  -- The constructor on a text and a port: `bzero` has left 0 where `inet_pton` refuses.
  unfoldable pub make_address : Bytes → ℕ → InetAddress
  make_address ip port = record {
    sin_family = af_inet;
    sin_port = swap_bytes2 port;
    s_addr = or_zero (inet_pton ip);
  }

  unfoldable pub to_ip : InetAddress → Bytes
  to_ip a = or_empty (inet_ntop a.s_addr)

  unfoldable pub to_ip_port : InetAddress → Bytes
  to_ip_port a = (to_ip a ++ b':' ∷ []) ++ decimal (to_port a)
