-- ===== src/InetAddress/Text.antt =====
-- Addresses as texts.
use conex.Prelude.{
  ℕ, ◌^◌, ◌<◌, ◌≡◌, refl, sym, ap, ◌∙◌, true, none, some, [], ◌∷◌, ◌++◌, append_assoc, arith, Bytes,
}
use conex.Decimal.{decimal}
use conex.InetAddress.{
  InetAddress, Inet, af_inet, swap_bytes2, swap_bytes4, make_local, to_port, or_zero, make_address,
  to_ip, to_ip_port,
}

swap_bytes2_twice : (x : ℕ) → x < 2 ^ 16 → swap_bytes2 (swap_bytes2 x) ≡ x
unfolding swap_bytes2
swap_bytes2_twice x h = omega arith

-- The fields of an address as the kernel gives it.
pub record IsAddress (a : InetAddress) : Type 0 where
  pub family_is : a.sin_family ≡ af_inet
  pub port_fits : a.sin_port < 2 ^ 16
  pub addr_fits : a.s_addr < 2 ^ 32

module _ (net : Inet) where
  open net use {inet_pton, inet_ntop, text_of}

  -- An address is made again from its text and its port.
  pub make_address-to_ip :
      (a : InetAddress) → IsAddress a → make_address net (to_ip net a) (to_port a) ≡ a
  unfolding make_address to_ip to_port
  make_address-to_ip a v =
      let (t, there, back) = text_of a.s_addr v.addr_fits in
      let read : inet_pton (to_ip net a) ≡ some a.s_addr = rw there back in
      λ i. record {
        sin_family = sym v.family_is i;
        sin_port = swap_bytes2_twice a.sin_port v.port_fits i;
        s_addr = ap (λ o. or_zero o) read i;
      }

  -- The text of an address that is made from the text of another one and a port: the same text, a
  -- colon, and the port in decimal.
  pub to_ip_port_lem :
      (a port : ℕ) {t : Bytes}
      → a < 2 ^ 32
      → inet_ntop a ≡ some t
      → port < 2 ^ 16
      → (to_ip_port net (make_address net t port) ≡ t ++ (b':' ∷ decimal port))
        × (to_port (make_address net t port) ≡ port)
  unfolding make_address to_ip to_ip_port to_port
  to_ip_port_lem a port {t} h e p =
      let (t', there, back) = text_of a h in
      let same : t' ≡ t = cc in
      let read : inet_pton t ≡ some a = ap inet_pton (sym same) ∙ back in
      let port_back = swap_bytes2_twice port p in
      (rw (read, e, port_back) (append_assoc t (b':' ∷ []) (decimal port)), port_back)

  -- A text that `inet_pton` refuses makes the address of any interface.
  pub refused_text :
      (ip : Bytes) (port : ℕ)
      → inet_pton ip ≡ none
      → make_address net ip port ≡ make_local port true
  unfolding make_address make_local swap_bytes4
  refused_text ip port h = rw h refl
