-- ===== src/InetAddress/Tests.antt =====
-- The theorems about addresses, with texts in which a number stands for the address.
use conex.Prelude.{ℕ, ◌^◌, ◌<◌, ◌≡◌, refl, ap, false, some, ◌∷◌, ◌++◌, arith, Bytes}
use conex.Decimal.{decimal, read_digits, read_digits-decimal}
use conex.InetAddress.{
  InetAddress, Inet, af_inet, swap_bytes2, swap_bytes4, make_local, to_port, make_address, to_ip,
  to_ip_port,
}
use conex.InetAddress.Text.{make_address-to_ip, to_ip_port_lem}

number_text :
    (a : ℕ)
    → a < 2 ^ 32
    → (t : Bytes) × (some (decimal a) ≡ some t) × (some (read_digits 0 t) ≡ some a)
number_text a h = (decimal a, refl, ap some (read_digits-decimal a))

abbrev net : Inet
net = record {
  inet_pton = λ t. some (read_digits 0 t);
  inet_ntop = λ a. some (decimal a);
  text_of = number_text;
}

abbrev here : InetAddress
here = record { sin_family = af_inet; sin_port = 36895; s_addr = 16777343 }

made_again : make_address net (to_ip net here) (to_port here) ≡ here
made_again = make_address-to_ip net here (omega arith)

text_of_8080 :
    (to_ip_port net (make_address net (decimal 16777343) 8080)
      ≡ decimal 16777343 ++ (b':' ∷ decimal 8080))
    × (to_port (make_address net (decimal 16777343) 8080) ≡ 8080)
text_of_8080 = to_ip_port_lem net 16777343 8080 (omega arith) refl (omega arith)

-- 8080 is 0x1f90, and 127.0.0.1 is stored with its first byte first.
loopback : make_local 8080 false ≡ here
unfolding make_local swap_bytes2 swap_bytes4
loopback = refl
