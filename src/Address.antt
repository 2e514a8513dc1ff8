-- ===== src/Address.antt =====
-- include/address.h, src/address.cpp: an IPv4 address with its port, as `sockaddr_in` holds it. Texts
-- are lists of bytes; `inet_pton` and `inet_ntop` of the system are an interface.
pub mod Text
pub mod RoundTrip
use cpp_reactor_framework.Prelude.{
  ℕ, zero, suc, ◌+◌, ◌/◌, ◌%◌, ◌≡◌, ◌≢◌, Option, none, some, List, [], ◌∷◌, ◌++◌, ltb, length,
  if◌then◌else◌,
}
use cpp_reactor_framework.SocketUtils.{host_to_net_short, net_to_host_short}

-- What the code relies on: a text is read as four bytes, four bytes have a text, which is not empty,
-- and that text is read as the same bytes.
pub record Inet : Type 0 where
  pub inet_pton : List ℕ → Option (List ℕ)
  pub inet_ntop : List ℕ → Option (List ℕ)
  pub length-pton : (text bin : List ℕ) → inet_pton text ≡ some bin → length bin ≡ 4
  pub ntop_text :
      (bin : List ℕ)
      → length bin ≡ 4
      → (text : List ℕ) × (text ≢ []) × (inet_ntop bin ≡ some text) × (inet_pton text ≡ some bin)

-- The port and the address are in network order.
pub record SockaddrIn : Type 0 where
  pub sin_port : ℕ
  pub s_addr : List ℕ

pub record Address : Type 0 where
  pub addr : SockaddrIn
  pub len : ℕ

abbrev pub inaddr_any : List ℕ
inaddr_any = 0 ∷ 0 ∷ 0 ∷ 0 ∷ []

-- `sizeof(sockaddr_in)`.
abbrev pub sizeof_sockaddr_in : ℕ
sizeof_sockaddr_in = 16

-- `Address()`.
abbrev pub any_address : Address
any_address = record {
  addr = record { sin_port = 0; s_addr = inaddr_any };
  len = sizeof_sockaddr_in;
}

abbrev pub get_sock_len : Address → ℕ
get_sock_len a = a.len

abbrev pub set_sock_len : ℕ → Address → Address
set_sock_len len a = record a { len = len }

unfoldable pub get_port : Address → ℕ
get_port a = net_to_host_short a.addr.sin_port

-- `std::to_string` of a number of at most so many digits.
unfoldable pub decimal : ℕ → ℕ → List ℕ
decimal zero n = []
decimal (suc digits) n =
    let rest = decimal digits (n / 10) in
    if ltb n 10 then (b'0' + n) ∷ [] else rest ++ ((b'0' + n % 10) ∷ [])

module _ (I : Inet) where
  unfoldable pub ip_v4_str_to_bin : List ℕ → Option (List ℕ)
  ip_v4_str_to_bin text = I.inet_pton text

  unfoldable pub ip_v4_bin_to_str : List ℕ → List ℕ
  ip_v4_bin_to_str bin = elim (I.inet_ntop bin) [ none ↦ [] | some text ↦ text ]

  -- No text, or one that is no address, means all interfaces.
  unfoldable pub parse_ip : List ℕ → List ℕ
  parse_ip [] = inaddr_any
  parse_ip (c ∷ cs) = elim (ip_v4_str_to_bin (c ∷ cs)) [ none ↦ inaddr_any | some bin ↦ bin ]

  -- `Address(ip, port)`.
  unfoldable pub new : List ℕ → ℕ → Address
  new ip port = record {
    addr = record { sin_port = host_to_net_short port; s_addr = parse_ip ip };
    len = sizeof_sockaddr_in;
  }

  unfoldable pub get_ip : Address → List ℕ
  get_ip a = ip_v4_bin_to_str a.addr.s_addr

  -- A port has five digits at most.
  unfoldable pub to_string : Address → List ℕ
  to_string a = get_ip a ++ (b':' ∷ decimal 5 (get_port a))
