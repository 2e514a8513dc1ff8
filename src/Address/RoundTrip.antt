-- ===== src/Address/RoundTrip.antt =====
-- src/address.cpp: an address, its port and its text.
use cpp_reactor_framework.Prelude.{
  ℕ, ◌≤◌, ◌<◌, ◌≡◌, ◌≢◌, refl, sym, ap, ap₂, ◌∙◌, Option, none, some, inl, inr, List, [], ◌∷◌,
  arith, length, Option-cases, ◌^◌, ℤ, pos, negsuc,
}
use cpp_reactor_framework.SocketUtils.{host_to_net_short, net_to_host_short}
use cpp_reactor_framework.Address.{
  Inet, Address, sizeof_sockaddr_in, get_port, ip_v4_str_to_bin, ip_v4_bin_to_str, parse_ip, new,
  get_ip, decimal, to_string,
}
use cpp_reactor_framework.Address.Text.{
  NoColon, before_colon, after_colon, before_colon_lem, after_colon_lem, number_from, decimal_lem,
}
use cpp_reactor_framework.Program.{parse_port}

-- An address that the constructors make: 16 bits and four bytes.
pub record IsAddress (a : Address) : Type 0 where
  pub port : a.addr.sin_port < 2 ^ 16
  pub ip : length a.addr.s_addr ≡ 4
  pub size : a.len ≡ sizeof_sockaddr_in

pub net_to_host_short-host_to_net_short :
    (n : ℕ) → n < 2 ^ 16 → net_to_host_short (host_to_net_short n) ≡ n
unfolding net_to_host_short host_to_net_short
net_to_host_short-host_to_net_short n small = omega arith

host_to_net_short-net_to_host_short :
    (n : ℕ) → n < 2 ^ 16 → host_to_net_short (net_to_host_short n) ≡ n
unfolding net_to_host_short host_to_net_short
host_to_net_short-net_to_host_short n small = omega arith

host_to_net_short_small : (n : ℕ) → host_to_net_short n < 2 ^ 16
unfolding host_to_net_short
host_to_net_short_small n = omega arith

parse_port-bounds : (arg : Option ℤ) → (1 ≤ parse_port arg) × (parse_port arg ≤ 65535)
unfolding parse_port
parse_port-bounds none = (omega arith, omega arith)
parse_port-bounds (some (negsuc n)) = (omega arith, omega arith)
parse_port-bounds (some (pos n)) = (ground arith, ground arith)

get_port_small : (a : Address) → get_port a < 2 ^ 16
unfolding get_port net_to_host_short
get_port_small a = omega arith

module _ (I : Inet) where
  length-parse_ip : (ip : List ℕ) → length (parse_ip I ip) ≡ 4
  unfolding parse_ip ip_v4_str_to_bin
  length-parse_ip [] = refl
  length-parse_ip (c ∷ cs) = elim (Option-cases (I.inet_pton (c ∷ cs))) [
    | inl unread ↦ rw (parse_ip, unread) refl
    | inr (bin, read) ↦ rw (parse_ip, read) (I.length-pton (c ∷ cs) bin read)
  ]

  pub new-IsAddress : (ip : List ℕ) (port : ℕ) → IsAddress (new I ip port)
  unfolding new
  new-IsAddress ip port = record {
    port = host_to_net_short_small port;
    ip = length-parse_ip ip;
    size = refl;
  }

  parse_ip_of_text :
      (text bin : List ℕ) → text ≢ [] → I.inet_pton text ≡ some bin → parse_ip I text ≡ bin
  unfolding parse_ip ip_v4_str_to_bin
  parse_ip_of_text [] bin some_text read = absurd (some_text refl)
  parse_ip_of_text (c ∷ cs) bin some_text read = rw (parse_ip, read) refl

  parse_ip-get_ip : (bin : List ℕ) → length bin ≡ 4 → parse_ip I (ip_v4_bin_to_str I bin) ≡ bin
  unfolding ip_v4_bin_to_str
  parse_ip-get_ip bin four =
      let (text, some_text, written, read) = I.ntop_text bin four in
      rw (ip_v4_bin_to_str, written) (parse_ip_of_text text bin some_text read)

  new-get_ip : (a : Address) → IsAddress a → new I (get_ip I a) (get_port a) ≡ a
  unfolding new get_ip get_port
  new-get_ip a v =
      ap₂ (λ p s. record { addr = record { sin_port = p; s_addr = s }; len = sizeof_sockaddr_in })
        (host_to_net_short-net_to_host_short a.addr.sin_port v.port)
        (parse_ip-get_ip a.addr.s_addr v.ip)
      ∙ ap (λ n. record a { len = n }) (sym v.size)

  text_without_colon :
      ((bin text : List ℕ) → I.inet_ntop bin ≡ some text → NoColon text)
      → (bin : List ℕ) → length bin ≡ 4
      → NoColon (ip_v4_bin_to_str I bin)
  unfolding ip_v4_bin_to_str
  text_without_colon colonless bin four =
      let (text, some_text, written, read) = I.ntop_text bin four in
      rw (ip_v4_bin_to_str, written) (colonless bin text written)

  -- The text of an address, taken apart at its colon and given to the constructor, makes the same
  -- address, if the texts of `inet_ntop` have no colon.
  pub new-to_string :
      (a : Address)
      → IsAddress a
      → ((bin text : List ℕ) → I.inet_ntop bin ≡ some text → NoColon text)
      → new I (before_colon (to_string I a)) (number_from 0 (after_colon (to_string I a))) ≡ a
  unfolding to_string get_ip
  new-to_string a v colonless =
      let clear = text_without_colon colonless a.addr.s_addr v.ip in
      ap₂ (new I) (before_colon_lem (get_ip I a) (decimal 5 (get_port a)) clear) (
        ap (number_from 0) (after_colon_lem (get_ip I a) (decimal 5 (get_port a)) clear)
        ∙ decimal_lem 5 (get_port a) (omega (arith, get_port_small a)))
      ∙ new-get_ip a v

  -- Whatever the argument of the program is, the port that its address holds is a number from 1 to
  -- 65535, and is the one that `ParsePort` chose.
  pub listen_port_lem :
      (arg : Option ℤ) (ip : List ℕ)
      → (1 ≤ get_port (new I ip (parse_port arg)))
        × (get_port (new I ip (parse_port arg)) ≤ 65535)
        × (get_port (new I ip (parse_port arg)) ≡ parse_port arg)
  unfolding get_port new
  listen_port_lem arg ip =
      let (low, high) = parse_port-bounds arg in
      let same = net_to_host_short-host_to_net_short (parse_port arg) (omega arith) in
      (omega arith, omega arith, same)
