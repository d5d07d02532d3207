-- ===== src/Examples/Addresses.antt =====
-- The address of a client behind a proxy.
use rubix_redis_bridge.Prelude.{
  ℕ, ◌≡◌, ◌≢◌, ◌∙◌, sym, ap, refl, true, List, [], ◌∷◌, none, some, ok, Mem, arith, list_eq,
  list_beq, nat_eq, if◌then◌else◌, ◌*◌, ◌+◌,
}
use rubix_redis_bridge.Text.{
  Str, lit, str_eq, split, split_once, trim, trim_start, trim_end, is_whitespace,
  eq_ignore_ascii_case, to_ascii_lowercase, to_lower,
}
use rubix_redis_bridge.Text.Prefix.{strip_prefix}
use rubix_redis_bridge.Net.{IpAddr, v4, v6}
use rubix_redis_bridge.Net.Parse.{
  to_digit, read_digits, read_number, starts_with_zero, read_char, read_separator, read_octets,
  read_ipv4_addr, read_ipv6_addr, parse_ip,
}
use rubix_redis_bridge.Client.{
  Headers, TrustedProxy, contains, prefix_mask_v4, parse_proxies, parse_entries, parse_proxy,
  proxy_of, parse_u8, trim_matches, trim_start_matches, trim_end_matches, parse_ip_candidate,
  header_ip, x_forwarded_for_ip, forwarded_header_ip, find_map, part_ip, forwarded_ip, is_trusted,
  resolve, client_ip,
}
use rubix_redis_bridge.Client.Trust.{InNetwork}
use rubix_redis_bridge.Client.Spoofing.{client_ip_trusted}

abbrev proxies : List TrustedProxy
proxies = record { network = v4 (10 * 16777216); prefix = 8 } ∷ []

abbrev setting : Str
setting = lit " 10.0.0.0/8,"

proxies_parsed : parse_proxies setting ≡ ok proxies
unfolding parse_proxies parse_entries parse_proxy proxy_of parse_u8 lit split split_once trim
    trim_start trim_end is_whitespace strip_prefix to_digit read_digits read_number starts_with_zero
    read_char read_separator read_octets read_ipv4_addr read_ipv6_addr parse_ip
proxies_parsed = refl

-- It forwards 203.0.113.9.
abbrev headers : Headers
headers name =
    if str_eq name (lit "x-forwarded-for") then some (lit "unknown, 203.0.113.9") else none

abbrev peer : IpAddr
peer = v4 (10 * 16777216 + 259)

forwarded_is : client_ip true proxies headers peer ≡ v4 3405803785
unfolding client_ip resolve is_trusted contains prefix_mask_v4 forwarded_ip header_ip
    x_forwarded_for_ip forwarded_header_ip find_map part_ip parse_ip_candidate trim_matches
    trim_start_matches trim_end_matches lit split trim trim_start trim_end is_whitespace to_digit
    read_digits read_number starts_with_zero read_char read_separator read_octets read_ipv4_addr
    read_ipv6_addr parse_ip list_eq list_beq eq_ignore_ascii_case to_ascii_lowercase to_lower
forwarded_is = refl

abbrev number : IpAddr → ℕ
number (v4 address) = address
number (v6 address) = address

other_address : client_ip true proxies headers peer ≢ peer
other_address h = absurd (omega (arith, ap number (sym forwarded_is ∙ h)))

client_ip_trusted_example :
    (true ≡ true)
    × (forwarded_ip headers ≡ some (client_ip true proxies headers peer))
    × ((proxy : TrustedProxy) × Mem proxy proxies × InNetwork proxy.network proxy.prefix peer)
client_ip_trusted_example =
    client_ip_trusted setting proxies true headers peer proxies_parsed (omega arith) other_address
