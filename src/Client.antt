-- ===== src/Client.antt =====
-- src/client: the address of a client, from the headers that a trusted proxy sends, and
-- `AppState::client_ip` of src/app/state.rs. Of the HTTP headers the http crate gives the value of the
-- first one with a name, as `to_str` does, if there is one.
pub mod Trust
pub mod Spoofing
use Prim.Native.Nat.{bit_and}
use Prim.Native.String.{String}
use rubix_redis_bridge.Prelude.{
  ℕ, suc, ◌+◌, ◌-◌, ◌*◌, ◌%◌, ◌^◌, Bool, true, false, not, ◌&&◌, ◌||◌, List, [], ◌∷◌, Option, none,
  some, Result, ok, err, ◌>>=◌, ◌>>◌, bail_if, ok_or, ltb, ◌==◌, any, is_empty, if◌then◌else◌,
}
use rubix_redis_bridge.Text.{Str, lit, split, split_once, trim, eq_ignore_ascii_case}
use rubix_redis_bridge.Text.Prefix.{strip_prefix}
use rubix_redis_bridge.Net.{IpAddr, v4, v6}
use rubix_redis_bridge.Net.Parse.{or_else, read_digits, parse_ip, socket_ip}

-- `trim_matches`, `matches(c).count()`, `rsplit_once` and `find_map` of std
unfoldable pub trim_start_matches : ℕ → Str → Str
trim_start_matches given [] = []
trim_start_matches given (c ∷ s) =
    let rest = trim_start_matches given s in if c == given then rest else c ∷ s

abbrev pub trim_end_step : ℕ → ℕ → Str → Str
trim_end_step given c [] = if c == given then [] else c ∷ []
trim_end_step given c (d ∷ s) = c ∷ d ∷ s

unfoldable pub trim_end_matches : ℕ → Str → Str
trim_end_matches given [] = []
trim_end_matches given (c ∷ s) = trim_end_step given c (trim_end_matches given s)

unfoldable pub trim_matches : ℕ → Str → Str
unfolding trim_start_matches trim_end_matches
trim_matches given s = trim_end_matches given (trim_start_matches given s)

unfoldable pub count_matches : ℕ → Str → ℕ
count_matches given [] = 0
count_matches given (c ∷ s) =
    let rest = count_matches given s in if c == given then suc rest else rest

unfoldable pub rsplit_once : ℕ → Str → Option (Str × Str)
rsplit_once given [] = none
rsplit_once given (c ∷ s) = elim (rsplit_once given s) [
  | some (before, after) ↦ some (c ∷ before, after)
  | none ↦ if c == given then some ([], s) else none
]

unfoldable pub find_map : {A B : Type 0} → (A → Option B) → List A → Option B
find_map f [] = none
find_map f (a ∷ more) = let later = find_map f more in or_else (f a) later

-- The address before a separator that was found.
abbrev pub ip_before : Option (Str × Str) → Option IpAddr
ip_before none = none
ip_before (some (ip, after)) = parse_ip ip

unfoldable pub parse_ip_candidate : Str → Option IpAddr
unfolding trim_matches count_matches rsplit_once
parse_ip_candidate text =
    let value = trim_matches b'"' (trim text) in
    if is_empty value || eq_ignore_ascii_case value (lit "unknown")
    then none
    else or_else (parse_ip value) (
        or_else (socket_ip value) (elim (strip_prefix (lit "[") value) [
          | some rest ↦ ip_before (split_once (λ c. c == b']') rest)
          | none ↦
              if count_matches b':' value == 1 then ip_before (rsplit_once b':' value) else none
        ]))

abbrev pub Headers : Type 0
Headers = Str → Option Str

-- `.and_then(…)` on a header
abbrev pub from_header : (Str → Option IpAddr) → Option Str → Option IpAddr
from_header f none = none
from_header f (some value) = f value

unfoldable pub header_ip : Headers → Str → Option IpAddr
header_ip headers name = from_header parse_ip_candidate (headers name)

unfoldable pub x_forwarded_for_ip : Headers → Option IpAddr
unfolding find_map
x_forwarded_for_ip headers =
    from_header (λ value. find_map parse_ip_candidate (split b',' value))
      (headers (lit "x-forwarded-for"))

-- A part `for=…` of an entry
unfoldable pub part_ip : Str → Option IpAddr
part_ip part = elim (split_once (λ c. c == b'=') (trim part)) [
  | none ↦ none
  | some (key, value) ↦
      if not (eq_ignore_ascii_case (trim key) (lit "for")) then none else parse_ip_candidate value
]

unfoldable pub forwarded_header_ip : Headers → Option IpAddr
unfolding find_map part_ip
forwarded_header_ip headers =
    from_header
      (λ value. find_map (λ entry. find_map part_ip (split b';' entry)) (split b',' value))
      (headers (lit "forwarded"))

unfoldable pub forwarded_ip : Headers → Option IpAddr
unfolding header_ip x_forwarded_for_ip forwarded_header_ip
forwarded_ip headers = or_else (header_ip headers (lit "cf-connecting-ip")) (
    or_else (header_ip headers (lit "true-client-ip")) (
      or_else (x_forwarded_for_ip headers)
        (or_else (header_ip headers (lit "x-real-ip")) (forwarded_header_ip headers))))

-- The masks, as shifts of words of 32 and of 128 bits.
unfoldable pub prefix_mask_v4 : ℕ → ℕ
prefix_mask_v4 prefix = if prefix == 0 then 0 else (2 ^ 32 - 1) * 2 ^ (32 - prefix) % 2 ^ 32

unfoldable pub prefix_mask_v6 : ℕ → ℕ
prefix_mask_v6 prefix = if prefix == 0 then 0 else (2 ^ 128 - 1) * 2 ^ (128 - prefix) % 2 ^ 128

pub record TrustedProxy : Type 0 where
  pub network : IpAddr
  pub prefix : ℕ

unfoldable pub contains : TrustedProxy → IpAddr → Bool
unfolding prefix_mask_v4 prefix_mask_v6
contains proxy ip = elim proxy.network [
  | v4 network ↦ elim ip [
    | v4 address ↦
        bit_and network (prefix_mask_v4 proxy.prefix)
        == bit_and address (prefix_mask_v4 proxy.prefix)
    | v6 address ↦ false
  ]
  | v6 network ↦ elim ip [
    | v4 address ↦ false
    | v6 address ↦
        bit_and network (prefix_mask_v6 proxy.prefix)
        == bit_and address (prefix_mask_v6 proxy.prefix)
  ]
]

-- One constructor for each message, with the text that it prints.
pub data ProxyError : Type 0 where
  invalid_ip invalid_address invalid_prefix invalid_v4 invalid_v6 : Str → ProxyError

-- `str::parse::<u8>`
unfoldable pub parse_u8 : Str → Option ℕ
parse_u8 text =
    let unsigned : Str = elim (strip_prefix (lit "+") text) [ none ↦ text | some rest ↦ rest ] in
    let (value, count, rest) = read_digits 10 0 0 unsigned in
    if count == 0 || ltb 255 value || not (is_empty rest) then none else some value

abbrev pub whole_prefix : IpAddr → ℕ
whole_prefix (v4 address) = 32
whole_prefix (v6 address) = 128

abbrev pub check_prefix : Str → IpAddr → ℕ → Result ProxyError (Unit {0})
check_prefix text (v4 address) prefix = bail_if (ltb 32 prefix) (invalid_v4 text)
check_prefix text (v6 address) prefix = bail_if (ltb 128 prefix) (invalid_v6 text)

-- The two cases of `TrustedProxy::parse`
unfoldable pub proxy_of : Str → Option (Str × Str) → Result ProxyError TrustedProxy
unfolding parse_u8
proxy_of value none = ok_or (parse_ip value) (invalid_ip value) >>= λ ip.
    ok (record { network = ip; prefix = whole_prefix ip })
proxy_of value (some (ip, prefix)) = ok_or (parse_ip ip) (invalid_address value) >>= λ network.
    ok_or (parse_u8 prefix) (invalid_prefix value) >>= λ prefix'.
    check_prefix value network prefix' >> ok (record { network = network; prefix = prefix' })

unfoldable pub parse_proxy : Str → Result ProxyError TrustedProxy
unfolding proxy_of
parse_proxy value = proxy_of value (split_once (λ c. c == b'/') value)

unfoldable pub parse_entries : List Str → Result ProxyError (List TrustedProxy)
unfolding parse_proxy
parse_entries [] = ok []
parse_entries (raw_entry ∷ more) =
    let later = parse_entries more in
    if is_empty (trim raw_entry)
    then later
    else parse_proxy (trim raw_entry) >>= λ proxy. later >>= λ proxies. ok (proxy ∷ proxies)

-- `TrustedProxies::parse`
unfoldable pub parse_proxies : Str → Result ProxyError (List TrustedProxy)
unfolding parse_entries
parse_proxies value = parse_entries (split b',' value)

unfoldable pub is_trusted : List TrustedProxy → IpAddr → Bool
unfolding contains
is_trusted proxies ip = any (λ proxy. contains proxy ip) proxies

unfoldable pub resolve : List TrustedProxy → Headers → IpAddr → IpAddr
unfolding is_trusted
resolve proxies headers peer_ip =
    if not (is_trusted proxies peer_ip)
    then peer_ip
    else elim (forwarded_ip headers) [ none ↦ peer_ip | some ip ↦ ip ]

-- `AppState::client_ip`
unfoldable pub client_ip : Bool → List TrustedProxy → Headers → IpAddr → IpAddr
unfolding resolve
client_ip trust_proxy_headers trusted_proxies headers peer_ip =
    if not trust_proxy_headers then peer_ip else resolve trusted_proxies headers peer_ip
