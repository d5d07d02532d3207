-- ===== src/Client/Spoofing.antt =====
-- Who decides the address that a request is accounted to (src/client/trusted.rs, src/app/state.rs).
use rubix_redis_bridge.Prelude.{
  ℕ, ◌≡◌, ◌≢◌, refl, inl, inr, subst, Bool, true, false, List, [], ◌∷◌, Option, none, some, Result,
  ok, arith, ltb, any, is_empty, Mem, All, Bool-cases, Option-cases, >>=-eq-ok, ◌>>=◌, ◌>>◌, ok_or,
}
use mathlib.Core.List.{mem-cons_self, mem-cons_of_mem}
use rubix_redis_bridge.Text.{Str, split, trim}
use rubix_redis_bridge.Net.{IpAddr, v4, v6}
use rubix_redis_bridge.Net.Parse.{parse_ip}
use rubix_redis_bridge.Net.Parse.Fits.{Fits, parse_ip-Fits}
use rubix_redis_bridge.Client.{
  Headers, TrustedProxy, contains, ProxyError, proxy_of, parse_proxy, parse_entries, parse_proxies,
  parse_u8, check_prefix, whole_prefix, is_trusted, forwarded_ip, resolve, client_ip,
}
use rubix_redis_bridge.Client.Trust.{InNetwork, IsProxy, contains_iff}

ok_or-ok : {A : Type 0} (o : Option A) (e : ProxyError) (a : A) → ok_or o e ≡ ok a → o ≡ some a
ok_or-ok none e a h = cc
ok_or-ok (some b) e a h = let same : b ≡ a = cc in rw same refl

whole-IsProxy :
    (ip : IpAddr) → Fits ip → IsProxy (record { network = ip; prefix = whole_prefix ip })
whole-IsProxy (v4 a) h = record { fits = h; prefix_le = omega arith }
whole-IsProxy (v6 a) h = record { fits = h; prefix_le = omega arith }

check_prefix-le :
    (text : Str) (ip : IpAddr) (prefix : ℕ) (proxy : TrustedProxy)
    → (check_prefix text ip prefix >> ok (record { network = ip; prefix = prefix })) ≡ ok proxy
    → Fits ip
    → IsProxy proxy
check_prefix-le text (v4 a) prefix proxy h fits = elim (Bool-cases (ltb 32 prefix)) [
  | inl over ↦ absurd (ground (arith, h))
  | inr under ↦
      let same : ◌≡◌ {A = Result ProxyError TrustedProxy}
          (ok (record { network = v4 a; prefix = prefix })) (ok proxy) =
        ground (arith, h) in
      let is : record { network = v4 a; prefix = prefix } ≡ proxy = cc in
      subst IsProxy is (record { fits = fits; prefix_le = ground arith })
]
check_prefix-le text (v6 a) prefix proxy h fits = elim (Bool-cases (ltb 128 prefix)) [
  | inl over ↦ absurd (ground (arith, h))
  | inr under ↦
      let same : ◌≡◌ {A = Result ProxyError TrustedProxy}
          (ok (record { network = v6 a; prefix = prefix })) (ok proxy) =
        ground (arith, h) in
      let is : record { network = v6 a; prefix = prefix } ≡ proxy = cc in
      subst IsProxy is (record { fits = fits; prefix_le = ground arith })
]

proxy_of-IsProxy :
    (text : Str) (cut : Option (Str × Str)) (proxy : TrustedProxy)
    → proxy_of text cut ≡ ok proxy
    → IsProxy proxy
unfolding proxy_of
proxy_of-IsProxy text none proxy h =
    let (ip, parsed, is) = >>=-eq-ok (ok_or (parse_ip text) _) _ h in
    let same : record { network = ip; prefix = whole_prefix ip } ≡ proxy = cc in
    subst IsProxy same
      (whole-IsProxy ip (parse_ip-Fits text ip (ok_or-ok (parse_ip text) _ ip parsed)))
proxy_of-IsProxy text (some (ip_text, prefix_text)) proxy h =
    let (ip, parsed, more) = >>=-eq-ok (ok_or (parse_ip ip_text) _) _ h in
    let (prefix, counted, checked) = >>=-eq-ok (ok_or (parse_u8 prefix_text) _) _ more in
    check_prefix-le text ip prefix proxy checked
      (parse_ip-Fits ip_text ip (ok_or-ok (parse_ip ip_text) _ ip parsed))

parse_entries-IsProxy :
    (entries : List Str) (proxies : List TrustedProxy)
    → parse_entries entries ≡ ok proxies
    → All IsProxy proxies
unfolding parse_entries parse_proxy
parse_entries-IsProxy [] proxies h = let same : [] ≡ proxies = cc in rw (← same) tt
parse_entries-IsProxy (raw_entry ∷ more) proxies h = elim (Bool-cases (is_empty (trim raw_entry))) [
  | inl blank ↦ parse_entries-IsProxy more proxies (ground (arith, h))
  | inr filled ↦
      let read : (parse_proxy (trim raw_entry) >>= λ proxy.
      parse_entries more >>= λ later. ok (proxy ∷ later))
          ≡ ok proxies =
        ground (arith, h) in
      let (proxy, first, rest) = >>=-eq-ok (parse_proxy (trim raw_entry)) _ read in
      let (later, others, is) = >>=-eq-ok (parse_entries more) _ rest in
      let same : proxy ∷ later ≡ proxies = cc in
      subst (All IsProxy) same
        (proxy_of-IsProxy (trim raw_entry) _ proxy first, parse_entries-IsProxy more later others)
]

pub parse_proxies-IsProxy :
    (setting : Str) (proxies : List TrustedProxy)
    → parse_proxies setting ≡ ok proxies
    → All IsProxy proxies
unfolding parse_proxies
parse_proxies-IsProxy setting proxies h = parse_entries-IsProxy (split b',' setting) proxies h

any_iff :
    (proxies : List TrustedProxy) (ip : IpAddr)
    → All IsProxy proxies
    → Fits ip
    → any (λ proxy. contains proxy ip) proxies ≡ true
    → (proxy : TrustedProxy) × Mem proxy proxies × InNetwork proxy.network proxy.prefix ip
any_iff [] ip valid fits h = cc
any_iff (proxy ∷ proxies) ip valid fits h = elim (Bool-cases (contains proxy ip)) [
  | inl inside_one ↦ (proxy, mem-cons_self, (contains_iff proxy ip valid.0 fits).0 inside_one)
  | inr outside ↦
      let (other, member, inside) = any_iff proxies ip valid.1 fits (ground (arith, h)) in
      (other, mem-cons_of_mem proxy member, inside)
]

-- No peer but a trusted proxy decides the address that a request is accounted to. Take trusted proxies
-- as the setting is parsed, and a peer's address that fits its words. If the address taken for the
-- client is another one than the peer's, then proxy headers are enabled, the peer lies in the network
-- of one of the proxies, which means that it is of its family and agrees with it in the leading bits of
-- its prefix, and the address taken is the one that the headers forward.
pub client_ip_trusted :
    (setting : Str) (proxies : List TrustedProxy) (trust_proxy_headers : Bool) (headers : Headers)
    (peer : IpAddr)
    → parse_proxies setting ≡ ok proxies
    → Fits peer
    → client_ip trust_proxy_headers proxies headers peer ≢ peer
    → (trust_proxy_headers ≡ true)
      × (forwarded_ip headers ≡ some (client_ip trust_proxy_headers proxies headers peer))
      × ((proxy : TrustedProxy) × Mem proxy proxies × InNetwork proxy.network proxy.prefix peer)
unfolding client_ip resolve is_trusted
client_ip_trusted setting proxies false headers peer parsed fits differs = absurd (differs refl)
client_ip_trusted setting proxies true headers peer parsed fits differs =
    elim (Bool-cases (any (λ proxy. contains proxy peer) proxies)) [
      | inr outside ↦ absurd (differs (rw outside refl))
      | inl inside_one ↦ elim (Option-cases (forwarded_ip headers)) [
        | inl e ↦ absurd (differs (rw inside_one (rw e refl)))
        | inr (ip, e) ↦ (
          refl,
          rw inside_one (rw e refl),
          any_iff proxies peer (parse_proxies-IsProxy setting proxies parsed) fits inside_one,
        )
      ]
    ]
