-- ===== src/Client/Trust.antt =====
-- Which peers may name another address as the client's (src/client/trusted.rs).
use rubix_redis_bridge.Prelude.{
  ℕ, zero, suc, ◌+◌, ◌-◌, ◌*◌, ◌/◌, ◌^◌, ◌≤◌, ◌<◌, ◌≡◌, ◌↔◌, refl, inl, inr, subst, Bool, true,
  ◌&&◌, arith, ◌==◌, ==_iff, Bool-cases, and_true,
}
use rubix_redis_bridge.Net.{IpAddr, v4, v6}
use rubix_redis_bridge.Net.Bits.{bit_and-mask_iff}
use rubix_redis_bridge.Net.Parse.Fits.{Fits}
use rubix_redis_bridge.Client.{prefix_mask_v4, prefix_mask_v6, TrustedProxy, contains, whole_prefix}

-- Both addresses are of one family, and agree in the leading bits of the prefix.
abbrev pub InNetwork : IpAddr → ℕ → IpAddr → Type 0
InNetwork (v4 network) prefix (v4 ip) = network / 2 ^ (32 - prefix) ≡ ip / 2 ^ (32 - prefix)
InNetwork (v6 network) prefix (v6 ip) = network / 2 ^ (128 - prefix) ≡ ip / 2 ^ (128 - prefix)
InNetwork (v4 network) prefix (v6 ip) = ⊥
InNetwork (v6 network) prefix (v4 ip) = ⊥

-- A prefix is no longer than its family's addresses.
pub record IsProxy (proxy : TrustedProxy) : Type 0 where
  pub fits : Fits proxy.network
  pub prefix_le : proxy.prefix ≤ whole_prefix proxy.network

holds_below : ℕ → (ℕ → Bool) → Bool
holds_below zero p = true
holds_below (suc n) p = p n && holds_below n p

at_below : (n : ℕ) (p : ℕ → Bool) (k : ℕ) → holds_below n p ≡ true → k < n → p k ≡ true
unfolding holds_below
at_below zero p k h lt = absurd (omega arith)
at_below (suc n) p k h lt =
    let (here, below) = and_true (p n) (holds_below n p) h in
    elim (Bool-cases (k == n)) [
      | inl e ↦ rw ((==_iff k n).0 e) here
      | inr e ↦ at_below n p k below (ground arith)
    ]

-- The masks are leading ones.
mask_v4 : (prefix : ℕ) → prefix ≤ 32 → prefix_mask_v4 prefix ≡ (2 ^ prefix - 1) * 2 ^ (32 - prefix)
unfolding prefix_mask_v4 holds_below
mask_v4 prefix h =
    (==_iff _ _).0
      (at_below 33 (λ p. prefix_mask_v4 p == (2 ^ p - 1) * 2 ^ (32 - p)) prefix refl (omega arith))

mask_v6 :
    (prefix : ℕ) → prefix ≤ 128 → prefix_mask_v6 prefix ≡ (2 ^ prefix - 1) * 2 ^ (128 - prefix)
unfolding prefix_mask_v6 holds_below
mask_v6 prefix h =
    (==_iff _ _).0 (
      at_below 129 (λ p. prefix_mask_v6 p == (2 ^ p - 1) * 2 ^ (128 - p)) prefix refl (omega arith))

widen : (a prefix width : ℕ) → prefix ≤ width → a < 2 ^ width → a < 2 ^ (prefix + (width - prefix))
widen a prefix width h lt =
    let e : width ≡ prefix + (width - prefix) = omega arith in subst (λ n. a < 2 ^ n) e lt

pub contains_iff :
    (proxy : TrustedProxy) (ip : IpAddr)
    → IsProxy proxy
    → Fits ip
    → (contains proxy ip ≡ true) ↔ InNetwork proxy.network proxy.prefix ip
unfolding contains
contains_iff proxy ip valid fits =
    by_family proxy.network ip proxy.prefix valid.fits fits valid.prefix_le
  where
    by_family :
        (network address : IpAddr) (prefix : ℕ)
        → Fits network
        → Fits address
        → prefix ≤ whole_prefix network
        → (contains (record { network = network; prefix = prefix }) address ≡ true)
          ↔ InNetwork network prefix address
    by_family (v4 n) (v4 a) prefix hn ha le =
        let (to, from) =
          bit_and-mask_iff prefix (32 - prefix) n a (widen n prefix 32 le hn)
            (widen a prefix 32 le ha) in
        rw (mask_v4 prefix le) ((λ h. to ((==_iff _ _).0 h)), (λ h. (==_iff _ _).1 (from h)))
    by_family (v6 n) (v6 a) prefix hn ha le =
        let (to, from) =
          bit_and-mask_iff prefix (128 - prefix) n a (widen n prefix 128 le hn)
            (widen a prefix 128 le ha) in
        rw (mask_v6 prefix le) ((λ h. to ((==_iff _ _).0 h)), (λ h. (==_iff _ _).1 (from h)))
    by_family (v4 n) (v6 a) prefix hn ha le = ((λ h. cc), (λ h. absurd h))
    by_family (v6 n) (v4 a) prefix hn ha le = ((λ h. cc), (λ h. absurd h))
