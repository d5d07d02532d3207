-- ===== src/Net/Parse/Fits.antt =====
-- The addresses that `std::net` parses fit their words.
use rubix_redis_bridge.Prelude.{
  ℕ, zero, suc, ◌+◌, ◌-◌, ◌*◌, ◌^◌, ◌≤◌, ◌<◌, ◌≡◌, refl, inl, inr, subst, Bool, true, false, List,
  [], ◌∷◌, ◌++◌, Option, none, some, arith, ltb, ◌==◌, ==_iff, length, replicate, All, All-append,
  All-replicate, length-append, length-replicate, Bool-cases,
}
use rubix_redis_bridge.Text.{Str}
use rubix_redis_bridge.Net.{IpAddr, v4, v6}
use rubix_redis_bridge.Net.Parse.{
  then_read, read_digits, read_number, read_char, read_separator, read_octets, read_ipv4_addr,
  read_groups, next_groups, trailing_ipv4, filled, after_colons, after_head, of_groups,
  read_ipv6_addr, as_v4, as_v6, or_else, finished, parse_ip,
}

abbrev pub Fits : IpAddr → Type 0
Fits (v4 address) = address < 2 ^ 32
Fits (v6 address) = address < 2 ^ 128

then_read-some :
    {A B : Type 0} (o : Option (A × Str)) (next : A → Str → Option B) (b : B)
    → then_read o next ≡ some b
    → (a : A) × (rest : Str) × (o ≡ some (a, rest)) × (next a rest ≡ some b)
then_read-some none next b h = cc
then_read-some (some (a, rest)) next b h = (a, rest, refl, h)

read_number-le :
    (radix : ℕ) (max_digits : Option ℕ) (most : ℕ) (padded : Bool) (s : Str) (value : ℕ)
    (rest : Str)
    → read_number radix max_digits most padded s ≡ some (value, rest)
    → value ≤ most
unfolding read_number
read_number-le radix max_digits most padded s value rest h =
    elim (Bool-cases (ltb most (read_digits radix 0 0 s).0)) [
      | inl over ↦ absurd (ground arith)
      | inr under ↦ ground arith
    ]

read_separator-inner :
    {A : Type 0} (separator index : ℕ) (inner : Str → Option (A × Str)) (s : Str) (a : A)
    (rest : Str)
    → read_separator separator index inner s ≡ some (a, rest)
    → (s' : Str) × (inner s' ≡ some (a, rest))
unfolding read_separator
read_separator-inner separator zero inner s a rest h = (s, h)
read_separator-inner separator (suc index) inner s a rest h =
    let (matched, s', e, inner_is) =
      then_read-some (read_char separator s) (λ m r. inner r) (a, rest) h in
    (s', inner_is)

-- A bound after some more digits of a base.
abbrev scale : ℕ → ℕ → ℕ → ℕ
scale base zero bound = bound
scale base (suc left) bound = scale base left (bound * base)

read_octets-lt :
    (left index value : ℕ) (s : Str) (address : ℕ) (rest : Str) (bound : ℕ)
    → value < bound
    → read_octets left index value s ≡ some (address, rest)
    → address < scale 256 left bound
unfolding read_octets
read_octets-lt zero index value s address rest bound lt h =
    let same : value ≡ address = cc in omega arith
read_octets-lt (suc left) index value s address rest bound lt h =
    let (octet, s', e, more) = then_read-some _ _ (address, rest) h in
    let (inner, octet_is) = read_separator-inner b'.' index _ s octet s' e in
    let octet_le = read_number-le 10 (some 3) 255 false inner octet s' octet_is in
    read_octets-lt left (suc index) (value * 256 + octet) s' address rest (bound * 256)
      (omega arith) more

read_ipv4_addr-lt :
    (s : Str) (address : ℕ) (rest : Str)
    → read_ipv4_addr s ≡ some (address, rest)
    → address < 2 ^ 32
unfolding read_ipv4_addr
read_ipv4_addr-lt s address rest h = read_octets-lt 4 0 0 s address rest 1 (omega arith) h

abbrev AreGroups : List ℕ → Type 0
AreGroups groups = All (λ group. group < 65536) groups

next_groups-AreGroups :
    (left : ℕ) (trailing group : Option (ℕ × Str)) (more : Str → List ℕ × Bool × Str) (s : Str)
    → ((address : ℕ) (rest : Str)
        → trailing ≡ some (address, rest)
        → (address < 2 ^ 32) × (1 ≤ left))
    → ((g : ℕ) (rest : Str) → group ≡ some (g, rest) → g < 65536)
    → ((rest : Str) → AreGroups (more rest).0 × (length (more rest).0 ≤ left))
    → AreGroups (next_groups trailing group more s).0
      × (length (next_groups trailing group more s).0 ≤ suc left)
unfolding next_groups
next_groups-AreGroups left (some (address, rest)) group more s t g m =
    let (lt, room) = t address rest refl in
    ((omega (arith, lt), (omega arith, tt)), omega (arith, room))
next_groups-AreGroups left none none more s t g m = (tt, omega arith)
next_groups-AreGroups left none (some (group, rest)) more s t g m =
    let (groups, shorter) = m rest in
    let lt = g group rest refl in ((lt, groups), omega (arith, shorter))

trailing_ipv4-lt :
    (left index : ℕ) (s : Str) (address : ℕ) (rest : Str)
    → trailing_ipv4 left index s ≡ some (address, rest)
    → (address < 2 ^ 32) × (1 ≤ left)
unfolding trailing_ipv4
trailing_ipv4-lt zero index s address rest h = cc
trailing_ipv4-lt (suc left) index s address rest h =
    let (s', is) = read_separator-inner b':' index read_ipv4_addr s address rest h in
    (read_ipv4_addr-lt s' address rest is, omega arith)

group-lt :
    (index : ℕ) (s : Str) (group : ℕ) (rest : Str)
    → read_separator b':' index (read_number 16 (some 4) 65535 true) s ≡ some (group, rest)
    → group < 65536
group-lt index s group rest h =
    let (s', is) = read_separator-inner b':' index _ s group rest h in
    let le = read_number-le 16 (some 4) 65535 true s' group rest is in omega (arith, le)

read_groups-AreGroups :
    (left index : ℕ) (s : Str)
    → AreGroups (read_groups left index s).0 × (length (read_groups left index s).0 ≤ left)
unfolding read_groups
read_groups-AreGroups zero index s = (tt, omega arith)
read_groups-AreGroups (suc left) index s =
    next_groups-AreGroups left (trailing_ipv4 left index s)
      (read_separator b':' index (read_number 16 (some 4) 65535 true) s)
      (λ rest. read_groups left (suc index) rest) s (trailing_ipv4-lt left index s)
      (group-lt index s) (read_groups-AreGroups left (suc index))

of_groups-lt :
    (groups : List ℕ) (value bound : ℕ)
    → value < bound
    → AreGroups groups
    → of_groups value groups < scale 65536 (length groups) bound
unfolding of_groups
of_groups-lt [] value bound lt h = lt
of_groups-lt (group ∷ groups) value bound lt h =
    of_groups-lt groups (value * 65536 + group) (bound * 65536) (omega (arith, h.0)) h.1

eight_groups :
    (groups : List ℕ) → length groups ≡ 8 → AreGroups groups → of_groups 0 groups < 2 ^ 128
eight_groups groups e h =
    subst (λ n. of_groups 0 groups < scale 65536 n 1) e (of_groups-lt groups 0 1 (omega arith) h)

filled-AreGroups :
    (head tail : List ℕ)
    → AreGroups head
    → AreGroups tail
    → length head + length tail ≤ 8
    → (length (filled head tail) ≡ 8) × AreGroups (filled head tail)
filled-AreGroups head tail h t le =
    let fill = 8 - length head - length tail in
    (
      omega (
        arith,
        length-append head (replicate fill 0 ++ tail),
        length-append (replicate fill 0) tail,
        length-replicate {A = ℕ} fill 0,
      ),
      All-append _ head (replicate fill 0 ++ tail) h
          (All-append _ (replicate fill 0) tail (All-replicate _ fill (omega arith)) t),
    )

after_colons-lt :
    (head : List ℕ) (s : Str) (address : ℕ) (rest : Str)
    → AreGroups head
    → length head < 8
    → after_colons head s ≡ some (address, rest)
    → address < 2 ^ 128
unfolding after_colons
after_colons-lt head s address rest groups lt h =
    let (first, s2, e, more) = then_read-some (read_char b':' s) _ (address, rest) h in
    let (second, s3, f, last) = then_read-some (read_char b':' s2) _ (address, rest) more in
    let (tail, le) = read_groups-AreGroups (8 - suc (length head)) 0 s3 in
    let (eight, all_groups) =
      filled-AreGroups head (read_groups (8 - suc (length head)) 0 s3).0 groups tail
        (omega arith) in
    let same : of_groups 0 (filled head (read_groups (8 - suc (length head)) 0 s3).0) ≡ address =
      cc in
    subst (λ n. n < 2 ^ 128) same (eight_groups _ eight all_groups)

after_head-lt :
    (head : List ℕ) (ends_ipv4 : Bool) (s : Str) (address : ℕ) (rest : Str)
    → AreGroups head
    → length head ≤ 8
    → after_head head ends_ipv4 s ≡ some (address, rest)
    → address < 2 ^ 128
unfolding after_head
after_head-lt head ends_ipv4 s address rest groups le h = elim (Bool-cases (length head == 8)) [
  | inl whole ↦
      let lt = eight_groups head ((==_iff (length head) 8).0 whole) groups in
      let same : of_groups 0 head ≡ address = ground (arith, h) in subst (λ n. n < 2 ^ 128) same lt
  | inr short ↦ elim (Bool-cases ends_ipv4) [
    | inl ends ↦ absurd (ground (arith, h))
    | inr open_end ↦
        let rest_is : after_colons head s ≡ some (address, rest) = ground (arith, h) in
        after_colons-lt head s address rest groups (ground arith) rest_is
  ]
]

read_ipv6_addr-lt :
    (s : Str) (address : ℕ) (rest : Str)
    → read_ipv6_addr s ≡ some (address, rest)
    → address < 2 ^ 128
unfolding read_ipv6_addr
read_ipv6_addr-lt s address rest h =
    let (groups, le) = read_groups-AreGroups 8 0 s in
    after_head-lt (read_groups 8 0 s).0 (read_groups 8 0 s).1 (read_groups 8 0 s).2 address rest
      groups le h

finished-some : {A : Type 0} (o : Option (A × Str)) (a : A) → finished o ≡ some a → o ≡ some (a, [])
finished-some none a h = cc
finished-some (some (b, [])) a h = let same : b ≡ a = cc in rw same refl
finished-some (some (b, c ∷ rest)) a h = cc

-- Every address that is parsed fits: 32 bits for IPv4, 128 bits for IPv6.
pub parse_ip-Fits : (s : Str) (ip : IpAddr) → parse_ip s ≡ some ip → Fits ip
unfolding parse_ip
parse_ip-Fits s ip h = by_v4 (read_ipv4_addr s) (read_ipv6_addr s) refl refl (finished-some _ ip h)
  where
    by_v4 :
        (o p : Option (ℕ × Str))
        → read_ipv4_addr s ≡ o
        → read_ipv6_addr s ≡ p
        → or_else (as_v4 o) (as_v6 p) ≡ some (ip, [])
        → Fits ip
    by_v4 (some (address, rest)) p e f k =
        let same : v4 address ≡ ip = cc in subst Fits same (read_ipv4_addr-lt s address rest e)
    by_v4 none (some (address, rest)) e f k =
        let same : v6 address ≡ ip = cc in subst Fits same (read_ipv6_addr-lt s address rest f)
    by_v4 none none e f k = cc
