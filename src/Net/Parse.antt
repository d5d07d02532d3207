-- ===== src/Net/Parse.antt =====
-- The parsers of `std::net` for addresses, with and without a port. A parser takes a text and returns
-- what it has read and the rest.
pub mod Fits
use rubix_redis_bridge.Prelude.{
  ℕ, zero, suc, ◌+◌, ◌-◌, ◌*◌, ◌/◌, ◌%◌, ◌^◌, Bool, true, false, not, ◌&&◌, ◌||◌, List, [], ◌∷◌,
  ◌++◌, Option, none, some, ltb, leb, ◌==◌, length, replicate, if◌then◌else◌,
}
use rubix_redis_bridge.Text.{Str}
use rubix_redis_bridge.Net.{IpAddr, v4, v6}

abbrev pub then_read : {A B : Type 0} → Option (A × Str) → (A → Str → Option B) → Option B
then_read none next = none
then_read (some (a, rest)) next = next a rest

-- `char::to_digit`
unfoldable pub to_digit : ℕ → ℕ → Option ℕ
to_digit radix c =
    let value =
      if leb b'0' c && leb c b'9'
      then c - b'0'
      else if leb b'a' c && leb c b'z'
      then c - b'a' + 10
      else if leb b'A' c && leb c b'Z'
      then c - b'A' + 10
      else 36 in
    if ltb value radix then some value else none

-- The digits at the front: their value, how many there are, and the rest.
unfoldable pub read_digits : ℕ → ℕ → ℕ → Str → ℕ × ℕ × Str
unfolding to_digit
read_digits radix value count [] = (value, count, [])
read_digits radix value count (c ∷ s) = elim (to_digit radix c) [
  | none ↦ (value, count, c ∷ s)
  | some digit ↦ read_digits radix (value * radix + digit) (suc count) s
]

unfoldable pub starts_with_zero : Str → Bool
starts_with_zero [] = false
starts_with_zero (c ∷ s) = c == b'0'

abbrev pub too_many : Option ℕ → ℕ → Bool
too_many none count = false
too_many (some max_digits) count = ltb max_digits count

-- `read_number`, into a type whose greatest value is `most`; as the value only grows with each digit,
-- it overflows exactly if it is too great at the end.
unfoldable pub read_number : ℕ → Option ℕ → ℕ → Bool → Str → Option (ℕ × Str)
unfolding read_digits
read_number radix max_digits most allow_zero_prefix s =
    let (value, count, rest) = read_digits radix 0 0 s in
    if count == 0
      || too_many max_digits count
      || ltb most value
      || not allow_zero_prefix && starts_with_zero s && ltb 1 count
    then none
    else some (value, rest)

-- `read_given_char`
unfoldable pub read_char : ℕ → Str → Option (Unit {0} × Str)
read_char given [] = none
read_char given (c ∷ s) = if c == given then some (tt, s) else none

unfoldable pub read_separator :
    {A : Type 0} → ℕ → ℕ → (Str → Option (A × Str)) → Str → Option (A × Str)
unfolding read_char
read_separator separator zero inner s = inner s
read_separator separator (suc index) inner s =
    then_read (read_char separator s) (λ matched rest. inner rest)

-- The loop of `read_ipv4_addr`, with the number of octets left.
unfoldable pub read_octets : ℕ → ℕ → ℕ → Str → Option (ℕ × Str)
unfolding read_separator read_number
read_octets zero index value s = some (value, s)
read_octets (suc left) index value s =
    then_read (read_separator b'.' index (read_number 10 (some 3) 255 false) s)
      (λ octet rest. read_octets left (suc index) (value * 256 + octet) rest)

unfoldable pub read_ipv4_addr : Str → Option (ℕ × Str)
unfolding read_octets
read_ipv4_addr s = read_octets 4 0 0 s

-- A round of `read_groups`: a trailing IPv4 address, or else a group and the rounds after it.
unfoldable pub next_groups :
    Option (ℕ × Str) → Option (ℕ × Str) → (Str → List ℕ × Bool × Str) → Str → List ℕ × Bool × Str
next_groups (some (address, rest)) group more s =
    (address / 65536 ∷ address % 65536 ∷ [], true, rest)
next_groups none none more s = ([], false, s)
next_groups none (some (group, rest)) more s =
    let (groups, ends_ipv4, rest') = more rest in (group ∷ groups, ends_ipv4, rest')

-- An IPv4 address takes the place of two groups.
unfoldable pub trailing_ipv4 : ℕ → ℕ → Str → Option (ℕ × Str)
unfolding read_ipv4_addr read_separator
trailing_ipv4 zero index s = none
trailing_ipv4 (suc left) index s = read_separator b':' index read_ipv4_addr s

-- `read_groups`: the groups, whether an IPv4 address ends them, and the rest.
unfoldable pub read_groups : ℕ → ℕ → Str → List ℕ × Bool × Str
unfolding next_groups trailing_ipv4 read_separator read_number
read_groups zero index s = ([], false, s)
read_groups (suc left) index s =
    next_groups (trailing_ipv4 left index s)
      (read_separator b':' index (read_number 16 (some 4) 65535 true) s)
      (λ rest. read_groups left (suc index) rest) s

-- The number that groups of 16 bits make.
unfoldable pub of_groups : ℕ → List ℕ → ℕ
of_groups value [] = value
of_groups value (group ∷ groups) = of_groups (value * 65536 + group) groups

-- The groups on both sides of `::`.
abbrev pub filled : List ℕ → List ℕ → List ℕ
filled head tail = head ++ (replicate (8 - length head - length tail) 0 ++ tail)

unfoldable pub after_colons : List ℕ → Str → Option (ℕ × Str)
unfolding read_groups read_char of_groups
after_colons head s = then_read (read_char b':' s) (λ first s2.
    then_read (read_char b':' s2) (λ second s3.
      let (tail, tail_ipv4, s4) = read_groups (8 - suc (length head)) 0 s3 in
      some (of_groups 0 (filled head tail), s4)))

unfoldable pub after_head : List ℕ → Bool → Str → Option (ℕ × Str)
unfolding after_colons of_groups
after_head head ends_ipv4 s =
    if length head == 8
    then some (of_groups 0 head, s)
    else if ends_ipv4
    then none
    else after_colons head s

unfoldable pub read_ipv6_addr : Str → Option (ℕ × Str)
unfolding after_head
read_ipv6_addr s = let (head, ends_ipv4, rest) = read_groups 8 0 s in after_head head ends_ipv4 rest

abbrev pub as_v4 : Option (ℕ × Str) → Option (IpAddr × Str)
as_v4 none = none
as_v4 (some (address, rest)) = some (v4 address, rest)

abbrev pub as_v6 : Option (ℕ × Str) → Option (IpAddr × Str)
as_v6 none = none
as_v6 (some (address, rest)) = some (v6 address, rest)

abbrev pub or_else : {A : Type 0} → Option A → Option A → Option A
or_else none later = later
or_else (some a) later = some a

-- `parse_with`: nothing may be left.
abbrev pub finished : {A : Type 0} → Option (A × Str) → Option A
finished none = none
finished (some (a, [])) = some a
finished (some (a, c ∷ rest)) = none

-- `str::parse::<IpAddr>`
unfoldable pub parse_ip : Str → Option IpAddr
unfolding read_ipv4_addr read_ipv6_addr
parse_ip s = finished (or_else (as_v4 (read_ipv4_addr s)) (as_v6 (read_ipv6_addr s)))

unfoldable pub read_port : Str → Option (ℕ × Str)
unfolding read_char read_number
read_port s = then_read (read_char b':' s) (λ colon rest. read_number 10 none 65535 true rest)

-- `read_scope_id`, whose absence is no error.
unfoldable pub skip_scope_id : Str → Str
unfolding read_char read_number
skip_scope_id s =
    elim (then_read (read_char b'%' s)
      (λ percent rest. read_number 10 none (2 ^ 32 - 1) true rest)) [
        | none ↦ s
        | some (scope, rest) ↦ rest
      ]

-- `str::parse::<SocketAddr>`, of which the source takes the address.
unfoldable pub socket_ip : Str → Option IpAddr
unfolding read_ipv4_addr read_ipv6_addr read_port skip_scope_id
socket_ip s = finished (
    or_else
      (then_read (as_v4 (read_ipv4_addr s))
        (λ ip rest. then_read (read_port rest) (λ port rest'. some (ip, rest'))))
      (then_read (read_char b'[' s) (λ opened s1. then_read (as_v6 (read_ipv6_addr s1)) (λ ip s2.
        then_read (read_char b']' (skip_scope_id s2))
          (λ closed s3. then_read (read_port s3) (λ port s4. some (ip, s4)))))))
