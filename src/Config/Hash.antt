-- ===== src/Config/Hash.antt =====
-- src/config/hash.rs: the digests that stand for tokens. The hex decoder is the hex crate's.
use rubix_redis_bridge.Prelude.{
  ℕ, ◌≡◌, ◌↔◌, Bool, true, ◌*◌, not, List, Option, Result, ok, ◌>>=◌, ◌>>◌, bail_if, ok_or, ◌==◌,
  arith, Equality, list_eq, nat_eq,
}
use rubix_redis_bridge.Text.{Str, trim, utf8_len}

pub record TokenHash : Type 0 where
  pub digest : List ℕ

-- The derived `Eq`
unfoldable pub hash_same : TokenHash → TokenHash → Bool
hash_same a b = (list_eq {A = ℕ}).same a.digest b.digest

pub hash_decides : (a b : TokenHash) → (hash_same a b ≡ true) ↔ (a ≡ b)
unfolding hash_same
hash_decides a b = ground (arith, (list_eq {A = ℕ}).decides a.digest b.digest)

instance unfoldable pub hash_eq : Equality TokenHash
unfolding hash_same
hash_eq = record { same = hash_same; decides = hash_decides }

pub data HashError : Type 0 where
  digest_length not_hex : HashError

abbrev pub digest_bytes : ℕ
digest_bytes = 32

-- `hex_decode` is `hex::decode_to_slice`.
unfoldable pub hmac_sha256_parse : (Str → Option (List ℕ)) → Str → Result HashError TokenHash
hmac_sha256_parse hex_decode value = do
  let digits = trim value
  bail_if (not (utf8_len digits == digest_bytes * 2)) digest_length
  digest ← ok_or (hex_decode digits) not_hex
  ok (record { digest = digest })
