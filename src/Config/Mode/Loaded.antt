-- ===== src/Config/Mode/Loaded.antt =====
-- What every mode promises of the targets.
use rubix_redis_bridge.Prelude.{
  ℕ, ◌≡◌, ◌≢◌, inl, inr, refl, true, List, [], ◌∷◌, Option, none, some, ok, >>=-eq-ok, arith, ok_or,
  map_err, Bool-cases, contains, list_eq, nat_eq,
}
use rubix_redis_bridge.Text.{Str, lit, str_eq}
use rubix_redis_bridge.Config.Hash.{TokenHash, hash_eq}
use rubix_redis_bridge.Config.Env.{Variable, parse_usize, parse_env_first, env_first, env_or}
use rubix_redis_bridge.Config.Types.{
  AuthToken, Redis, FileConfig, token_required, connection_string_required, env_error,
}
use rubix_redis_bridge.Config.Targets.{trimmed}
use rubix_redis_bridge.Config.Targets.Adding.{IsUsable, hashes_of}
use rubix_redis_bridge.Config.Targets.Sound.{IsConfigured, parse_file_targets-IsConfigured}
use rubix_redis_bridge.Config.Mode.{
  default_operation_limit, default_connection_shards, env_token_type, load_env_target,
  load_file_targets, load_targets,
}

trimmed-some : (s : Option Str) (t : Str) → trimmed s ≡ some t → t ≢ []
unfolding trimmed
trimmed-some none t h = cc
trimmed-some (some s) t h = ground arith

ok_or-some :
    {E : Type 0} {A : Type 0} (o : Option A) (e : E) (a : A) → ok_or o e ≡ ok a → o ≡ some a
ok_or-some none e a h = cc
ok_or-some (some b) e a h = cc

-- One target with one enabled token.
one_target-IsConfigured :
    (target : Redis) (token : AuthToken)
    → target.tokens ≡ token ∷ []
    → token.enabled ≡ true
    → IsUsable target
    → IsConfigured (target ∷ [])
unfolding hashes_of contains
one_target-IsConfigured target token tokens_are on usable = record {
  some_target = λ e. cc;
  each = (usable, tt);
  distinct_rrb_ids = (refl, tt);
  distinct_token_ids = rw tokens_are (refl, tt);
  distinct_hashes = rw (tokens_are, on) (refl, tt);
}

module _ (var : Str → Variable) where
  load_env_target-IsConfigured :
      (sha256 : Str → TokenHash) (targets : List Redis)
      → load_env_target var sha256 ≡ ok targets
      → IsConfigured targets
  unfolding load_env_target
  load_env_target-IsConfigured sha256 targets h =
      let (token, given, h1) =
        >>=-eq-ok (ok_or (trimmed (env_first var (lit "RRB_TOKEN" ∷ []))) token_required) _ h in
      let (url, url_given, h2) =
        >>=-eq-ok
          (ok_or (trimmed (env_first var (lit "RRB_CONNECTION_STRING" ∷ lit "REDIS_URL" ∷ [])))
            connection_string_required)
          _ h1 in
      let (operations, read, h3) =
        >>=-eq-ok
          (map_err env_error (
            parse_env_first parse_usize var (lit "RRB_OPERATION_LIMIT" ∷ [])
              default_operation_limit))
          _ h2 in
      let (shards, read', h4) =
        >>=-eq-ok
          (map_err env_error (
            parse_env_first parse_usize var (lit "RRB_CONNECTION_SHARDS" ∷ [])
              default_connection_shards))
          _ h3 in
      let (caps, parsed, h5) =
        >>=-eq-ok (env_token_type (env_first var (lit "RRB_TOKEN_TYPE" ∷ []))) _ h4 in
      let token' : AuthToken = record {
        id = lit "env";
        name = some (lit "Environment token");
        hash = sha256 token;
        enabled = true;
        token_type = caps;
      } in
      let target : Redis = record {
        rrb_id = lit "env";
        connection_string = url;
        operation_limit = operations;
        connection_shards = shards;
        tokens = token' ∷ [];
      } in
      let all : targets ≡ target ∷ [] = ground arith in
      rw all (
        one_target-IsConfigured target token' refl refl (record {
          has_operations = ground arith;
          has_shards = ground arith;
          has_id = unfold lit in λ e. cc;
          has_connection_string = trimmed-some _ url (ok_or-some _ _ url url_given);
          has_token = refl;
        }))

  module _ (read_to_string : Str → Option Str) (from_str : Str → Option FileConfig) where
    load_file_targets-IsConfigured :
        (hex_decode : Str → Option (List ℕ)) (targets : List Redis)
        → load_file_targets var read_to_string from_str hex_decode ≡ ok targets
        → IsConfigured targets
    unfolding load_file_targets
    load_file_targets-IsConfigured hex_decode targets h =
        let (contents, opened, parsed) = >>=-eq-ok (ok_or (read_to_string _) _) _ h in
        parse_file_targets-IsConfigured hex_decode from_str contents _ targets parsed

    -- In every mode, targets that are loaded are at least one, each with an id, a connection string,
    -- positive limits and an enabled token; no two targets and no two tokens share an id, and no two
    -- enabled tokens a hash.
    pub load_targets-IsConfigured :
        (sha256 : Str → TokenHash) (hex_decode : Str → Option (List ℕ)) (targets : List Redis)
        → load_targets var read_to_string from_str sha256 hex_decode ≡ ok targets
        → IsConfigured targets
    unfolding load_targets
    load_targets-IsConfigured sha256 hex_decode targets h =
        let mode = env_or var (lit "RRB_MODE") (lit "file") in
        elim (Bool-cases (str_eq mode (lit "env"))) [
          | inl env ↦ load_env_target-IsConfigured sha256 targets (ground arith)
          | inr other ↦ elim (Bool-cases (str_eq mode (lit "file"))) [
            | inl file ↦
                let loaded : load_file_targets var read_to_string from_str hex_decode ≡ ok targets =
                  ground arith in
                load_file_targets-IsConfigured hex_decode targets loaded
            | inr neither ↦ absurd (ground arith)
          ]
        ]
