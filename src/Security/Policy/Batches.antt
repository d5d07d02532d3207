-- ===== src/Security/Policy/Batches.antt =====
-- Pipelines and transactions: `parse_command_list` (src/security/policy.rs).
use rubix_redis_bridge.Prelude.{◌≤◌, ◌≡◌, ◌↔◌, List, ok, arith, collect_iff, length, Forall₂}
use rubix_redis_bridge.Text.{Str}
use rubix_redis_bridge.Config.Token.{TokenCaps}
use rubix_redis_bridge.Security.Types.{CommandArg, RedisCommand}
use rubix_redis_bridge.Security.Policy.{
  SecurityPolicy, parse_command, parse_command_array, parse_command_list,
}
use rubix_redis_bridge.Security.Policy.Accepts.{Accepts}
use rubix_redis_bridge.Security.Policy.Parse.{parse_command_iff}

module _ {Number : Type 0} (number_to_string : Number → Str) (p : SecurityPolicy)
    (caps : TokenCaps) where
  -- A batch is accepted exactly if it is not too long and each of its arrays is accepted on its own;
  -- the commands then are those of the arrays, in order.
  pub parse_command_list_iff :
      (batch : List (List (CommandArg Number))) (cmds : List RedisCommand)
      → (parse_command_list number_to_string p batch caps ≡ ok cmds) ↔ (
          (length batch ≤ p.max_pipeline_commands)
          × Forall₂ (λ array cmd. Accepts number_to_string p array caps cmd) batch cmds)
  unfolding parse_command_list parse_command
  parse_command_list_iff batch cmds =
      let each =
        collect_iff {f = λ array. parse_command_array number_to_string p array caps}
          (λ array cmd. Accepts number_to_string p array caps cmd)
          (λ array cmd. parse_command_iff number_to_string p caps cmd array) batch cmds in
      (
        λ h. (ground arith, each.0 (ground arith)),
        λ (fits, all). let done = each.1 all in ground arith,
      )
