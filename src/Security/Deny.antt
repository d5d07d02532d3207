-- ===== src/Security/Deny.antt =====
-- src/security/deny.rs: the hard-denied commands, and who is excepted.
use rubix_redis_bridge.Prelude.{
  Bool, false, ◌&&◌, Result, bail_if, contains, list_eq, nat_eq, if◌then◌else◌,
}
use rubix_redis_bridge.Text.{Str}
use rubix_redis_bridge.Commands.{denied_commands, ratelimit_commands, realtime_commands}
use rubix_redis_bridge.Security.Types.{PolicyError, hard_denied}

-- The sets of deny.rs are the tables of commands.rs.
unfoldable pub is_denied_command : Str → Bool → Bool → Bool
is_denied_command command_name allow_ratelimit allow_realtime =
    if allow_ratelimit && contains ratelimit_commands command_name
    then false
    else if allow_realtime && contains realtime_commands command_name
    then false
    else contains denied_commands command_name

unfoldable pub reject_command : Str → Bool → Bool → Result PolicyError (Unit {0})
reject_command command_name allow_ratelimit allow_realtime =
    bail_if (is_denied_command command_name allow_ratelimit allow_realtime)
      (hard_denied command_name)
