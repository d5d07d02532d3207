-- ===== src/Commands.antt =====
-- src/commands.rs: the command tables of the bridge.
use Prim.Native.String.{String}
use rubix_redis_bridge.Prelude.{List, [], ◌∷◌, map}
use rubix_redis_bridge.Text.{Str, lit}

allowed_commands_names : List String
allowed_commands_names =
    "APPEND" ∷ "BITCOUNT" ∷ "BITOP" ∷ "BITPOS" ∷ "DECR" ∷ "DECRBY" ∷ "DEL" ∷ "EXISTS" ∷ "EXPIRE"
    ∷ "EXPIREAT" ∷ "GET" ∷ "GETBIT" ∷ "GETDEL" ∷ "GETEX" ∷ "GETRANGE" ∷ "GETSET" ∷ "HDEL"
    ∷ "HEXISTS" ∷ "HGET" ∷ "HGETALL" ∷ "HINCRBY" ∷ "HINCRBYFLOAT" ∷ "HKEYS" ∷ "HLEN" ∷ "HMGET"
    ∷ "HMSET" ∷ "HRANDFIELD" ∷ "HSCAN" ∷ "HSET" ∷ "HSETNX" ∷ "HSTRLEN" ∷ "HVALS" ∷ "INCR" ∷ "INCRBY"
    ∷ "INCRBYFLOAT" ∷ "LINDEX" ∷ "LLEN" ∷ "LMOVE" ∷ "LPOP" ∷ "LPOS" ∷ "LPUSH" ∷ "LRANGE" ∷ "LREM"
    ∷ "LSET" ∷ "LTRIM" ∷ "MGET" ∷ "MSET" ∷ "MSETNX" ∷ "PERSIST" ∷ "PEXPIRE" ∷ "PEXPIREAT" ∷ "PFADD"
    ∷ "PFCOUNT" ∷ "PFMERGE" ∷ "PING" ∷ "PSETEX" ∷ "PTTL" ∷ "RPOP" ∷ "RPOPLPUSH" ∷ "RPUSH" ∷ "SADD"
    ∷ "SCAN" ∷ "SCARD" ∷ "SDIFF" ∷ "SDIFFSTORE" ∷ "SET" ∷ "SETBIT" ∷ "SETEX" ∷ "SETNX" ∷ "SETRANGE"
    ∷ "SINTER" ∷ "SINTERSTORE" ∷ "SISMEMBER" ∷ "SMEMBERS" ∷ "SMISMEMBER" ∷ "SMOVE" ∷ "SPOP"
    ∷ "SRANDMEMBER" ∷ "SREM" ∷ "SSCAN" ∷ "STRLEN" ∷ "SUNION" ∷ "SUNIONSTORE" ∷ "TTL" ∷ "TYPE"
    ∷ "UNLINK" ∷ "XADD" ∷ "XDEL" ∷ "XLEN" ∷ "XRANGE" ∷ "XREVRANGE" ∷ "XTRIM" ∷ "ZADD" ∷ "ZCARD"
    ∷ "ZCOUNT" ∷ "ZDIFF" ∷ "ZDIFFSTORE" ∷ "ZINCRBY" ∷ "ZINTER" ∷ "ZINTERSTORE" ∷ "ZLEXCOUNT"
    ∷ "ZMSCORE" ∷ "ZPOPMAX" ∷ "ZPOPMIN" ∷ "ZRANGE" ∷ "ZRANGEBYLEX" ∷ "ZRANGEBYSCORE" ∷ "ZRANK"
    ∷ "ZREM" ∷ "ZREMRANGEBYLEX" ∷ "ZREMRANGEBYRANK" ∷ "ZREMRANGEBYSCORE" ∷ "ZREVRANGE"
    ∷ "ZREVRANGEBYLEX" ∷ "ZREVRANGEBYSCORE" ∷ "ZREVRANK" ∷ "ZSCAN" ∷ "ZSCORE" ∷ "ZUNION"
    ∷ "ZUNIONSTORE" ∷ []

unfoldable pub allowed_commands : List Str
unfolding allowed_commands_names
allowed_commands = map lit allowed_commands_names

denied_commands_names : List String
denied_commands_names =
    "EVAL" ∷ "EVAL_RO" ∷ "EVALSHA" ∷ "EVALSHA_RO" ∷ "FCALL" ∷ "FCALL_RO" ∷ "FUNCTION" ∷ "SCRIPT"
    ∷ "ACL" ∷ "CLIENT" ∷ "CLUSTER" ∷ "COMMAND" ∷ "CONFIG" ∷ "MODULE" ∷ "XGROUP" ∷ "ASKING" ∷ "AUTH"
    ∷ "HELLO" ∷ "QUIT" ∷ "READONLY" ∷ "READWRITE" ∷ "RESET" ∷ "SELECT" ∷ "DISCARD" ∷ "EXEC"
    ∷ "MULTI" ∷ "UNWATCH" ∷ "WATCH" ∷ "BGREWRITEAOF" ∷ "BGSAVE" ∷ "BLMOVE" ∷ "BLMPOP" ∷ "BLPOP"
    ∷ "BRPOP" ∷ "BRPOPLPUSH" ∷ "BZPOPMAX" ∷ "BZPOPMIN" ∷ "BZMPOP" ∷ "DBSIZE" ∷ "DEBUG" ∷ "FLUSHALL"
    ∷ "FLUSHDB" ∷ "INFO" ∷ "KEYS" ∷ "LASTSAVE" ∷ "LATENCY" ∷ "MEMORY" ∷ "MIGRATE" ∷ "MONITOR"
    ∷ "PSUBSCRIBE" ∷ "PSYNC" ∷ "PUNSUBSCRIBE" ∷ "PUBLISH" ∷ "PUBSUB" ∷ "REPLCONF" ∷ "REPLICAOF"
    ∷ "RESTORE" ∷ "ROLE" ∷ "SAVE" ∷ "SHUTDOWN" ∷ "SLAVEOF" ∷ "SLOWLOG" ∷ "SORT" ∷ "SORT_RO"
    ∷ "SSUBSCRIBE" ∷ "SUNSUBSCRIBE" ∷ "SUBSCRIBE" ∷ "SWAPDB" ∷ "SYNC" ∷ "UNSUBSCRIBE" ∷ "WAIT"
    ∷ "WAITAOF" ∷ "XREAD" ∷ "XREADGROUP" ∷ []

unfoldable pub denied_commands : List Str
unfolding denied_commands_names
denied_commands = map lit denied_commands_names

ratelimit_commands_names : List String
ratelimit_commands_names = "EVAL" ∷ "EVALSHA" ∷ "SCRIPT" ∷ []

unfoldable pub ratelimit_commands : List Str
unfolding ratelimit_commands_names
ratelimit_commands = map lit ratelimit_commands_names

realtime_commands_names : List String
realtime_commands_names = "EXPIRE" ∷ "PUBLISH" ∷ "XADD" ∷ "XRANGE" ∷ []

unfoldable pub realtime_commands : List Str
unfolding realtime_commands_names
realtime_commands = map lit realtime_commands_names
