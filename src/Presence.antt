-- ===== src/Presence.antt =====
-- src/presence: the Redis cache of presence, the worker's own memory of it, and the counters.
use Prim.Native.String
use geofence_location.Prelude.{
  ℕ, String, Bool, true, false, Option, List, [], ◌∷◌, ◌+◌, Dict, lookup, insert,
}

-- What `redis.get` answers: no value, a JSON string array, another text, or an error.
pub data CacheReply : Type 0 where
  absent : CacheReply
  value : List ℕ → CacheReply
  malformed : CacheReply
  unavailable : CacheReply

-- The Redis server during one request: its answer to GET, and whether SET and DEL reach it.
pub record Redis : Type 0 where
  pub get_reply : String → CacheReply
  pub set_done : Bool
  pub del_done : Bool

pub data RedisCommand : Type 0 where
  redis_get : String → RedisCommand
  redis_set : String → List ℕ → ℕ → RedisCommand
  redis_del : String → RedisCommand

pub record RedisConfig : Type 0 where
  pub presence_ttl_empty_s : ℕ
  pub presence_ttl_non_empty_s : ℕ

pub data PresenceCacheRead : Type 0 where
  hit : List ℕ → PresenceCacheRead
  miss : PresenceCacheRead
  error : PresenceCacheRead

unfoldable pub key : String → String
key user_id = String.◌++◌ "presence:" user_id

-- `PresenceCacheService.get`, after its command: a text that does not parse throws into the catch
unfoldable pub read_reply : CacheReply → PresenceCacheRead
read_reply absent = miss
read_reply (value area_ids) = hit area_ids
read_reply malformed = error
read_reply unavailable = error

unfoldable pub ttl_of : RedisConfig → List ℕ → ℕ
ttl_of config [] = config.presence_ttl_empty_s
ttl_of config (_ ∷ _) = config.presence_ttl_non_empty_s

-- `PresenceCacheService.populate`: the command that it sends; an error is swallowed
unfoldable pub populate_command : RedisConfig → String → List ℕ → RedisCommand
unfolding key ttl_of
populate_command config user_id area_ids = redis_set (key user_id) area_ids (ttl_of config area_ids)

-- PresenceMetricsService
pub record PresenceMetrics : Type 0 where
  pub invalidate_failed_gets_ok_count : ℕ
  pub invalidate_failed_gets_failing_count : ℕ
  pub change_path_noop_count : ℕ

unfoldable pub record_invalidate_failure : Bool → PresenceMetrics → PresenceMetrics
record_invalidate_failure true m = record m {
  invalidate_failed_gets_ok_count = m.invalidate_failed_gets_ok_count + 1;
}
record_invalidate_failure false m = record m {
  invalidate_failed_gets_failing_count = m.invalidate_failed_gets_failing_count + 1;
}

unfoldable pub record_change_path_noop : PresenceMetrics → PresenceMetrics
record_change_path_noop m = record m { change_path_noop_count = m.change_path_noop_count + 1 }

-- PresenceMemoryService: `userId -> areaIds`
abbrev pub PresenceMemory : Type 0
PresenceMemory = Dict (List ℕ)

abbrev pub memory_get : PresenceMemory → String → Option (List ℕ)
memory_get memory user_id = lookup user_id memory

abbrev pub memory_set : String → List ℕ → PresenceMemory → PresenceMemory
memory_set user_id area_ids memory = insert user_id area_ids memory
