-- ===== src/Service.antt =====
-- The state that a request of LocationsService can reach, and the actions on it. What was written
-- before a throw stays written, so the state comes back beside a failure too.
pub mod Laws
use geofence_location.Prelude.{ℕ, String, Bool, Option, none, some, List, [], ◌∷◌, ◌++◌, Number}
use geofence_location.Database.{Database, Connection, Failure, Result, ok, err}
use geofence_location.Presence.{
  Redis, RedisCommand, RedisConfig, PresenceMetrics, PresenceMemory, PresenceCacheRead, redis_get,
  redis_del, key, read_reply, populate_command, memory_get, memory_set,
}

-- `memory` is `@Optional()`: a worker has it, the API process has none.
pub record World : Type 0 where
  pub database : Database
  pub memory : Option PresenceMemory
  pub metrics : PresenceMetrics
  pub sent : List RedisCommand

-- What a request meets outside the process, and the areas service.
pub record Surroundings : Type 0 where
  pub connection : Connection
  pub redis : Redis
  pub redis_config : RedisConfig
  pub find_covering_area_ids : Number → Number → Result (List ℕ)

abbrev pub Action : Type 0 → Type 0
Action A = World → Result A × World

abbrev pub done : {A : Type 0} → A → Action A
done a w = (ok a, w)

abbrev pub throw : {A : Type 0} → Failure → Action A
throw e w = (err e, w)

abbrev pub continue : {A B : Type 0} → Result A → (A → Action B) → Action B
continue (ok a) f w = f a w
continue (err e) f w = (err e, w)

infixl 5 ◌>>=◌ ◌>>◌
abbrev pub ◌>>=◌ : {A B : Type 0} → Action A → (A → Action B) → Action B
◌>>=◌ m f w = let (r, w') = m w in continue r f w'

abbrev pub ◌>>◌ : {B : Type 0} → Action (Unit {0}) → Action B → Action B
m >> k = m >>= λ _. k

abbrev pub lift : {A : Type 0} → Result A → Action A
lift r w = (r, w)

abbrev pub modify : (World → World) → Action (Unit {0})
modify f w = (ok tt, f w)

-- PresenceCacheService.get
unfoldable pub cache_get : Redis → String → Action PresenceCacheRead
unfolding key read_reply
cache_get redis user_id w = (
  ok (read_reply (redis.get_reply (key user_id))),
  record w { sent = w.sent ++ redis_get (key user_id) ∷ [] },
)

-- PresenceCacheService.populate
unfoldable pub cache_populate : RedisConfig → String → List ℕ → Action (Unit {0})
unfolding populate_command
cache_populate config user_id area_ids w =
    (ok tt, record w { sent = w.sent ++ populate_command config user_id area_ids ∷ [] })

-- PresenceCacheService.invalidate: whether the DEL happened
unfoldable pub cache_invalidate : Redis → String → Action Bool
unfolding key
cache_invalidate redis user_id w =
    (ok redis.del_done, record w { sent = w.sent ++ redis_del (key user_id) ∷ [] })

-- `this.presenceMemory?.set(userId, areaIds)`
unfoldable pub remember_in : String → List ℕ → Option PresenceMemory → Option PresenceMemory
remember_in user_id area_ids none = none
remember_in user_id area_ids (some memory) = some (memory_set user_id area_ids memory)

abbrev pub remember : String → List ℕ → World → World
remember user_id area_ids w = record w { memory = remember_in user_id area_ids w.memory }

-- `this.presenceMemory?.get(userId)`
unfoldable pub recall : Option PresenceMemory → String → Option (List ℕ)
recall none user_id = none
recall (some memory) user_id = memory_get memory user_id
