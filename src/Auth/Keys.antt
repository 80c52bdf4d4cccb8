-- ===== src/Auth/Keys.antt =====
-- crates/proxy/src/auth.rs: the check of an API key and its caches.
use better_ccflare_rs.Base.{
  and_then, ℕ, ◌-◌, ◌/◌, String, Bool, Option, none, some, List, [], ◌∷◌, ltb, leb, if◌then◌else◌,
  length,
}
use better_ccflare_rs.Base.Int.{ℤ, pos, ltb_ℤ}
use better_ccflare_rs.Base.Maps.{Map, get, set}
use better_ccflare_rs.Auth.{KeyResult, CachedKeyResult, AuthEnabledCache, KeyRow, from_db}

-- The four limits, the times in seconds.
abbrev pub api_key_cache_ttl_secs : ℕ
api_key_cache_ttl_secs = 300

abbrev pub api_key_negative_cache_ttl_secs : ℕ
api_key_negative_cache_ttl_secs = 30

abbrev pub auth_enabled_cache_ttl_secs : ℕ
auth_enabled_cache_ttl_secs = 10

abbrev pub api_key_cache_max_size : ℕ
api_key_cache_max_size = 1000

-- `elapsed().as_secs()`.
abbrev pub elapsed_secs : (since now : ℕ) → ℕ
elapsed_secs since now = (now - since) / 1000

abbrev pub KeyCache : Type 0
KeyCache = Map CachedKeyResult

-- The database at an instant: the number of active keys and their rows, where they can be read.
pub record Db : Type 0 where
  pub active_keys : Option ℤ
  pub rows : Option (List KeyRow)

abbrev pub or_default : Option String → String
or_default none = ""
or_default (some s) = s

-- The first row whose hash the key passes.
unfoldable pub first_match : (List ℕ → String → Bool) → List ℕ → List KeyRow → Option KeyResult
first_match verify_hash api_key [] = none
first_match verify_hash api_key (row ∷ rows) =
    let rest = first_match verify_hash api_key rows in
    if verify_hash api_key row.hashed_key
    then some (record { id = row.id; name = row.name; scope = from_db (or_default row.scope) })
    else rest

unfoldable pub verify_api_key_sync : (List ℕ → String → Bool) → Db → List ℕ → Option KeyResult
verify_api_key_sync verify_hash db api_key = and_then db.rows (first_match verify_hash api_key)

abbrev pub ttl_of : CachedKeyResult → ℕ
ttl_of entry = elim entry.result [
  | some r ↦ api_key_cache_ttl_secs
  | none ↦ api_key_negative_cache_ttl_secs
]

-- The entry of the cache, while it is fresh.
unfoldable pub cached : KeyCache → String → ℕ → Option CachedKeyResult
cached cache key now = elim (get key cache) [
  | none ↦ none
  | some entry ↦
      if ltb (elapsed_secs entry.verified_at now) (ttl_of entry) then some entry else none
]

unfoldable pub remember : KeyCache → String → CachedKeyResult → KeyCache
remember cache key entry =
    set key entry (if leb api_key_cache_max_size (length cache) then [] else cache)

module _ (hash_for_cache : List ℕ → String) (verify_hash : List ℕ → String → Bool) where
  unfoldable pub verify_api_key_cached : Db → KeyCache → List ℕ → ℕ → KeyCache × Option KeyResult
  verify_api_key_cached db cache api_key now =
      let key = hash_for_cache api_key in
      let result = verify_api_key_sync verify_hash db api_key in
      elim (cached cache key now) [
        | some entry ↦ (cache, entry.result)
        | none ↦ (remember cache key (record { result = result; verified_at = now }), result)
      ]

-- Whether any key is active; an error is not cached.
unfoldable pub is_auth_enabled :
    Db → Option AuthEnabledCache → ℕ → Option AuthEnabledCache × Option Bool
is_auth_enabled db cache now =
    let queried : Option AuthEnabledCache × Option Bool = elim db.active_keys [
      | none ↦ (cache, none)
      | some count ↦ (
        some (record { enabled = ltb_ℤ (pos 0) count; checked_at = now }),
        some (ltb_ℤ (pos 0) count),
      )
    ] in
    elim cache [
      | none ↦ queried
      | some entry ↦
          if ltb (elapsed_secs entry.checked_at now) auth_enabled_cache_ttl_secs
          then (some entry, some entry.enabled)
          else queried
    ]
