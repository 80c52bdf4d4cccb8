-- ===== src/Auth/Admission.antt =====
-- Whom the middleware of crates/proxy/src/auth.rs lets pass.
use better_ccflare_rs.Base.{
  ap, ◌∙◌, Option-cases, ℕ, ◌≡◌, refl, subst, ◌⊎◌, inl, inr, Bool, true, false, not, ◌&&◌, Option,
  none, some, List, arith, if◌then◌else◌, Bool-cases,
}
use better_ccflare_rs.Limiter.{Tracker, check_and_record}
use better_ccflare_rs.Auth.{AuthInfo, Request, KeyResult, is_proxy}
use better_ccflare_rs.Auth.Paths.{
  asks_browser, extract_api_key, under, is_path_exempt, is_dashboard_get, csrf_fails, is_some,
}
use better_ccflare_rs.Auth.Keys.{Db, verify_api_key_cached, is_auth_enabled}
use better_ccflare_rs.Auth.Middleware.{
  unauthorized, Reply, next, Settings, AuthState, Outside, known, password_given, within_limit,
  check_key, check_credentials, after_enabled, ask_enabled, auth_middleware,
}

-- The limiter allows the key's request, where there is a limit.
abbrev pub Allowed : Settings → Tracker → KeyResult → ℕ → Type 0
Allowed settings tracker k now =
    (limit : ℕ)
    → settings.rpm_limit ≡ some limit
    → (check_and_record tracker k.id limit now).1 ≡ true

within_limit-next :
    (settings : Settings) (s : AuthState) (k : KeyResult) (now : ℕ) (info : AuthInfo)
    → (within_limit settings s k now).1 ≡ next info
    → (info ≡ known k) × Allowed settings s.rpm_tracker k now
unfolding within_limit
within_limit-next settings s k now info h = elim (Option-cases settings.rpm_limit) [
  | inl q ↦ (ground (arith, q, h), λ limit e. absurd (ground (arith, q, e)))
  | inr (l, q) ↦ elim (Bool-cases (check_and_record s.rpm_tracker k.id l now).1) [
    | inl a ↦ (
      ground (arith, q, a, h),
      λ limit e.
          subst (λ x. (check_and_record s.rpm_tracker k.id x now).1 ≡ true) (ground (arith, q, e))
            a,
    )
    | inr a ↦ absurd (ground (arith, q, a, h))
  ]
]

-- A key that the database or its cache vouches for, whose scope covers the path.
abbrev pub ByKey : Outside → Settings → Option Db → AuthState → Request → ℕ → AuthInfo → Type 0
ByKey out settings pool s req now info =
    (db : Db) × (key : List ℕ) × (k : KeyResult) × (pool ≡ some db)
    × (extract_api_key req ≡ some key)
    × ((verify_api_key_cached out.hash_for_cache out.verify_hash db s.key_cache key now).1 ≡ some k)
    × (is_proxy k.scope && under "/api/" req.path ≡ false)
    × (info ≡ known k)
    × Allowed settings s.rpm_tracker k now

check_key-next :
    (out : Outside) (settings : Settings) (db : Db) (s : AuthState) (req : Request) (key : List ℕ)
    → (now : ℕ) (info : AuthInfo) → (check_key out settings db s req key now).1 ≡ next info
    → extract_api_key req ≡ some key
    → ByKey out settings (some db) s req now info
unfolding check_key
check_key-next out settings db s req key now info h e =
    let checked =
      (verify_api_key_cached out.hash_for_cache out.verify_hash db s.key_cache key now).1 in
    let t : AuthState = record s {
      key_cache =
          (verify_api_key_cached out.hash_for_cache out.verify_hash db s.key_cache key now).0;
    } in
    elim (Option-cases checked) [
      | inl q ↦ absurd (ground (arith, q, h))
      | inr (k, q) ↦ elim (Bool-cases (is_proxy k.scope && under "/api/" req.path)) [
        | inl b ↦ absurd (ground (arith, q, b, h))
        | inr b ↦
            let passed = within_limit-next settings t k now info (ground (arith, q, b, h)) in
            (db, key, k, refl, e, q, b, passed.0, passed.1)
      ]
    ]

abbrev pub ByPassword : Outside → Settings → Request → Type 0
ByPassword out settings req = (password_given out settings req ≡ true) × (csrf_fails req ≡ false)

-- What is left of `check_credentials` after the password.
abbrev rest : Outside → Settings → Option Db → Bool → AuthState → Request → ℕ → AuthState × Reply
rest out settings pool enabled s req now =
    let refused = unauthorized (asks_browser req.path (is_some settings.dashboard_password)) in
    if not enabled then (s, refused) else elim (extract_api_key req) [
      | none ↦ (s, refused)
      | some key ↦ elim pool [
        | none ↦ (s, refused)
        | some db ↦ check_key out settings db s req key now
      ]
    ]

key-next :
    (out : Outside) (settings : Settings) (pool : Option Db) (enabled : Bool) (s : AuthState)
    → (req : Request) (now : ℕ) (info : AuthInfo)
    → (rest out settings pool enabled s req now).1 ≡ next info
    → ByKey out settings pool s req now info
key-next out settings pool false s req now info h = absurd (ground arith)
key-next out settings none true s req now info h = absurd (ground arith)
key-next out settings (some db) true s req now info h = elim (Option-cases (extract_api_key req)) [
  | inl e ↦ absurd (ground (arith, e, h))
  | inr (key, e) ↦ check_key-next out settings db s req key now info (rw e at h) e
]

check_credentials-next :
    (out : Outside) (settings : Settings) (pool : Option Db) (enabled : Bool) (s : AuthState)
    → (req : Request) (now : ℕ) (info : AuthInfo)
    → (check_credentials out settings pool enabled s req now).1 ≡ next info
    → (csrf_fails req ≡ false)
      × ((password_given out settings req ≡ true) ⊎ ByKey out settings pool s req now info)
unfolding check_credentials
check_credentials-next out settings pool enabled s req now info h =
    elim (Bool-cases (csrf_fails req)) [
      | inl c ↦ absurd (ground (arith, c, h))
      | inr c ↦ elim (Bool-cases (password_given out settings req)) [
        | inl p ↦ (c, inl p)
        | inr p ↦ (
          c,
          inr (
              key-next out settings pool enabled s req now info
                (rw (c, p, check_credentials) at h)),
        )
      ]
    ]

-- There is no database, or it answers, now or through the cache, that no key is active.
abbrev pub NoKeys : Option Db → AuthState → ℕ → Type 0
NoKeys none s now = Unit {0}
NoKeys (some db) s now = (is_auth_enabled db s.enabled_cache now).1 ≡ some false

-- Before any key is active and without a password, a browser gets the dashboard.
abbrev pub FirstRun : Settings → Option Db → AuthState → Request → ℕ → Type 0
FirstRun settings pool s req now =
    NoKeys pool s now × (settings.dashboard_password ≡ none) × (is_dashboard_get req ≡ true)

-- How a request that is not exempt passes, where `FirstTime` says that no key is active.
abbrev Enters :
    Type 0 → Outside → Settings → Option Db → AuthState → Request → ℕ → AuthInfo → Type 0
Enters FirstTime out settings pool s req now info =
    (FirstTime × (settings.dashboard_password ≡ none) × (is_dashboard_get req ≡ true))
    ⊎ ((csrf_fails req ≡ false)
        × ((password_given out settings req ≡ true) ⊎ ByKey out settings pool s req now info))

after_enabled-next :
    (out : Outside) (settings : Settings) (pool : Option Db) (enabled : Bool) (s : AuthState)
    → (req : Request) (now : ℕ) (info : AuthInfo)
    → (after_enabled out settings pool enabled s req now).1 ≡ next info
    → Enters (enabled ≡ false) out settings pool s req now info
unfolding after_enabled
after_enabled-next out settings pool enabled s req now info h =
    elim (Bool-cases (not enabled && not (is_some settings.dashboard_password))) [
      | inl f ↦ inl (ground (arith, f, h), ground (arith, f, h), ground (arith, f, h))
      | inr f ↦ inr (
          check_credentials-next out settings pool enabled s req now info
            (rw (f, after_enabled) at h))
    ]

Enters-because :
    (F G : Type 0) (out : Outside) (settings : Settings) (pool : Option Db) (s : AuthState)
    → (req : Request) (now : ℕ) (info : AuthInfo) → (F → G)
    → Enters F out settings pool s req now info
    → Enters G out settings pool s req now info
Enters-because F G out settings pool s req now info f (inl (x, p, g)) = inl (f x, p, g)
Enters-because F G out settings pool s req now info f (inr k) = inr k

with_password :
    (F G : Type 0) (out : Outside) (settings : Settings) (pool : Option Db) (s : AuthState)
    → (req : Request) (now : ℕ) (info : AuthInfo)
    → not (is_some settings.dashboard_password) ≡ false
    → Enters F out settings pool s req now info
    → Enters G out settings pool s req now info
with_password F G out settings pool s req now info b (inl (x, p, g)) = absurd (ground (arith, b, p))
with_password F G out settings pool s req now info b (inr k) = inr k

ask_enabled-next :
    (out : Outside) (settings : Settings) (db : Db) (s : AuthState) (req : Request) (now : ℕ)
    → (info : AuthInfo) → (ask_enabled out settings db s req now).1 ≡ next info
    → Enters (NoKeys (some db) s now) out settings (some db) s req now info
unfolding ask_enabled
ask_enabled-next out settings db s req now info h =
    let t : AuthState = record s { enabled_cache = (is_auth_enabled db s.enabled_cache now).0 } in
    elim (Option-cases (is_auth_enabled db s.enabled_cache now).1) [
      | inr (e, q) ↦
          Enters-because (e ≡ false) (NoKeys (some db) s now) out settings (some db) s req now info
            (λ off. q ∙ ap some off)
            (after_enabled-next out settings (some db) e t req now info (rw (q, ask_enabled) at h))
      | inl q ↦ elim (Bool-cases (not (is_some settings.dashboard_password))) [
        | inl b ↦ absurd (ground (arith, q, b, h))
        | inr b ↦
            with_password (false ≡ false) (NoKeys (some db) s now) out settings (some db) s req now
              info b
              (after_enabled-next out settings (some db) false t req now info
                (ground (arith, q, b, h)))
      ]
    ]

unexempt-next :
    (out : Outside) (settings : Settings) (pool : Option Db) (s : AuthState) (req : Request)
    → (now : ℕ) (info : AuthInfo) → is_path_exempt req.path ≡ false
    → settings.allow_unauthenticated ≡ false
    → (auth_middleware out settings pool s req now).1 ≡ next info
    → Enters (NoKeys pool s now) out settings pool s req now info
unfolding auth_middleware
unexempt-next out settings none s req now info x a h =
    Enters-because (false ≡ false) (NoKeys none s now) out settings none s req now info (λ e. tt)
      (after_enabled-next out settings none false s req now info (ground (arith, x, a, h)))
unexempt-next out settings (some db) s req now info x a h =
    ask_enabled-next out settings db s req now info (ground (arith, x, a, h))

-- A request goes on only for one of five reasons: its path is exempt; requests without credentials are
-- allowed by the settings; no key is active, there is no password and a browser asks for the dashboard
-- with GET; or it passes the
-- check against cross-site forgery and shows the password, or an API key that the database or its
-- cache vouches for, whose scope covers the path and which is within its limit of requests.
pub admitted :
    (out : Outside) (settings : Settings) (pool : Option Db) (s : AuthState) (req : Request)
    → (now : ℕ) (info : AuthInfo) → (auth_middleware out settings pool s req now).1 ≡ next info
    → (is_path_exempt req.path ≡ true)
      ⊎ ((settings.allow_unauthenticated ≡ true)
          ⊎ (FirstRun settings pool s req now
              ⊎ ((csrf_fails req ≡ false)
                  × ((password_given out settings req ≡ true)
                      ⊎ ByKey out settings pool s req now info))))
admitted out settings pool s req now info h = elim (Bool-cases (is_path_exempt req.path)) [
  | inl x ↦ inl x
  | inr x ↦ elim (Bool-cases settings.allow_unauthenticated) [
    | inl a ↦ inr (inl a)
    | inr a ↦ inr (inr (unexempt-next out settings pool s req now info x a h))
  ]
]
