-- ===== src/Sessions/Service.antt =====
-- `AuthService` of apps/api/src/auth/auth.service.ts. A method is an action on the store: what it wrote
-- before it throws stays written, and only the transaction of `refresh` is rolled back.
use manychat.Prelude.{
  ℕ, ◌+◌, ◌*◌, String, Bool, true, false, not, ◌&&◌, ◌||◌, List, [], ◌∷◌, map, Option, none, some,
  find, flat_map, leb, ◌==◌, if◌then◌else◌,
}
use manychat.Access.Service.{Role, unique}
use manychat.Sessions.Table.{
  Session, TokenStatus, Checking, Rotation, refused, lost, done, is_active_status, is_rotated,
  has_id, in_family, active_of, mark_expired, mark_revoked, mark_reused, update_many, find_by_hash,
  create, rotate,
}

pub data UserStatus : Type 0 where
  active disabled : UserStatus

abbrev pub is_enabled : UserStatus → Bool
is_enabled active = true
is_enabled disabled = false

pub record User : Type 0 where
  pub id : String
  pub email : String
  pub normalized_email : String
  pub password_hash : String
  pub first_name : String
  pub last_name : String
  pub status : UserStatus
  pub last_login_at : Option ℕ

-- An event of the audit log, as the service hands it over.
pub record AuditEvent : Type 0 where
  pub action : String
  pub actor_user_id : Option String
  pub actor_email_snapshot : Option String
  pub entity_id : Option String
  pub entity_type : String
  pub reason : Option String

pub record Store : Type 0 where
  pub users : List User
  pub global_roles : String → List Role
  pub sessions : List Session
  pub audit : List AuditEvent

pub record Context : Type 0 where
  pub ip : Option String
  pub user_agent : Option String

pub record Tokens : Type 0 where
  pub access_token : String
  pub csrf_token : String
  pub refresh_token : String

pub record Identity : Type 0 where
  pub user_id : String
  pub email : String
  pub first_name : String
  pub last_name : String
  pub status : UserStatus
  pub global_permissions : List String
  pub global_role_names : List String

-- The exceptions of the framework, by the code in the body; `rejected` is an error of the database.
pub data ApiError : Type 0 where
  unauthorized forbidden too_many_requests : String → ApiError
  rejected : ApiError

pub data Completion (A : Type 0) : Type 0 where
  throws : ApiError → Completion A
  returns : A → Completion A

abbrev pub Action : Type 0 → Type 0
Action A = Store → Completion A × Store

abbrev pub pure : {A : Type 0} → A → Action A
pure a store = (returns a, store)

abbrev pub throw : {A : Type 0} → ApiError → Action A
throw e store = (throws e, store)

abbrev pub continue : {A B : Type 0} → Completion A → (A → Action B) → Action B
continue (throws e) f store = (throws e, store)
continue (returns a) f store = f a store

infixl 5 ◌>>=◌ ◌>>◌
abbrev pub ◌>>=◌ : {A B : Type 0} → Action A → (A → Action B) → Action B
◌>>=◌ m f store = let (outcome, after) = m store in continue outcome f after

abbrev pub ◌>>◌ : {B : Type 0} → Action (Unit {0}) → Action B → Action B
m >> k = m >>= λ _. k

abbrev pub write_sessions : (List Session → List Session) → Action (Unit {0})
write_sessions f store = (returns tt, record store { sessions = f store.sessions })

abbrev pub record_event : AuditEvent → Action (Unit {0})
record_event e store = (returns tt, record store { audit = e ∷ store.audit })

-- What the service calls: SHA-256, Argon2, the signature of the access token (of an email, a session
-- and a user), and the normal form of an address, by the case mapping of the host.
pub record Platform : Type 0 where
  pub sha256 : String → String
  pub verify : String → String → Bool
  pub sign : String → String → String → String
  pub normalize_email : String → String

-- The random values of a request, and what the environment configures.
pub record Fresh : Type 0 where
  pub csrf_token : String
  pub refresh_token : String
  pub session_id : String
  pub family_id : String

pub record Settings : Type 0 where
  pub refresh_token_ttl_days : ℕ
  pub login_rate_limit_max_attempts : ℕ

abbrev pub invalid : ApiError
invalid = unauthorized "REFRESH_INVALID"

-- `!token`: undefined or the empty text
abbrev pub given : Option String → Option String
given none = none
given (some s) = if s == "" then none else some s

-- The bytes of the texts are compared, in constant time.
abbrev pub constant_time_equals : String → String → Bool
constant_time_equals left right = left == right

abbrev pub or_throw : {A : Type 0} → Option A → ApiError → Action A
or_throw none e = throw e
or_throw (some a) e = pure a

abbrev pub check : Bool → ApiError → Action (Unit {0})
check true e = pure tt
check false e = throw e

abbrev audit_event : String → String → String → String → AuditEvent
audit_event action user entity entity_type = record {
  action = action;
  actor_user_id = some user;
  actor_email_snapshot = none;
  entity_id = some entity;
  entity_type = entity_type;
  reason = none;
}

-- `clock n` is the time that the request reads at the n-th place of its code where it asks for it.
module _ (p : Platform) (settings : Settings) (checking : Checking) (clock : ℕ → ℕ) (fresh : Fresh)
    (context : Context) where
  abbrev pub identity_from : User → List Role → Identity
  identity_from user roles = record {
    user_id = user.id;
    email = user.email;
    first_name = user.first_name;
    last_name = user.last_name;
    status = user.status;
    global_permissions = unique (flat_map (λ (role : Role). role.permissions) roles);
    global_role_names = map (λ (role : Role). role.normalized_name) roles;
  }

  abbrev pub identity_if : Option User → Action Identity
  identity_if none store = (throws (forbidden "USER_DISABLED"), store)
  identity_if (some user) store =
      if is_enabled user.status
      then (returns (identity_from user (store.global_roles user.id)), store)
      else (throws (forbidden "USER_DISABLED"), store)

  unfoldable pub identity_for_user : String → Action Identity
  identity_for_user user_id store =
      identity_if (find (λ (u : User). u.id == user_id) store.users) store

  unfoldable pub mark_family_reused : String → String → Action (Unit {0})
  mark_family_reused family user = do
    write_sessions (update_many (in_family family user) (mark_reused (clock 4) (clock 5)))
    record_event (audit_event "auth.refresh.reuse_detected" user family "SessionFamily")

  abbrev pub refresh_expiry : ℕ
  refresh_expiry = clock 2 + settings.refresh_token_ttl_days * 24 * 60 * 60 * 1000

  -- The row that `create` writes for a new session.
  abbrev pub new_session : String → String → Session
  new_session user family = record {
    id = fresh.session_id;
    user_id = user;
    token_family_id = family;
    refresh_token_hash = p.sha256 fresh.refresh_token;
    csrf_token_hash = p.sha256 fresh.csrf_token;
    status = TokenStatus.active;
    replaced_by_session_id = none;
    expires_at = refresh_expiry;
    rotated_at = none;
    revoked_at = none;
    reuse_detected_at = none;
    ip = context.ip;
    user_agent = context.user_agent;
  }

  abbrev pub tokens_for : Identity → Tokens
  tokens_for identity = record {
    access_token = p.sign identity.email fresh.session_id identity.user_id;
    csrf_token = fresh.csrf_token;
    refresh_token = fresh.refresh_token;
  }

  abbrev pub created : Option (List Session) → Action (Unit {0})
  created none store = (throws rejected, store)
  created (some rows) store = (returns tt, record store { sessions = rows })

  unfoldable pub create_session : Identity → Action Tokens
  create_session identity = do
    λ store. created (create (new_session identity.user_id fresh.family_id) store.sessions) store
    pure (tokens_for identity)

  abbrev pub concluded : Rotation → Action Bool
  concluded refused store = (throws rejected, store)
  concluded (lost rows) store = (returns false, record store { sessions = rows })
  concluded (done rows) store = (returns true, record store { sessions = rows })

  unfoldable pub transact : Session → Action Bool
  transact session store =
      concluded
        (rotate checking session.id (new_session session.user_id session.token_family_id) (clock 3)
          store.sessions)
        store

  -- The session of a token, if the token against request forgery is the one that belongs to it.
  unfoldable pub find_session : String → String → Action Session
  find_session token csrf = do
    session ← λ store. or_throw (find_by_hash (p.sha256 token) store.sessions) invalid store
    check (constant_time_equals session.csrf_token_hash (p.sha256 csrf)) invalid
    pure session

  -- A session that is not active, has expired, or belongs to a user who is not active
  abbrev pub is_denied : Session → User → Bool
  is_denied session user =
      not (is_active_status session.status)
      || leb session.expires_at (clock 0)
      || not (is_enabled user.status)

  unfoldable pub deny : Session → Action (Identity × Tokens)
  unfolding mark_family_reused
  deny session = do
    if is_rotated session.status
        then mark_family_reused session.token_family_id session.user_id
        else if is_active_status session.status && leb session.expires_at (clock 1)
        then write_sessions (update_many (has_id session.id) mark_expired)
        else pure tt
    throw invalid

  unfoldable pub exchange : Session → Action (Identity × Tokens)
  unfolding identity_for_user transact mark_family_reused
  exchange session = do
    identity ← identity_for_user session.user_id
    won ← transact session
    if won
        then pure (identity, tokens_for identity)
        else mark_family_reused session.token_family_id session.user_id >> throw invalid

  unfoldable pub refresh_with : String → String → Action (Identity × Tokens)
  unfolding find_session deny exchange
  refresh_with token csrf = do
    session ← find_session token csrf
    user ←
        λ store. or_throw (find (λ (u : User). u.id == session.user_id) store.users) rejected store
    if is_denied session user then deny session else exchange session

  abbrev pub with_tokens :
      {A : Type 0} → Option String → Option String → (String → String → Action A) → Action A
  with_tokens none _ f = throw (unauthorized "REFRESH_REQUIRED")
  with_tokens (some token) none f = throw (unauthorized "REFRESH_REQUIRED")
  with_tokens (some token) (some csrf) f = f token csrf

  unfoldable pub refresh : Option String → Option String → Action (Identity × Tokens)
  unfolding refresh_with
  refresh token csrf = with_tokens (given token) (given csrf) refresh_with

  unfoldable pub logout : Option String → Option String → Action (Unit {0})
  unfolding find_session
  logout token csrf = with_tokens (given token) (given csrf) λ t c. do
    session ← find_session t c
    write_sessions (update_many (has_id session.id) (mark_revoked (clock 0)))
    record_event (audit_event "auth.logout" session.user_id session.id "Session")

  unfoldable pub revoke_all_sessions : String → Action (Unit {0})
  revoke_all_sessions user = write_sessions (update_many (active_of user) (mark_revoked (clock 0)))

  unfoldable pub logout_all : String → String → Action (Unit {0})
  unfolding revoke_all_sessions
  logout_all user email = do
    revoke_all_sessions user
    record_event (record (audit_event "auth.logout_all" user user "User") {
      actor_email_snapshot = some email;
    })

  abbrev pub failed_login : String → String → AuditEvent
  failed_login email reason = record {
    action = "auth.login.failed";
    actor_user_id = none;
    actor_email_snapshot = some email;
    entity_id = none;
    entity_type = "Session";
    reason = some reason;
  }

  abbrev pub stamp_login : String → ℕ → List User → List User
  stamp_login id now [] = []
  stamp_login id now (u ∷ users) =
      (if u.id == id then record u { last_login_at = some now } else u) ∷ stamp_login id now users

  -- The user of the address, if the password is right and the account is active.
  unfoldable pub credentials : String → String → Option User → Action User
  credentials email password none = do
    record_event (failed_login email "INVALID_CREDENTIALS")
    throw (unauthorized "INVALID_CREDENTIALS")
  credentials email password (some user) =
      if p.verify user.password_hash password && is_enabled user.status then pure user else do
        record_event (
            failed_login email (
              if p.verify user.password_hash password
              then "USER_DISABLED"
              else "INVALID_CREDENTIALS"))
        throw (unauthorized "INVALID_CREDENTIALS")

  -- `attempts` is what the counter of the address and the client shows after this attempt.
  unfoldable pub login : ℕ → String → String → Action (Identity × Tokens)
  unfolding credentials identity_for_user create_session
  login attempts email password = do
    check (leb attempts settings.login_rate_limit_max_attempts) (too_many_requests "RATE_LIMITED")
    let normalized = p.normalize_email email
    user ← λ store.
        credentials normalized password
          (find (λ (u : User). u.normalized_email == normalized) store.users) store
    identity ← identity_for_user user.id
    tokens ← create_session identity
    λ store. (returns tt, record store { users = stamp_login user.id (clock 3) store.users })
    record_event (record (audit_event "auth.login.succeeded" user.id user.id "Session") {
      actor_email_snapshot = some user.email;
    })
    pure (identity, tokens)
