-- ===== src/Sessions/Tests.antt =====
-- Runs of apps/api/src/auth/auth.service.ts on a small store, and the theorems at them.
use manychat.Prelude.{ℕ, true, ◌==◌, [], ◌∷◌, none, some, ◌≡◌, ◌≢◌, refl, arith}
use manychat.Access.Service.{unique}
use manychat.Sessions.Table.{
  Session, at_commit, declared, update_many, find_by_hash, create, rotate, has_id, mark_revoked,
  mark_rotated, count, references_hold, unique_replacements, is_live,
}
use manychat.Sessions.Active.{
  Inv, Reach, Statement, active_in, here, next, logs_in, logs_out, reach-Inv,
}
use manychat.Sessions.Service.{
  Store, User, UserStatus, Platform, Settings, Fresh, Context, Identity, Tokens, throws, returns,
  login, refresh, exchange, logout, Completion, invalid, new_session, unauthorized, rejected,
}
use manychat.Sessions.Rotation.{refresh-declared}
use manychat.Sessions.Overtaken.{exchange-overtaken}
use manychat.Sessions.Reuse.{Presents, NoneActive, replayed_family-refused, logout-hides_reuse}

abbrev platform : Platform
platform = record {
  sha256 = λ s. s;
  verify = λ hash password. hash == password;
  sign = λ email session user. session;
  normalize_email = λ s. s;
}

abbrev settings : Settings
settings = record { refresh_token_ttl_days = 1; login_rate_limit_max_attempts = 5 }

abbrev context : Context
context = record { ip = none; user_agent = none }

abbrev noon : ℕ → ℕ
noon _ = 100

abbrev fresh_1 : Fresh
fresh_1 = record { csrf_token = "c1"; refresh_token = "r1"; session_id = "s1"; family_id = "f1" }

abbrev fresh_2 : Fresh
fresh_2 = record { csrf_token = "c2"; refresh_token = "r2"; session_id = "s2"; family_id = "f2" }

abbrev fresh_3 : Fresh
fresh_3 = record { csrf_token = "c3"; refresh_token = "r3"; session_id = "s3"; family_id = "f3" }

abbrev ann : User
ann = record {
  id = "u";
  email = "ann@example.org";
  normalized_email = "ann@example.org";
  password_hash = "secret";
  first_name = "Ann";
  last_name = "B";
  status = UserStatus.active;
  last_login_at = none;
}

abbrev start : Store
start = record { users = ann ∷ []; global_roles = λ _. []; sessions = []; audit = [] }

-- Ann has logged in.
logged_in : Store
logged_in =
    (login platform settings at_commit noon fresh_1 context 1 "ann@example.org" "secret" start).1

abbrev session_1 : Session
session_1 = new_session platform settings at_commit noon fresh_1 context "u" "f1"

login_run : logged_in.sessions ≡ session_1 ∷ []
unfolding logged_in login create
login_run = refl

wrong_password :
    (login platform settings at_commit noon fresh_1 context 1 "ann@example.org" "guess" start).0
    ≡ throws (unauthorized "INVALID_CREDENTIALS")
unfolding login
wrong_password = refl

-- Ann after her first login.
abbrev returning : User
returning = record ann { last_login_at = some 100 }

-- A refresh where the reference is looked at when the transaction ends.
refreshed : Store
refreshed =
    (refresh platform settings at_commit noon fresh_2 context (some "r1") (some "c1") logged_in).1

abbrev the_tokens : Tokens
the_tokens = record { access_token = "s2"; csrf_token = "c2"; refresh_token = "r2" }

abbrev ann_identity : Identity
ann_identity = record {
  user_id = "u";
  email = "ann@example.org";
  first_name = "Ann";
  last_name = "B";
  status = UserStatus.active;
  global_permissions = [];
  global_role_names = [];
}

refresh_run :
    refresh platform settings at_commit noon fresh_2 context (some "r1") (some "c1") logged_in
    ≡ (returns (ann_identity, the_tokens), refreshed)
unfolding refreshed logged_in login refresh create find_by_hash rotate update_many count
    references_hold unique
refresh_run = refl

-- The same refresh, where the reference is looked at after each statement.
refresh_refused :
    (refresh platform settings declared noon fresh_2 context (some "r1") (some "c1") logged_in).0
    ≡ throws rejected
unfolding logged_in login refresh create find_by_hash rotate update_many count references_hold
refresh_refused = refl

refresh-declared_example :
    refresh platform settings declared noon fresh_2 context (some "r1") (some "c1") logged_in
    ≢ (returns (ann_identity, the_tokens), refreshed)
refresh-declared_example =
    refresh-declared platform settings noon fresh_2 context (some "r1") (some "c1") logged_in
      refreshed (ann_identity, the_tokens)

-- A table in which session `s1` was rotated and its replacement is active.
abbrev session_2 : Session
session_2 = new_session platform settings declared noon fresh_2 context "u" "f1"

abbrev rotated_1 : Session
rotated_1 = mark_rotated "s2" 100 session_1

abbrev two_sessions : Store
two_sessions = record {
  users = returning ∷ [];
  global_roles = λ _. [];
  sessions = session_2 ∷ rotated_1 ∷ [];
  audit = [];
}

rotated_1-Presents : Presents platform "r1" "c1" rotated_1 two_sessions
unfolding find_by_hash
rotated_1-Presents = record { found = refl; csrf_matches = refl; user_known = (returning, refl) }

session_2-Presents : Presents platform "r2" "c2" session_2 two_sessions
unfolding find_by_hash
session_2-Presents = record { found = refl; csrf_matches = refl; user_known = (returning, refl) }

abbrev replayed : Completion (Identity × Tokens) × Store
replayed =
    refresh platform settings declared noon fresh_3 context (some "r1") (some "c1") two_sessions

replayed_family-refused_example :
    (replayed.0 ≡ throws invalid)
    × NoneActive "f1" "u" replayed.1.sessions
    × (refresh platform settings declared noon fresh_3 context (some "r2") (some "c2") replayed.1
        ≡ (throws invalid, replayed.1))
replayed_family-refused_example =
    replayed_family-refused platform settings settings declared declared noon noon fresh_3 fresh_3
      context context "r1" "c1" "r2" "c2" rotated_1 session_2 two_sessions rotated_1-Presents refl
      refl refl session_2-Presents refl refl refl

-- Session `s1` was logged out after it had been read, and the table has an active session of the family.
abbrev overtaken_store : Store
overtaken_store = record two_sessions { sessions = session_2 ∷ mark_revoked 100 session_1 ∷ [] }

none_live : count (is_live session_1.id) overtaken_store.sessions ≡ 0
unfolding count
none_live = refl

replacements_unique : unique_replacements overtaken_store.sessions ≡ true
unfolding unique_replacements
replacements_unique = refl

session_2-there : Presents platform "r2" "c2" session_2 overtaken_store
unfolding find_by_hash
session_2-there = record { found = refl; csrf_matches = refl; user_known = (returning, refl) }

abbrev late : Completion (Identity × Tokens) × Store
late = exchange platform settings declared noon fresh_3 context session_1 overtaken_store

exchange-overtaken_example :
    (late.0 ≡ throws invalid)
    × NoneActive "f1" "u" late.1.sessions
    × (refresh platform settings declared noon fresh_3 context (some "r2") (some "c2") late.1
        ≡ (throws invalid, late.1))
exchange-overtaken_example =
    exchange-overtaken platform settings settings declared declared noon noon fresh_3 fresh_3
      context context session_1 session_2 returning "r2" "c2" overtaken_store refl refl none_live
      replacements_unique session_2-there refl refl refl

abbrev after_logout : Store
after_logout =
    (logout platform settings declared noon fresh_1 context (some "r1") (some "c1") two_sessions).1

logout-hides_reuse_example :
    (after_logout.sessions ≡ update_many (has_id "s1") (mark_revoked 100) two_sessions.sessions)
    × (refresh platform settings declared noon fresh_1 context (some "r1") (some "c1") after_logout
        ≡ (throws invalid, after_logout))
logout-hides_reuse_example =
    logout-hides_reuse platform settings declared noon noon fresh_1 context "r1" "c1" rotated_1
      two_sessions rotated_1-Presents refl refl

no_sessions-Inv : Inv []
unfolding active_in count
no_sessions-Inv = record { one_active = λ family. omega arith; distinct = tt }

first_login : Statement [] (session_1 ∷ [])
unfolding create
first_login = logs_in session_1 tt refl

login_and_out : Reach [] (mark_revoked 100 session_1 ∷ [])
unfolding update_many
login_and_out = next (next here first_login) (logs_out "s1" 100 refl)

reach-Inv_example : Inv (mark_revoked 100 session_1 ∷ [])
reach-Inv_example = reach-Inv no_sessions-Inv login_and_out
