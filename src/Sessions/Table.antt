-- ===== src/Sessions/Table.antt =====
-- The table `sessions` (packages/database/prisma/schema.prisma) with the statements that
-- apps/api/src/auth/auth.service.ts runs on it. A statement is a function of the whole table.
use manychat.Prelude.{
  ℕ, ◌+◌, String, Bool, true, false, not, ◌&&◌, ◌||◌, List, [], ◌∷◌, Option, none, some, all, any,
  nat_eq, ◌==◌, if◌then◌else◌,
}

pub data TokenStatus : Type 0 where
  active rotated revoked reused expired : TokenStatus

abbrev pub is_active_status : TokenStatus → Bool
is_active_status active = true
is_active_status _ = false

abbrev pub is_rotated : TokenStatus → Bool
is_rotated rotated = true
is_rotated _ = false

pub record Session : Type 0 where
  pub id : String
  pub user_id : String
  pub token_family_id : String
  pub refresh_token_hash : String
  pub csrf_token_hash : String
  pub status : TokenStatus
  pub replaced_by_session_id : Option String
  pub expires_at : ℕ
  pub rotated_at : Option ℕ
  pub revoked_at : Option ℕ
  pub reuse_detected_at : Option ℕ
  pub ip : Option String
  pub user_agent : Option String

-- When the database looks at the reference from `replacedBySessionId` to a session of the same user and
-- family: at the end of each statement, or at the end of the transaction.
pub data Checking : Type 0 where
  at_statement at_commit : Checking

abbrev pub is_at_statement : Checking → Bool
is_at_statement at_statement = true
is_at_statement at_commit = false

-- The constraint of the migration is neither DEFERRABLE nor INITIALLY DEFERRED.
abbrev pub declared : Checking
declared = at_statement

-- `updateMany({ data, where })`, and the number of rows that it reports
unfoldable pub update_many : (Session → Bool) → (Session → Session) → List Session → List Session
update_many test write [] = []
update_many test write (s ∷ rows) = (if test s then write s else s) ∷ update_many test write rows

unfoldable pub count : (Session → Bool) → List Session → ℕ
count test [] = 0
count test (s ∷ rows) = (if test s then 1 else 0) + count test rows

-- `findUnique({ where: { refreshTokenHash } })`
unfoldable pub find_by_hash : String → List Session → Option Session
find_by_hash hash [] = none
find_by_hash hash (s ∷ rows) =
    let later = find_by_hash hash rows in if s.refresh_token_hash == hash then some s else later

-- The unique keys `id` and `refreshTokenHash`.
abbrev pub same_key : Session → Session → Bool
same_key s r = r.id == s.id || r.refresh_token_hash == s.refresh_token_hash

abbrev pub same_value : Option String → Option String → Bool
same_value (some x) (some y) = x == y
same_value _ _ = false

-- The unique key of `replacedBySessionId`, `userId` and `tokenFamilyId`; nulls are not equal.
abbrev pub same_replacement : Session → Session → Bool
same_replacement s r =
    same_value s.replaced_by_session_id r.replaced_by_session_id
    && s.user_id == r.user_id
    && s.token_family_id == r.token_family_id

unfoldable pub unique_replacements : List Session → Bool
unique_replacements [] = true
unique_replacements (s ∷ rows) = not (any (same_replacement s) rows) && unique_replacements rows

-- `create`: `none` is the refusal of the database, where a row has one of the row's unique keys.
unfoldable pub create : Session → List Session → Option (List Session)
create s rows =
    if any (same_key s) rows || any (same_replacement s) rows then none else some (s ∷ rows)

abbrev pub has_id : String → Session → Bool
has_id id s = s.id == id

-- `{ id, status: ACTIVE }`
abbrev pub is_live : String → Session → Bool
is_live id s = s.id == id && is_active_status s.status

abbrev pub in_family : String → String → Session → Bool
in_family family user s = s.token_family_id == family && s.user_id == user

abbrev pub active_of : String → Session → Bool
active_of user s = is_active_status s.status && s.user_id == user

abbrev pub mark_rotated : String → ℕ → Session → Session
mark_rotated replacement now s = record s {
  replaced_by_session_id = some replacement;
  rotated_at = some now;
  status = rotated;
}

abbrev pub mark_expired : Session → Session
mark_expired s = record s { status = expired }

abbrev pub mark_revoked : ℕ → Session → Session
mark_revoked now s = record s { revoked_at = some now; status = revoked }

abbrev pub mark_reused : ℕ → ℕ → Session → Session
mark_reused detected now s = record s {
  reuse_detected_at = some detected;
  revoked_at = some now;
  status = reused;
}

-- The row that (`id`, `user`, `family`) refers to.
abbrev pub is_target : String → String → String → Session → Bool
is_target id user family r = r.id == id && r.user_id == user && r.token_family_id == family

-- The rows that an update gave the replacement `id` refer to a row of the table.
unfoldable pub references_hold : String → (Session → Bool) → List Session → List Session → Bool
references_hold id test rows after =
    all (λ s. not (test s) || any (is_target id s.user_id s.token_family_id) after) rows

-- How the transaction of `refresh` ends: refused by the database and rolled back, committed after
-- another request had changed the session, or committed with the session rotated.
pub data Rotation : Type 0 where
  refused : Rotation
  lost : List Session → Rotation
  done : List Session → Rotation

abbrev pub commit : Bool → List Session → Rotation
commit ok rows = if ok then done rows else refused

module _ (checking : Checking) (id : String) (s : Session) (now : ℕ) (rows : List Session) where
  abbrev pub marked : List Session
  marked = update_many (is_live id) (mark_rotated s.id now) rows

  abbrev pub created : Option (List Session) → Rotation
  created none = refused
  created (some after) = commit (references_hold s.id (is_live id) rows after) after

  -- The unique key is checked with every row that the update writes, the reference when `checking` says.
  unfoldable pub rotate : Rotation
  unfolding unique_replacements
  rotate =
      if not (unique_replacements marked)
        || (is_at_statement checking && not (references_hold s.id (is_live id) rows marked))
      then refused
      else if not (nat_eq (count (is_live id) rows) 1)
      then lost marked
      else created (create s marked)
