-- ===== src/Sessions/Rotation.antt =====
-- The rotation of a refresh token in apps/api/src/auth/auth.service.ts: when the database lets its
-- transaction through, and what a refresh that returns has done.
use manychat.Prelude.{
  ℕ, String, Bool, true, false, List, [], ◌∷◌, Option, none, some, any, find, leb, ◌==◌,
  if◌then◌else◌, ◌≡◌, ◌≢◌, refl, inl, inr, arith, Bool-cases,
}
use manychat.Sessions.Table.{
  Session, Checking, declared, Rotation, refused, lost, done, is_active_status, is_live, is_target,
  same_key, mark_rotated, update_many, count, references_hold, rotate, find_by_hash,
}
use manychat.Sessions.Active.{rotate-done, create-some}
use manychat.Sessions.Service.{
  Store, User, Platform, Settings, Fresh, Context, Identity, Tokens, Completion, Action, continue,
  ◌>>=◌, ◌>>◌, pure, throw, tokens_for, mark_family_reused, concluded, throws, returns, given,
  is_denied, new_session, identity_for_user, transact, with_tokens, or_throw, rejected,
  find_session, deny, exchange, refresh_with, refresh, is_enabled, invalid,
}

-- A row that the replacement refers to has its identifier, so the replacement cannot be created.
same_key-of_target :
    (s : Session) (user family : String) (rows : List Session)
    → any (is_target s.id user family) rows ≡ true
    → any (same_key s) rows ≡ true
same_key-of_target s user family [] h = h
same_key-of_target s user family (r ∷ rows) h =
    ground (arith, same_key-of_target s user family rows)

-- Where the test holds of a row, its reference leads to a row of the table.
target_of_hold :
    (s : Session) (test : Session → Bool) (rows after : List Session)
    → references_hold s.id test rows after ≡ true
    → count test rows ≡ 1
    → any (same_key s) after ≡ true
unfolding references_hold count
target_of_hold s test [] after h one = absurd (omega arith)
target_of_hold s test (r ∷ rows) after h one = elim (Bool-cases (test r)) [
  | inl e ↦ same_key-of_target s r.user_id r.token_family_id after (ground arith)
  | inr e ↦ target_of_hold s test rows after (ground arith) (ground arith)
]

statement_checked :
    (id : String) (s : Session) (now : ℕ) (rows : List Session) {after : List Session}
    → rotate declared id s now rows ≡ done after
    → references_hold s.id (is_live id) rows (update_many (is_live id) (mark_rotated s.id now) rows)
      ≡ true
unfolding rotate
statement_checked id s now rows h = ground arith

-- With the constraint as the migration declares it, no rotation is done.
pub rotate-declared :
    (id : String) (s : Session) (now : ℕ) (rows : List Session) {after : List Session}
    → rotate declared id s now rows ≢ done after
rotate-declared id s now rows h =
    let (one, made) = rotate-done declared id s now rows h in
    let (new, _) = create-some s (update_many (is_live id) (mark_rotated s.id now) rows) made in
    let holds : references_hold s.id (is_live id) rows
          (update_many (is_live id) (mark_rotated s.id now) rows)
        ≡ true =
      statement_checked id s now rows h in
    ground (arith, target_of_hold s (is_live id) rows _ holds one, new)

continue-returns :
    {A B : Type 0} (o : Completion A) (f : A → Action B) (store : Store) {b : B} {after : Store}
    → continue o f store ≡ (returns b, after)
    → (a : A) × (o ≡ returns a) × (f a store ≡ (returns b, after))
continue-returns (throws e) f store h = cc
continue-returns (returns a) f store h = (a, refl, h)

-- A chain that returns went through its first part.
pub bind-returns :
    {A B : Type 0} (m : Action A) (f : A → Action B) (store : Store) {b : B} {after : Store}
    → (m >>= f) store ≡ (returns b, after)
    → (a : A) × ((m store).0 ≡ returns a) × (f a (m store).1 ≡ (returns b, after))
bind-returns m f store h = continue-returns (m store).0 f (m store).1 h

module _ (p : Platform) (settings : Settings) (checking : Checking) (clock : ℕ → ℕ) (fresh : Fresh)
    (context : Context) where
  concluded-won :
      (r : Rotation) (store : Store) {after : Store}
      → concluded p settings checking clock fresh context r store ≡ (returns true, after)
      → (r ≡ done after.sessions) × (after.users ≡ store.users)
  concluded-won refused store h = cc
  concluded-won (lost rows) store h = cc
  concluded-won (done rows) store h = ground arith

  abbrev replacement : Session → Session
  replacement s = new_session p settings checking clock fresh context s.user_id s.token_family_id

  -- A transaction that wins has rotated the session, and wrote nothing else.
  transact-won :
      (s : Session) (store : Store) {after : Store}
      → transact p settings checking clock fresh context s store ≡ (returns true, after)
      → (rotate checking s.id (replacement s) (clock 3) store.sessions ≡ done after.sessions)
        × (after.users ≡ store.users)
  unfolding transact
  transact-won s store h =
      concluded-won (rotate checking s.id (replacement s) (clock 3) store.sessions) store h

  abbrev pub Exchanged : Session → Store → Store → Type 0
  Exchanged s store after =
      (rotate checking s.id (replacement s) (clock 3) store.sessions ≡ done after.sessions)
      × (after.users ≡ store.users)

  identity_for_user-keeps :
      (user : String) (store : Store)
      → (identity_for_user p settings checking clock fresh context user store).1 ≡ store
  unfolding identity_for_user
  identity_for_user-keeps user store = ground arith

  settled :
      (won : Bool) (s : Session) (store : Store) (identity : Identity) {r : Identity × Tokens}
      {after : Store}
      → (transact p settings checking clock fresh context s store).0 ≡ returns won
      → (if won
            then pure (identity, tokens_for p settings checking clock fresh context identity)
            else mark_family_reused p settings checking clock fresh context s.token_family_id
                s.user_id
              >> throw invalid)
          (transact p settings checking clock fresh context s store).1
        ≡ (returns r, after)
      → Exchanged s store after
  unfolding mark_family_reused
  settled true s store identity {r} {after} won h =
      transact-won s store {after = after} (ground arith)
  settled false s store identity won h = cc

  pub exchange-returns :
      (s : Session) (store : Store) {r : Identity × Tokens} {after : Store}
      → exchange p settings checking clock fresh context s store ≡ (returns r, after)
      → Exchanged s store after
  unfolding exchange
  exchange-returns s store {r} {after} h =
      let (identity, known, h1) =
        bind-returns (identity_for_user p settings checking clock fresh context s.user_id) _ store
          h in
      let h2 : (transact p settings checking clock fresh context s >>= λ won.
      if won
      then pure (identity, tokens_for p settings checking clock fresh context identity)
      else mark_family_reused p settings checking clock fresh context s.token_family_id s.user_id
        >> throw invalid)
            store
          ≡ (returns r, after) =
        rw (← identity_for_user-keeps s.user_id store) h1 in
      let (won, won_eq, h3) =
        bind-returns (transact p settings checking clock fresh context s) _ store h2 in
      settled won s store identity won_eq h3

  -- What a refresh that returns found and did.
  pub record Refreshed (token csrf : String) (s : Session) (store after : Store) : Type 0 where
    pub found : find_by_hash (p.sha256 token) store.sessions ≡ some s
    pub csrf_matches : s.csrf_token_hash == p.sha256 csrf ≡ true
    pub was_active : is_active_status s.status ≡ true
    pub not_expired : leb s.expires_at (clock 0) ≡ false
    pub user_known : (u : User) × (find (λ (v : User). v.id == s.user_id) store.users ≡ some u)
    pub exchanged : Exchanged s store after

  find_session-found :
      (token csrf : String) (store : Store) (o : Option Session)
      → find_by_hash (p.sha256 token) store.sessions ≡ o
      → {s : Session}
      → (find_session p settings checking clock fresh context token csrf store).0 ≡ returns s
      → (o ≡ some s)
        × (s.csrf_token_hash == p.sha256 csrf ≡ true)
        × ((find_session p settings checking clock fresh context token csrf store).1 ≡ store)
  unfolding find_session
  find_session-found token csrf store none e h = ground arith
  find_session-found token csrf store (some r) e h =
      ground (arith, Bool-cases (r.csrf_token_hash == p.sha256 csrf))

  decided :
      (s : Session) (store : Store) (o : Option User) {r : Identity × Tokens} {after : Store}
      → (or_throw o rejected >>= λ user.
            if is_denied p settings checking clock fresh context s user
            then deny p settings checking clock fresh context s
            else exchange p settings checking clock fresh context s)
          store
        ≡ (returns r, after)
      → (is_active_status s.status ≡ true)
        × (leb s.expires_at (clock 0) ≡ false)
        × ((u : User) × (o ≡ some u))
        × (exchange p settings checking clock fresh context s store ≡ (returns r, after))
  unfolding deny
  decided s store none {r} {after} h = cc
  decided s store (some user) {r} {after} h =
      let parts : (is_active_status s.status ≡ true)
          × (leb s.expires_at (clock 0) ≡ false)
          × (exchange p settings checking clock fresh context s store ≡ (returns r, after)) =
        ground (
          arith,
          Bool-cases (is_active_status s.status),
          Bool-cases (leb s.expires_at (clock 0)),
          Bool-cases (is_enabled user.status),
        ) in
      (parts.0, parts.1, (user, refl), parts.2)

  refresh_with-returns :
      (token csrf : String) (store : Store) {r : Identity × Tokens} {after : Store}
      → refresh_with p settings checking clock fresh context token csrf store ≡ (returns r, after)
      → (s : Session) × Refreshed token csrf s store after
  unfolding refresh_with
  refresh_with-returns token csrf store {r} {after} h =
      let (s, known, h1) =
        bind-returns (find_session p settings checking clock fresh context token csrf) _ store h in
      let (found, matches, kept) =
        find_session-found token csrf store (find_by_hash (p.sha256 token) store.sessions) refl
          known in
      let h2 : (or_throw (find (λ (u : User). u.id == s.user_id) store.users) rejected >>= λ user.
      if is_denied p settings checking clock fresh context s user
      then deny p settings checking clock fresh context s
      else exchange p settings checking clock fresh context s)
            store
          ≡ (returns r, after) =
        rw (← kept) h1 in
      let (alive, in_time, user, h3) =
        decided s store (find (λ (u : User). u.id == s.user_id) store.users) h2 in
      (
        s,
        record {
          found = found;
          csrf_matches = matches;
          was_active = alive;
          not_expired = in_time;
          user_known = user;
          exchanged = exchange-returns s store h3;
        },
      )

  with_tokens-returns :
      (token csrf : Option String) (store : Store) {r : Identity × Tokens} {after : Store}
      → with_tokens p settings checking clock fresh context token csrf
          (refresh_with p settings checking clock fresh context)
          store
        ≡ (returns r, after)
      → (t : String) × (c : String) × (token ≡ some t)
        × (csrf ≡ some c)
        × (s : Session) × Refreshed t c s store after
  with_tokens-returns none csrf store h = cc
  with_tokens-returns (some t) none store h = cc
  with_tokens-returns (some t) (some c) store h =
      let (s, done_so) = refresh_with-returns t c store h in (t, c, refl, refl, s, done_so)

  -- A refresh that returns was given both tokens, found an active session that had not expired by its
  -- token, with the other token's hash, and rotated it.
  pub refresh-returns :
      (token csrf : Option String) (store : Store) {r : Identity × Tokens} {after : Store}
      → refresh p settings checking clock fresh context token csrf store ≡ (returns r, after)
      → (t : String) × (c : String) × (given token ≡ some t)
        × (given csrf ≡ some c)
        × (s : Session) × Refreshed t c s store after
  unfolding refresh
  refresh-returns token csrf store h = with_tokens-returns (given token) (given csrf) store h

-- Under the reference from a rotated session to its replacement as the migration declares it, which is
-- looked at after each statement, no refresh returns: whatever the sessions, the users, the tokens of
-- the request and the random values.
pub refresh-declared :
    (p : Platform) (settings : Settings) (clock : ℕ → ℕ) (fresh : Fresh) (context : Context)
    (token csrf : Option String) (store after : Store) (r : Identity × Tokens)
    → refresh p settings declared clock fresh context token csrf store ≢ (returns r, after)
refresh-declared p settings clock fresh context token csrf store after r h =
    let (t, c, _, _, s, got) =
      refresh-returns p settings declared clock fresh context token csrf store {r = r}
        {after = after} h in
    rotate-declared s.id _ (clock 3) store.sessions got.exchanged.0
