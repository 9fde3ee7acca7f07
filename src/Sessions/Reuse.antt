-- ===== src/Sessions/Reuse.antt =====
-- Reuse detection in apps/api/src/auth/auth.service.ts: what happens to a token family when a token
-- that was rotated comes back, also after a logout with it.
use manychat.Prelude.{
  ℕ, String, Bool, true, false, List, [], ◌∷◌, some, find, ◌==◌, eq_refl, ◌≡◌, refl, inl, inr,
  arith, Bool-cases, All,
}
use manychat.Sessions.Table.{
  Session, TokenStatus, Checking, is_active_status, is_rotated, in_family, mark_reused, update_many,
  find_by_hash, has_id, mark_revoked,
}
use manychat.Sessions.Service.{
  Store, User, Platform, Settings, Fresh, Context, throws, returns, given, refresh_with, refresh,
  logout, invalid,
}

-- No session of the user's family is active.
abbrev pub NoneActive : String → String → List Session → Type 0
NoneActive family user rows =
    All (λ (s : Session). in_family family user s ≡ true → is_active_status s.status ≡ false) rows

pub mark_reused-NoneActive :
    (family user : String) (detected now : ℕ) (rows : List Session)
    → NoneActive family user (update_many (in_family family user) (mark_reused detected now) rows)
unfolding update_many
mark_reused-NoneActive family user detected now [] = tt
mark_reused-NoneActive family user detected now (s ∷ rows) = (
  elim (Bool-cases (in_family family user s)) [ inl e ↦ rw e (λ _. refl) | inr e ↦ rw e (λ h. cc) ],
  mark_reused-NoneActive family user detected now rows,
)

-- The request of a token finds the session, with the hash of the other token and a known user.
pub record Presents (p : Platform) (token csrf : String) (s : Session) (store : Store)
    : Type 0 where
  pub found : find_by_hash (p.sha256 token) store.sessions ≡ some s
  pub csrf_matches : s.csrf_token_hash == p.sha256 csrf ≡ true
  pub user_known : (u : User) × (find (λ (v : User). v.id == s.user_id) store.users ≡ some u)

module _ (p : Platform) (settings : Settings) (checking : Checking) (clock : ℕ → ℕ) (fresh : Fresh)
    (context : Context) where
  pub refresh_with-rotated :
      (token csrf : String) (s : Session) (store : Store)
      → Presents p token csrf s store
      → s.status ≡ TokenStatus.rotated
      → ((refresh_with p settings checking clock fresh context token csrf store).0 ≡ throws invalid)
        × ((refresh_with p settings checking clock fresh context token csrf store).1.sessions
            ≡ update_many
                (in_family s.token_family_id s.user_id)
                (mark_reused (clock 4) (clock 5))
                store.sessions)
        × ((refresh_with p settings checking clock fresh context token csrf store).1.users
            ≡ store.users)
  unfolding refresh_with
  refresh_with-rotated token csrf s store h old =
      let (u, known) = h.user_known in
      (
        ground (arith, known, h.found),
        ground (arith, known, h.found),
        ground (arith, known, h.found),
      )

  -- A session that stands in the table but is neither active nor rotated, say since it was revoked, is
  -- refused with nothing changed.
  pub refresh_with-ended :
      (token csrf : String) (s : Session) (store : Store)
      → Presents p token csrf s store
      → is_active_status s.status ≡ false
      → is_rotated s.status ≡ false
      → refresh_with p settings checking clock fresh context token csrf store
        ≡ (throws invalid, store)
  unfolding refresh_with
  refresh_with-ended token csrf s store h idle old =
      let (u, known) = h.user_known in ground (arith, known, h.found)

-- A row that an update has written is found again by its hash.
find_by_hash-update_many :
    (test : Session → Bool) (write : Session → Session)
    → ((r : Session) → (write r).refresh_token_hash ≡ r.refresh_token_hash)
    → (hash : String) (s : Session) (rows : List Session) → find_by_hash hash rows ≡ some s
    → test s ≡ true
    → find_by_hash hash (update_many test write rows) ≡ some (write s)
unfolding find_by_hash update_many
find_by_hash-update_many test write keeps hash s [] h hit = cc
find_by_hash-update_many test write keeps hash s (r ∷ rows) h hit =
    elim (Bool-cases (r.refresh_token_hash == hash)) [
      | inl e ↦ let same : r ≡ s = ground arith in rw (same, hit, keeps s) (ground (arith, same))
      | inr e ↦
          let later = find_by_hash-update_many test write keeps hash s rows (ground arith) hit in
          elim (Bool-cases (test r)) [
            | inl own ↦ rw (own, keeps r, e) later
            | inr own ↦ rw (own, e) later
          ]
    ]

module _ (p : Platform) (settings : Settings) (checking : Checking) (clock : ℕ → ℕ) (fresh : Fresh)
    (context : Context) where
  -- After a family has been marked, a refresh with the tokens of any of its sessions is refused and
  -- changes nothing.
  pub marked_family-refused :
      (family user : String) (detected now : ℕ) (t c : String) (r : Session) (store after : Store)
      → after.sessions
        ≡ update_many (in_family family user) (mark_reused detected now) store.sessions
      → after.users ≡ store.users
      → Presents p t c r store
      → in_family family user r ≡ true
      → given (some t) ≡ some t
      → given (some c) ≡ some c
      → refresh p settings checking clock fresh context (some t) (some c) after
        ≡ (throws invalid, after)
  unfolding refresh
  marked_family-refused family user detected now t c r store after rows users h mine some_t some_c =
      let (u, known) = h.user_known in
      let again : Presents p t c (mark_reused detected now r) after = record {
        found =
            rw rows
              (find_by_hash-update_many _ _ (λ _. refl) (p.sha256 t) r store.sessions h.found mine);
        csrf_matches = h.csrf_matches;
        user_known = (u, rw users known);
      } in
      rw (some_t, some_c)
        (refresh_with-ended p settings checking clock fresh context t c (mark_reused detected now r)
          after again refl refl)

module _ (p : Platform) (settings later_settings : Settings) (checking later_checking : Checking)
    (clock later_clock : ℕ → ℕ) (fresh later_fresh : Fresh) (context later_context : Context) where
  -- A refresh with the tokens of a session that stands in the table as ROTATED (however it came to be
  -- so) is refused and leaves no session of the user's token family active. Whatever session of the
  -- family the table held before, active or not, a refresh with its tokens at any later time, from
  -- anywhere, is then refused too and changes nothing. Both sessions have a known user, and the tokens
  -- are not empty.
  pub replayed_family-refused :
      (t c t' c' : String) (s r : Session) (store : Store)
      → Presents p t c s store
      → s.status ≡ TokenStatus.rotated
      → given (some t) ≡ some t
      → given (some c) ≡ some c
      → Presents p t' c' r store
      → in_family s.token_family_id s.user_id r ≡ true
      → given (some t') ≡ some t'
      → given (some c') ≡ some c'
      → let replayed = refresh p settings checking clock fresh context (some t) (some c) store in
        (replayed.0 ≡ throws invalid)
        × NoneActive s.token_family_id s.user_id replayed.1.sessions
        × (refresh p later_settings later_checking later_clock later_fresh later_context
              (some t')
              (some c')
              replayed.1
            ≡ (throws invalid, replayed.1))
  unfolding refresh
  replayed_family-refused t c t' c' s r store h old some_t some_c h' mine some_t' some_c' =
      let (thrown, rows, users) =
        refresh_with-rotated p settings checking clock fresh context t c s store h old in
      let later =
        marked_family-refused p later_settings later_checking later_clock later_fresh later_context
          s.token_family_id s.user_id (clock 4) (clock 5) t' c' r store
          (refresh_with p settings checking clock fresh context t c store).1 rows users h' mine
          some_t' some_c' in
      rw (some_t, some_c)
        (
          thrown,
          rw rows (
              mark_reused-NoneActive s.token_family_id s.user_id (clock 4) (clock 5)
                store.sessions),
          later,
        )

module _ (p : Platform) (settings : Settings) (checking : Checking) (clock later_clock : ℕ → ℕ)
    (fresh : Fresh) (context : Context) where
  logout-returns :
      (t c : String) (s : Session) (store : Store)
      → Presents p t c s store
      → given (some t) ≡ some t
      → given (some c) ≡ some c
      → ((logout p settings checking clock fresh context (some t) (some c) store).0 ≡ returns tt)
        × ((logout p settings checking clock fresh context (some t) (some c) store).1.sessions
            ≡ update_many (has_id s.id) (mark_revoked (clock 0)) store.sessions)
        × ((logout p settings checking clock fresh context (some t) (some c) store).1.users
            ≡ store.users)
  unfolding logout
  logout-returns t c s store h some_t some_c =
      rw (some_t, some_c)
        (ground (arith, h.found), ground (arith, h.found), ground (arith, h.found))

  -- A logout with the tokens of any session that the table holds, also of one that was rotated, revokes
  -- that session alone: a later refresh with the same tokens is refused and changes nothing, so the
  -- reuse of a rotated token is not detected, and its replacement stays as it was.
  pub logout-hides_reuse :
      (t c : String) (s : Session) (store : Store)
      → Presents p t c s store
      → given (some t) ≡ some t
      → given (some c) ≡ some c
      → let after = (logout p settings checking clock fresh context (some t) (some c) store).1 in
        (after.sessions ≡ update_many (has_id s.id) (mark_revoked (clock 0)) store.sessions)
        × (refresh p settings checking later_clock fresh context (some t) (some c) after
            ≡ (throws invalid, after))
  unfolding refresh
  logout-hides_reuse t c s store h some_t some_c =
      let (_, rows, users) = logout-returns t c s store h some_t some_c in
      let (u, known) = h.user_known in
      let again : Presents p t c (mark_revoked (clock 0) s)
          (logout p settings checking clock fresh context (some t) (some c) store).1 =
        record {
          found = rw rows (
              find_by_hash-update_many _ _ (λ _. refl) (p.sha256 t) s store.sessions h.found
                (eq_refl s.id));
          csrf_matches = h.csrf_matches;
          user_known = (u, rw users known);
        } in
      (
        rows,
        rw (some_t, some_c)
            (refresh_with-ended p settings checking later_clock fresh context t c
              (mark_revoked (clock 0) s)
              (logout p settings checking clock fresh context (some t) (some c) store).1 again refl
              refl),
      )
