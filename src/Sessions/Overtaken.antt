-- ===== src/Sessions/Overtaken.antt =====
-- A refresh of apps/api/src/auth/auth.service.ts that has read its session as active and finds, in its
-- transaction, that another request has ended the session in between.
use manychat.Prelude.{ℕ, String, Bool, true, List, [], ◌∷◌, some, find, ◌==◌, ◌≡◌, refl, arith}
use manychat.Sessions.Table.{
  Session, Checking, lost, is_live, mark_rotated, mark_reused, in_family, update_many, count,
  references_hold, unique_replacements, rotate,
}
use manychat.Sessions.Service.{
  Store, User, Platform, Settings, Fresh, Context, throws, given, new_session, exchange, refresh,
  is_enabled, invalid,
}
use manychat.Sessions.Reuse.{NoneActive, Presents, mark_reused-NoneActive, marked_family-refused}

-- Where the statement updates nothing, no reference can fail and no row changes.
references_hold-none :
    (replacement : String) (test : Session → Bool) (rows after : List Session)
    → count test rows ≡ 0
    → references_hold replacement test rows after ≡ true
unfolding count references_hold
references_hold-none replacement test [] after h = refl
references_hold-none replacement test (s ∷ rows) after h =
    ground (arith, references_hold-none replacement test rows after)

update_many-none :
    (test : Session → Bool) (write : Session → Session) (rows : List Session)
    → count test rows ≡ 0
    → update_many test write rows ≡ rows
unfolding count update_many
update_many-none test write [] h = refl
update_many-none test write (s ∷ rows) h = ground (arith, update_many-none test write rows)

rotate-none :
    (checking : Checking) (id : String) (s : Session) (now : ℕ) (rows : List Session)
    → count (is_live id) rows ≡ 0
    → unique_replacements rows ≡ true
    → rotate checking id s now rows ≡ lost rows
unfolding rotate
rotate-none checking id s now rows h unique =
    let same = update_many-none (is_live id) (mark_rotated s.id now) rows h in
    rw (same, references_hold-none s.id (is_live id) rows rows h, unique) (ground (arith, h))

module _ (p : Platform) (settings : Settings) (checking : Checking) (clock : ℕ → ℕ) (fresh : Fresh)
    (context : Context) where
  overtaken :
      (s : Session) (u : User) (store : Store)
      → find (λ (v : User). v.id == s.user_id) store.users ≡ some u
      → is_enabled u.status ≡ true
      → rotate checking s.id
          (new_session p settings checking clock fresh context s.user_id s.token_family_id)
          (clock 3)
          store.sessions
        ≡ lost store.sessions
      → ((exchange p settings checking clock fresh context s store).0 ≡ throws invalid)
        × ((exchange p settings checking clock fresh context s store).1.sessions
            ≡ update_many
                (in_family s.token_family_id s.user_id)
                (mark_reused (clock 4) (clock 5))
                store.sessions)
        × ((exchange p settings checking clock fresh context s store).1.users ≡ store.users)
  unfolding exchange
  overtaken s u store known enabled h =
      (ground (arith, known, h), ground (arith, known, h), ground (arith, known, h))

module _ (p : Platform) (settings later_settings : Settings) (checking later_checking : Checking)
    (clock later_clock : ℕ → ℕ) (fresh later_fresh : Fresh) (context later_context : Context) where
  -- A refresh has read its session and the session's user, who is active. By the time of its
  -- transaction no row with the session's id is ACTIVE any more, since another request has logged it
  -- out, say. The refresh is then taken for a reuse, whenever the reference is checked: it is refused,
  -- no session of the user's token family is left active, and a later refresh with the tokens of any
  -- session of the family that the table held is refused and changes nothing. The table keeps the unique
  -- key of the replacements, the later session has a known user, and its tokens are not empty.
  pub exchange-overtaken :
      (s r : Session) (u : User) (t c : String) (store : Store)
      → find (λ (v : User). v.id == s.user_id) store.users ≡ some u
      → is_enabled u.status ≡ true
      → count (is_live s.id) store.sessions ≡ 0
      → unique_replacements store.sessions ≡ true
      → Presents p t c r store
      → in_family s.token_family_id s.user_id r ≡ true
      → given (some t) ≡ some t
      → given (some c) ≡ some c
      → let late = exchange p settings checking clock fresh context s store in
        (late.0 ≡ throws invalid)
        × NoneActive s.token_family_id s.user_id late.1.sessions
        × (refresh p later_settings later_checking later_clock later_fresh later_context
              (some t)
              (some c)
              late.1
            ≡ (throws invalid, late.1))
  exchange-overtaken s r u t c store known enabled ended unique h mine some_t some_c =
      let (thrown, rows, users) =
        overtaken p settings checking clock fresh context s u store known enabled
          (rotate-none checking s.id _ (clock 3) store.sessions ended unique) in
      (
        thrown,
        rw rows
            (mark_reused-NoneActive s.token_family_id s.user_id (clock 4) (clock 5) store.sessions),
        marked_family-refused p later_settings later_checking later_clock later_fresh later_context
            s.token_family_id s.user_id (clock 4) (clock 5) t c r store
            (exchange p settings checking clock fresh context s store).1 rows users h mine some_t
            some_c,
      )
