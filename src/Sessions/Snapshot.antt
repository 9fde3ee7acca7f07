-- ===== src/Sessions/Snapshot.antt =====
-- What a request has read of a session in apps/api/src/auth/auth.service.ts stays true of its keys.
use manychat.Prelude.{
  String, Bool, false, List, [], ◌∷◌, some, any, ◌==◌, eq_iff, eq_refl, ◌≡◌, ◌≢◌, ◌∙◌, refl, inl,
  inr, arith, Bool-cases,
}
use manychat.Sessions.Table.{
  Session, is_live, has_id, mark_rotated, update_many, create, same_key, find_by_hash,
}
use manychat.Sessions.Active.{
  Distinct, IsOf, Snapshot, Statement, Reach, KeepsKeys, rotate-done, rotate-lost, create-some,
  logs_in, rotates, loses, expires, logs_out, revokes_all, finds_reuse, here, next,
}

-- No row has the identifier.
IsOf-absent :
    (id family : String) (rows : List Session) → any (has_id id) rows ≡ false → IsOf id family rows
IsOf-absent id family [] h = tt
IsOf-absent id family (s ∷ rows) h =
    (λ e. ground (arith, eq_iff s.id id), IsOf-absent id family rows (ground arith))

no_id :
    (s : Session) (rows : List Session)
    → any (same_key s) rows ≡ false
    → any (has_id s.id) rows ≡ false
no_id s [] h = refl
no_id s (r ∷ rows) h = ground (arith, no_id s rows)

-- A session that is found by its hash is there, and no other row has its identifier.
pub find_by_hash-Snapshot :
    (hash : String) (rows : List Session) {s : Session}
    → Distinct rows
    → find_by_hash hash rows ≡ some s
    → Snapshot s.id s.token_family_id rows
unfolding find_by_hash
find_by_hash-Snapshot hash [] d h = cc
find_by_hash-Snapshot hash (r ∷ rows) {s} (d, later) h =
    elim (Bool-cases (r.refresh_token_hash == hash)) [
      | inl e ↦
          let same : r ≡ s = ground arith in
          rw (← same) (record {
            there = rw (eq_refl r.id);
            of_family = (λ _. refl, IsOf-absent r.id r.token_family_id rows (no_id r rows d));
          })
      | inr e ↦
          let rest = find_by_hash-Snapshot hash rows {s = s} later (ground arith) in
          let other : r.id ≢ s.id = λ clash. ground (arith, no_id r rows d, rest.there, clash) in
          record {
            there = ground (arith, rest.there);
            of_family = (λ clash. absurd (other clash), rest.of_family);
          }
    ]

has_id-update_many :
    (test : Session → Bool) (write : Session → Session)
    → KeepsKeys write
    → (id : String) (rows : List Session)
    → any (has_id id) (update_many test write rows) ≡ any (has_id id) rows
unfolding update_many
has_id-update_many test write keeps id [] = refl
has_id-update_many test write keeps id (s ∷ rows) = elim (Bool-cases (test s)) [
  | inl e ↦ rw (e, (keeps s).0, has_id-update_many test write keeps id rows) refl
  | inr e ↦ rw (e, has_id-update_many test write keeps id rows) refl
]

IsOf-update_many :
    (test : Session → Bool) (write : Session → Session)
    → KeepsKeys write
    → (id family : String) (rows : List Session) → IsOf id family rows
    → IsOf id family (update_many test write rows)
unfolding update_many
IsOf-update_many test write keeps id family [] h = h
IsOf-update_many test write keeps id family (s ∷ rows) (h, later) = elim (Bool-cases (test s)) [
  | inl e ↦
      rw (e, (keeps s).0, (keeps s).2) (h, IsOf-update_many test write keeps id family rows later)
  | inr e ↦ rw e (h, IsOf-update_many test write keeps id family rows later)
]

update_many-Snapshot :
    (test : Session → Bool) (write : Session → Session)
    → KeepsKeys write
    → (id family : String) (rows : List Session) → Snapshot id family rows
    → Snapshot id family (update_many test write rows)
update_many-Snapshot test write keeps id family rows k = record {
  there = has_id-update_many test write keeps id rows ∙ k.there;
  of_family = IsOf-update_many test write keeps id family rows k.of_family;
}

create-Snapshot :
    (s : Session) (id family : String) (rows : List Session) {after : List Session}
    → create s rows ≡ some after
    → Snapshot id family rows
    → Snapshot id family after
create-Snapshot s id family rows made k =
    let (new, e) = create-some s rows made in
    let other : s.id ≢ id = λ clash. ground (arith, no_id s rows new, k.there, clash) in
    rw e (record {
      there = ground (arith, k.there);
      of_family = (λ clash. absurd (other clash), k.of_family);
    })

step-Snapshot :
    (id family : String) {rows after : List Session}
    → Statement rows after
    → Snapshot id family rows
    → Snapshot id family after
step-Snapshot id family {rows} (logs_in s fresh made) k = create-Snapshot s id family rows made k
step-Snapshot id family {rows} (rotates checking old s now known h) k =
    create-Snapshot s id family (update_many (is_live old) (mark_rotated s.id now) rows)
      (rotate-done checking old s now rows h).1
      (update_many-Snapshot _ _ (λ r. (refl, refl, refl)) id family rows k)
step-Snapshot id family {rows} (loses checking old s now h) k =
    rw (rotate-lost checking old s now rows h)
      (update_many-Snapshot _ _ (λ r. (refl, refl, refl)) id family rows k)
step-Snapshot id family {rows} (expires old e) k =
    rw e (update_many-Snapshot _ _ (λ r. (refl, refl, refl)) id family rows k)
step-Snapshot id family {rows} (logs_out old now e) k =
    rw e (update_many-Snapshot _ _ (λ r. (refl, refl, refl)) id family rows k)
step-Snapshot id family {rows} (revokes_all user now e) k =
    rw e (update_many-Snapshot _ _ (λ r. (refl, refl, refl)) id family rows k)
step-Snapshot id family {rows} (finds_reuse other user detected now e) k =
    rw e (update_many-Snapshot _ _ (λ r. (refl, refl, refl)) id family rows k)

-- The session that a request found by the hash of its token is still in the table, and of the same
-- family, after whatever other requests have done since.
pub reach-Snapshot :
    (hash : String) {rows after : List Session} {s : Session}
    → Distinct rows
    → find_by_hash hash rows ≡ some s
    → Reach rows after
    → Snapshot s.id s.token_family_id after
reach-Snapshot hash {rows} {after} {s} d found here =
    find_by_hash-Snapshot hash rows {s = s} d found
reach-Snapshot hash {rows} {after} {s} d found (next {middle = m} r st) =
    step-Snapshot s.id s.token_family_id st
      (reach-Snapshot hash {rows = rows} {after = m} {s = s} d found r)
