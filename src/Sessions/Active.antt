-- ===== src/Sessions/Active.antt =====
-- The invariant of the table of sessions under every interleaving of the statements of
-- apps/api/src/auth/auth.service.ts: a token family has one active session at most.
use manychat.Prelude.{
  ℕ, ◌+◌, ◌≤◌, String, Bool, true, false, ◌&&◌, List, [], ◌∷◌, some, any, All, nat_eq_iff, ◌==◌,
  eq_iff, if◌then◌else◌, ◌≡◌, ◌≢◌, ◌∙◌, refl, inl, inr, arith, Bool-cases, Option-cases,
}
use manychat.Sessions.Table.{
  Session, is_active_status, is_live, has_id, in_family, active_of, mark_rotated, mark_expired,
  mark_revoked, mark_reused, Checking, update_many, count, create, same_key, rotate, lost, done,
}

-- The active sessions of a family.
abbrev active_in_family : String → Session → Bool
active_in_family family s = is_active_status s.status && s.token_family_id == family

unfoldable pub active_in : String → List Session → ℕ
unfolding count
active_in family rows = count (active_in_family family) rows

-- No row has the token family.
abbrev pub Unused : String → List Session → Type 0
Unused family rows = All (λ (s : Session). s.token_family_id ≢ family) rows

-- The session `id`, wherever it stands, is of the token family: what an earlier read said of it.
abbrev pub IsOf : String → String → List Session → Type 0
IsOf id family rows = All (λ (s : Session). s.id ≡ id → s.token_family_id ≡ family) rows

active_in-Unused :
    (family : String) (rows : List Session) → Unused family rows → active_in family rows ≡ 0
unfolding active_in count
active_in-Unused family [] h = refl
active_in-Unused family (s ∷ rows) (h, later) =
    ground (arith, eq_iff s.token_family_id family, active_in-Unused family rows later)

-- A statement that activates no row leaves no family with more active sessions.
active_in-update_many :
    (test : Session → Bool) (write : Session → Session)
    → ((s : Session) → is_active_status (write s).status ≡ false)
    → (family : String) (rows : List Session)
    → active_in family (update_many test write rows) ≤ active_in family rows
unfolding active_in count update_many
active_in-update_many test write quiet family [] = omega arith
active_in-update_many test write quiet family (s ∷ rows) =
    ground (arith, quiet s, active_in-update_many test write quiet family rows)

-- Each row that the rotation marks was an active session of the family.
active_in-marked :
    (id family replacement : String) (now : ℕ) (rows : List Session)
    → IsOf id family rows
    → active_in family (update_many (is_live id) (mark_rotated replacement now) rows)
        + count (is_live id) rows
      ≡ active_in family rows
unfolding active_in count update_many
active_in-marked id family replacement now [] h = refl
active_in-marked id family replacement now (s ∷ rows) (h, later) = ground (
  arith,
  h,
  eq_iff s.id id,
  eq_iff s.token_family_id family,
  active_in-marked id family replacement now rows later,
)

-- No two rows share an identifier or a hash.
abbrev pub Distinct : List Session → Type 0
Distinct [] = Unit
Distinct (s ∷ rows) = (any (same_key s) rows ≡ false) × Distinct rows

-- What an earlier read said of the session `id`: it is there, and of the token family.
pub record Snapshot (id family : String) (rows : List Session) : Type 0 where
  pub there : any (has_id id) rows ≡ true
  pub of_family : IsOf id family rows

-- A statement of `AuthService` by any request, in any order. What a request read before may be out of date, but for
-- the family of the session that it rotates. The family of a login is a new random one.
-- The statements of the services for users and account lifecycle, which revoke sessions and delete those
-- of a deleted user, are not among them.
pub data Statement (rows after : List Session) : Type 0 where
  logs_in :
      (s : Session)
      → Unused s.token_family_id rows
      → create s rows ≡ some after
      → Statement rows after
  rotates :
      (checking : Checking) (id : String) (s : Session) (now : ℕ)
      → Snapshot id s.token_family_id rows
      → rotate checking id s now rows ≡ done after
      → Statement rows after
  loses :
      (checking : Checking) (id : String) (s : Session) (now : ℕ)
      → rotate checking id s now rows ≡ lost after
      → Statement rows after
  expires : (id : String) → after ≡ update_many (has_id id) mark_expired rows → Statement rows after
  logs_out :
      (id : String) (now : ℕ)
      → after ≡ update_many (has_id id) (mark_revoked now) rows
      → Statement rows after
  revokes_all :
      (user : String) (now : ℕ)
      → after ≡ update_many (active_of user) (mark_revoked now) rows
      → Statement rows after
  finds_reuse :
      (family user : String) (detected now : ℕ)
      → after ≡ update_many (in_family family user) (mark_reused detected now) rows
      → Statement rows after

pub data Reach (rows : List Session) : List Session → Type 0 where
  here : Reach rows rows
  next :
      {middle after : List Session} → Reach rows middle → Statement middle after → Reach rows after

pub record Inv (rows : List Session) : Type 0 where
  pub one_active : (family : String) → active_in family rows ≤ 1
  pub distinct : Distinct rows

-- What a statement writes leaves the keys of a session alone.
abbrev pub KeepsKeys : (Session → Session) → Type 0
KeepsKeys write =
    (s : Session)
    → ((write s).id ≡ s.id)
      × ((write s).refresh_token_hash ≡ s.refresh_token_hash)
      × ((write s).token_family_id ≡ s.token_family_id)

same_key-update_many :
    (test : Session → Bool) (write : Session → Session)
    → KeepsKeys write
    → (s t : Session) (rows : List Session) → t.id ≡ s.id
    → t.refresh_token_hash ≡ s.refresh_token_hash
    → any (same_key t) (update_many test write rows) ≡ any (same_key s) rows
unfolding update_many
same_key-update_many test write keeps s t [] i h = refl
same_key-update_many test write keeps s t (r ∷ rows) i h = elim (Bool-cases (test r)) [
  | inl e ↦ rw e (
      rw (i, h, (keeps r).0, (keeps r).1)
        (ground (arith, same_key-update_many test write keeps s t rows i h)))
  | inr e ↦ rw e (rw (i, h) (ground (arith, same_key-update_many test write keeps s t rows i h)))
]

Distinct-update_many :
    (test : Session → Bool) (write : Session → Session)
    → KeepsKeys write
    → (rows : List Session) → Distinct rows
    → Distinct (update_many test write rows)
unfolding update_many
Distinct-update_many test write keeps [] d = d
Distinct-update_many test write keeps (s ∷ rows) (d, later) = elim (Bool-cases (test s)) [
  | inl e ↦ rw e (
    same_key-update_many test write keeps s (write s) rows (keeps s).0 (keeps s).1 ∙ d,
    Distinct-update_many test write keeps rows later,
  )
  | inr e ↦ rw e (
    same_key-update_many test write keeps s s rows refl refl ∙ d,
    Distinct-update_many test write keeps rows later,
  )
]

-- What `create` returns is the table with the row in front, whose keys are new.
pub create-some :
    (s : Session) (rows : List Session) {after : List Session}
    → create s rows ≡ some after
    → (any (same_key s) rows ≡ false) × (after ≡ s ∷ rows)
unfolding create
create-some s rows h = ground arith

-- A rotation is done where it marked one row and the new one could be created.
pub rotate-done :
    (checking : Checking) (id : String) (s : Session) (now : ℕ) (rows : List Session)
    {after : List Session}
    → rotate checking id s now rows ≡ done after
    → (count (is_live id) rows ≡ 1)
      × (create s (update_many (is_live id) (mark_rotated s.id now) rows) ≡ some after)
unfolding rotate
rotate-done checking id s now rows h = ground (
  arith,
  nat_eq_iff (count (is_live id) rows) 1,
  Option-cases (create s (update_many (is_live id) (mark_rotated s.id now) rows)),
)

pub rotate-lost :
    (checking : Checking) (id : String) (s : Session) (now : ℕ) (rows : List Session)
    {after : List Session}
    → rotate checking id s now rows ≡ lost after
    → after ≡ update_many (is_live id) (mark_rotated s.id now) rows
unfolding rotate
rotate-lost checking id s now rows h =
    ground (arith, Option-cases (create s (update_many (is_live id) (mark_rotated s.id now) rows)))

active_in-cons :
    (family : String) (s : Session) (rows : List Session)
    → active_in family (s ∷ rows)
      ≡ (if active_in_family family s then 1 else 0) + active_in family rows
unfolding active_in count
active_in-cons family s rows = refl

-- The statements that write no active row keep the invariant.
update_many-Inv :
    (test : Session → Bool) (write : Session → Session)
    → KeepsKeys write
    → ((s : Session) → is_active_status (write s).status ≡ false)
    → (rows : List Session) → Inv rows
    → Inv (update_many test write rows)
update_many-Inv test write keeps quiet rows v = record {
  one_active = λ family.
      omega (arith, active_in-update_many test write quiet family rows, v.one_active family);
  distinct = Distinct-update_many test write keeps rows v.distinct;
}

create-Inv :
    (s : Session) (rows : List Session) {after : List Session}
    → active_in s.token_family_id rows ≡ 0
    → create s rows ≡ some after
    → Inv rows
    → Inv after
create-Inv s rows empty made v =
    let (new, e) = create-some s rows made in
    rw e (record {
      one_active = λ family. ground (
        arith,
        active_in-cons family s rows,
        eq_iff s.token_family_id family,
        v.one_active family,
        empty,
      );
      distinct = (new, v.distinct);
    })

-- The rotated session was the active one of its family, so its replacement is the only one.
rotate-Inv :
    (checking : Checking) (id : String) (s : Session) (now : ℕ) (rows : List Session)
    {after : List Session}
    → IsOf id s.token_family_id rows
    → rotate checking id s now rows ≡ done after
    → Inv rows
    → Inv after
rotate-Inv checking id s now rows of_family h v =
    let (one, made) = rotate-done checking id s now rows h in
    create-Inv s (update_many (is_live id) (mark_rotated s.id now) rows)
      (omega (
        arith,
        one,
        active_in-marked id s.token_family_id s.id now rows of_family,
        v.one_active s.token_family_id,
      ))
      made (update_many-Inv _ _ (λ r. (refl, refl, refl)) (λ r. refl) rows v)

step-Inv : {rows after : List Session} → Statement rows after → Inv rows → Inv after
step-Inv {rows} (logs_in s fresh made) v =
    create-Inv s rows (active_in-Unused s.token_family_id rows fresh) made v
step-Inv {rows} (rotates checking id s now known h) v =
    rotate-Inv checking id s now rows known.of_family h v
step-Inv {rows} (loses checking id s now h) v =
    rw (rotate-lost checking id s now rows h)
      (update_many-Inv _ _ (λ r. (refl, refl, refl)) (λ r. refl) rows v)
step-Inv {rows} (expires id e) v =
    rw e (update_many-Inv _ _ (λ r. (refl, refl, refl)) (λ r. refl) rows v)
step-Inv {rows} (logs_out id now e) v =
    rw e (update_many-Inv _ _ (λ r. (refl, refl, refl)) (λ r. refl) rows v)
step-Inv {rows} (revokes_all user now e) v =
    rw e (update_many-Inv _ _ (λ r. (refl, refl, refl)) (λ r. refl) rows v)
step-Inv {rows} (finds_reuse family user detected now e) v =
    rw e (update_many-Inv _ _ (λ r. (refl, refl, refl)) (λ r. refl) rows v)

-- Whatever statements of `AuthService` the requests run, in any order and with reads that may be out of
-- date: if no
-- family had two active sessions and no two sessions shared an identifier or a hash, that is so after.
pub reach-Inv : {rows after : List Session} → Inv rows → Reach rows after → Inv after
reach-Inv v here = v
reach-Inv v (next r s) = step-Inv s (reach-Inv v r)
