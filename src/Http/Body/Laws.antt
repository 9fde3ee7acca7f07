-- ===== src/Http/Body/Laws.antt =====
-- What the receiver of a response resolves with.
use mathlib.Core.List.{append-nil, append_assoc}
use mathlib.Core.Path.{subst}
use manychat.Prelude.{
  ℕ, ◌+◌, ◌≤◌, ◌≡◌, refl, sym, ap, ◌∙◌, inl, inr, false, List, [], ◌∷◌, ◌++◌, map, Option, none,
  some, ltb, arith, Bool-cases,
}
use manychat.Http.Body.{
  Event, data_, broken, timeout, end, Settled, rejected, resolved, Receiver, maximum_response_bytes,
  or_before, settle, receive, receive_all, fresh, response_of,
}

module _ {Chunk : Type 0} (bytes : Chunk → ℕ) where
  -- The bytes of the chunks together.
  abbrev pub total : List Chunk → ℕ
  total [] = 0
  total (chunk ∷ chunks) = bytes chunk + total chunks

  total-append : (xs ys : List Chunk) → total (xs ++ ys) ≡ total xs + total ys
  total-append [] ys = omega arith
  total-append (x ∷ xs) ys = omega (arith, total-append xs ys)

  -- What a settled promise says of the size.
  abbrev Fits : Option (Settled Chunk) → Type 0
  Fits none = Unit {0}
  Fits (some (rejected e)) = Unit {0}
  Fits (some (resolved chunks)) = total chunks ≤ maximum_response_bytes

  record Bounded (r : Receiver Chunk) : Type 0 where
    counted : total r.chunks ≤ r.size
    few : total r.chunks ≤ maximum_response_bytes
    fits : Fits r.settled

  or_before-Fits :
      (before : Option (Settled Chunk)) (outcome : Settled Chunk)
      → Fits before
      → Fits (some outcome)
      → Fits (or_before before outcome)
  or_before-Fits none outcome h ok = ok
  or_before-Fits (some before) outcome h ok = h

  settle-Bounded :
      (outcome : Settled Chunk) (r : Receiver Chunk)
      → Fits (some outcome)
      → Bounded r
      → Bounded (settle outcome r)
  settle-Bounded outcome r ok b = record {
    counted = b.counted;
    few = b.few;
    fits = or_before-Fits r.settled outcome b.fits ok;
  }

  receive-Bounded :
      (r : Receiver Chunk) (event : Event Chunk) → Bounded r → Bounded (receive bytes r event)
  unfolding receive
  receive-Bounded r (data_ chunk) b =
      elim (Bool-cases (ltb maximum_response_bytes (r.size + bytes chunk))) [
        | inl long ↦ rw long (
            settle-Bounded _ _ tt
              (record { counted = omega (arith, b.counted); few = b.few; fits = b.fits }))
        | inr short ↦ rw short (record {
          counted = omega (arith, b.counted, total-append r.chunks (chunk ∷ []));
          few = ground (arith, b.counted, total-append r.chunks (chunk ∷ []));
          fits = b.fits;
        })
      ]
  receive-Bounded r (broken e) b = settle-Bounded _ r tt b
  receive-Bounded r timeout b = settle-Bounded _ r tt b
  receive-Bounded r end b = settle-Bounded _ r b.few b

  receive_all-Bounded :
      (r : Receiver Chunk) (events : List (Event Chunk))
      → Bounded r
      → Bounded (receive_all bytes r events)
  unfolding receive_all
  receive_all-Bounded r [] b = b
  receive_all-Bounded r (event ∷ events) b =
      receive_all-Bounded (receive bytes r event) events (receive-Bounded r event b)

  Fits-of_eq :
      (o : Option (Settled Chunk)) (chunks : List Chunk)
      → Fits o
      → o ≡ some (resolved chunks)
      → total chunks ≤ maximum_response_bytes
  Fits-of_eq o chunks h e = subst Fits e h

  fresh-Bounded : Bounded fresh
  fresh-Bounded = record { counted = omega arith; few = omega arith; fits = tt }

  -- Whatever events come, and whatever length is declared, a body that is resolved has at most
  -- 5 * 1024 * 1024 bytes.
  pub response_of-bounded :
      (declared : Option ℕ) (events : List (Event Chunk)) (chunks : List Chunk)
      → response_of bytes declared events ≡ some (resolved chunks)
      → total chunks ≤ maximum_response_bytes
  unfolding response_of
  response_of-bounded none events chunks h =
      Fits-of_eq _ chunks (receive_all-Bounded fresh events fresh-Bounded).fits h
  response_of-bounded (some declared) events chunks h =
      elim (Bool-cases (ltb maximum_response_bytes declared)) [
        | inl long ↦ cc (rw long at h)
        | inr short ↦
            Fits-of_eq _ chunks (receive_all-Bounded fresh events fresh-Bounded).fits
              (rw short at h)
      ]

  receive-settled :
      (r : Receiver Chunk) (event : Event Chunk) (outcome : Settled Chunk)
      → r.settled ≡ some outcome
      → (receive bytes r event).settled ≡ some outcome
  unfolding receive
  receive-settled r (data_ chunk) outcome h =
      elim (Bool-cases (ltb maximum_response_bytes (r.size + bytes chunk))) [
        | inl long ↦ rw (long, h) refl
        | inr short ↦ rw short h
      ]
  receive-settled r (broken e) outcome h = rw h refl
  receive-settled r timeout outcome h = rw h refl
  receive-settled r end outcome h = rw h refl

  receive_all-settled :
      (r : Receiver Chunk) (events : List (Event Chunk)) (outcome : Settled Chunk)
      → r.settled ≡ some outcome
      → (receive_all bytes r events).settled ≡ some outcome
  unfolding receive_all
  receive_all-settled r [] outcome h = h
  receive_all-settled r (event ∷ events) outcome h =
      receive_all-settled (receive bytes r event) events outcome (receive-settled r event outcome h)

  receive_all-data :
      (chunks : List Chunk) (before : List Chunk) (size : ℕ) (rest : List (Event Chunk))
      → size + total chunks ≤ maximum_response_bytes
      → (receive_all bytes
          (record { chunks = before; size = size; settled = none })
          (map data_ chunks ++ end ∷ rest)).settled
        ≡ some (resolved (before ++ chunks))
  unfolding receive_all
  receive_all-data [] before size rest h =
      receive_all-settled
        (settle (resolved before) (record { chunks = before; size = size; settled = none })) rest _
        refl
      ∙ ap (λ x. some (resolved x)) (sym (append-nil before))
  receive_all-data (chunk ∷ chunks) before size rest h =
      let short : ltb maximum_response_bytes (size + bytes chunk) ≡ false = ground arith in
      rw (receive_all, short)
        (receive_all-data chunks (before ++ chunk ∷ []) (size + bytes chunk) rest (omega arith))
      ∙ ap (λ x. some (resolved x)) (append_assoc before (chunk ∷ []) chunks)

  -- With no declared length, a body of at most 5 * 1024 * 1024 bytes that arrives first and then ends is resolved
  -- whole, in order, whatever comes after its end.
  pub response_of-whole :
      (chunks : List Chunk) (rest : List (Event Chunk))
      → total chunks ≤ maximum_response_bytes
      → response_of bytes none (map data_ chunks ++ end ∷ rest) ≡ some (resolved chunks)
  unfolding response_of
  response_of-whole chunks rest h = receive_all-data chunks [] 0 rest (omega arith)
