-- ===== src/Media/Dimensions/Ends.antt =====
-- The loop over the segments of a JPEG file ends.
use manychat.Prelude.{
  ℕ, zero, suc, ◌≤◌, ◌<◌, ◌≢◌, inl, inr, ◌||◌, List, [], ◌∷◌, none, some, length, nat_eq, ltb, any,
  arith, Bool-cases,
}
use manychat.Media.Bytes.{drop, read_big_endian_16}
use manychat.Media.Dimensions.{
  is_standalone, to_marker, past_fill, Round, gives, goes_on, jpeg_start_of_frame_markers,
  segment_round, after_marker, jpeg_round, jpeg_scan,
}

length-drop : (n : ℕ) (bytes : List ℕ) → length (drop n bytes) ≤ length bytes
length-drop zero bytes = omega arith
length-drop (suc n) [] = omega arith
length-drop (suc n) (b ∷ bytes) = omega (arith, length-drop n bytes)

length-to_marker : (bytes : List ℕ) → length (to_marker bytes) ≤ length bytes
length-to_marker [] = omega arith
length-to_marker (b ∷ bytes) = ground (arith, length-to_marker bytes)

length-past_fill : (bytes : List ℕ) → length (past_fill bytes) ≤ length bytes
length-past_fill [] = omega arith
length-past_fill (b ∷ bytes) = ground (arith, length-past_fill bytes)

-- A round that goes on leaves fewer than `n` bytes.
Below : ℕ → Round → Type 0
Below n (gives answer) = Unit {0}
Below n (goes_on rest) = length rest < n

segment_round-Below :
    (marker : ℕ) (rest : List ℕ) (segment_length : ℕ)
    → Below (suc (length rest)) (segment_round marker rest segment_length)
unfolding Below
segment_round-Below marker rest segment_length =
    elim (Bool-cases (ltb segment_length 2 || ltb (length rest) segment_length)) [
      | inl bad ↦ rw bad tt
      | inr good ↦ elim (Bool-cases (any (λ m. nat_eq m marker) jpeg_start_of_frame_markers)) [
        | inl start ↦ rw (good, start) tt
        | inr other ↦ rw (good, other) (omega (arith, length-drop segment_length rest))
      ]
    ]

after_marker-Below : (bytes : List ℕ) → Below (length bytes) (after_marker bytes)
unfolding Below
after_marker-Below [] = tt
after_marker-Below (marker ∷ rest) = elim (Bool-cases (is_standalone marker)) [
  | inl alone ↦ rw alone (omega arith)
  | inr other ↦ elim (Bool-cases (ltb (length rest) 2)) [
    | inl short ↦ rw (other, short) tt
    | inr long ↦ rw (other, long) (segment_round-Below marker rest (read_big_endian_16 rest 0))
  ]
]

Below-le : (m n : ℕ) (r : Round) → m ≤ n → Below m r → Below n r
unfolding Below
Below-le m n (gives answer) le h = tt
Below-le m n (goes_on rest) le h = omega arith

jpeg_round-Below : (bytes : List ℕ) → Below (length bytes) (jpeg_round bytes)
unfolding jpeg_round Below
jpeg_round-Below [] = tt
jpeg_round-Below (b ∷ bytes) =
    let found = to_marker (b ∷ bytes) in
    Below-le _ _ _
      (omega (arith, length-past_fill (to_marker (b ∷ bytes)), length-to_marker (b ∷ bytes)))
      (after_marker-Below (past_fill (to_marker (b ∷ bytes))))

round-ends :
    (fuel : ℕ)
    → ((rest : List ℕ) → length rest < fuel → jpeg_scan fuel rest ≢ none)
    → (r : Round) → Below fuel r
    → (elim r [ gives answer ↦ some answer | goes_on rest ↦ jpeg_scan fuel rest ]) ≢ none
unfolding Below
round-ends fuel later (gives answer) h = λ e. cc
round-ends fuel later (goes_on rest) h = later rest h

-- With more fuel than there are bytes the loop over the segments ends, whatever the bytes are.
pub jpeg_scan-ends : (fuel : ℕ) (bytes : List ℕ) → length bytes < fuel → jpeg_scan fuel bytes ≢ none
unfolding jpeg_scan
jpeg_scan-ends zero bytes h = absurd (omega arith)
jpeg_scan-ends (suc fuel) bytes h =
    round-ends fuel (jpeg_scan-ends fuel) (jpeg_round bytes)
      (Below-le (length bytes) fuel (jpeg_round bytes) (omega arith) (jpeg_round-Below bytes))
