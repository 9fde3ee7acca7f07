-- ===== src/Media/Canvas/Laws.antt =====
-- The size that a photo is encoded at keeps within the limits that `validateTelegramPhoto` checks.
use manychat.Prelude.{
  ℕ, zero, suc, ◌+◌, ◌-◌, ◌*◌, ◌≤◌, true, false, some, leb, ltb, ◌≡◌, inl, inr, nat_eq_iff, arith,
  Bool-cases,
}
use manychat.Media.Dimensions.{ImageDimensions}
use manychat.Media.Identity.{accepted}
use manychat.Media.Validate.{photo_of}
use manychat.Media.Canvas.{
  or_one, ceil_twentieth, sized, trim, limit_height, limit_width, limit_sum, telegram_photo_canvas,
}

-- No side is zero, and neither is more than 20 times the other.
pub record IsNear (d : ImageDimensions) : Type 0 where
  pub wide : 1 ≤ d.width
  pub high : 1 ≤ d.height
  pub not_flat : d.width ≤ 20 * d.height
  pub not_thin : d.height ≤ 20 * d.width

less_wide :
    (d : ImageDimensions)
    → IsNear d
    → ltb 10000 (d.width + d.height) ≡ true
    → leb d.height d.width ≡ true
    → IsNear (sized (d.width - 1) d.height)
less_wide d h large flat = record {
  wide = ground (arith, h.wide, large, flat);
  high = h.high;
  not_flat = omega (arith, h.not_flat);
  not_thin = ground (arith, h.high, large, flat);
}

less_high :
    (d : ImageDimensions)
    → IsNear d
    → ltb 10000 (d.width + d.height) ≡ true
    → leb d.height d.width ≡ false
    → IsNear (sized d.width (d.height - 1))
less_high d h large thin = record {
  wide = h.wide;
  high = ground (arith, h.high, large, thin);
  not_flat = ground (arith, h.wide, large, thin);
  not_thin = omega (arith, h.not_thin);
}

trim-IsNear : (fuel : ℕ) (d : ImageDimensions) → IsNear d → IsNear (trim fuel d)
unfolding trim
trim-IsNear zero d h = h
trim-IsNear (suc fuel) d h = elim (Bool-cases (ltb 10000 (d.width + d.height))) [
  | inr small ↦ rw small h
  | inl large ↦ rw large (elim (Bool-cases (leb d.height d.width)) [
    | inl flat ↦
        rw flat (trim-IsNear fuel (sized (d.width - 1) d.height) (less_wide d h large flat))
    | inr thin ↦
        rw thin (trim-IsNear fuel (sized d.width (d.height - 1)) (less_high d h large thin))
  ])
]

-- As much fuel as the sides exceed the limit by is enough.
trim-small :
    (fuel : ℕ) (d : ImageDimensions)
    → IsNear d
    → d.width + d.height ≤ fuel + 10000
    → (trim fuel d).width + (trim fuel d).height ≤ 10000
unfolding trim
trim-small zero d h few = omega (arith, few)
trim-small (suc fuel) d h few = elim (Bool-cases (ltb 10000 (d.width + d.height))) [
  | inr small ↦ rw small (ground (arith, small))
  | inl large ↦ rw large (elim (Bool-cases (leb d.height d.width)) [
    | inl flat ↦ rw flat (
        trim-small fuel (sized (d.width - 1) d.height) (less_wide d h large flat)
          (ground (arith, few, h.wide)))
    | inr thin ↦ rw thin (
        trim-small fuel (sized d.width (d.height - 1)) (less_high d h large thin)
          (ground (arith, few, h.high)))
  ])
]

ceil-bounds :
    (n : ℕ)
    → 1 ≤ n
    → (1 ≤ ceil_twentieth n) × ((ceil_twentieth n ≤ n) × (n ≤ 20 * ceil_twentieth n))
ceil-bounds n h = (omega (arith, h), (omega (arith, h), omega arith))

limited-IsNear :
    (width height : ℕ)
    → 1 ≤ width
    → 1 ≤ height
    → IsNear (limit_width (limit_height (sized width height)))
limited-IsNear width height w h = elim (Bool-cases (ltb (20 * height) width)) [
  | inl flat ↦
      let (some_high, (below, above)) = ceil-bounds width w in
      let fine : ltb (20 * width) (ceil_twentieth width) ≡ false = ground (arith, below) in
      rw (flat, fine)
        (record { wide = w; high = some_high; not_flat = above; not_thin = omega (arith, below) })
  | inr fine ↦ rw fine (elim (Bool-cases (ltb (20 * width) height)) [
    | inl thin ↦
        let (some_wide, (below, above)) = ceil-bounds height h in
        rw thin
          (record { wide = some_wide; high = h; not_flat = omega (arith, below); not_thin = above })
    | inr near ↦ rw near (record {
      wide = w;
      high = h;
      not_flat = ground (arith, fine);
      not_thin = ground (arith, near);
    })
  ])
]

or_one-pos : (n : ℕ) → 1 ≤ or_one n
or_one-pos n = ground arith

limit_sum-pos :
    (shrink : ℕ → ℕ → ℕ) (width height : ℕ)
    → 1 ≤ width
    → 1 ≤ height
    → (1 ≤ (limit_sum shrink (sized width height)).width)
      × (1 ≤ (limit_sum shrink (sized width height)).height)
limit_sum-pos shrink width height w h = elim (Bool-cases (ltb 10000 (width + height))) [
  | inl large ↦
      rw large
        (or_one-pos (shrink width (width + height)), or_one-pos (shrink height (width + height)))
  | inr small ↦ rw small (w, h)
]

near-accepted :
    (d : ImageDimensions) → IsNear d → d.width + d.height ≤ 10000 → photo_of (some d) ≡ accepted d
near-accepted d h small = ground (
  arith,
  h.wide,
  h.high,
  h.not_flat,
  h.not_thin,
  small,
  nat_eq_iff d.width 0,
  nat_eq_iff d.height 0,
)

-- Whatever the doubles are rounded to, the size that is computed passes the check of a Telegram photo's
-- dimensions.
pub canvas-accepted :
    (scaled : ℕ → ℕ) (shrink : ℕ → ℕ → ℕ) (d : ImageDimensions)
    → photo_of (some (telegram_photo_canvas scaled shrink d))
      ≡ accepted (telegram_photo_canvas scaled shrink d)
unfolding telegram_photo_canvas
canvas-accepted scaled shrink d =
    let first = limit_sum shrink (sized (or_one (scaled d.width)) (or_one (scaled d.height))) in
    let (w, h) =
      limit_sum-pos shrink (or_one (scaled d.width)) (or_one (scaled d.height))
        (or_one-pos (scaled d.width)) (or_one-pos (scaled d.height)) in
    let near = limit_width (limit_height first) in
    let is_near : IsNear near = limited-IsNear first.width first.height w h in
    near-accepted (trim (near.width + near.height) near)
      (trim-IsNear (near.width + near.height) near is_near)
      (trim-small (near.width + near.height) near is_near (omega arith))
