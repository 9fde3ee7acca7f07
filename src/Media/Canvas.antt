-- ===== src/Media/Canvas.antt =====
-- `telegramPhotoCanvas` and `orientedDimensions` of packages/media-core/src/index.ts: the size at which a
-- photo is encoded again for Telegram. `product` stands for the rounding down of a side times a scale,
-- which is a product of doubles.
pub mod Laws
mod Tests
use manychat.Prelude.{
  ℕ, zero, suc, ◌+◌, ◌-◌, ◌*◌, ◌/◌, Bool, true, false, ◌&&◌, Option, none, some, leb, ltb,
  if◌then◌else◌,
}
use manychat.Media.Dimensions.{ImageDimensions}

abbrev pub or_one : ℕ → ℕ
or_one n = if ltb n 1 then 1 else n

-- `Math.ceil(n / 20)`
abbrev pub ceil_twentieth : ℕ → ℕ
ceil_twentieth n = (n + 19) / 20

abbrev pub sized : ℕ → ℕ → ImageDimensions
sized width height = record { width = width; height = height }

-- The `while` loop, on fuel.
unfoldable pub trim : ℕ → ImageDimensions → ImageDimensions
trim zero d = d
trim (suc fuel) d =
    let rest = trim fuel (
      if leb d.height d.width
      then sized (d.width - 1) d.height
      else sized d.width (d.height - 1)) in
    if ltb 10000 (d.width + d.height) then rest else d

abbrev pub limit_height : ImageDimensions → ImageDimensions
limit_height d = if ltb (20 * d.height) d.width then sized d.width (ceil_twentieth d.width) else d

abbrev pub limit_width : ImageDimensions → ImageDimensions
limit_width d = if ltb (20 * d.width) d.height then sized (ceil_twentieth d.height) d.height else d

-- `shrink side sum` is the side times 10000 / sum, rounded down.
abbrev pub limit_sum : (ℕ → ℕ → ℕ) → ImageDimensions → ImageDimensions
limit_sum shrink d =
    if ltb 10000 (d.width + d.height)
    then sized (or_one (shrink d.width (d.width + d.height)))
        (or_one (shrink d.height (d.width + d.height)))
    else d

unfoldable pub telegram_photo_canvas : (ℕ → ℕ) → (ℕ → ℕ → ℕ) → ImageDimensions → ImageDimensions
unfolding trim
telegram_photo_canvas scaled shrink d =
    let near = limit_width (
      limit_height
        (limit_sum shrink (sized (or_one (scaled d.width)) (or_one (scaled d.height))))) in
    trim (near.width + near.height) near

-- An orientation from 5 to 8 stands on its side.
unfoldable pub oriented_dimensions : ℕ → ℕ → Option ℕ → ImageDimensions
oriented_dimensions width height none = sized width height
oriented_dimensions width height (some orientation) =
    if leb 5 orientation && leb orientation 8 then sized height width else sized width height
