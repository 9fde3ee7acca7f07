-- ===== src/Media/Canvas/Tests.antt =====
-- Runs of `telegramPhotoCanvas` of packages/media-core/src/index.ts, and the theorem at one.
use manychat.Prelude.{ℕ, ◌*◌, ◌/◌, some, ◌≡◌, refl}
use manychat.Media.Identity.{accepted}
use manychat.Media.Validate.{photo_of}
use manychat.Media.Canvas.{sized, trim, telegram_photo_canvas, oriented_dimensions}
use manychat.Media.Canvas.Laws.{canvas-accepted}

abbrev unscaled : ℕ → ℕ
unscaled n = n

abbrev rounded_down : ℕ → ℕ → ℕ
rounded_down side sum = side * 10000 / sum

-- A strip is made higher, and then a little shorter.
strip_run : telegram_photo_canvas unscaled rounded_down (sized 9999 1) ≡ sized 9500 500
unfolding telegram_photo_canvas trim
strip_run = refl

turned_run : oriented_dimensions 3 4 (some 6) ≡ sized 4 3
unfolding oriented_dimensions
turned_run = refl

canvas-accepted_example :
    photo_of (some (telegram_photo_canvas unscaled rounded_down (sized 30000 100)))
    ≡ accepted (telegram_photo_canvas unscaled rounded_down (sized 30000 100))
canvas-accepted_example = canvas-accepted unscaled rounded_down (sized 30000 100)
