-- ===== src/Inbound/Tests.antt =====
-- Runs of the failure model, and its theorems at inputs that meet their hypotheses.
use manychat.Prelude.{◌≡◌, refl}
use manychat.Inbound.{retry_delay_milliseconds}

fourth_delay : retry_delay_milliseconds 4 ≡ 8068
unfolding retry_delay_milliseconds
fourth_delay = refl
