-- ===== src/LockStatus/Led.antt =====
-- What showing the status on the LED leaves alone.
use smart_door_lock_io_t.Common.{Bool, true, false, ◌≡◌, refl}
use smart_door_lock_io_t.Platform.{Event, led_init, led_clear, led_refresh, led_pixel}
use smart_door_lock_io_t.Device.{Device}
use smart_door_lock_io_t.Device.Keeps.{
  Keeps, Ignores, Keeps-bind, Keeps-if, Keeps-modify, Keeps-pure, Keeps-emit, Keeps-gets,
}
use smart_door_lock_io_t.LockStatus.{configure_led, change_led_color, update_led_color}

abbrev pub is_led_event : Event → Bool
is_led_event led_init = true
is_led_event led_clear = true
is_led_event led_refresh = true
is_led_event (led_pixel r g b) = true
is_led_event _ = false

-- The LED shows its status: what looks at no event of the LED is kept.
module _ {P : Device → Type 0} (ignores : (e : Event) → is_led_event e ≡ true → Ignores P e)
    (configured : (d : Device) → P d → P (record d { led_configured = true })) where
  pub update_led_color-Keeps : Keeps P update_led_color
  unfolding update_led_color configure_led change_led_color
  update_led_color-Keeps = Keeps-bind _ _ (Keeps-gets _) (λ ready.
      Keeps-bind _ _
        (Keeps-if ready _ _ (Keeps-pure _) (
          Keeps-bind _ _ (Keeps-gets _) (λ again. Keeps-if again _ _ (Keeps-pure _) (
            Keeps-bind _ _ (Keeps-modify _ configured) (λ _.
              Keeps-bind _ _ (Keeps-emit _ (ignores led_init refl))
                (λ _. Keeps-emit _ (ignores led_clear refl)))))))
        (λ _. Keeps-bind _ _ (Keeps-gets _) (λ status.
          Keeps-bind _ _ (Keeps-emit _ (ignores (led_pixel _ _ _) refl))
            (λ _. Keeps-emit _ (ignores led_refresh refl)))))
