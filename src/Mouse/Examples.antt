-- ===== src/Mouse/Examples.antt =====
-- The theorems about kernel/drivers/mouse.c at concrete calls.
use existent_os.Prelude.{◌≡◌, refl, true, List, [], ◌∷◌, some}
use existent_os.Mouse.{
  Protocol, loaded, init, handle_interrupt, set_protocol, get_protocol, update_from_packet,
  is_basic_mouse_supported,
}
use existent_os.Mouse.Laws.{Call, replay, perform}

abbrev script : List Call
script =
    Call.start
    ∷ Call.interrupt 0xfd
    ∷ Call.choose Protocol.none
    ∷ Call.choose Protocol.hid
    ∷ Call.update (some (record { dx = 1; dy = 255; buttons = 1; protocol = Protocol.none }))
    ∷ []

replay-script : replay script loaded ≡ record {
  enabled = true;
  active_protocol = Protocol.hid;
  latest_packet = record { dx = 0; dy = 0; buttons = 5; protocol = Protocol.hid };
}
unfolding replay perform init handle_interrupt set_protocol update_from_packet
    is_basic_mouse_supported
replay-script = refl

chosen : get_protocol (replay script loaded) ≡ Protocol.hid
unfolding replay perform init handle_interrupt set_protocol update_from_packet get_protocol
    is_basic_mouse_supported
chosen = refl
