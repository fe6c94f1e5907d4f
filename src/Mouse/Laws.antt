-- ===== src/Mouse/Laws.antt =====
-- Invariants of the mouse driver over any sequence of its calls.
use existent_os.Prelude.{ℕ, ◌≡◌, refl, arith, true, List, [], ◌∷◌, Option, some}
use existent_os.Mouse.{
  Protocol, Packet, Mouse, loaded, init, handle_interrupt, is_basic_mouse_supported, set_protocol,
  update_from_packet,
}

-- The calls that change the driver's state.
pub data Call : Type 0 where
  start : Call
  interrupt : ℕ → Call
  choose : Protocol → Call
  update : Option Packet → Call

unfoldable pub perform : Call → Mouse → Mouse
perform start m = init m
perform (interrupt status) m = handle_interrupt status m
perform (choose protocol) m = set_protocol protocol m
perform (update packet) m = update_from_packet packet m

unfoldable pub replay : List Call → Mouse → Mouse
replay [] m = m
replay (c ∷ cs) m = replay cs (perform c m)

-- The three button bits, and the protocols that the driver supports.
pub record IsValid (m : Mouse) : Type 0 where
  pub active : is_basic_mouse_supported m.active_protocol ≡ true
  pub latest : is_basic_mouse_supported m.latest_packet.protocol ≡ true

perform-IsValid : (c : Call) {m : Mouse} → IsValid m → IsValid (perform c m)
unfolding perform init handle_interrupt set_protocol update_from_packet is_basic_mouse_supported
perform-IsValid start v = ground arith
perform-IsValid (interrupt status) v = ground arith
perform-IsValid (choose protocol) v = ground arith
perform-IsValid (update (some p)) v = ground arith
perform-IsValid (update Option.none) v = v

replay-IsValid_from : (cs : List Call) {m : Mouse} → IsValid m → IsValid (replay cs m)
unfolding replay
replay-IsValid_from [] v = v
replay-IsValid_from (c ∷ cs) v = replay-IsValid_from cs (perform-IsValid c v)

-- After any sequence of calls the active protocol and that of the latest packet are supported
-- ones: an unsupported protocol is never stored, from whichever call it comes.
pub replay-IsValid : (cs : List Call) → IsValid (replay cs loaded)
unfolding is_basic_mouse_supported
replay-IsValid cs = replay-IsValid_from cs (record { active = refl; latest = refl })
