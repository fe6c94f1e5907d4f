-- ===== src/Mouse.antt =====
-- kernel/drivers/mouse.c: the mouse driver's static variables and functions.
pub mod Cursor
pub mod Laws
mod Examples
use Prim.Native.Nat.{bit_and}
use existent_os.Prelude.{ℕ, Bool, true, false, not, Option, some, if◌then◌else◌}

-- `MouseProtocol`; `other` stands for the values that a C enum can hold beside its constants.
pub data Protocol : Type 0 where
  none ps2 hid : Protocol
  other : ℕ → Protocol

-- `MousePacket`. The deltas are the 8-bit patterns of an int8_t.
pub record Packet : Type 0 where
  pub dx : ℕ
  pub dy : ℕ
  pub buttons : ℕ
  pub protocol : Protocol

pub record Mouse : Type 0 where
  pub enabled : Bool
  pub active_protocol : Protocol
  pub latest_packet : Packet

-- The values that the static variables have when the program is loaded.
abbrev pub loaded : Mouse
loaded = record {
  enabled = false;
  active_protocol = ps2;
  latest_packet = record { dx = 0; dy = 0; buttons = 0; protocol = ps2 };
}

unfoldable pub init : Mouse → Mouse
init m = record {
  enabled = true;
  active_protocol = ps2;
  latest_packet = record m.latest_packet { protocol = ps2 };
}

unfoldable pub handle_interrupt : ℕ → Mouse → Mouse
handle_interrupt status m = if not m.enabled then m else record m {
  latest_packet = record m.latest_packet {
    buttons = bit_and status 0x07;
    protocol = m.active_protocol;
  };
}

unfoldable pub is_basic_mouse_supported : Protocol → Bool
is_basic_mouse_supported none = false
is_basic_mouse_supported ps2 = true
is_basic_mouse_supported hid = true
is_basic_mouse_supported (other n) = false

unfoldable pub set_protocol : Protocol → Mouse → Mouse
unfolding is_basic_mouse_supported
set_protocol protocol m =
    if is_basic_mouse_supported protocol
    then record m {
      active_protocol = protocol;
      latest_packet = record m.latest_packet { protocol = protocol };
    }
    else m

unfoldable pub get_protocol : Mouse → Protocol
get_protocol m = m.active_protocol

-- `none` is the null pointer.
unfoldable pub update_from_packet : Option Packet → Mouse → Mouse
update_from_packet Option.none m = m
update_from_packet (some p) m =
    if not (is_basic_mouse_supported p.protocol)
    then m
    else record m { latest_packet = record p { protocol = p.protocol } }
