-- ===== src/Idt/Examples.antt =====
-- A gate of kernel/drivers/system/idt.c at a concrete address.
use existent_os.Prelude.{◌≡◌, refl, [], ◌∷◌}
use existent_os.Idt.{gate_for}
use existent_os.Idt.Image.{gate_bytes}

-- The address is in three parts.
stored_gate :
    gate_bytes (gate_for 0xffff8000_00200110 0x08 0x8e)
    ≡ 0x10 ∷ 0x01 ∷ 0x08 ∷ 0 ∷ 0 ∷ 0x8e ∷ 0x20 ∷ 0 ∷ 0 ∷ 0x80 ∷ 0xff ∷ 0xff ∷ 0 ∷ 0 ∷ 0 ∷ 0 ∷ []
unfolding gate_for gate_bytes
stored_gate = refl
