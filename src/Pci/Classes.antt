-- ===== src/Pci/Classes.antt =====
-- The search of pci.c by the bytes that the functions have in their configuration spaces.
use existent_os.Prelude.{
  ℕ, ◌+◌, ◌*◌, ◌<◌, ◌≡◌, ◌≢◌, refl, sym, arith, ◌∙◌, true, some, inl, inr, ◌↔◌, Bool-cases,
}
use existent_os.Pci.{Device, is_match, describe, find_device}
use existent_os.Pci.Reads.{IsConfigPort, read_config8-byte, read_config16-bytes}
use existent_os.Pci.Search.{position, IsFirstMatch}
use existent_os.Pci.First.{find_device-IsFirstMatch}

-- The header of a function by the PCI local bus specification: the vendor at byte 0, which is
-- 0xffff where there is no function, the device at 2, the programming interface at 9, the subclass
-- at 10, the class at 11 and the header type at 14.
module _ (space : ℕ → ℕ → ℕ → ℕ → ℕ) where
  abbrev vendor_of : ℕ → ℕ → ℕ → ℕ
  vendor_of bus device function = space bus device function 0 + 256 * space bus device function 1

  -- A function is there and has the three bytes of the class.
  pub record IsOfClass (class_code subclass prog_if bus device function : ℕ) : Type 0 where
    pub present : vendor_of bus device function ≢ 0xffff
    pub has_class : space bus device function 11 ≡ class_code
    pub has_subclass : space bus device function 10 ≡ subclass
    pub has_prog_if : space bus device function 9 ≡ prog_if

  -- The header of one function of the machine.
  abbrev pub header : ℕ → ℕ → ℕ → Device
  header bus device function = record {
    bus = bus;
    device = device;
    function = function;
    vendor_id = vendor_of bus device function;
    device_id = space bus device function 2 + 256 * space bus device function 3;
    class_code = space bus device function 11;
    subclass = space bus device function 10;
    prog_if = space bus device function 9;
    header_type = space bus device function 14;
  }

  -- The first function of a class, in the order of bus, device and function.
  pub record IsFirst (class_code subclass prog_if : ℕ) (d : Device) : Type 0 where
    pub bus_range : d.bus < 256
    pub device_range : d.device < 32
    pub function_range : d.function < 8
    pub of_class : IsOfClass class_code subclass prog_if d.bus d.device d.function
    pub is_header : d ≡ header d.bus d.device d.function
    pub before :
        (bus device function : ℕ)
        → bus < 256
        → device < 32
        → function < 8
        → position bus device function < position d.bus d.device d.function
        → ¬ IsOfClass class_code subclass prog_if bus device function

module _ (config : ℕ → ℕ) (space : ℕ → ℕ → ℕ → ℕ → ℕ) (port : IsConfigPort config space) where
  module _ (bus device function : ℕ) (hb : bus < 256) (hd : device < 32) (hf : function < 8) where
    describe-header : describe config bus device function ≡ header space bus device function
    unfolding describe
    describe-header =
        rw
          (
            read_config16-bytes port bus device function 0 hb hd hf (omega arith) refl,
            read_config16-bytes port bus device function 2 hb hd hf (omega arith) refl,
            read_config8-byte port bus device function 11 hb hd hf (omega arith),
            read_config8-byte port bus device function 10 hb hd hf (omega arith),
            read_config8-byte port bus device function 9 hb hd hf (omega arith),
            read_config8-byte port bus device function 14 hb hd hf (omega arith),
          )
          refl

    is_match-IsOfClass :
        (class_code subclass prog_if : ℕ)
        → (is_match config class_code subclass prog_if bus device function ≡ true)
          ↔ IsOfClass space class_code subclass prog_if bus device function
    unfolding is_match
    is_match-IsOfClass class_code subclass prog_if =
        let vendor = read_config16-bytes port bus device function 0 hb hd hf (omega arith) refl in
        let class = read_config8-byte port bus device function 11 hb hd hf (omega arith) in
        let sub = read_config8-byte port bus device function 10 hb hd hf (omega arith) in
        let interface = read_config8-byte port bus device function 9 hb hd hf (omega arith) in
        (
          λ matches. record {
            present = ground (arith, vendor);
            has_class = ground (arith, class);
            has_subclass = ground (arith, sub);
            has_prog_if = ground (arith, interface);
          },
          λ h.
              let present = h.present in
              let has_class = h.has_class in
              let has_subclass = h.has_subclass in
              let has_prog_if = h.has_prog_if in ground (arith, vendor, class, sub, interface),
        )

  module _ (class_code subclass prog_if : ℕ) where
    IsFirstMatch-IsFirst :
        (d : Device)
        → IsFirstMatch config class_code subclass prog_if d
          ↔ IsFirst space class_code subclass prog_if d
    IsFirstMatch-IsFirst d = (
      λ m. record {
        bus_range = m.bus_range;
        device_range = m.device_range;
        function_range = m.function_range;
        of_class =
            (is_match-IsOfClass d.bus d.device d.function m.bus_range m.device_range
                m.function_range class_code subclass prog_if).0
              m.matches;
        is_header =
            m.described
            ∙ describe-header d.bus d.device d.function m.bus_range m.device_range m.function_range;
        before = λ b v f hb hd hf earlier of_class.
            let found =
              (is_match-IsOfClass b v f hb hd hf class_code subclass prog_if).1 of_class in
            let missing = m.before b v f hb hd hf earlier in absurd (cc (found, missing));
      },
      λ m. record {
        bus_range = m.bus_range;
        device_range = m.device_range;
        function_range = m.function_range;
        matches =
            (is_match-IsOfClass d.bus d.device d.function m.bus_range m.device_range
                m.function_range class_code subclass prog_if).1
              m.of_class;
        described =
            m.is_header
            ∙ sym (
                describe-header d.bus d.device d.function m.bus_range m.device_range
                  m.function_range);
        before = λ b v f hb hd hf earlier.
            elim (Bool-cases (is_match config class_code subclass prog_if b v f)) [
              | inl e ↦ absurd (
                  m.before b v f hb hd hf earlier
                    ((is_match-IsOfClass b v f hb hd hf class_code subclass prog_if).0 e))
              | inr e ↦ e
            ];
      },
    )

    -- With ports that give each word of the configuration spaces, pci_find_device answers with `d`
    -- exactly when `d` is the header of a function that is there and has the wanted class, subclass
    -- and programming interface in its bytes 11, 10 and 9, and no function before it, in the order of
    -- bus, device and function, is there and has them.
    pub find_device_iff :
        (d : Device)
        → (find_device config true class_code subclass prog_if ≡ some d)
          ↔ IsFirst space class_code subclass prog_if d
    find_device_iff d =
        let found = find_device-IsFirstMatch config class_code subclass prog_if d in
        let first = IsFirstMatch-IsFirst d in (λ h. first.0 (found.0 h), λ h. found.1 (first.1 h))
