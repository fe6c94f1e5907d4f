-- ===== src/Pci/Search.antt =====
-- The search of pci.c finds the first match in the order of bus, device and function, and finds
-- one if there is one.
use existent_os.Prelude.{
  ℕ, ◌+◌, ◌*◌, ◌<◌, ◌≡◌, sym, arith, ◌∙◌, ap, true, false, Option, none, some, inl, inr, ◌↔◌,
}
use native.Mathlib.Decide.{ℕ_discrete}
use existent_os.Pci.Rounds.{outcome, Hit, first_some-Hit, first_some-none}
use existent_os.Pci.{Device, first_some, probe, is_match, describe, find_device}

-- The place of a function in the order of the search.
abbrev pub position : ℕ → ℕ → ℕ → ℕ
position bus device function = bus * 256 + device * 8 + function

-- A function of the wanted class.
pub record HasMatch (config : ℕ → ℕ) (class_code subclass prog_if : ℕ) : Type 0 where
  pub bus : ℕ
  pub device : ℕ
  pub function : ℕ
  pub bus_range : bus < 256
  pub device_range : device < 32
  pub function_range : function < 8
  pub matches : is_match config class_code subclass prog_if bus device function ≡ true

-- What a search that found `d` says: `d` describes a function of the wanted class, and no function
-- before it is of that class.
pub record IsFirstMatch (config : ℕ → ℕ) (class_code subclass prog_if : ℕ) (d : Device)
    : Type 0 where
  pub bus_range : d.bus < 256
  pub device_range : d.device < 32
  pub function_range : d.function < 8
  pub matches : is_match config class_code subclass prog_if d.bus d.device d.function ≡ true
  pub described : d ≡ describe config d.bus d.device d.function
  pub before :
      (bus device function : ℕ)
      → bus < 256
      → device < 32
      → function < 8
      → position bus device function < position d.bus d.device d.function
      → is_match config class_code subclass prog_if bus device function ≡ false

module _ (config : ℕ → ℕ) (class_code subclass prog_if : ℕ) where
  probe-none :
      (bus device function : ℕ)
      → probe config class_code subclass prog_if bus device function ≡ none
      → is_match config class_code subclass prog_if bus device function ≡ false
  unfolding probe
  probe-none bus device function h = ground arith

  probe-some :
      (bus device function : ℕ) (d : Device)
      → probe config class_code subclass prog_if bus device function ≡ some d
      → (is_match config class_code subclass prog_if bus device function ≡ true)
        × (d ≡ describe config bus device function)
  unfolding probe
  probe-some bus device function d h = ground arith

  functions : ℕ → ℕ → Option Device
  functions bus device = first_some (probe config class_code subclass prog_if bus device) 8 0

  devices : ℕ → Option Device
  devices bus = first_some (functions bus) 32 0

  no_match_on_device :
      (bus device : ℕ)
      → functions bus device ≡ none
      → (function : ℕ) → function < 8
      → is_match config class_code subclass prog_if bus device function ≡ false
  unfolding functions
  no_match_on_device bus device h function hf =
      probe-none bus device function (first_some-none _ 8 0 h function (omega arith) (omega arith))

  no_match_on_bus :
      (bus : ℕ)
      → devices bus ≡ none
      → (device function : ℕ) → device < 32
      → function < 8
      → is_match config class_code subclass prog_if bus device function ≡ false
  unfolding devices
  no_match_on_bus bus h device function hd hf =
      no_match_on_device bus device (first_some-none _ 32 0 h device (omega arith) (omega arith))
        function hf

  -- Before the rounds at which the three loops stopped there is no match.
  earlier_none :
      {d : Device} (b : Hit devices 256 0 d) (v : Hit (functions b.round) 32 0 d)
      (f : Hit (probe config class_code subclass prog_if b.round v.round) 8 0 d)
      (bus device function : ℕ)
      → bus < 256
      → device < 32
      → function < 8
      → position bus device function < position b.round v.round f.round
      → is_match config class_code subclass prog_if bus device function ≡ false
  earlier_none b v f bus device function hb hd hf earlier = elim (ℕ_discrete bus b.round) [
    | yes same_bus ↦ elim (ℕ_discrete device v.round) [
      | yes same_device ↦
          rw (same_bus, same_device)
            (probe-none b.round v.round function (
              f.before function (omega arith) (
                omega
                  (arith, ap (λ (t : ℕ). t * 256) same_bus, ap (λ (t : ℕ). t * 8) same_device))))
      | no other ↦ rw same_bus (
          no_match_on_device b.round device
            (v.before device (omega arith) (omega (arith, other, same_bus, f.below))) function hf)
    ]
    | no other ↦
        no_match_on_bus bus (b.before bus (omega arith) (omega (arith, other, v.below, f.below)))
          device function hd hf
  ]

  pub no_match_of_none :
      find_device config true class_code subclass prog_if ≡ none
      → (bus device function : ℕ) → bus < 256
      → device < 32
      → function < 8
      → is_match config class_code subclass prog_if bus device function ≡ false
  unfolding find_device devices functions
  no_match_of_none h bus device function hb hd hf =
      no_match_on_bus bus (first_some-none devices 256 0 h bus (omega arith) (omega arith)) device
        function hd hf

  -- A search that finds a device finds the first one of the wanted class, and describes it.
  pub find_device-some :
      (d : Device)
      → find_device config true class_code subclass prog_if ≡ some d
      → IsFirstMatch config class_code subclass prog_if d
  unfolding find_device devices functions describe
  find_device-some d h =
      let b = first_some-Hit devices 256 0 d h in
      let v = first_some-Hit (functions b.round) 32 0 d b.found in
      let f =
        first_some-Hit (probe config class_code subclass prog_if b.round v.round) 8 0 d v.found in
      let (matches, described) = probe-some b.round v.round f.round d f.found in
      let bus : d.bus ≡ b.round = ap (λ (x : Device). x.bus) described in
      let device : d.device ≡ v.round = ap (λ (x : Device). x.device) described in
      let function : d.function ≡ f.round = ap (λ (x : Device). x.function) described in
      record {
        bus_range = omega (arith, bus, b.below);
        device_range = omega (arith, device, v.below);
        function_range = omega (arith, function, f.below);
        matches =
            (λ i. is_match config class_code subclass prog_if (bus i) (device i) (function i))
            ∙ matches;
        described = described ∙ λ i. describe config (sym bus i) (sym device i) (sym function i);
        before = λ b' d' f' hb hd hf earlier. earlier_none b v f b' d' f' hb hd hf (
            let p : position d.bus d.device d.function ≡ position b.round v.round f.round =
              λ i. position (bus i) (device i) (function i) in
            omega (arith, earlier, p));
      }

  -- A search finds nothing exactly when no function of the 65536 is of the wanted class.
  pub find_device-none :
      (find_device config true class_code subclass prog_if ≡ none)
      ↔ (¬ HasMatch config class_code subclass prog_if)
  find_device-none = (
    λ absent here.
        let no_match =
          no_match_of_none absent here.bus here.device here.function here.bus_range
            here.device_range here.function_range in
        cc (no_match, here.matches),
    λ absent. elim (outcome (find_device config true class_code subclass prog_if)) [
      | inr e ↦ e
      | inl (d, e) ↦
          let first = find_device-some d e in
          absurd (
            absent (record {
              bus = d.bus;
              device = d.device;
              function = d.function;
              bus_range = first.bus_range;
              device_range = first.device_range;
              function_range = first.function_range;
              matches = first.matches;
            }))
    ],
  )
