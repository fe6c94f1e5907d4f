-- ===== src/Pci/First.antt =====
-- The first match is unique, so the search finds it.
use existent_os.Prelude.{ℕ, ◌<◌, ◌≡◌, sym, arith, ◌∙◌, ap, true, some, inl, inr, ◌==◌, ◌↔◌}
use existent_os.Pci.{Device, describe, find_device, is_intel_gpu_present}
use existent_os.Pci.Rounds.{outcome}
use existent_os.Pci.Search.{position, IsFirstMatch, no_match_of_none, find_device-some}

module _ (config : ℕ → ℕ) (class_code subclass prog_if : ℕ) where
  -- There is one first match.
  first_match_unique :
      (d e : Device)
      → IsFirstMatch config class_code subclass prog_if d
      → IsFirstMatch config class_code subclass prog_if e
      → d ≡ e
  first_match_unique d e p q =
      let not_before : ¬ (position d.bus d.device d.function < position e.bus e.device e.function) =
        λ h.
          let no_match =
            q.before d.bus d.device d.function p.bus_range p.device_range p.function_range h in
          cc (no_match, p.matches) in
      let not_after : ¬ (position e.bus e.device e.function < position d.bus d.device d.function) =
        λ h.
          let no_match =
            p.before e.bus e.device e.function q.bus_range q.device_range q.function_range h in
          cc (no_match, q.matches) in
      let bus : d.bus ≡ e.bus =
        omega (arith, p.device_range, p.function_range, q.device_range, q.function_range) in
      let device : d.device ≡ e.device = omega (arith, bus, p.function_range, q.function_range) in
      let function : d.function ≡ e.function = omega (arith, bus, device) in
      p.described ∙ (λ i. describe config (bus i) (device i) (function i)) ∙ sym q.described

  -- If there is a match the search finds the first one.
  find_device-first :
      (d : Device)
      → IsFirstMatch config class_code subclass prog_if d
      → find_device config true class_code subclass prog_if ≡ some d
  find_device-first d p = elim (outcome (find_device config true class_code subclass prog_if)) [
    | inr e ↦
        let no_match =
          no_match_of_none config class_code subclass prog_if e d.bus d.device d.function
            p.bus_range p.device_range p.function_range in
        absurd (cc (no_match, p.matches))
    | inl (e, found) ↦
        found
        ∙ ap some
            (first_match_unique e d (find_device-some config class_code subclass prog_if e found) p)
  ]

  pub find_device-IsFirstMatch :
      (d : Device)
      → (find_device config true class_code subclass prog_if ≡ some d)
        ↔ IsFirstMatch config class_code subclass prog_if d
  find_device-IsFirstMatch d = (
    λ found. find_device-some config class_code subclass prog_if d found,
    λ first. find_device-first d first,
  )

-- The answer is about the first VGA display alone: an Intel display behind another vendor's is
-- not seen.
pub is_intel_gpu_present-first :
    (config : ℕ → ℕ) (d : Device)
    → IsFirstMatch config 0x03 0x00 0x00 d
    → is_intel_gpu_present config ≡ (d.vendor_id == 0x8086)
unfolding is_intel_gpu_present
is_intel_gpu_present-first config d p =
    rw (find_device-first config 0x03 0x00 0x00 d p, is_intel_gpu_present)
