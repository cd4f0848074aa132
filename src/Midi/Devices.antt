-- ===== src/Midi/Devices.antt =====
-- `listDevices` of luaportmidi/luaportmidi.c.
use lua2sc.Prelude.{
  ℕ, zero, suc, ◌+◌, ◌<◌, ◌≡◌, refl, sym, ap, ◌∙◌, arith, List, [], ◌∷◌, some, length, get_elem?,
}
use lua2sc.Midi.Port.{PortMidi, DeviceInfo}
use lua2sc.Midi.Core.{State, devices, list_from, list_devices}

module _ (p : PortMidi) where
  list_from-suc :
      (w : p.World) (left i : ℕ) (info : DeviceInfo) (ds : List (ℕ × DeviceInfo))
      → p.get_device_info w i ≡ some info
      → list_from p w left (i + 1) ≡ some ds
      → list_from p w (suc left) i ≡ some ((i, info) ∷ ds)
  unfolding list_from
  list_from-suc w left i info ds e runs = rw (list_from, e) (rw runs)

  -- What the loop shows: every device from `i` on, in order and with its own index.
  list_from_lem :
      (w : p.World) (left i : ℕ)
      → ((j : ℕ) → j < left → (info : DeviceInfo) × (p.get_device_info w (i + j) ≡ some info))
      → (ds : List (ℕ × DeviceInfo)) × (list_from p w left i ≡ some ds)
        × (length ds ≡ left)
        × ((j : ℕ)
            → j < left
            → (info : DeviceInfo) × (p.get_device_info w (i + j) ≡ some info)
              × (get_elem? ds j ≡ some (i + j, info)))
  unfolding list_from
  list_from_lem w zero i known = ([], refl, refl, λ j h. absurd (omega arith))
  list_from_lem w (suc left) i known =
      let (info, e₀) = known 0 (omega arith) in
      let e : p.get_device_info w i ≡ some info = ap (p.get_device_info w) (omega arith) ∙ e₀ in
      let (ds, runs, size, shows) = list_from_lem w left (i + 1) λ j h.
        let (info', e') = known (j + 1) (omega arith) in
        (info', ap (p.get_device_info w) (omega arith) ∙ e') in
      ((i, info) ∷ ds, list_from-suc w left i info ds e runs, ap suc size, each ds e shows)
    where
      each :
          {info : DeviceInfo} (ds : List (ℕ × DeviceInfo))
          → p.get_device_info w i ≡ some info
          → ((j : ℕ)
              → j < left
              → (info : DeviceInfo) × (p.get_device_info w (i + 1 + j) ≡ some info)
                × (get_elem? ds j ≡ some (i + 1 + j, info)))
          → (j : ℕ) → j < suc left
          → (info' : DeviceInfo) × (p.get_device_info w (i + j) ≡ some info')
            × (get_elem? ((i, info) ∷ ds) j ≡ some (i + j, info'))
      each {info} ds e shows zero h =
          let place : i ≡ i + 0 = omega arith in
          (info, ap (p.get_device_info w) (sym place) ∙ e, ap (λ (k : ℕ). some (k, info)) place)
      each ds e shows (suc j) h =
          let (info', known', here) = shows j (omega arith) in
          let place : i + 1 + j ≡ i + suc j = omega arith in
          (
            info',
            ap (p.get_device_info w) (sym place) ∙ known',
            here ∙ ap (λ (k : ℕ). some (k, info')) place,
          )

  -- Where the library knows every device below its count: `listDevices` returns a list with as many
  -- entries as there are devices, and its entry at each index is that index with what the library
  -- knows of the device; the state stays as it was.
  pub list_devices_lem :
      (s : State p)
      → ((i : ℕ)
          → i < p.count_devices s.world
          → (info : DeviceInfo) × (p.get_device_info s.world i ≡ some info))
      → (ds : List (ℕ × DeviceInfo)) × (list_devices p s ≡ (devices ds, s))
        × (length ds ≡ p.count_devices s.world)
        × ((i : ℕ)
            → i < p.count_devices s.world
            → (info : DeviceInfo) × (p.get_device_info s.world i ≡ some info)
              × (get_elem? ds i ≡ some (i, info)))
  unfolding list_devices
  list_devices_lem s known =
      let (ds, runs, size, shows) = list_from_lem s.world (p.count_devices s.world) 0 λ j h.
        let (info, e) = known j h in (info, ap (p.get_device_info s.world) (omega arith) ∙ e) in
      (
        ds,
        rw (list_devices, runs),
        size,
        λ j h.
            let (info, e, here) = shows j h in
            let same : 0 + j ≡ j = omega arith in
            (
              info,
              ap (p.get_device_info s.world) (sym same) ∙ e,
              here ∙ ap (λ (k : ℕ). some (k, info)) same,
            ),
      )
