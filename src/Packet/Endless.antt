-- ===== src/Packet/Endless.antt =====
-- A bundle whose first element has the size 2 ^ 32 - 4, in `ReceivedBundle::Init` of
-- oscpack_1_1_0/osc/OscReceivedElements.cpp.
use lua2sc.Prelude.{
  ℕ, zero, suc, ◌+◌, ◌%◌, ◌^◌, ◌≤◌, ◌<◌, ◌≡◌, refl, ap, ◌∙◌, arith, ◌++◌, true, false, length, drop,
  ◌==◌, ltb, if◌then◌else◌, Bool,
}
use lua2sc.Osc.Value.{
  Bytes, Result, ok, undefined, thrown, malformed_bundle, Numbers, table, ◌>>=◌, bytes_eq,
}
use lua2sc.Osc.Pack.{undefined_reading}
use lua2sc.Osc.Decode.{decode, from_packet, from_received, catch_packet}
use lua2sc.Packet.Order.{to_uint32}
use lua2sc.Packet.Write.{bundle_bytes}
use lua2sc.Packet.Memory.{is_multiple_of_4}
use lua2sc.Packet.Bundle.{
  is_bundle, check_elements, init_bundle, shown_bundle, read_bundle, received_by, received_at,
  receive,
}
use lua2sc.Packet.Wire.{oscpack}
use lua2sc.Packet.Read.{bind-by}
use lua2sc.Packet.Read.Whole.{is_valid_size-small, is_multiple_of_4-aligned}

module _ (m : Bytes) where
  abbrev sized_element : ℕ → ℕ → ℕ → ℕ → Result ℕ
  sized_element fuel p end n = elim (is_multiple_of_4 n) [
    | false ↦ thrown malformed_bundle
    | true ↦ elim (ltb end (p + (4 + n) % 2 ^ 32)) [
      | true ↦ thrown malformed_bundle
      | false ↦ check_elements fuel m (p + (4 + n) % 2 ^ 32) end >>= λ count. ok (count + 1)
    ]
  ]

  -- The loop never leaves the element, whatever the number of rounds.
  check_elements-endless :
      (fuel p end : ℕ)
      → p + 4 ≤ end
      → to_uint32 (drop p m) ≡ ok 0xffff_fffc
      → check_elements fuel m p end ≡ undefined
  unfolding check_elements is_multiple_of_4
  check_elements-endless zero p end room read = refl
  check_elements-endless (suc fuel) p end room read =
      let inside : ltb p end ≡ true = ground arith in
      let fits : ltb end (p + 4) ≡ false = ground arith in
      let stays : p + (4 + 0xffff_fffc) % 2 ^ 32 ≡ p = omega arith in
      let here : ltb end p ≡ false = ground arith in
      ap
        (λ b. elim b [
          | false ↦ if p == end then ok 0 else thrown malformed_bundle
          | true ↦ elim (ltb end (p + 4)) [
            | true ↦ thrown malformed_bundle
            | false ↦ to_uint32 (drop p m) >>= sized_element fuel p end
          ]
        ])
        inside
      ∙ ap
          (λ b. elim b [
            | true ↦ thrown malformed_bundle
            | false ↦ to_uint32 (drop p m) >>= sized_element fuel p end
          ])
          fits
      ∙ bind-by (sized_element fuel p end) read
      ∙ ap
          (λ q. elim (ltb end q) [
            | true ↦ thrown malformed_bundle
            | false ↦ check_elements fuel m q end >>= λ count. ok (count + 1)
          ])
          stays
      ∙ ap
          (λ b. elim b [
            | true ↦ thrown malformed_bundle
            | false ↦ check_elements fuel m p end >>= λ count. ok (count + 1)
          ])
          here
      ∙ ap (λ r. r >>= λ count. ok (count + 1)) (check_elements-endless fuel p end room read)

module _ (rest : Bytes) where
  abbrev packet : Bytes
  packet = bundle_bytes ++ rest

  init_bundle-endless :
      (n : ℕ)
      → n < 2 ^ 31
      → n % 4 ≡ 0
      → 20 ≤ n
      → check_elements (length packet) packet 16 n ≡ undefined
      → init_bundle packet 0 n ≡ undefined
  unfolding init_bundle bytes_eq
  init_bundle-endless n small fours room loop =
      let long : ltb n 16 ≡ false = ground arith in
      let whole_end : 0 + n ≡ n = omega arith in
      let checks = check_elements (length packet) packet 16 (0 + n) in
      ap
        (λ b. elim b [
          | false ↦ thrown malformed_bundle
          | true ↦ elim (ltb n 16) [
            | true ↦ thrown malformed_bundle
            | false ↦ elim (is_multiple_of_4 n) [ false ↦ thrown malformed_bundle | true ↦ checks ]
          ]
        ])
        (is_valid_size-small n small fours)
      ∙ ap
          (λ b. elim b [
            | true ↦ thrown malformed_bundle
            | false ↦ elim (is_multiple_of_4 n) [ false ↦ thrown malformed_bundle | true ↦ checks ]
          ])
          long
      ∙ ap (λ b. elim b [ false ↦ thrown malformed_bundle | true ↦ checks ])
          (is_multiple_of_4-aligned n fours)
      ∙ ap (check_elements (length packet) packet 16) whole_end
      ∙ loop

  receive-endless :
      length packet < 2 ^ 31
      → length packet % 4 ≡ 0
      → 20 ≤ length packet
      → init_bundle packet 0 (length packet) ≡ undefined
      → receive packet ≡ ok undefined_reading
  unfolding receive received_at received_by is_bundle read_bundle shown_bundle
  receive-endless small fours room endless =
      let size : length packet % 2 ^ 32 ≡ length packet = omega (arith, small) in
      let valid = is_valid_size-small (length packet) small fours in
      let not_empty : (length packet == 0) ≡ false = ground arith in
      let whole = is_multiple_of_4-aligned (length packet) fours in
      let positive : ltb 0 (length packet) ≡ true = ground arith in
      let short : ltb (length packet) (2 ^ 31) ≡ true = ground arith in
      rw (size, valid, not_empty, whole, positive, short, endless) refl

-- A bundle of less than 2 ^ 31 bytes, a multiple of four and at least 20, whose first element has the size
-- 2 ^ 32 - 4: `Init` never leaves its loop, however many rounds it is given, so that decoding the bundle
-- has no result.
pub decode-endless :
    (n : Numbers) (c : ℕ) (full : Bool) (rest : Bytes)
    → length (bundle_bytes ++ rest) < 2 ^ 31
    → length (bundle_bytes ++ rest) % 4 ≡ 0
    → 20 ≤ length (bundle_bytes ++ rest)
    → to_uint32 (drop 8 rest) ≡ ok 0xffff_fffc
    → ((fuel : ℕ)
        → check_elements fuel (bundle_bytes ++ rest) 16 (length (bundle_bytes ++ rest)) ≡ undefined)
      × (decode n (oscpack c) full (bundle_bytes ++ rest) ≡ undefined)
unfolding decode catch_packet from_packet from_received
decode-endless n c full rest small fours room read =
    let m = bundle_bytes ++ rest in
    let loop : (fuel : ℕ) → check_elements fuel m 16 (length m) ≡ undefined =
      λ fuel. check_elements-endless m fuel 16 (length m) room read in
    (
      loop,
      ap (λ r. catch_packet n (r >>= from_packet n full) >>= λ t. ok (table t))
          (receive-endless rest small fours room (
            init_bundle-endless rest (length (bundle_bytes ++ rest)) small fours room
              (loop (length m)))),
    )
