-- ===== src/Packet/Encoded.antt =====
-- Integers, texts and blobs that were written by oscpack_1_1_0/osc, read back.
use lua2sc.Prelude.{
  zero, suc, sym, [], ◌∷◌, ℕ, ◌+◌, ◌-◌, ◌%◌, ◌^◌, ◌<◌, ◌≡◌, refl, ap, ◌∙◌, arith, ◌++◌, length,
  length-replicate, replicate, ◌==◌, bit_and, true, false, ◌⊎◌, inl, inr,
}
use lua2sc.Words.{bit_and_mask}
use lua2sc.Osc.Value.{Bytes, ok}
use lua2sc.Packet.Order.{
  from_uint32, from_int32, from_uint64, from_int64, native_uint32, load_uint32, to_uint32, to_int32,
  to_uint64, to_int64, round_up4, padding, pad_loop,
}

pub to_uint32-from_uint32 : (x : ℕ) (m : Bytes) → x < 2 ^ 32 → to_uint32 (from_uint32 x ++ m) ≡ ok x
unfolding to_uint32 from_uint32
to_uint32-from_uint32 x m h = ap ok (omega arith)

pub to_int32-from_int32 : (x : ℕ) (m : Bytes) → x < 2 ^ 32 → to_int32 (from_int32 x ++ m) ≡ ok x
unfolding to_int32 from_int32
to_int32-from_int32 x m h = ap ok (omega arith)

pub to_uint64-from_uint64 : (x : ℕ) (m : Bytes) → x < 2 ^ 64 → to_uint64 (from_uint64 x ++ m) ≡ ok x
unfolding to_uint64 from_uint64
to_uint64-from_uint64 x m h = ap ok (omega arith)

pub to_int64-from_int64 : (x : ℕ) (m : Bytes) → x < 2 ^ 64 → to_int64 (from_int64 x ++ m) ≡ ok x
unfolding to_int64 from_int64
to_int64-from_int64 x m h = ap ok (omega arith)

pub load_uint32-native_uint32 :
    (x : ℕ) (m : Bytes) → x < 2 ^ 32 → load_uint32 (native_uint32 x ++ m) ≡ ok x
unfolding load_uint32 native_uint32
load_uint32-native_uint32 x m h = ap ok (omega arith)

pub length-from_uint32 : (x : ℕ) → length (from_uint32 x) ≡ 4
unfolding from_uint32
length-from_uint32 x = refl

pub length-from_int32 : (x : ℕ) → length (from_int32 x) ≡ 4
unfolding from_int32
length-from_int32 x = refl

pub length-from_uint64 : (x : ℕ) → length (from_uint64 x) ≡ 8
unfolding from_uint64
length-from_uint64 x = refl

pub length-from_int64 : (x : ℕ) → length (from_int64 x) ≡ 8
unfolding from_int64
length-from_int64 x = refl

pub length-native_uint32 : (x : ℕ) → length (native_uint32 x) ≡ 4
unfolding native_uint32
length-native_uint32 x = refl

residue : (i : ℕ) → (i % 4 ≡ 0) ⊎ ((i % 4 ≡ 3) ⊎ ((i % 4 ≡ 2) ⊎ (i % 4 ≡ 1)))
residue i = ground arith

pub aligned : (i : ℕ) → i % 4 ≡ 0 → (bit_and i 3 == 0) ≡ true
aligned i h = let e : bit_and i 3 ≡ 0 = bit_and_mask 2 i ∙ h in ground (arith, e)

not_aligned : (i : ℕ) → 0 < i % 4 → (bit_and i 3 == 0) ≡ false
not_aligned i h = let e : bit_and i 3 ≡ i % 4 = bit_and_mask 2 i in ground (arith, e)

pad_loop-aligned : (fuel i : ℕ) → i % 4 ≡ 0 → pad_loop fuel i ≡ []
unfolding pad_loop
pad_loop-aligned zero i h = refl
pad_loop-aligned (suc fuel) i h = rw (aligned i h) refl

pad_loop-next : (fuel i : ℕ) → 0 < i % 4 → pad_loop (suc fuel) i ≡ 0 ∷ pad_loop fuel (i + 1)
unfolding pad_loop
pad_loop-next fuel i h = rw (not_aligned i h) refl

zeros_for : (n k : ℕ) → n ≡ k → replicate {A = ℕ} k 0 ≡ replicate n 0
zeros_for n k h = ap (λ n. replicate n 0) (sym h)

-- The padding loop ends after at most three rounds, whatever fuel is left, and has then written the
-- zeros up to the next multiple of four.
pub pad_loop-zeros :
    (extra i : ℕ) → pad_loop (suc (suc (suc extra))) i ≡ replicate (round_up4 i - i) 0
pad_loop-zeros extra i = elim (residue i) [
  | inl r ↦
      pad_loop-aligned (suc (suc (suc extra))) i r ∙ zeros_for (round_up4 i - i) 0 (omega arith)
  | inr (inl r) ↦
      pad_loop-next (suc (suc extra)) i (omega arith)
      ∙ ap (λ z. 0 ∷ z) (pad_loop-aligned (suc (suc extra)) (i + 1) (omega arith))
      ∙ zeros_for (round_up4 i - i) 1 (omega arith)
  | inr (inr (inl r)) ↦
      pad_loop-next (suc (suc extra)) i (omega arith)
      ∙ ap (λ z. 0 ∷ z) (pad_loop-next (suc extra) (i + 1) (omega arith))
      ∙ ap (λ z. 0 ∷ 0 ∷ z) (pad_loop-aligned (suc extra) (i + 1 + 1) (omega arith))
      ∙ zeros_for (round_up4 i - i) 2 (omega arith)
  | inr (inr (inr r)) ↦
      pad_loop-next (suc (suc extra)) i (omega arith)
      ∙ ap (λ z. 0 ∷ z) (pad_loop-next (suc extra) (i + 1) (omega arith))
      ∙ ap (λ z. 0 ∷ 0 ∷ z) (pad_loop-next extra (i + 1 + 1) (omega arith))
      ∙ ap (λ z. 0 ∷ 0 ∷ 0 ∷ z) (pad_loop-aligned extra (i + 1 + 1 + 1) (omega arith))
      ∙ zeros_for (round_up4 i - i) 3 (omega arith)
]

pub padding-zeros : (i : ℕ) → padding i ≡ replicate (round_up4 i - i) 0
unfolding padding
padding-zeros i = pad_loop-zeros 0 i

pub length-padding : (i : ℕ) → i + length (padding i) ≡ round_up4 i
length-padding i =
    let e : length (padding i) ≡ round_up4 i - i =
      ap length (padding-zeros i) ∙ length-replicate (round_up4 i - i) 0 in
    omega (arith, e)
