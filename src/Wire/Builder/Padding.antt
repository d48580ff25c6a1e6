-- ===== src/Wire/Builder/Padding.antt =====
-- What the padding loop of MessageBuilder writes.
use zwwm.Common.{
  ℕ, zero, suc, ◌+◌, ◌%◌, ◌≤◌, ◌≡◌, sym, ap, ◌∙◌, ◌≢◌, arith, List, [], ◌∷◌, ◌++◌, length,
  replicate, length-append, append-nil, append_assoc, length-replicate, ℕ_discrete,
}
use zwwm.Wire.Bytes.{padding}
use zwwm.Wire.Builder.{MessageBuilder, pad_loop, pad_to_alignment}

-- The zero bytes behind a field of `n` bytes.
abbrev pub zeros : ℕ → List ℕ
zeros n = replicate (padding n) 0

pub zeros-aligns : (n : ℕ) → (n + length (zeros n)) % 4 ≡ 0
zeros-aligns n = omega (arith, length-replicate {A = ℕ} (padding n) 0)

zeros_aligned : (n : ℕ) → n % 4 ≡ 0 → zeros n ≡ []
zeros_aligned n h = let e : padding n ≡ 0 = omega arith in ap (λ k. replicate k 0) e

zeros_step : (n : ℕ) → n % 4 ≢ 0 → zeros n ≡ 0 ∷ zeros (n + 1)
zeros_step n h =
    let e : padding n ≡ suc (padding (n + 1)) = omega arith in ap (λ k. replicate k 0) e

-- A round too many changes nothing, and three rounds are enough.
pad_loop_lem :
    (fuel : ℕ) (buffer : List ℕ)
    → padding (length buffer) ≤ fuel
    → pad_loop fuel buffer ≡ buffer ++ zeros (length buffer)
unfolding pad_loop
pad_loop_lem zero buffer h =
    sym (append-nil buffer) ∙ ap (◌++◌ buffer) (sym (zeros_aligned (length buffer) (omega arith)))
pad_loop_lem (suc fuel) buffer h = elim (ℕ_discrete (length buffer % 4) 0) [
  | yes e ↦ ground (arith, zeros_aligned (length buffer) e, append-nil buffer)
  | no e ↦ ground (
    arith,
    pad_loop_lem fuel (buffer ++ 0 ∷ []),
    length-append buffer (0 ∷ []),
    zeros_step (length buffer) e,
    append_assoc buffer (0 ∷ []) (zeros (length buffer + 1)),
  )
]

pub pad_to_alignment_lem :
    (b : MessageBuilder)
    → pad_to_alignment b ≡ record b { buffer = b.buffer ++ zeros (length b.buffer) }
unfolding pad_to_alignment
pad_to_alignment_lem b =
    ap (λ buffer. record b { buffer = buffer }) (pad_loop_lem 3 b.buffer (omega arith))

pub pad_aligned : (b : MessageBuilder) → length b.buffer % 4 ≡ 0 → pad_to_alignment b ≡ b
pad_aligned b h =
    pad_to_alignment_lem b
    ∙ ap (λ buffer. record b { buffer = buffer })
        (ap (◌++◌ b.buffer) (zeros_aligned (length b.buffer) h) ∙ append-nil b.buffer)

pub zeros_shift : (m n : ℕ) → m % 4 ≡ 0 → zeros (m + n) ≡ zeros n
zeros_shift m n h = let e : padding (m + n) ≡ padding n = omega arith in ap (λ k. replicate k 0) e
