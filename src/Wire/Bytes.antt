-- ===== src/Wire/Bytes.antt =====
-- Bytes and words of zwayland/wire/src/message.cpp. A byte is a number below 256, and a word is
-- stored with its low byte first, which is what `memcpy` does on the hosts that the program targets.
use zwwm.Common.{
  ℕ, zero, suc, ◌+◌, ◌-◌, ◌*◌, ◌/◌, ◌%◌, ◌<◌, ◌≡◌, refl, sym, ap, ◌∙◌, arith, List, [], ◌∷◌, ◌++◌,
  length, drop, take,
}

abbrev pub word_limit : ℕ
word_limit = 4294967296

abbrev pub byte_limit : ℕ
byte_limit = 256

-- The four bytes of a `uint32_t`.
abbrev pub le32 : ℕ → List ℕ
le32 v = (v % 256) ∷ (v / 256 % 256) ∷ (v / 65536 % 256) ∷ (v / 16777216 % 256) ∷ []

-- The `uint32_t` in the first four bytes. Fewer bytes are never read.
abbrev pub word : List ℕ → ℕ
word (a ∷ b ∷ c ∷ d ∷ rest) = a + b * 256 + c * 65536 + d * 16777216
word _ = 0

pub word-le32 : (v : ℕ) (rest : List ℕ) → v < word_limit → word (le32 v ++ rest) ≡ v
word-le32 v rest h = omega arith

-- The bytes that bring a length up to a multiple of four.
abbrev pub padding : ℕ → ℕ
padding n = (4 - n % 4) % 4

pub padding-aligns : (n : ℕ) → (n + padding n) % 4 ≡ 0
padding-aligns n = omega arith

pub round_up : (n : ℕ) → (n + 3) / 4 * 4 ≡ n + padding n
round_up n = omega arith

module _ {ℓ} {A : Type ℓ} where
  pub drop-nil : (n : ℕ) → drop {A = A} n [] ≡ []
  drop-nil zero = refl
  drop-nil (suc n) = refl

  pub drop-drop : (m n : ℕ) (xs : List A) → drop n (drop m xs) ≡ drop (m + n) xs
  drop-drop zero n xs = ap (λ k. drop k xs) (omega arith)
  drop-drop (suc m) n [] = drop-nil n ∙ sym (drop-nil (suc m + n))
  drop-drop (suc m) n (x ∷ xs) =
      drop-drop m n xs
      ∙ ap (λ k. drop k (x ∷ xs)) (let e : suc (m + n) ≡ suc m + n = omega arith in e)

  pub drop-append : (xs ys : List A) → drop (length xs) (xs ++ ys) ≡ ys
  drop-append [] ys = refl
  drop-append (x ∷ xs) ys = drop-append xs ys

  pub take-append : (xs ys : List A) → take (length xs) (xs ++ ys) ≡ xs
  take-append [] ys = refl
  take-append (x ∷ xs) ys = ap (◌∷◌ x) (take-append xs ys)

  -- After a read of `ys` the position moves on by their number.
  pub drop_past : (n : ℕ) (xs ys zs : List A) → drop n xs ≡ ys ++ zs → drop (n + length ys) xs ≡ zs
  drop_past n xs ys zs h =
      sym (drop-drop n (length ys) xs) ∙ ap (drop (length ys)) h ∙ drop-append ys zs
