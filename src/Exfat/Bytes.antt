-- ===== src/Exfat/Bytes.antt =====
-- Bytes of the device: what a read finds after a write, and numbers in little-endian order.
use nuclear_armageddon.Prelude.{
  ℕ, zero, suc, ◌+◌, ◌^◌, ◌≤◌, ◌<◌, ◌≡◌, refl, ap, ◌∙◌, ◌⊎◌, inl, inr, List, [], ◌∷◌, length, ◌==◌,
  if◌then◌else◌, arith,
}
use nuclear_armageddon.Exfat.{read_bytes, write_bytes, le32_bytes, le32_value}

-- A write leaves the bytes before and after its own.
pub write_bytes_outside :
    (buffer : List ℕ) (bytes : ℕ → ℕ) (offset o : ℕ)
    → (o < offset) ⊎ (offset + length buffer ≤ o)
    → write_bytes bytes buffer offset o ≡ bytes o
unfolding write_bytes
write_bytes_outside [] bytes offset o h = refl
write_bytes_outside (b ∷ buffer) bytes offset o (inl h) =
    write_bytes_outside buffer _ (offset + 1) o (inl (omega (arith, h))) ∙ ground (arith, h)
write_bytes_outside (b ∷ buffer) bytes offset o (inr h) =
    write_bytes_outside buffer _ (offset + 1) o (inr (omega (arith, h))) ∙ ground (arith, h)

pub read_bytes-eq :
    (f g : ℕ → ℕ) (size offset : ℕ)
    → ((o : ℕ) → offset ≤ o → o < offset + size → f o ≡ g o)
    → read_bytes f size offset ≡ read_bytes g size offset
unfolding read_bytes
read_bytes-eq f g zero offset h = refl
read_bytes-eq f g (suc size) offset h =
    rw
      (
        h offset (omega arith) (omega arith),
        read_bytes-eq f g size (offset + 1) (λ o l u. h o (omega (arith, l)) (omega (arith, u))),
      )
      refl

write_bytes_first :
    (bytes : ℕ → ℕ) (b : ℕ) (buffer : List ℕ) (offset : ℕ)
    → write_bytes bytes (b ∷ buffer) offset offset ≡ b
unfolding write_bytes
write_bytes_first bytes b buffer offset =
    write_bytes_outside buffer _ (offset + 1) offset (inl (omega arith)) ∙ ground arith

write_bytes-cons :
    (bytes : ℕ → ℕ) (b : ℕ) (buffer : List ℕ) (offset : ℕ)
    → write_bytes bytes (b ∷ buffer) offset
      ≡ write_bytes (λ o. if o == offset then b else bytes o) buffer (offset + 1)
unfolding write_bytes
write_bytes-cons bytes b buffer offset = refl

-- A read of the place of a write gives what was written.
pub read_bytes-write_bytes :
    (buffer : List ℕ) (bytes : ℕ → ℕ) (offset : ℕ)
    → read_bytes (write_bytes bytes buffer offset) (length buffer) offset ≡ buffer
unfolding read_bytes
read_bytes-write_bytes [] bytes offset = refl
read_bytes-write_bytes (b ∷ buffer) bytes offset = rw (write_bytes_first bytes b buffer offset) (
    ap (λ f. b ∷ read_bytes f (length buffer) (offset + 1)) (write_bytes-cons bytes b buffer offset)
    ∙ ap (λ t. b ∷ t)
        (read_bytes-write_bytes buffer (λ o. if o == offset then b else bytes o) (offset + 1)))

pub le32_value-le32_bytes : (v : ℕ) → v < 2 ^ 32 → le32_value (le32_bytes v) ≡ v
unfolding le32_value le32_bytes
le32_value-le32_bytes v h = omega (arith, h)

pub length-le32_bytes : (v : ℕ) → length (le32_bytes v) ≡ 4
unfolding le32_bytes
length-le32_bytes v = refl

pub read_bytes-le32_bytes :
    (bytes : ℕ → ℕ) (v offset : ℕ)
    → v < 2 ^ 32
    → le32_value (read_bytes (write_bytes bytes (le32_bytes v) offset) 4 offset) ≡ v
read_bytes-le32_bytes bytes v offset h =
    ap (λ n. le32_value (read_bytes (write_bytes bytes (le32_bytes v) offset) n offset))
      (omega (arith, length-le32_bytes v))
    ∙ ap le32_value (read_bytes-write_bytes (le32_bytes v) bytes offset)
    ∙ le32_value-le32_bytes v h
