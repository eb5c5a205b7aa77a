-- ===== src/Ota/Flash.antt =====
-- The flash as the code sees it: bytes by offset, read through the XIP window, changed by the two
-- functions of the Pico SDK, `flash_range_erase` and `flash_range_program`, which are parameters.
use Prim.Native.Nat.add
use rp2040_eth_panel.Prelude.{
  ℕ, zero, suc, ◌+◌, ◌%◌, ◌≤◌, ◌<◌, ◌≡◌, ◌⊎◌, refl, ap, ap₂, ◌∙◌, List, [], ◌∷◌, ◌++◌, length,
  get_or, arith,
}
use rp2040_eth_panel.Ota.Layout.{flash_total, flash_sector, flash_page_size}

abbrev pub Flash : Type 0
Flash = ℕ → ℕ

-- `n` bytes from an offset.
unfoldable pub bytes_at : Flash → ℕ → ℕ → List ℕ
bytes_at f off zero = []
bytes_at f off (suc n) = f off ∷ bytes_at f (off + 1) n

-- What the SDK documents: whole sectors are erased to 0xFF, whole pages are programmed where the
-- flash is erased, and no other byte changes. Off the grid or past the end nothing is promised.
pub record FlashDriver : Type 0 where
  pub erase : Flash → ℕ → ℕ → Flash
  pub program : Flash → ℕ → List ℕ → Flash
  pub erase_inside :
      (f : Flash) (off n a : ℕ)
      → off % flash_sector ≡ 0
      → n % flash_sector ≡ 0
      → off + n ≤ flash_total
      → off ≤ a
      → a < off + n
      → erase f off n a ≡ 255
  pub erase_outside :
      (f : Flash) (off n a : ℕ)
      → off % flash_sector ≡ 0
      → n % flash_sector ≡ 0
      → off + n ≤ flash_total
      → (a < off) ⊎ (off + n ≤ a)
      → erase f off n a ≡ f a
  pub program_inside :
      (f : Flash) (off : ℕ) (bs : List ℕ) (i : ℕ)
      → off % flash_page_size ≡ 0
      → length bs % flash_page_size ≡ 0
      → off + length bs ≤ flash_total
      → i < length bs
      → f (off + i) ≡ 255
      → program f off bs (off + i) ≡ get_or bs i 255
  pub program_outside :
      (f : Flash) (off : ℕ) (bs : List ℕ) (a : ℕ)
      → off % flash_page_size ≡ 0
      → length bs % flash_page_size ≡ 0
      → off + length bs ≤ flash_total
      → (a < off) ⊎ (off + length bs ≤ a)
      → program f off bs a ≡ f a

-- Equal bytes read equal.
pub bytes_at_congr :
    (f g : Flash) (off n : ℕ)
    → ((a : ℕ) → off ≤ a → a < off + n → f a ≡ g a)
    → bytes_at f off n ≡ bytes_at g off n
unfolding bytes_at
bytes_at_congr f g off zero h = refl
bytes_at_congr f g off (suc n) h =
    ap₂ ◌∷◌ (h off (omega arith) (omega arith))
      (bytes_at_congr f g (off + 1) n (λ a p q. h a (omega arith) (omega arith)))

-- Bytes that were written one by one read back as the list.
pub bytes_at-of_list :
    (f : Flash) (off : ℕ) (bs : List ℕ) (d : ℕ)
    → ((i : ℕ) → i < length bs → f (off + i) ≡ get_or bs i d)
    → bytes_at f off (length bs) ≡ bs
unfolding bytes_at
bytes_at-of_list f off [] d h = refl
bytes_at-of_list f off (b ∷ bs) d h =
    ap₂ ◌∷◌ (ap f (omega arith) ∙ h 0 (omega arith))
      (bytes_at-of_list f (off + 1) bs d (λ i p. ap f (omega arith) ∙ h (suc i) (omega arith)))

pub length-bytes_at : (f : Flash) (off n : ℕ) → length (bytes_at f off n) ≡ n
unfolding bytes_at
length-bytes_at f off zero = refl
length-bytes_at f off (suc n) = ap suc (length-bytes_at f (off + 1) n)

pub bytes_at-append :
    (f : Flash) (off m n : ℕ) → bytes_at f off (m + n) ≡ bytes_at f off m ++ bytes_at f (off + m) n
unfolding bytes_at
bytes_at-append f off zero n =
    ap (λ (t : ℕ). bytes_at f off t) (omega arith) ∙ ap (λ (t : ℕ). bytes_at f t n) (omega arith)
bytes_at-append f off (suc m) n =
    ap (λ (t : ℕ). bytes_at f off t) (add.suc m n)
    ∙ ap (λ l. f off ∷ l)
        (bytes_at-append f (off + 1) m n
          ∙ ap (λ (t : ℕ). bytes_at f (off + 1) m ++ bytes_at f t n) (omega arith))

-- What is read at an offset is in the flash there.
pub bytes_at-get_or :
    (f : Flash) (off n i d : ℕ) → i < n → get_or (bytes_at f off n) i d ≡ f (off + i)
unfolding bytes_at
bytes_at-get_or f off zero i d h = absurd (omega arith)
bytes_at-get_or f off (suc n) zero d h = ap f (omega arith)
bytes_at-get_or f off (suc n) (suc i) d h =
    bytes_at-get_or f (off + 1) n i d (omega arith) ∙ ap f (omega arith)
