-- ===== src/Tests/Memory.antt =====
-- A flash driver that keeps the promises of the SDK: an array in memory.
use rp2040_eth_panel.Prelude.{
  ℕ, ◌+◌, ◌-◌, ◌≤◌, ◌<◌, ◌≡◌, ◌⊎◌, true, ◌&&◌, List, length, get_or, ltb, leb, ap, if◌then◌else◌,
  arith,
}
use rp2040_eth_panel.Ota.Flash.{Flash, FlashDriver}

abbrev pub memory_erase : Flash → ℕ → ℕ → Flash
memory_erase f off n a = if leb off a && ltb a (off + n) then 255 else f a

abbrev pub memory_program : Flash → ℕ → List ℕ → Flash
memory_program f off bs a =
    if leb off a && ltb a (off + length bs) then get_or bs (a - off) 255 else f a

pub program_hit :
    (f : Flash) (off i : ℕ) (bs : List ℕ)
    → i < length bs
    → memory_program f off bs (off + i) ≡ get_or bs i 255
program_hit f off i bs h =
    let there : leb off (off + i) && ltb (off + i) (off + length bs) ≡ true = ground arith in
    let back : off + i - off ≡ i = omega arith in rw there (ap (λ (t : ℕ). get_or bs t 255) back)

pub erase_hit : (f : Flash) (off n a : ℕ) → off ≤ a → a < off + n → memory_erase f off n a ≡ 255
erase_hit f off n a p q = ground arith

pub erase_miss :
    (f : Flash) (off n a : ℕ) → (a < off) ⊎ (off + n ≤ a) → memory_erase f off n a ≡ f a
erase_miss f off n a h = ground arith

pub program_miss :
    (f : Flash) (off : ℕ) (bs : List ℕ) (a : ℕ)
    → (a < off) ⊎ (off + length bs ≤ a)
    → memory_program f off bs a ≡ f a
program_miss f off bs a h = ground arith

abbrev pub memory_driver : FlashDriver
memory_driver = record {
  erase = memory_erase;
  program = memory_program;
  erase_inside = λ f off n a p q r t u. erase_hit f off n a t u;
  erase_outside = λ f off n a p q r t. erase_miss f off n a t;
  program_inside = λ f off bs i p q r t u. program_hit f off i bs t;
  program_outside = λ f off bs a p q r t. program_miss f off bs a t;
}

-- A flash that was never written.
abbrev pub blank_flash : Flash
blank_flash a = 255
