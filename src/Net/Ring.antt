-- ===== src/Net/Ring.antt =====
-- The bytes that wait in the receive ring of firmware/src/net/net.c, and the queue that they form.
use rp2040_eth_panel.Prelude.{
  ℕ, zero, suc, ◌+◌, ◌-◌, ◌%◌, ◌≤◌, ◌<◌, bit_and, ◌≡◌, refl, ap, ap₂, ◌∙◌, List, [], ◌∷◌, ◌++◌,
  length, get_or, set, get_or-set_ne, ltb, add32, if◌then◌else◌, arith,
}
use rp2040_eth_panel.Prelude.Bits.{bit_and_mask}
use rp2040_eth_panel.Net.{RxRing, rx_ring_mask}

-- `n` bytes of the array from index `i` on, around its end.
unfoldable pub walk : List ℕ → ℕ → ℕ → List ℕ
walk ring i zero = []
walk ring i (suc n) = get_or ring i 0 ∷ walk ring ((i + 1) % 2048) n

abbrev pub count : RxRing → ℕ
count r = (r.head + 2048 - r.tail) % 2048

-- The bytes that are waiting, the oldest first.
abbrev pub waiting : RxRing → List ℕ
waiting r = walk r.ring r.tail (count r)

pub record IsRing (r : RxRing) : Type 0 where
  pub size : length r.ring ≡ 2048
  pub head_in : r.head < 2048
  pub tail_in : r.tail < 2048

-- The queue: a byte is appended, or dropped where 2047 are waiting.
abbrev pub enqueue : List ℕ → ℕ → List ℕ
enqueue q c = if ltb (length q) 2047 then q ++ (c ∷ []) else q

abbrev pub enqueue_all : List ℕ → List ℕ → List ℕ
enqueue_all q [] = q
enqueue_all q (c ∷ cs) = enqueue_all (enqueue q c) cs

pub next_lem : (i : ℕ) → i < 2048 → bit_and (add32 i 1) rx_ring_mask ≡ (i + 1) % 2048
next_lem i h =
    let small : add32 i 1 ≡ i + 1 = omega arith in
    ap (λ (t : ℕ). bit_and t rx_ring_mask) small ∙ bit_and_mask 11 (i + 1)

pub length-walk : (ring : List ℕ) (i n : ℕ) → length (walk ring i n) ≡ n
unfolding walk
length-walk ring i zero = refl
length-walk ring i (suc n) = ap suc (length-walk ring ((i + 1) % 2048) n)

-- The last byte of a walk.
pub walk-suc :
    (ring : List ℕ) (i n : ℕ)
    → i < 2048
    → walk ring i (suc n) ≡ walk ring i n ++ (get_or ring ((i + n) % 2048) 0 ∷ [])
unfolding walk
walk-suc ring i zero h = ap (λ (t : ℕ). get_or ring t 0 ∷ []) (omega arith)
walk-suc ring i (suc n) h =
    ap (λ l. get_or ring i 0 ∷ l)
      (walk-suc ring ((i + 1) % 2048) n (omega arith)
        ∙ ap (λ (t : ℕ). walk ring ((i + 1) % 2048) n ++ (get_or ring t 0 ∷ [])) (omega arith))

-- A write ahead of a walk does not change it.
pub walk-set :
    (ring : List ℕ) (i n j c : ℕ)
    → i < 2048
    → j < 2048
    → n ≤ (j + 2048 - i) % 2048
    → walk (set ring j c) i n ≡ walk ring i n
unfolding walk
walk-set ring i zero j c p q h = refl
walk-set ring i (suc n) j c p q h =
    ap₂ ◌∷◌ (get_or-set_ne ring j i c 0 (λ e. absurd (omega (arith, e))))
      (walk-set ring ((i + 1) % 2048) n j c (omega arith) q (omega arith))
