-- ===== src/CacheSim/Address.antt =====
-- labs/cachelab/csim.c, `cacheSimulate`: how an address is cut into set index and tag.
use cs_360_internet_programm.Base.{
  ℕ, zero, suc, ◌+◌, ◌-◌, ◌*◌, ◌/◌, ◌%◌, ◌^◌, ◌≤◌, ◌<◌, ◌≡◌, sym, ap, ◌∙◌, arith, ltb,
  if◌then◌else◌,
}
use native.Mathlib.Nat.{
  mod-lt, div-one, mul_comm, div-add-mod, div-div-eq-div-mul, div-le_self, div-lt_iff_lt-mul,
  pow-le-pow_right,
}
use native.Mathlib.Decide.{dec_lt}
use cs_360_internet_programm.Base.Pow.{pow-add, two-pow-pos, cut_digit, div_unique, mul-mod-mul}
use cs_360_internet_programm.CacheSim.{set_index, input_tag, tag_bits}

-- The modulus of a word is the product of the three fields.
word_fields : (s b : ℕ) → s + b ≤ 32 → 2 ^ 32 ≡ 2 ^ b * 2 ^ s * 2 ^ (32 - (s + b))
word_fields s b h =
    let e : 32 ≡ b + s + (32 - (s + b)) = omega arith in
    ap (λ t. 2 ^ t) e
    ∙ pow-add 2 (b + s) (32 - (s + b))
    ∙ ap (λ t. t * 2 ^ (32 - (s + b))) (pow-add 2 b s)

down_shift : (s b : ℕ) → s + b ≤ 32 → 2 ^ (32 - s) ≡ 2 ^ b * 2 ^ (32 - (s + b))
down_shift s b h =
    let e : 32 - s ≡ b + (32 - (s + b)) = omega arith in
    ap (λ t. 2 ^ t) e ∙ pow-add 2 b (32 - (s + b))

-- With at least one set bit, and fields that fit a 32-bit address, the two shifts cut out the
-- `s` bits above the `b` block bits.
pub set_index_lem :
    (s b address : ℕ) → 0 < s → s + b ≤ 32 → set_index s b address ≡ address / 2 ^ b % 2 ^ s
unfolding set_index
set_index_lem s b a hs h =
    rw (up, down, word_fields s b h, down_shift s b h)
      (cut_digit a (2 ^ b) (2 ^ s) (2 ^ (32 - (s + b))) (two-pow-pos b) (two-pow-pos s)
        (two-pow-pos (32 - (s + b))))
  where
    up : tag_bits s b % 32 ≡ 32 - (s + b)
    up = omega arith

    down : (tag_bits s b + b) % 32 ≡ 32 - s
    down = omega arith

-- The index lies inside `cache.sets`.
pub set_index-lt : (s b address : ℕ) → 0 < s → s + b ≤ 32 → set_index s b address < 2 ^ s
set_index-lt s b a hs h = rw (set_index_lem s b a hs h) (mod-lt (a / 2 ^ b) (two-pow-pos s))

-- The tag of an address is the part above set index and block offset, moved up for an address that
-- is negative as an `int`.
abbrev raised : ℕ → ℕ → ℕ
raised k a = if ltb a (2 ^ 31) then 0 else 2 ^ 64 - 2 ^ (32 - k)

complement-div : (q a k : ℕ) → 0 < k → a < k * q → (k * q - 1 - a) / k ≡ q - 1 - a / k
complement-div q a k pk h =
    div_unique (k * q - 1 - a) k (q - 1 - a / k) (k - 1 - a % k) split (omega arith)
  where
    low : a % k < k
    low = mod-lt a pk

    below : a / k < q
    below = grind (arith, div-add-mod a k)

    product : k * q ≡ k * (q - 1 - a / k) + k * (a / k) + k
    product =
        let e : q ≡ (q - 1 - a / k) + a / k + 1 = omega (arith, below) in
        grind (arith, ap (λ t. k * t) e)

    split : k * q - 1 - a ≡ k * (q - 1 - a / k) + (k - 1 - a % k)
    split = omega (arith, low, product, div-add-mod a k)

word_split : (k : ℕ) → k ≤ 32 → 2 ^ 32 ≡ 2 ^ k * 2 ^ (32 - k)
word_split k h = let e : 32 ≡ k + (32 - k) = omega arith in ap (λ t. 2 ^ t) e ∙ pow-add 2 k (32 - k)

-- A negative `int` shifted right stays negative.
stays_negative : (k a : ℕ) → k ≤ 31 → 2 ^ 31 ≤ a → 2 ^ (32 - k) ≤ 2 ^ 31 + a / 2 ^ k
stays_negative zero a h neg = omega arith
stays_negative (suc k) a h neg =
    let e : 2 ^ (32 - suc k) ≤ 2 ^ 31 =
      pow-le-pow_right {n = 2} (omega arith) {i = 32 - suc k} {j = 31} (omega arith) in
    omega arith

complement_word :
    (w q a k : ℕ) → w ≡ k * q → 0 < k → a < w → ((w - 1 - a) / k ≡ q - 1 - a / k) × (a / k < q)
complement_word w q a k e pk h = (
  rw e (complement-div q a k pk (rw e at h)),
  (div-lt_iff_lt-mul {k = k} {x = a} {y = q} pk).1 (omega (arith, e, mul_comm k q)),
)

sar_negative :
    (k a : ℕ)
    → k ≤ 31
    → a < 2 ^ 32
    → 2 ^ 32 - 1 - (2 ^ 32 - 1 - a) / 2 ^ k ≡ 2 ^ 32 - 2 ^ (32 - k) + a / 2 ^ k
sar_negative k a h small =
    let most : 2 ^ (32 - k) ≤ 2 ^ 32 =
      pow-le-pow_right {n = 2} (omega arith) {i = 32 - k} {j = 32} (omega arith) in
    omega (
      arith,
      most,
      complement_word (2 ^ 32) (2 ^ (32 - k)) a (2 ^ k) (word_split k (omega arith)) (two-pow-pos k)
          small,
    )

pub input_tag_lem :
    (s b a : ℕ) → s + b ≤ 31 → a < 2 ^ 32 → input_tag s b a ≡ a / 2 ^ (s + b) + raised (s + b) a
unfolding input_tag
input_tag_lem s b a h small = rw count (elim (dec_lt a (2 ^ 31)) [
  | yes p ↦ ground (arith, div-le_self a (2 ^ (s + b)))
  | no p ↦
      ground (arith, sar_negative (s + b) a h small, stays_negative (s + b) a h (omega arith), top)
])
  where
    count : (s + b) % 32 ≡ s + b
    count = omega arith

    top : 2 ^ (32 - (s + b)) ≤ 2 ^ 32
    top = pow-le-pow_right {n = 2} (omega arith) {i = 32 - (s + b)} {j = 32} (omega arith)

-- With at least one set bit, and at most 31 set and block bits together, two 32-bit addresses that
-- agree in set index and tag agree in all but their `b` block bits.
pub same_block :
    (s b a a' : ℕ)
    → 0 < s
    → s + b ≤ 31
    → a < 2 ^ 32
    → a' < 2 ^ 32
    → set_index s b a ≡ set_index s b a'
    → input_tag s b a ≡ input_tag s b a'
    → a / 2 ^ b ≡ a' / 2 ^ b
same_block s b a a' hs h small small' same_set same_tag =
    grind (arith, high, low, div-add-mod (a / 2 ^ b) (2 ^ s), div-add-mod (a' / 2 ^ b) (2 ^ s))
  where
    whole : (x : ℕ) → x / 2 ^ b / 2 ^ s ≡ x / 2 ^ (s + b)
    whole x =
        div-div-eq-div-mul x (2 ^ b) (2 ^ s)
        ∙ ap (λ t. x / t) (mul_comm (2 ^ b) (2 ^ s) ∙ sym (pow-add 2 s b))

    top : 2 ^ (32 - (s + b)) ≤ 2 ^ 32
    top = pow-le-pow_right {n = 2} (omega arith) {i = 32 - (s + b)} {j = 32} (omega arith)

    tags : a / 2 ^ (s + b) ≡ a' / 2 ^ (s + b)
    tags = ground (
      arith,
      top,
      same_tag,
      input_tag_lem s b a h small,
      input_tag_lem s b a' h small',
      div-le_self a (2 ^ (s + b)),
      div-le_self a' (2 ^ (s + b)),
    )

    high : a / 2 ^ b / 2 ^ s ≡ a' / 2 ^ b / 2 ^ s
    high = omega (arith, whole a, whole a', tags)

    low : a / 2 ^ b % 2 ^ s ≡ a' / 2 ^ b % 2 ^ s
    low =
        sym (set_index_lem s b a hs (omega arith))
        ∙ same_set
        ∙ set_index_lem s b a' hs (omega arith)

-- With no set bits and 1 to 32 block bits, the index is not 0 but the block offset of the address,
-- moved to the top of the word.
pub set_index-no_set_bits :
    (b address : ℕ) → 0 < b → b ≤ 32 → set_index 0 b address ≡ address % 2 ^ b * 2 ^ (32 - b)
unfolding set_index
set_index-no_set_bits b a pos h =
    rw
      (
        up,
        down,
        word_split b h,
        mul-mod-mul a (2 ^ b) (2 ^ (32 - b)) (two-pow-pos b) (two-pow-pos (32 - b)),
      )
      (div-one _)
  where
    up : tag_bits 0 b % 32 ≡ 32 - b
    up = omega arith

    down : (tag_bits 0 b + b) % 32 ≡ 0
    down = omega arith
