-- ===== src/Packer/Nibbles.antt =====
-- src/packer.h: the array of nibbles.
use cnano_log.Base.{
  ℕ, zero, suc, ◌+◌, ◌*◌, ◌/◌, ◌%◌, ◌≤◌, ◌<◌, ◌≡◌, ◌≢◌, refl, ◌∙◌, List, [], ◌∷◌, Bool, true, ◌&&◌,
  ◌==◌, if◌then◌else◌, ==_iff, arith, length, length-set, ℕ_discrete, ==_refl, ==_ne, get_or,
  get_or-set_self, get_or-set_ne, All, All-get_or, All-set, bit_and, bit_or,
}
use cnano_log.Base.Bytes.{IsByte}
use cnano_log.Packer.{set_nibble_byte, set_nibble, get_nibble}

-- Whether a test succeeds on all numbers below `n`.
unfoldable pub holds_below : (ℕ → Bool) → ℕ → Bool
holds_below p zero = true
holds_below p (suc n) = holds_below p n && p n

pub holds_at : (p : ℕ → Bool) (n : ℕ) → holds_below p n ≡ true → {b : ℕ} → b < n → p b ≡ true
unfolding holds_below
holds_at p zero all h = absurd (omega arith)
holds_at p (suc n) all {b} h = elim (ℕ_discrete b n) [
  | yes e ↦ rw e (ground arith)
  | no ne ↦ holds_at p n (ground arith) (omega arith)
]

pub low_mask : (b : ℕ) → b < 256 → bit_and b 0x0f ≡ b % 16
unfolding holds_below
low_mask b h = (==_iff _ _).0 (holds_at (λ x. bit_and x 0x0f == x % 16) 256 refl h)

high_mask : (b : ℕ) → b < 256 → bit_and b 0xf0 ≡ b / 16 * 16
unfolding holds_below
high_mask b h = (==_iff _ _).0 (holds_at (λ x. bit_and x 0xf0 == x / 16 * 16) 256 refl h)

join_high : (b : ℕ) → b < 256 → bit_or (b / 16 * 16) (b % 16) ≡ b
unfolding holds_below
join_high b h = (==_iff _ _).0 (holds_at (λ x. bit_or (x / 16 * 16) (x % 16) == x) 256 refl h)

join_low : (b : ℕ) → b < 256 → bit_or (b % 16) (b / 16 * 16) ≡ b
unfolding holds_below
join_low b h = (==_iff _ _).0 (holds_at (λ x. bit_or (x % 16) (x / 16 * 16) == x) 256 refl h)

or_high_low : (h l : ℕ) → h < 16 → l < 16 → bit_or (h * 16) l ≡ h * 16 + l
or_high_low h l hh hl =
    let e : (h * 16 + l) / 16 ≡ h = omega arith in
    let f : (h * 16 + l) % 16 ≡ l = omega arith in
    rw (e, f) at (join_high (h * 16 + l) (omega arith))

or_low_high : (h l : ℕ) → h < 16 → l < 16 → bit_or l (h * 16) ≡ h * 16 + l
or_low_high h l hh hl =
    let e : (h * 16 + l) / 16 ≡ h = omega arith in
    let f : (h * 16 + l) % 16 ≡ l = omega arith in
    rw (e, f) at (join_low (h * 16 + l) (omega arith))

-- One byte with one of its halves replaced, in arithmetic.
set_low : (b v : ℕ) → b < 256 → v < 256 → set_nibble_byte b 0 v ≡ b / 16 * 16 + v % 16
unfolding set_nibble_byte
set_low b v hb hv =
    rw (high_mask b hb, low_mask v hv) (or_high_low (b / 16) (v % 16) (omega arith) (omega arith))

set_high : (b v : ℕ) → b < 256 → v < 256 → set_nibble_byte b 1 v ≡ v % 16 * 16 + b % 16
unfolding set_nibble_byte
set_high b v hb hv =
    rw (low_mask b hb, low_mask v hv) (or_low_high (v % 16) (b % 16) (omega arith) (omega arith))

-- A half of a byte, as `get_nibble` reads it.
abbrev half : ℕ → ℕ → ℕ
half b odd = bit_and (b / (if odd == 0 then 1 else 16)) 0x0f

half-zero : (b : ℕ) → b < 256 → half b 0 ≡ b % 16
half-zero b h = let e : b / 1 ≡ b = omega arith in rw e (low_mask b h)

half-one : (b : ℕ) → b < 256 → half b 1 ≡ b / 16
half-one b h = low_mask (b / 16) (omega arith) ∙ omega arith

set_nibble_byte-IsByte : (b p v : ℕ) → b < 256 → v < 256 → p < 2 → IsByte (set_nibble_byte b p v)
set_nibble_byte-IsByte b zero v hb hv hp = rw (set_low b v hb hv) (omega arith)
set_nibble_byte-IsByte b (suc zero) v hb hv hp = rw (set_high b v hb hv) (omega arith)
set_nibble_byte-IsByte b (suc (suc p)) v hb hv hp = absurd (omega arith)

half-set : (b p v : ℕ) → b < 256 → v < 256 → p < 2 → half (set_nibble_byte b p v) p ≡ v % 16
half-set b zero v hb hv hp =
    half-zero _ (set_nibble_byte-IsByte b 0 v hb hv hp) ∙ rw (set_low b v hb hv) (omega arith)
half-set b (suc zero) v hb hv hp =
    half-one _ (set_nibble_byte-IsByte b 1 v hb hv hp) ∙ rw (set_high b v hb hv) (omega arith)
half-set b (suc (suc p)) v hb hv hp = absurd (omega arith)

half-set_other :
    (b p q v : ℕ)
    → b < 256
    → v < 256
    → p < 2
    → q < 2
    → p ≢ q
    → half (set_nibble_byte b p v) q ≡ half b q
half-set_other b zero zero v hb hv hp hq ne = absurd (ne refl)
half-set_other b zero (suc zero) v hb hv hp hq ne =
    half-one _ (set_nibble_byte-IsByte b 0 v hb hv hp)
    ∙ rw (set_low b v hb hv, half-one b hb) (omega arith)
half-set_other b (suc zero) zero v hb hv hp hq ne =
    half-zero _ (set_nibble_byte-IsByte b 1 v hb hv hp)
    ∙ rw (set_high b v hb hv, half-zero b hb) (omega arith)
half-set_other b (suc zero) (suc zero) v hb hv hp hq ne = absurd (ne refl)
half-set_other b (suc (suc p)) q v hb hv hp hq ne = absurd (omega arith)
half-set_other b p (suc (suc q)) v hb hv hp hq ne = absurd (omega arith)

module _ (ns : List ℕ) (v : ℕ) (bytes : All IsByte ns) (hv : v < 256) where
  byte_at : (i : ℕ) → get_or ns i 0 < 256
  byte_at i = All-get_or IsByte ns i 0 bytes (omega arith)

  pub set_nibble-IsByte : (i : ℕ) → All IsByte (set_nibble ns i v)
  unfolding set_nibble
  set_nibble-IsByte i =
      All-set IsByte ns (i / 2) _ bytes
        (set_nibble_byte-IsByte (get_or ns (i / 2) 0) (i % 2) v (byte_at (i / 2)) hv (omega arith))

  pub get_nibble-set_nibble_self :
      (i : ℕ) → i < 2 * length ns → get_nibble (set_nibble ns i v) i ≡ v % 16
  unfolding get_nibble set_nibble
  get_nibble-set_nibble_self i hi =
      rw
        (get_or-set_self ns (i / 2) (set_nibble_byte (get_or ns (i / 2) 0) (i % 2) v) 0
          (omega arith))
        (half-set (get_or ns (i / 2) 0) (i % 2) v (byte_at (i / 2)) hv (omega arith))

  pub get_nibble-set_nibble_ne :
      (i j : ℕ) → i < 2 * length ns → i ≢ j → get_nibble (set_nibble ns i v) j ≡ get_nibble ns j
  unfolding get_nibble set_nibble
  get_nibble-set_nibble_ne i j hi ne = elim (ℕ_discrete (i / 2) (j / 2)) [
    | yes e ↦ rw (← e) (
        rw
          (get_or-set_self ns (i / 2) (set_nibble_byte (get_or ns (i / 2) 0) (i % 2) v) 0
            (omega arith))
          (half-set_other (get_or ns (i / 2) 0) (i % 2) (j % 2) v (byte_at (i / 2)) hv (omega arith)
            (omega arith) (omega arith)))
    | no ne' ↦
        rw
          (get_or-set_ne ns (i / 2) (j / 2) (set_nibble_byte (get_or ns (i / 2) 0) (i % 2) v) 0 ne')
  ]

-- A nibble within the bytes that is set is read back, cut to four bits, and every other nibble is as
-- before.
pub get_nibble-set_nibble :
    (ns : List ℕ) (i j v : ℕ)
    → All IsByte ns
    → v < 256
    → i < 2 * length ns
    → get_nibble (set_nibble ns i v) j ≡ (if i == j then v % 16 else get_nibble ns j)
get_nibble-set_nibble ns i j v bytes hv hi = elim (ℕ_discrete i j) [
  | yes e ↦ rw (← e, ==_refl i) (get_nibble-set_nibble_self ns v bytes hv i hi)
  | no ne ↦ rw (==_ne i j ne) (get_nibble-set_nibble_ne ns v bytes hv i j hi ne)
]

pub length-set_nibble : (ns : List ℕ) (i v : ℕ) → length (set_nibble ns i v) ≡ length ns
unfolding set_nibble
length-set_nibble ns i v = length-set ns (i / 2) _

-- A run of nibbles written from index `i` on, and an array that holds such a run.
unfoldable pub set_nibbles : List ℕ → ℕ → List ℕ → List ℕ
set_nibbles ns i [] = ns
set_nibbles ns i (v ∷ vs) = set_nibbles (set_nibble ns i v) (i + 1) vs

abbrev pub Holds : List ℕ → ℕ → List ℕ → Type 0
Holds ns i [] = Unit
Holds ns i (v ∷ vs) = (get_nibble ns i ≡ v) × Holds ns (i + 1) vs

get_nibble-set_nibbles :
    (vs ns : List ℕ) (i j : ℕ)
    → All IsByte ns
    → All (λ v. v < 16) vs
    → i + length vs ≤ 2 * length ns
    → j < i
    → get_nibble (set_nibbles ns i vs) j ≡ get_nibble ns j
unfolding set_nibbles
get_nibble-set_nibbles [] ns i j bytes small fits h = refl
get_nibble-set_nibbles (v ∷ vs) ns i j bytes small fits h =
    get_nibble-set_nibbles vs (set_nibble ns i v) (i + 1) j
      (set_nibble-IsByte ns v bytes (omega arith) i) small.1
      (omega (arith, length-set_nibble ns i v)) (omega arith)
    ∙ get_nibble-set_nibble_ne ns v bytes (omega arith) i j (omega arith) (omega arith)

pub set_nibbles-Holds :
    (vs ns : List ℕ) (i : ℕ)
    → All IsByte ns
    → All (λ v. v < 16) vs
    → i + length vs ≤ 2 * length ns
    → Holds (set_nibbles ns i vs) i vs
unfolding set_nibbles
set_nibbles-Holds [] ns i bytes small fits = tt
set_nibbles-Holds (v ∷ vs) ns i bytes small fits =
    let next : All IsByte (set_nibble ns i v) = set_nibble-IsByte ns v bytes (omega arith) i in
    let room : i + 1 + length vs ≤ 2 * length (set_nibble ns i v) =
      omega (arith, length-set_nibble ns i v) in
    (
      get_nibble-set_nibbles vs (set_nibble ns i v) (i + 1) i next small.1 room (omega arith)
          ∙ get_nibble-set_nibble_self ns v bytes (omega arith) i (omega arith)
          ∙ omega arith,
      set_nibbles-Holds vs (set_nibble ns i v) (i + 1) next small.1 room,
    )

pub length-set_nibbles : (vs ns : List ℕ) (i : ℕ) → length (set_nibbles ns i vs) ≡ length ns
unfolding set_nibbles
length-set_nibbles [] ns i = refl
length-set_nibbles (v ∷ vs) ns i =
    length-set_nibbles vs (set_nibble ns i v) (i + 1) ∙ length-set_nibble ns i v
