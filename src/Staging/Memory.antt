-- ===== src/Staging/Memory.antt =====
-- Byte arrays: stores and copies of a range, and how they meet.
use cnano_log.Base.{
  ℕ, zero, suc, ◌+◌, ◌-◌, ◌<◌, ◌≤◌, ◌≡◌, refl, ap, ◌⊎◌, inl, inr, List, [], ◌∷◌, ◌++◌, arith,
  length, get_or, take, drop,
}
use native.Mathlib.Nat.{add-zero}

-- A store of bytes from position `p` on; nothing is written past the end.
unfoldable pub write_at : List ℕ → ℕ → List ℕ → List ℕ
write_at [] p bs = []
write_at (x ∷ m) zero [] = x ∷ m
write_at (x ∷ m) zero (b ∷ bs) = b ∷ write_at m zero bs
write_at (x ∷ m) (suc p) bs = x ∷ write_at m p bs

-- The `n` bytes from position `a` on.
unfoldable pub slice : List ℕ → ℕ → ℕ → List ℕ
slice m a zero = []
slice m a (suc n) = get_or m a 0 ∷ slice m (a + 1) n

pub length-write_at : (m : List ℕ) (p : ℕ) (bs : List ℕ) → length (write_at m p bs) ≡ length m
unfolding write_at
length-write_at [] p bs = refl
length-write_at (x ∷ m) zero [] = refl
length-write_at (x ∷ m) zero (b ∷ bs) = ap suc (length-write_at m zero bs)
length-write_at (x ∷ m) (suc p) bs = ap suc (length-write_at m p bs)

pub length-slice : (m : List ℕ) (a n : ℕ) → length (slice m a n) ≡ n
unfolding slice
length-slice m a zero = refl
length-slice m a (suc n) = ap suc (length-slice m (a + 1) n)

get_or-write_at_in :
    (m : List ℕ) (p : ℕ) (bs : List ℕ) (j : ℕ)
    → p + length bs ≤ length m
    → j < length bs
    → get_or (write_at m p bs) (p + j) 0 ≡ get_or bs j 0
unfolding write_at
get_or-write_at_in [] p bs j h lt = absurd (omega arith)
get_or-write_at_in (x ∷ m) zero [] j h lt = absurd (omega arith)
get_or-write_at_in (x ∷ m) zero (b ∷ bs) zero h lt = refl
get_or-write_at_in (x ∷ m) zero (b ∷ bs) (suc j) h lt =
    let e : 0 + suc j ≡ suc j = omega arith in
    let e' : 0 + j ≡ j = omega arith in
    rw e (rw e' at (get_or-write_at_in m zero bs j (omega arith) (omega arith)))
get_or-write_at_in (x ∷ m) (suc p) bs j h lt =
    let e : suc p + j ≡ suc (p + j) = omega arith in
    rw e (get_or-write_at_in m p bs j (omega arith) lt)

get_or-write_at_out :
    (m : List ℕ) (p : ℕ) (bs : List ℕ) (i : ℕ)
    → (i < p) ⊎ (p + length bs ≤ i)
    → get_or (write_at m p bs) i 0 ≡ get_or m i 0
unfolding write_at
get_or-write_at_out [] p bs i h = refl
get_or-write_at_out (x ∷ m) zero [] i h = refl
get_or-write_at_out (x ∷ m) zero (b ∷ bs) zero h = absurd (omega arith)
get_or-write_at_out (x ∷ m) zero (b ∷ bs) (suc i) h =
    get_or-write_at_out m zero bs i (inr (omega arith))
get_or-write_at_out (x ∷ m) (suc p) bs zero h = refl
get_or-write_at_out (x ∷ m) (suc p) bs (suc i) (inl h) =
    get_or-write_at_out m p bs i (inl (omega arith))
get_or-write_at_out (x ∷ m) (suc p) bs (suc i) (inr h) =
    get_or-write_at_out m p bs i (inr (omega arith))

slice_ext :
    (m m' : List ℕ) (a n : ℕ)
    → ((i : ℕ) → a ≤ i → i < a + n → get_or m i 0 ≡ get_or m' i 0)
    → slice m a n ≡ slice m' a n
unfolding slice
slice_ext m m' a zero h = refl
slice_ext m m' a (suc n) h = rw (
  h a (omega arith) (omega arith),
  slice_ext m m' (a + 1) n (λ i lo hi. h i (omega arith) (omega arith)),
)

slice_of :
    (m bs : List ℕ) (a : ℕ)
    → ((j : ℕ) → j < length bs → get_or m (a + j) 0 ≡ get_or bs j 0)
    → slice m a (length bs) ≡ bs
unfolding slice
slice_of m [] a h = refl
slice_of m (b ∷ bs) a h =
    let first : get_or m a 0 ≡ b = rw (add-zero a) at (h 0 (omega arith)) in
    rw (
      first,
      slice_of m bs (a + 1)
          (λ j lt. let e : a + 1 + j ≡ a + suc j = omega arith in rw e (h (suc j) (omega arith))),
    )

-- What was stored is copied back.
pub slice-write_at :
    (m : List ℕ) (p : ℕ) (bs : List ℕ)
    → p + length bs ≤ length m
    → slice (write_at m p bs) p (length bs) ≡ bs
slice-write_at m p bs h = slice_of (write_at m p bs) bs p (λ j lt. get_or-write_at_in m p bs j h lt)

-- A copy beside the store is as before.
pub slice-write_at_ne :
    (m : List ℕ) (p : ℕ) (bs : List ℕ) (a n : ℕ)
    → (a + n ≤ p) ⊎ (p + length bs ≤ a)
    → slice (write_at m p bs) a n ≡ slice m a n
slice-write_at_ne m p bs a n (inl h) =
    slice_ext (write_at m p bs) m a n (λ i lo hi. get_or-write_at_out m p bs i (inl (omega arith)))
slice-write_at_ne m p bs a n (inr h) =
    slice_ext (write_at m p bs) m a n (λ i lo hi. get_or-write_at_out m p bs i (inr (omega arith)))

-- Neighbouring ranges join.
pub slice-append : (m : List ℕ) (a n k : ℕ) → slice m a (n + k) ≡ slice m a n ++ slice m (a + n) k
unfolding slice
slice-append m a zero k =
    let e : 0 + k ≡ k = omega arith in let f : a + 0 ≡ a = omega arith in rw (e, f)
slice-append m a (suc n) k =
    let e : suc n + k ≡ suc (n + k) = omega arith in
    let f : a + suc n ≡ a + 1 + n = omega arith in
    rw (e, f) (ap (λ r. get_or m a 0 ∷ r) (slice-append m (a + 1) n k))

pub take-slice : (m : List ℕ) (a k n : ℕ) → k ≤ n → take k (slice m a n) ≡ slice m a k
unfolding slice
take-slice m a zero n h = refl
take-slice m a (suc k) zero h = absurd (omega arith)
take-slice m a (suc k) (suc n) h =
    ap (λ r. get_or m a 0 ∷ r) (take-slice m (a + 1) k n (omega arith))

pub drop-slice : (m : List ℕ) (a k n : ℕ) → drop k (slice m a (k + n)) ≡ slice m (a + k) n
unfolding slice
drop-slice m a zero n =
    let e : 0 + n ≡ n = omega arith in let f : a + 0 ≡ a = omega arith in rw (e, f)
drop-slice m a (suc k) n =
    let e : suc k + n ≡ suc (k + n) = omega arith in
    let f : a + suc k ≡ a + 1 + k = omega arith in rw (e, f) (drop-slice m (a + 1) k n)

pub take-slice_all : (m : List ℕ) (a k n : ℕ) → n ≤ k → take k (slice m a n) ≡ slice m a n
unfolding slice
take-slice_all m a zero zero h = refl
take-slice_all m a (suc k) zero h = refl
take-slice_all m a zero (suc n) h = absurd (omega arith)
take-slice_all m a (suc k) (suc n) h =
    ap (λ r. get_or m a 0 ∷ r) (take-slice_all m (a + 1) k n (omega arith))

pub drop-slice_le :
    (m : List ℕ) (a n d : ℕ) → n ≤ d → drop n (slice m a d) ≡ slice m (a + n) (d - n)
drop-slice_le m a n d h =
    let e : n + (d - n) ≡ d = omega arith in rw e at (drop-slice m a n (d - n))

pub slice-append_to :
    (m : List ℕ) (a b c : ℕ)
    → a ≤ b
    → b ≤ c
    → slice m a (c - a) ≡ slice m a (b - a) ++ slice m b (c - b)
slice-append_to m a b c h k =
    let e : (b - a) + (c - b) ≡ c - a = omega arith in
    let f : a + (b - a) ≡ b = omega arith in rw (e, f) at (slice-append m a (b - a) (c - b))
