-- ===== src/ArgPacking/Stored.antt =====
-- src/arg_packing.h: nothing is stored outside the buffer, whether the arguments fit or not.
use cnano_log.Base.{
  ℕ, ◌+◌, ◌%◌, ◌^◌, ◌≤◌, ◌≡◌, refl, List, [], ◌∷◌, ◌++◌, some, none, ltb, Bool-cases, inl, inr,
  length, length-append, length-take, take, arith,
}
use cnano_log.Base.Bytes.{le_bytes, length-le_bytes}
use cnano_log.Outcome.{Outcome, done, rejected, fault}
use cnano_log.Format.{
  ArgType, arg_none, int32, int64, uint32, uint64, double, string, pointer, char, other,
}
use cnano_log.ArgPacking.{VaArg, word, chars, Packing, put_word, put_chars, pack_arg, stored_args}

module _ (size : ℕ) where
  abbrev Fits : Outcome Packing → Type 0
  Fits (done s) = length s.write_ptr ≤ size
  Fits rejected = Unit
  Fits fault = Unit

  put_word-Fits :
      (n : ℕ) (w : List ℕ) (args : List VaArg)
      → Fits (put_word size n (record { write_ptr = w; args = args }))
  unfolding put_word
  put_word-Fits n w [] = tt
  put_word-Fits n w (chars c ∷ r) = tt
  put_word-Fits n w (word v ∷ r) = elim (Bool-cases (ltb size (length w + n))) [
    | inl over ↦ rw over tt
    | inr room ↦
        let grown = length-append w (le_bytes n v) in
        let sizes = length-le_bytes n v in rw room (ground (arith, room, grown, sizes))
  ]

  put_chars-Fits : (w : List ℕ) (r : List VaArg) (str : List ℕ) → Fits (put_chars size w r str)
  unfolding put_chars
  put_chars-Fits w r str =
      let len = length str % 2 ^ 32 in
      elim (Bool-cases (ltb size (length w + 4 + len))) [
        | inl over ↦ rw over tt
        | inr room ↦
            let grown = length-append w (le_bytes 4 len ++ take len str) in
            let both = length-append (le_bytes 4 len) (take len str) in
            let sizes = length-le_bytes 4 len in
            let cut = length-take len str in rw room (ground (arith, room, grown, both, sizes, cut))
      ]

  pack_string-Fits :
      (w : List ℕ) (args : List VaArg)
      → Fits (pack_arg size string (record { write_ptr = w; args = args }))
  unfolding pack_arg
  pack_string-Fits w [] = tt
  pack_string-Fits w (word v ∷ r) = tt
  pack_string-Fits w (chars none ∷ r) = put_chars-Fits w r []
  pack_string-Fits w (chars (some str) ∷ r) = put_chars-Fits w r str

  pack_arg-Fits : (t : ArgType) (s : Packing) → length s.write_ptr ≤ size → Fits (pack_arg size t s)
  unfolding pack_arg
  pack_arg-Fits char s h = put_word-Fits 1 s.write_ptr s.args
  pack_arg-Fits int32 s h = put_word-Fits 4 s.write_ptr s.args
  pack_arg-Fits int64 s h = put_word-Fits 8 s.write_ptr s.args
  pack_arg-Fits uint32 s h = put_word-Fits 4 s.write_ptr s.args
  pack_arg-Fits uint64 s h = put_word-Fits 8 s.write_ptr s.args
  pack_arg-Fits double s h = put_word-Fits 8 s.write_ptr s.args
  pack_arg-Fits pointer s h = put_word-Fits 8 s.write_ptr s.args
  pack_arg-Fits string s h = pack_string-Fits s.write_ptr s.args
  pack_arg-Fits arg_none s h = h
  pack_arg-Fits (other n) s h = h

  stored_after :
      (ts : List ArgType) (s : Packing) (o : Outcome Packing)
      → length s.write_ptr ≤ size
      → ((s' : Packing) → o ≡ done s' → length (stored_args size ts s') ≤ size)
      → length (elim o as (λ _. List ℕ) [
        | done s' ↦ stored_args size ts s'
        | rejected ↦ s.write_ptr
        | fault ↦ s.write_ptr
      ])
        ≤ size
  stored_after ts s (done s') h next = next s' refl
  stored_after ts s rejected h next = h
  stored_after ts s fault h next = h

  pub length-stored_args :
      (ts : List ArgType) (s : Packing)
      → length s.write_ptr ≤ size
      → length (stored_args size ts s) ≤ size
  unfolding stored_args
  length-stored_args [] s h = h
  length-stored_args (t ∷ ts) s h =
      stored_after ts s (pack_arg size t s) h
        (λ s' e. length-stored_args ts s' (rw e at (pack_arg-Fits t s h)))
