-- ===== src/Reader/File/Sizes.antt =====
-- tools/decompressor.c: the argument types and the argument data of a written entry.
use cnano_log.Base.{
  ℕ, zero, suc, ◌-◌, ◌%◌, ◌<◌, ◌≤◌, ◌≡◌, refl, List, [], ◌∷◌, ◌++◌, length, length-append, map,
  take, replicate, arith,
}
use cnano_log.Format.{of_code, code, max_args}
use cnano_log.Args.{
  int32, int64, uint32, uint64, double, pointer, char, kind_type, Arg, scalar, text, type_of, types,
  encode,
}
use cnano_log.Base.Bytes.{le_bytes, length-le_bytes}
use cnano_log.Registry
use cnano_log.Registry.{LogSite}
use cnano_log.Decompress.{used_types}
use cnano_log.Compressor.Spec.{compressed, nibble_array, packed_ints, strings}
use cnano_log.Compressor.Bound.{length-nibble_array}
use cnano_log.Packer.{nibble_bytes}
use cnano_log.Writer.Dictionary.{type_codes}
use cnano_log.Reader.LoadLaws.{loaded_site}

of_code-code : (a : Arg) → of_code (code (type_of a) % 256) ≡ type_of a
unfolding of_code code kind_type
of_code-code (text s) = refl
of_code-code (scalar int32 w) = refl
of_code-code (scalar int64 w) = refl
of_code-code (scalar uint32 w) = refl
of_code-code (scalar uint64 w) = refl
of_code-code (scalar double w) = refl
of_code-code (scalar pointer w) = refl
of_code-code (scalar char w) = refl

take-map :
    (args : List Arg) (rest : List ℕ)
    → take (length args) (map of_code (map (λ t. code t % 256) (types args) ++ rest)) ≡ types args
take-map [] rest = refl
take-map (a ∷ args) rest = rw (of_code-code a, take-map args rest)

take-types : (n : ℕ) (args : List Arg) → length args ≤ n → take n (types args) ≡ types args
take-types zero [] h = refl
take-types (suc n) [] h = refl
take-types zero (a ∷ args) h = absurd (omega arith)
take-types (suc n) (a ∷ args) h = rw (take-types n args (omega arith))

-- The loaded site has the argument types of the site, when it has as many as it says, and at most 50.
pub used_types-loaded_site :
    (s : LogSite) (args : List Arg)
    → Registry.used_types s ≡ types args
    → s.num_args ≡ length args
    → length args ≤ max_args
    → used_types (loaded_site s) ≡ types args
unfolding type_codes
used_types-loaded_site s args h n few = rw (
  h,
  take-types max_args args few,
  n,
  take-map args (replicate (max_args - length (types args)) 0),
)

-- Only a call without arguments has no argument data.
pub length-compressed : (a : Arg) (args : List Arg) → 0 < length (compressed (a ∷ args))
unfolding compressed nibble_bytes
length-compressed (scalar k w) args =
    let all = scalar k w ∷ args in
    omega (
      arith,
      length-append (nibble_array all) (packed_ints all ++ strings all),
      length-nibble_array all,
    )
length-compressed (text s) args =
    let all = text s ∷ args in
    omega (
      arith,
      length-append (nibble_array all) (packed_ints all ++ strings all),
      length-append (packed_ints all) (strings all),
      length-append (encode (text s)) (strings args),
      length-append (le_bytes 4 (length s)) s,
      length-le_bytes 4 (length s),
    )
