-- ===== src/Reader/Line/Laws.antt =====
-- tools/decompressor.c: `format_output` against the meaning of an output format.
use cnano_log.Base.{
  ℕ, ◌+◌, ◌-◌, ◌<◌, ◌≡◌, refl, sym, ap, ◌∙◌, List, [], ◌∷◌, ◌++◌, append_assoc, append-nil, lt→ltb,
  le→ltb_false, ==_ne, lt→leb_false, length, length-append, All, All-prefix, arith,
}
use cnano_log.Outcome.{done, fault}
use cnano_log.Reader.Context.{Libc, c_string}
use cnano_log.Reader.Line.{
  Call, print_field, put_output, print_token, output_percent, output_step, output_loop,
  format_output,
}
use cnano_log.Reader.Line.Fields.{
  Field, plain, percent, timestamp, ticks, relative, level, filename, line, message, IsField,
  field_chars, output_format, field_text, line_text,
}

module _ (out_end : ℕ) (text out : List ℕ) where
  print_field-fits :
      length out + length text < out_end → print_field out_end text out ≡ done (out ++ text)
  unfolding print_field
  print_field-fits h = rw (lt→ltb (length out + length text) out_end h)

  print_field-overruns : out_end < length out + length text → print_field out_end text out ≡ fault
  unfolding print_field
  print_field-overruns h = rw (
    le→ltb_false (length out + length text) out_end (omega arith),
    ==_ne (length out + length text) out_end (λ e. omega arith),
  )

module _ (libc : Libc) (call : Call) (out_end : ℕ) where
  -- One field that fits.
  loop-field :
      (f : Field) (fmt out : List ℕ)
      → IsField f
      → length out + length (field_text libc call f) < out_end
      → output_loop libc call out_end 0 (field_chars f ++ fmt) out
        ≡ output_loop libc call out_end 0 fmt (out ++ field_text libc call f)
  unfolding output_loop output_step output_percent print_token put_output field_text field_chars
      IsField
  loop-field (plain c) fmt out h room =
      rw (lt→leb_false out_end (length out) (omega arith), ==_ne c b'%' h.1)
  loop-field percent fmt out h room =
      rw
        (lt→leb_false out_end (length out) (omega arith), lt→ltb (length out) out_end (omega arith))
  loop-field timestamp fmt out h room =
      rw (lt→leb_false out_end (length out) (omega arith), print_field-fits out_end _ out room)
  loop-field ticks fmt out h room =
      rw (lt→leb_false out_end (length out) (omega arith), print_field-fits out_end _ out room)
  loop-field relative fmt out h room =
      rw (lt→leb_false out_end (length out) (omega arith), print_field-fits out_end _ out room)
  loop-field level fmt out h room =
      rw (lt→leb_false out_end (length out) (omega arith), print_field-fits out_end _ out room)
  loop-field filename fmt out h room =
      rw (lt→leb_false out_end (length out) (omega arith), print_field-fits out_end _ out room)
  loop-field line fmt out h room =
      rw (lt→leb_false out_end (length out) (omega arith), print_field-fits out_end _ out room)
  loop-field message fmt out h room =
      rw (lt→leb_false out_end (length out) (omega arith), print_field-fits out_end _ out room)

  loop-fields :
      (fs : List Field) (fmt out : List ℕ)
      → All IsField fs
      → length out + length (line_text libc call fs) < out_end
      → output_loop libc call out_end 0 (output_format fs ++ fmt) out
        ≡ output_loop libc call out_end 0 fmt (out ++ line_text libc call fs)
  unfolding output_format line_text
  loop-fields [] fmt out h room = rw (append-nil out)
  loop-fields (f ∷ fs) fmt out h room =
      let t = field_text libc call f in
      let whole = length-append t (line_text libc call fs) in
      rw
        (
          append_assoc (field_chars f) (output_format fs) fmt,
          sym (append_assoc out t (line_text libc call fs)),
        )
        (loop-field f (output_format fs ++ fmt) out h.0 (omega (arith, whole))
          ∙ loop-fields fs fmt (out ++ t) h.1 (omega (arith, whole, length-append out t)))

  -- One field that does not fit; a single character always does.
  loop-field_overruns :
      (f : Field) (fmt out : List ℕ)
      → length out < out_end
      → out_end < length out + length (field_text libc call f)
      → output_loop libc call out_end 0 (field_chars f ++ fmt) out ≡ fault
  unfolding output_loop output_step output_percent print_token put_output field_text field_chars
  loop-field_overruns (plain c) fmt out room h = absurd (omega arith)
  loop-field_overruns percent fmt out room h = absurd (omega arith)
  loop-field_overruns timestamp fmt out room h =
      rw (lt→leb_false out_end (length out) room, print_field-overruns out_end _ out h)
  loop-field_overruns ticks fmt out room h =
      rw (lt→leb_false out_end (length out) room, print_field-overruns out_end _ out h)
  loop-field_overruns relative fmt out room h =
      rw (lt→leb_false out_end (length out) room, print_field-overruns out_end _ out h)
  loop-field_overruns level fmt out room h =
      rw (lt→leb_false out_end (length out) room, print_field-overruns out_end _ out h)
  loop-field_overruns filename fmt out room h =
      rw (lt→leb_false out_end (length out) room, print_field-overruns out_end _ out h)
  loop-field_overruns line fmt out room h =
      rw (lt→leb_false out_end (length out) room, print_field-overruns out_end _ out h)
  loop-field_overruns message fmt out room h =
      rw (lt→leb_false out_end (length out) room, print_field-overruns out_end _ out h)

output_format-append :
    (fs gs : List Field) → output_format (fs ++ gs) ≡ output_format fs ++ output_format gs
unfolding output_format
output_format-append [] gs = refl
output_format-append (f ∷ fs) gs =
    rw (
      output_format-append fs gs,
      append_assoc (field_chars f) (output_format fs) (output_format gs),
    )

c_string-output_format :
    (fs : List Field) → All IsField fs → c_string (output_format fs) ≡ output_format fs
unfolding c_string output_format field_chars IsField
c_string-output_format [] h = refl
c_string-output_format (plain c ∷ fs) h =
    rw (==_ne c 0 h.0.0) (ap (λ t. c ∷ t) (c_string-output_format fs h.1))
c_string-output_format (percent ∷ fs) h =
    ap (λ t. b'%' ∷ (b'%' ∷ t)) (c_string-output_format fs h.1)
c_string-output_format (timestamp ∷ fs) h =
    ap (λ t. b'%' ∷ (b't' ∷ t)) (c_string-output_format fs h.1)
c_string-output_format (ticks ∷ fs) h = ap (λ t. b'%' ∷ (b'T' ∷ t)) (c_string-output_format fs h.1)
c_string-output_format (relative ∷ fs) h =
    ap (λ t. b'%' ∷ (b'r' ∷ t)) (c_string-output_format fs h.1)
c_string-output_format (level ∷ fs) h = ap (λ t. b'%' ∷ (b'l' ∷ t)) (c_string-output_format fs h.1)
c_string-output_format (filename ∷ fs) h =
    ap (λ t. b'%' ∷ (b'f' ∷ t)) (c_string-output_format fs h.1)
c_string-output_format (line ∷ fs) h = ap (λ t. b'%' ∷ (b'L' ∷ t)) (c_string-output_format fs h.1)
c_string-output_format (message ∷ fs) h =
    ap (λ t. b'%' ∷ (b'm' ∷ t)) (c_string-output_format fs h.1)

-- The line is the text of the fields of the output format, in order, up to the first terminator. The
-- text has fewer bytes than the output without its terminator.
pub format_output-line_text :
    (libc : Libc) (call : Call) (fs : List Field) (output_size : ℕ)
    → All IsField fs
    → length (line_text libc call fs) < output_size - 1
    → format_output libc (output_format fs) call output_size
      ≡ done (c_string (line_text libc call fs))
unfolding format_output output_loop
format_output-line_text libc call fs output_size h room = rw (
  c_string-output_format fs h,
  sym (append-nil (output_format fs)),
  loop-fields libc call (output_size - 1) fs [] [] h (omega (arith, room)),
)

-- A field whose text does not fit what is left of the output makes the function write its
-- terminator outside the output, as the write pointer moves by the whole text.
pub format_output-overruns :
    (libc : Libc) (call : Call) (fs : List Field) (f : Field) (gs : List Field) (output_size : ℕ)
    → All IsField (fs ++ (f ∷ gs))
    → length (line_text libc call fs) < output_size - 1
    → output_size - 1 < length (line_text libc call fs) + length (field_text libc call f)
    → format_output libc (output_format (fs ++ (f ∷ gs))) call output_size ≡ fault
unfolding format_output output_format
format_output-overruns libc call fs f gs output_size h room long =
    let out_end = output_size - 1 in
    let start =
      loop-fields libc call out_end fs (field_chars f ++ output_format gs) []
        (All-prefix IsField fs (f ∷ gs) h) (omega (arith, room)) in
    let stop =
      loop-field_overruns libc call out_end f (output_format gs) (line_text libc call fs) room
        long in
    rw (c_string-output_format (fs ++ (f ∷ gs)) h, output_format-append fs (f ∷ gs), start, stop)
