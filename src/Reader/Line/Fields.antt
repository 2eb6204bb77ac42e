-- ===== src/Reader/Line/Fields.antt =====
-- tools/decompressor.c: what an output format means, field by field.
use cnano_log.Base.{ℕ, ◌≢◌, List, [], ◌∷◌, ◌++◌}
use cnano_log.Reader.Context.{Libc, elapsed_ticks, c_string}
use cnano_log.Reader.Levels.{level_to_string}
use cnano_log.Reader.Line.{Call}

-- A character, `%%`, and the tokens `%t %T %r %l %f %L %m`.
pub data Field : Type 0 where
  plain : ℕ → Field
  percent timestamp ticks relative level filename line message : Field

unfoldable pub IsField : Field → Type 0
IsField (plain c) = (c ≢ 0) × (c ≢ b'%')
IsField _ = Unit

unfoldable pub field_chars : Field → List ℕ
field_chars (plain c) = c ∷ []
field_chars percent = b'%' ∷ (b'%' ∷ [])
field_chars timestamp = b'%' ∷ (b't' ∷ [])
field_chars ticks = b'%' ∷ (b'T' ∷ [])
field_chars relative = b'%' ∷ (b'r' ∷ [])
field_chars level = b'%' ∷ (b'l' ∷ [])
field_chars filename = b'%' ∷ (b'f' ∷ [])
field_chars line = b'%' ∷ (b'L' ∷ [])
field_chars message = b'%' ∷ (b'm' ∷ [])

-- The output format of the fields.
unfoldable pub output_format : List Field → List ℕ
output_format [] = []
output_format (f ∷ fs) = field_chars f ++ output_format fs

unfoldable pub field_text : Libc → Call → Field → List ℕ
field_text libc call (plain c) = c ∷ []
field_text libc call percent = b'%' ∷ []
field_text libc call timestamp = c_string (call.timestamp_str)
field_text libc call ticks = libc.print_u (call.timestamp_raw)
field_text libc call relative =
    libc.print_seconds (elapsed_ticks call.ctx (call.timestamp_raw))
      ((call.ctx).timestamp_frequency)
field_text libc call level =
    c_string (level_to_string libc ((call.ctx).custom_levels) ((call.dict).log_level))
field_text libc call filename = c_string ((call.dict).filename)
field_text libc call line = libc.print_u ((call.dict).line_number)
field_text libc call message = c_string (call.message)

unfoldable pub line_text : Libc → Call → List Field → List ℕ
unfolding field_text
line_text libc call [] = []
line_text libc call (f ∷ fs) = field_text libc call f ++ line_text libc call fs
