-- ===== src/Log/Output.antt =====
-- What `Log` writes to the console and to the file.
use fastvid.Common.{
  Bool-cases, inl, inr, refl, ◌≡◌, Bool, true, List, [], ◌∷◌, ◌++◌, map, not, ◌&&◌, arith,
  if◌then◌else◌,
}
use fastvid.Text.{Text, codes}
use fastvid.Log.{
  LogLevel, debug, info, warn, error, LoggerState, System, Sink, out, err, file, is_debug,
  ensure_log_file_initialized, write_lines, lines_of, log, output_stream_for_level, format_prefix,
}

-- The texts that go to the file, and those that go to the two console streams.
unfoldable pub file_texts : List (Sink × Text) → List Text
file_texts [] = []
file_texts ((file, t) ∷ ws) = t ∷ file_texts ws
file_texts ((out, t) ∷ ws) = file_texts ws
file_texts ((err, t) ∷ ws) = file_texts ws

unfoldable pub console_texts : List (Sink × Text) → List Text
console_texts [] = []
console_texts ((file, t) ∷ ws) = console_texts ws
console_texts ((out, t) ∷ ws) = t ∷ console_texts ws
console_texts ((err, t) ∷ ws) = t ∷ console_texts ws

-- A line as it is printed.
abbrev pub printed : System → LogLevel → Text → Text
printed sys level line = format_prefix sys level ++ (line ++ codes "\n")

pub write_lines-texts :
    (level : LogLevel) (opened : Bool) (prefix : Text) (lines : List Text)
    → let ws = write_lines (output_stream_for_level level) opened prefix lines in
      let texts = map (λ line. prefix ++ (line ++ codes "\n")) lines in
      (console_texts ws ≡ texts) × (file_texts ws ≡ (if opened then texts else []))
unfolding write_lines console_texts file_texts
write_lines-texts debug opened prefix [] = ground arith
write_lines-texts info opened prefix [] = ground arith
write_lines-texts warn opened prefix [] = ground arith
write_lines-texts error opened prefix [] = ground arith
write_lines-texts debug opened prefix (line ∷ lines) =
    ground (arith, write_lines-texts debug opened prefix lines)
write_lines-texts info opened prefix (line ∷ lines) =
    ground (arith, write_lines-texts info opened prefix lines)
write_lines-texts warn opened prefix (line ∷ lines) =
    ground (arith, write_lines-texts warn opened prefix lines)
write_lines-texts error opened prefix (line ∷ lines) =
    ground (arith, write_lines-texts error opened prefix lines)

pub ensure-initialized :
    (sys : System) (s : LoggerState)
    → s.initialized ≡ true
    → ensure_log_file_initialized sys s ≡ (s, [])
unfolding ensure_log_file_initialized
ensure-initialized sys s e = ground arith

pub log-initialized :
    (sys : System) (level : LogLevel) (message : Text) (s : LoggerState)
    → s.initialized ≡ true
    → log sys level message s ≡ (
        if is_debug level && not s.verbose then (s, []) else (
          s,
          write_lines
              (output_stream_for_level level)
              s.file_open
              (format_prefix sys level)
              (lines_of message),
        ))
unfolding log
log-initialized sys level message s e = rw (ensure-initialized sys s e) refl

-- Once the logger is initialised, a message of any level but a debug message that is silenced goes
-- to the console line by line, each with the prefix, and to the file the same lines exactly if it
-- is open; a debug message without the verbose flag leaves no trace.
pub log_lem :
    (sys : System) (level : LogLevel) (message : Text) (s : LoggerState)
    → s.initialized ≡ true
    → let written = (log sys level message s).1 in
      let texts = map (printed sys level) (lines_of message) in
      let silent = is_debug level && not s.verbose in
      (console_texts written ≡ (if silent then [] else texts))
      × (file_texts written ≡ (if silent then [] else (if s.file_open then texts else [])))
unfolding console_texts file_texts
log_lem sys level message s e = elim (Bool-cases (is_debug level && not s.verbose)) [
  | inl silent ↦ rw (log-initialized sys level message s e, silent) (refl, refl)
  | inr heard ↦
      rw (log-initialized sys level message s e, heard)
        (write_lines-texts level s.file_open (format_prefix sys level) (lines_of message))
]
