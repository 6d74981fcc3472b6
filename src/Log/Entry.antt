-- ===== src/Log/Entry.antt =====
-- The functions of `Logger` that log at a level.
use fastvid.Common.{List}
use fastvid.Text.{Text}
use fastvid.Log.{LogLevel, LoggerState, System, Sink, log}

-- What a call leaves and writes.
abbrev pub Logging : Type 0
Logging = System → Text → LoggerState → LoggerState × List (Sink × Text)

-- `Logger::Debug`, `Logger::Info`, `Logger::Warn` and `Logger::Error`
pub debug : Logging
debug sys message s = log sys LogLevel.debug message s

pub info : Logging
info sys message s = log sys LogLevel.info message s

pub warn : Logging
warn sys message s = log sys LogLevel.warn message s

pub error : Logging
error sys message s = log sys LogLevel.error message s
