-- ===== src/Logger.antt =====
-- The logging macros of app/src/main/cpp/logger/logger.h.
use my_stest.Base.{Bool, true, false, Option, none, some}

-- `android_LogPriority`, as far as the macros name it.
pub data Priority : Type 0 where
  android_log_verbose android_log_debug android_log_info android_log_warn : Priority
  android_log_error android_log_fatal : Priority

pub data LogMacro : Type 0 where
  logv logd logi logw loge logf : LogMacro

-- The priority at which a macro prints by `__android_log_print`, in a build with DEBUG or without;
-- `none` where it expands to nothing.
abbrev pub priority_of : Bool → LogMacro → Option Priority
priority_of true logv = some android_log_verbose
priority_of false logv = none
priority_of true logd = some android_log_debug
priority_of false logd = none
priority_of debug logi = some android_log_info
priority_of debug logw = some android_log_warn
priority_of debug loge = some android_log_error
priority_of debug logf = some android_log_fatal
