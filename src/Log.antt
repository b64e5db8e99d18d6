-- ===== src/Log.antt =====
-- common/log.cpp: levels, the two buffers of a Logger, and the thread of an AsyncLogger that writes them
-- to files. The clock, ftell and fopen are arguments; a file is its date and number.
pub mod Buffers
pub mod Files
use tirpc.Prelude.{
  ℕ, zero, suc, ◌+◌, ◌-◌, Bool, true, false, not, ◌&&◌, ◌||◌, List, [], ◌∷◌, ◌++◌, Option, none,
  some, if◌then◌else◌, ltb, leb, Bytes, length, drop, replicate, codes, same_text, Outcome, ok,
  fault, ◌>>=◌,
}

pub data LogLevel : Type 0 where
  trace debug info warn error fatal none_level : LogLevel

-- The values of the enumeration, by which levels are compared.
unfoldable pub rank : LogLevel → ℕ
rank trace = 0
rank debug = 1
rank info = 2
rank warn = 3
rank error = 4
rank fatal = 5
rank none_level = 6

pub data LogType : Type 0 where
  app_log rpc_log : LogType

unfoldable pub str_to_log_level : Bytes → LogLevel
str_to_log_level str =
    if same_text str (codes "WARN")
    then warn
    else if same_text str (codes "INFO")
    then info
    else if same_text str (codes "DEBUG")
    then debug
    else if same_text str (codes "ERROR")
    then error
    else if same_text str (codes "NONE")
    then none_level
    else info

unfoldable pub level_to_string : LogLevel → Bytes
level_to_string trace = codes "DEBUG"
level_to_string debug = codes "DEBUG"
level_to_string info = codes " INFO"
level_to_string warn = codes " WARN"
level_to_string error = codes "ERROR"
level_to_string fatal = codes "DEBUG"
level_to_string none_level = codes " NONE"

unfoldable pub string_to_level : Bytes → LogLevel
string_to_level str =
    if same_text str (codes "DEBUG")
    then debug
    else if same_text str (codes "INFO")
    then info
    else if same_text str (codes "WARN")
    then warn
    else if same_text str (codes "ERROR")
    then error
    else if same_text str (codes "NONE")
    then none_level
    else debug

unfoldable pub log_type_to_string : LogType → Bytes
log_type_to_string app_log = codes "app"
log_type_to_string rpc_log = codes "rpc"

unfoldable pub adjust_string : Bytes → ℕ → ℕ → Bytes
adjust_string str len pad =
    if ltb len (length str)
    then drop (length str - len) str
    else if ltb (length str) len
    then replicate (len - length str) pad ++ str
    else str

-- What GetSS puts in front of a message: the interface is that of the runtime, if there is one.
unfoldable pub prefix_of : Bytes → LogLevel → Bytes → Option Bytes → Bytes
unfolding level_to_string adjust_string
prefix_of time level tid interface =
    let field_name : Bytes = elim interface [ none ↦ codes "main" | some name ↦ name ] in
    time
    ++ (codes " "
        ++ (level_to_string level
            ++ (codes " "
                ++ (tid ++ (codes " --- " ++ (adjust_string field_name 20 32 ++ codes " : "))))))

pub record AsyncLogger : Type 0 where
  pub tasks : List (List Bytes)
  pub stop : Bool
  pub max_size : ℕ
  pub no : ℕ
  pub need_reopen : Bool
  pub date : Bytes
  pub file : Option (Bytes × ℕ)
  -- All that was written, with its file.
  pub written : List ((Bytes × ℕ) × Bytes)

pub record Logger : Type 0 where
  pub rpc_buffer : List Bytes
  pub app_buffer : List Bytes
  pub rpc_logger : AsyncLogger
  pub app_logger : AsyncLogger

unfoldable pub push_rpc_log : Bytes → Logger → Logger
push_rpc_log msg l = record l { rpc_buffer = l.rpc_buffer ++ (msg ∷ []) }

unfoldable pub push_app_log : Bytes → Logger → Logger
push_app_log msg l = record l { app_buffer = l.app_buffer ++ (msg ∷ []) }

-- LogEvent::Log, where the levels are those of the configuration.
unfoldable pub log_event : LogLevel → LogLevel → LogLevel → LogType → Bytes → Logger → Logger
unfolding rank push_rpc_log push_app_log
log_event rpc_level app_level level rpc_log text l =
    if leb (rank rpc_level) (rank level) then push_rpc_log (text ++ (10 ∷ [])) l else l
log_event rpc_level app_level level app_log text l =
    if leb (rank app_level) (rank level) then push_app_log (text ++ (10 ∷ [])) l else l

unfoldable pub push_batch : List Bytes → AsyncLogger → AsyncLogger
push_batch [] a = a
push_batch (m ∷ ms) a = record a { tasks = a.tasks ++ ((m ∷ ms) ∷ []) }

unfoldable pub loop_func : Logger → Logger
unfolding push_batch
loop_func l = record {
  rpc_buffer = [];
  app_buffer = [];
  rpc_logger = push_batch l.rpc_buffer l.rpc_logger;
  app_logger = push_batch l.app_buffer l.app_logger;
}

unfoldable pub stop_logger : AsyncLogger → AsyncLogger
stop_logger a = record a { stop = true }

-- Logger::Flush; fflush of the files changes nothing here.
unfoldable pub flush : Logger → Logger
unfolding loop_func stop_logger
flush l =
    let l' = loop_func l in
    record l' { rpc_logger = stop_logger l'.rpc_logger; app_logger = stop_logger l'.app_logger }

-- What a round of Execute meets: the date, what ftell says, and the files that fopen can open.
pub record Now : Type 0 where
  pub today : Bytes
  pub told : ℕ
  pub can_open : Bytes × ℕ → Bool

unfoldable pub fopen : (Bytes × ℕ → Bool) → Bytes × ℕ → Option (Bytes × ℕ)
fopen can_open f = if can_open f then some f else none

unfoldable pub new_day : Bytes → AsyncLogger → AsyncLogger
new_day today a =
    if same_text a.date today then a else record a { no = 0; date = today; need_reopen = true }

abbrev pub is_none : {A : Type 0} → Option A → Bool
is_none none = true
is_none (some a) = false

unfoldable pub reopen : (Bytes × ℕ → Bool) → AsyncLogger → AsyncLogger
unfolding fopen
reopen can_open a =
    if a.need_reopen || is_none a.file
    then record a { file = fopen can_open (a.date, a.no); need_reopen = false }
    else a

-- A file over the size is followed by the next one; ftell of a null pointer is undefined.
unfoldable pub rotate : Now → Option (Bytes × ℕ) → AsyncLogger → Outcome AsyncLogger
unfolding fopen
rotate now none a = fault
rotate now (some f) a =
    if ltb a.max_size now.told
    then ok (record a {
      no = a.no + 1;
      file = fopen now.can_open (a.date, a.no + 1);
      need_reopen = false;
    })
    else ok a

abbrev pub is_blank : Bytes → Bool
is_blank [] = true
is_blank (c ∷ s) = false

-- The loop that writes a batch: fwrite to a null pointer is undefined.
unfoldable pub write_one : Bytes → Option (Bytes × ℕ) → AsyncLogger → Outcome AsyncLogger
write_one m none a = fault
write_one m (some f) a = ok (record a { written = a.written ++ ((f, m) ∷ []) })

unfoldable pub write_all : List Bytes → AsyncLogger → Outcome AsyncLogger
unfolding write_one
write_all [] a = ok a
write_all (m ∷ ms) a = (if is_blank m then ok a else write_one m a.file a) >>= write_all ms

-- A round of Execute ends in a wait for the condition, in the end of the thread, or in the next round.
pub data Turn : Type 0 where
  waits ends goes : AsyncLogger → Turn

unfoldable pub write_batch : Now → List Bytes → AsyncLogger → Outcome AsyncLogger
unfolding new_day reopen rotate write_all
write_batch now batch a =
    let a' = reopen now.can_open (new_day now.today a) in rotate now a'.file a' >>= write_all batch

unfoldable pub execute_round : Now → List (List Bytes) → AsyncLogger → Outcome Turn
unfolding write_batch
execute_round now [] a = if a.stop then ok (ends (record a { file = none })) else ok (waits a)
execute_round now (batch ∷ rest) a = write_batch now batch (record a { tasks = rest }) >>= λ a'.
    if a.stop then ok (ends (record a' { file = none })) else ok (goes a')

unfoldable pub go_on : (AsyncLogger → Outcome Turn) → Turn → Outcome Turn
go_on run (waits a) = ok (waits a)
go_on run (ends a) = ok (ends a)
go_on run (goes a) = run a

-- Execute, over what its rounds meet.
unfoldable pub execute : List Now → AsyncLogger → Outcome Turn
unfolding execute_round go_on
execute [] a = ok (waits a)
execute (now ∷ rounds) a = execute_round now a.tasks a >>= go_on (execute rounds)
