-- ===== src/Logger.antt =====
-- relayer/start.go: the default logger. The packages logrus and otel are the entries and the span's
-- events that they are given, in order; a message is the text that its format makes.
use demedia_nostr.Prelude.{String, List, [], ◌∷◌, ◌++◌, ◌≡◌, refl}
use demedia_nostr.Prelude.Map.{Map}
use demedia_nostr.Prelude.Go.{Go, returns, panics}

pub data Level : Type 0 where
  panic : Level
  error : Level
  warning : Level
  info : Level

pub record Entry : Type 0 where
  pub level : Level
  pub fields : Map String String
  pub text : String

-- An event of a span, with its attribute "kind".
pub record SpanEvent : Type 0 where
  pub text : String
  pub kind : String

-- What was logged, and what was added to the span of the context.
pub record Logs : Type 0 where
  pub entries : List Entry
  pub events : List SpanEvent

-- log.New, with what DefaultLogger sets.
pub record StdLogger : Type 0 where
  pub out : String
  pub formatter : String
  pub hook_levels : List String

pub record SpanContext : Type 0 where
  pub trace_id : String
  pub span_id : String

unfoldable pub default_logger : StdLogger
default_logger = record {
  out = "stdout";
  formatter = "json";
  hook_levels = "panic" ∷ "fatal" ∷ "error" ∷ "warning" ∷ "info" ∷ [];
}

-- A call of logrus: its Panicf panics after it has logged.
abbrev pub ends : Level → Go (Unit {0})
ends panic = panics
ends error = returns tt
ends warning = returns tt
ends info = returns tt

unfoldable pub write_entry : Level → Map String String → String → Logs → Go (Unit {0}) × Logs
write_entry level fields text logs = (
  ends level,
  record logs {
    entries = logs.entries ++ (record { level = level; fields = fields; text = text } ∷ []);
  },
)

unfoldable pub infof : String → Logs → Go (Unit {0}) × Logs
infof text = write_entry info [] text

unfoldable pub warningf : String → Logs → Go (Unit {0}) × Logs
warningf text = write_entry warning [] text

unfoldable pub errorf : String → Logs → Go (Unit {0}) × Logs
errorf text = write_entry error [] text

unfoldable pub panicf : String → Logs → Go (Unit {0}) × Logs
panicf text = write_entry panic [] text

-- logWithContext
abbrev pub context_fields : SpanContext → Map String String
context_fields ctx = ("trace_id", ctx.trace_id) ∷ ("span_id", ctx.span_id) ∷ []

-- The methods that also take a context: they first add an event to its span.
unfoldable pub with_context : Level → String → SpanContext → String → Logs → Go (Unit {0}) × Logs
with_context level kind ctx text logs =
    write_entry level (context_fields ctx) text
      (record logs { events = logs.events ++ (record { text = text; kind = kind } ∷ []) })

unfoldable pub infof_with_context : SpanContext → String → Logs → Go (Unit {0}) × Logs
infof_with_context = with_context info "info"

unfoldable pub warningf_with_context : SpanContext → String → Logs → Go (Unit {0}) × Logs
warningf_with_context = with_context warning "warning"

unfoldable pub errorf_with_context : SpanContext → String → Logs → Go (Unit {0}) × Logs
errorf_with_context = with_context error "error"

unfoldable pub panicf_with_context : SpanContext → String → Logs → Go (Unit {0}) × Logs
panicf_with_context = with_context panic "panic"

unfoldable pub custom_level : String → String → Logs → Go (Unit {0}) × Logs
custom_level level text = write_entry info (("kind", level) ∷ []) text

-- The interface Logger of relayer/interface.go, whose methods here get the texts.
abbrev pub Method : Type 0
Method = String → Logs → Go (Unit {0}) × Logs

pub record Logger : Type 0 where
  pub infof : Method
  pub warningf : Method
  pub errorf : Method
  pub panicf : Method
  pub infof_with_context : SpanContext → Method
  pub warningf_with_context : SpanContext → Method
  pub errorf_with_context : SpanContext → Method
  pub panicf_with_context : SpanContext → Method
  pub custom_level : String → Method

-- The methods of stdLogger.
unfoldable pub std_logger : Logger
std_logger = record {
  infof = infof;
  warningf = warningf;
  errorf = errorf;
  panicf = panicf;
  infof_with_context = infof_with_context;
  warningf_with_context = warningf_with_context;
  errorf_with_context = errorf_with_context;
  panicf_with_context = panicf_with_context;
  custom_level = custom_level;
}

-- A message with a context is logged once and added once to the span, before a panic too.
with_context_lem :
    (level : Level) (kind text : String) (ctx : SpanContext) (logs : Logs)
    → (with_context level kind ctx text logs).1 ≡ record {
      entries =
          logs.entries ++ (record { level = level; fields = context_fields ctx; text = text } ∷ []);
      events = logs.events ++ (record { text = text; kind = kind } ∷ []);
    }
unfolding with_context write_entry
with_context_lem level kind text ctx logs = refl
