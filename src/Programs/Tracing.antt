-- ===== src/Programs/Tracing.antt =====
-- trace/trace.go. The exporters of OpenTelemetry and its provider are the fields of a record.
use demedia_nostr.Prelude.{String, ◌==◌, ◌||◌, Option, if◌then◌else◌}
use demedia_nostr.Prelude.Text.{◌<>◌}
use demedia_nostr.Nostr.{Error, message, Result, err}
use demedia_nostr.Programs.Exiting.{Program, ◌>>=◌, or_exit, does}

pub record TracerConfig : Type 0 where
  pub trace_exporter : String
  pub service_name : String
  pub environment : String
  pub service_version : String

pub record Telemetry (Env : Type 0) : Type 1 where
  pub Exporter : Type 0
  pub Tracer : Type 0
  pub jaeger : Env → Result Exporter × Env
  -- otlptrace.New of an insecure client for HTTP and for gRPC
  pub otlp_http : Env → Result Exporter × Env
  pub otlp_grpc : Env → Result Exporter × Env
  pub stdout : Env → Result Exporter × Env
  -- NewTracerProvider with the exporter and the names of the service, its version and its
  -- environment, SetTracerProvider, and the provider's Tracer
  pub provide : Exporter → String → String → String → Env → Tracer × Env
  -- Shutdown of the provider
  pub shutdown : Tracer → Env → Option Error × Env
  -- what log.Fatalf makes of "cannot create trace exporter %s: %w"
  pub fatal_text : String → Error → String

module _ {Env : Type 0} (t : Telemetry Env) where
  unfoldable pub create_otel_exporter : String → Env → Result t.Exporter × Env
  create_otel_exporter exporter_type w =
      if exporter_type == "jaeger"
      then t.jaeger w
      else if exporter_type == "otlp" || exporter_type == "otlp-http"
      then t.otlp_http w
      else if exporter_type == "otlp-grpc"
      then t.otlp_grpc w
      else if exporter_type == "stdout"
      then t.stdout w
      else (err (message ("unrecognized exporter type " <> exporter_type)), w)

  -- The tracer; the function that is returned with it is the field `shutdown` of it.
  unfoldable pub create_tracers : TracerConfig → Program Env t.Tracer
  unfolding create_otel_exporter
  create_tracers cfg = do
    exp ← or_exit (t.fatal_text cfg.trace_exporter) (create_otel_exporter cfg.trace_exporter)
    does (t.provide exp cfg.service_name cfg.service_version cfg.environment)
