-- ===== src/Tests/Logs.antt =====
-- Logged lines, servers and spans.
use beamline_caf.Base.{if◌then◌else◌, List, String, none, false, ◌≡◌, true, [], ◌∷◌, some}
use beamline_caf.Base.{◌↔◌}
use beamline_caf.Observability.Pii.{
  filter_pii, Json, string, array, object, no_items, item, no_fields, field,
}
use beamline_caf.Observability.Redaction.{IsClean, filter_pii-fixes_iff}
use beamline_caf.Observability.Log.{log_fields}
use beamline_caf.Base.{ℕ, ℤ, pos, negsuc, ◌/◌, ◌%◌, length, arith, refl}
use beamline_caf.Observability.Timestamp.{Tm, get_iso8601_timestamp}
use beamline_caf.Observability.Timestamp.Digits.{compare_with, order}
use beamline_caf.Observability.Timestamp.Sorting.{Moment, tm_of, order-get_iso8601_timestamp}
use beamline_caf.Observability.LogLaws.{HasIds, log_fields-IsClean, log_fields-ids}
use beamline_caf.Observability.Endpoint.{
  Server, new_server, Calls, start, stop, stop_endpoint, obey, stop-obey,
}
use beamline_caf.Observability.Serving.{
  Round, server_loop, answers, before_leaving, nothing_served, server_loop-answers,
}
use beamline_caf.Tests.Data.{all_flags, context}

abbrev nested : Json
nested = object (
    field "user" (object (field "API_KEY" (string "k") no_fields))
      (field "n" (array (item (string "x") no_items)) no_fields))

filter_pii-fixes_iff_example : IsClean nested ↔ (filter_pii nested ≡ nested)
filter_pii-fixes_iff_example = filter_pii-fixes_iff nested

log_fields-ids_example :
    HasIds "INFO" "started" context
      (log_fields "w1" "now" "INFO" "started" context (("password", "p") ∷ []))
log_fields-ids_example = log_fields-ids "w1" "now" "INFO" "started" context (("password", "p") ∷ [])

log_fields-IsClean_example :
    IsClean (object (log_fields "w1" "now" "INFO" "started" context (("password", "p") ∷ [])))
log_fields-IsClean_example =
    log_fields-IsClean "w1" "now" "INFO" "started" context (("password", "p") ∷ [])

abbrev calls : Calls
calls = record { socket = some 7; binds = true; listens = true }

stop-obey_example :
    (s : Server) × (obey all_flags new_server
        (start calls ∷ start calls ∷ stop true ∷ start calls ∷ [])
      ≡ some s)
    × (stop_endpoint true s ≡ some new_server)
    × (stop_endpoint false s ≡ (if s.running then none else some new_server))
stop-obey_example =
    stop-obey all_flags (start calls ∷ start calls ∷ stop true ∷ start calls ∷ [])
      (tt, (tt, (refl, (tt, tt))))

-- A client asks for the health, another one sends nothing, and the server is stopped.
abbrev rounds : List Round
rounds =
    record {
      running = true;
      accepted = some (some "GET /_health HTTP/1.1");
      still_running = true;
      time = "now";
    }
    ∷ record { running = true; accepted = some none; still_running = true; time = "now" }
    ∷ record { running = true; accepted = none; still_running = false; time = "now" }
    ∷ []

abbrev fine : String → String
fine time = "fine"

server_loop-answers_example :
    ((server_loop "GET /_health" "text/plain" fine rounds nothing_served).sent
      ≡ answers "GET /_health" "text/plain" fine (before_leaving rounds))
    × ((server_loop "GET /_health" "text/plain" fine rounds nothing_served).open_clients ≡ 0)
server_loop-answers_example = server_loop-answers "GET /_health" "text/plain" fine rounds

-- A calendar for the first day of 1970, and two of its times, half a minute apart.
abbrev first_day : ℤ → Tm
first_day (pos now) = tm_of (record {
  years = 70;
  month = 0;
  day = 1;
  hour = now / 3600000000 % 24;
  minute = now / 60000000 % 60;
  second = now / 1000000 % 60;
})
first_day (negsuc now) =
    tm_of (record { years = 69; month = 11; day = 31; hour = 0; minute = 0; second = 0 })

abbrev moment : ℕ → ℕ → Moment
moment minute second = record {
  years = 70;
  month = 0;
  day = 1;
  hour = 0;
  minute = minute;
  second = second;
}

order-get_iso8601_timestamp_example :
    (length (get_iso8601_timestamp first_day (pos 31000007)) ≡ 27)
    × (order
          (get_iso8601_timestamp first_day (pos 31000007))
          (get_iso8601_timestamp first_day (pos 61000000))
        ≡ compare_with 31000007 61000000)
unfolding order
order-get_iso8601_timestamp_example =
    order-get_iso8601_timestamp first_day 31000007 61000000 (moment 0 31) (moment 1 1)
      (record {
        shown = refl;
        year_fits = omega arith;
        month_fits = omega arith;
        day_fits = omega arith;
        hour_fits = omega arith;
        minute_fits = omega arith;
        second_fits = omega arith;
      })
      (record {
        shown = refl;
        year_fits = omega arith;
        month_fits = omega arith;
        day_fits = omega arith;
        hour_fits = omega arith;
        minute_fits = omega arith;
        second_fits = omega arith;
      })
      refl
