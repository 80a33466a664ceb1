-- ===== src/Event/Tests.antt =====
-- The theorems on log events (include/papper/detail/core.h) at a concrete event.
use papper.Common.{refl, List, [], ◌∷◌, arith}
use papper.Queue.{create}
use papper.Queue.Spsc.{init}
use papper.Codec.{Value, object}
use papper.Event.{push_log_event}
use papper.Event.Protocol.{log_framing, Call, Pushed, push_log_event-Pushed}

-- A call with an `int`.
abbrev arguments : List Value
arguments = object 4 (1 ∷ 2 ∷ 3 ∷ 4 ∷ []) ∷ []

call : Call 1000 2000 3000 arguments
call = record {
  static_data_fits = omega arith;
  thread_name_fits = omega arith;
  timestamp_fits = omega arith;
  values = (refl, tt);
  small = omega arith;
}

push_log_event-Pushed_example :
    Pushed call (init log_framing 64) 0 (push_log_event 0 3000 (create 64) 1000 2000 arguments)
unfolding create
push_log_event-Pushed_example = push_log_event-Pushed call [] [] refl refl
