-- ===== src/Backend/Samples.antt =====
-- Threads and an event on which the theorems on include/papper/detail/core.h are tried.
-- A call with an `int`.
use papper.Common.{ℕ, refl, Bool, true, false, List, [], ◌∷◌, arith, length}
use papper.Common.Int.{ℤ, pos}
use papper.Queue.{bit_ceil, create}
use papper.Queue.Invariant.{fresh, create-IsValid}
use papper.Codec.{Value, object, le_bytes}
use papper.Text.{Text, codes}
use papper.Pattern.{PatternData}
use papper.Event.{CallSiteStaticData, papper_info, LogEventHeader, header_for}
use papper.Event.Protocol.{Call, Call-IsEvent}
use papper.Event.Push.{push_log_event-Appended}
use papper.Backend.{ThreadContext, Node}
use papper.Backend.Visit.{Contains}
use papper.Backend.Race.{log_and_end}
use papper.Backend.Rounds.{Thread}
use papper.Backend.Represents.{Represents}

abbrev pub arguments : List Value
arguments = object 4 (1 ∷ 2 ∷ 3 ∷ 4 ∷ []) ∷ []

pub call : Call 1000 2000 3000 arguments
call = record {
  static_data_fits = omega arith;
  thread_name_fits = omega arith;
  timestamp_fits = omega arith;
  values = (refl, tt);
  small = omega arith;
}

abbrev pub event : LogEventHeader
event = header_for 1000 2000 3000 arguments

abbrev pub sites : ℕ → CallSiteStaticData
sites address = papper_info (codes "{}") arguments (codes "a.cpp") (codes "f") 3

-- Stand-ins for the names in memory, fmt, the clock and the formatter.
abbrev pub name_at : ℕ → Text
name_at address = codes "t"

abbrev pub message_of : Text → List Value → Text
message_of f args = length args ∷ f

abbrev pub local_time : ℕ → ℤ
local_time t = pos t

abbrev pub format_line : PatternData → Text
format_line d = d.message

abbrev pub empty_context : ThreadContext
empty_context = record { name = codes "t"; queue = create 64; is_alive = true }

-- A thread that has logged one event and ended.
abbrev pub ended : ThreadContext
ended = log_and_end 1000 2000 3000 arguments empty_context

pub empty-Contains : Contains sites empty_context.queue []
empty-Contains = ((fresh, (create-IsValid 64 (omega arith)).0, refl), tt)

ended-Contains : Contains sites ended.queue ((event, arguments) ∷ [])
unfolding create bit_ceil le_bytes
ended-Contains = (
  push_log_event-Appended call (create-IsValid 64 (omega arith)).0 (omega arith),
  (Call-IsEvent call, refl, tt),
)

-- A thread that has logged and ended, and one that has logged nothing.
abbrev pub two_nodes : Bool → List Node
two_nodes alive =
    record { address = 7; context = ended }
    ∷ record { address = 8; context = record empty_context { is_alive = alive } }
    ∷ []

abbrev pub two_threads : Bool → List Thread
two_threads alive =
    record { address = 7; alive = false; events = (event, arguments) ∷ [] }
    ∷ record { address = 8; alive = alive; events = [] }
    ∷ []

pub two_nodes-Represents : (alive : Bool) → Represents sites (two_nodes alive) (two_threads alive)
two_nodes-Represents alive = (refl, refl, ended-Contains, (refl, refl, empty-Contains, tt))
