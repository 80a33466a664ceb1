-- ===== src/Sink/Tests.antt =====
-- The theorems on include/papper/detail/sink.h at a run of a sink.
use papper.Common.{◌≡◌, none, some, List, [], ◌∷◌, ◌++◌}
use papper.Sink.{opened, initial_sink, destroy, SinkOp, queue_sink, write_line, poll_sink, run_sink}
use papper.Sink.Files.{closes, closed_once}

-- Two files are queued, a null file is not, and a line is written behind a poll.
abbrev ops : List SinkOp
ops =
    queue_sink (some (opened 1)) 0 4096
    ∷ poll_sink
    ∷ queue_sink none 0 0
    ∷ queue_sink (some (opened 2)) 0 4096
    ∷ write_line (104 ∷ [])
    ∷ []

closed_once_example :
    let (s, effects) = run_sink initial_sink ops in closes 1 (effects ++ destroy s) ≡ 1
closed_once_example = closed_once 1 ops
