-- ===== src/Program/Accounts.antt =====
-- The accepted events of the threads of include/papper/detail/core.h, when no call of a thread overlaps a
-- poll of the backend: taken by a poll, or waiting in the queue of the thread.
use papper.Common.{
  ℕ, ◌^◌, ◌≤◌, ◌≡◌, refl, sym, ap, ap₂, ◌∙◌, subst, inl, inr, Bool, true, Option, some, List, [],
  ◌∷◌, ◌++◌, append-nil, append_assoc, map, ◌==◌, ==_iff, Bool-cases,
}
use papper.Common.Int.{ℤ}
use papper.Memory.{Bytes}
use papper.Text.{Text}
use papper.Level.{LogLevel}
use papper.Codec.{Value, kind_of}
use papper.Queue.Invariant.{fresh, create-IsValid}
use papper.Pattern.{PatternData}
use papper.Event.{CallSiteStaticData}
use papper.Event.Protocol.{Call, Call-IsEvent}
use papper.Event.RoundTrip.{event_bytes}
use papper.Event.Accept.{is_accepted, push_log_event-cases}
use papper.Backend.{ThreadContext, kill, Node, register_thread, poll_threads}
use papper.Backend.Nodes.{Absent}
use papper.Backend.Visit.{LogEvent, messages_of, AllEvents, Contains}
use papper.Backend.Rounds.{
  Thread, survivors, Taken, taken, tagged, from, NoThread, DistinctThreads,
  DistinctThreads-survivors, events_at,
}
use papper.Backend.Order.{from-append, events_at-none, taken_lem}
use papper.Backend.Represents.{Represents}
use papper.Backend.Poll.{poll_threads_lem}
use papper.Backend.Start.{start_thread}
use papper.Program.{
  Program, context_at, change_context, log_on, accepted, ProgramStep, starts, logs, ends, polls,
  Run, begin, next,
}
use papper.Program.Threads.{
  change_thread, Represents-change_thread, DistinctThreads-change_thread, events_at-change_thread,
  Absent-NoThread,
}
use papper.Program.Batches.{Batch, taken_in, taken_in-append, written_by, written_by-append}

messages_of-append :
    (es fs : List LogEvent) → messages_of (es ++ fs) ≡ messages_of es ++ messages_of fs
messages_of-append [] fs = refl
messages_of-append ((h, args) ∷ es) fs =
    ap (λ (l : List Bytes). event_bytes h args ∷ l) (messages_of-append es fs)

AllEvents-append :
    (sites : ℕ → CallSiteStaticData) (es fs : List LogEvent)
    → AllEvents sites es
    → AllEvents sites fs
    → AllEvents sites (es ++ fs)
AllEvents-append sites [] fs h k = k
AllEvents-append sites (e ∷ es) fs h k = (h.0, h.1, AllEvents-append sites es fs h.2 k)

module _ (to_string : ℕ → Text) (sites : ℕ → CallSiteStaticData) (name_at : ℕ → Text)
    (message_of : Text → List Value → Text) where
  -- The lines written are those of a sequence of polls; and of each thread, what these took and then
  -- what is left are the events that its queue accepted, in their order.
  pub record Accounted (p : Program) : Type 0 where
    pub threads : List Thread
    pub represents : Represents sites p.threads.nodes threads
    pub distinct : DistinctThreads threads
    pub batches : List Batch
    pub lines : p.written ≡ written_by sites name_at message_of batches
    pub complete : (a : ℕ) → from a (taken_in batches) ++ events_at a threads ≡ from a p.logged

  -- A call on a queue with some events: its event comes behind them, if it is accepted.
  Contains-log_on :
      {static_data thread_name timestamp : ℕ} {args : List Value}
      (call : Call static_data thread_name timestamp args) (c : ThreadContext) (es : List LogEvent)
      → (sites static_data).arg_kinds ≡ map kind_of args
      → Contains sites c.queue es
      → Contains sites
          (log_on static_data thread_name timestamp args c).queue
          (es ++ accepted (is_accepted c.queue args) static_data thread_name timestamp args)
  Contains-log_on call c es typed ((v, i, e), all) = elim (push_log_event-cases call c.queue v i) [
    | inl (kept, (v', i', e')) ↦ rw kept (
      (v', i', e' ∙ rw e (sym (messages_of-append es _))),
      AllEvents-append sites es _ all (Call-IsEvent call, typed, tt),
    )
    | inr (gone, (v', i', e')) ↦ rw gone (rw (append-nil es) ((v', i', e' ∙ e), all))
  ]

  Accounted-starts :
      (p : Program) (address queue_size : ℕ) (thread_name : Text)
      → Absent address p.threads.nodes
      → queue_size ≤ 2 ^ 62
      → Accounted p
      → Accounted
          (record p { threads = start_thread to_string address thread_name queue_size p.threads })
  unfolding start_thread register_thread
  Accounted-starts p address queue_size thread_name absent small acc = record {
    threads = record { address = address; alive = true; events = [] } ∷ acc.threads;
    represents =
        (refl, refl, ((fresh, (create-IsValid queue_size small).0, refl), tt), acc.represents);
    distinct = (fresh_address, acc.distinct);
    batches = acc.batches;
    lines = acc.lines;
    complete = λ a. elim (Bool-cases (address == a)) [
      | inl same ↦ rw same (
          ap (λ (l : List LogEvent). from a (taken_in acc.batches) ++ l) (sym (nothing a same))
          ∙ acc.complete a)
      | inr other ↦ rw other (acc.complete a)
    ];
  }
    where
      fresh_address : NoThread address acc.threads
      fresh_address =
          Absent-NoThread sites address p.threads.nodes acc.threads acc.represents absent

      nothing : (a : ℕ) → (address == a) ≡ true → events_at a acc.threads ≡ []
      nothing a same =
          subst (λ (x : ℕ). events_at x acc.threads ≡ []) ((==_iff address a).0 same)
            (events_at-none address acc.threads fresh_address)

  -- A thread changes its context, whose queue then has some more events.
  Accounted-change_context :
      (p : Program) (address : ℕ) (c c' : ThreadContext) (more : List LogEvent)
      → context_at address p.threads.nodes ≡ some c
      → ((es : List LogEvent) → Contains sites c.queue es → Contains sites c'.queue (es ++ more))
      → Accounted p
      → Accounted
          (record (change_context p address c') { logged = p.logged ++ tagged address more })
  Accounted-change_context p address c c' more there grows acc = record {
    threads = change_thread address c'.is_alive more acc.threads;
    represents =
        Represents-change_thread sites address c c' more p.threads.nodes acc.threads grows there
          acc.represents;
    distinct = DistinctThreads-change_thread address c'.is_alive more acc.threads acc.distinct;
    batches = acc.batches;
    lines = acc.lines;
    complete = λ a.
        ap (λ (l : List LogEvent). from a (taken_in acc.batches) ++ l)
          (events_at-change_thread sites a address c'.is_alive c more p.threads.nodes acc.threads
            there acc.represents)
        ∙ sym (
            append_assoc (from a (taken_in acc.batches)) (events_at a acc.threads)
              (from a (tagged address more)))
        ∙ ap (λ (l : List LogEvent). l ++ from a (tagged address more)) (acc.complete a)
        ∙ sym (from-append a p.logged (tagged address more));
  }

  Accounted-ends :
      (p : Program) (address : ℕ) (c : ThreadContext)
      → context_at address p.threads.nodes ≡ some c
      → Accounted p
      → Accounted (change_context p address (kill c))
  Accounted-ends p address c there acc =
      subst
        (λ (l : List Taken). Accounted (record (change_context p address (kill c)) { logged = l }))
        (append-nil p.logged)
        (Accounted-change_context p address c (kill c) [] there
          (λ es h. subst (Contains sites c.queue) (sym (append-nil es)) h) acc)

  Accounted-polls :
      (p : Program) (min_log_level : LogLevel) (local_time : ℕ → ℤ)
      (format_line : PatternData → Text) (nodes : List Node) (were : Bool) (lines : List Text)
      → poll_threads sites name_at message_of local_time format_line min_log_level p.threads.nodes
          p.threads.nodes
        ≡ some (nodes, were, lines)
      → Accounted p
      → Accounted
          (record p { threads = record p.threads { nodes = nodes }; written = p.written ++ lines })
  Accounted-polls p min_log_level local_time format_line nodes were lines at acc =
      let (after, left, at') =
        poll_threads_lem sites name_at message_of local_time format_line min_log_level
          p.threads.nodes acc.threads acc.represents acc.distinct in
      let (same_nodes, same_lines) = same_result _ _ _ _ _ _ (sym at ∙ at') in
      record {
        threads = survivors acc.threads;
        represents =
            subst (λ (ns : List Node). Represents sites ns (survivors acc.threads)) (sym same_nodes)
              left;
        distinct = DistinctThreads-survivors acc.threads acc.distinct;
        batches = acc.batches ++ batch ∷ [];
        lines =
            ap₂ ◌++◌ acc.lines (same_lines ∙ sym (append-nil _))
            ∙ sym (written_by-append sites name_at message_of acc.batches (batch ∷ []));
        complete = λ a.
            ap (λ (l : List Taken). from a l ++ events_at a (survivors acc.threads))
              (taken_in-append acc.batches (batch ∷ [])
                ∙ ap (λ (l : List Taken). taken_in acc.batches ++ l)
                    (append-nil (taken acc.threads)))
            ∙ ap (λ (l : List LogEvent). l ++ events_at a (survivors acc.threads))
                (from-append a (taken_in acc.batches) (taken acc.threads))
            ∙ append_assoc (from a (taken_in acc.batches)) (from a (taken acc.threads))
                (events_at a (survivors acc.threads))
            ∙ ap (λ (l : List LogEvent). from a (taken_in acc.batches) ++ l)
                (taken_lem a acc.threads acc.distinct)
            ∙ acc.complete a;
      }
    where
      batch : Batch
      batch = record {
        local_time = local_time;
        format_line = format_line;
        min_log_level = min_log_level;
        events = taken acc.threads;
      }

      same_result :
          (n n' : List Node) (b b' : Bool) (l l' : List Text)
          → ◌≡◌ {A = Option (List Node × Bool × List Text)} (some (n, b, l)) (some (n', b', l'))
          → (n ≡ n') × (l ≡ l')
      same_result n n' b b' l l' e = (cc, cc)

  Accounted-step :
      {p q : Program}
      → ProgramStep to_string sites name_at message_of p q
      → Accounted p
      → Accounted q
  Accounted-step {p} (starts address queue_size thread_name absent small) acc =
      Accounted-starts p address queue_size thread_name absent small acc
  Accounted-step {p} (logs address static_data thread_name timestamp args c there alive call typed)
        acc =
      Accounted-change_context p address c (log_on static_data thread_name timestamp args c) _ there
        (λ es h. Contains-log_on call c es typed h) acc
  Accounted-step {p} (ends address c there) acc = Accounted-ends p address c there acc
  Accounted-step {p} (polls min_log_level local_time format_line nodes were lines at) acc =
      Accounted-polls p min_log_level local_time format_line nodes were lines at acc

  -- In a run in which the calls of the threads and the polls of the backend do not overlap, each of them
  -- one uninterrupted step whose loads show the newest stores, each accepted event is accounted for: of
  -- each thread, the events that the polls took and then those in its queue are the events that its queue
  -- accepted, each once and in their order; and the lines written are those of these polls.
  pub Run-Accounted : {p : Program} → Run to_string sites name_at message_of p → Accounted p
  Run-Accounted begin = record {
    threads = [];
    represents = tt;
    distinct = tt;
    batches = [];
    lines = refl;
    complete = λ a. refl;
  }
  Run-Accounted (next run step) = Accounted-step step (Run-Accounted run)
