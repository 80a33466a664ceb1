-- ===== src/Backend/Poll.antt =====
-- `poll_threads` (include/papper/detail/core.h) does a round over the threads.
use papper.Common.{
  ℕ, ◌≡◌, refl, sym, ap, ◌∙◌, Bool, true, false, not, ◌||◌, Option, some, List, [], ◌∷◌, ◌++◌,
  append_assoc, ==_iff, ==_false,
}
use papper.Common.Int.{ℤ}
use papper.Codec.{Value}
use papper.Text.{Text}
use papper.Level.{LogLevel}
use papper.Pattern.{PatternData}
use papper.Event.{CallSiteStaticData}
use papper.Backend.{ThreadContext, Node, put_context, visit, poll_threads}
use papper.Backend.Visit.{LogEvent, Contains, lines_of, visit-nothing, visit-event}
use papper.Backend.Nodes.{Absent, Absent-append, remove-listed}
use papper.Backend.Represents.{Distinct, Represents, Represents-Distinct}
use papper.Backend.Rounds.{Thread, survivors, taken, is_nonempty, events_of, DistinctThreads}

-- No node of `walk` has the address of a node of `done`.
abbrev Apart : List Node → List Node → Type 0
Apart done [] = Unit {0}
Apart done (n ∷ ns) = Absent n.address done × Apart done ns

Apart-snoc :
    (done walk : List Node) (n : Node)
    → Absent n.address walk
    → Apart done walk
    → Apart (done ++ n ∷ []) walk
Apart-snoc done [] n a h = tt
Apart-snoc done (m ∷ walk) n a h = (
  Absent-append m.address done (n ∷ []) h.0 ((λ e. a.0 (sym e)), tt),
  Apart-snoc done walk n a.1 h.1,
)

put_context_lem :
    (done : List Node) (n : Node) (c : ThreadContext) (rest : List Node)
    → Absent n.address done
    → put_context n.address c (done ++ n ∷ rest) ≡ done ++ record n { context = c } ∷ rest
put_context_lem [] n c rest absent = rw ((==_iff n.address n.address).1 refl)
put_context_lem (m ∷ done) n c rest absent =
    rw (==_false m.address n.address absent.0)
      (ap (λ (l : List Node). m ∷ l) (put_context_lem done n c rest absent.1))

module _ (sites : ℕ → CallSiteStaticData) (name_at : ℕ → Text)
    (message_of : Text → List Value → Text) (local_time : ℕ → ℤ) (format_line : PatternData → Text)
    (min_log_level : LogLevel) where
  abbrev lines : List LogEvent → List Text
  lines = lines_of sites name_at message_of local_time format_line min_log_level

  abbrev walked : List Node → List Node → Option (List Node × Bool × List Text)
  walked = poll_threads sites name_at message_of local_time format_line min_log_level

  -- What the walk over `ns` does if it finds the list `all`.
  record Round (done ns all : List Node) (ts : List Thread) : Type 0 where
    after : List Node
    represents : Represents sites after (survivors ts)
    result :
        walked ns all ≡ some (done ++ after, is_nonempty (taken ts), lines (events_of (taken ts)))

  -- A node that stays, with the context `c`.
  walked-kept :
      (done : List Node) (n : Node) (ns : List Node) (ts : List Thread) (c : ThreadContext)
      (p : Bool) (ls : List Text)
      → Absent n.address done
      → visit sites name_at message_of local_time format_line min_log_level (λ x. x) n.context
        ≡ some (record { context = c; processed = p; dead = false; lines = ls })
      → (next : Round
          (done ++ record n { context = c } ∷ [])
          ns
          ((done ++ record n { context = c } ∷ []) ++ ns)
          ts)
      → walked (n ∷ ns) (done ++ n ∷ ns)
        ≡ some (
          done ++ record n { context = c } ∷ next.after,
          p || is_nonempty (taken ts),
          ls ++ lines (events_of (taken ts)),
        )
  unfolding poll_threads
  walked-kept done n ns ts c p ls a at next = rw at (
      rw (put_context_lem done n c ns a) (
        rw (sym (append_assoc done (record n { context = c } ∷ []) ns)) (
          rw next.result (
            ap {B = Option (List Node × Bool × List Text)}
              (λ (l : List Node).
                some (l, p || is_nonempty (taken ts), ls ++ lines (events_of (taken ts))))
              (append_assoc done (record n { context = c } ∷ []) next.after)))))

  -- A node that goes.
  walked-gone :
      (done : List Node) (n : Node) (ns : List Node) (ts : List Thread) (c : ThreadContext)
      → Absent n.address done
      → visit sites name_at message_of local_time format_line min_log_level (λ x. x) n.context
        ≡ some (record { context = c; processed = false; dead = true; lines = [] })
      → (next : Round done ns (done ++ ns) ts)
      → walked (n ∷ ns) (done ++ n ∷ ns)
        ≡ some (done ++ next.after, is_nonempty (taken ts), lines (events_of (taken ts)))
  unfolding poll_threads
  walked-gone done n ns ts c a at next =
      rw at (rw (remove-listed done n ns a) (rw next.result refl))

  -- The step at a node, from what the walk does behind it.
  step :
      (done : List Node) (n : Node) (ns : List Node) (a : ℕ) (b : Bool) (es : List LogEvent)
      (ts : List Thread)
      → n.address ≡ a
      → n.context.is_alive ≡ b
      → Contains sites n.context.queue es
      → Absent n.address done
      → ((c : ThreadContext)
          → Round
              (done ++ record n { context = c } ∷ [])
              ns
              ((done ++ record n { context = c } ∷ []) ++ ns)
              ts)
      → Round done ns (done ++ ns) ts
      → Round done (n ∷ ns) (done ++ n ∷ ns) (record { address = a; alive = b; events = es } ∷ ts)
  unfolding poll_threads
  step done n ns a b ((h, args) ∷ es) ts ea eb holds absent kept gone =
      let (q, left, at) =
        visit-event sites name_at message_of local_time format_line min_log_level (λ x. x) n.context
          h args es holds in
      let next = kept (record n.context { queue = q }) in
      record {
        after = record n { context = record n.context { queue = q } } ∷ next.after;
        represents = (ea, eb, left, next.represents);
        result = walked-kept done n ns ts (record n.context { queue = q }) true _ absent at next;
      }
  step done n ns a true [] ts ea eb holds absent kept gone =
      let (q, left, at, _) =
        visit-nothing sites name_at message_of local_time format_line min_log_level (λ x. x)
          n.context holds in
      let next = kept (record n.context { queue = q }) in
      record {
        after = record n { context = record n.context { queue = q } } ∷ next.after;
        represents = (ea, eb, left, next.represents);
        result =
            walked-kept done n ns ts (record n.context { queue = q }) false [] absent
              (at ∙ rw eb refl) next;
      }
  step done n ns a false [] ts ea eb holds absent kept gone =
      let (q, left, at, _) =
        visit-nothing sites name_at message_of local_time format_line min_log_level (λ x. x)
          n.context holds in
      record {
        after = gone.after;
        represents = gone.represents;
        result =
            walked-gone done n ns ts (record n.context { queue = q }) absent
              (at
                ∙ ap
                    (λ (b : Bool). some (record {
                      context = record n.context { queue = q };
                      processed = false;
                      dead = not b;
                      lines = [];
                    }))
                    eb)
              gone;
      }

  walk_lem :
      (done ns : List Node) (ts : List Thread)
      → Represents sites ns ts
      → Distinct ns
      → Apart done ns
      → Round done ns (done ++ ns) ts
  unfolding poll_threads
  walk_lem done [] [] r d a = record { after = []; represents = tt; result = refl }
  walk_lem done [] (t ∷ ts) r d a = absurd r
  walk_lem done (n ∷ ns) [] r d a = absurd r
  walk_lem done (n ∷ ns) (t ∷ ts) r d a =
      step done n ns t.address t.alive t.events ts r.0 r.1 r.2 a.0
        (λ c.
          walk_lem (done ++ record n { context = c } ∷ []) ns ts r.3 d.1
            (Apart-snoc done ns (record n { context = c }) d.0 a.1))
        (walk_lem done ns ts r.3 d.1 a.1)

  Apart-nil : (ns : List Node) → Apart [] ns
  Apart-nil [] = tt
  Apart-nil (n ∷ ns) = (tt, Apart-nil ns)

  -- If the nodes of the list stand for threads with different addresses: a poll does one round over
  -- them. It takes the first event of each thread that has one, in the order of the list, and writes
  -- the lines of these; dead threads that have no event are removed, all others stay in their order
  -- with the events that they have left; and it says whether it took an event.
  pub poll_threads_lem :
      (ns : List Node) (ts : List Thread)
      → Represents sites ns ts
      → DistinctThreads ts
      → (after : List Node) × Represents sites after (survivors ts)
        × (poll_threads sites name_at message_of local_time format_line min_log_level ns ns
            ≡ some (
              after,
              is_nonempty (taken ts),
              lines_of sites name_at message_of local_time format_line min_log_level
                  (events_of (taken ts)),
            ))
  poll_threads_lem ns ts r d =
      let round = walk_lem [] ns ts r (Represents-Distinct sites ns ts r d) (Apart-nil ns) in
      (round.after, round.represents, round.result)
