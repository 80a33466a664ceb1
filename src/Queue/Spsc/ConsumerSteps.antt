-- ===== src/Queue/Spsc/ConsumerSteps.antt =====
-- The steps of the consumer of `Queue.Spsc` keep its invariant.
use papper.Common.{
  ℕ, ◌+◌, ◌≡◌, refl, sym, ap, ◌∙◌, subst, ◌⊎◌, inl, inr, Bool, true, false, none, some, List, [],
  ◌∷◌, ◌++◌, append_assoc, arith, leb, if◌then◌else◌, Bool-cases, length, u64, add64,
}
use papper.Memory.{Bytes, load, Holds, load-Holds}
use papper.Queue.{Queue, ReadReservation, reserve_read, commit_read}
use papper.Queue.Ring.{total, total-append}
use papper.Queue.Invariant.{View, pending, end_pos, IsValid}
use papper.Queue.Consumer.{
  reveal, same_pending, look_w, Nothing, Message, reserve_read_lem, consume, end_pos-consume,
  commit_read-IsValid, reserve_read_queue,
}
use papper.Queue.Spsc.{
  Framing, Consumer, waiting, reading, System, latest, begin_read, after_reserve_read,
}
use papper.Queue.Spsc.Logs.{ends, Passed, ends-Passed, IsChain, IsChain-snoc}
use papper.Queue.Spsc.Invariant.{ProducerOk, ConsumerOk, Inv}
use mathlib.Core.List.{map-append}

module _ (F : Framing) where
  open F use {IsMessage, frame, frame_lem, nonempty}

  begun_read :
      (v : View) (q : Queue) (res : ReadReservation)
      → Nothing v (q, res) ⊎ Message v (q, res)
      → ConsumerOk q.capacity v (begin_read res)
  begun_read v q res (inl (e, _)) =
      elim res.buffer
          as (λ b.
            b ≡ none
            → ConsumerOk q.capacity v
                (elim b [ none ↦ waiting | some i ↦ reading i res.current_read_pos ])) [
                  | none ↦ (λ _. tt)
                  | some x ↦ (λ h. cc)
                ]
        e
  begun_read v q res (inr (m, ms, e, at)) = rw at (refl, refl, (m, ms, e))

  pub look-Inv :
      {s : System} (passed rest : List ℕ)
      → Inv F s
      → s.consumer ≡ waiting
      → s.w_log ≡ passed ++ rest
      → Inv F (after_reserve_read s passed rest)
  look-Inv {s} passed rest i free split = rw loaded (record {
    view = view;
    reads = i.reads;
    valid = lem.0;
    w_logged = logged_if (leb s.queue.cached_w s.queue.r);
    r_logged = i.r_logged;
    chain = chain_if (leb s.queue.cached_w s.queue.r);
    messages = rw same i.messages;
    fifo = rw same i.fifo;
    producing =
        subst (λ (q : Queue). ProducerOk q.capacity q.buffer (end_pos view) view.cached s.producer)
          (sym (reserve_read_queue (u64 (i.view.start + total (i.view.seen ++ p.more))) s.queue))
          (producing_if (leb s.queue.cached_w s.queue.r));
    consuming = begun_read view out.0 out.1 lem.1;
  })
    where
      p : Passed (i.view.start + total i.view.seen) i.view.unseen passed rest
      p =
          ends-Passed (i.view.start + total i.view.seen) i.view.unseen passed rest
            (sym i.w_logged ∙ split)

      further :
          i.view.start + total i.view.seen + total p.more
          ≡ i.view.start + total (i.view.seen ++ p.more)
      further = omega (arith, total-append i.view.seen p.more)

      loaded : latest s.queue.cached_w passed ≡ u64 (i.view.start + total (i.view.seen ++ p.more))
      loaded = ap (λ (x : ℕ). latest x passed) i.valid.cached_w_pos ∙ p.shows ∙ ap u64 further

      out : Queue × ReadReservation
      out = reserve_read (u64 (i.view.start + total (i.view.seen ++ p.more))) s.queue

      view : View
      view = look_w s.queue i.view p.more p.others

      lem : IsValid out.0 view × (Nothing view out ⊎ Message view out)
      lem = reserve_read_lem p.more p.others i.valid p.split

      same : pending view ≡ pending i.view
      same = elim (Bool-cases (leb s.queue.cached_w s.queue.r)) [
        | inl e ↦ rw e (same_pending i.valid p.more p.others p.split)
        | inr e ↦ rw e
      ]

      logged_if :
          (b : Bool)
          → let v = if b then reveal i.view p.more p.others else i.view in
            (if b then rest else s.w_log) ≡ ends (v.start + total v.seen) v.unseen
      logged_if true = p.left ∙ ap (λ (x : ℕ). ends x p.others) further
      logged_if false = i.w_logged

      chain_if :
          (b : Bool)
          → let v = if b then reveal i.view p.more p.others else i.view in
            IsChain v.cached i.reads v.start
      chain_if true = i.chain
      chain_if false = i.chain

      producing_if :
          (b : Bool)
          → let v = if b then reveal i.view p.more p.others else i.view in
            ProducerOk s.queue.capacity s.queue.buffer (end_pos v) v.cached s.producer
      producing_if true =
          subst
            (λ (l : List Bytes).
              ProducerOk s.queue.capacity s.queue.buffer (i.view.start + total l) i.view.cached
                s.producer)
            (sym (same_pending i.valid p.more p.others p.split)) i.producing
      producing_if false = i.producing

  -- What the consumer points at is the first message, and that is what it reads.
  -- Where the consumer points there is the first message that it sees.
  pub first_held :
      (j pos : ℕ) {s : System}
      → (i : Inv F s) → s.consumer ≡ reading j pos
      → (m : Bytes) × (ms : List Bytes) × (i.view.seen ≡ m ∷ ms)
        × (pos ≡ u64 i.view.start)
        × Holds s.queue.buffer j m
        × IsMessage m
  first_held j pos {s} i at =
      let (m, ms, e) = ok.2 in
      let (there, message) = first m ms e in (m, ms, e, ok.1, there, message)
    where
      ok : ConsumerOk s.queue.capacity i.view (reading j pos)
      ok = subst (λ (x : Consumer). ConsumerOk s.queue.capacity i.view x) at i.consuming

      first :
          (m : Bytes) (ms : List Bytes)
          → i.view.seen ≡ m ∷ ms
          → Holds s.queue.buffer j m × IsMessage m
      first m ms e =
          let whole : pending i.view ≡ m ∷ (ms ++ i.view.unseen) =
            ap (λ (x : List Bytes). x ++ i.view.unseen) e in
          (
            subst (λ (x : ℕ). Holds s.queue.buffer x m) (sym ok.0) (rw whole at i.valid.held).0,
            (rw whole at i.messages).0,
          )

  pub read_first :
      (j pos : ℕ) {s : System}
      → (i : Inv F s) → s.consumer ≡ reading j pos
      → (m : Bytes) × (ms : List Bytes) × (i.view.seen ≡ m ∷ ms)
        × (pos ≡ u64 i.view.start)
        × (frame s.queue.buffer j ≡ length m)
        × (load s.queue.buffer j (frame s.queue.buffer j) ≡ some m)
  read_first j pos {s} i at =
      let (m, ms, e, begin, there, message) = first_held j pos i at in
      let size : frame s.queue.buffer j ≡ length m = frame_lem s.queue.buffer j m message there in
      (m, ms, e, begin, size, rw size (load-Holds s.queue.buffer j m there))

  -- With the position and the message written out.
  received_Inv :
      {s : System} (i : Inv F s) (m m' : Bytes) (ms : List Bytes)
      → i.view.seen ≡ m' ∷ ms
      → m' ≡ m
      → Inv F (record s {
        queue = commit_read s.queue (u64 (i.view.start + length m'));
        r_log = s.r_log ++ u64 (i.view.start + length m') ∷ [];
        consumer = waiting;
        received = s.received ++ m ∷ [];
      })
  received_Inv {s} i m m' ms e same = record {
    view = consume i.view m' ms;
    reads = i.reads ++ (i.view.start + length m') ∷ [];
    valid = commit_read-IsValid m' ms e i.valid;
    w_logged = i.w_logged ∙ ap (λ (x : ℕ). ends x i.view.unseen) (omega (arith, ap total e));
    r_logged =
        ap (λ (l : List ℕ). l ++ u64 (i.view.start + length m') ∷ []) i.r_logged
        ∙ sym (map-append u64 i.reads ((i.view.start + length m') ∷ []));
    chain = IsChain-snoc i.view.cached i.reads i.view.start (length m') i.chain;
    messages = (rw whole at i.messages).1;
    fifo =
        i.fifo
        ∙ ap (λ (l : List Bytes). s.received ++ l) whole
        ∙ sym (append_assoc s.received (m' ∷ []) (ms ++ i.view.unseen))
        ∙ ap (λ (x : Bytes). (s.received ++ x ∷ []) ++ (ms ++ i.view.unseen)) same;
    producing =
        unfold commit_read in
        subst (λ (x : ℕ). ProducerOk s.queue.capacity s.queue.buffer x i.view.cached s.producer)
          (end_pos-consume i.view m' ms e) i.producing;
    consuming = tt;
  }
    where
      whole : pending i.view ≡ m' ∷ (ms ++ i.view.unseen)
      whole = ap (λ (x : List Bytes). x ++ i.view.unseen) e

  pub receive-Inv :
      {s : System} (j pos : ℕ) (m : Bytes)
      → Inv F s
      → s.consumer ≡ reading j pos
      → load s.queue.buffer j (frame s.queue.buffer j) ≡ some m
      → Inv F (record s {
        queue = commit_read s.queue (add64 pos (frame s.queue.buffer j));
        r_log = s.r_log ++ add64 pos (frame s.queue.buffer j) ∷ [];
        consumer = waiting;
        received = s.received ++ m ∷ [];
      })
  receive-Inv {s} j pos m i at loaded =
      let (m', ms, e, begin, size, reads) = read_first j pos i at in
      rw (where_to m' begin size) (received_Inv i m m' ms e (cc))
    where
      where_to :
          (m' : Bytes)
          → pos ≡ u64 i.view.start
          → frame s.queue.buffer j ≡ length m'
          → add64 pos (frame s.queue.buffer j) ≡ u64 (i.view.start + length m')
      where_to m' begin size = omega (arith, begin, size)
