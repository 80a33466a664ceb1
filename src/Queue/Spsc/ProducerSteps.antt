-- ===== src/Queue/Spsc/ProducerSteps.antt =====
-- The steps of the producer of `Queue.Spsc` keep its invariant.
use papper.Common.{
  ℕ, ◌+◌, ◌%◌, ◌≤◌, ◌≡◌, refl, sym, ap, ◌∙◌, subst, ◌⊎◌, inl, inr, Bool, true, false, List, [], ◌∷◌,
  ◌++◌, append_assoc, arith, map, ltb, if◌then◌else◌, length, length-append, u64,
}
use papper.Memory.{Bytes, blit, Holds, Holds-blit_ne, Holds-blit, Holds-append_intro}
use papper.Queue.{Queue, WriteReservation, free_space, reserve_write, commit_write}
use papper.Queue.Ring.{total, total-append}
use papper.Queue.Invariant.{View, pending, end_pos, IsValid}
use papper.Queue.Producer.{
  Refused, Granted, look_r, reserve_write_lem, blit-IsValid, publish, commit_write-IsValid,
  reserve_write_queue,
}
use papper.Queue.Spsc.{
  Framing, Producer, idle, writing, System, latest, begin_write, after_reserve_write,
}
use papper.Queue.Spsc.Logs.{ends, ends-snoc, IsChain, IsChain-le, Shown, chain-Shown}
use papper.Queue.Spsc.Invariant.{ProducerOk, ConsumerOk, AllMessages-snoc, Inv}
use native.Mathlib.Nat.{mod-lt}

module _ (F : Framing) where
  open F use {IsMessage, frame, frame_lem, nonempty}

  -- The answer of `reserve_write` puts the producer in order.
  begun_write :
      (v : View) (size : ℕ) (q : Queue) (res : WriteReservation)
      → Refused v size (q, res) ⊎ Granted v size (q, res)
      → ProducerOk q.capacity q.buffer (end_pos v) v.cached (begin_write res size)
  begun_write v size q res (inl (e, _)) = rw e tt
  begun_write v size q res (inr (e, le)) = rw e (refl, refl, le, omega arith, tt)

  pub reserve-Inv :
      {s : System} (size : ℕ) (passed rest : List ℕ)
      → Inv F s
      → s.producer ≡ idle
      → s.r_log ≡ passed ++ rest
      → Inv F (after_reserve_write s size passed rest)
  reserve-Inv {s} size passed rest i free split = rw loaded (record {
    view = look_r s.queue i.view sh.position size;
    reads = if loads then sh.others else i.reads;
    valid = lem.0;
    w_logged = i.w_logged;
    r_logged = logged_if loads;
    chain = chain_if loads;
    messages = i.messages;
    fifo = i.fifo;
    producing = begun_write view size out.0 out.1 lem.1;
    consuming =
        subst (λ (q : Queue). ConsumerOk q.capacity i.view s.consumer)
          (sym (reserve_write_queue (u64 sh.position) s.queue size)) i.consuming;
  })
    where
      sh : Shown i.view.cached i.reads i.view.start passed rest
      sh =
          chain-Shown i.view.cached i.reads i.view.start passed rest (sym i.r_logged ∙ split)
            i.chain

      loads : Bool
      loads = ltb (free_space s.queue) size

      loaded : latest s.queue.cached_r passed ≡ u64 sh.position
      loaded = ap (λ (x : ℕ). latest x passed) i.valid.cached_r_pos ∙ sh.shows

      old : sh.position ≤ i.view.start
      old = IsChain-le sh.position sh.others i.view.start sh.chain

      out : Queue × WriteReservation
      out = reserve_write (u64 sh.position) s.queue size

      view : View
      view = look_r s.queue i.view sh.position size

      lem : IsValid out.0 view × (Refused view size out ⊎ Granted view size out)
      lem = reserve_write_lem sh.position size i.valid sh.newer old

      logged_if :
          (b : Bool) → (if b then rest else s.r_log) ≡ map u64 (if b then sh.others else i.reads)
      logged_if true = sh.left
      logged_if false = i.r_logged

      chain_if :
          (b : Bool)
          → IsChain
              (if b then sh.position else i.view.cached)
              (if b then sh.others else i.reads)
              i.view.start
      chain_if true = sh.chain
      chain_if false = i.chain

  pub write-Inv :
      {s : System} (j pos size : ℕ) (done bs : Bytes)
      → Inv F s
      → s.producer ≡ writing j pos size done
      → length done + length bs ≤ size
      → Inv F (record s {
        queue = record s.queue { buffer = blit s.queue.buffer (j + length done) bs };
        producer = writing j pos size (done ++ bs);
      })
  write-Inv {s} j pos size done bs i at fits = rw place (record {
    view = i.view;
    reads = i.reads;
    valid = blit-IsValid (length done) bs i.valid (omega (arith, ok.2));
    w_logged = i.w_logged;
    r_logged = i.r_logged;
    chain = i.chain;
    messages = i.messages;
    fifo = i.fifo;
    producing = (refl, ok.1, ok.2, omega (arith, length-append done bs), both);
    consuming = i.consuming;
  })
    where
      cap' : ℕ
      cap' = s.queue.capacity

      ok : ProducerOk cap' s.queue.buffer (end_pos i.view) i.view.cached (writing j pos size done)
      ok =
          subst (λ (x : Producer). ProducerOk cap' s.queue.buffer (end_pos i.view) i.view.cached x)
            at i.producing

      place : j ≡ end_pos i.view % cap'
      place = ok.0

      both :
          Holds
            (blit s.queue.buffer (end_pos i.view % cap' + length done) bs)
            (end_pos i.view % cap')
            (done ++ bs)
      both =
          Holds-append_intro _ _ done bs
            (Holds-blit_ne s.queue.buffer _ bs _ done (inl (omega arith))
              (subst (λ (x : ℕ). Holds s.queue.buffer x done) place ok.4))
            (Holds-blit s.queue.buffer _ bs (
              omega (
                arith,
                i.valid.storage,
                ok.2,
                i.valid.cached_old,
                mod-lt (end_pos i.view) i.valid.capacity_pos,
              )))

  pub commit-Inv :
      {s : System} (j pos size : ℕ) (m : Bytes)
      → Inv F s
      → s.producer ≡ writing j pos size m
      → length m ≡ size
      → IsMessage m
      → Inv F (record s {
        queue = commit_write s.queue pos;
        w_log = s.w_log ++ pos ∷ [];
        producer = idle;
        sent = s.sent ++ m ∷ [];
      })
  unfolding commit_write
  commit-Inv {s} j pos size m i at full is_message = rw where_to (record {
    view = publish i.view m;
    reads = i.reads;
    valid =
        unfold commit_write in
        commit_write-IsValid m i.valid (nonempty m is_message) (omega (arith, ok.2))
          (subst (λ (x : ℕ). Holds s.queue.buffer x m) ok.0 ok.4);
    w_logged = ap (λ (l : List ℕ). l ++ u64 (end_pos i.view + length m) ∷ []) i.w_logged ∙ logged;
    r_logged = i.r_logged;
    chain = i.chain;
    messages = rw (sym assoc) (AllMessages-snoc F (pending i.view) m i.messages is_message);
    fifo =
        ap (λ (l : List Bytes). l ++ m ∷ []) i.fifo
        ∙ append_assoc s.received (pending i.view) (m ∷ [])
        ∙ ap (λ (l : List Bytes). s.received ++ l) assoc;
    producing = tt;
    consuming = i.consuming;
  })
    where
      ok :
          ProducerOk s.queue.capacity s.queue.buffer
            (end_pos i.view)
            i.view.cached
            (writing j pos size m)
      ok =
          subst
            (λ (x : Producer).
              ProducerOk s.queue.capacity s.queue.buffer (end_pos i.view) i.view.cached x)
            at i.producing

      where_to : pos ≡ u64 (end_pos i.view + length m)
      where_to = ok.1 ∙ ap (λ (x : ℕ). u64 (end_pos i.view + x)) (sym full)

      assoc : pending i.view ++ m ∷ [] ≡ pending (publish i.view m)
      assoc = append_assoc i.view.seen i.view.unseen (m ∷ [])

      logged :
          ends (i.view.start + total i.view.seen) i.view.unseen
            ++ u64 (end_pos i.view + length m) ∷ []
          ≡ ends (i.view.start + total i.view.seen) (i.view.unseen ++ m ∷ [])
      logged =
          ap
            (λ (x : ℕ).
              ends (i.view.start + total i.view.seen) i.view.unseen ++ u64 (x + length m) ∷ [])
            (omega (arith, total-append i.view.seen i.view.unseen))
          ∙ sym (ends-snoc (i.view.start + total i.view.seen) i.view.unseen m)
