-- ===== src/ThreadList/ThreadSteps.antt =====
-- Threads that register (include/papper/detail/core.h) keep the invariant of the list.
use papper.Common.{ℕ, ◌≡◌, refl, sym, subst, ◌≢◌, none, some, ◌∷◌, ==_iff}
use papper.Common.Distinct.{Out, In, erase, Distinct-erase, Out-erased}
use papper.ThreadList.{ListNode, write, ListState}
use papper.ThreadList.Chain.{Chain, Chain-write}
use papper.ThreadList.Invariant.{
  ListInv, Chain-Out, Unpublished-Out, Unpublished-In, Unpublished-write, Unpublished-listed,
  Unpublished-erase, PcOk-push,
}

module _ (s : ListState) (i : ListInv s) where
  pub allocate-ListInv :
      (a context loaded : ℕ)
      → a ≢ 0
      → s.heap a ≡ none
      → ListInv (record s {
        heap = write s.heap a (some (record { context = context; next = loaded }));
        registering = a ∷ s.registering;
      })
  allocate-ListInv a context loaded ne free = record {
    chain = Chain-write s.heap a (some n) s.head s.listed out i.chain;
    distinct = i.distinct;
    unpublished = (
      ne,
      out,
      (n, rw ((==_iff a a).1 refl) refl),
      Unpublished-write s.heap s.listed a n s.registering i.unpublished,
    );
    once = i.once;
    distinct_new =
        (Unpublished-Out s.heap s.listed a s.registering free i.unpublished, i.distinct_new);
    place = i.place;
  }
    where
      n : ListNode
      n = record { context = context; next = loaded }

      out : Out a s.listed
      out = Chain-Out s.heap a s.head s.listed free i.chain

  pub retry-ListInv :
      (a loaded : ℕ) (n : ListNode)
      → In a s.registering
      → ListInv (record s { heap = write s.heap a (some (record n { next = loaded })) })
  retry-ListInv a loaded n new = record {
    chain =
        Chain-write s.heap a (some (record n { next = loaded })) s.head s.listed
          (Unpublished-In s.heap s.listed a s.registering new i.unpublished).1 i.chain;
    distinct = i.distinct;
    unpublished =
        Unpublished-write s.heap s.listed a (record n { next = loaded }) s.registering
          i.unpublished;
    once = i.once;
    distinct_new = i.distinct_new;
    place = i.place;
  }

  pub publish-ListInv :
      (a : ℕ) (n : ListNode)
      → In a s.registering
      → s.heap a ≡ some n
      → n.next ≡ s.head
      → ListInv (record s { head = a; registering = erase a s.registering; listed = a ∷ s.listed })
  publish-ListInv a n new holds to_head =
      let (ne, out) = Unpublished-In s.heap s.listed a s.registering new i.unpublished in
      record {
        chain = (
          refl,
          ne,
          (n, holds, subst (λ (p : ℕ). Chain s.heap p s.listed) (sym to_head) i.chain),
        );
        distinct = (out, i.distinct);
        unpublished =
            Unpublished-listed s.heap s.listed a (erase a s.registering)
              (Out-erased a s.registering i.distinct_new)
              (Unpublished-erase s.heap s.listed a s.registering i.unpublished);
        once = i.once;
        distinct_new = Distinct-erase a s.registering i.distinct_new;
        place = PcOk-push a s.listed s.visited s.snapshot s.pc i.place;
      }
