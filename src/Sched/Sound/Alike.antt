-- ===== src/Sched/Sound/Alike.antt =====
-- Tasks that are the same in two states of the processor of core.c, and the states in which one task
-- is off its run queue.
use epfl_ba6_os.Prelude.{
  ℕ, ◌<◌, ◌≡◌, ◌≢◌, sym, ap, subst, ◌∙◌, inl, inr, true, false, ◌==◌, Bool-cases, ==_iff, arith,
}
use epfl_ba6_os.Sched.ListHead.{ListHead, dummy_queue_size}
use epfl_ba6_os.Sched.Prio.{dummy_sched_class, TaskParams}
use epfl_ba6_os.Sched.Dummy.Place.{on_queue, IsAbsent}
use epfl_ba6_os.Sched.Machine.{Cpu, prio, on_rq}
use epfl_ba6_os.Sched.Sound.{IsLimited, HasPlace, IsFit, Frame}

module _ {W : Type 0} ⦃K : ListHead⦄ where
  -- A task is the same in two states, with its places on the queues.
  pub record Alike (s t : Cpu W) (q : ℕ) : Type 0 where
    pub params : t.params q ≡ s.params q
    pub prio : prio t q ≡ prio s q
    pub on_rq : on_rq t q ≡ on_rq s q
    pub places : (r : ℕ) → r < dummy_queue_size → on_queue t.rq q r ≡ on_queue s.rq q r

  pub Alike-of_Frame : {s t : Cpu W} (q : ℕ) → Frame s t → Alike s t q
  Alike-of_Frame q h = record {
    params = h.same.params q;
    prio = h.same.prio q;
    on_rq = h.same.on_rq q;
    places = h.places q;
  }

  pub IsAbsent-of : {s t : Cpu W} (q : ℕ) → Alike s t q → IsAbsent s.rq q → IsAbsent t.rq q
  IsAbsent-of q h a r b = h.places r b ∙ a r b

  pub HasPlace-of : {s t : Cpu W} (q : ℕ) → Alike s t q → HasPlace s.rq q → HasPlace t.rq q
  HasPlace-of q h (i, b, a, l) =
      (i, b, (λ r c. h.places r c ∙ a r c), (rw h.prio l.0, rw h.prio l.1))

  pub IsLimited-of :
      (s t : Cpu W) (q : ℕ)
      → t.params q ≡ s.params q
      → prio t q ≡ prio s q
      → IsLimited (s.params q) (prio s q)
      → IsLimited (t.params q) (prio t q)
  IsLimited-of s t q e f l = rw (e, f) l

  pub IsFit-of : {s t : Cpu W} (q : ℕ) → Alike s t q → IsFit s q → IsFit t q
  IsFit-of {s} {t} q h v =
      let e = ap (λ (a : TaskParams). a.sched_class) h.params in
      record {
        limited = IsLimited-of s t q h.params h.prio v.limited;
        placed = λ c r. HasPlace-of q h (v.placed (sym e ∙ c) (sym h.on_rq ∙ r));
        absent = λ c.
            IsAbsent-of q h
              (v.absent (elim c [ inl d ↦ inl (λ f. d (e ∙ f)) | inr r ↦ inr (sym h.on_rq ∙ r) ]));
      }

  -- All tasks but `p` are as they should be, and `p` stands on no queue.
  pub record IsOff (s : Cpu W) (p : ℕ) : Type 0 where
    pub others : (q : ℕ) → p ≢ q → IsFit s q
    pub off : IsAbsent s.rq p

  -- The other tasks are, and `p` stands where its class puts it.
  pub record IsSeated (s : Cpu W) (p : ℕ) : Type 0 where
    pub others : (q : ℕ) → p ≢ q → IsFit s q
    pub placed : (s.params p).sched_class ≡ dummy_sched_class → HasPlace s.rq p
    pub absent : (s.params p).sched_class ≢ dummy_sched_class → IsAbsent s.rq p

  pub IsOff-of : {s t : Cpu W} (p : ℕ) → Frame s t → IsOff s p → IsOff t p
  IsOff-of p h v = record {
    others = λ q d. IsFit-of q (Alike-of_Frame q h) (v.others q d);
    off = IsAbsent-of p (Alike-of_Frame p h) v.off;
  }

  -- Back together.
  pub fits-of :
      (s : Cpu W) (p : ℕ) → ((q : ℕ) → p ≢ q → IsFit s q) → IsFit s p → (q : ℕ) → IsFit s q
  fits-of s p h v q = elim (Bool-cases (p == q)) [
    | inl e ↦ subst (IsFit s) ((==_iff p q).0 e) v
    | inr e ↦ h q (λ f. absurd (ground arith))
  ]

  pub IsOff-of_fits : (s : Cpu W) (p : ℕ) → on_rq s p ≡ false → ((q : ℕ) → IsFit s q) → IsOff s p
  IsOff-of_fits s p r v = record { others = λ q d. v q; off = (v p).absent (inr r) }

  -- A task that is not runnable belongs on no queue.
  pub IsFit-of_IsOff :
      (s : Cpu W) (p : ℕ)
      → IsOff s p
      → IsLimited (s.params p) (prio s p)
      → on_rq s p ≡ false
      → (q : ℕ) → IsFit s q
  IsFit-of_IsOff s p v l r =
      fits-of s p v.others
        (record { limited = l; placed = λ c r'. absurd (cc); absent = λ c. v.off })

  pub IsFit-of_IsSeated :
      (s : Cpu W) (p : ℕ)
      → IsSeated s p
      → IsLimited (s.params p) (prio s p)
      → on_rq s p ≡ true
      → (q : ℕ) → IsFit s q
  IsFit-of_IsSeated s p v l r = fits-of s p v.others (record {
    limited = l;
    placed = λ c r'. v.placed c;
    absent = λ c. elim c [ inl d ↦ v.absent d | inr r' ↦ absurd (cc) ];
  })
