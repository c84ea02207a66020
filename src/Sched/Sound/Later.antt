-- ===== src/Sched/Sound/Later.antt =====
-- States of the processor of core.c between which tasks wake up.
use epfl_ba6_os.Prelude.{ℕ, ◌≡◌, ◌≢◌, refl, sym, ap, ◌∙◌, inl, inr, Bool, true, arith}
use epfl_ba6_os.Sched.ListHead.{ListHead}
use epfl_ba6_os.Sched.Prio.{TaskParams}
use epfl_ba6_os.Sched.Machine.{Cpu, prio, on_rq, set_on_rq, set_state}
use epfl_ba6_os.Sched.Core.Keeps.{Same}
use epfl_ba6_os.Sched.Sound.{IsLimited, IsFit, IsSteady}
use epfl_ba6_os.Sched.Sound.Alike.{Alike, IsFit-of, IsSeated, IsFit-of_IsSeated}
use epfl_ba6_os.Sched.Sound.Touched.{Touched-state}

module _ {W : Type 0} ⦃K : ListHead⦄ where
  -- The same task runs, and who was runnable still is.
  pub record Later (s t : Cpu W) : Type 0 where
    pub curr : t.rq.curr ≡ s.rq.curr
    pub idle : t.idle ≡ s.idle
    pub class : (q : ℕ) → (t.params q).sched_class ≡ (s.params q).sched_class
    pub ready : (q : ℕ) → on_rq s q ≡ true → on_rq t q ≡ true

  pub Later-trans : {s t u : Cpu W} → Later s t → Later t u → Later s u
  Later-trans h k = record {
    curr = k.curr ∙ h.curr;
    idle = k.idle ∙ h.idle;
    class = λ q. k.class q ∙ h.class q;
    ready = λ q r. k.ready q (h.ready q r);
  }

  pub Later-of_Same : {s t : Cpu W} → Same s t → Later s t
  Later-of_Same h = record {
    curr = h.curr;
    idle = h.idle;
    class = λ q. ap (λ (a : TaskParams). a.sched_class) (h.params q);
    ready = λ q r. h.on_rq q ∙ r;
  }

  pub IsSteady-Later : {s t : Cpu W} → Later s t → IsSteady s → IsSteady t
  IsSteady-Later {s} {t} h v = record {
    idle_class = λ e.
        v.idle_class (sym (h.class s.idle) ∙ ap (λ q. (t.params q).sched_class) (sym h.idle) ∙ e);
    curr_ready = elim v.curr_ready [
      | inl e ↦ inl (h.curr ∙ e ∙ sym h.idle)
      | inr e ↦ inr (ap (on_rq t) h.curr ∙ h.ready s.rq.curr e)
    ];
  }

  pub set_state-Later : (s : Cpu W) (p n : ℕ) → Later s (set_state s p n)
  set_state-Later s p n = record {
    curr = refl;
    idle = refl;
    class = (Touched-state s p n).class;
    ready = λ q r. r;
  }

  pub set_runnable-Later : (s : Cpu W) (p : ℕ) → Later s (set_on_rq s p true)
  set_runnable-Later s p = record {
    curr = refl;
    idle = refl;
    class = λ q. refl;
    ready = λ q r. ground arith;
  }

  pub set_on_rq-Alike : (s : Cpu W) (p q : ℕ) (b : Bool) → p ≢ q → Alike s (set_on_rq s p b) q
  set_on_rq-Alike s p q b d = record {
    params = refl;
    prio = ground arith;
    on_rq = ground arith;
    places = λ r c. refl;
  }

  pub set_on_rq-prio : (s : Cpu W) (p q : ℕ) (b : Bool) → prio (set_on_rq s p b) q ≡ prio s q
  set_on_rq-prio s p q b = ground arith

  -- A task that stands where its class puts it becomes runnable.
  pub fits-set_runnable :
      (s : Cpu W) (p : ℕ)
      → IsSeated s p
      → IsLimited (s.params p) (prio s p)
      → (q : ℕ) → IsFit (set_on_rq s p true) q
  fits-set_runnable s p v l =
      IsFit-of_IsSeated (set_on_rq s p true) p
        (record {
          others = λ q d. IsFit-of q (set_on_rq-Alike s p q true d) (v.others q d);
          placed = λ c.
              let (i, b, a, level) = v.placed c in
              (
                i,
                b,
                a,
                (rw (set_on_rq-prio s p p true) level.0, rw (set_on_rq-prio s p p true) level.1),
              );
          absent = v.absent;
        })
        (rw (set_on_rq-prio s p p true) l) (ground arith)
