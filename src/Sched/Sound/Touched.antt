-- ===== src/Sched/Sound/Touched.antt =====
-- Writes in core.c to fields of a task that have no say in where it is queued.
use epfl_ba6_os.Prelude.{ℕ, ◌<◌, ◌≡◌, refl, sym, ap, ◌∙◌, inl, inr, arith}
use epfl_ba6_os.Sched.ListHead.{ListHead}
use epfl_ba6_os.Sched.Prio.{max_prio}
use epfl_ba6_os.Sched.Machine.{Cpu, write_params, set_state}
use epfl_ba6_os.Sched.Sound.{IsFit, IsSound}

module _ {W : Type 0} ⦃K : ListHead⦄ where
  pub record Touched (s t : Cpu W) : Type 0 where
    pub class : (q : ℕ) → (t.params q).sched_class ≡ (s.params q).sched_class
    pub normal : (q : ℕ) → (t.params q).normal_prio ≡ (s.params q).normal_prio
    pub static : (q : ℕ) → (s.params q).static_prio < max_prio → (t.params q).static_prio < max_prio
    pub rq : t.rq ≡ s.rq
    pub idle : t.idle ≡ s.idle

  pub IsFit-Touched : (s t : Cpu W) (q : ℕ) → Touched s t → IsFit s q → IsFit t q
  IsFit-Touched s t q h v =
      let e = h.class q in
      let f = v.limited in
      record {
        limited = record {
          level = λ c. rw h.rq (f.level (sym e ∙ c));
          boosted = rw (h.rq, h.normal q) f.boosted;
          normal = rw (h.normal q) f.normal;
          static = h.static q f.static;
        };
        placed = λ c r. rw h.rq (v.placed (sym e ∙ c) (sym (ap (λ x. (x.tasks q).on_rq) h.rq) ∙ r));
        absent = λ c. rw h.rq (
            v.absent (elim c [
              | inl d ↦ inl (λ g. d (e ∙ g))
              | inr r ↦ inr (sym (ap (λ x. (x.tasks q).on_rq) h.rq) ∙ r)
            ]));
      }

  pub IsSound-Touched : (s t : Cpu W) → Touched s t → IsSound s → IsSound t
  IsSound-Touched s t h v = record {
    fits = λ q. IsFit-Touched s t q h (v.fits q);
    steady = record {
      idle_class = λ e. v.steady.idle_class (sym (h.class s.idle) ∙ rw (← h.idle) e);
      curr_ready = elim v.steady.curr_ready [
        | inl e ↦ inl (ap (λ x. x.curr) h.rq ∙ e ∙ sym h.idle)
        | inr e ↦ inr (ap (λ x. (x.tasks x.curr).on_rq) h.rq ∙ e)
      ];
    };
  }

  pub Touched-state : (s : Cpu W) (p n : ℕ) → Touched s (set_state s p n)
  Touched-state s p n = record {
    class = λ q. ground arith;
    normal = λ q. ground arith;
    static = λ q h. ground arith;
    rq = refl;
    idle = refl;
  }

  pub Touched-static :
      (s : Cpu W) (p n : ℕ)
      → n < max_prio
      → Touched s (write_params s p (record (s.params p) { static_prio = n }))
  Touched-static s p n small = record {
    class = λ q. ground arith;
    normal = λ q. ground arith;
    static = λ q h. ground arith;
    rq = refl;
    idle = refl;
  }
