-- ===== src/Sched/ListHead/Arrays.antt =====
-- The lists of the queues as lists of numbers: an instance of the interface of linux/list.h.
use epfl_ba6_os.Prelude.{
  ℕ, ◌≡◌, refl, ◌↔◌, List, [], ◌∷◌, ◌++◌, Bool, true, false, ◌==◌, if◌then◌else◌, remove,
}
use epfl_ba6_os.Sched.ListHead.{ListHead}

-- An array of lists, each a list of numbers.
abbrev pub first_or_zero : List ℕ → ℕ
first_or_zero [] = 0
first_or_zero (x ∷ xs) = x

abbrev pub is_nil : List ℕ → Bool
is_nil [] = true
is_nil (x ∷ xs) = false

pub is_nil_iff : (xs : List ℕ) → (is_nil xs ≡ true) ↔ (xs ≡ [])
is_nil_iff [] = ((λ h. refl), (λ h. refl))
is_nil_iff (x ∷ xs) = ((λ h. cc), (λ h. cc))

pub first_of_cons : (xs : List ℕ) (p : ℕ) (ps : List ℕ) → xs ≡ p ∷ ps → first_or_zero xs ≡ p
first_of_cons xs p ps e = rw e

instance abbrev pub arrays : ListHead
arrays = record {
  Links = ℕ → List ℕ;
  entries = λ l q. l q;
  init_list_head = λ l q r. if q == r then [] else l r;
  list_add_tail = λ l p q r. if q == r then l r ++ p ∷ [] else l r;
  list_del_init = λ l p r. remove p (l r);
  list_move_tail = λ l p q r. if q == r then remove p (l r) ++ p ∷ [] else remove p (l r);
  list_empty = λ l q. is_nil (l q);
  list_first_entry = λ l q. first_or_zero (l q);
  entries-init = λ l q r. refl;
  entries-add = λ l p q r h. refl;
  entries-del = λ l p r. refl;
  entries-move = λ l p q r. refl;
  list_empty_iff = λ l q. is_nil_iff (l q);
  first-entries = λ l q p ps e. first_of_cons (l q) p ps e;
}
