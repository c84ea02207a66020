-- ===== src/Sched/ListHead.antt =====
-- The kernel's intrusive lists (linux/list.h, which is not part of the repository) as the scheduling
-- class uses them: an array of list heads, named by their index, and entries, named by the task
-- that embeds them. An entry is on one list at most, and once.
pub mod Arrays
use epfl_ba6_os.Prelude.{
  ℕ, ◌<◌, ◌≡◌, ◌↔◌, List, [], ◌∷◌, ◌++◌, Bool, true, ◌==◌, if◌then◌else◌, count, remove,
}

-- DUMMY_QUEUE_SIZE
abbrev pub dummy_queue_size : ℕ
dummy_queue_size = 5

pub record ListHead : Type 1 where
  pub Links : Type 0
  -- What a traversal from a head meets.
  pub entries : Links → ℕ → List ℕ
  pub init_list_head : Links → ℕ → Links
  pub list_add_tail : Links → ℕ → ℕ → Links
  pub list_del_init : Links → ℕ → Links
  pub list_move_tail : Links → ℕ → ℕ → Links
  pub list_empty : Links → ℕ → Bool
  pub list_first_entry : Links → ℕ → ℕ
  -- INIT_LIST_HEAD makes the list of a head empty.
  pub entries-init :
      (l : Links) (q r : ℕ) → entries (init_list_head l q) r ≡ (if q == r then [] else entries l r)
  -- list_add_tail puts an entry that is on no list last.
  pub entries-add :
      (l : Links) (p q r : ℕ)
      → ((s : ℕ) → s < dummy_queue_size → count p (entries l s) ≡ 0)
      → entries (list_add_tail l p q) r ≡ (if q == r then entries l r ++ p ∷ [] else entries l r)
  -- list_del_init takes an entry off the list that it is on.
  pub entries-del : (l : Links) (p r : ℕ) → entries (list_del_init l p) r ≡ remove p (entries l r)
  -- list_move_tail takes it off its list and puts it last on another.
  pub entries-move :
      (l : Links) (p q r : ℕ)
      → entries (list_move_tail l p q) r
        ≡ (if q == r then remove p (entries l r) ++ p ∷ [] else remove p (entries l r))
  pub list_empty_iff : (l : Links) (q : ℕ) → (list_empty l q ≡ true) ↔ (entries l q ≡ [])
  pub first-entries :
      (l : Links) (q p : ℕ) (ps : List ℕ) → entries l q ≡ p ∷ ps → list_first_entry l q ≡ p
